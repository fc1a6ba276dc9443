-- ===== src/Files.antt =====
-- Looking for a file in a directory: `FindFileWithPrefix` of pkg/utils/common.go, and
-- `FindKernelInitrd` of pkg/elemental/elemental.go.
pub mod Search
use elemental_cli.Base.{
  String, ◌<>◌, Bool, true, false, Option, none, some, List, [], ◌∷◌, if◌then◌else◌,
}
use elemental_cli.Base.Text.{has_prefix}
use elemental_cli.Errors.{single, plain}
use elemental_cli.Golang.{Go}
use elemental_cli.Machine.{Call, Outside, World, M, ok, fail, panicked, ask, output, pure, ◌>>=◌}
use elemental_cli.Devices.{exists}

-- An `os.FileInfo`: its `Name()`, `IsDir()`, and whether `Mode()` has `ModeSymlink`.
pub record FileInfo : Type 0 where
  pub name : String
  pub is_dir : Bool
  pub is_symlink : Bool

-- The values of a Go slice of texts, as `%v` prints them, without the brackets.
spaced : List String → String
spaced [] = ""
spaced (s ∷ []) = s
spaced (s ∷ t ∷ ss) = s <> " " <> spaced (t ∷ ss)

-- `entries` reads the reply to `ReadDir`.
module _ (L : Go) (O : Outside) (entries : String → List FileInfo) where
  unfoldable pub read_dir : String → M (List FileInfo)
  unfolding output
  read_dir path = output O (Call.fs "ReadDir" (path ∷ [])) >>= λ out. pure (entries out)

  -- The file that a symbolic link leads to, if it is there.
  unfoldable follow : String → FileInfo → World → Option String × World
  unfolding ask exists has_prefix
  follow path f w =
      let (r, w1) = ask O (Call.fs "Readlink" (L.join (path ∷ f.name ∷ []) ∷ [])) w in
      let found = if has_prefix r.out "/" then r.out else L.join (path ∷ r.out ∷ []) in
      let (there, w2) = exists O found w1 in
      elim r.err [ some _ ↦ (none, w1) | none ↦ (if there then some found else none, w2) ]

  -- The loop on the prefixes for one file.
  unfoldable match_prefixes : String → FileInfo → List String → World → Option String × World
  unfolding follow
  match_prefixes path f [] w = (none, w)
  match_prefixes path f (p ∷ ps) w = elim (has_prefix f.name p) [
    | false ↦ match_prefixes path f ps w
    | true ↦ elim f.is_symlink [
      | false ↦ (some (L.join (path ∷ f.name ∷ [])), w)
      | true ↦
          let (found, w') = follow path f w in
          elim found [ some x ↦ (some x, w') | none ↦ match_prefixes path f ps w' ]
    ]
  ]

  -- The loop on the files.
  unfoldable pub search_files : String → List FileInfo → List String → World → Option String × World
  unfolding match_prefixes
  search_files path [] prefixes w = (none, w)
  search_files path (f ∷ fs) prefixes w = elim f.is_dir [
    | true ↦ search_files path fs prefixes w
    | false ↦
        let (found, w') = match_prefixes path f prefixes w in
        elim found [ some x ↦ (some x, w') | none ↦ search_files path fs prefixes w' ]
  ]

  -- `FindFileWithPrefix`
  unfoldable pub find_file_with_prefix : String → List String → M String
  unfolding read_dir search_files spaced
  find_file_with_prefix path prefixes = read_dir path >>= λ files. λ w.
      let (found, w') = search_files path files prefixes w in
      elim found [
        | some x ↦ (ok x, w')
        | none ↦
            (fail (single (plain ("No file found with prefixes: [" <> spaced prefixes <> "]"))), w')
      ]

  -- `FindKernelInitrd`
  unfoldable pub find_kernel_initrd : String → M (String × String)
  unfolding find_file_with_prefix
  find_kernel_initrd root =
      let boot = L.join (root ∷ "boot" ∷ []) in
      find_file_with_prefix boot ("uImage" ∷ "Image" ∷ "zImage" ∷ "vmlinuz" ∷ "image" ∷ [])
      >>= λ kernel. find_file_with_prefix boot ("initrd" ∷ "initramfs" ∷ []) >>= λ initrd.
          pure (kernel, initrd)
