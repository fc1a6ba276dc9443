-- ===== src/Grub.antt =====
-- `InstallEFI` of pkg/utils/grub.go, with `IdentifySourceSystem` of pkg/utils/common.go.
pub mod Seekers
pub mod Systems
pub mod Found
use elemental_cli.Base.{
  ℕ, String, ◌<>◌, Bool, true, false, ◌&&◌, ◌||◌, Option, none, some, List, [], ◌∷◌, ◌==◌, nat_eq,
  string_eq, if◌then◌else◌,
}
use elemental_cli.Base.Text.{has_prefix}
use elemental_cli.Base.Dict.{Dict, lookup, insert}
use elemental_cli.Constants
use elemental_cli.Errors.{Err, Error, single, plain}
use elemental_cli.Golang.{Go}
use elemental_cli.Machine.{
  Call, Outside, World, Proc, M, ok, fail, ask, perform, errorf, pure, ◌>>=◌, ◌>>◌, lift, ◌then◌,
}
use elemental_cli.Chroot.{mkdir_all}
use elemental_cli.Devices.{copy_file}
use elemental_cli.Walk.{
  FileTree, Visit, entry, unread, no_entry, Walked, go_on, stop, WalkDirFunc, walk_dir_fs,
}

-- `p`, with an error of its own.
abbrev pub with_text : String → Proc → Proc
with_text text p w =
    let (e, w') = p w in (elim e [ none ↦ none | some _ ↦ some (single (plain text)) ], w')

-- The files to boot by EFI of a system, the shim first.
unfoldable pub shim_files : (system arch : String) → List String
shim_files system arch =
    if system == Constants.fedora
    then (if arch == Constants.arch_arm64
        then "shimaa64.efi" ∷ "mmaa64.efi" ∷ "grubx64.efi" ∷ []
        else "shimx64.efi" ∷ "mmx64.efi" ∷ "grubx64.efi" ∷ [])
    else if system == Constants.ubuntu
    then (if arch == Constants.arch_arm64
        then "shimaa64.efi.signed" ∷ "mmaa64.efi" ∷ "grubx64.efi.signed" ∷ []
        else "shimx64.efi.signed" ∷ "mmx64.efi" ∷ "grubx64.efi.signed" ∷ [])
    else if system == Constants.suse
    then "shim.efi" ∷ "MokManager.efi" ∷ "grub.efi" ∷ []
    else []

unfoldable pub shim_name : (system arch : String) → String
shim_name system arch =
    if system == Constants.fedora
    then (if arch == Constants.arch_arm64 then "shimaa64.efi" else "shimx64.efi")
    else if system == Constants.ubuntu
    then (if arch == Constants.arch_arm64 then "shimaa64.efi.signed" else "shimx64.efi.signed")
    else if system == Constants.suse
    then "shim.efi"
    else ""

-- `switch osRelease["ID"]`; a missing key counts as "".
unfoldable pub system_of : Dict String → String
unfolding lookup
system_of release = elim (lookup "ID" release) [
  | none ↦ Constants.suse
  | some id ↦
      if id == Constants.fedora
      then Constants.fedora
      else if id == Constants.ubuntu
      then Constants.ubuntu
      else Constants.suse
]

-- Whether a file was found, in the closures of `InstallEFI`.
abbrev pub Flagged : Type 0
Flagged = Bool × World

-- The file is found if it can be copy_and_flag.
unfoldable pub copy_and_flag : Proc → Flagged → Walked × Flagged
copy_and_flag p (found, w) =
    let (e, w') = p w in elim e [ none ↦ (go_on, (true, w')) | some x ↦ (stop x, (found, w')) ]

module _ (L : Go) where
  -- A line of an os-release file, if it is an assignment.
  release_line : String → Option (String × String)
  unfolding has_prefix
  release_line line =
      if line == "" || has_prefix line "#" then none else elim (L.split_n line "=" 2) [
        | [] ↦ none
        | k ∷ [] ↦ none
        | k ∷ v ∷ [] ↦ some (L.trim (L.trim_space k) "\"", L.trim (L.trim_space v) "\"")
        | k ∷ v ∷ x ∷ xs ↦ none
      ]

  release_lines : List String → Dict String → Dict String
  unfolding release_line insert
  release_lines [] release = release
  release_lines (l ∷ ls) release = elim (release_line l) [
    | none ↦ release_lines ls release
    | some (k, v) ↦ release_lines ls (insert k v release)
  ]

  module _ (O : Outside) where
    -- `parseOsRelease`; the reply to `Open` holds the text of the file.
    unfoldable pub parse_os_release : String → World → Dict String × Err × World
    unfolding release_lines ask perform
    parse_os_release path w =
        let (r, w') = ask O (Call.fs "Open" (path ∷ [])) w in
        let w'' = (perform O (Call.fs "File.Close" (path ∷ [])) w').1 in
        elim r.err [
          | none ↦ (release_lines (L.lines r.out) [], none, w'')
          | some e ↦ ([], some e, w')
        ]

    -- What `IdentifySourceSystem` does with an entry: the system of the last os-release file counts.
    unfoldable pub seek_os_release : WalkDirFunc (Option String × World)
    unfolding parse_os_release system_of
    seek_os_release path (entry name _) (system, w) =
        let (release, e, w') = parse_os_release path w in
        if name == "os-release"
        then elim e [
          | none ↦ (go_on, (some (system_of release), w'))
          | some x ↦ (stop x, (system, w'))
        ]
        else (go_on, (system, w))
    seek_os_release path (unread _ e) s = (stop e, s)
    seek_os_release path (no_entry e) s = (stop e, s)

    unfoldable pub copy_module_file : (arch boot_dir name path : String) → Proc
    unfolding copy_file
    copy_module_file arch boot_dir m path =
        with_text "error copying"
          (copy_file O L path (L.join (boot_dir ∷ "grub2" ∷ (arch <> "-efi") ∷ m ∷ [])))

    unfoldable pub copy_efi_file : (efi_dir name path : String) → Proc
    unfolding copy_file
    copy_efi_file efi_dir f path = with_text "failed copying" (
        copy_file O L path (L.join (efi_dir ∷ "/EFI/boot" ∷ f ∷ []))
        then copy_file O L path (L.join (efi_dir ∷ "/EFI/elemental" ∷ f ∷ [])))

    -- What `InstallEFI` does with an entry, when it looks for a module of GRUB.
    unfoldable pub copy_module : (arch boot_dir name : String) → WalkDirFunc Flagged
    unfolding copy_and_flag copy_module_file
    copy_module arch boot_dir m path (entry name _) s =
        if name == m && L.contains_text path arch
        then copy_and_flag (copy_module_file arch boot_dir m path) s
        else (go_on, s)
    copy_module arch boot_dir m path (unread _ e) s = (stop e, s)
    copy_module arch boot_dir m path (no_entry e) s = (stop e, s)

    -- The same with a file to boot, which goes to the fallback directory and the proper one.
    unfoldable pub copy_efi : (efi_dir name : String) → WalkDirFunc Flagged
    unfolding copy_and_flag copy_efi_file
    copy_efi efi_dir f path (entry name _) s =
        if name == f then copy_and_flag (copy_efi_file efi_dir f path) s else (go_on, s)
    copy_efi efi_dir f path (unread _ e) s = (stop e, s)
    copy_efi efi_dir f path (no_entry e) s = (stop e, s)

    -- `tree` is what lies below `root`.
    module _ (tree : FileTree) (root : String) where
      -- `WalkDirFs` of the root.
      unfoldable pub walk : {A : Type 0} → WalkDirFunc (A × World) → A → World → Err × (A × World)
      unfolding ask walk_dir_fs
      walk fn a w =
          let (r, w') = ask O (Call.fs "Stat" (root ∷ [])) w in
          walk_dir_fs L fn root tree r.err (a, w')

      -- `IdentifySourceSystem`
      unfoldable pub identify_source_system : M String
      unfolding walk seek_os_release
      identify_source_system w =
          let (e, (found, w')) = walk seek_os_release none w in
          elim found [
            | none ↦ (fail (single (plain "could not find os-release file")), w')
            | some system ↦ elim e [ none ↦ (ok system, w') | some x ↦ (fail x, w') ]
          ]

      -- A loop of `InstallEFI` on names of files. The flag is not reset.
      unfoldable pub find_each : (String → WalkDirFunc Flagged) → String → List String → Bool → Proc
      unfolding walk
      find_each fn missing [] found w = (none, w)
      find_each fn missing (f ∷ fs) found w =
          let (_, (found', w')) = walk (fn f) found w in
          let rest = find_each fn missing fs found' w' in
          if found' then rest else (some (single (plain missing)), w')

      -- The loops: no module, and no file, was found before.
      unfoldable pub install_modules : (arch boot_dir : String) → Proc
      unfolding find_each copy_module mkdir_all
      install_modules arch boot_dir =
          with_text "error creating grub dir"
            (mkdir_all O (L.join (boot_dir ∷ "grub2" ∷ (arch <> "-efi") ∷ [])))
          then find_each (copy_module arch boot_dir) "did not find grub modules"
              ("loopback.mod" ∷ "squash4.mod" ∷ "xzio.mod" ∷ []) false

      unfoldable pub install_efi_files : (efi_dir : String) → List String → Proc
      unfolding find_each copy_efi
      install_efi_files efi_dir files =
          find_each (copy_efi efi_dir) "did not find efi artifacts" files false

      -- The end of `InstallEFI`, after the files have been copy_and_flag.
      unfoldable pub finish_efi : (arch efi_dir label shim : String) → Proc
      unfolding copy_file perform
      finish_efi arch efi_dir label shim =
          let fallback = λ (f : String). L.join (efi_dir ∷ "/EFI/boot" ∷ f ∷ []) in
          let cfg =
            "\nsearch --no-floppy --label --set=root " <> label
            <> "\nset prefix=($root)/grub2\nconfigfile ($root)/grub2/grub.cfg\n" in
          let write = λ (path : String). perform O (Call.fs "WriteFile" (path ∷ cfg ∷ [])) in
          with_text "failed copying shim" (
            copy_file O L (fallback shim)
              (fallback (if arch == Constants.arch_arm64 then "bootaa64.efi" else "bootx64.efi")))
          then with_text "error writing grub.cfg" (write (fallback "grub.cfg"))
          then with_text "error writing grub.cfg"
              (write (L.join (efi_dir ∷ "/EFI/elemental" ∷ "grub.cfg" ∷ [])))

      -- `InstallEFI` once the system is known: the name of the shim.
      unfoldable pub complete_efi : (arch efi_dir label system : String) → M String
      unfolding install_efi_files shim_files shim_name finish_efi
      complete_efi arch efi_dir label system =
          lift (install_efi_files efi_dir (shim_files system arch))
          >> lift (finish_efi arch efi_dir label (shim_name system arch))
          >> pure (shim_name system arch)

      -- `InstallEFI`
      unfoldable pub install_efi : (arch boot_dir efi_dir label : String) → M String
      unfolding install_modules mkdir_all identify_source_system complete_efi
      install_efi arch boot_dir efi_dir label =
          lift (install_modules arch boot_dir)
          >> lift (mkdir_all O (L.join (efi_dir ∷ "/EFI/boot" ∷ [])))
          >> lift (mkdir_all O (L.join (efi_dir ∷ "/EFI/elemental" ∷ [])))
          >> identify_source_system
          >>= complete_efi arch efi_dir label
