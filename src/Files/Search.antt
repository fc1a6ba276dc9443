-- ===== src/Files/Search.antt =====
-- What `FindFileWithPrefix` finds.
use mathlib.Core.Path.{subst}
use elemental_cli.Base.{
  sym, String, true, false, Option, none, some, List, [], ◌∷◌, ◌≡◌, refl, ◌⊎◌, inl, inr, All, arith,
  Bool-cases, Option-cases,
}
use elemental_cli.Base.Text.{has_prefix}
use elemental_cli.Golang.{Go}
use elemental_cli.Machine.{Outside, World}
use elemental_cli.Files.{FileInfo, follow, match_prefixes, search_files}

-- Some element of a list.
abbrev pub Any {ℓ} : {A : Type ℓ} → (A → Type 0) → List A → Type 0
Any P [] = ⊥
Any P (x ∷ xs) = P x ⊎ Any P xs

abbrev pub Matches : FileInfo → String → Type 0
Matches f p = has_prefix f.name p ≡ true

module _ (L : Go) (path : String) where
  -- What one file gives: nothing, which a file that is no link gives only if no prefix fits, or else
  -- its own path, or, of a link, another one.
  abbrev Tried : FileInfo → List String → Option String → Type 0
  Tried f prefixes none = f.is_symlink ≡ false → All (λ p. has_prefix f.name p ≡ false) prefixes
  Tried f prefixes (some x) =
      Any (Matches f) prefixes × ((f.is_symlink ≡ true) ⊎ (x ≡ L.join (path ∷ f.name ∷ [])))

  Tried-more :
      (f : FileInfo) (p : String) (prefixes : List String) (o : Option String)
      → (has_prefix f.name p ≡ false) ⊎ (f.is_symlink ≡ true)
      → Tried f prefixes o
      → Tried f (p ∷ prefixes) o
  Tried-more f p prefixes none (inl differs) t = λ file. (differs, t file)
  Tried-more f p prefixes none (inr link) t = λ file. absurd (ground arith)
  Tried-more f p prefixes (some x) c t = (inr t.0, t.1)

  module _ (O : Outside) (entries : String → List FileInfo) where
    match_prefixes-Tried :
        (f : FileInfo) (prefixes : List String) (w : World)
        → Tried f prefixes (match_prefixes L O entries path f prefixes w).0
    unfolding match_prefixes
    match_prefixes-Tried f [] w = λ _. tt
    match_prefixes-Tried f (p ∷ ps) w = elim (Bool-cases (has_prefix f.name p)) [
      | inr differs ↦
          rw (differs, match_prefixes)
            (Tried-more f p ps _ (inl differs) (match_prefixes-Tried f ps w))
      | inl fits ↦ elim (Bool-cases f.is_symlink) [
        | inr file ↦
            let e : match_prefixes L O entries path f (p ∷ ps) w
                ≡ (some (L.join (path ∷ f.name ∷ [])), w) =
              rw (fits, file, match_prefixes) refl in
            subst (λ r. Tried f (p ∷ ps) r.0) (sym e) (inl fits, inr refl)
        | inl link ↦ elim (Option-cases (follow L O entries path f w).0) [
          | inl lost ↦
              let w' = (follow L O entries path f w).1 in
              let e : match_prefixes L O entries path f (p ∷ ps) w
                  ≡ match_prefixes L O entries path f ps w' =
                rw (fits, link, lost, match_prefixes) refl in
              subst (λ r. Tried f (p ∷ ps) r.0) (sym e)
                (Tried-more f p ps _ (inr link) (match_prefixes-Tried f ps w'))
          | inr (x, found) ↦
              let w' = (follow L O entries path f w).1 in
              let e : match_prefixes L O entries path f (p ∷ ps) w ≡ (some x, w') =
                rw (fits, link, found, match_prefixes) refl in
              subst (λ r. Tried f (p ∷ ps) r.0) (sym e) (inl fits, inl link)
        ]
      ]
    ]

  -- What the search in a directory gives: nothing if no file but a directory or a link has one of the
  -- prefixes, or else the path of a file that has one, and of a link another path.
  abbrev pub Searched : List FileInfo → List String → Option String → Type 0
  Searched files prefixes none =
      All
        (λ f.
          f.is_dir ≡ false → f.is_symlink ≡ false → All (λ p. has_prefix f.name p ≡ false) prefixes)
        files
  Searched files prefixes (some x) =
      Any
        (λ f.
          (f.is_dir ≡ false)
          × Any (Matches f) prefixes
          × ((f.is_symlink ≡ true) ⊎ (x ≡ L.join (path ∷ f.name ∷ []))))
        files

  Searched-dir :
      (f : FileInfo) (fs : List FileInfo) (prefixes : List String) (o : Option String)
      → f.is_dir ≡ true
      → Searched fs prefixes o
      → Searched (f ∷ fs) prefixes o
  Searched-dir f fs prefixes none dir s = (λ file. absurd (ground arith), s)
  Searched-dir f fs prefixes (some x) dir s = inr s

  Searched-file :
      (f : FileInfo) (fs : List FileInfo) (prefixes : List String) (o : Option String)
      → Tried f prefixes none
      → Searched fs prefixes o
      → Searched (f ∷ fs) prefixes o
  Searched-file f fs prefixes none t s = (λ _. t, s)
  Searched-file f fs prefixes (some x) t s = inr s

  module _ (O : Outside) (entries : String → List FileInfo) where
    -- `FindFileWithPrefix` finds a file that is no directory and has one of the prefixes, by its path
    -- in the directory unless it is a symbolic link, and it fails only if no file that is neither a
    -- directory nor a link has one.
    pub search_files-Searched :
        (files : List FileInfo) (prefixes : List String) (w : World)
        → Searched files prefixes (search_files L O entries path files prefixes w).0
    unfolding search_files
    search_files-Searched [] prefixes w = tt
    search_files-Searched (f ∷ fs) prefixes w = elim (Bool-cases f.is_dir) [
      | inl dir ↦
          let e : search_files L O entries path (f ∷ fs) prefixes w
              ≡ search_files L O entries path fs prefixes w =
            rw (dir, search_files) refl in
          subst (λ r. Searched (f ∷ fs) prefixes r.0) (sym e)
            (Searched-dir f fs prefixes _ dir (search_files-Searched fs prefixes w))
      | inr file ↦
          let (o, w') = match_prefixes L O entries path f prefixes w in
          let t = match_prefixes-Tried O entries f prefixes w in
          elim (Option-cases o) [
            | inl nothing ↦
                let e : search_files L O entries path (f ∷ fs) prefixes w
                    ≡ search_files L O entries path fs prefixes w' =
                  rw (file, nothing, search_files) refl in
                subst (λ r. Searched (f ∷ fs) prefixes r.0) (sym e)
                  (Searched-file f fs prefixes _ (subst (Tried f prefixes) nothing t)
                    (search_files-Searched fs prefixes w'))
            | inr (x, found) ↦
                let e : search_files L O entries path (f ∷ fs) prefixes w ≡ (some x, w') =
                  rw (file, found, search_files) refl in
                let (fits, path_of) = subst (Tried f prefixes) found t in
                subst (λ r. Searched (f ∷ fs) prefixes r.0) (sym e) (inl (file, fits, path_of))
          ]
    ]
