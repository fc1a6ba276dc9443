-- ===== src/Grub/Seekers.antt =====
-- What the loops of `InstallEFI` find, if they find something.
use elemental_cli.Base.{
  String, Bool, true, false, ◌&&◌, none, some, List, [], ◌∷◌, ◌==◌, string_eq, if◌then◌else◌, ◌≡◌,
  refl, ◌∙◌, sym, ap, ◌⊎◌, inl, inr, arith, Bool-cases,
}
use elemental_cli.Errors.{Err}
use elemental_cli.Golang.{Go}
use elemental_cli.Machine.{Call, Outside, World, Proc, ask, ◌then◌}
use elemental_cli.Files.Search.{Any}
use elemental_cli.Walk.{
  FileTree, Visit, entry, unread, no_entry, Walked, go_on, skip_dir, stop, WalkDirFunc,
}
use elemental_cli.Walk.Visits.{visits, visits_from, and_then, visit_all, walk_dir_fs-visits}
use elemental_cli.Grub.{
  Flagged, copy_and_flag, copy_module, copy_efi, copy_module_file, copy_efi_file, walk, find_each,
}

-- A visit to an entry with some path and name.
abbrev pub IsEntry : (String → String → Type 0) → String × Visit → Type 0
IsEntry P (path, entry name _) = P path name
IsEntry P (path, unread _ _) = ⊥
IsEntry P (path, no_entry _) = ⊥

-- A module of GRUB for the architecture.
abbrev pub IsModule : Go → (arch m path name : String) → Type 0
IsModule L arch m path name = (name ≡ m) × (L.contains_text path arch ≡ true)

-- A function that sets the flag only at such an entry, and never skips.
pub record IsSeeker (P : String → String → Type 0) (fn : WalkDirFunc Flagged) : Type 0 where
  pub found :
      (p : String) (v : Visit) (s : Flagged)
      → (fn p v s).1.0 ≡ true
      → (s.0 ≡ true) ⊎ IsEntry P (p, v)
  pub never : (p : String) (v : Visit) (s : Flagged) → (fn p v s).0 ≡ skip_dir → ⊥

pub stopped-never :
    {S : Type 0} (e : Err) (s s' : S)
    → (let r : Walked × S = elim e [ none ↦ (go_on, s) | some x ↦ (stop x, s') ] in r.0 ≡ skip_dir)
    → ⊥
stopped-never none s s' h = absurd (ground arith)
stopped-never (some x) s s' h = absurd (ground arith)

-- Copying what passes a test.
guarded :
    (b : Bool) (p : Proc) (s : Flagged)
    → let r : Walked × Flagged = if b then copy_and_flag p s else (go_on, s) in
      (r.1.0 ≡ true → (s.0 ≡ true) ⊎ (b ≡ true)) × (r.0 ≡ skip_dir → ⊥)
unfolding copy_and_flag
guarded true p (found, w) = (λ _. inr refl, stopped-never (p w).0 (true, (p w).1) (found, (p w).1))
guarded false p s = (λ e. inl e, λ e. absurd (ground arith))

and_then-found :
    {A : Type 0} (r : Walked × Flagged) (k : Flagged → Walked × Flagged)
    → ((s : Flagged) → (k s).1.0 ≡ true → (s.0 ≡ true) ⊎ A)
    → (and_then r k).1.0 ≡ true
    → (r.1.0 ≡ true) ⊎ A
and_then-found (go_on, s) k h e = h s e
and_then-found (skip_dir, s) k h e = inl e
and_then-found (stop x, s) k h e = inl e

module _ (L : Go) where
  visit_all-found :
      (P : String → String → Type 0) (fn : WalkDirFunc Flagged)
      → IsSeeker P fn
      → (vs : List (String × Visit)) (s : Flagged) → (visit_all L fn vs s).1.0 ≡ true
      → (s.0 ≡ true) ⊎ Any (IsEntry P) vs
  unfolding visit_all
  visit_all-found P fn k [] s e = inl e
  visit_all-found P fn k ((p, v) ∷ vs) s e =
      elim (and_then-found (fn p v s) (visit_all L fn vs) (visit_all-found P fn k vs) e) [
        | inr later ↦ inr (inr later)
        | inl now ↦ elim (k.found p v s now) [ inl before ↦ inl before | inr here ↦ inr (inl here) ]
      ]

  module _ (O : Outside) (tree : FileTree) (root : String) where
    visits_from-Any :
        (P : String → String → Type 0) (stat_err : Err)
        → Any (IsEntry P) (visits_from L root tree stat_err)
        → Any (IsEntry P) (visits L root tree)
    visits_from-Any P none any = any
    visits_from-Any P (some e) (inl never) = absurd never
    visits_from-Any P (some e) (inr never) = absurd never

    walk-found :
        (P : String → String → Type 0) (fn : WalkDirFunc Flagged)
        → IsSeeker P fn
        → (w : World) → (walk L O tree root fn false w).1.0 ≡ true
        → Any (IsEntry P) (visits L root tree)
    unfolding walk
    walk-found P fn k w e =
        let (r, w') = ask O (Call.fs "Stat" (root ∷ [])) w in
        let same = walk_dir_fs-visits L fn k.never root tree r.err (false, w') in
        elim (visit_all-found P fn k (visits_from L root tree r.err) (false, w')
          (sym (ap (λ t. t.1.0) same) ∙ e)) [
            | inl never ↦ absurd (ground arith)
            | inr any ↦ visits_from-Any P r.err any
          ]

    pub find_each-found :
        (P : String → String → Type 0) (fn : String → WalkDirFunc Flagged) (missing f : String)
        (fs : List String)
        → IsSeeker P (fn f)
        → (w : World) → (find_each L O tree root fn missing (f ∷ fs) false w).0 ≡ none
        → Any (IsEntry P) (visits L root tree)
    unfolding find_each
    find_each-found P fn missing f fs k w e =
        elim (Bool-cases (walk L O tree root (fn f) false w).1.0) [
          | inl found ↦ walk-found P (fn f) k w found
          | inr lost ↦ absurd (ground (arith, lost))
        ]

    module _ (arch boot_dir m : String) where
      pub copy_module-found :
          (p : String) (v : Visit) (s : Flagged)
          → (copy_module L O arch boot_dir m p v s).1.0 ≡ true
          → (s.0 ≡ true) ⊎ IsEntry (IsModule L arch m) (p, v)
      unfolding copy_module
      copy_module-found p (entry n d) s e =
          elim ((guarded (n == m && L.contains_text p arch) (copy_module_file L O arch boot_dir m p)
              s).0
            e) [ inl before ↦ inl before | inr here ↦ inr (ground arith) ]
      copy_module-found p (unread n x) s e = inl e
      copy_module-found p (no_entry x) s e = inl e

      pub copy_module-never :
          (p : String) (v : Visit) (s : Flagged)
          → (copy_module L O arch boot_dir m p v s).0 ≡ skip_dir
          → ⊥
      unfolding copy_module
      copy_module-never p (entry n d) s e =
          (guarded (n == m && L.contains_text p arch) (copy_module_file L O arch boot_dir m p) s).1
            e
      copy_module-never p (unread n x) s e = absurd (ground arith)
      copy_module-never p (no_entry x) s e = absurd (ground arith)

    module _ (efi_dir f : String) where
      pub copy_efi-found :
          (p : String) (v : Visit) (s : Flagged)
          → (copy_efi L O efi_dir f p v s).1.0 ≡ true
          → (s.0 ≡ true) ⊎ IsEntry (λ path name. name ≡ f) (p, v)
      unfolding copy_efi
      copy_efi-found p (entry n d) s e =
          elim ((guarded (n == f) (copy_efi_file L O efi_dir f p) s).0 e) [
            | inl before ↦ inl before
            | inr here ↦ inr (ground arith)
          ]
      copy_efi-found p (unread n x) s e = inl e
      copy_efi-found p (no_entry x) s e = inl e

      pub copy_efi-never :
          (p : String) (v : Visit) (s : Flagged) → (copy_efi L O efi_dir f p v s).0 ≡ skip_dir → ⊥
      unfolding copy_efi
      copy_efi-never p (entry n d) s e = (guarded (n == f) (copy_efi_file L O efi_dir f p) s).1 e
      copy_efi-never p (unread n x) s e = absurd (ground arith)
      copy_efi-never p (no_entry x) s e = absurd (ground arith)
