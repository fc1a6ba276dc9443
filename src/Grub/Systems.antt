-- ===== src/Grub/Systems.antt =====
-- The systems that `IdentifySourceSystem` returns.
use mathlib.Core.Path.{subst}
use elemental_cli.Base.{
  String, Option, none, some, List, [], ◌∷◌, ◌==◌, string_eq, ◌≡◌, refl, sym, ◌⊎◌, inl, inr, arith,
  Bool-cases, Option-cases,
}
use elemental_cli.Base.Dict.{Dict, lookup}
use elemental_cli.Constants
use elemental_cli.Errors.{Err, single, plain}
use elemental_cli.Golang.{Go}
use elemental_cli.Machine.{Call, Outside, World, Result, ok, fail, ask}
use elemental_cli.Walk.{FileTree, Visit, entry, unread, no_entry, skip_dir}
use elemental_cli.Walk.Visits.{visits_from, visit_all-keeps, walk_dir_fs-visits}
use elemental_cli.Grub.{
  shim_files, shim_name, system_of, parse_os_release, seek_os_release, walk, identify_source_system,
}
use elemental_cli.Grub.Seekers.{stopped-never}

-- The systems that `IdentifySourceSystem` tells apart.
abbrev pub IsKnown : String → Type 0
IsKnown s = (s ≡ Constants.fedora) ⊎ ((s ≡ Constants.ubuntu) ⊎ (s ≡ Constants.suse))

abbrev IsKnownOrNone : Option String → Type 0
IsKnownOrNone none = Unit
IsKnownOrNone (some s) = IsKnown s

system_of-IsKnown : (release : Dict String) → IsKnown (system_of release)
unfolding system_of
system_of-IsKnown release = elim (Option-cases (lookup "ID" release)) [
  | inl e ↦ rw (e, system_of) (inr (inr refl))
  | inr (id, e) ↦ elim (Bool-cases (id == Constants.fedora)) [
    | inl f ↦ rw (e, f, system_of) (inl refl)
    | inr f ↦ elim (Bool-cases (id == Constants.ubuntu)) [
      | inl u ↦ rw (e, f, u, system_of) (inr (inl refl))
      | inr u ↦ rw (e, f, u, system_of) (inr (inr refl))
    ]
  ]
]

-- The shim comes first.
pub shim_files-head :
    (system arch : String)
    → IsKnown system
    → (rest : List String) × (shim_files system arch ≡ shim_name system arch ∷ rest)
unfolding shim_files shim_name string_eq
shim_files-head system arch (inl f) = elim (Bool-cases (arch == Constants.arch_arm64)) [
  | inl a ↦ ("mmaa64.efi" ∷ "grubx64.efi" ∷ [], rw (f, a) refl)
  | inr a ↦ ("mmx64.efi" ∷ "grubx64.efi" ∷ [], rw (f, a) refl)
]
shim_files-head system arch (inr (inl u)) = elim (Bool-cases (arch == Constants.arch_arm64)) [
  | inl a ↦ ("mmaa64.efi" ∷ "grubx64.efi.signed" ∷ [], rw (u, a) refl)
  | inr a ↦ ("mmx64.efi" ∷ "grubx64.efi.signed" ∷ [], rw (u, a) refl)
]
shim_files-head system arch (inr (inr s)) = ("MokManager.efi" ∷ "grub.efi" ∷ [], rw s refl)

answered :
    (e : Err) (found : Option String) (w : World) {system : String} {w' : World}
    → IsKnownOrNone found
    → (let r : Result String × World = elim found [
      | none ↦ (fail (single (plain "could not find os-release file")), w)
      | some s ↦ elim e [ none ↦ (ok s, w) | some x ↦ (fail x, w) ]
    ] in
        r ≡ (ok system, w'))
    → IsKnown system
answered e none w k h = absurd (ground arith)
answered none (some s) w k h = subst IsKnown (ground arith) k
answered (some x) (some s) w k h = absurd (ground arith)

module _ (L : Go) (O : Outside) (tree : FileTree) (root : String) where
  seek-Known :
      (p : String) (v : Visit) (s : Option String × World)
      → IsKnownOrNone s.0
      → IsKnownOrNone (seek_os_release L O p v s).1.0
  unfolding seek_os_release
  seek-Known p (entry n d) (system, w) k = elim (Bool-cases (n == "os-release")) [
    | inr other ↦ rw (other, seek_os_release) k
    | inl here ↦ elim (Option-cases (parse_os_release L O p w).1) [
      | inl e ↦ rw (here, e, seek_os_release) (system_of-IsKnown (parse_os_release L O p w).0)
      | inr (x, e) ↦ rw (here, e, seek_os_release) k
    ]
  ]
  seek-Known p (unread n x) s k = k
  seek-Known p (no_entry x) s k = k

  seek-never :
      (p : String) (v : Visit) (s : Option String × World)
      → (seek_os_release L O p v s).0 ≡ skip_dir
      → ⊥
  unfolding seek_os_release
  seek-never p (entry n d) (system, w) h = elim (Bool-cases (n == "os-release")) [
    | inr other ↦ absurd (ground (arith, rw (other, seek_os_release) at h))
    | inl here ↦
        let (release, e, w') = parse_os_release L O p w in
        stopped-never e (some (system_of release), w') (system, w')
          (rw (here, seek_os_release) at h)
  ]
  seek-never p (unread n x) s h = absurd (ground arith)
  seek-never p (no_entry x) s h = absurd (ground arith)

  found-IsKnown : (w : World) → IsKnownOrNone (walk L O tree root (seek_os_release L O) none w).1.0
  unfolding walk
  found-IsKnown w =
      let (r, w') = ask O (Call.fs "Stat" (root ∷ [])) w in
      let same = walk_dir_fs-visits L (seek_os_release L O) seek-never root tree r.err (none, w') in
      subst (λ t. IsKnownOrNone t.1.0) (sym same)
        (visit_all-keeps L (seek_os_release L O) (λ s. IsKnownOrNone s.0) seek-Known
          (visits_from L root tree r.err) (none, w') tt)

  pub identify-IsKnown :
      (w : World) {system : String} {w' : World}
      → identify_source_system L O tree root w ≡ (ok system, w')
      → IsKnown system
  unfolding identify_source_system
  identify-IsKnown w e =
      let (x, (found, w')) = walk L O tree root (seek_os_release L O) none w in
      answered x found w' (found-IsKnown w) e
