-- ===== src/Grub/Found.antt =====
-- What is there if `InstallEFI` has returned the name of a shim.
use mathlib.Core.Path.{subst}
use elemental_cli.Base.{
  String, ◌<>◌, false, none, List, [], ◌∷◌, string_eq, if◌then◌else◌, ◌≡◌, ◌∙◌, sym, ap, inl, inr,
  arith, Option-cases,
}
use elemental_cli.Golang.{Go}
use elemental_cli.Machine.{Outside, World, Proc, Result, ok, pure, lift, ◌>>◌, ◌then◌}
use elemental_cli.Chroot.{mkdir_all}
use elemental_cli.Config.Mounts.{bind-After}
use elemental_cli.Files.Search.{Any}
use elemental_cli.Walk.{FileTree}
use elemental_cli.Walk.Visits.{visits}
use elemental_cli.Grub.{
  with_text, shim_files, shim_name, copy_module, copy_efi, identify_source_system, find_each,
  install_modules, install_efi_files, complete_efi, finish_efi, install_efi,
}
use elemental_cli.Grub.Seekers.{
  IsEntry, IsModule, find_each-found, copy_module-found, copy_module-never, copy_efi-found,
  copy_efi-never,
}
use elemental_cli.Grub.Systems.{IsKnown, shim_files-head, identify-IsKnown}

lift-none : (p : Proc) (w : World) {u : Unit} → (lift p w).0 ≡ ok u → (p w).0 ≡ none
lift-none p w h = elim (Option-cases (p w).0) [
  | inl e ↦ e
  | inr (x, e) ↦ absurd (ground (arith, rw e at h))
]

then-none : (p q : Proc) (w : World) → ((p then q) w).0 ≡ none → (q (p w).1).0 ≡ none
then-none p q w h = elim (Option-cases (p w).0) [
  | inl e ↦ rw (e, ◌then◌) at h
  | inr (x, e) ↦ absurd (ground (arith, rw (e, ◌then◌) at h))
]

-- A result and its world.
pair : {A : Type 0} {r : Result A × World} {a : A} → r.0 ≡ ok a → r ≡ (ok a, r.1)
pair {r = r} e i = (e i, r.1)

module _ (L : Go) (O : Outside) (tree : FileTree) (root : String) where
  install_modules-found :
      (arch boot_dir : String) (w : World)
      → (install_modules L O tree root arch boot_dir w).0 ≡ none
      → Any (IsEntry (IsModule L arch "loopback.mod")) (visits L root tree)
  unfolding install_modules
  install_modules-found arch boot_dir w e =
      let make =
        with_text "error creating grub dir"
          (mkdir_all O (L.join (boot_dir ∷ "grub2" ∷ (arch <> "-efi") ∷ []))) in
      let missing : String = "did not find grub modules" in
      let rest : List String = "squash4.mod" ∷ "xzio.mod" ∷ [] in
      let find =
        find_each L O tree root (copy_module L O arch boot_dir) missing ("loopback.mod" ∷ rest)
          false in
      find_each-found L O tree root (IsModule L arch "loopback.mod") (copy_module L O arch boot_dir)
        missing "loopback.mod" rest
        (record {
          found = copy_module-found L O tree root arch boot_dir "loopback.mod";
          never = copy_module-never L O tree root arch boot_dir "loopback.mod";
        })
        (make w).1 (then-none make find w e)

  install_efi_files-found :
      (efi_dir f : String) (fs : List String) (w : World)
      → (install_efi_files L O tree root efi_dir (f ∷ fs) w).0 ≡ none
      → Any (IsEntry (λ path name. name ≡ f)) (visits L root tree)
  unfolding install_efi_files
  install_efi_files-found efi_dir f fs w e =
      find_each-found L O tree root (λ path name. name ≡ f) (copy_efi L O efi_dir)
        "did not find efi artifacts" f fs
        (record {
          found = copy_efi-found L O tree root efi_dir f;
          never = copy_efi-never L O tree root efi_dir f;
        })
        w e

  complete_efi-found :
      (arch efi_dir label system : String) (w : World) {shim : String} {w' : World}
      → IsKnown system
      → complete_efi L O tree root arch efi_dir label system w ≡ (ok shim, w')
      → (shim ≡ shim_name system arch)
        × Any (IsEntry (λ path name. name ≡ shim)) (visits L root tree)
  unfolding complete_efi
  complete_efi-found arch efi_dir label system w {shim} k e =
      let name = shim_name system arch in
      let files = lift (install_efi_files L O tree root efi_dir (shim_files system arch)) in
      let end = lift (finish_efi L O tree root arch efi_dir label name) in
      let (_, done, last) = bind-After (files >> end) (λ _. pure name) w e in
      let (_, copied, _) = bind-After files (λ _. end) w (pair done) in
      let (rest, head) = shim_files-head system arch k in
      let same : name ≡ shim = ground arith in
      (
        sym same,
        subst (λ n. Any (IsEntry (λ path name. name ≡ n)) (visits L root tree)) same
            (install_efi_files-found efi_dir name rest w (
              sym (ap (λ fs. (install_efi_files L O tree root efi_dir fs w).0) head)
              ∙ lift-none (install_efi_files L O tree root efi_dir (shim_files system arch)) w
                  copied)),
      )

  -- If `InstallEFI` returns the name of a shim, it is that of one of the systems that are known, for
  -- the architecture; below the root is a file or directory of that name, and one named loopback.mod
  -- whose path contains the architecture.
  pub install_efi-found :
      (arch boot_dir efi_dir label : String) (w : World) {shim : String} {w' : World}
      → install_efi L O tree root arch boot_dir efi_dir label w ≡ (ok shim, w')
      → ((system : String) × IsKnown system × (shim ≡ shim_name system arch))
        × Any (IsEntry (λ path name. name ≡ shim)) (visits L root tree)
        × Any (IsEntry (IsModule L arch "loopback.mod")) (visits L root tree)
  unfolding install_efi
  install_efi-found arch boot_dir efi_dir label w e =
      let modules = install_modules L O tree root arch boot_dir in
      let fallback = lift (mkdir_all O (L.join (efi_dir ∷ "/EFI/boot" ∷ []))) in
      let proper = lift (mkdir_all O (L.join (efi_dir ∷ "/EFI/elemental" ∷ []))) in
      let identify = identify_source_system L O tree root in
      let made = lift modules >> fallback >> proper in
      let (system, done, completed) =
        bind-After (made >> identify) (complete_efi L O tree root arch efi_dir label) w e in
      let (_, done2, identified) = bind-After made (λ _. identify) w (pair done) in
      let (_, done3, _) = bind-After (lift modules >> fallback) (λ _. proper) w (pair done2) in
      let (_, done4, _) = bind-After (lift modules) (λ _. fallback) w (pair done3) in
      let known = identify-IsKnown L O tree root (made w).1 identified in
      let (same, there) =
        complete_efi-found arch efi_dir label system ((made >> identify) w).1 known completed in
      (
        (system, known, same),
        there,
        install_modules-found arch boot_dir w (lift-none modules w done4),
      )
