-- ===== src/Commands.antt =====
-- The commands `install`, `upgrade` and `reset` of cmd, from their flags to the run of their action.
use elemental_cli.Base.{
  ℕ, String, false, Option, none, some, ◌==◌, nat_eq, string_eq, if◌then◌else◌, ◌≡◌, refl, arith,
  Option-cases, inl, inr,
}
use elemental_cli.Errors.{Err, Multierror, new, new_from_error}
use elemental_cli.Spec.{InstallSpec, UpgradeSpec, ResetSpec}
use elemental_cli.Flags.{
  Flags, validate_install_upgrade_flags, adapt_docker_image_and_directory_flags_to_system,
  adapt_efi_and_gpt_flags,
}

-- The constants of pkg/error/exit-codes.go.
abbrev reading_run_config : ℕ
reading_run_config = 31

abbrev reading_install_upgrade_flags : ℕ
reading_install_upgrade_flags = 32

abbrev reading_spec_config : ℕ
reading_spec_config = 33

abbrev invalid_target : ℕ
invalid_target = 47

abbrev requires_root : ℕ
requires_root = 58

-- `CheckRoot` of cmd/helpers.go, given the effective user.
unfoldable pub check_root : ℕ → Err
check_root user =
    if user == 0 then none else new "this command requires root privileges" requires_root

module _ (E : Multierror) where
  -- What the commands begin with, given the errors of `exec.LookPath` and of `ReadConfigRun`.
  unfoldable pub begin : (mount_err config_err : Err) → Flags → Err
  unfolding validate_install_upgrade_flags new_from_error
  begin (some e) config_err flags = some e
  begin none (some e) flags = new_from_error E (some e) reading_run_config
  begin none none flags =
      new_from_error E (validate_install_upgrade_flags flags) reading_install_upgrade_flags

  -- The end: the specification is read, and the action runs.
  unfoldable pub act : {S : Type 0} → Err × S → (S → Err) → Err
  unfolding new_from_error
  act (some e, spec) run = new_from_error E (some e) reading_spec_config
  act (none, spec) run = run spec

  -- The target of an installation is that of the arguments, or else that of the specification.
  with_target : Option String → InstallSpec → InstallSpec
  with_target none spec = spec
  with_target (some device) spec = record spec { target = device }

  unfoldable pub install_on : (InstallSpec → Err) → InstallSpec → Err
  install_on run spec =
      if spec.target == ""
      then new "at least a target device must be supplied" invalid_target
      else run spec

  -- The commands, given what they call in the action and to read their specification.
  unfoldable pub install_command :
      (mount_err config_err : Err) (read : Flags → Err × InstallSpec) (run : InstallSpec → Err)
      → Flags
      → Option String
      → Err
  unfolding begin act with_target install_on adapt_docker_image_and_directory_flags_to_system
      adapt_efi_and_gpt_flags
  install_command mount_err config_err read run flags device =
      elim (begin mount_err config_err flags) [
        | some e ↦ some e
        | none ↦
            act
              (read
                (adapt_efi_and_gpt_flags (adapt_docker_image_and_directory_flags_to_system flags)))
              (λ spec. install_on run (with_target device spec))
      ]

  unfoldable pub upgrade_command :
      (mount_err config_err : Err) (read : Flags → Err × UpgradeSpec) (run : UpgradeSpec → Err)
      → Flags
      → Err
  unfolding begin act adapt_docker_image_and_directory_flags_to_system
  upgrade_command mount_err config_err read run flags = elim (begin mount_err config_err flags) [
    | some e ↦ some e
    | none ↦ act (read (adapt_docker_image_and_directory_flags_to_system flags)) run
  ]

  unfoldable pub reset_command :
      (mount_err config_err : Err) (read : Flags → Err × ResetSpec) (run : ResetSpec → Err)
      → Flags
      → Err
  unfolding begin act adapt_docker_image_and_directory_flags_to_system
  reset_command mount_err config_err read run flags = elim (begin mount_err config_err flags) [
    | some e ↦ some e
    | none ↦ act (read (adapt_docker_image_and_directory_flags_to_system flags)) run
  ]

  new_from_error-none : (e : Err) (code : ℕ) → new_from_error E e code ≡ none → e ≡ none
  unfolding new_from_error
  new_from_error-none none code h = refl
  new_from_error-none (some e) code h = absurd (ground arith)

  begin-none :
      (m c : Err) (flags : Flags)
      → begin m c flags ≡ none
      → validate_install_upgrade_flags flags ≡ none
  unfolding begin new_from_error
  begin-none (some e) c flags h = absurd (ground arith)
  begin-none none (some e) flags h = absurd (ground arith)
  begin-none none none flags h =
      new_from_error-none (validate_install_upgrade_flags flags) reading_install_upgrade_flags h

  act-none :
      {S : Type 0} (r : Err × S) (run : S → Err)
      → act r run ≡ none
      → (r.0 ≡ none) × (run r.1 ≡ none)
  unfolding act new_from_error
  act-none (some e, spec) run h = absurd (ground arith)
  act-none (none, spec) run h = (refl, h)

  install_on-none :
      (run : InstallSpec → Err) (spec : InstallSpec)
      → install_on run spec ≡ none
      → ((spec.target == "") ≡ false) × (run spec ≡ none)
  unfolding install_on
  install_on-none run spec h = ground arith

  -- If `install` returns nil, the flags were valid, the specification was read from the adapted flags,
  -- and its action has run without an error, on a target that is not empty.
  install_command-none :
      (m c : Err) (read : Flags → Err × InstallSpec) (run : InstallSpec → Err) (flags : Flags)
      → (device : Option String) → install_command m c read run flags device ≡ none
      → let r =
          read (adapt_efi_and_gpt_flags (adapt_docker_image_and_directory_flags_to_system flags)) in
        let spec = with_target device r.1 in
        (validate_install_upgrade_flags flags ≡ none)
        × (r.0 ≡ none)
        × ((spec.target == "") ≡ false)
        × (run spec ≡ none)
  unfolding install_command
  install_command-none m c read run flags device h =
      let r =
        read (adapt_efi_and_gpt_flags (adapt_docker_image_and_directory_flags_to_system flags)) in
      let last : InstallSpec → Err = λ spec. install_on run (with_target device spec) in
      elim (Option-cases (begin m c flags)) [
        | inr (e, b) ↦ absurd (ground (arith, rw (b, install_command) at h))
        | inl b ↦
            let (fine, acted) = act-none r last (rw (b, install_command) at h) in
            let (target, ran) = install_on-none run (with_target device r.1) acted in
            (begin-none m c flags b, fine, target, ran)
      ]
