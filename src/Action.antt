-- ===== src/Action.antt =====
-- pkg/action: what the actions share. An action runs its steps in order up to the first error, and
-- pushes the jobs that clean up after it; in the end, `Cleanup` runs them in any case.
pub mod State
pub mod Labels
pub mod Written
pub mod Install
pub mod Reset
pub mod Upgrade
pub mod Jobs
pub mod InstallRun
pub mod ResetRun
pub mod UpgradeRun
pub mod BuildIso
pub mod IsoRun
use elemental_cli.Base.{
  ℕ, String, ◌<>◌, Bool, true, false, not, Option, none, some, List, [], ◌∷◌, ◌++◌, ◌==◌, string_eq,
  if◌then◌else◌,
}
use elemental_cli.Base.Dict.{Dict, insert}
use elemental_cli.Errors.{Err, Error, Multierror, new_from_error, single, plain}
use elemental_cli.Golang.{Go}
use elemental_cli.CleanStack.{CleanJob, CleanStack, new_clean_stack, push, cleanup}
use elemental_cli.InstallState.{InstallState}
use elemental_cli.Machine.{
  Call, Outside, World, Proc, M, Result, ok, fail, panicked, perform, ask, return_err, ◌then◌,
}
use elemental_cli.Partitions.{Partition, Pointer, Heap, PartitionList, ElementalPartitions}
use elemental_cli.Chroot.{chrooted_callback, mkdir_all}
use elemental_cli.Devices.{is_mounted, reboot, shutdown, copy_file}
use elemental_cli.Elemental.Deploy.{selinux_relabel}
use elemental_cli.Elemental.Images
use elemental_cli.Elemental.Images.{working_img_dir}

-- The fields of `RunConfig` that the actions read. `marshal` is `yaml.Marshal` of an install state,
-- and `now` the date of the run.
pub record RunConfig : Type 0 where
  pub config : Images.Config
  pub strict : Bool
  pub reboot : Bool
  pub power_off : Bool
  pub eject_cd : Bool
  pub marshal : InstallState → Result String
  pub now : String

-- A part of an action: it may push jobs.
abbrev pub Script : Type 0 → Type 0
Script A = CleanStack World → World → Result A × CleanStack World × World

unfoldable pub done : {A : Type 0} → A → Script A
done a c w = (ok a, c, w)

-- A script goes on unless it has returned an error.
abbrev pub continue :
    {A B : Type 0}
    → (A → Script B)
    → Result A × CleanStack World × World
    → Result B × CleanStack World × World
continue f (ok a, c, w) = f a c w
continue f (fail e, c, w) = (fail e, c, w)
continue f (panicked, c, w) = (panicked, c, w)

infixl 4 ◌and_then◌
unfoldable pub ◌and_then◌ : {A B : Type 0} → Script A → (A → Script B) → Script B
◌and_then◌ s f c w = continue f (s c w)

-- `cleanup.Push(job)`
unfoldable pub push_job : Proc → Script (Unit {0})
push_job job c w = (ok tt, push job c, w)

-- `err = step(); if err != nil { return err }`
unfoldable pub plain_step : {A : Type 0} → M A → Script A
plain_step m c w = let (r, w') = m w in (r, c, w')

error_of : Err → Error → Error
error_of none e = e
error_of (some x) _ = x

-- `err = step(); if err != nil { return elementalError.NewFromError(err, code) }`
unfoldable pub coded : {A : Type 0} → Multierror → ℕ → M A → M A
unfolding error_of new_from_error
coded E code m w =
    let (r, w') = m w in
    (
      elim r [
        | ok a ↦ ok a
        | fail e ↦ fail (error_of (new_from_error E (some e) code) e)
        | panicked ↦ panicked
      ],
      w',
    )

unfoldable pub step : {A : Type 0} → Multierror → ℕ → M A → Script A
unfolding plain_step coded
step E code m = plain_step (coded E code m)

-- The same for a function that returns an `error` only.
abbrev pub as_m : Proc → M (Unit {0})
as_m p w = let (e, w') = p w in (elim e [ none ↦ ok tt | some x ↦ fail x ], w')

-- `err = cleanup.Cleanup(err)` at the end of a run without an error.
cleaned :
    Multierror
    → ℕ
    → CleanStack World
    → World
    → Option (Err × CleanStack World × World)
    → Result (Unit {0}) × CleanStack World × World
unfolding error_of new_from_error
cleaned E code c w none = (panicked, c, w)
cleaned E code c w (some (none, c', w')) = (ok tt, c', w')
cleaned E code c w (some (some e, c', w')) =
    (fail (error_of (new_from_error E (some e) code) e), c', w')

unfoldable pub clean_step : Multierror → ℕ → Script (Unit {0})
unfolding cleaned
clean_step E code c w = cleaned E code c w (cleanup E none c w)

-- How a run ends: its error, or `none` if it panics, with the stack and the world.
abbrev pub End : Type 0
End = Option Err × CleanStack World × World

-- `Cleanup`, which may panic itself.
unfoldable pub ended : CleanStack World → World → Option (Err × CleanStack World × World) → End
ended c w none = (none, c, w)
ended c w (some (e, c', w')) = (some e, c', w')

-- `defer func() { err = cleanup.Cleanup(err) }()`, which also runs if the script panics; the panic goes
-- on then.
unfoldable pub finish : Multierror → Result (Unit {0}) × CleanStack World × World → End
unfolding ended
finish E (ok _, c, w) = ended c w (cleanup E none c w)
finish E (fail e, c, w) = ended c w (cleanup E (some e) c w)
finish E (panicked, c, w) = let (_, c', w') = ended c w (cleanup E none c w) in (none, c', w')

-- `Run` of an action: its script on a new stack.
unfoldable pub run_action : Multierror → Script (Unit {0}) → World → End
unfolding finish
run_action E s w = finish E (s new_clean_stack w)

-- The partition behind a pointer that is used without a check.
abbrev pub deref : Option Pointer → M Partition
deref none w = (panicked, w)
deref (some p) w = (ok (w.heap p), w)

abbrev pub of_heap : {A : Type 0} → (Heap → Result A) → M A
of_heap f w = (f w.heap, w)

module _ (L : Go) (O : Outside) where
  -- `Hook`: the error of the stage counts in strict mode only.
  unfoldable pub hook : RunConfig → String → Proc
  unfolding perform
  hook cfg name w =
      let (e, w') = perform O (Call.library "utils.RunStage" (name ∷ [])) w in
      (if cfg.strict then e else none, w')

  -- A mount for the chroot environment of a hook, if the partition has a mount point.
  bind_part : Option Pointer → String → World → Dict String → Dict String
  unfolding insert
  bind_part none dir w d = d
  bind_part (some p) dir w d =
      if (w.heap p).mount_point == "" then d else insert (w.heap p).mount_point dir d

  -- `installChrootHook`, `resetChrootHook` and `upgradeChrootHook`, by `ChrootHook`.
  unfoldable pub chroot_hook : RunConfig → ElementalPartitions → String → String → Proc
  unfolding bind_part chrooted_callback hook
  chroot_hook cfg ep name root w =
      let binds = bind_part ep.oem "/oem" w (bind_part ep.persistent "/usr/local" w []) in
      chrooted_callback O root binds (hook cfg name) w

  bind_mounted : Option Pointer → String → Dict String → World → Dict String × World
  unfolding is_mounted insert
  bind_mounted none dir d w = (d, w)
  bind_mounted (some p) dir d w =
      let (mnt, _, w') = is_mounted O (some p) w in
      (if mnt then insert (w.heap p).mount_point dir d else d, w')

  -- `applySelinuxLabels`, which the actions of reset and upgrade repeat.
  unfoldable pub apply_selinux_labels : ElementalPartitions → Proc
  unfolding bind_mounted chrooted_callback selinux_relabel
  apply_selinux_labels ep w =
      let (binds, w1) = bind_mounted ep.persistent "/usr/local" [] w in
      let (binds', w2) = bind_mounted ep.oem "/oem" binds w1 in
      chrooted_callback O working_img_dir binds' (selinux_relabel L O "/" true) w2

  -- `PowerAction`
  unfoldable pub power_action : Multierror → RunConfig → Proc
  unfolding reboot shutdown new_from_error
  power_action E cfg w =
      let (e, w1) = reboot O w in
      let (f, w2) = shutdown O w in
      if cfg.reboot
      then (new_from_error E e 42, w1)
      else if cfg.power_off
      then (new_from_error E f 43, w2)
      else (none, w)

  write_file : String → String → Proc
  unfolding perform
  write_file path content = perform O (Call.fs "WriteFile" (path ∷ content ∷ []))

  -- `WriteInstallState` of pkg/types/v1/config.go
  unfoldable pub write_install_state : RunConfig → InstallState → String → String → M (Unit {0})
  unfolding write_file
  write_install_state cfg st state_path recovery_path w = elim (cfg.marshal st) [
    | fail e ↦ (fail e, w)
    | panicked ↦ (panicked, w)
    | ok yaml ↦
        let content : String =
          "# Autogenerated file by elemental client, do not edit\n\n" <> yaml in
        as_m (write_file state_path content then write_file recovery_path content) w
  ]

  set_variables : String → Dict String → Proc
  unfolding perform
  set_variables file [] w = (none, w)
  set_variables file ((k, v) ∷ vars) w =
      (perform O (Call.run "grub2-editenv" (file ∷ "set" ∷ (k <> "=" <> v) ∷ []))
          then set_variables file vars)
        w

  -- `SetPersistentVariables` of pkg/utils/grub.go
  unfoldable pub set_persistent_variables : String → Dict String → Proc
  unfolding set_variables
  set_persistent_variables = set_variables

  -- `InstallConfig`, `InstallBIOS` and `Install` of pkg/utils/grub.go. `InstallEFI` and `DoEFIEntries`
  -- count as one call each; the first returns the name of the shim.
  unfoldable pub install_config : String → String → String → Proc
  unfolding mkdir_all copy_file
  install_config root boot grub_conf =
      mkdir_all O (L.join (boot ∷ "grub2" ∷ []))
      then copy_file O L (L.join (root ∷ grub_conf ∷ []))
          (L.join (boot ∷ "grub2" ∷ "grub.cfg" ∷ []))

  unfoldable pub install_bios : String → String → String → Proc
  unfolding perform
  install_bios target root boot = perform O (
      Call.run "grub2-install" (
        ("--root-directory=" <> root)
        ∷ ("--boot-directory=" <> boot)
        ∷ "--target=i386-pc"
        ∷ target
        ∷ []))

  install_boot : Bool → String → String → String → String → Bool → Bool → Proc
  unfolding ask perform install_bios
  install_boot efi target root boot label no_entry clear w =
      let (r, w1) =
        ask O (Call.library "Grub.InstallEFI" (root ∷ boot ∷ "/run/cos/efi" ∷ label ∷ [])) w in
      let (e, w2) =
        perform O
          (Call.library "Grub.DoEFIEntries"
            (r.out ∷ "/run/cos/efi" ∷ (if clear then "true" else "false") ∷ []))
          w1 in
      let bios = install_bios target root boot w in
      if efi
      then elim r.err [ some x ↦ (some x, w1) | none ↦ if no_entry then (none, w1) else (e, w2) ]
      else bios

  unfoldable pub install_grub :
      (target root boot grub_conf : String)
      → Bool
      → (label : String) (disable_boot_entry clear_boot_entries : Bool) → Proc
  unfolding install_boot install_config
  install_grub target root boot grub_conf efi label no_entry clear =
      install_boot efi target root boot label no_entry clear then install_config root boot grub_conf

  os_release_entry : String → String → World → String × World
  unfolding ask
  os_release_entry root default w =
      let (r, w') =
        ask O
          (Call.library "utils.LoadEnvFile"
            (L.join (root ∷ "etc" ∷ "os-release" ∷ []) ∷ "GRUB_ENTRY_NAME" ∷ []))
          w in
      (elim r.err [ some _ ↦ default | none ↦ if r.out == "" then default else r.out ], w')

  -- `SetDefaultGrubEntry` of pkg/elemental/elemental.go; the reply to `LoadEnvFile` is the value of
  -- GRUB_ENTRY_NAME.
  unfoldable pub set_default_grub_entry : String → String → String → Proc
  unfolding os_release_entry set_persistent_variables
  set_default_grub_entry mount_point root default w =
      let (entry, w') = os_release_entry root default w in
      if entry == ""
      then (none, w')
      else set_persistent_variables (L.join (mount_point ∷ "grub_oem_env" ∷ []))
          (("default_menu_entry", entry) ∷ []) w'
