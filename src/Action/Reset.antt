-- ===== src/Action/Reset.antt =====
-- `Run` of pkg/action/reset.go, in its parts. The codes are those of pkg/error/exit-codes.go.
use elemental_cli.Base.{Bool, true, false, Option, none, some, [], ◌∷◌, string_eq}
use elemental_cli.Errors.{Multierror}
use elemental_cli.Golang.{Go}
use elemental_cli.InstallState.{InstallState}
use elemental_cli.Machine.{Outside, World, Proc, M, panicked, return_err, ◌>>=◌}
use elemental_cli.Partitions.{Pointer, ElementalPartitions}
use elemental_cli.Partitions.MountOrder.{partitions_by_mount_point, found}
use elemental_cli.Spec.{Image, ResetSpec}
use elemental_cli.Elemental.{
  mount_partitions, unmount_partitions, mount_rw_partition, format_existing,
}
use elemental_cli.Elemental.Images.{deploy_img_tree, working_img_dir}
use elemental_cli.Elemental.Deploy.{create_img_from_tree, copy_file_img}
use elemental_cli.Action.{
  End, RunConfig, deref, of_heap, set_default_grub_entry, Script, done, ◌and_then◌, push_job,
  plain_step, step, as_m, clean_step, run_action, hook, chroot_hook, apply_selinux_labels,
  power_action, write_install_state, set_persistent_variables, install_grub,
}
use elemental_cli.Action.State.{reset_install_state}
use elemental_cli.Action.Labels.{reset_labels}

module _ (E : Multierror) (L : Go) (O : Outside) (cfg : RunConfig) where
  -- All partitions but the recovery partition; one that is nil excludes nothing.
  unfoldable pub mount_but_recovery : ElementalPartitions → Proc
  unfolding mount_partitions partitions_by_mount_point
  mount_but_recovery ep w =
      mount_partitions O (partitions_by_mount_point w.heap ep false (found ep.recovery)) w

  unfoldable pub unmount_but_recovery : ElementalPartitions → Proc
  unfolding unmount_partitions partitions_by_mount_point
  unmount_but_recovery ep w =
      unmount_partitions O (partitions_by_mount_point w.heap ep true (found ep.recovery)) w

  format_state : ElementalPartitions → M (Unit {0})
  unfolding format_existing
  format_state ep w = elim ep.state [
    | none ↦ (panicked, w)
    | some p ↦ as_m (format_existing L O p []) w
  ]

  format_if : Bool → Option Pointer → Proc
  unfolding format_existing
  format_if true (some p) = format_existing L O p []
  format_if true none = return_err none
  format_if false p = return_err none

  -- What follows the mounts, up to the tree of the active image and its cleaner.
  unfoldable pub reset_mounted_script : ResetSpec → Script Proc
  unfolding hook deploy_img_tree step push_job
  reset_mounted_script r = step E 61 (as_m (hook L O cfg "before-reset")) and_then λ _.
      step E 75 (deploy_img_tree L O cfg.config r.active working_img_dir) and_then λ cleaner.
      push_job cleaner and_then λ _. done cleaner

  -- What is formatted before the mounts.
  unfoldable pub reset_format_script : ResetSpec → Script (Unit {0})
  unfolding unmount_but_recovery format_state format_if step
  reset_format_script r = step E 59 (as_m (unmount_but_recovery r.partitions)) and_then λ _.
      step E 60 (format_state r.partitions) and_then λ _.
      step E 60 (as_m (format_if r.format_persistent r.partitions.persistent)) and_then λ _.
      step E 60 (as_m (format_if r.format_oem r.partitions.oem))

  unfoldable pub format_script : ResetSpec → Script Proc
  unfolding mount_but_recovery unmount_but_recovery reset_format_script reset_mounted_script step
      push_job
  format_script r = reset_format_script r and_then λ _.
      step E 54 (as_m (mount_but_recovery r.partitions)) and_then λ _.
      push_job (unmount_but_recovery r.partitions) and_then λ _. reset_mounted_script r

  grub_step : ResetSpec → M (Unit {0})
  unfolding install_grub
  grub_step r = deref r.partitions.state >>= λ state. as_m (
      install_grub L O r.target working_img_dir state.mount_point r.grub_conf r.efi
        state.filesystem_label r.disable_boot_entry false)

  variables_step : ResetSpec → M (Unit {0})
  unfolding reset_labels set_persistent_variables
  variables_step r = of_heap (λ h. reset_labels h r) >>= λ labels.
      deref r.partitions.state >>= λ state.
      as_m (set_persistent_variables L O (L.join (state.mount_point ∷ "grub_oem_env" ∷ [])) labels)

  entry_step : ResetSpec → M (Unit {0})
  unfolding set_default_grub_entry
  entry_step r = deref r.partitions.state >>= λ state.
      as_m (set_default_grub_entry L O state.mount_point working_img_dir r.grub_def_entry)

  -- What is done in the tree of the active image, which then becomes the image.
  unfoldable pub reset_tree_script : ResetSpec → Proc → Script Image
  unfolding grub_step variables_step entry_step apply_selinux_labels chroot_hook hook
      create_img_from_tree step
  reset_tree_script r cleaner = step E 49 (grub_step r) and_then λ _.
      step E 46 (as_m (apply_selinux_labels L O r.partitions)) and_then λ _.
      step E 62 (as_m (chroot_hook L O cfg r.partitions "after-reset-chroot" working_img_dir))
      and_then λ _. step E 63 (as_m (hook L O cfg "after-reset")) and_then λ _.
          step E 78 (variables_step r) and_then λ _. step E 45 (entry_step r) and_then λ _.
          step E 76 (create_img_from_tree L O cfg.config working_img_dir r.active cleaner)

  write_state : ResetSpec → InstallState → M (Unit {0})
  unfolding write_install_state
  write_state r st = deref r.partitions.state >>= λ state.
      deref r.partitions.recovery >>= λ recovery.
      write_install_state L O cfg st (L.join (state.mount_point ∷ "state.yaml" ∷ []))
        (L.join (recovery.mount_point ∷ "state.yaml" ∷ []))

  -- `updateInstallState`, which mounts the recovery partition and pushes its unmount.
  unfoldable pub update_install_state : ResetSpec → Script (Unit {0})
  unfolding reset_install_state mount_rw_partition write_state push_job step
  update_install_state r =
      step E 16 (of_heap (λ h. reset_install_state cfg.now h r none)) and_then λ st.
      step E 16 (mount_rw_partition O r.partitions.recovery) and_then λ umount.
      push_job umount and_then λ _. step E 16 (write_state r st)

  unfoldable pub reset_end_script : ResetSpec → Script (Unit {0})
  unfolding copy_file_img hook update_install_state step
  reset_end_script r = step E 48 (copy_file_img L O r.passive) and_then λ _.
      step E 73 (as_m (hook L O cfg "post-reset")) and_then λ _. update_install_state r

  -- What is done before the clean-up.
  unfoldable pub after_format : ResetSpec → Proc → Script (Unit {0})
  unfolding reset_tree_script reset_end_script
  after_format r cleaner =
      reset_tree_script r cleaner and_then λ active. reset_end_script (record r { active = active })

  unfoldable pub reset_work_script : ResetSpec → Script (Unit {0})
  unfolding format_script after_format
  reset_work_script r = format_script r and_then after_format r

  unfoldable pub reset_script : ResetSpec → Script (Unit {0})
  unfolding reset_work_script clean_step power_action plain_step
  reset_script r = reset_work_script r and_then λ _.
      clean_step E 41 and_then λ _. plain_step (as_m (power_action L O E cfg))

  -- `Run` of a `ResetAction`.
  unfoldable pub reset_run : ResetSpec → World → End
  unfolding reset_script run_action
  reset_run r = run_action E (reset_script r)
