-- ===== src/Action/Upgrade.antt =====
-- `Run` of pkg/action/upgrade.go, in its parts. The codes are those of pkg/error/exit-codes.go.
use elemental_cli.Base.{
  String, Bool, true, false, Option, none, some, [], ◌∷◌, ◌==◌, string_eq, if◌then◌else◌,
}
use elemental_cli.Constants
use elemental_cli.Errors.{Err, Multierror}
use elemental_cli.Golang.{Go}
use elemental_cli.CleanStack.{CleanStack}
use elemental_cli.Machine.{
  Call, Outside, World, Proc, M, Result, ok, fail, panicked, perform, return_err, ◌>>=◌, pure,
  ◌then◌,
}
use elemental_cli.Partitions.{Pointer, Partition}
use elemental_cli.Spec.{Image, UpgradeSpec}
use elemental_cli.Chroot.{mkdir_all}
use elemental_cli.Devices.{is_mounted, exists}
use elemental_cli.Elemental.{mount_rw_partition}
use elemental_cli.Elemental.Images.{deploy_img_tree, working_img_dir}
use elemental_cli.Elemental.Deploy.{create_img_from_tree}
use elemental_cli.Action.{
  End, RunConfig, deref, of_heap, set_default_grub_entry, Script, done, ◌and_then◌, push_job,
  plain_step, step, as_m, clean_step, run_action, hook, chroot_hook, apply_selinux_labels,
  power_action, write_install_state, set_persistent_variables,
}
use elemental_cli.Action.State.{upgrade_install_state}
use elemental_cli.Action.Labels.{upgrade_labels}

module _ (E : Multierror) (L : Go) (O : Outside) (cfg : RunConfig) where
  -- The image to upgrade, and the file that it replaces in the end.
  unfoldable pub upgrade_image : UpgradeSpec → M (Image × String)
  upgrade_image u =
      if u.recovery_upgrade
      then (deref u.partitions.recovery >>= λ p.
          pure (u.recovery, L.join (p.mount_point ∷ "cOS" ∷ "recovery.img" ∷ [])))
      else (deref u.partitions.state >>= λ p.
          pure (u.active, L.join (p.mount_point ∷ "cOS" ∷ "active.img" ∷ [])))

  -- `remove`
  unfoldable pub remove_file : String → Proc
  unfolding exists perform
  remove_file path w =
      let (there, w') = exists O path w in
      if there then perform O (Call.fs "RemoveAll" (path ∷ [])) w' else (none, w')

  -- The unmount of a partition that could be mounted is pushed; else nothing happens.
  unfoldable pub pushed :
      CleanStack World → Result Proc × World → Result (Unit {0}) × CleanStack World × World
  unfolding push_job
  pushed c (ok umount, w) = push_job umount c w
  pushed c (fail _, w) = (ok tt, c, w)
  pushed c (panicked, w) = (panicked, c, w)

  unfoldable pub mount_if :
      Pointer → CleanStack World → Bool × Err × World → Result (Unit {0}) × CleanStack World × World
  unfolding mount_rw_partition pushed
  mount_if p c (mnt, some _, w) = (ok tt, c, w)
  mount_if p c (true, none, w) = (ok tt, c, w)
  mount_if p c (false, none, w) = pushed c (mount_rw_partition O (some p) w)

  -- The persistent partition is mounted if it can be.
  unfoldable pub persistent_step : Option Pointer → Script (Unit {0})
  unfolding mkdir_all mount_if is_mounted
  persistent_step none c w = (ok tt, c, w)
  persistent_step (some p) c w =
      mount_if p c (is_mounted O (some p) (mkdir_all O (w.heap p).mount_point w).1)

  -- What follows the mounts, up to the tree of the image and its cleaner, with the image and its final
  -- file.
  unfoldable pub upgrade_mounted_script :
      UpgradeSpec → Image → String → Script (Image × String × Proc)
  unfolding remove_file persistent_step hook deploy_img_tree step push_job
  upgrade_mounted_script u img final = push_job (remove_file img.file) and_then λ _.
      persistent_step u.partitions.persistent and_then λ _.
      step E 36 (as_m (hook L O cfg "before-upgrade")) and_then λ _.
      step E 75 (deploy_img_tree L O cfg.config img working_img_dir) and_then λ cleaner.
      push_job cleaner and_then λ _. done (img, final, cleaner)

  -- The mounts, and what follows.
  unfoldable pub upgrade_prepare_script : UpgradeSpec → Script (Image × String × Proc)
  unfolding upgrade_image mount_rw_partition upgrade_mounted_script step plain_step push_job
  upgrade_prepare_script u = plain_step (upgrade_image u) and_then λ (img, final).
      step E 34 (mount_rw_partition O u.partitions.state) and_then λ umount.
      push_job umount and_then λ _.
      step E 35 (mount_rw_partition O u.partitions.recovery) and_then λ umount'.
      push_job umount' and_then λ _. upgrade_mounted_script u img final

  relabel_step : UpgradeSpec → Image → Proc
  unfolding apply_selinux_labels
  relabel_step u img =
      if img.fs == Constants.squash_fs
      then return_err none
      else apply_selinux_labels L O u.partitions

  labels_step : UpgradeSpec → M (Unit {0})
  unfolding upgrade_labels set_persistent_variables
  labels_step u = of_heap (λ h. upgrade_labels h u) >>= λ labels.
      deref u.partitions.state >>= λ state.
      as_m (set_persistent_variables L O (L.join (state.mount_point ∷ "grub_oem_env" ∷ [])) labels)

  -- Only for system upgrades.
  rebrand_step : UpgradeSpec → M (Unit {0})
  unfolding set_default_grub_entry
  rebrand_step u =
      if u.recovery_upgrade
      then pure tt
      else (deref u.partitions.state >>= λ state.
          as_m (set_default_grub_entry L O state.mount_point working_img_dir u.grub_def_entry))

  -- What is done in the tree of the image, which then becomes the image.
  unfoldable pub upgrade_tree_script : UpgradeSpec → Image → Proc → Script Image
  unfolding relabel_step labels_step rebrand_step chroot_hook hook create_img_from_tree step
  upgrade_tree_script u img cleaner = step E 46 (as_m (relabel_step u img)) and_then λ _.
      step E 39 (as_m (chroot_hook L O cfg u.partitions "after-upgrade-chroot" working_img_dir))
      and_then λ _. step E 38 (as_m (hook L O cfg "after-upgrade")) and_then λ _.
          step E 78 (labels_step u) and_then λ _. step E 45 (rebrand_step u) and_then λ _.
          step E 76 (create_img_from_tree L O cfg.config working_img_dir img cleaner)

  sync : Proc
  unfolding perform
  sync w = (none, (perform O (Call.run "sync" []) w).1)

  -- The active image is backed up as the passive one, with the label of that.
  unfoldable pub backup : UpgradeSpec → Partition → Script (Unit {0})
  unfolding sync perform step plain_step
  backup u state =
      step E 40 (
        as_m (
          perform O (
            Call.run "mv" (
              "-f"
              ∷ L.join (state.mount_point ∷ "cOS" ∷ "active.img" ∷ [])
              ∷ u.passive.file
              ∷ []))))
      and_then λ _.
          step E 44
            (as_m (perform O (Call.run "tune2fs" ("-L" ∷ u.passive.label ∷ u.passive.file ∷ []))))
          and_then λ _. plain_step (as_m sync)

  unfoldable pub backup_step : UpgradeSpec → Script (Unit {0})
  unfolding backup plain_step
  backup_step u =
      if u.recovery_upgrade
      then done tt
      else (plain_step (deref u.partitions.state) and_then λ state. backup u state)

  -- `upgradeInstallStateYaml`
  unfoldable pub upgrade_install_state_yaml : UpgradeSpec → Image → M (Unit {0})
  unfolding upgrade_install_state write_install_state
  upgrade_install_state_yaml u img =
      of_heap (λ h. upgrade_install_state cfg.now h u none img) >>= λ st.
      deref u.partitions.state >>= λ state. deref u.partitions.recovery >>= λ recovery.
      write_install_state L O cfg st (L.join (state.mount_point ∷ "state.yaml" ∷ []))
        (L.join (recovery.mount_point ∷ "state.yaml" ∷ []))

  unfoldable pub upgrade_end_script : UpgradeSpec → Image → String → Script (Unit {0})
  unfolding backup_step sync perform hook upgrade_install_state_yaml step plain_step
  upgrade_end_script u img final = backup_step u and_then λ _.
      step E 40 (as_m (perform O (Call.run "mv" ("-f" ∷ img.file ∷ final ∷ [])))) and_then λ _.
      plain_step (as_m sync) and_then λ _.
      step E 72 (as_m (hook L O cfg "post-upgrade")) and_then λ _.
      plain_step (upgrade_install_state_yaml u img)

  -- What is done before the clean-up.
  unfoldable pub after_upgrade_prepare : UpgradeSpec → Image × String × Proc → Script (Unit {0})
  unfolding upgrade_tree_script upgrade_end_script
  after_upgrade_prepare u (img, final, cleaner) =
      upgrade_tree_script u img cleaner and_then λ img'. upgrade_end_script u img' final

  unfoldable pub upgrade_work_script : UpgradeSpec → Script (Unit {0})
  unfolding upgrade_prepare_script after_upgrade_prepare
  upgrade_work_script u = upgrade_prepare_script u and_then after_upgrade_prepare u

  unfoldable pub upgrade_script : UpgradeSpec → Script (Unit {0})
  unfolding upgrade_work_script clean_step power_action plain_step
  upgrade_script u = upgrade_work_script u and_then λ _.
      clean_step E 41 and_then λ _. plain_step (as_m (power_action L O E cfg))

  -- `Run` of an `UpgradeAction`.
  unfoldable pub upgrade_run : UpgradeSpec → World → End
  unfolding upgrade_script run_action
  upgrade_run u = run_action E (upgrade_script u)
