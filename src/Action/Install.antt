-- ===== src/Action/Install.antt =====
-- `Run` of pkg/action/install.go, in its parts. The codes are those of pkg/error/exit-codes.go.
use elemental_cli.Base.{true, false, not, ◌&&◌, none, some, [], ◌∷◌, ◌==◌, string_eq, if◌then◌else◌}
use elemental_cli.Constants
use elemental_cli.Errors.{Multierror, single, elemental}
use elemental_cli.Golang.{Go}
use elemental_cli.ImageSource.{ImageSource, is_file}
use elemental_cli.Machine.{
  Call, Outside, World, Proc, M, ok, fail, panicked, perform, return_err, ◌>>=◌, pure,
}
use elemental_cli.Partitions.{ElementalPartitions}
use elemental_cli.Partitions.MountOrder.{partitions_by_mount_point}
use elemental_cli.Spec.{Image, InstallSpec}
use elemental_cli.Devices.{booted_from}
use elemental_cli.Elemental.{mount_partitions, unmount_partitions, partition_and_format_device}
use elemental_cli.Elemental.Images.{deploy_img_tree, working_img_dir}
use elemental_cli.Elemental.Deploy.{
  create_img_from_tree, copy_file_img, deploy_image, copy_cloud_config, check_active_deployment,
  deactivate_devices, update_source_from_iso,
}
use elemental_cli.Action.{
  RunConfig, End, coded, deref, of_heap, set_default_grub_entry, Script, done, ◌and_then◌, push_job,
  plain_step, step, as_m, clean_step, run_action, hook, chroot_hook, apply_selinux_labels,
  power_action, write_install_state, set_persistent_variables, install_grub,
}
use elemental_cli.Action.State.{create_install_state}
use elemental_cli.Action.Labels.{install_labels}

module _ (E : Multierror) (L : Go) (O : Outside) (cfg : RunConfig) where
  -- `prepareDevice`
  unfoldable pub prepare_device : InstallSpec → M (Unit {0})
  unfolding check_active_deployment deactivate_devices partition_and_format_device
  prepare_device i =
      if i.no_format
      then (λ w.
          let (found, w') =
            check_active_deployment L O (i.active.label ∷ i.recovery.label ∷ []) w in
          if found && not i.force
          then (
            fail (
                single (
                  elemental
                    "use `force` flag to run an installation over the current running deployment"
                    57)),
            w',
          )
          else (ok tt, w'))
      else (λ w.
          let (r, w') = coded E 55 (as_m (deactivate_devices L O)) w in
          elim r [
            | ok _ ↦ coded E 56 (partition_and_format_device L O i >>= λ _. pure tt) w'
            | fail e ↦ (fail e, w')
            | panicked ↦ (panicked, w')
          ])

  -- The source from an ISO, whose cleaner is pushed also if it could not be mounted.
  unfoldable pub iso_step : InstallSpec → Script InstallSpec
  unfolding update_source_from_iso push_job step
  iso_step i c w =
      let (e, cleaner, img, w') = update_source_from_iso L O i.iso i.active w in
      let next : Script InstallSpec = push_job cleaner and_then λ _.
      step E 255 (as_m (return_err e)) and_then λ _. done (record i { active = img }) in
      if i.iso == "" then (ok i, c, w) else next c w'

  unfoldable pub mount_all_parts : ElementalPartitions → Proc
  unfolding mount_partitions partitions_by_mount_point
  mount_all_parts ep w = mount_partitions O (partitions_by_mount_point w.heap ep false []) w

  unfoldable pub unmount_all_parts : ElementalPartitions → Proc
  unfolding unmount_partitions partitions_by_mount_point
  unmount_all_parts ep w = unmount_partitions O (partitions_by_mount_point w.heap ep true []) w

  -- What follows the mounts, up to the tree of the active image and its cleaner.
  unfoldable pub mounted_script : InstallSpec → Script (InstallSpec × Proc)
  unfolding hook deploy_img_tree step push_job
  mounted_script i = step E 50 (as_m (hook L O cfg "before-install")) and_then λ _.
      step E 75 (deploy_img_tree L O cfg.config i.active working_img_dir) and_then λ cleaner.
      push_job cleaner and_then λ _. done (i, cleaner)

  -- The device and its mounts, and what follows.
  unfoldable pub prepare_script : InstallSpec → Script (InstallSpec × Proc)
  unfolding iso_step prepare_device mount_all_parts unmount_all_parts mounted_script step plain_step
      push_job
  prepare_script i = iso_step i and_then λ i. plain_step (prepare_device i) and_then λ _.
      step E 54 (as_m (mount_all_parts i.partitions)) and_then λ _.
      push_job (unmount_all_parts i.partitions) and_then λ _. mounted_script i

  grub_step : InstallSpec → M (Unit {0})
  unfolding install_grub
  grub_step i = deref i.partitions.state >>= λ state. as_m (
      install_grub L O i.target working_img_dir state.mount_point i.grub_conf
        (i.firmware == Constants.efi) state.filesystem_label i.disable_boot_entry true)

  variables_step : InstallSpec → M (Unit {0})
  unfolding install_labels set_persistent_variables
  variables_step i = of_heap (λ h. install_labels h i) >>= λ labels.
      deref i.partitions.state >>= λ state.
      as_m (set_persistent_variables L O (L.join (state.mount_point ∷ "grub_oem_env" ∷ [])) labels)

  entry_step : InstallSpec → M (Unit {0})
  unfolding set_default_grub_entry
  entry_step i = deref i.partitions.state >>= λ state.
      as_m (set_default_grub_entry L O state.mount_point working_img_dir i.grub_def_entry)

  -- What is done in the tree of the active image, which then becomes the image.
  unfoldable pub tree_script : InstallSpec → Proc → Script Image
  unfolding grub_step variables_step entry_step copy_cloud_config apply_selinux_labels chroot_hook
      hook create_img_from_tree step
  tree_script i cleaner = step E 13 (as_m (copy_cloud_config L O 0 i.cloud_init)) and_then λ _.
      step E 49 (grub_step i) and_then λ _.
      step E 46 (as_m (apply_selinux_labels L O i.partitions)) and_then λ _.
      step E 52 (as_m (chroot_hook L O cfg i.partitions "after-install-chroot" working_img_dir))
      and_then λ _. step E 51 (as_m (hook L O cfg "after-install")) and_then λ _.
          step E 78 (variables_step i) and_then λ _. step E 45 (entry_step i) and_then λ _.
          step E 76 (create_img_from_tree L O cfg.config working_img_dir i.active cleaner)

  unfoldable pub recovery_from : InstallSpec → ImageSource → Script (Unit {0})
  unfolding copy_file_img deploy_image step is_file
  recovery_from i src =
      if is_file src && i.active.file == src.source && i.active.fs == i.recovery.fs
      then step E 77 (copy_file_img L O i.recovery)
      else step E 48 (deploy_image L O cfg.config i.recovery >>= λ _. pure tt)

  unfoldable pub recovery_step : InstallSpec → Script (Unit {0})
  unfolding recovery_from
  recovery_step i c w = elim i.recovery.source [
    | none ↦ (panicked, c, w)
    | some src ↦ recovery_from i src c w
  ]

  -- `createInstallStateYaml`
  unfoldable pub create_install_state_yaml : InstallSpec → M (Unit {0})
  unfolding create_install_state write_install_state
  create_install_state_yaml i = of_heap (λ h. create_install_state cfg.now h i none none) >>= λ st.
      deref i.partitions.state >>= λ state. deref i.partitions.recovery >>= λ recovery.
      write_install_state L O cfg st (L.join (state.mount_point ∷ "state.yaml" ∷ []))
        (L.join (recovery.mount_point ∷ "state.yaml" ∷ []))

  -- The other images, and the install state.
  unfoldable pub images_script : InstallSpec → Script (Unit {0})
  unfolding recovery_step copy_file_img hook create_install_state_yaml step
  images_script i = recovery_step i and_then λ _.
      step E 48 (copy_file_img L O i.passive) and_then λ _.
      step E 74 (as_m (hook L O cfg "post-install")) and_then λ _.
      step E 16 (create_install_state_yaml i)

  -- The script that ejects the CD; an error of its writing is dropped.
  eject : Proc
  unfolding booted_from perform
  eject w =
      let (booted, w') = booted_from O L "cdroot" w in
      let w'' =
        (perform O (Call.fs "WriteFile" ("/usr/lib/systemd/system-shutdown/eject" ∷ [])) w').1 in
      if cfg.eject_cd then (if booted then (none, w'') else (none, w')) else (none, w)

  unfoldable pub eject_and_power : M (Unit {0})
  unfolding eject power_action
  eject_and_power = as_m eject >>= λ _. as_m (power_action L O E cfg)

  -- What is done before the clean-up.
  unfoldable pub after_prepare : InstallSpec × Proc → Script (Unit {0})
  unfolding tree_script images_script
  after_prepare (i, cleaner) =
      tree_script i cleaner and_then λ active. images_script (record i { active = active })

  unfoldable pub work_script : InstallSpec → Script (Unit {0})
  unfolding prepare_script after_prepare
  work_script i = prepare_script i and_then after_prepare

  -- Nothing is rebooted if the clean-up has an error.
  unfoldable pub install_script : InstallSpec → Script (Unit {0})
  unfolding work_script clean_step eject_and_power plain_step
  install_script i =
      work_script i and_then λ _. clean_step E 41 and_then λ _. plain_step eject_and_power

  -- `Run` of an `InstallAction`.
  unfoldable pub install_run : InstallSpec → World → End
  unfolding install_script run_action
  install_run i = run_action E (install_script i)
