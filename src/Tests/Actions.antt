-- ===== src/Tests/Actions.antt =====
-- The runs of the actions where a mount fails.
use elemental_cli.Base.{
  ◌≡◌, ◌≢◌, refl, none, some, List, [], ◌∷◌, ◌++◌, arith, true, false, string_eq, ℕ_discrete,
}
use elemental_cli.Errors.{single, plain}
use elemental_cli.CleanStack.{CleanStack, new_clean_stack}
use elemental_cli.CleanStack.Stack.{stack}
use elemental_cli.Golang.{Go}
use elemental_cli.Machine.{World, Proc, ok}
use elemental_cli.Spec.{InstallSpec, ResetSpec, UpgradeSpec}
use elemental_cli.InstallState.{InstallState, ImageState, get}
use elemental_cli.Action.State.{create_install_state, upgrade_install_state}
use elemental_cli.Action.Written.{
  HasLabels, create_install_state-HasLabels, Upgraded, upgrade_install_state-Upgraded,
}
use elemental_cli.Elemental.{mount_rw_partition, mount_partition}
use elemental_cli.Action.{RunConfig, ◌and_then◌, clean_step, plain_step, step, as_m, power_action}
use elemental_cli.Action.Install.{
  work_script, eject_and_power, iso_step, prepare_device, mount_all_parts, unmount_all_parts,
  install_run,
}
use elemental_cli.Action.Reset.{
  reset_work_script, reset_format_script, mount_but_recovery, unmount_but_recovery, reset_run,
}
use elemental_cli.Action.Upgrade.{upgrade_work_script, upgrade_image, upgrade_run}
use elemental_cli.Action.Jobs.{IsPending, outcome, ending, clean_step-stops, error_in}
use elemental_cli.Action.InstallRun.{install_run-unmounts}
use elemental_cli.Action.ResetRun.{reset_run-unmounts}
use elemental_cli.Action.UpgradeRun.{upgrade_run-unmounts}
use elemental_cli.Tests.Stacks.{multierror}
use elemental_cli.Tests.Layouts.{heap, install_spec, upgrade_spec, layout, image}
use elemental_cli.Tests.Roots.{outside, start}
use elemental_cli.Tests.Disks.{go}
use elemental_cli.ImageSource.{new_dir_src, new_file_src, new_empty_src}

abbrev config : RunConfig
config = record {
  config = record {
    cosign = false;
    platform = "linux/x86_64";
    local_image = false;
    squash_fs_options = [];
  };
  strict = true;
  reboot = true;
  power_off = false;
  eject_cd = false;
  marshal = λ st. ok st.date;
  now = "2023-01-01T00:00:00Z";
}

-- The devices of the partitions are known.
abbrev ready : World
ready = record start { heap = λ p. record (heap p) { path = "/dev/sda1" } }

-- Nothing is formatted.
abbrev to_install : InstallSpec
to_install = record install_spec { iso = ""; no_format = true; force = true }

install_run-unmounts_example :
    let r = work_script multierror go outside config to_install new_clean_stack ready in
    (outcome (install_run multierror go outside config to_install ready)
      ≡ ending multierror 41 (eject_and_power multierror go outside config) r)
    × IsPending
        (unmount_all_parts multierror go outside config to_install.partitions)
        new_clean_stack
        r.1
unfolding iso_step prepare_device mount_all_parts string_eq ℕ_discrete
install_run-unmounts_example =
    install_run-unmounts multierror go outside config to_install ready refl refl refl

upgrade_run-unmounts_example :
    let r = upgrade_work_script multierror go outside config upgrade_spec new_clean_stack ready in
    let (_, w1) = upgrade_image multierror go outside config upgrade_spec ready in
    (outcome (upgrade_run multierror go outside config upgrade_spec ready)
      ≡ ending multierror 41 (as_m (power_action go outside multierror config)) r)
    × ((above : List Proc) × (stack r.1
          ≡ above
            ++ (mount_partition outside 2 ("remount" ∷ "ro" ∷ [])
                ∷ mount_partition outside 3 ("remount" ∷ "ro" ∷ [])
                ∷ [])))
unfolding upgrade_image mount_rw_partition mount_partition ◌and_then◌ string_eq ℕ_discrete
upgrade_run-unmounts_example =
    upgrade_run-unmounts multierror go outside config upgrade_spec ready refl refl refl

abbrev pub reset_spec : ResetSpec
reset_spec = record {
  format_persistent = true;
  format_oem = false;
  grub_def_entry = "";
  active = image (new_dir_src "/");
  passive = image (new_file_src "/run/cos/state/active.img");
  partitions = layout;
  target = "/dev/sda";
  efi = false;
  grub_conf = "/etc/cos/grub.cfg";
  state = none;
  disable_boot_entry = false;
}

-- A standard library that finds every match.
abbrev matching : Go
matching = record go { matches = λ re s. true }

reset_run-unmounts_example :
    let r = reset_work_script multierror matching outside config reset_spec new_clean_stack ready in
    (outcome (reset_run multierror matching outside config reset_spec ready)
      ≡ ending multierror 41 (as_m (power_action matching outside multierror config)) r)
    × IsPending
        (unmount_but_recovery multierror matching outside config reset_spec.partitions)
        new_clean_stack
        r.1
unfolding reset_format_script mount_but_recovery unmount_but_recovery ◌and_then◌ step string_eq
    ℕ_discrete
reset_run-unmounts_example =
    reset_run-unmounts multierror matching outside config reset_spec ready refl refl

-- The unmount of a partition that is busy.
abbrev busy : Proc
busy w = (some (single (plain "busy")), w)

abbrev jobs : CleanStack World
jobs = record { jobs = busy ∷ []; count = 1 }

clean_step-stops_example :
    let (r, c', w') =
      (clean_step multierror 41 and_then λ _.
      plain_step (as_m (power_action go outside multierror config)))
        jobs start in
    (w' ≡ start) × (error_in r ≢ none) × (stack c' ≡ [])
clean_step-stops_example =
    clean_step-stops multierror 41 (plain_step (as_m (power_action go outside multierror config)))
      jobs start (omega arith) refl

abbrev active_state : ImageState
active_state = record {
  source = some (new_dir_src "/");
  source_metadata = none;
  label = "COS_ACTIVE";
  fs = "ext2";
}

-- The state after the installation of the system, and that after an upgrade.
abbrev installed : InstallState
installed = record {
  date = "2023-01-01";
  partitions =
      (
        "state",
        some (record {
          fs_label = "COS_STATE";
          images = ("active", some active_state) ∷ ("passive", some active_state) ∷ [];
        }),
      )
      ∷ (
        "recovery",
        some (record {
          fs_label = "COS_RECOVERY";
          images = ("recovery", some (record active_state { source = some new_empty_src })) ∷ [];
        }),
      )
      ∷ ("oem", some (record { fs_label = "COS_OEM"; images = [] }))
      ∷ ("persistent", some (record { fs_label = "COS_PERSISTENT"; images = [] }))
      ∷ [];
}

installed_run : create_install_state "2023-01-01" heap install_spec none none ≡ ok installed
unfolding create_install_state string_eq ℕ_discrete
installed_run = refl

create_install_state-HasLabels_example : HasLabels heap layout installed "none"
create_install_state-HasLabels_example =
    create_install_state-HasLabels "2023-01-01" heap install_spec none none "none" installed_run

abbrev again : UpgradeSpec
again = record upgrade_spec { state = some installed }

abbrev upgraded : InstallState
upgraded = record {
  date = "2023-02-01";
  partitions =
      (
        "state",
        some (record {
          fs_label = "COS_STATE";
          images =
              ("active", some (record active_state { source = some (new_file_src "/new.img") }))
              ∷ ("passive", some active_state)
              ∷ [];
        }),
      )
      ∷ (
        "recovery",
        some (record {
          fs_label = "COS_RECOVERY";
          images = ("recovery", some (record active_state { source = some new_empty_src })) ∷ [];
        }),
      )
      ∷ ("oem", some (record { fs_label = "COS_OEM"; images = [] }))
      ∷ ("persistent", some (record { fs_label = "COS_PERSISTENT"; images = [] }))
      ∷ [];
}

upgraded_run :
    upgrade_install_state "2023-02-01" heap again none (image (new_file_src "/new.img"))
    ≡ ok upgraded
unfolding upgrade_install_state string_eq
upgraded_run = refl

installed_part :
    get "state" installed.partitions
    ≡ some (record {
      fs_label = "COS_STATE";
      images = ("active", some active_state) ∷ ("passive", some active_state) ∷ [];
    })
unfolding get string_eq
installed_part = refl

installed_active :
    get "active" (("active", some active_state) ∷ ("passive", some active_state) ∷ [])
    ≡ some active_state
unfolding get string_eq
installed_active = refl

upgrade_install_state-Upgraded_example :
    Upgraded installed active_state upgraded
      (record active_state { source = some (new_file_src "/new.img") })
upgrade_install_state-Upgraded_example =
    upgrade_install_state-Upgraded "2023-02-01" heap again none (image (new_file_src "/new.img"))
      refl refl installed_part installed_active upgraded_run
