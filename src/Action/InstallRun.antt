-- ===== src/Action/InstallRun.antt =====
-- The clean-up jobs of a run of pkg/action/install.go.
use mathlib.Core.Path.{subst}
use elemental_cli.Base.{
  ◌≡◌, refl, sym, none, Option-cases, Bool-cases, inl, inr, ◌==◌, string_eq, ◌&&◌, arith,
}
use elemental_cli.Errors.{Multierror}
use elemental_cli.Golang.{Go}
use elemental_cli.CleanStack.{CleanStack, new_clean_stack, push}
use elemental_cli.CleanStack.Stack.{IsValid, stack-push}
use elemental_cli.ImageSource.{ImageSource, is_file}
use elemental_cli.Machine.{Outside, World, Proc, ok}
use elemental_cli.Spec.{InstallSpec}
use elemental_cli.Action.{RunConfig, continue, ◌and_then◌, push_job, plain_step}
use elemental_cli.Action.Jobs.{
  Over, Over-refl, KeepsJobs, step-KeepsJobs, done-KeepsJobs, and_then-KeepsJobs, continue-Over,
  after_step, after_plain, after_push, IsPending, push-IsPending, step-none, outcome, ending,
  plain_step-IsPlain, run_action-ending,
}
use elemental_cli.Action.Install.{
  iso_step, prepare_device, mount_all_parts, unmount_all_parts, mounted_script, prepare_script,
  tree_script, recovery_from, recovery_step, images_script, after_prepare, work_script,
  eject_and_power, install_script, install_run,
}

module _ (E : Multierror) (L : Go) (O : Outside) (cfg : RunConfig) where
  tree_script-KeepsJobs : (i : InstallSpec) (p : Proc) → KeepsJobs (tree_script E L O cfg i p)
  unfolding tree_script
  tree_script-KeepsJobs i p = after_step E _ _ _ λ _. after_step E _ _ _ λ _.
      after_step E _ _ _ λ _. after_step E _ _ _ λ _.
        after_step E _ _ _ λ _. after_step E _ _ _ λ _. after_step E _ _ _ λ _. step-KeepsJobs E _ _

  iso_step-KeepsJobs : (i : InstallSpec) → KeepsJobs (iso_step E L O cfg i)
  unfolding iso_step
  iso_step-KeepsJobs i = record {
    keeps = λ c w v. elim (Bool-cases (i.iso == "")) [
      | inl without ↦ rw (without, iso_step) (Over-refl c v)
      | inr with_iso ↦
          rw (with_iso, iso_step)
            ((after_push _ _ λ _. after_step E _ _ _ λ _. done-KeepsJobs _).keeps c _ v)
    ];
  }

  mounted_script-KeepsJobs : (i : InstallSpec) → KeepsJobs (mounted_script E L O cfg i)
  unfolding mounted_script
  mounted_script-KeepsJobs i =
      after_step E _ _ _ λ _. after_step E _ _ _ λ _. after_push _ _ λ _. done-KeepsJobs _

  prepare_script-KeepsJobs : (i : InstallSpec) → KeepsJobs (prepare_script E L O cfg i)
  unfolding prepare_script
  prepare_script-KeepsJobs i = and_then-KeepsJobs _ _ (iso_step-KeepsJobs i) λ i.
      after_plain _ _ λ _. after_step E _ _ _ λ _. after_push _ _ λ _. mounted_script-KeepsJobs i

  recovery_from-KeepsJobs :
      (i : InstallSpec) (src : ImageSource) → KeepsJobs (recovery_from E L O cfg i src)
  unfolding recovery_from
  recovery_from-KeepsJobs i src =
      elim (Bool-cases
        (is_file src && i.active.file == src.source && i.active.fs == i.recovery.fs)) [
          | inl same ↦ rw (same, recovery_from) (step-KeepsJobs E _ _)
          | inr other ↦ rw (other, recovery_from) (step-KeepsJobs E _ _)
        ]

  recovery_step-KeepsJobs : (i : InstallSpec) → KeepsJobs (recovery_step E L O cfg i)
  unfolding recovery_step
  recovery_step-KeepsJobs i = record {
    keeps = λ c w v. elim (Option-cases i.recovery.source) [
      | inl nil ↦ rw (nil, recovery_step) (Over-refl c v)
      | inr (src, e) ↦ rw (e, recovery_step) ((recovery_from-KeepsJobs i src).keeps c w v)
    ];
  }

  images_script-KeepsJobs : (i : InstallSpec) → KeepsJobs (images_script E L O cfg i)
  unfolding images_script
  images_script-KeepsJobs i =
      and_then-KeepsJobs _ _ (recovery_step-KeepsJobs i)
        λ _. after_step E _ _ _ λ _. after_step E _ _ _ λ _. step-KeepsJobs E _ _

  after_prepare-KeepsJobs : (p : InstallSpec × Proc) → KeepsJobs (after_prepare E L O cfg p)
  unfolding after_prepare
  after_prepare-KeepsJobs (i, cleaner) =
      and_then-KeepsJobs _ _ (tree_script-KeepsJobs i cleaner)
        λ active. images_script-KeepsJobs (record i { active = active })

  work_script-KeepsJobs : (i : InstallSpec) → KeepsJobs (work_script E L O cfg i)
  unfolding work_script
  work_script-KeepsJobs i =
      and_then-KeepsJobs _ _ (prepare_script-KeepsJobs i) after_prepare-KeepsJobs

  install_run-ending :
      (i : InstallSpec) (w : World)
      → outcome (install_run E L O cfg i w)
        ≡ ending E 41 (eject_and_power E L O cfg) (work_script E L O cfg i new_clean_stack w)
  unfolding install_run install_script
  install_run-ending i w =
      run_action-ending E 41 (work_script E L O cfg i) (plain_step (eject_and_power E L O cfg))
        (eject_and_power E L O cfg) w (work_script-KeepsJobs i) (plain_step-IsPlain _)

  -- The script, once the partitions are mounted.
  prepare_script-mounted :
      (i : InstallSpec) (w : World) {i1 : InstallSpec} {c1 : CleanStack World} {w1 w2 w3 : World}
      → iso_step E L O cfg i new_clean_stack w ≡ (ok i1, c1, w1)
      → prepare_device E L O cfg i1 w1 ≡ (ok tt, w2)
      → mount_all_parts E L O cfg i1.partitions w2 ≡ (none, w3)
      → prepare_script E L O cfg i new_clean_stack w
        ≡ mounted_script E L O cfg i1 (push (unmount_all_parts E L O cfg i1.partitions) c1) w3
  unfolding prepare_script plain_step push_job ◌and_then◌
  prepare_script-mounted i w {i1} {c1} {w2 = w2} found prepared mounted =
      rw (found, prepared, step-none E 54 (mount_all_parts E L O cfg i1.partitions) c1 w2 mounted)
        refl

  -- If an installation has mounted its partitions, the job that unmounts them all is pending when its
  -- work ends, over the jobs from before the mounts, also if the work ends with an error or a panic.
  -- The run then runs all the jobs that are pending, the last one first, each once. It does nothing
  -- else if the work or a job has failed, else it ejects the CD and reboots or powers off as configured.
  -- Its error is that of the work joined with those of the jobs, or that of the jobs, or that of the
  -- reboot; a panic goes on after the jobs.
  pub install_run-unmounts :
      (i : InstallSpec) (w : World) {i1 : InstallSpec} {c1 : CleanStack World} {w1 w2 w3 : World}
      → iso_step E L O cfg i new_clean_stack w ≡ (ok i1, c1, w1)
      → prepare_device E L O cfg i1 w1 ≡ (ok tt, w2)
      → mount_all_parts E L O cfg i1.partitions w2 ≡ (none, w3)
      → let r = work_script E L O cfg i new_clean_stack w in
        (outcome (install_run E L O cfg i w) ≡ ending E 41 (eject_and_power E L O cfg) r)
        × IsPending (unmount_all_parts E L O cfg i1.partitions) c1 r.1
  unfolding work_script ◌and_then◌
  install_run-unmounts i w {i1} {c1} {w3 = w3} found prepared mounted =
      let job = unmount_all_parts E L O cfg i1.partitions in
      let valid : IsValid c1 =
        subst (λ t. IsValid t.1) found
          ((iso_step-KeepsJobs i).keeps new_clean_stack w (omega arith)).0 in
      let base = push job c1 in
      let over =
        continue-Over (after_prepare E L O cfg) base (mounted_script E L O cfg i1 base w3)
          after_prepare-KeepsJobs
          ((mounted_script-KeepsJobs i1).keeps base w3 (stack-push job c1 valid).0) in
      let same = prepare_script-mounted i w found prepared mounted in
      (
        install_run-ending i w,
        push-IsPending job c1 _ valid
            (subst (λ t. Over base (continue (after_prepare E L O cfg) t).1) (sym same) over),
      )
