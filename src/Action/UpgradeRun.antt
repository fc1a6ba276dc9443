-- ===== src/Action/UpgradeRun.antt =====
-- The clean-up jobs of a run of pkg/action/upgrade.go.
use mathlib.Core.Path.{subst}
use elemental_cli.Base.{
  ◌≡◌, refl, sym, ap, ◌∙◌, List, [], ◌∷◌, ◌++◌, arith, Bool, true, false, String, Option, none,
  some, Bool-cases, inl, inr, string_eq,
}
use elemental_cli.Errors.{Err, Multierror}
use elemental_cli.Golang.{Go}
use elemental_cli.CleanStack.{CleanStack, new_clean_stack, push}
use elemental_cli.CleanStack.Stack.{IsValid, stack, stack-push}
use elemental_cli.Machine.{Outside, World, Proc, Result, ok, fail, panicked}
use elemental_cli.Partitions.{Partition, Pointer}
use elemental_cli.Chroot.{mkdir_all}
use elemental_cli.Devices.{is_mounted}
use elemental_cli.Spec.{Image, UpgradeSpec}
use elemental_cli.Elemental.{mount_rw_partition}
use elemental_cli.Action.{RunConfig, continue, ◌and_then◌, push_job, plain_step, as_m, power_action}
use elemental_cli.Action.Jobs.{
  KeepsJobs, plain_step-KeepsJobs, step-KeepsJobs, done-KeepsJobs, push_job-KeepsJobs,
  and_then-KeepsJobs, after_step, after_plain, after_push, Over, Over-refl, continue-Over,
  push-IsPending, step-ok, outcome, ending, plain_step-IsPlain, run_action-ending,
}
use elemental_cli.Action.Upgrade.{
  pushed, mount_if, persistent_step, upgrade_prepare_script, upgrade_tree_script, backup,
  backup_step, upgrade_end_script, upgrade_script, upgrade_run, upgrade_image,
  upgrade_mounted_script, after_upgrade_prepare, upgrade_work_script,
}

module _ (E : Multierror) (L : Go) (O : Outside) (cfg : RunConfig) where
  pushed-Over :
      (c : CleanStack World) (r : Result Proc × World) → IsValid c → Over c (pushed E L O cfg c r).1
  unfolding pushed
  pushed-Over c (ok umount, w) v = (push_job-KeepsJobs umount).keeps c w v
  pushed-Over c (fail e, w) v = Over-refl c v
  pushed-Over c (panicked, w) v = Over-refl c v

  mount_if-Over :
      (p : Pointer) (c : CleanStack World) (r : Bool × Err × World)
      → IsValid c
      → Over c (mount_if E L O cfg p c r).1
  unfolding mount_if
  mount_if-Over p c (mnt, some e, w) v = Over-refl c v
  mount_if-Over p c (true, none, w) v = Over-refl c v
  mount_if-Over p c (false, none, w) v = pushed-Over c _ v

  persistent_step-KeepsJobs : (o : Option Pointer) → KeepsJobs (persistent_step E L O cfg o)
  unfolding persistent_step
  persistent_step-KeepsJobs none = record { keeps = λ c w v. Over-refl c v }
  persistent_step-KeepsJobs (some p) = record {
    keeps = λ c w v.
        mount_if-Over p c (is_mounted O (some p) (mkdir_all O (w.heap p).mount_point w).1) v;
  }

  upgrade_mounted_script-KeepsJobs :
      (u : UpgradeSpec) (img : Image) (final : String)
      → KeepsJobs (upgrade_mounted_script E L O cfg u img final)
  unfolding upgrade_mounted_script
  upgrade_mounted_script-KeepsJobs u img final = after_push _ _ λ _.
      and_then-KeepsJobs _ _ (persistent_step-KeepsJobs _)
        λ _. after_step E _ _ _ λ _. after_step E _ _ _ λ _. after_push _ _ λ _. done-KeepsJobs _

  upgrade_prepare_script-KeepsJobs :
      (u : UpgradeSpec) → KeepsJobs (upgrade_prepare_script E L O cfg u)
  unfolding upgrade_prepare_script
  upgrade_prepare_script-KeepsJobs u = after_plain _ _ λ (img, final). after_step E _ _ _ λ _.
      after_push _ _ λ _.
        after_step E _ _ _ λ _. after_push _ _ λ _. upgrade_mounted_script-KeepsJobs u img final

  upgrade_tree_script-KeepsJobs :
      (u : UpgradeSpec) (img : Image) (p : Proc) → KeepsJobs (upgrade_tree_script E L O cfg u img p)
  unfolding upgrade_tree_script
  upgrade_tree_script-KeepsJobs u img p = after_step E _ _ _ λ _. after_step E _ _ _ λ _.
      after_step E _ _ _ λ _. after_step E _ _ _ λ _. after_step E _ _ _ λ _. step-KeepsJobs E _ _

  backup-KeepsJobs : (u : UpgradeSpec) (p : Partition) → KeepsJobs (backup E L O cfg u p)
  unfolding backup
  backup-KeepsJobs u p = after_step E _ _ _ λ _. after_step E _ _ _ λ _. plain_step-KeepsJobs _

  backup_step-KeepsJobs : (u : UpgradeSpec) → KeepsJobs (backup_step E L O cfg u)
  unfolding backup_step
  backup_step-KeepsJobs u = elim (Bool-cases u.recovery_upgrade) [
    | inl recovery ↦ rw (recovery, backup_step) (done-KeepsJobs tt)
    | inr system ↦ rw (system, backup_step) (after_plain _ _ λ p. backup-KeepsJobs u p)
  ]

  upgrade_end_script-KeepsJobs :
      (u : UpgradeSpec) (img : Image) (final : String)
      → KeepsJobs (upgrade_end_script E L O cfg u img final)
  unfolding upgrade_end_script
  upgrade_end_script-KeepsJobs u img final = and_then-KeepsJobs _ _ (backup_step-KeepsJobs u) λ _.
      after_step E _ _ _ λ _. after_plain _ _ λ _. after_step E _ _ _ λ _. plain_step-KeepsJobs _

  after_upgrade_prepare-KeepsJobs :
      (u : UpgradeSpec) (p : Image × String × Proc)
      → KeepsJobs (after_upgrade_prepare E L O cfg u p)
  unfolding after_upgrade_prepare
  after_upgrade_prepare-KeepsJobs u (img, final, cleaner) =
      and_then-KeepsJobs _ _ (upgrade_tree_script-KeepsJobs u img cleaner)
        λ img'. upgrade_end_script-KeepsJobs u img' final

  upgrade_run-ending :
      (u : UpgradeSpec) (w : World)
      → outcome (upgrade_run E L O cfg u w)
        ≡ ending E 41
            (as_m (power_action L O E cfg))
            (upgrade_work_script E L O cfg u new_clean_stack w)
  unfolding upgrade_run upgrade_script upgrade_work_script
  upgrade_run-ending u w =
      let after = as_m (power_action L O E cfg) in
      run_action-ending E 41 (upgrade_work_script E L O cfg u) (plain_step after) after w
        (and_then-KeepsJobs _ _ (upgrade_prepare_script-KeepsJobs u)
          (after_upgrade_prepare-KeepsJobs u))
        (plain_step-IsPlain after)

  -- The script, once the partitions are mounted.
  upgrade_prepare_script-mounted :
      (u : UpgradeSpec) (w : World) {img : Image} {final : String} {umount umount' : Proc}
      {w1 w2 w3 : World}
      → upgrade_image E L O cfg u w ≡ (ok (img, final), w1)
      → mount_rw_partition O u.partitions.state w1 ≡ (ok umount, w2)
      → mount_rw_partition O u.partitions.recovery w2 ≡ (ok umount', w3)
      → upgrade_prepare_script E L O cfg u new_clean_stack w
        ≡ upgrade_mounted_script E L O cfg u img final
            (push umount' (push umount new_clean_stack))
            w3
  unfolding upgrade_prepare_script plain_step push_job ◌and_then◌
  upgrade_prepare_script-mounted u w {umount = umount} {w1 = w1} {w2 = w2} found state recovery =
      let mount_state =
        step-ok E 34 (mount_rw_partition O u.partitions.state) new_clean_stack w1 state in
      let mount_recovery =
        step-ok E 35 (mount_rw_partition O u.partitions.recovery) (push umount new_clean_stack) w2
          recovery in
      rw (found, mount_state, mount_recovery) refl

  -- If an upgrade has mounted the state and the recovery partition for writing, the jobs that undo this
  -- are the last two that are pending when its work ends, that of the recovery partition before that of
  -- the state partition, also if the work ends with an error or a panic. The run then runs all the jobs
  -- that are pending, the last one first, each once. It does nothing else if the work or a job has
  -- failed, else it reboots or powers off as configured. Its error is that of the work joined with those
  -- of the jobs, or that of the jobs, or that of the reboot; a panic goes on after the jobs.
  pub upgrade_run-unmounts :
      (u : UpgradeSpec) (w : World) {img : Image} {final : String} {umount umount' : Proc}
      {w1 w2 w3 : World}
      → upgrade_image E L O cfg u w ≡ (ok (img, final), w1)
      → mount_rw_partition O u.partitions.state w1 ≡ (ok umount, w2)
      → mount_rw_partition O u.partitions.recovery w2 ≡ (ok umount', w3)
      → let r = upgrade_work_script E L O cfg u new_clean_stack w in
        (outcome (upgrade_run E L O cfg u w) ≡ ending E 41 (as_m (power_action L O E cfg)) r)
        × ((above : List Proc) × (stack r.1 ≡ above ++ (umount' ∷ umount ∷ [])))
  unfolding upgrade_work_script ◌and_then◌
  upgrade_run-unmounts u w {img} {final} {umount} {umount'} {w3 = w3} found state recovery =
      let after = after_upgrade_prepare E L O cfg u in
      let (valid, one) = stack-push umount new_clean_stack (omega arith) in
      let c1 = push umount new_clean_stack in
      let base = push umount' c1 in
      let mounted = upgrade_mounted_script E L O cfg u img final in
      let over = continue-Over after base (mounted base w3) (after_upgrade_prepare-KeepsJobs u) (
        (upgrade_mounted_script-KeepsJobs u img final).keeps base w3
          (stack-push umount' c1 valid).0) in
      let same = upgrade_prepare_script-mounted u w found state recovery in
      let (above, e) =
        push-IsPending umount' c1 _ valid
          (subst (λ t. Over base (continue after t).1) (sym same) over) in
      (upgrade_run-ending u w, (above, e ∙ ap (λ s. above ++ (umount' ∷ s)) one))
