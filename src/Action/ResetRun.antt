-- ===== src/Action/ResetRun.antt =====
-- The clean-up jobs of a run of pkg/action/reset.go.
use mathlib.Core.Path.{subst}
use elemental_cli.Base.{◌≡◌, refl, sym, none, string_eq, arith}
use elemental_cli.Errors.{Multierror}
use elemental_cli.Golang.{Go}
use elemental_cli.CleanStack.{CleanStack, new_clean_stack, push}
use elemental_cli.CleanStack.Stack.{IsValid, stack-push}
use elemental_cli.Machine.{Outside, World, Proc, ok}
use elemental_cli.Spec.{ResetSpec}
use elemental_cli.Action.{RunConfig, continue, ◌and_then◌, push_job, plain_step, as_m, power_action}
use elemental_cli.Action.Jobs.{
  KeepsJobs, step-KeepsJobs, done-KeepsJobs, and_then-KeepsJobs, after_step, after_push, Over,
  continue-Over, IsPending, push-IsPending, step-none, outcome, ending, plain_step-IsPlain,
  run_action-ending,
}
use elemental_cli.Action.Reset.{
  format_script, reset_tree_script, update_install_state, reset_end_script, reset_script, reset_run,
  reset_format_script, reset_mounted_script, mount_but_recovery, unmount_but_recovery, after_format,
  reset_work_script,
}

module _ (E : Multierror) (L : Go) (O : Outside) (cfg : RunConfig) where
  reset_format_script-KeepsJobs : (r : ResetSpec) → KeepsJobs (reset_format_script E L O cfg r)
  unfolding reset_format_script
  reset_format_script-KeepsJobs r =
      after_step E _ _ _ λ _. after_step E _ _ _ λ _. after_step E _ _ _ λ _. step-KeepsJobs E _ _

  reset_mounted_script-KeepsJobs : (r : ResetSpec) → KeepsJobs (reset_mounted_script E L O cfg r)
  unfolding reset_mounted_script
  reset_mounted_script-KeepsJobs r =
      after_step E _ _ _ λ _. after_step E _ _ _ λ _. after_push _ _ λ _. done-KeepsJobs _

  format_script-KeepsJobs : (r : ResetSpec) → KeepsJobs (format_script E L O cfg r)
  unfolding format_script
  format_script-KeepsJobs r =
      and_then-KeepsJobs _ _ (reset_format_script-KeepsJobs r)
        λ _. after_step E _ _ _ λ _. after_push _ _ λ _. reset_mounted_script-KeepsJobs r

  reset_tree_script-KeepsJobs :
      (r : ResetSpec) (p : Proc) → KeepsJobs (reset_tree_script E L O cfg r p)
  unfolding reset_tree_script
  reset_tree_script-KeepsJobs r p = after_step E _ _ _ λ _. after_step E _ _ _ λ _.
      after_step E _ _ _ λ _.
        after_step E _ _ _ λ _. after_step E _ _ _ λ _. after_step E _ _ _ λ _. step-KeepsJobs E _ _

  update_install_state-KeepsJobs : (r : ResetSpec) → KeepsJobs (update_install_state E L O cfg r)
  unfolding update_install_state
  update_install_state-KeepsJobs r =
      after_step E _ _ _ λ _. after_step E _ _ _ λ _. after_push _ _ λ _. step-KeepsJobs E _ _

  reset_end_script-KeepsJobs : (r : ResetSpec) → KeepsJobs (reset_end_script E L O cfg r)
  unfolding reset_end_script
  reset_end_script-KeepsJobs r =
      after_step E _ _ _ λ _. after_step E _ _ _ λ _. update_install_state-KeepsJobs r

  after_format-KeepsJobs : (r : ResetSpec) (p : Proc) → KeepsJobs (after_format E L O cfg r p)
  unfolding after_format
  after_format-KeepsJobs r cleaner =
      and_then-KeepsJobs _ _ (reset_tree_script-KeepsJobs r cleaner)
        λ active. reset_end_script-KeepsJobs (record r { active = active })

  reset_run-ending :
      (r : ResetSpec) (w : World)
      → outcome (reset_run E L O cfg r w)
        ≡ ending E 41
            (as_m (power_action L O E cfg))
            (reset_work_script E L O cfg r new_clean_stack w)
  unfolding reset_run reset_script reset_work_script
  reset_run-ending r w =
      let after = as_m (power_action L O E cfg) in
      run_action-ending E 41 (reset_work_script E L O cfg r) (plain_step after) after w
        (and_then-KeepsJobs _ _ (format_script-KeepsJobs r) (after_format-KeepsJobs r))
        (plain_step-IsPlain after)

  -- The script, once the partitions are mounted.
  format_script-mounted :
      (r : ResetSpec) (w : World) {c1 : CleanStack World} {w1 w2 : World}
      → reset_format_script E L O cfg r new_clean_stack w ≡ (ok tt, c1, w1)
      → mount_but_recovery E L O cfg r.partitions w1 ≡ (none, w2)
      → format_script E L O cfg r new_clean_stack w
        ≡ reset_mounted_script E L O cfg r
            (push (unmount_but_recovery E L O cfg r.partitions) c1)
            w2
  unfolding format_script push_job ◌and_then◌
  format_script-mounted r w {c1} {w1} formatted mounted =
      rw (formatted, step-none E 54 (mount_but_recovery E L O cfg r.partitions) c1 w1 mounted) refl

  -- If a reset has formatted and mounted its partitions, the job that unmounts them all, but the
  -- recovery partition, is pending when its work ends, also if the work ends with an error or a panic.
  -- The run then runs all the jobs that are pending, the last one first, each once. It does nothing
  -- else if the work or a job has failed, else it reboots or powers off as configured. Its error is
  -- that of the work joined with those of the jobs, or that of the jobs, or that of the reboot; a panic
  -- goes on after the jobs.
  pub reset_run-unmounts :
      (r : ResetSpec) (w : World) {c1 : CleanStack World} {w1 w2 : World}
      → reset_format_script E L O cfg r new_clean_stack w ≡ (ok tt, c1, w1)
      → mount_but_recovery E L O cfg r.partitions w1 ≡ (none, w2)
      → let x = reset_work_script E L O cfg r new_clean_stack w in
        (outcome (reset_run E L O cfg r w) ≡ ending E 41 (as_m (power_action L O E cfg)) x)
        × IsPending (unmount_but_recovery E L O cfg r.partitions) c1 x.1
  unfolding reset_work_script ◌and_then◌
  reset_run-unmounts r w {c1} {w2 = w2} formatted mounted =
      let job = unmount_but_recovery E L O cfg r.partitions in
      let after = after_format E L O cfg r in
      let valid : IsValid c1 =
        subst (λ t. IsValid t.1) formatted
          ((reset_format_script-KeepsJobs r).keeps new_clean_stack w (omega arith)).0 in
      let base = push job c1 in
      let over =
        continue-Over after base (reset_mounted_script E L O cfg r base w2)
          (after_format-KeepsJobs r)
          ((reset_mounted_script-KeepsJobs r).keeps base w2 (stack-push job c1 valid).0) in
      let same = format_script-mounted r w formatted mounted in
      (
        reset_run-ending r w,
        push-IsPending job c1 _ valid (subst (λ t. Over base (continue after t).1) (sym same) over),
      )
