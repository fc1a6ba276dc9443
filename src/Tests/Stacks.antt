-- ===== src/Tests/Stacks.antt =====
-- pkg/utils/cleanstack.go on a stack of two jobs, of which the upper one fails.
use elemental_cli.Base.{ℕ, ◌+◌, ◌≡◌, refl, none, some, [], ◌∷◌, ◌++◌, arith, ℕ_discrete}
use elemental_cli.Errors.{single, multi, plain, elemental, Err, errors, Multierror, exit_status}
use elemental_cli.CleanStack.{CleanJob, CleanStack, push, pop, cleanup}
use elemental_cli.CleanStack.Stack.{IsValid, stack, stack-push, stack-pop, PopOf}
use elemental_cli.CleanStack.Cleanup.{join, cleanup_lem, cleanup-exit_status}

abbrev pub multierror : Multierror
multierror = record {
  append = λ e f. errors e ++ errors f;
  format = λ es. "errors";
  append_lem = λ e f. refl;
}

-- A job counts its runs.
abbrev unmounted : CleanJob ℕ
unmounted n = (none, n + 1)

abbrev failing : CleanJob ℕ
failing n = (some (single (plain "busy")), n + 10)

-- The slice still holds a job that was popped before.
abbrev two_jobs : CleanStack ℕ
two_jobs = record { jobs = unmounted ∷ failing ∷ unmounted ∷ []; count = 2 }

two_jobs-IsValid : IsValid two_jobs
two_jobs-IsValid = omega arith

two_jobs_run :
    (cleanup multierror (some (single (elemental "no space" 12))) two_jobs 0)
    ≡ some (
      some (multi (elemental "no space" 12 ∷ plain "busy" ∷ [])),
      record { jobs = unmounted ∷ failing ∷ unmounted ∷ []; count = 0 },
      11,
    )
unfolding cleanup ℕ_discrete
two_jobs_run = refl

stack-push_example :
    IsValid (push failing two_jobs) × (stack (push failing two_jobs) ≡ failing ∷ stack two_jobs)
stack-push_example = stack-push failing two_jobs two_jobs-IsValid

stack-pop_example : IsValid (pop two_jobs).1 × PopOf (stack two_jobs) two_jobs (pop two_jobs)
stack-pop_example = stack-pop two_jobs two_jobs-IsValid

cleanup_lem_example :
    (c' : CleanStack ℕ) × (cleanup multierror none two_jobs 5
      ≡ some (join (none ∷ some (single (plain "busy")) ∷ none ∷ []), c', 16))
    × (stack c' ≡ [])
    × IsValid c'
cleanup_lem_example = cleanup_lem multierror none two_jobs 5 two_jobs-IsValid

cleanup-exit_status_example :
    (r : Err) × (c' : CleanStack ℕ) × (t : ℕ) × (cleanup multierror
        (some (single (elemental "no space" 12)))
        two_jobs
        0
      ≡ some (r, c', t))
    × (exit_status r ≡ 1)
cleanup-exit_status_example =
    cleanup-exit_status multierror (single (elemental "no space" 12)) two_jobs 0 two_jobs-IsValid
