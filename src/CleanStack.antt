-- ===== src/CleanStack.antt =====
-- pkg/utils/cleanstack.go: the stack of clean-up jobs that an action runs when it ends.
pub mod Stack
pub mod Cleanup
use elemental_cli.Base.{
  ℕ, zero, suc, ◌-◌, ◌+◌, ◌≤◌, Option, none, some, List, [], ◌∷◌, ◌++◌, length, get_elem?, take,
  ◌==◌, nat_eq, if◌then◌else◌, true, false,
}
use elemental_cli.Errors.{Err, Multierror, multi}

-- `CleanJob`: a closure over the state of the machine.
abbrev pub CleanJob {ℓ} : Type ℓ → Type ℓ
CleanJob S = S → Err × S

pub record CleanStack {ℓ} (S : Type ℓ) : Type ℓ where
  pub jobs : List (CleanJob S)
  pub count : ℕ

-- The job that `Pop` returns, nil, or the panic of an index out of range.
pub data Popped {ℓ} (S : Type ℓ) : Type ℓ where
  nil : Popped S
  job : CleanJob S → Popped S
  out_of_range : Popped S

-- `NewCleanStack`
abbrev pub new_clean_stack {ℓ} : {S : Type ℓ} → CleanStack S
new_clean_stack = record { jobs = []; count = 0 }

-- `if err != nil { errs = multierror.Append(errs, err) }`
unfoldable pub add : Multierror → Err → Err → Err
add M errs none = errs
add M errs (some e) = some (multi (M.append errs (some e)))

module _ {ℓ} {S : Type ℓ} where
  -- `append(clean.jobs[:clean.count], job)`
  unfoldable pub push : CleanJob S → CleanStack S → CleanStack S
  push j c = record { jobs = take c.count c.jobs ++ (j ∷ []); count = c.count + 1 }

  popped : Option (CleanJob S) → Popped S
  popped none = out_of_range
  popped (some j) = job j

  unfoldable pub pop : CleanStack S → Popped S × CleanStack S
  unfolding popped
  pop c =
      if c.count == 0
      then (nil, c)
      else (popped (get_elem? c.jobs (c.count - 1)), record c { count = c.count - 1 })

  -- The loop of `Cleanup`, which ends when the count is 0. `none` is a panic, or fuel that ran out.
  cleanup_loop : Multierror → ℕ → Err → CleanStack S → S → Option (Err × CleanStack S × S)
  cleanup_loop M zero errs c s = if c.count == 0 then some (errs, c, s) else none
  cleanup_loop M (suc fuel) errs c s = elim (c.count == 0) [
    | true ↦ some (errs, c, s)
    | false ↦
        let (popped_job, c') = pop c in
        elim popped_job [
          | job run ↦ cleanup_loop M fuel (add M errs (run s).0) c' (run s).1
          | _ ↦ none
        ]
  ]

  -- `Cleanup`: the error given and those of the jobs, joined; nil if there is none.
  unfoldable pub cleanup : Multierror → Err → CleanStack S → S → Option (Err × CleanStack S × S)
  unfolding pop add cleanup_loop
  cleanup M err c s = cleanup_loop M c.count (add M none err) c s
