-- ===== src/CleanStack/Cleanup.antt =====
-- `Cleanup` runs every job of the stack once, from the top down, and joins their errors.
use elemental_cli.Base.{
  ℕ, zero, suc, ◌≡◌, refl, Option, none, some, List, [], ◌∷◌, ◌++◌, arith, true, ◌==◌, nat_eq,
}
use elemental_cli.Errors.{GoError, Error, single, multi, Err, errors, Multierror, exit_status}
use elemental_cli.CleanStack.{CleanJob, CleanStack, job, pop, add, cleanup_loop, cleanup}
use elemental_cli.CleanStack.Stack.{IsValid, stack, stack_zero, pop_job}
use mathlib.Core.List.{append_assoc, append-nil}

-- The jobs run one after the other, whatever they return: what they return, and the last state.
abbrev pub run_all {ℓ} : {S : Type ℓ} → List (CleanJob S) → S → List Err × S
run_all [] s = ([], s)
run_all (j ∷ js) s = let (e, t) = j s in let (es, u) = run_all js t in (e ∷ es, u)

-- nil if all the errors are nil, and else a multierror of all that they hold, in this order.
abbrev pub join : List Err → Err
join [] = none
join (none ∷ es) = join es
join (some e ∷ es) = some (multi (errors (some e) ++ errors (join es)))

module _ (M : Multierror) where
  -- What `Cleanup` has joined so far is nil or a multierror.
  abbrev IsJoined : Err → Type 0
  IsJoined none = Unit
  IsJoined (some (single _)) = ⊥
  IsJoined (some (multi _)) = Unit

  abbrev pub join_onto : Err → List Err → Err
  join_onto errs [] = errs
  join_onto errs (e ∷ es) = join_onto (add M errs e) es

  -- `Append` one by one, onto what is there, joins them all.
  join_onto-multi :
      (gs : List GoError) (es : List Err)
      → join_onto (some (multi gs)) es ≡ some (multi (gs ++ errors (join es)))
  unfolding add
  join_onto-multi gs [] = rw append-nil
  join_onto-multi gs (none ∷ es) = join_onto-multi gs es
  join_onto-multi gs (some e ∷ es) =
      rw (M.append_lem, join_onto-multi (gs ++ errors (some e)) es, append_assoc)

  pub join_onto-nil : (es : List Err) → join_onto none es ≡ join es
  unfolding add
  join_onto-nil [] = refl
  join_onto-nil (none ∷ es) = join_onto-nil es
  join_onto-nil (some e ∷ es) = rw M.append_lem (join_onto-multi (errors (some e)) es)

module _ {ℓ} {S : Type ℓ} (M : Multierror) where
  abbrev Done : CleanStack S → Err → S → Option (Err × CleanStack S × S) → Type ℓ
  Done c errs s r =
      (c' : CleanStack S) × (r
        ≡ some (join_onto M errs (run_all (stack c) s).0, c', (run_all (stack c) s).1))
      × (c'.count ≡ 0)

  step :
      (n : ℕ) (errs : Err) (c : CleanStack S) (s : S) (j : CleanJob S)
      → c.count ≡ suc n
      → pop c ≡ (job j, record c { count = n })
      → cleanup_loop M (suc n) errs c s
        ≡ cleanup_loop M n (add M errs (j s).0) (record c { count = n }) (j s).1
  unfolding cleanup_loop
  step n errs c s j e p = ground arith

  cleanup_loop-Done :
      (n : ℕ) (errs : Err) (c : CleanStack S) (s : S)
      → c.count ≡ n
      → IsValid c
      → Done c errs s (cleanup_loop M n errs c s)
  cleanup_loop-Done zero errs c s e v =
      let done : (c.count == 0) ≡ true = ground arith in
      (c, rw (stack_zero c e) (unfold cleanup_loop in rw (done, cleanup_loop)), e)
  cleanup_loop-Done (suc n) errs c s e v =
      let (j, p, t) = pop_job n c e v in
      rw (step n errs c s j e p, t)
        (cleanup_loop-Done n (add M errs (j s).0) (record c { count = n }) (j s).1 refl
          (omega arith))

  -- `Cleanup` of a valid stack returns: it has run every job once, from the top of the stack down,
  -- also after one has failed, and the stack is empty and valid. Its error is nil if the error given and those
  -- of all the jobs are nil, and else a multierror that holds them in this order.
  pub cleanup_lem :
      (err : Err) (c : CleanStack S) (s : S)
      → IsValid c
      → let (es, t) = run_all (stack c) s in
        (c' : CleanStack S) × (cleanup M err c s ≡ some (join (err ∷ es), c', t))
        × (stack c' ≡ [])
        × IsValid c'
  unfolding cleanup add
  cleanup_lem err c s v =
      let (c', e, z) = cleanup_loop-Done c.count (add M none err) c s refl v in
      (
        c',
        rw (← join_onto-nil M (err ∷ (run_all (stack c) s).0)) e,
        stack_zero c' z,
        omega (arith, z),
      )

  -- An action that has failed with any error, also one with an exit code of its own, ends the process
  -- with status 1 after `Cleanup` of a valid stack.
  pub cleanup-exit_status :
      (err : Error) (c : CleanStack S) (s : S)
      → IsValid c
      → (r : Err) × (c' : CleanStack S) × (t : S) × (cleanup M (some err) c s ≡ some (r, c', t))
        × (exit_status r ≡ 1)
  unfolding exit_status
  cleanup-exit_status err c s v =
      let (c', e, _, _) = cleanup_lem (some err) c s v in (_, c', _, e, refl)
