-- ===== src/Action/Jobs.antt =====
-- The clean-up jobs of a run of pkg/action, whatever step ends it.
use elemental_cli.Base.{
  ℕ, ◌≡◌, ◌≢◌, refl, ◌∙◌, ap, sym, Option, none, some, List, [], ◌∷◌, ◌++◌, arith, string_eq,
  Option-cases, inl, inr,
}
use mathlib.Core.List.{append_assoc}
use elemental_cli.Errors.{Err, Error, Multierror, new_from_error}
use elemental_cli.CleanStack.{CleanStack, new_clean_stack, push}
use elemental_cli.CleanStack.Stack.{IsValid, stack, stack-push}
use elemental_cli.CleanStack.Cleanup.{run_all, join, cleanup_lem}
use elemental_cli.Machine.{World, Proc, M, Result, ok, fail, panicked}
use elemental_cli.Action.{
  Script, End, ended, continue, cleaned, done, ◌and_then◌, push_job, plain_step, step, clean_step,
  as_m, finish, run_action, coded,
}

-- A valid stack with some jobs on top of it.
abbrev pub Over : CleanStack World → CleanStack World → Type 0
Over c c' = IsValid c' × ((above : List Proc) × (stack c' ≡ above ++ stack c))

pub Over-refl : (c : CleanStack World) → IsValid c → Over c c
Over-refl c v = (v, ([], refl))

Over-trans : (a b c : CleanStack World) → Over a b → Over b c → Over a c
Over-trans a b c (_, (xs, e)) (v, (ys, f)) =
    (v, (ys ++ xs, f ∙ ap (λ s. ys ++ s) e ∙ sym (append_assoc ys xs (stack a))))

-- A script leaves a valid stack valid, with all the jobs that were on it.
pub record KeepsJobs {A : Type 0} (s : Script A) : Type 0 where
  pub keeps : (c : CleanStack World) (w : World) → IsValid c → Over c (s c w).1

pub plain_step-KeepsJobs : {A : Type 0} (m : M A) → KeepsJobs (plain_step m)
unfolding plain_step
plain_step-KeepsJobs m = record { keeps = λ c w v. Over-refl c v }

pub step-KeepsJobs : {A : Type 0} (E : Multierror) (code : ℕ) (m : M A) → KeepsJobs (step E code m)
unfolding step
step-KeepsJobs E code m = plain_step-KeepsJobs (coded E code m)

pub done-KeepsJobs : {A : Type 0} (a : A) → KeepsJobs (done a)
unfolding done
done-KeepsJobs a = record { keeps = λ c w v. Over-refl c v }

pub push_job-KeepsJobs : (job : Proc) → KeepsJobs (push_job job)
unfolding push_job
push_job-KeepsJobs job = record {
  keeps = λ c w v. let (v', e) = stack-push job c v in (v', (job ∷ [], e));
}

pub continue-Over :
    {A B : Type 0} (f : A → Script B) (base : CleanStack World)
    (r : Result A × CleanStack World × World)
    → ((a : A) → KeepsJobs (f a))
    → Over base r.1
    → Over base (continue f r).1
continue-Over f base (ok a, c, w) l o = Over-trans base c _ o ((l a).keeps c w o.0)
continue-Over f base (fail e, c, w) l o = o
continue-Over f base (panicked, c, w) l o = o

pub and_then-KeepsJobs :
    {A B : Type 0} (s : Script A) (f : A → Script B)
    → KeepsJobs s
    → ((a : A) → KeepsJobs (f a))
    → KeepsJobs (s and_then f)
unfolding ◌and_then◌
and_then-KeepsJobs s f k l = record { keeps = λ c w v. continue-Over f c (s c w) l (k.keeps c w v) }

-- The error with which a script has ended.
abbrev pub error_in : {A : Type 0} → Result A → Err
error_in (ok _) = none
error_in (fail e) = some e
error_in panicked = none

-- A step that has returned a value, or no error.
pub step-ok :
    {A : Type 0} (E : Multierror) (code : ℕ) (m : M A) (c : CleanStack World) (w : World) {a : A}
    {w' : World}
    → m w ≡ (ok a, w')
    → step E code m c w ≡ (ok a, c, w')
unfolding step plain_step coded
step-ok E code m c w e = rw e refl

pub step-none :
    (E : Multierror) (code : ℕ) (p : Proc) (c : CleanStack World) (w : World) {w' : World}
    → p w ≡ (none, w')
    → step E code (as_m p) c w ≡ (ok tt, c, w')
step-none E code p c w e = step-ok E code (as_m p) c w (rw e refl)

-- A job is pending, over those of an earlier stack.
abbrev pub IsPending : Proc → CleanStack World → CleanStack World → Type 0
IsPending job c c' = (above : List Proc) × (stack c' ≡ above ++ (job ∷ stack c))

pub push-IsPending :
    (job : Proc) (c c' : CleanStack World) → IsValid c → Over (push job c) c' → IsPending job c c'
push-IsPending job c c' v (_, (above, e)) = (above, e ∙ ap (λ s. above ++ s) (stack-push job c v).1)

-- The error of a run, given that with which its script has ended and those of the jobs.
abbrev pub run_error : {A : Type 0} → Result A → List Err → Option Err
run_error (ok _) es = some (join es)
run_error (fail e) es = some (join (some e ∷ es))
run_error panicked es = none

-- The deferred `Cleanup` runs all the jobs, from the top down, and empties the stack.
pub finish_lem :
    (E : Multierror) (x : Result (Unit {0})) (c : CleanStack World) (w : World)
    → IsValid c
    → let (es, v) = run_all (stack c) w in
      (c' : CleanStack World) × (finish E (x, c, w) ≡ (run_error x es, c', v)) × (stack c' ≡ [])
unfolding finish ended
finish_lem E (ok a) c w v =
    let (c', e, z, _) = cleanup_lem E none c w v in (c', ap (ended c w) e, z)
finish_lem E (fail x) c w v =
    let (c', e, z, _) = cleanup_lem E (some x) c w v in (c', ap (ended c w) e, z)
finish_lem E panicked c w v =
    let (c', e, z, _) = cleanup_lem E none c w v in
    (c', ap (λ r. let (_, c'', w'') = ended c w r in (none, c'', w'')) e, z)

-- How a run ends whose script has done its work, then cleans up, and then does something else: it runs
-- all the jobs that are pending after the work, the last one first. If the work has failed or panicked,
-- or a job fails, nothing else is done.
abbrev pub ending :
    Multierror
    → ℕ
    → M (Unit {0})
    → Result (Unit {0}) × CleanStack World × World
    → Option Err × World
ending E code after (x, c, w) =
    let (es, v) = run_all (stack c) w in
    elim x [
      | fail e ↦ (some (join (some e ∷ es)), v)
      | panicked ↦ (none, v)
      | ok _ ↦ elim (join es) [
        | some y ↦ (some (join (new_from_error E (some y) code ∷ [])), v)
        | none ↦ let (r, v') = after v in (run_error r [], v')
      ]
    ]

abbrev pub outcome : End → Option Err × World
outcome (e, c, w) = (e, w)

outcome-finish :
    (E : Multierror) (x : Result (Unit {0})) (c : CleanStack World) (w : World)
    → IsValid c
    → outcome (finish E (x, c, w)) ≡ (run_error x (run_all (stack c) w).0, (run_all (stack c) w).1)
outcome-finish E x c w v = let (c', e, _) = finish_lem E x c w v in ap outcome e

finish-empty :
    (E : Multierror) (x : Result (Unit {0})) (c : CleanStack World) (w : World)
    → IsValid c
    → stack c ≡ []
    → outcome (finish E (x, c, w)) ≡ (run_error x [], w)
finish-empty E x c w v z =
    outcome-finish E x c w v
    ∙ ap (λ (js : List Proc). (run_error x (run_all js w).0, (run_all js w).1)) z

-- A script that pushes nothing.
pub record IsPlain (s : Script (Unit {0})) (m : M (Unit {0})) : Type 0 where
  pub plain : (c : CleanStack World) (w : World) → s c w ≡ ((m w).0, c, (m w).1)

pub plain_step-IsPlain : (m : M (Unit {0})) → IsPlain (plain_step m) m
unfolding plain_step
plain_step-IsPlain m = record { plain = λ c w. refl }

run_rest :
    (E : Multierror) (code : ℕ) (rest : Script (Unit {0})) (after : M (Unit {0}))
    (x : Result (Unit {0})) (c : CleanStack World) (w : World)
    → IsPlain rest after
    → IsValid c
    → outcome (finish E (continue (λ _. clean_step E code and_then λ _. rest) (x, c, w)))
      ≡ ending E code after (x, c, w)
unfolding clean_step cleaned ◌and_then◌ new_from_error
run_rest E code rest after (fail e) c w p v = outcome-finish E (fail e) c w v
run_rest E code rest after panicked c w p v = outcome-finish E panicked c w v
run_rest E code rest after (ok _) c w p v =
    let (c', e, z, v') = cleanup_lem E none c w v in
    let (es, u) = run_all (stack c) w in
    elim (Option-cases (join es)) [
      | inl fine ↦
          let r = e ∙ ap (λ x. some (x, c', u)) fine in
          rw (r, fine, ending, p.plain c' u) (finish-empty E (after u).0 c' (after u).1 v' z)
      | inr (y, failed) ↦
          let r = e ∙ ap (λ x. some (x, c', u)) failed in
          rw (r, failed, ending) (finish-empty E _ c' u v' z)
    ]

pub run_action-ending :
    (E : Multierror) (code : ℕ) (work rest : Script (Unit {0})) (after : M (Unit {0})) (w : World)
    → KeepsJobs work
    → IsPlain rest after
    → outcome (run_action E (work and_then λ _. clean_step E code and_then λ _. rest) w)
      ≡ ending E code after (work new_clean_stack w)
unfolding run_action ◌and_then◌
run_action-ending E code work rest after w k p =
    let (x, c, w') = work new_clean_stack w in
    run_rest E code rest after x c w' p ((k.keeps new_clean_stack w (omega arith)).0)

-- If a job fails, the step that cleans up ends the script with an error, and nothing is called after
-- the jobs: what was to follow does not run.
pub clean_step-stops :
    {A : Type 0} (E : Multierror) (code : ℕ) (next : Script A) (c : CleanStack World) (w : World)
    {e : Error}
    → IsValid c
    → join (run_all (stack c) w).0 ≡ some e
    → let (r, c', w') = (clean_step E code and_then λ _. next) c w in
      (w' ≡ (run_all (stack c) w).1) × (error_in r ≢ none) × (stack c' ≡ [])
unfolding clean_step cleaned ◌and_then◌
clean_step-stops E code next c w v failed =
    let (c', e, z, _) = cleanup_lem E none c w v in
    let r = e ∙ ap (λ x. some (x, c', (run_all (stack c) w).1)) failed in rw r (refl, λ p. cc, z)

pub after_step :
    {A B : Type 0} (E : Multierror) (code : ℕ) (m : M A) (f : A → Script B)
    → ((a : A) → KeepsJobs (f a))
    → KeepsJobs (step E code m and_then f)
after_step E code m f = and_then-KeepsJobs _ f (step-KeepsJobs E code m)

pub after_plain :
    {A B : Type 0} (m : M A) (f : A → Script B)
    → ((a : A) → KeepsJobs (f a))
    → KeepsJobs (plain_step m and_then f)
after_plain m f = and_then-KeepsJobs _ f (plain_step-KeepsJobs m)

pub after_push :
    {B : Type 0} (job : Proc) (f : Unit {0} → Script B)
    → ((a : Unit {0}) → KeepsJobs (f a))
    → KeepsJobs (push_job job and_then f)
after_push job f = and_then-KeepsJobs _ f (push_job-KeepsJobs job)
