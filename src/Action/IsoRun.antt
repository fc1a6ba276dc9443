-- ===== src/Action/IsoRun.antt =====
-- The clean-up jobs of `ISORun` of pkg/action/build-iso.go and their errors.
use mathlib.Core.Path.{subst}
use elemental_cli.Base.{
  ◌≡◌, refl, ap, sym, String, Option, none, some, List, arith, Bool-cases, inl, inr, ◌==◌,
  string_eq,
}
use elemental_cli.Constants
use elemental_cli.Errors.{Err, Multierror}
use elemental_cli.Golang.{Go}
use elemental_cli.CleanStack.{CleanStack, new_clean_stack, push}
use elemental_cli.CleanStack.Stack.{IsValid, stack, stack-push}
use elemental_cli.CleanStack.Cleanup.{run_all}
use elemental_cli.Machine.{Outside, World, Result, ok, fail, panicked}
use elemental_cli.Files.{FileInfo}
use elemental_cli.Live.{LiveIso, LiveBootloader}
use elemental_cli.Elemental.Images.{remove_path}
use elemental_cli.Action.{End, continue, ◌and_then◌, push_job}
use elemental_cli.Action.Jobs.{
  Over, KeepsJobs, plain_step-KeepsJobs, done-KeepsJobs, and_then-KeepsJobs, after_step,
  after_plain, after_push, continue-Over, IsPending, push-IsPending, step-ok, finish_lem, outcome,
}
use elemental_cli.Action.BuildIso.{
  BuildConfig, dropped, iso_finish, temp_iso_dir, sub_dirs_script, dirs_script, efi_script,
  trees_script, burn_script, after_dirs, iso_script, iso_run,
}

-- The error of a script alone, or `none` if it has panicked.
abbrev pub own_error : {A : Type 0} → Result A → Option Err
own_error (ok _) = some none
own_error (fail e) = some (some e)
own_error panicked = none

iso_finish_lem :
    (E : Multierror) (x : Result (Unit {0})) (c : CleanStack World) (w : World)
    → IsValid c
    → outcome (iso_finish E (x, c, w)) ≡ (own_error x, (run_all (stack c) w).1)
unfolding iso_finish dropped
iso_finish_lem E (ok a) c w v =
    let (c', e, _) = finish_lem E (ok a) c w v in ap (λ (r : End). (dropped (ok a) r.0, r.2)) e
iso_finish_lem E (fail y) c w v =
    let (c', e, _) = finish_lem E (fail y) c w v in ap (λ (r : End). (dropped (fail y) r.0, r.2)) e
iso_finish_lem E panicked c w v =
    let (c', e, _) = finish_lem E panicked c w v in ap (λ (r : End). (dropped panicked r.0, r.2)) e

module _ (E : Multierror) (L : Go) (O : Outside) (entries : String → List FileInfo)
    (cfg : BuildConfig) where
  sub_dirs_script-KeepsJobs : (tmp : String) → KeepsJobs (sub_dirs_script E L O entries cfg tmp)
  unfolding sub_dirs_script
  sub_dirs_script-KeepsJobs tmp =
      after_step E _ _ _ λ _.
        after_step E _ _ _ λ _. after_step E _ _ _ λ _. after_step E _ _ _ λ _. done-KeepsJobs _

  dirs_script-KeepsJobs : KeepsJobs (dirs_script E L O entries cfg)
  unfolding dirs_script
  dirs_script-KeepsJobs =
      after_step E _ _ _ λ tmp. after_push _ _ λ _. sub_dirs_script-KeepsJobs tmp

  -- The script, once the temporary directory is there.
  dirs_script-made :
      (w : World) {tmp : String} {w1 : World}
      → temp_iso_dir E L O entries cfg w ≡ (ok tmp, w1)
      → dirs_script E L O entries cfg new_clean_stack w
        ≡ sub_dirs_script E L O entries cfg tmp (push (remove_path L O tmp) new_clean_stack) w1
  unfolding dirs_script push_job ◌and_then◌
  dirs_script-made w made =
      rw (step-ok E 17 (temp_iso_dir E L O entries cfg) new_clean_stack w made) refl

  module _ (live : LiveBootloader) (spec : LiveIso) where
    efi_script-KeepsJobs :
        (root uefi : String) → KeepsJobs (efi_script E L O entries cfg live spec root uefi)
    unfolding efi_script
    efi_script-KeepsJobs root uefi = after_step E _ _ _ λ _. plain_step-KeepsJobs _

    trees_script-KeepsJobs :
        (root uefi : String) → KeepsJobs (trees_script E L O entries cfg live spec root uefi)
    unfolding trees_script
    trees_script-KeepsJobs root uefi = after_plain _ _ λ _. after_step E _ _ _ λ _.
        elim (Bool-cases (spec.firmware == Constants.efi)) [
          | inl efi ↦ rw efi (efi_script-KeepsJobs root uefi)
          | inr bios ↦ rw bios (done-KeepsJobs tt)
        ]

    burn_script-KeepsJobs :
        (tmp root uefi iso : String)
        → KeepsJobs (burn_script E L O entries cfg live spec tmp root uefi iso)
    unfolding burn_script
    burn_script-KeepsJobs tmp root uefi iso =
        after_step E _ _ _
          λ _. after_plain _ _ λ _. after_plain _ _ λ _. after_plain _ _ λ _. plain_step-KeepsJobs _

    after_dirs-KeepsJobs : (tmp : String) → KeepsJobs (after_dirs E L O entries cfg live spec tmp)
    unfolding after_dirs
    after_dirs-KeepsJobs tmp =
        and_then-KeepsJobs _ _ (trees_script-KeepsJobs _ _) λ _. burn_script-KeepsJobs tmp _ _ _

    iso_script-KeepsJobs : KeepsJobs (iso_script E L O entries cfg live spec)
    unfolding iso_script
    iso_script-KeepsJobs = and_then-KeepsJobs _ _ dirs_script-KeepsJobs after_dirs-KeepsJobs

    -- If the build of an ISO has made its temporary directory, the job that removes it is pending when
    -- its work ends, also if the work ends with an error or a panic. The run then runs all the jobs that
    -- are pending, the last one first, each once. Its error is that of the work alone: the errors of the
    -- jobs are lost. A panic goes on after the jobs.
    pub iso_run-DropsErrors :
        (w : World) {tmp : String} {w1 : World}
        → temp_iso_dir E L O entries cfg w ≡ (ok tmp, w1)
        → let (x, c, w') = iso_script E L O entries cfg live spec new_clean_stack w in
          (outcome (iso_run E L O entries cfg live spec w)
            ≡ (own_error x, (run_all (stack c) w').1))
          × IsPending (remove_path L O tmp) new_clean_stack c
    unfolding iso_run iso_script ◌and_then◌
    iso_run-DropsErrors w {tmp} {w1} made =
        let job = remove_path L O tmp in
        let after = after_dirs E L O entries cfg live spec in
        let empty : IsValid {S = World} new_clean_stack = omega arith in
        let base = push job new_clean_stack in
        let (x, c, w') = iso_script E L O entries cfg live spec new_clean_stack w in
        let over =
          continue-Over after base (sub_dirs_script E L O entries cfg tmp base w1)
            after_dirs-KeepsJobs
            ((sub_dirs_script-KeepsJobs tmp).keeps base w1
              (stack-push job new_clean_stack empty).0) in
        (
          iso_finish_lem E x c w' ((iso_script-KeepsJobs.keeps new_clean_stack w empty).0),
          push-IsPending job new_clean_stack _ empty
              (subst (λ t. Over base (continue after t).1) (sym (dirs_script-made w made)) over),
        )
