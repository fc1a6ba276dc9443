-- ===== src/RunStage/Jobs.antt =====
-- `RunStage` of pkg/utils/runstage.go as a list of jobs.
use elemental_cli.Base.{
  any, arith, ◌≡◌, refl, ap, ◌∙◌, String, Bool, true, false, not, none, some, List, [], ◌∷◌, ◌++◌,
  map, if◌then◌else◌, Bool-cases, inl, inr,
}
use elemental_cli.Errors.{GoError, Err, Multierror, single, multi}
use elemental_cli.Golang.{Go}
use elemental_cli.CleanStack.{add}
use elemental_cli.CleanStack.Cleanup.{run_all, join, join_onto, join_onto-nil}
use elemental_cli.Machine.{Call, Outside, World, Proc, ask}
use elemental_cli.Devices.{exists}
use elemental_cli.RunStage.{
  Uris, is_local_uri, all_type_errors, only_yaml_partial_errors, check_yaml_error,
  filter_non_existing_local_uris, setup_paths, run_yip, run_paths, run_cmdline, set_modifier,
  run_if_any, stages_of, run_stage,
}

module _ (U : Uris) (L : Go) (O : Outside) where
  -- What counts of the error of a run on the kernel's arguments: a multierror that holds something
  -- else than an error of YAML types.
  abbrev pub absorbed : Err → Err
  absorbed none = none
  absorbed (some (single e)) = none
  absorbed (some (multi es)) =
      if any (λ e. not (U.is_type_error e)) es then some (multi es) else none

  -- Which of the paths are to be run, in order: one that is not local, and a local one if it exists.
  abbrev pub are_there : List String → World → List Bool × World
  are_there [] w = ([], w)
  are_there (uri ∷ uris) w =
      let (there, w1) = if is_local_uri U uri then exists O uri w else (true, w) in
      let (rest, w2) = are_there uris w1 in (there ∷ rest, w2)

  abbrev pub keep : List Bool → List String → List String
  keep (true ∷ bs) (x ∷ xs) = x ∷ keep bs xs
  keep (false ∷ bs) (x ∷ xs) = keep bs xs
  keep [] xs = []
  keep (b ∷ bs) [] = []

  -- A stage on the paths that are there, and on the arguments of the kernel.
  abbrev pub path_job : List String → String → Proc
  path_job paths stage w =
      let (there, w') = are_there paths w in run_yip U L O stage (keep there paths) w'

  -- The same, with the filter of the code.
  abbrev filtered_job : List String → String → Proc
  filtered_job paths stage w =
      let (uris, w') = filter_non_existing_local_uris U L O paths w in run_yip U L O stage uris w'

  filter-keep :
      (paths : List String) (w : World)
      → filter_non_existing_local_uris U L O paths w
        ≡ (keep (are_there paths w).0 paths, (are_there paths w).1)
  unfolding filter_non_existing_local_uris
  filter-keep [] w = refl
  filter-keep (uri ∷ uris) w =
      ground (arith, filter-keep uris (exists O uri w).1, filter-keep uris w)

  filtered_job_lem : filtered_job ≡ path_job
  filtered_job_lem i paths stage w =
      let (uris, w') = filter-keep paths w i in run_yip U L O stage uris w'

  abbrev pub cmdline_job : String → String → Proc
  cmdline_job cmdline stage w =
      let (e, w') = run_yip U L O stage (cmdline ∷ []) w in (absorbed e, w')

  abbrev pub modifier_job : String → Proc
  modifier_job modifier w = (none, set_modifier U L O modifier w)

  abbrev pub Job : Type 0
  Job = List String → String → Proc

  abbrev pub path_jobs : Job → List String → String → List Proc
  path_jobs job [] stage = []
  path_jobs job (p ∷ ps) stage = map (job (p ∷ ps)) (stages_of U L O stage)

  abbrev pub stage_jobs : Job → List String → String → String → List Proc
  stage_jobs job paths cmdline stage =
      path_jobs job paths stage
      ++ (modifier_job "DotNotationModifier"
          ∷ (map (cmdline_job cmdline) (stages_of U L O stage) ++ (modifier_job "nil" ∷ [])))

  module _ (E : Multierror) where
    all_type_errors-any :
        (es : List GoError) → all_type_errors U es ≡ not (any (λ e. not (U.is_type_error e)) es)
    unfolding all_type_errors
    all_type_errors-any [] = refl
    all_type_errors-any (e ∷ es) = ground (arith, all_type_errors-any es)

    check_yaml_error_lem : (errs e : Err) → check_yaml_error U E errs e ≡ add E errs (absorbed e)
    unfolding check_yaml_error only_yaml_partial_errors add
    check_yaml_error_lem errs none = refl
    check_yaml_error_lem errs (some (single e)) = refl
    check_yaml_error_lem errs (some (multi es)) =
        elim (Bool-cases (any (λ e. not (U.is_type_error e)) es)) [
          | inl full ↦ rw (all_type_errors-any es, full) refl
          | inr partial ↦ rw (all_type_errors-any es, partial) refl
        ]

    -- The loops append to the errors what the jobs return.
    loops-run_all :
        (paths : List String) (cmdline stage : String) (e : Err) (w : World)
        → let stages = stages_of U L O stage in
          let (errs, w1) = run_if_any U L O E paths stages (add E none e) w in
          let (errs', w2) =
            run_cmdline U L O E cmdline stages errs (set_modifier U L O "DotNotationModifier" w1) in
          let (es, w3) = run_all (stage_jobs filtered_job paths cmdline stage) w in
          (errs' ≡ join_onto E none (e ∷ es)) × (set_modifier U L O "nil" w2 ≡ w3)
    unfolding run_if_any run_cmdline run_paths add
    loops-run_all [] cmdline stage e w =
        (rw (check_yaml_error_lem, check_yaml_error_lem, check_yaml_error_lem) refl, refl)
    loops-run_all (p ∷ ps) cmdline stage e w =
        (rw (check_yaml_error_lem, check_yaml_error_lem, check_yaml_error_lem) refl, refl)

    -- `RunStage` on a stage reads the arguments of the kernel, and then runs in order: the stage
    -- before, the stage and the stage after on the paths that it was given and those that the
    -- arguments name, if there are any, each time without the local paths that do not exist then;
    -- and the same three on the arguments themselves, between two changes of the modifier. It runs
    -- all of them, whichever fail. In strict mode its error joins that of the reading, those of the
    -- first three, and those of the last three that are multierrors which hold something else than
    -- an error of YAML types: it drops any error of the last three that is no multierror. It is nil
    -- if there is none to join, and in any other mode.
    pub run_stage_lem :
        (stage : String) (strict : Bool) (paths : List String) (w : World)
        → let (r, w1) = ask O (Call.fs "ReadFile" ("/proc/cmdline" ∷ [])) w in
          let all_paths = paths ++ setup_paths U L O (L.split r.out " ") in
          let (es, w2) = run_all (stage_jobs path_job all_paths r.out stage) w1 in
          run_stage U L O E stage strict paths w ≡ (if strict then join (r.err ∷ es) else none, w2)
    unfolding run_stage
    run_stage_lem stage strict paths w =
        let (r, w1) = ask O (Call.fs "ReadFile" ("/proc/cmdline" ∷ [])) w in
        let all_paths = paths ++ setup_paths U L O (L.split r.out " ") in
        let (errs, last) = loops-run_all all_paths r.out stage r.err w1 in
        let result : Job → Err × World = λ job.
          let (es, w2) = run_all (stage_jobs job all_paths r.out stage) w1 in
          (if strict then join (r.err ∷ es) else none, w2) in
        let es = (run_all (stage_jobs filtered_job all_paths r.out stage) w1).0 in
        let joined = errs ∙ join_onto-nil E (r.err ∷ es) in
        (λ i. (if strict then joined i else none, last i)) ∙ ap result filtered_job_lem
