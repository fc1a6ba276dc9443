-- ===== src/RunStage.antt =====
-- pkg/utils/runstage.go: the cloud-init stages, and `IsLocalURI` of pkg/utils/common.go.
pub mod Jobs
use elemental_cli.Base.{
  String, ◌<>◌, Bool, true, false, not, ◌&&◌, Option, none, some, List, [], ◌∷◌, ◌++◌, ◌==◌,
  string_eq, if◌then◌else◌,
}
use elemental_cli.Errors.{GoError, Err, Error, single, multi, Multierror}
use elemental_cli.Golang.{Go}
use elemental_cli.CleanStack.{add}
use elemental_cli.Machine.{Call, Outside, World, Proc, ask, perform}
use elemental_cli.Devices.{exists}

-- What the code uses of libraries that are not of this repository.
pub record Uris : Type 0 where
  -- `url.Parse(uri)`: the `Scheme`, if there is no error
  pub scheme : String → Option String
  -- `reference.ParseNamed(uri)` returns no error
  pub is_named : String → Bool
  -- the type of the error, as `%T` prints it, is `*yaml.TypeError`
  pub is_type_error : GoError → Bool

module _ (U : Uris) where
  -- `local, _ := IsLocalURI(uri)`
  unfoldable pub is_local_uri : String → Bool
  is_local_uri uri = elim (U.scheme uri) [
    | none ↦ false
    | some s ↦ if s == "file" then true else if s == "" then not (U.is_named uri) else false
  ]

  unfoldable pub all_type_errors : List GoError → Bool
  all_type_errors [] = true
  all_type_errors (e ∷ es) = U.is_type_error e && all_type_errors es

  -- `onlyYAMLPartialErrors`
  unfoldable pub only_yaml_partial_errors : Error → Bool
  unfolding all_type_errors
  only_yaml_partial_errors (multi es) = all_type_errors es
  only_yaml_partial_errors (single e) = true

  -- `if err != nil { allErrors = checkYAMLError(cfg, allErrors, err) }`
  unfoldable pub check_yaml_error : Multierror → Err → Err → Err
  unfolding only_yaml_partial_errors add
  check_yaml_error E errs none = errs
  check_yaml_error E errs (some e) =
      if only_yaml_partial_errors e then errs else add E errs (some e)

  module _ (L : Go) (O : Outside) where
    -- `filterNonExistingLocalURIs`
    unfoldable pub filter_non_existing_local_uris : List String → World → List String × World
    unfolding is_local_uri exists
    filter_non_existing_local_uris [] w = ([], w)
    filter_non_existing_local_uris (uri ∷ uris) w = elim (is_local_uri uri) [
      | false ↦ let (rest, w') = filter_non_existing_local_uris uris w in (uri ∷ rest, w')
      | true ↦
          let (there, w1) = exists O uri w in
          let (rest, w2) = filter_non_existing_local_uris uris w1 in
          (if there then uri ∷ rest else rest, w2)
    ]

    -- The value of a stanza that is `cos.setup`.
    unfoldable pub setup_value : List String → List String
    setup_value [] = []
    setup_value (key ∷ []) = []
    setup_value (key ∷ value ∷ _) = if key == "cos.setup" then L.trim_space value ∷ [] else []

    -- The loop on the arguments of the kernel.
    unfoldable pub setup_paths : List String → List String
    unfolding setup_value
    setup_paths [] = []
    setup_paths (line ∷ lines) =
        (if L.contains_text line "=" then setup_value (L.split line "=") else [])
        ++ setup_paths lines

    unfoldable pub run_yip : (stage : String) (args : List String) → Proc
    unfolding perform
    run_yip stage args = perform O (Call.library "CloudInitRunner.Run" (stage ∷ args))

    -- The loop on the stages for the paths.
    unfoldable pub run_paths : Multierror → List String → List String → Err → World → Err × World
    unfolding filter_non_existing_local_uris run_yip add
    run_paths E paths [] errs w = (errs, w)
    run_paths E paths (s ∷ stages) errs w =
        let (uris, w1) = filter_non_existing_local_uris paths w in
        let (e, w2) = run_yip s uris w1 in run_paths E paths stages (add E errs e) w2

    -- The loop on the stages that the arguments of the kernel hold.
    unfoldable pub run_cmdline : Multierror → String → List String → Err → World → Err × World
    unfolding run_yip check_yaml_error
    run_cmdline E cmdline [] errs w = (errs, w)
    run_cmdline E cmdline (s ∷ stages) errs w =
        let (e, w') = run_yip s (cmdline ∷ []) w in
        run_cmdline E cmdline stages (check_yaml_error E errs e) w'

    -- `SetModifier`
    unfoldable pub set_modifier : String → World → World
    unfolding ask
    set_modifier modifier w =
        (ask O (Call.library "CloudInitRunner.SetModifier" (modifier ∷ [])) w).1

    unfoldable pub run_if_any : Multierror → List String → List String → Err → World → Err × World
    unfolding run_paths
    run_if_any E [] stages errs w = (errs, w)
    run_if_any E (p ∷ ps) stages errs w = run_paths E (p ∷ ps) stages errs w

    abbrev pub stages_of : String → List String
    stages_of stage = (stage <> ".before") ∷ stage ∷ (stage <> ".after") ∷ []

    -- `RunStage`
    unfoldable pub run_stage : Multierror → String → Bool → List String → Proc
    unfolding ask add setup_paths run_if_any set_modifier run_cmdline
    run_stage E stage strict paths w =
        let (r, w1) = ask O (Call.fs "ReadFile" ("/proc/cmdline" ∷ [])) w in
        let all_paths = paths ++ setup_paths (L.split r.out " ") in
        let (errs, w2) = run_if_any E all_paths (stages_of stage) (add E none r.err) w1 in
        let (errs', w3) =
          run_cmdline E r.out (stages_of stage) errs (set_modifier "DotNotationModifier" w2) in
        (if strict then errs' else none, set_modifier "nil" w3)
