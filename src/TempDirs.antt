-- ===== src/TempDirs.antt =====
-- `GetTempDir` and `CosignVerify` of pkg/utils/common.go.
use elemental_cli.Base.{
  String, ◌<>◌, Bool, true, false, none, some, List, [], ◌∷◌, ◌++◌, ◌==◌, string_eq, if◌then◌else◌,
  ◌≡◌, refl, Bool-cases, Option-cases, inl, inr,
}
use elemental_cli.Golang.{Go}
use elemental_cli.InstallState.{InstallState}
use elemental_cli.Machine.{Call, Outside, World, M, Result, ok, fail, ask, perform, with_heap}
use elemental_cli.Partitions.{Pointer, ElementalPartitions, new_elemental_partitions_from_list}
use elemental_cli.Devices.{is_mounted}
use elemental_cli.Config.Host.{pointers, allocate, install_state_or_nil}

module _ (O : Outside) where
  setenv : (name value : String) → World → World
  unfolding perform
  setenv name value w = (perform O (Call.sys "Setenv" (name ∷ value ∷ [])) w).1

  unsetenv : String → World → World
  unfolding perform
  unsetenv name w = (perform O (Call.sys "Unsetenv" (name ∷ [])) w).1

  cosign_args : (image public_key : String) → Bool → List String
  cosign_args image public_key debug =
      (if debug then "-d=true" ∷ [] else [])
      ++ ((if public_key == "" then [] else "-key" ∷ public_key ∷ []) ++ (image ∷ []))

  -- `CosignVerify` with its temporary directory, which it removes.
  verify_in : String → List String → M String
  unfolding setenv unsetenv perform ask
  verify_in dir args w =
      let (r, w') = ask O (Call.run "cosign" args) (setenv "TUF_ROOT" dir w) in
      let w'' = (perform O (Call.fs "RemoveAll" (dir ∷ [])) (unsetenv "TUF_ROOT" w')).1 in
      (elim r.err [ none ↦ ok r.out | some e ↦ fail e ], w'')

  verify_temporarily : List String → M String
  unfolding ask verify_in
  verify_temporarily args w =
      let (r, w') = ask O (Call.library "utils.TempDir" ("" ∷ "cosign-tuf-" ∷ [])) w in
      elim r.err [ some e ↦ (fail e, w') | none ↦ verify_in r.out args w' ]

  -- `CosignVerify`
  unfoldable pub cosign_verify : (image public_key : String) → Bool → M String
  unfolding verify_temporarily setenv unsetenv cosign_args
  cosign_verify image public_key debug w =
      let args = cosign_args image public_key debug in
      let keyless = verify_temporarily args (setenv "COSIGN_EXPERIMENTAL" "1" w) in
      let with_key = verify_temporarily args w in
      if public_key == "" then (keyless.0, unsetenv "COSIGN_EXPERIMENTAL" keyless.1) else with_key

-- Whether a variable of the environment is set after some calls.
abbrev is_set : String → List Call → Bool
is_set x [] = false
is_set x (Call.sys method (name ∷ _) ∷ cs) =
    let before = is_set x cs in
    if name == x
    then (if method == "Setenv" then true else if method == "Unsetenv" then false else before)
    else before
is_set x (_ ∷ cs) = is_set x cs

verify_temporarily-is_set :
    (O : Outside) (x : String) (args : List String) (w : World)
    → is_set x w.calls ≡ false
    → is_set x (verify_temporarily O args w).1.calls ≡ false
unfolding verify_temporarily verify_in setenv unsetenv perform ask string_eq
verify_temporarily-is_set O x args w h =
    elim (Option-cases (O w.calls (Call.library "utils.TempDir" ("" ∷ "cosign-tuf-" ∷ []))).err) [
      | inr (e, failed) ↦ rw failed h
      | inl made ↦ elim (Bool-cases ("TUF_ROOT" == x)) [
        | inl same ↦ rw (made, same) refl
        | inr other ↦ rw (made, other) h
      ]
    ]

-- Whichever call fails, `CosignVerify` leaves a variable of the environment unset that was not set
-- before.
cosign_verify-is_set :
    (O : Outside) (x image key : String) (debug : Bool) (w : World)
    → is_set x w.calls ≡ false
    → is_set x (cosign_verify O image key debug w).1.calls ≡ false
unfolding cosign_verify setenv unsetenv perform ask string_eq
cosign_verify-is_set O x image key debug w h = elim (Bool-cases (key == "")) [
  | inr given ↦ rw given (verify_temporarily-is_set O x (cosign_args O image key debug) w h)
  | inl keyless ↦ elim (Bool-cases ("COSIGN_EXPERIMENTAL" == x)) [
    | inl same ↦ rw (keyless, same) refl
    | inr other ↦
        rw (keyless, other)
          (verify_temporarily-is_set O x (cosign_args O image key debug)
            (setenv O "COSIGN_EXPERIMENTAL" "1" w) (rw other h))
  ]
]

module _ (L : Go) (O : Outside) (unmarshal : String → Result InstallState) where
  -- The directory on the persistent partition, if that is mounted, or else in /tmp.
  temp_dir_on : ElementalPartitions → String → World → String × World
  unfolding is_mounted
  temp_dir_on ep name w =
      let (mounted, _, w') = is_mounted O ep.persistent w in
      elim ep.persistent [
        | none ↦ (L.join ("/" ∷ "tmp" ∷ name ∷ []), w)
        | some p ↦
            if mounted
            then (L.join ((w'.heap p).mount_point ∷ "tmp" ∷ name ∷ []), w')
            else (L.join ("/" ∷ "tmp" ∷ name ∷ []), w')
      ]

  temp_dir_of : Pointer → String → World → String × World
  unfolding ask new_elemental_partitions_from_list install_state_or_nil temp_dir_on
  temp_dir_of fresh name w =
      let (r, w') = ask O Call.all_partitions w in
      let h = allocate fresh r.partitions w'.heap in
      let (st, w'') = install_state_or_nil L O unmarshal (with_heap h w') in
      elim r.err [
        | some _ ↦ (L.join ("/" ∷ "tmp" ∷ name ∷ []), w')
        | none ↦
            temp_dir_on (new_elemental_partitions_from_list h (pointers fresh r.partitions) st) name
              w''
      ]

  -- `GetTempDir`, given a random number as text. TMPDIR comes first.
  unfoldable pub get_temp_dir :
      (random : String) → Pointer → (suffix : String) → World → String × World
  unfolding ask temp_dir_of
  get_temp_dir random fresh suffix w =
      let name = "elemental-" <> (if suffix == "" then random else suffix) in
      let (r, w') = ask O (Call.sys "Getenv" ("TMPDIR" ∷ [])) w in
      if r.out == "" then temp_dir_of fresh name w' else (L.join (r.out ∷ name ∷ []), w')
