-- ===== src/Chroot/Mounts.antt =====
-- The mounts of a chroot environment are gone when it is left, however it is left.
use mathlib.Core.List.{reverse-append}
use elemental_cli.Base.{
  ◌≡◌, refl, ◌∙◌, String, none, some, List, [], ◌∷◌, ◌++◌, reverse, arith, ◌==◌, string_eq,
  if◌then◌else◌, Option-cases, inl, inr,
}
use elemental_cli.Errors.{Err}
use elemental_cli.Machine.{Call, Outside, World, Proc, ask, perform, ◌then◌}
use elemental_cli.Chroot.{
  Chroot, Bind, binds, mkdir_all, bind_mount, mount_all, unmount_all, close, mounted, prepare,
  restore, entered, in_chroot, prepared, with_mounts, with_root, run_callback,
}

-- A list without the first entry of a mount point.
abbrev pub remove : String → List String → List String
remove m [] = []
remove m (x ∷ xs) = if x == m then xs else x ∷ remove m xs

module _ (O : Outside) where
  -- The mount points that are mounted after some calls, the latest first: a mount that succeeds adds
  -- its mount point, and an unmount that succeeds takes it away.
  unfoldable pub live : List Call → List String
  live [] = []
  live (Call.mount s t f o ∷ cs) = elim (O cs (Call.mount s t f o)).err [
    | none ↦ t ∷ live cs
    | some _ ↦ live cs
  ]
  live (Call.unmount t ∷ cs) = elim (O cs (Call.unmount t)).err [
    | none ↦ remove t (live cs)
    | some _ ↦ live cs
  ]
  live (c ∷ cs) = live cs

  mkdir_all-live : (name : String) (w : World) → live (mkdir_all O name w).1.calls ≡ live w.calls
  unfolding mkdir_all live
  mkdir_all-live name w = ground arith

  -- The active mounts are the latest of those that are mounted.
  abbrev Active : List String → List String → World → Type 0
  Active base active w = live w.calls ≡ reverse active ++ base

  bind-Active :
      (b : Bind) (base active : List String) (w : World)
      → Active base active w
      → let (e, w') = bind_mount O b w in
        Active base (elim e [ none ↦ active ++ (b.target ∷ []) | some _ ↦ active ]) w'
  unfolding bind_mount live
  bind-Active b base active w a =
      ground (arith, mkdir_all-live b.target w, reverse-append active (b.target ∷ []))

  mount_all-Active :
      (bs : List Bind) (base active : List String) (w : World)
      → Active base active w
      → let (_, active', w') = mount_all O bs active w in Active base active' w'
  unfolding mount_all
  mount_all-Active [] base active w a = a
  mount_all-Active (b ∷ bs) base active w a =
      let w' = (bind_mount O b w).1 in
      let next = mount_all-Active bs base (active ++ (b.target ∷ [])) w' in
      elim (Option-cases (bind_mount O b w).0) [
        | inl nil ↦ rw (nil, mount_all) (next (rw nil at (bind-Active b base active w a)))
        | inr (x, e) ↦ rw (e, mount_all) (rw e at (bind-Active b base active w a))
      ]

  -- No unmount fails.
  abbrev pub UnmountsSucceed : Type 0
  UnmountsSucceed = (cs : List Call) (m : String) → (O cs (Call.unmount m)).err ≡ none

  module _ (unmounts : UnmountsSucceed) where
    unmount-live :
        (m : String) (rest : List String) (w : World)
        → live w.calls ≡ m ∷ rest
        → live (perform O (Call.unmount m) w).1.calls ≡ rest
    unfolding live perform
    unmount-live m rest w a = ground (arith, unmounts w.calls m)

    unmount_all-live :
        (ms base : List String) (w : World)
        → live w.calls ≡ ms ++ base
        → let (failures, w') = unmount_all O ms w in (failures ≡ []) × (live w'.calls ≡ base)
    unfolding unmount_all
    unmount_all-live [] base w a = (refl, a)
    unmount_all-live (m ∷ ms) base w a = ground (
      arith,
      unmounts w.calls m,
      unmount_all-live ms base (perform O (Call.unmount m) w).1 (unmount-live m (ms ++ base) w a),
    )

    close-live :
        (c : Chroot) (base : List String) (w : World)
        → Active base c.active_mounts w
        → let (e, c', w') = close O c w in
          (e ≡ none) × (c'.active_mounts ≡ []) × (live w'.calls ≡ base)
    unfolding close
    close-live c base w a = ground (arith, unmount_all-live (reverse c.active_mounts) base w a)

    -- What `Prepare` leaves mounted: its active mounts if it returns nil, and else nothing.
    abbrev Prepared : List String → Err × Chroot × World → Type 0
    Prepared base (none, c, w) = Active base c.active_mounts w
    Prepared base (some _, c, w) = (live w.calls ≡ base) × (c.active_mounts ≡ [])

    mounted-Prepared :
        (c : Chroot) (base : List String) (r : Err × List String × World)
        → Active base r.1 r.2
        → Prepared base (mounted O c r)
    unfolding mounted
    mounted-Prepared c base (none, active, w) a = a
    mounted-Prepared c base (some x, active, w) a =
        let (_, empty, gone) = close-live (record c { active_mounts = active }) base w a in
        (gone, empty)

    prepare-nil :
        (c : Chroot) (w : World)
        → c.active_mounts ≡ []
        → prepare O c w ≡ mounted O c (mount_all O (binds c) [] w)
    unfolding prepare
    prepare-nil c w e = simp (e, prepare)

    prepare-Prepared :
        (c : Chroot) (w : World) → c.active_mounts ≡ [] → Prepared (live w.calls) (prepare O c w)
    prepare-Prepared c w e = rw (prepare-nil c w e) (
        mounted-Prepared c (live w.calls) (mount_all O (binds c) [] w)
          (mount_all-Active (binds c) (live w.calls) [] w refl))

    -- The callback leaves the mounts as they are.
    abbrev pub KeepsMounts : Proc → Type 0
    KeepsMounts p = (w : World) → live (p w).1.calls ≡ live w.calls

    restore-live : (e : Err) (w : World) → live (restore O e w).1.calls ≡ live w.calls
    unfolding restore live
    restore-live e w = ground arith

    entered-KeepsMounts :
        (callback : Proc) → KeepsMounts callback → KeepsMounts (entered O callback)
    unfolding entered
    entered-KeepsMounts callback k w = restore-live (callback w).0 (callback w).1 ∙ k w

    in_chroot-KeepsMounts :
        (path : String) (callback : Proc)
        → KeepsMounts callback
        → KeepsMounts (in_chroot O path callback)
    unfolding in_chroot live
    in_chroot-KeepsMounts path callback k w =
        let w' = (perform O (Call.sys "Chdir" (path ∷ [])) w).1 in
        let w'' = (perform O (Call.sys "Chroot" (path ∷ [])) w').1 in
        ground (arith, entered-KeepsMounts callback k w'')

    prepared-live :
        (callback : Proc) (base : List String) (r : Err × Chroot × World)
        → KeepsMounts callback
        → Prepared base r
        → let (_, c', w') = prepared O callback r in
          (live w'.calls ≡ base) × (c'.active_mounts ≡ [])
    unfolding prepared
    prepared-live callback base (some x, c, w) k p = p
    prepared-live callback base (none, c, w) k p =
        let w' = (in_chroot O c.path callback w).1 in
        let (_, empty, gone) =
          close-live c base w' (in_chroot-KeepsMounts c.path callback k w ∙ p) in
        (gone, empty)

    with_mounts-live :
        (c : Chroot) (callback : Proc) (w : World)
        → c.active_mounts ≡ []
        → KeepsMounts callback
        → let (_, c', w') = with_mounts O c callback w in
          (live w'.calls ≡ live w.calls) × (c'.active_mounts ≡ [])
    unfolding with_mounts
    with_mounts-live c callback w e k =
        rw (e, with_mounts)
          (prepared-live callback (live w.calls) (prepare O c w) k (prepare-Prepared c w e))

    with_root-live :
        (c : Chroot) (callback : Proc) (w : World)
        → c.active_mounts ≡ []
        → KeepsMounts callback
        → let (_, c', w') = with_root O c callback w in
          (live w'.calls ≡ live w.calls) × (c'.active_mounts ≡ [])
    unfolding with_root live
    with_root-live c callback w e k =
        let w' = (perform O (Call.fs "Open" ("/" ∷ [])) w).1 in
        ground (arith, with_mounts-live c callback w' e k)

    -- If no unmount fails and the callback keeps the mounts as they are, `RunCallback` on an
    -- environment without active mounts leaves exactly the mounts that were there before, and no
    -- active mount, whichever of its calls fail.
    pub run_callback-live :
        (c : Chroot) (callback : Proc) (w : World)
        → c.active_mounts ≡ []
        → KeepsMounts callback
        → let (_, c', w') = run_callback O c callback w in
          (live w'.calls ≡ live w.calls) × (c'.active_mounts ≡ [])
    unfolding run_callback live
    run_callback-live c callback w e k =
        let w' = (ask O (Call.sys "Getwd" []) w).1 in
        ground (arith, with_root-live c callback w' e k)
