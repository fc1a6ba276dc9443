-- ===== src/Config/Ready.antt =====
-- `NewUpgradeSpec` of pkg/config/config.go: the partitions of the specification, and its `Sanitize`.
use mathlib.Core.Path.{subst}
use elemental_cli.Base.{
  ◌≡◌, ◌↔◌, refl, sym, ap, ◌∙◌, Bool, true, false, Option, none, some, arith, nat_eq, string_eq,
  String, if◌then◌else◌,
}
use elemental_cli.Constants
use elemental_cli.Golang.{Go}
use elemental_cli.ImageSource.{ImageSource, is_empty}
use elemental_cli.InstallState.{InstallState}
use elemental_cli.Partitions.{
  Pointer, Heap, PartitionList, ElementalPartitions, label_of, get_by_name_or_label,
  new_elemental_partitions_from_list,
}
use elemental_cli.Partitions.Lookup.{is_some}
use elemental_cli.Machine.{Outside, World, Result, ok}
use elemental_cli.Spec.{UpgradeSpec, returned, sanitize_upgrade, is_undefined}
use elemental_cli.Spec.Upgrade.{IsReady, sanitize_upgrade_iff}
use elemental_cli.Config.Found.{
  find_on, is_listed, listed, is_some_iff, find_on-is_listed, host_partitions_lem,
}
use elemental_cli.Config.Mounts.{
  IsMounted, default_mount-KeepsMounts, default_mount-HasMount, if_found-KeepsMounts,
  if_found-IsMounted, IsMounted-KeepsMounts, bind-After, Ensures,
}
use elemental_cli.Config.Host.{
  allocate, pointers, default_mount, if_found, upgrade_spec_from, install_state_or_nil,
  upgrade_with, host_partitions, new_upgrade_spec,
}

module _ (L : Go) (O : Outside) (unmarshal : String → Result InstallState)
    (st : Option InstallState) (ep : ElementalPartitions) (h : Heap) where
  -- The heap that `NewUpgradeSpec` leaves.
  abbrev upgrade_heap : Heap
  upgrade_heap = (upgrade_spec_from L O unmarshal st ep h).1

  upgrade_spec_from-IsMounted :
      IsMounted upgrade_heap ep.recovery
      × IsMounted upgrade_heap ep.state
      × IsMounted upgrade_heap ep.persistent
  unfolding upgrade_spec_from string_eq
  upgrade_spec_from-IsMounted =
      let h1 = if_found (default_mount Constants.recovery_dir) ep.recovery h in
      let h2 = if_found (default_mount Constants.state_dir) ep.state h1 in
      let k2 =
        if_found-KeepsMounts (default_mount Constants.state_dir) ep.state h1
          (default_mount-KeepsMounts Constants.state_dir) in
      let k3 =
        if_found-KeepsMounts (default_mount Constants.persistent_dir) ep.persistent h2
          (default_mount-KeepsMounts Constants.persistent_dir) in
      (
        IsMounted-KeepsMounts h2 upgrade_heap ep.recovery k3 (
            IsMounted-KeepsMounts h1 h2 ep.recovery k2 (
              if_found-IsMounted (default_mount Constants.recovery_dir) ep.recovery h
                (λ p k. default_mount-HasMount Constants.recovery_dir p k refl))),
        IsMounted-KeepsMounts h2 upgrade_heap ep.state k3 (
            if_found-IsMounted (default_mount Constants.state_dir) ep.state h1
              (λ p k. default_mount-HasMount Constants.state_dir p k refl)),
        if_found-IsMounted (default_mount Constants.persistent_dir) ep.persistent h2
            (λ p k. default_mount-HasMount Constants.persistent_dir p k refl),
      )

-- The specification of an upgrade with a source, for the system or for the recovery system.
abbrev pub with_upgrade_source : Bool → ImageSource → UpgradeSpec → UpgradeSpec
with_upgrade_source recovery src u =
    if recovery
    then record u { recovery_upgrade = true; recovery = record u.recovery { source = some src } }
    else record u { recovery_upgrade = false; active = record u.active { source = some src } }

abbrev pub upgraded : Bool → UpgradeSpec → Option Pointer
upgraded recovery u = if recovery then u.partitions.recovery else u.partitions.state

-- The name and the label of the partition that is upgraded.
abbrev pub upgraded_name : Bool → String
upgraded_name recovery = if recovery then "recovery" else "state"

abbrev pub upgraded_label : Option InstallState → Bool → String
upgraded_label st recovery =
    if recovery
    then label_of st "recovery" Constants.recovery_label
    else label_of st "state" Constants.state_label

upgraded_found :
    (recovery : Bool) (h : Heap) (pl : PartitionList) (st : Option InstallState)
    {ep : ElementalPartitions}
    → ep ≡ new_elemental_partitions_from_list h pl st
    → (if recovery then ep.recovery else ep.state)
      ≡ get_by_name_or_label h pl (upgraded_name recovery) (upgraded_label st recovery)
unfolding new_elemental_partitions_from_list
upgraded_found true h pl st e = ap (λ (x : ElementalPartitions). x.recovery) e
upgraded_found false h pl st e = ap (λ (x : ElementalPartitions). x.state) e

choose-IsMounted :
    (h : Heap) (b : Bool) (o o' : Option Pointer)
    → IsMounted h o
    → IsMounted h o'
    → IsMounted h (if b then o else o')
choose-IsMounted h true o o' m m' = m
choose-IsMounted h false o o' m m' = m'

IsReady-iff :
    (h : Heap) (o : Option Pointer) (src : ImageSource)
    → IsMounted h o
    → is_empty src ≡ false
    → IsReady h o (some src) ↔ ((p : Pointer) × (o ≡ some p))
unfolding is_undefined
IsReady-iff h none src m given = (λ (s, d, e, n). absurd (ground arith), λ (p, e). cc)
IsReady-iff h (some p) src m given = (λ r. (p, refl), λ r. (src, m, refl, given))

with_upgrade_source_iff :
    (recovery : Bool) (src : ImageSource) (u : UpgradeSpec) (h : Heap)
    → IsMounted h (upgraded recovery u)
    → is_empty src ≡ false
    → ((u' : UpgradeSpec) × (sanitize_upgrade (with_upgrade_source recovery src u) h
          ≡ returned none u'))
      ↔ ((p : Pointer) × (upgraded recovery u ≡ some p))
with_upgrade_source_iff true src u h m given =
    let (a, b) = sanitize_upgrade_iff (with_upgrade_source true src u) h in
    let (c, d) = IsReady-iff h u.partitions.recovery src m given in (λ x. c (a x), λ x. b (d x))
with_upgrade_source_iff false src u h m given =
    let (a, b) = sanitize_upgrade_iff (with_upgrade_source false src u) h in
    let (c, d) = IsReady-iff h u.partitions.state src m given in (λ x. c (a x), λ x. b (d x))

-- The partitions to recover, to upgrade and to keep have mount points.
abbrev UpgradeMounted : UpgradeSpec → Heap → Type 0
UpgradeMounted u h =
    IsMounted h u.partitions.recovery
    × IsMounted h u.partitions.state
    × IsMounted h u.partitions.persistent

module _ (L : Go) (O : Outside) (unmarshal : String → Result InstallState) where
  new_upgrade_spec-UpgradeMounted :
      (fresh : Pointer) (w : World) {u : UpgradeSpec} {w' : World}
      → new_upgrade_spec L O unmarshal fresh w ≡ (ok u, w')
      → UpgradeMounted u w'.heap
  unfolding new_upgrade_spec upgrade_with upgrade_spec_from
  new_upgrade_spec-UpgradeMounted fresh w e =
      let (st, w1) = install_state_or_nil L O unmarshal w in
      let (ep, found, rest) =
        bind-After (host_partitions L O unmarshal fresh st) (upgrade_with L O unmarshal st) w1 e in
      let w2 = (host_partitions L O unmarshal fresh st w1).1 in
      subst (Ensures UpgradeMounted) rest (upgrade_spec_from-IsMounted L O unmarshal st ep w2.heap)

  new_upgrade_spec-upgraded :
      (fresh : Pointer) (w : World) (recovery : Bool) {u : UpgradeSpec} {w' : World}
      → new_upgrade_spec L O unmarshal fresh w ≡ (ok u, w')
      → let (st, w1) = install_state_or_nil L O unmarshal w in
        upgraded recovery u
        ≡ find_on w1.heap fresh (listed O w1) (upgraded_name recovery) (upgraded_label st recovery)
  unfolding new_upgrade_spec upgrade_with upgrade_spec_from
  new_upgrade_spec-upgraded fresh w recovery e =
      let (st, w1) = install_state_or_nil L O unmarshal w in
      let (ep, found, rest) =
        bind-After (host_partitions L O unmarshal fresh st) (upgrade_with L O unmarshal st) w1 e in
      let same = subst (Ensures (λ (u : UpgradeSpec) h. u.partitions ≡ ep)) rest refl in
      let given = same ∙ host_partitions_lem L O unmarshal fresh st w1 found in
      upgraded_found recovery (allocate fresh (listed O w1) w1.heap) (pointers fresh (listed O w1))
        st given

  -- If `NewUpgradeSpec` returns a specification, and the system or the recovery system then gets a
  -- source that is not empty, `Sanitize` accepts the specification exactly if the partitions that
  -- the host lists have one with the name of the partition that is upgraded, or with its label: the
  -- recovery partition if the recovery system is upgraded, else the state partition. The label is
  -- that of the install state, if it can be loaded and has the partition, else the default one.
  pub new_upgrade_spec-sanitize_iff :
      (fresh : Pointer) (w : World) (recovery : Bool) (src : ImageSource) {u : UpgradeSpec}
      {w' : World}
      → is_empty src ≡ false
      → new_upgrade_spec L O unmarshal fresh w ≡ (ok u, w')
      → let (st, w1) = install_state_or_nil L O unmarshal w in
        ((u' : UpgradeSpec) × (sanitize_upgrade (with_upgrade_source recovery src u) w'.heap
            ≡ returned none u'))
        ↔ (is_listed (upgraded_name recovery) (upgraded_label st recovery) (listed O w1) ≡ true)
  new_upgrade_spec-sanitize_iff fresh w recovery src {u} {w'} given e =
      let (st, w1) = install_state_or_nil L O unmarshal w in
      let (r, s, _) = new_upgrade_spec-UpgradeMounted fresh w e in
      let (to, from) =
        with_upgrade_source_iff recovery src u w'.heap (choose-IsMounted w'.heap recovery _ _ r s)
          given in
      let (there, back) = is_some_iff (upgraded recovery u) in
      let same =
        ap is_some (new_upgrade_spec-upgraded fresh w recovery e)
        ∙ find_on-is_listed w1.heap fresh (listed O w1) (upgraded_name recovery)
            (upgraded_label st recovery) in
      (λ x. sym same ∙ there (to x), λ x. from (back (same ∙ x)))
