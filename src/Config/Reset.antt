-- ===== src/Config/Reset.antt =====
-- `NewResetSpec` of pkg/config/config.go: the partitions of the specification.
use mathlib.Core.Path.{subst}
use elemental_cli.Base.{
  ◌≡◌, refl, sym, ap, Bool, true, false, Option, none, some, arith, ◌==◌, nat_eq, string_eq, String,
  if◌then◌else◌,
}
use elemental_cli.Constants
use elemental_cli.Errors.{Error}
use elemental_cli.Golang.{Go}
use elemental_cli.ImageSource.{ImageSource}
use elemental_cli.InstallState.{InstallState}
use elemental_cli.Partitions.{Pointer, Heap, ElementalPartitions}
use elemental_cli.Devices.{exists, booted_from}
use elemental_cli.Spec.{ResetSpec}
use elemental_cli.Config.{cos_file}
use elemental_cli.Machine.{Outside, ask, World, Result, ok, fail, ◌>>=◌}
use elemental_cli.Config.Mounts.{
  HasMount, IsMounted, KeepsMounts, KeepsMounts-trans, default_mount-KeepsMounts,
  default_mount-HasMount, rename-KeepsMounts, if_found-KeepsMounts, if_found-IsMounted,
  IsMounted-KeepsMounts, bind-After, Ensures,
}
use elemental_cli.Config.Found.{AreFound, best_of, listed, host_partitions_lem, from_list-AreFound}
use elemental_cli.Config.Host.{
  allocate, pointers, default_mount, set_up, modify, require, if_found, reset_efi, set_up_optional,
  reset_recovery, reset_state, reset_partitions, reset_with, reset_among, reset_on_host,
  new_reset_spec, reset_source, reset_spec_of, install_state_or_nil, host_partitions,
}

set_up-KeepsMounts :
    (name dir : String) (p : Pointer) (h : Heap) → KeepsMounts h (set_up name dir p h)
unfolding set_up
set_up-KeepsMounts name dir p h =
    KeepsMounts-trans h (default_mount dir p h) _ (default_mount-KeepsMounts dir p h)
      (rename-KeepsMounts name p (default_mount dir p h))

set_up-HasMount :
    (name dir : String) (p : Pointer) (h : Heap)
    → (dir == "") ≡ false
    → HasMount (set_up name dir p h) p
unfolding set_up KeepsMounts
set_up-HasMount name dir p h d =
    rename-KeepsMounts name p (default_mount dir p h) p (default_mount-HasMount dir p h d)

require_lem :
    (text : String) (o : Option Pointer) (w : World) {p : Pointer}
    → (require text o w).0 ≡ ok p
    → (o ≡ some p) × ((require text o w).1 ≡ w)
unfolding require
require_lem text none w e = absurd (ground arith)
require_lem text (some q) w e = (ground arith, refl)

set_up_optional_lem :
    (ep : ElementalPartitions) (h : Heap)
    → KeepsMounts h (set_up_optional ep h)
      × IsMounted (set_up_optional ep h) ep.oem
      × IsMounted (set_up_optional ep h) ep.persistent
unfolding set_up_optional string_eq
set_up_optional_lem ep h =
    let oem = set_up Constants.oem_part_name Constants.oem_dir in
    let persistent = set_up Constants.persistent_part_name Constants.persistent_dir in
    let h1 = if_found oem ep.oem h in
    let k1 = if_found-KeepsMounts oem ep.oem h (set_up-KeepsMounts _ Constants.oem_dir) in
    let k2 =
      if_found-KeepsMounts persistent ep.persistent h1
        (set_up-KeepsMounts _ Constants.persistent_dir) in
    (
      KeepsMounts-trans h h1 _ k1 k2,
      IsMounted-KeepsMounts h1 _ ep.oem k2
          (if_found-IsMounted oem ep.oem h (λ p k. set_up-HasMount _ Constants.oem_dir p k refl)),
      if_found-IsMounted persistent ep.persistent h1
          (λ p k. set_up-HasMount _ Constants.persistent_dir p k refl),
    )

-- The EFI partition of a host with EFI is there.
abbrev pub HasEfi : Bool → Option Pointer → Heap → Type 0
HasEfi false o h = Unit
HasEfi true o h = (p : Pointer) × (o ≡ some p) × HasMount h p

HasEfi-KeepsMounts :
    (efi : Bool) (o : Option Pointer) (h h' : Heap)
    → KeepsMounts h h'
    → HasEfi efi o h
    → HasEfi efi o h'
unfolding KeepsMounts
HasEfi-KeepsMounts false o h h' k m = tt
HasEfi-KeepsMounts true o h h' k (p, e, m) = (p, e, k p m)

reset_efi_lem :
    (efi : Bool) (o : Option Pointer) (w : World)
    → Ensures (λ _ h. HasEfi efi o h) (reset_efi efi o w)
unfolding reset_efi require modify string_eq
reset_efi_lem false o w = tt
reset_efi_lem true none w = tt
reset_efi_lem true (some p) w =
    (p, refl, set_up-HasMount Constants.efi_part_name Constants.efi_dir p w.heap refl)

-- The partitions that a reset has, once `NewResetSpec` has the state partition.
abbrev pub ResetMounted : Bool → ElementalPartitions → Pointer → Heap → Type 0
ResetMounted efi ep state h =
    HasEfi efi ep.efi h
    × (ep.state ≡ some state)
    × HasMount h state
    × ((recovery : Pointer) × (ep.recovery ≡ some recovery) × HasMount h recovery)
    × IsMounted h ep.oem
    × IsMounted h ep.persistent

reset_recovery_lem :
    (efi : Bool) (ep : ElementalPartitions) (state recovery : Pointer) (w : World)
    → HasEfi efi ep.efi w.heap
    → ep.state ≡ some state
    → HasMount w.heap state
    → ep.recovery ≡ some recovery
    → Ensures (ResetMounted efi ep) (reset_recovery ep state recovery w)
unfolding reset_recovery modify KeepsMounts string_eq
reset_recovery_lem efi ep state recovery w has_efi s m r =
    let h1 = default_mount Constants.recovery_dir recovery w.heap in
    let k1 = default_mount-KeepsMounts Constants.recovery_dir recovery w.heap in
    let (k2, oem, persistent) = set_up_optional_lem ep h1 in
    let k = KeepsMounts-trans w.heap h1 (set_up_optional ep h1) k1 k2 in
    (
      HasEfi-KeepsMounts efi ep.efi w.heap (set_up_optional ep h1) k has_efi,
      s,
      k state m,
      (
        recovery,
        r,
        k2 recovery (default_mount-HasMount Constants.recovery_dir recovery w.heap refl),
      ),
      oem,
      persistent,
    )

reset_state_lem :
    (efi : Bool) (ep : ElementalPartitions) (state : Pointer) (w : World) {x : Pointer} {w' : World}
    → HasEfi efi ep.efi w.heap
    → ep.state ≡ some state
    → reset_state ep state w ≡ (ok x, w')
    → ResetMounted efi ep x w'.heap
unfolding reset_state modify KeepsMounts string_eq
reset_state_lem efi ep state w has_efi s e =
    let set = set_up Constants.state_part_name Constants.state_dir in
    let w1 : World = record w { heap = set state w.heap } in
    let text : String = "recovery partition not found" in
    let (recovery, found, rest) =
      bind-After (require text ep.recovery) (reset_recovery ep state) w1 e in
    let (r, same) = require_lem text ep.recovery w1 found in
    let k = set_up-KeepsMounts Constants.state_part_name Constants.state_dir state w.heap in
    subst (Ensures (ResetMounted efi ep)) (rw same at rest) (
      reset_recovery_lem efi ep state recovery w1
        (HasEfi-KeepsMounts efi ep.efi w.heap w1.heap k has_efi) s
        (set_up-HasMount Constants.state_part_name Constants.state_dir state w.heap refl) r)

reset_partitions-ResetMounted :
    (efi : Bool) (ep : ElementalPartitions) (w : World) {state : Pointer} {w' : World}
    → reset_partitions efi ep w ≡ (ok state, w')
    → ResetMounted efi ep state w'.heap
unfolding reset_partitions
reset_partitions-ResetMounted efi ep w e =
    let text : String = "state partition not found" in
    let next = require text ep.state >>= reset_state ep in
    let (a, found_efi, e1) = bind-After (reset_efi efi ep.efi) (λ _. next) w e in
    let w1 = (reset_efi efi ep.efi w).1 in
    let has_efi : HasEfi efi ep.efi w1.heap =
      subst (λ r. Ensures (λ _ h. HasEfi efi ep.efi h) (r, w1)) found_efi
        (reset_efi_lem efi ep.efi w) in
    let (state, found, e2) = bind-After (require text ep.state) (reset_state ep) w1 e1 in
    let (s, same) = require_lem text ep.state w1 found in
    reset_state_lem efi ep state w1 has_efi s (rw same at e2)

-- A value is returned in the first branch only.
if_ok :
    {A : Type 0} (b : Bool) (x : Result A × World) (e : Error) (w : World) {a : A} {w' : World}
    → (if b then x else (fail e, w)) ≡ (ok a, w')
    → x ≡ (ok a, w')
if_ok true x e w p = p
if_ok false x e w p = absurd (ground arith)

pair_eq : {A : Type 0} {r : Result A × World} {a : A} → r.0 ≡ ok a → r ≡ (ok a, r.1)
pair_eq {r = r} p = ap (λ x. (x, r.1)) p

-- What the specification of a reset derives from the state partition.
abbrev pub IsForState : Go → ResetSpec → Pointer → Heap → Type 0
IsForState L r state h =
    (r.target ≡ (h state).disk)
    × (r.active.file ≡ cos_file L (h state).mount_point Constants.active_img_file)
    × ((src : ImageSource) × (r.passive.source ≡ some src) × (src.source ≡ r.active.file))

-- A specification of a reset, with the heap, for a host with or without EFI and its partitions.
abbrev pub IsForHost : Go → Bool → ElementalPartitions → ResetSpec → Heap → Type 0
IsForHost L efi ep r h =
    (r.efi ≡ efi)
    × (r.partitions ≡ ep)
    × ((state : Pointer) × ResetMounted efi ep state h × IsForState L r state h)

module _ (L : Go) (O : Outside) (unmarshal : String → Result InstallState) where
  reset_with_lem :
      (efi : Bool) (st : Option InstallState) (ep : ElementalPartitions) (state : Pointer)
      (w : World)
      → ResetMounted efi ep state w.heap
      → Ensures (IsForHost L efi ep) (reset_with L O unmarshal efi st ep state w)
  unfolding reset_with reset_spec_of reset_source exists ask
  reset_with_lem efi st ep state w m = (refl, refl, (state, m, (refl, refl, (_, refl, refl))))

  -- What `NewResetSpec` asks the host: whether it has EFI, and the install state. The last
  -- component is the state of the machine when it lists the partitions.
  abbrev pub asked : World → Bool × Option InstallState × World
  asked w =
      let (_, w1) = booted_from O L Constants.recovery_img_file w in
      let (efi, w2) = exists O Constants.efi_device w1 in
      let (st, w3) = install_state_or_nil L O unmarshal w2 in (efi, st, w3)

  -- If `NewResetSpec` returns a specification, this says that there is EFI exactly if the host has
  -- it. Its EFI, OEM, recovery, state and persistent partitions are those that the host lists: the
  -- first mounted one of that name and else the last, and if none has the name, the first mounted one
  -- of the label and else the last; the label is that of the install state, or the default one. There
  -- are the state and the recovery partition, and with EFI the EFI partition; these, and the OEM and
  -- the persistent partition if they are found, have a mount point. The target is the disk of the state
  -- partition, the active image is a file on that partition, and the passive image is a copy of it.
  pub new_reset_spec-IsForHost :
      (fresh : Pointer) (w : World) {r : ResetSpec} {w' : World}
      → new_reset_spec L O unmarshal fresh w ≡ (ok r, w')
      → let (efi, st, w1) = asked w in
        let find = best_of (allocate fresh (listed O w1) w1.heap) (pointers fresh (listed O w1)) in
        (ep : ElementalPartitions) × AreFound find st ep × IsForHost L efi ep r w'.heap
  unfolding new_reset_spec reset_on_host reset_among
  new_reset_spec-IsForHost fresh w e =
      let (_, w1) = booted_from O L Constants.recovery_img_file w in
      let (efi, st, w3) = asked w in
      let e1 = if_ok (booted_from O L Constants.recovery_img_file w).0 _ _ w1 e in
      let (ep, listing, e2) =
        bind-After (host_partitions L O unmarshal fresh st) (reset_among L O unmarshal efi st) w3
          e1 in
      let w4 = (host_partitions L O unmarshal fresh st w3).1 in
      let (state, found, e3) =
        bind-After (reset_partitions efi ep) (reset_with L O unmarshal efi st ep) w4 e2 in
      let w5 = (reset_partitions efi ep w4).1 in
      let m = reset_partitions-ResetMounted efi ep w4 (pair_eq found) in
      let h = allocate fresh (listed O w3) w3.heap in
      let pl = pointers fresh (listed O w3) in
      (
        ep,
        subst (AreFound (best_of h pl) st)
            (sym (host_partitions_lem L O unmarshal fresh st w3 listing))
            (from_list-AreFound h pl st),
        subst (Ensures (IsForHost L efi ep)) e3 (reset_with_lem efi st ep state w5 m),
      )
