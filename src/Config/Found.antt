-- ===== src/Config/Found.antt =====
-- What `NewElementalPartitionsFromList` finds among the partitions that `GetAllPartitions` returns.
use mathlib.Core.Option.{or_else}
use elemental_cli.Base.{
  any, ◌≡◌, ◌↔◌, ◌<◌, refl, suc, String, Bool, true, ◌||◌, Option, none, some, List, [], ◌∷◌, arith,
  ◌==◌, nat_eq, string_eq,
}
use elemental_cli.Golang.{Go}
use elemental_cli.InstallState.{InstallState}
use elemental_cli.Partitions.{
  Partition, Pointer, Heap, PartitionList, ElementalPartitions, store, label_of,
  get_by_name_or_label, new_elemental_partitions_from_list,
}
use elemental_cli.Partitions.Lookup.{
  is_some, best, get_by_name_or_label-any, get_by_name_or_label-best,
}
use elemental_cli.Machine.{Call, Outside, World, Result, ok, ask}
use elemental_cli.Config.Host.{pointers, allocate, host_partitions}

-- The partition of a listing that has the name, or else the label.
abbrev pub find_on : Heap → Pointer → List Partition → String → String → Option Pointer
find_on h fresh parts name label =
    get_by_name_or_label (allocate fresh parts h) (pointers fresh parts) name label

-- A partition that is listed has the name or the label.
abbrev pub is_listed : String → String → List Partition → Bool
is_listed name label parts =
    any (λ (p : Partition). p.name == name) parts
    || any (λ (p : Partition). p.filesystem_label == label) parts

allocate_below :
    (fresh : Pointer) (parts : List Partition) (h : Heap) (q : Pointer)
    → q < fresh
    → allocate fresh parts h q ≡ h q
unfolding allocate store
allocate_below fresh [] h q l = refl
allocate_below fresh (p ∷ ps) h q l =
    ground (arith, allocate_below (suc fresh) ps (store fresh p h) q (omega arith))

allocate_at :
    (fresh : Pointer) (p : Partition) (ps : List Partition) (h : Heap)
    → allocate fresh (p ∷ ps) h fresh ≡ p
unfolding allocate store
allocate_at fresh p ps h =
    ground (arith, allocate_below (suc fresh) ps (store fresh p h) fresh (omega arith))

any-pointers :
    (test : Partition → Bool) (fresh : Pointer) (parts : List Partition) (h : Heap)
    → any (λ p. test (allocate fresh parts h p)) (pointers fresh parts) ≡ any test parts
unfolding allocate pointers
any-pointers test fresh [] h = refl
any-pointers test fresh (p ∷ ps) h =
    rw (allocate_at fresh p ps h, any-pointers test (suc fresh) ps (store fresh p h)) refl

-- A partition is found exactly if one with the name or the label is listed.
pub find_on-is_listed :
    (h : Heap) (fresh : Pointer) (parts : List Partition) (name label : String)
    → is_some (find_on h fresh parts name label) ≡ is_listed name label parts
find_on-is_listed h fresh parts name label =
    rw
      (
        get_by_name_or_label-any (allocate fresh parts h) (pointers fresh parts) name label,
        any-pointers (λ (p : Partition). p.name == name) fresh parts h,
        any-pointers (λ (p : Partition). p.filesystem_label == label) fresh parts h,
      )
      refl

-- The partitions that the host lists.
abbrev pub listed : Outside → World → List Partition
listed O w = (ask O Call.all_partitions w).0.partitions

pub is_some_iff : (o : Option Pointer) → ((p : Pointer) × (o ≡ some p)) ↔ (is_some o ≡ true)
is_some_iff none = (λ (p, e). absurd (ground arith), λ e. absurd (ground arith))
is_some_iff (some p) = (λ x. refl, λ e. (p, refl))

module _ (L : Go) (O : Outside) (unmarshal : String → Result InstallState) where
  pub host_partitions_lem :
      (fresh : Pointer) (st : Option InstallState) (w : World) {ep : ElementalPartitions}
      → (host_partitions L O unmarshal fresh st w).0 ≡ ok ep
      → ep
        ≡ new_elemental_partitions_from_list
            (allocate fresh (listed O w) w.heap)
            (pointers fresh (listed O w))
            st
  unfolding host_partitions ask
  host_partitions_lem fresh st w e = ground arith

-- The partitions that a reset and an upgrade look for are those that are found by the name, or else
-- by the label, which the install state may set.
abbrev pub AreFound :
    (String → String → Option Pointer) → Option InstallState → ElementalPartitions → Type 0
AreFound find st ep =
    (ep.efi ≡ find "efi" (label_of st "efi" "COS_GRUB"))
    × (ep.oem ≡ find "oem" (label_of st "oem" "COS_OEM"))
    × (ep.recovery ≡ find "recovery" (label_of st "recovery" "COS_RECOVERY"))
    × (ep.state ≡ find "state" (label_of st "state" "COS_STATE"))
    × (ep.persistent ≡ find "persistent" (label_of st "persistent" "COS_PERSISTENT"))

-- What `find` finds is the best partition of the name and else the best of the label.
abbrev pub best_of : Heap → PartitionList → String → String → Option Pointer
best_of h pl name label =
    or_else (best h (λ p. (h p).name == name) pl) (best h (λ p. (h p).filesystem_label == label) pl)

pub from_list-AreFound :
    (h : Heap) (pl : PartitionList) (st : Option InstallState)
    → AreFound (best_of h pl) st (new_elemental_partitions_from_list h pl st)
unfolding new_elemental_partitions_from_list
from_list-AreFound h pl st = (
  get_by_name_or_label-best h pl "efi" (label_of st "efi" "COS_GRUB"),
  get_by_name_or_label-best h pl "oem" (label_of st "oem" "COS_OEM"),
  get_by_name_or_label-best h pl "recovery" (label_of st "recovery" "COS_RECOVERY"),
  get_by_name_or_label-best h pl "state" (label_of st "state" "COS_STATE"),
  get_by_name_or_label-best h pl "persistent" (label_of st "persistent" "COS_PERSISTENT"),
)
