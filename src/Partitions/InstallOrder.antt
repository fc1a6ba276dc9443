-- ===== src/Partitions/InstallOrder.antt =====
-- `PartitionsByInstallOrder` lists every partition once, and one of size 0 only at the end, where
-- it takes the space that is left.
use mathlib.Core.List.{Perm, append_assoc, append-nil}
use mathlib.Core.List.Perm
use elemental_cli.Base.{
  ℕ, ◌+◌, ◌≤◌, ◌≡◌, refl, ◌≢◌, Option, none, some, [], ◌∷◌, ◌++◌, arith, All, All-append, ◌==◌,
  nat_eq, if◌then◌else◌,
}
use elemental_cli.Partitions.{
  Pointer, Heap, PartitionList, ElementalPartitions, included, Order, add_persistent, add_extra,
  add_extras, with_last, partitions_by_install_order,
}

-- The partitions that are not nil and not excluded, in the order of the default layout.
abbrev pub listed : ElementalPartitions → PartitionList → PartitionList
listed ep excludes =
    included excludes ep.bios
    ++ (included excludes ep.efi
        ++ (included excludes ep.oem
            ++ (included excludes ep.recovery
                ++ (included excludes ep.state ++ included excludes ep.persistent))))

module _ (h : Heap) where
  -- How many partitions of a list have size 0.
  abbrev pub zero_sized : PartitionList → ℕ
  zero_sized [] = 0
  zero_sized (p ∷ pl) = (if (h p).size == 0 then 1 else 0) + zero_sized pl

  abbrev pub IsSized : Pointer → Type 0
  IsSized p = (h p).size ≢ 0

  -- Every partition but the last has a size.
  abbrev pub IsSizedButLast : PartitionList → Type 0
  IsSizedButLast [] = Unit
  IsSizedButLast (p ∷ []) = Unit
  IsSizedButLast (p ∷ q ∷ pl) = IsSized p × IsSizedButLast (q ∷ pl)

  IsSizedButLast-All : (pl : PartitionList) → All IsSized pl → IsSizedButLast pl
  IsSizedButLast-All [] a = tt
  IsSizedButLast-All (p ∷ []) a = tt
  IsSizedButLast-All (p ∷ q ∷ pl) a = (a.0, IsSizedButLast-All (q ∷ pl) a.1)

  IsSizedButLast-snoc :
      (pl : PartitionList) (q : Pointer) → All IsSized pl → IsSizedButLast (pl ++ (q ∷ []))
  IsSizedButLast-snoc [] q a = tt
  IsSizedButLast-snoc (p ∷ []) q a = (a.0, tt)
  IsSizedButLast-snoc (p ∷ r ∷ pl) q a = (a.0, IsSizedButLast-snoc (r ∷ pl) q a.1)

  add_extra-All : (p : Pointer) (o : Order) → All IsSized o.0 → All IsSized (add_extra h p o).0
  unfolding add_extra
  add_extra-All p (parts, none) a = ground (arith, All-append IsSized parts (p ∷ []) a)
  add_extra-All p (parts, some l) a = ground (arith, All-append IsSized parts (p ∷ []) a)

  add_extras-All :
      (pl : PartitionList) (o : Order) → All IsSized o.0 → All IsSized (add_extras h pl o).0
  unfolding add_extras
  add_extras-All [] o a = a
  add_extras-All (p ∷ pl) o a = add_extras-All pl (add_extra h p o) (add_extra-All p o a)

  with_last-IsSizedButLast : (o : Order) → All IsSized o.0 → IsSizedButLast (with_last o)
  unfolding with_last
  with_last-IsSizedButLast (parts, none) a = IsSizedButLast-All parts a
  with_last-IsSizedButLast (parts, some p) a = IsSizedButLast-snoc parts p a

  add_persistent-All :
      (pl : PartitionList) (o : Order) → All IsSized o.0 → All IsSized (add_persistent h pl o).0
  unfolding add_persistent
  add_persistent-All [] o a = a
  add_persistent-All (p ∷ _) (parts, last) a = ground (arith, All-append IsSized parts (p ∷ []) a)

  abbrev pub IsSizedOption : Option Pointer → Type 0
  IsSizedOption none = Unit
  IsSizedOption (some p) = IsSized p

  included-All :
      (excludes : PartitionList) (o : Option Pointer)
      → IsSizedOption o
      → All IsSized (included excludes o)
  unfolding included
  included-All excludes none a = tt
  included-All excludes (some p) a = ground arith

  -- Of the six system partitions only the persistent one may have size 0.
  pub record HasSizes (ep : ElementalPartitions) : Type 0 where
    pub bios : IsSizedOption ep.bios
    pub efi : IsSizedOption ep.efi
    pub oem : IsSizedOption ep.oem
    pub recovery : IsSizedOption ep.recovery
    pub state : IsSizedOption ep.state

  -- If only the persistent and the extra partitions may have size 0, every partition in the install
  -- order but the last has a size, whichever are excluded.
  pub install_order-IsSizedButLast :
      (ep : ElementalPartitions) (extra excludes : PartitionList)
      → HasSizes ep
      → IsSizedButLast (partitions_by_install_order h ep extra excludes)
  unfolding partitions_by_install_order
  install_order-IsSizedButLast ep extra excludes s =
      let add = included excludes in
      let at = λ (o : Option Pointer) (a : IsSizedOption o). included-All excludes o a in
      let parts = All-append IsSized (add ep.bios) _ (at ep.bios s.bios) (
        All-append IsSized (add ep.efi) _ (at ep.efi s.efi) (
          All-append IsSized (add ep.oem) _ (at ep.oem s.oem) (
            All-append IsSized (add ep.recovery) _ (at ep.recovery s.recovery)
              (at ep.state s.state)))) in
      with_last-IsSizedButLast _
        (add_extras-All extra _ (add_persistent-All (add ep.persistent) (_, none) parts))

  perm_snoc_swap :
      (parts : PartitionList) (l p : Pointer)
      → Perm ((parts ++ (p ∷ [])) ++ (l ∷ [])) ((parts ++ (l ∷ [])) ++ (p ∷ []))
  perm_snoc_swap [] l p = Perm.swap _ _ _
  perm_snoc_swap (q ∷ parts) l p = Perm.cons q (perm_snoc_swap parts l p)

  abbrev pending : Order → ℕ
  pending (_, none) = 0
  pending (_, some _) = 1

  add_extra-perm :
      (p : Pointer) (o : Order)
      → pending o + zero_sized (p ∷ []) ≤ 1
      → Perm (with_last (add_extra h p o)) (with_last o ++ (p ∷ []))
  unfolding with_last add_extra
  add_extra-perm p (parts, none) e =
      let same : with_last (add_extra h p (parts, none)) ≡ parts ++ (p ∷ []) = ground arith in
      rw same (Perm.refl _)
  add_extra-perm p (parts, some l) e =
      let same : with_last (add_extra h p (parts, some l)) ≡ (parts ++ (p ∷ [])) ++ (l ∷ []) =
        ground arith in
      rw same (perm_snoc_swap parts l p)

  add_extra-pending :
      (p : Pointer) (o : Order)
      → pending o + zero_sized (p ∷ []) ≤ 1
      → pending (add_extra h p o) ≡ pending o + zero_sized (p ∷ [])
  unfolding add_extra
  add_extra-pending p (parts, none) e = ground arith
  add_extra-pending p (parts, some l) e = ground arith

  zero_sized-append :
      (xs ys : PartitionList) → zero_sized (xs ++ ys) ≡ zero_sized xs + zero_sized ys
  zero_sized-append [] ys = omega arith
  zero_sized-append (p ∷ xs) ys = omega (arith, zero_sized-append xs ys)

  -- While at most one partition has size 0, the extra ones are all added to the list.
  add_extras-perm :
      (pl : PartitionList) (o : Order)
      → pending o + zero_sized pl ≤ 1
      → Perm (with_last (add_extras h pl o)) (with_last o ++ pl)
  unfolding add_extras
  add_extras-perm [] o e = rw append-nil (Perm.refl _)
  add_extras-perm (p ∷ pl) o e =
      let one : pending o + zero_sized (p ∷ []) ≤ 1 = omega arith in
      Perm.trans (add_extras-perm pl (add_extra h p o) (omega (arith, add_extra-pending p o one))) (
        rw (← append_assoc (with_last o) (p ∷ []) pl)
          (Perm.append_right pl (add_extra-perm p o one)))

  add_persistent-perm :
      (excludes : PartitionList) (o : Option Pointer) (parts : PartitionList)
      → let r = add_persistent h (included excludes o) (parts, none) in
        (with_last r ≡ parts ++ included excludes o)
        × (pending r ≡ zero_sized (included excludes o))
  unfolding add_persistent included with_last
  add_persistent-perm excludes none parts = (rw append-nil, refl)
  add_persistent-perm excludes (some p) parts = ground (arith, append-nil parts)

  -- If at most one of the persistent and the extra partitions has size 0, the install order is a
  -- permutation of the partitions that are not nil and not excluded, with the extra ones: none is
  -- left out and none stands twice.
  pub install_order-perm :
      (ep : ElementalPartitions) (extra excludes : PartitionList)
      → zero_sized (included excludes ep.persistent) + zero_sized extra ≤ 1
      → Perm (partitions_by_install_order h ep extra excludes) (listed ep excludes ++ extra)
  unfolding partitions_by_install_order
  install_order-perm ep extra excludes e =
      let add = included excludes in
      let first =
        add ep.bios ++ (add ep.efi ++ (add ep.oem ++ (add ep.recovery ++ add ep.state))) in
      let persistent = add_persistent-perm excludes ep.persistent first in
      let regroup : first ++ add ep.persistent ≡ listed ep excludes = simp append_assoc in
      rw (← regroup, ← persistent.0)
        (add_extras-perm extra (add_persistent h (add ep.persistent) (first, none))
          (rw persistent.1 e))
