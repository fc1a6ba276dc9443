-- ===== src/Partitions/MountOrder.antt =====
-- `PartitionsByMountPoint`: the partitions to mount in the order of their mount points, so that a
-- directory is mounted before what lies below it, and the reverse of that order to unmount them.
use mathlib.Core.List.{Pairwise, reverse-append, reverse-cons, append_assoc}
use mathlib.Core.List.Pairwise
use mathlib.Core.Path.{ap₂}
use elemental_cli.Base.{
  ◌≡◌, refl, String, ◌<>◌, Bool, true, false, Option, none, some, List, [], ◌∷◌, ◌++◌, map, reverse,
  arith, All, ◌==◌, string_eq, if◌then◌else◌, Bool-cases, inl, inr,
}
use elemental_cli.Base.Dict.{Dict, lookup, insert, lookup-insert}
use elemental_cli.Base.Sort.{sort, flip, sort-flip, sort-IsSorted, sort-All, IsSorted}
use elemental_cli.Base.Text.{str_leb, str_leb-IsLinear, str_leb_prefix, str_leb_antisymm}
use elemental_cli.Partitions.{
  Pointer, Heap, PartitionList, ElementalPartitions, is_mountable, partitions_by_install_order,
}

abbrev pub mount_point_of : Heap → Pointer → String
mount_point_of h p = (h p).mount_point

-- `if p.MountPoint != ""`
unfoldable pub mountable : Heap → PartitionList → PartitionList
mountable h [] = []
mountable h (p ∷ pl) = if is_mountable h p then p ∷ mountable h pl else mountable h pl

-- The map `mountPointKeys`, where a later partition replaces one with the same mount point.
unfoldable pub mount_point_keys : Heap → PartitionList → Dict Pointer → Dict Pointer
unfolding insert
mount_point_keys h [] d = d
mount_point_keys h (p ∷ pl) d = mount_point_keys h pl (insert (mount_point_of h p) p d)

abbrev pub found : Option Pointer → PartitionList
found none = []
found (some p) = p ∷ []

-- `mountPointKeys[mnt]` for each of the mount points; each of them is a key.
unfoldable pub at_mount_points : Dict Pointer → List String → PartitionList
unfolding lookup
at_mount_points d [] = []
at_mount_points d (m ∷ ms) = found (lookup m d) ++ at_mount_points d ms

unfoldable pub partitions_by_mount_point :
    Heap → ElementalPartitions → Bool → PartitionList → PartitionList
unfolding mountable mount_point_keys at_mount_points sort partitions_by_install_order
partitions_by_mount_point h ep descending excludes =
    let pl = mountable h (partitions_by_install_order h ep [] excludes) in
    let mount_points = map (mount_point_of h) pl in
    at_mount_points (mount_point_keys h pl [])
      (if descending then sort (flip str_leb) mount_points else sort str_leb mount_points)

at_mount_points-append :
    (d : Dict Pointer) (xs ys : List String)
    → at_mount_points d (xs ++ ys) ≡ at_mount_points d xs ++ at_mount_points d ys
unfolding at_mount_points
at_mount_points-append d [] ys = refl
at_mount_points-append d (x ∷ xs) ys = rw (at_mount_points-append d xs ys, append_assoc)

reverse-found : (o : Option Pointer) → reverse (found o) ≡ found o ++ []
reverse-found none = refl
reverse-found (some p) = refl

at_mount_points-reverse :
    (d : Dict Pointer) (ms : List String)
    → at_mount_points d (reverse ms) ≡ reverse (at_mount_points d ms)
unfolding at_mount_points
at_mount_points-reverse d [] = refl
at_mount_points-reverse d (m ∷ ms) = rw (
  reverse-cons,
  at_mount_points-append,
  at_mount_points-reverse d ms,
  reverse-append,
  reverse-found,
)

-- The partitions are unmounted in exactly the reverse of the order in which they are mounted.
pub by_mount_point-descending :
    (h : Heap) (ep : ElementalPartitions) (excludes : PartitionList)
    → partitions_by_mount_point h ep true excludes
      ≡ reverse (partitions_by_mount_point h ep false excludes)
unfolding partitions_by_mount_point
by_mount_point-descending h ep excludes =
    let pl = mountable h (partitions_by_install_order h ep [] excludes) in
    rw (sort-flip str_leb _ str_leb-IsLinear) (
      at_mount_points-reverse (mount_point_keys h pl []) (sort str_leb (map (mount_point_of h) pl)))

-- A mount point leads to a partition that has it.
abbrev IsKey : Heap → Dict Pointer → String → Type 0
IsKey h d m = (p : Pointer) × (lookup m d ≡ some p) × (mount_point_of h p ≡ m)

insert-IsKey :
    (h : Heap) (d : Dict Pointer) (p : Pointer) (m : String)
    → IsKey h d m
    → IsKey h (insert (mount_point_of h p) p d) m
insert-IsKey h d p m (q, e, k) = elim (Bool-cases (mount_point_of h p == m)) [
  | inl new ↦ (p, rw (lookup-insert, new), ground arith)
  | inr old ↦ (q, rw (lookup-insert, old) e, k)
]

insert-IsKey_self :
    (h : Heap) (d : Dict Pointer) (p : Pointer)
    → IsKey h (insert (mount_point_of h p) p d) (mount_point_of h p)
insert-IsKey_self h d p = (p, rw lookup-insert (ground arith), refl)

mount_point_keys-IsKey :
    (h : Heap) (pl : PartitionList) (d : Dict Pointer) (m : String)
    → IsKey h d m
    → IsKey h (mount_point_keys h pl d) m
unfolding mount_point_keys
mount_point_keys-IsKey h [] d m k = k
mount_point_keys-IsKey h (p ∷ pl) d m k =
    mount_point_keys-IsKey h pl (insert (mount_point_of h p) p d) m (insert-IsKey h d p m k)

mount_point_keys-All :
    (h : Heap) (pl : PartitionList) (d : Dict Pointer)
    → All (IsKey h (mount_point_keys h pl d)) (map (mount_point_of h) pl)
unfolding mount_point_keys
mount_point_keys-All h [] d = tt
mount_point_keys-All h (p ∷ pl) d =
    let d' = insert (mount_point_of h p) p d in
    (
      mount_point_keys-IsKey h pl d' (mount_point_of h p) (insert-IsKey_self h d p),
      mount_point_keys-All h pl d',
    )

map-at_mount_points :
    (h : Heap) (d : Dict Pointer) (ms : List String)
    → All (IsKey h d) ms
    → map (mount_point_of h) (at_mount_points d ms) ≡ ms
unfolding at_mount_points
map-at_mount_points h d [] a = refl
map-at_mount_points h d (m ∷ ms) ((p, e, k), a) =
    rw e (ap₂ (λ x xs. x ∷ xs) k (map-at_mount_points h d ms a))

-- The mount points of the partitions to mount are those of the listed partitions that have one,
-- each as often as it is listed there, in the order of the texts.
pub map-by_mount_point :
    (h : Heap) (ep : ElementalPartitions) (excludes : PartitionList)
    → map (mount_point_of h) (partitions_by_mount_point h ep false excludes)
      ≡ sort str_leb
          (map (mount_point_of h) (mountable h (partitions_by_install_order h ep [] excludes)))
unfolding partitions_by_mount_point
map-by_mount_point h ep excludes =
    let pl = mountable h (partitions_by_install_order h ep [] excludes) in
    map-at_mount_points h (mount_point_keys h pl []) _ (
      sort-All (IsKey h (mount_point_keys h pl [])) str_leb (map (mount_point_of h) pl)
        (mount_point_keys-All h pl []))

-- `p` does not have to be mounted after `q`: the mount point of `q` is no proper prefix of that of `p`.
abbrev pub MayPrecede : Heap → Pointer → Pointer → Type 0
MayPrecede h p q =
    (rest : String)
    → mount_point_of h p ≡ mount_point_of h q <> rest
    → mount_point_of h p ≡ mount_point_of h q

precede_of_leb :
    (h : Heap) (p q : Pointer)
    → str_leb (mount_point_of h p) (mount_point_of h q) ≡ true
    → MayPrecede h p q
precede_of_leb h p q le rest e =
    str_leb_antisymm _ _ le (rw e (str_leb_prefix (mount_point_of h q) rest))

-- No partition is mounted before one whose mount point is a proper prefix of its own: a directory is
-- mounted before what lies below it.
pub by_mount_point-MayPrecede :
    (h : Heap) (ep : ElementalPartitions) (excludes : PartitionList)
    → Pairwise (MayPrecede h) (partitions_by_mount_point h ep false excludes)
by_mount_point-MayPrecede h ep excludes =
    let sorted : IsSorted str_leb
        (map (mount_point_of h) (partitions_by_mount_point h ep false excludes)) =
      rw map-by_mount_point (sort-IsSorted str_leb _ str_leb-IsLinear) in
    Pairwise.of_map (mount_point_of h) (precede_of_leb h) sorted
