-- ===== src/Spec/Install.antt =====
-- An install specification that `Sanitize` accepts can be installed: all its partitions are created.
use mathlib.Core.List.{Perm}
use elemental_cli.Base.{
  ◌+◌, ◌≤◌, ◌≡◌, ◌≢◌, refl, ap, ◌∙◌, Option, none, some, [], ◌∷◌, ◌++◌, arith, All, nat_eq, String,
}
use elemental_cli.Partitions.{
  Pointer, Heap, Partition, PartitionList, ElementalPartitions, store, included,
  set_firmware_partitions, partitions_by_install_order,
}
use elemental_cli.Partitions.InstallOrder.{
  zero_sized, listed, IsSizedOption, IsSizedButLast, install_order-perm,
  install_order-IsSizedButLast,
}
use elemental_cli.Spec.{
  InstallSpec, returned, unset_active, unset_recovery, sanitize_firmware, sanitize_sizes,
  sanitize_install,
}

-- The pointer that an allocation returns is none of the pointers in use.
abbrev pub IsOther : Pointer → Option Pointer → Type 0
IsOther fresh none = Unit
IsOther fresh (some p) = p ≢ fresh

pub record IsFresh (fresh : Pointer) (i : InstallSpec) : Type 0 where
  pub persistent : IsOther fresh i.partitions.persistent
  pub oem : IsOther fresh i.partitions.oem
  pub recovery : IsOther fresh i.partitions.recovery
  pub state : IsOther fresh i.partitions.state
  pub extra : All (λ p. p ≢ fresh) i.extra_partitions

-- An assignment that leaves the sizes of all partitions but a fresh one.
KeepsSizes : Pointer → Heap → Heap → Type 0
KeepsSizes fresh h h' = (p : Pointer) → p ≢ fresh → (h' p).size ≡ (h p).size

store_fresh-KeepsSizes :
    (fresh : Pointer) (v : Partition) (h : Heap) → KeepsSizes fresh h (store fresh v h)
unfolding store KeepsSizes
store_fresh-KeepsSizes fresh v h p ne = ground arith

zero_sized-KeepsSizes :
    (fresh : Pointer) (h h' : Heap) (pl : PartitionList)
    → KeepsSizes fresh h h'
    → All (λ p. p ≢ fresh) pl
    → zero_sized h' pl ≡ zero_sized h pl
unfolding KeepsSizes
zero_sized-KeepsSizes fresh h h' [] k a = refl
zero_sized-KeepsSizes fresh h h' (p ∷ pl) k a =
    rw (k p a.0, zero_sized-KeepsSizes fresh h h' pl k a.1)

-- What a nil error of `SetFirmwarePartitions` leaves.
firmware-KeepsSizes :
    (fresh : Pointer) (ep : ElementalPartitions) (firmware part_table : String) (h : Heap)
    → KeepsSizes fresh h (set_firmware_partitions fresh ep firmware part_table h).2
unfolding set_firmware_partitions KeepsSizes
firmware-KeepsSizes fresh ep firmware part_table h p ne = ground arith

included-IsOther :
    (fresh : Pointer) (o : Option Pointer) → IsOther fresh o → All (λ p. p ≢ fresh) (included [] o)
unfolding included
included-IsOther fresh none a = tt
included-IsOther fresh (some p) a = (a, tt)

IsSizedOption-KeepsSizes :
    (fresh : Pointer) (h h' : Heap) (o : Option Pointer)
    → KeepsSizes fresh h h'
    → IsOther fresh o
    → IsSizedOption h o
    → IsSizedOption h' o
unfolding KeepsSizes
IsSizedOption-KeepsSizes fresh h h' none k a s = tt
IsSizedOption-KeepsSizes fresh h h' (some p) k a s = rw (k p a) s

firmware_lem :
    (fresh : Pointer) (ep : ElementalPartitions) (firmware part_table : String) (h : Heap)
    → let (err, ep', h') = set_firmware_partitions fresh ep firmware part_table h in
      err ≡ none
      → IsSizedOption h' ep'.bios
        × IsSizedOption h' ep'.efi
        × (ep'.oem ≡ ep.oem)
        × (ep'.recovery ≡ ep.recovery)
        × (ep'.state ≡ ep.state)
        × (ep'.persistent ≡ ep.persistent)
unfolding set_firmware_partitions store
firmware_lem fresh ep firmware part_table h e = ground arith

-- What a nil error of the size checks means.
sizes_lem :
    (fresh : Pointer) (i : InstallSpec) (h : Heap) {r : InstallSpec × Heap}
    → sanitize_sizes fresh i h ≡ returned none r
    → (zero_sized h (included [] i.partitions.persistent) + zero_sized h i.extra_partitions ≤ 1)
      × (sanitize_firmware fresh i h ≡ returned none r)
unfolding sanitize_sizes included
sizes_lem fresh i h e = ground arith

sanitize_install_lem :
    (fresh : Pointer) (i : InstallSpec) (h : Heap) {r : InstallSpec × Heap}
    → sanitize_install fresh i h ≡ returned none r
    → sanitize_sizes fresh (unset_recovery (unset_active i)) h ≡ returned none r
unfolding sanitize_install
sanitize_install_lem fresh i h e = ground arith

unset_lem :
    (i : InstallSpec)
    → let j = unset_recovery (unset_active i) in
      (j.partitions ≡ i.partitions) × (j.extra_partitions ≡ i.extra_partitions)
unfolding unset_recovery unset_active
unset_lem i = ground arith

firmware_returned :
    (fresh : Pointer) (j : InstallSpec) (h : Heap) (i' : InstallSpec) (h' : Heap)
    → sanitize_firmware fresh j h ≡ returned none (i', h')
    → let (err, ep, k) = set_firmware_partitions fresh j.partitions j.firmware j.part_table h in
      (err ≡ none) × (i' ≡ record j { partitions = ep }) × (h' ≡ k)
unfolding sanitize_firmware
firmware_returned fresh j h i' h' e = ground arith

-- What `Sanitize` has established when it returns nil.
record Accepted (i : InstallSpec) (h : Heap) (i' : InstallSpec) (h' : Heap) : Type 0 where
  bios : IsSizedOption h' i'.partitions.bios
  efi : IsSizedOption h' i'.partitions.efi
  oem : i'.partitions.oem ≡ i.partitions.oem
  recovery : i'.partitions.recovery ≡ i.partitions.recovery
  state : i'.partitions.state ≡ i.partitions.state
  persistent : i'.partitions.persistent ≡ i.partitions.persistent
  extra : i'.extra_partitions ≡ i.extra_partitions
  zeros : zero_sized h (included [] i.partitions.persistent) + zero_sized h i.extra_partitions ≤ 1

module _ (fresh : Pointer) (i : InstallSpec) (h : Heap) (i' : InstallSpec) (h' : Heap)
    (accepted : sanitize_install fresh i h ≡ returned none (i', h')) where
  sanitize_install-Accepted : Accepted i h i' h' × KeepsSizes fresh h h'
  sanitize_install-Accepted =
      let j = unset_recovery (unset_active i) in
      let (zeros, firm) = sizes_lem fresh j h (sanitize_install_lem fresh i h accepted) in
      let (nil, same, heap) = firmware_returned fresh j h i' h' firm in
      let (b, e, o, r, s, p) = firmware_lem fresh j.partitions j.firmware j.part_table h nil in
      let keeps = firmware-KeepsSizes fresh j.partitions j.firmware j.part_table h in
      let (parts, extra) = unset_lem i in
      (
        record {
          bios = rw (same, heap) b;
          efi = rw (same, heap) e;
          oem = rw same (o ∙ ap (λ q. q.oem) parts);
          recovery = rw same (r ∙ ap (λ q. q.recovery) parts);
          state = rw same (s ∙ ap (λ q. q.state) parts);
          persistent = rw same (p ∙ ap (λ q. q.persistent) parts);
          extra = rw same extra;
          zeros = rw (parts, extra) at zeros;
        },
        rw heap keeps,
      )

  module _ (new : IsFresh fresh i) where
    zero_sized-Accepted :
        zero_sized h' (included [] i'.partitions.persistent) + zero_sized h' i'.extra_partitions ≤ 1
    zero_sized-Accepted =
        let (a, keeps) = sanitize_install-Accepted in
        rw
          (
            a.persistent,
            a.extra,
            zero_sized-KeepsSizes fresh h h' (included [] i.partitions.persistent) keeps
                (included-IsOther fresh _ new.persistent),
            zero_sized-KeepsSizes fresh h h' i.extra_partitions keeps new.extra,
          )
          a.zeros

    -- If `Sanitize` returns nil, no pointer in use is the one that it allocates, and the OEM, the
    -- recovery and the state partition have a size, then the install order of the specification that
    -- it leaves lists each partition that is not nil, and each extra one, exactly once, and all of
    -- them but the last have a size.
    pub sanitize_install-install_order :
        IsSizedOption h i.partitions.oem
        → IsSizedOption h i.partitions.recovery
        → IsSizedOption h i.partitions.state
        → let ep = i'.partitions in
          let extra = i'.extra_partitions in
          let order = partitions_by_install_order h' ep extra [] in
          Perm order (listed ep [] ++ extra) × IsSizedButLast h' order
    sanitize_install-install_order oem recovery state =
        let (a, keeps) = sanitize_install-Accepted in
        let sized = λ (o : Option Pointer). IsSizedOption-KeepsSizes fresh h h' o keeps in
        (
          install_order-perm h' i'.partitions i'.extra_partitions [] zero_sized-Accepted,
          install_order-IsSizedButLast h' i'.partitions i'.extra_partitions [] (record {
            bios = a.bios;
            efi = a.efi;
            oem = rw a.oem (sized _ new.oem oem);
            recovery = rw a.recovery (sized _ new.recovery recovery);
            state = rw a.state (sized _ new.state state);
          }),
        )
