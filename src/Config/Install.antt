-- ===== src/Config/Install.antt =====
-- `NewInstallSpec` of pkg/config/config.go: the default partitions, and `Sanitize`.
use elemental_cli.Base.{
  ◌+◌, ◌≡◌, refl, ap, Bool, true, false, none, some, List, [], ◌∷◌, map, String, arith, ◌==◌,
  nat_eq, string_eq, if◌then◌else◌, ℕ_discrete,
}
use elemental_cli.Constants
use elemental_cli.Golang.{Go}
use elemental_cli.ImageSource.{ImageSource, is_empty}
use elemental_cli.Partitions.{
  Partition, Pointer, Heap, ElementalPartitions, store, efi_partition, bios_partition,
  partitions_by_install_order,
}
use elemental_cli.Partitions.InstallOrder.{IsSizedButLast}
use elemental_cli.Machine.{Outside, World}
use elemental_cli.Devices.{exists}
use elemental_cli.Spec.{
  InstallSpec, Outcome, returned, unset_active, unset_recovery, sanitize_sizes, is_undefined,
  sanitize_install,
}
use elemental_cli.Config.{
  new_install_spec, install_spec_of, new_install_elemental_partitions, oem_partition,
  recovery_partition, state_partition, persistent_partition,
}

-- The specification with a source for the system.
abbrev pub with_source : ImageSource → InstallSpec → InstallSpec
with_source src i = record i { active = record i.active { source = some src } }

module _ (L : Go) (fresh : Pointer) (h : Heap) where
  abbrev layout : ElementalPartitions
  layout = (new_install_elemental_partitions fresh h).0

  abbrev default_heap : Heap
  default_heap = (new_install_elemental_partitions fresh h).1

  default_heap_lem :
      (default_heap fresh ≡ oem_partition)
      × (default_heap (fresh + 1) ≡ recovery_partition)
      × (default_heap (fresh + 2) ≡ state_partition)
      × (default_heap (fresh + 3) ≡ persistent_partition)
  unfolding new_install_elemental_partitions store
  default_heap_lem = (ground arith, ground arith, ground arith, ground arith)

  state_defined : is_undefined default_heap layout.state ≡ false
  unfolding is_undefined new_install_elemental_partitions string_eq
  state_defined = ap (λ (p : Partition). p.mount_point == "") (default_heap_lem.2)

  -- What `SetFirmwarePartitions` allocates on a host with or without EFI.
  abbrev firmware_partition : Bool → Partition
  firmware_partition efi = if efi then efi_partition else bios_partition

  abbrev firmware_layout : Bool → ElementalPartitions
  firmware_layout efi = record layout {
    efi = if efi then some (fresh + 4) else none;
    bios = if efi then none else some (fresh + 4);
  }

  abbrev accepted : Bool → Bool → ImageSource → Outcome (InstallSpec × Heap)
  accepted efi iso_root src = returned none (
    record (with_source src (install_spec_of L efi iso_root layout)) {
      partitions = firmware_layout efi;
    },
    store (fresh + 4) (firmware_partition efi) default_heap,
  )

  default_sizes :
      (efi iso_root : Bool) (src : ImageSource)
      → sanitize_sizes
          (fresh + 4)
          (unset_recovery (unset_active (with_source src (install_spec_of L efi iso_root layout))))
          default_heap
        ≡ accepted efi iso_root src
  unfolding sanitize_sizes install_spec_of unset_recovery unset_active string_eq ℕ_discrete
  default_sizes true iso_root src = refl
  default_sizes false iso_root src = refl

  default_accepted :
      (efi iso_root : Bool) (src : ImageSource)
      → is_empty src ≡ false
      → sanitize_install
          (fresh + 4)
          (with_source src (install_spec_of L efi iso_root layout))
          default_heap
        ≡ accepted efi iso_root src
  unfolding sanitize_install install_spec_of
  default_accepted efi iso_root src given =
      rw (given, state_defined) (default_sizes efi iso_root src)

  abbrev firmware_heap : Bool → Heap
  firmware_heap efi = store (fresh + 4) (firmware_partition efi) default_heap

  firmware_heap_lem :
      (efi : Bool)
      → (firmware_heap efi (fresh + 4) ≡ firmware_partition efi)
        × (firmware_heap efi fresh ≡ oem_partition)
        × (firmware_heap efi (fresh + 1) ≡ recovery_partition)
        × (firmware_heap efi (fresh + 2) ≡ state_partition)
        × (firmware_heap efi (fresh + 3) ≡ persistent_partition)
  unfolding store
  firmware_heap_lem efi =
      let (o, r, s, p) = default_heap_lem in
      (ground arith, ground arith, ground arith, ground arith, ground arith)

  default_order :
      (efi : Bool)
      → partitions_by_install_order (firmware_heap efi) (firmware_layout efi) [] []
        ≡ (fresh + 4) ∷ fresh ∷ (fresh + 1) ∷ (fresh + 2) ∷ (fresh + 3) ∷ []
  unfolding partitions_by_install_order new_install_elemental_partitions ℕ_discrete
  default_order true = rw ((firmware_heap_lem true).4) refl
  default_order false = rw ((firmware_heap_lem false).4) refl

  default_sized :
      (efi : Bool)
      → IsSizedButLast
          (firmware_heap efi)
          ((fresh + 4) ∷ fresh ∷ (fresh + 1) ∷ (fresh + 2) ∷ (fresh + 3) ∷ [])
  default_sized true = let (f, o, r, s, p) = firmware_heap_lem true in rw (f, o, r, s) (omega arith)
  default_sized false =
      let (f, o, r, s, p) = firmware_heap_lem false in rw (f, o, r, s) (omega arith)

-- What a partition is for, the label of its file system and its mount point.
abbrev pub described : Partition → String × String × String
described p = (p.name, p.filesystem_label, p.mount_point)

-- The default partitions, that for the firmware of a host with or without EFI first.
abbrev pub defaults : Bool → List (String × String × String)
defaults efi =
    (if efi then ("efi", "COS_GRUB", "/run/cos/efi") else ("bios", "", ""))
    ∷ ("oem", "COS_OEM", "/run/cos/oem")
    ∷ ("recovery", "COS_RECOVERY", "/run/cos/recovery")
    ∷ ("state", "COS_STATE", "/run/cos/state")
    ∷ ("persistent", "COS_PERSISTENT", "/run/cos/persistent")
    ∷ []

default_parts :
    (L : Go) (fresh : Pointer) (h : Heap) (efi : Bool)
    → map
        (λ p. described (firmware_heap L fresh h efi p))
        ((fresh + 4) ∷ fresh ∷ (fresh + 1) ∷ (fresh + 2) ∷ (fresh + 3) ∷ [])
      ≡ defaults efi
default_parts L fresh h true =
    let (f, o, r, s, p) = firmware_heap_lem L fresh h true in rw (f, o, r, s, p) refl
default_parts L fresh h false =
    let (f, o, r, s, p) = firmware_heap_lem L fresh h false in rw (f, o, r, s, p) refl

-- The partitions of a specification are those at the pointers, the first for the firmware.
abbrev pub IsPartitioned :
    Bool → ElementalPartitions → Pointer → Pointer → Pointer → Pointer → Pointer → Type 0
IsPartitioned efi ep firmware oem recovery state persistent =
    (ep.efi ≡ (if efi then some firmware else none))
    × (ep.bios ≡ (if efi then none else some firmware))
    × (ep.oem ≡ some oem)
    × (ep.recovery ≡ some recovery)
    × (ep.state ≡ some state)
    × (ep.persistent ≡ some persistent)

layout-IsPartitioned :
    (L : Go) (fresh : Pointer) (h : Heap) (efi : Bool)
    → IsPartitioned efi
        (firmware_layout L fresh h efi)
        (fresh + 4)
        fresh
        (fresh + 1)
        (fresh + 2)
        (fresh + 3)
unfolding new_install_elemental_partitions
layout-IsPartitioned L fresh h efi = (refl, refl, refl, refl, refl, refl)

module _ (L : Go) (O : Outside) (fresh : Pointer) (w : World) (src : ImageSource) where
  -- Whatever the host has, the default specification of an installation, once its system has a
  -- source that is not empty, passes `Sanitize`. The specification that this leaves has five
  -- partitions, which are installed in this order: the EFI partition on a host with EFI and else the
  -- BIOS partition, then the OEM, the recovery, the state and the persistent partition, each with
  -- its default name, label and mount point; all of them but the last have a size.
  pub new_install_spec-Accepted :
      is_empty src ≡ false
      → let (i, w') = new_install_spec L O fresh w in
        let efi = (exists O Constants.efi_device w).0 in
        let order = (fresh + 4) ∷ fresh ∷ (fresh + 1) ∷ (fresh + 2) ∷ (fresh + 3) ∷ [] in
        (i' : InstallSpec) × (h : Heap) × (sanitize_install (fresh + 4) (with_source src i) w'.heap
          ≡ returned none (i', h))
        × (partitions_by_install_order h i'.partitions i'.extra_partitions [] ≡ order)
        × IsPartitioned efi i'.partitions (fresh + 4) fresh (fresh + 1) (fresh + 2) (fresh + 3)
        × (map (λ p. described (h p)) order ≡ defaults efi)
        × IsSizedButLast h order
  unfolding new_install_spec install_spec_of
  new_install_spec-Accepted given =
      let (efi, w1) = exists O Constants.efi_device w in
      let (iso_root, w2) = exists O Constants.iso_base_tree w1 in
      (
        _,
        _,
        default_accepted L fresh w2.heap efi iso_root src given,
        default_order L fresh w2.heap efi,
        layout-IsPartitioned L fresh w2.heap efi,
        default_parts L fresh w2.heap efi,
        default_sized L fresh w2.heap efi,
      )
