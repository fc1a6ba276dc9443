-- ===== src/Spec.antt =====
-- The specifications of the actions in pkg/types/v1/config.go, and their `Sanitize` methods.
pub mod Install
pub mod Upgrade
use elemental_cli.Base.{
  ℕ, String, Bool, true, false, ◌&&◌, ◌||◌, Option, none, some, List, [], ltb, ◌==◌, nat_eq,
  string_eq, if◌then◌else◌,
}
use elemental_cli.Constants
use elemental_cli.Errors.{Err, single, plain}
use elemental_cli.ImageSource.{ImageSource, is_empty}
use elemental_cli.InstallState.{InstallState}
use elemental_cli.Partitions.{
  Pointer, Heap, PartitionList, ElementalPartitions, set_firmware_partitions,
}
use elemental_cli.Partitions.InstallOrder.{zero_sized}

-- Sizes in MiB. `source` is a pointer, which may be nil.
pub record Image : Type 0 where
  pub file : String
  pub label : String
  pub size : ℕ
  pub fs : String
  pub source : Option ImageSource
  pub mount_point : String
  pub loop_device : String

pub record InstallSpec : Type 0 where
  pub target : String
  pub firmware : String
  pub part_table : String
  pub partitions : ElementalPartitions
  pub extra_partitions : PartitionList
  pub no_format : Bool
  pub force : Bool
  pub cloud_init : List String
  pub iso : String
  pub grub_def_entry : String
  pub active : Image
  pub recovery : Image
  pub passive : Image
  pub grub_conf : String
  pub disable_boot_entry : Bool

pub record ResetSpec : Type 0 where
  pub format_persistent : Bool
  pub format_oem : Bool
  pub grub_def_entry : String
  pub active : Image
  pub passive : Image
  pub partitions : ElementalPartitions
  pub target : String
  pub efi : Bool
  pub grub_conf : String
  pub state : Option InstallState
  pub disable_boot_entry : Bool

pub record UpgradeSpec : Type 0 where
  pub recovery_upgrade : Bool
  pub active : Image
  pub recovery : Image
  pub grub_def_entry : String
  pub passive : Image
  pub partitions : ElementalPartitions
  pub state : Option InstallState

-- What a `Sanitize` does: it returns an error or nil, with the specification that it has changed,
-- or it panics on a nil pointer.
pub data Outcome (S : Type 0) : Type 0 where
  returned : Err → S → Outcome S
  panicked : Outcome S

abbrev pub fail : {S : Type 0} → String → S → Outcome S
fail text s = returned (some (single (plain text))) s

-- `x.Partitions.P == nil || x.Partitions.P.MountPoint == ""`
unfoldable pub is_undefined : Heap → Option Pointer → Bool
is_undefined h none = true
is_undefined h (some p) = (h p).mount_point == ""

unfoldable pub without_label : Image → Image
without_label i = record i { label = "" }

-- `if i.Active.FS == constants.SquashFs`
unfoldable pub unset_active : InstallSpec → InstallSpec
unfolding without_label
unset_active i =
    if i.active.fs == Constants.squash_fs
    then record i { active = without_label i.active; passive = without_label i.passive }
    else i

unfoldable pub unset_recovery : InstallSpec → InstallSpec
unfolding without_label
unset_recovery i =
    if i.recovery.fs == Constants.squash_fs
    then record i { recovery = without_label i.recovery }
    else i

-- The last statement of `InstallSpec.Sanitize`.
unfoldable pub sanitize_firmware : Pointer → InstallSpec → Heap → Outcome (InstallSpec × Heap)
unfolding set_firmware_partitions
sanitize_firmware fresh i h =
    let (err, ep, h') = set_firmware_partitions fresh i.partitions i.firmware i.part_table h in
    returned err (record i { partitions = ep }, h')

abbrev two_zero_sized : String
two_zero_sized =
    "more than one extra partition has its size set to 0. Only one partition can have its size set to 0 which means that it will take all the available disk space in the device"

abbrev persistent_zero_sized : String
persistent_zero_sized =
    "both persistent partition and extra partitions have size set to 0. Only one partition can have its size set to 0 which means that it will take all the available disk space in the device"

-- The checks on the partitions whose size is 0.
unfoldable pub sanitize_sizes : Pointer → InstallSpec → Heap → Outcome (InstallSpec × Heap)
unfolding sanitize_firmware
sanitize_sizes fresh i h =
    let zeros = zero_sized h i.extra_partitions in
    if ltb 1 zeros
    then fail two_zero_sized (i, h)
    else if zeros == 1
    then elim i.partitions.persistent [
      | none ↦ panicked
      | some p ↦
          if (h p).size == 0 then fail persistent_zero_sized (i, h) else sanitize_firmware fresh i h
    ]
    else sanitize_firmware fresh i h

-- `InstallSpec.Sanitize`; `fresh` is the pointer that an allocation would return.
unfoldable pub sanitize_install : Pointer → InstallSpec → Heap → Outcome (InstallSpec × Heap)
unfolding is_empty is_undefined unset_active unset_recovery sanitize_sizes
sanitize_install fresh i h = elim i.active.source [
  | none ↦ panicked
  | some src ↦
      if is_empty src && i.iso == ""
      then fail "undefined system source to install" (i, h)
      else if is_undefined h i.partitions.state
      then fail "undefined state partition" (i, h)
      else sanitize_sizes fresh (unset_recovery (unset_active i)) h
]

-- `ResetSpec.Sanitize`
unfoldable pub sanitize_reset : ResetSpec → Heap → Outcome ResetSpec
unfolding is_empty is_undefined without_label
sanitize_reset r h = elim r.active.source [
  | none ↦ panicked
  | some src ↦
      if is_empty src
      then fail "undefined system source to reset to" r
      else if is_undefined h r.partitions.state
      then fail "undefined state partition" r
      else if r.active.fs == Constants.squash_fs
      then returned none
          (record r { active = without_label r.active; passive = without_label r.passive })
      else returned none r
]

unfoldable pub unset_upgrade_active : UpgradeSpec → UpgradeSpec
unfolding without_label
unset_upgrade_active u =
    if u.active.fs == Constants.squash_fs
    then record u { active = without_label u.active; passive = without_label u.passive }
    else u

unfoldable pub unset_upgrade_recovery : UpgradeSpec → UpgradeSpec
unfolding without_label
unset_upgrade_recovery u =
    if u.recovery.fs == Constants.squash_fs
    then record u { recovery = without_label u.recovery }
    else u

-- One of the two branches of `UpgradeSpec.Sanitize`: the partition, and the source of its image.
unfoldable pub sanitize_source :
    String → Heap → Option Pointer → Option ImageSource → UpgradeSpec → Outcome UpgradeSpec
unfolding is_empty is_undefined unset_upgrade_active unset_upgrade_recovery
sanitize_source text h part source u = if is_undefined h part then fail text u else elim source [
  | none ↦ panicked
  | some src ↦
      if is_empty src
      then fail "undefined upgrade source" u
      else returned none (unset_upgrade_recovery (unset_upgrade_active u))
]

-- `UpgradeSpec.Sanitize`
unfoldable pub sanitize_upgrade : UpgradeSpec → Heap → Outcome UpgradeSpec
unfolding sanitize_source
sanitize_upgrade u h =
    if u.recovery_upgrade
    then sanitize_source "undefined recovery partition" h u.partitions.recovery u.recovery.source u
    else sanitize_source "undefined state partition" h u.partitions.state u.active.source u
