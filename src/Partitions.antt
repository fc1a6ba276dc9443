-- ===== src/Partitions.antt =====
-- The partitions of pkg/types/v1/config.go: `Partition`, `PartitionList` and `ElementalPartitions`.
-- A `*Partition` is a pointer into a heap, since the code compares and shares the pointers.
pub mod Lookup
pub mod InstallOrder
pub mod MountOrder
use elemental_cli.Base.{
  ℕ, String, Bool, true, false, not, ◌&&◌, ◌||◌, Option, none, some, List, [], ◌∷◌, ◌++◌, ◌==◌,
  nat_eq, string_eq, contains, if◌then◌else◌,
}
use elemental_cli.Constants
use elemental_cli.Base.Dict
use elemental_cli.Base.Dict.{Dict}
use elemental_cli.Errors.{Err, Error, GoError, single, plain}
use elemental_cli.InstallState.{InstallState, PartitionState, get}

-- Sizes in MiB.
pub record Partition : Type 0 where
  pub name : String
  pub filesystem_label : String
  pub size : ℕ
  pub fs : String
  pub flags : List String
  pub mount_point : String
  pub path : String
  pub disk : String

-- `*Partition`, not nil, and the partitions that the pointers lead to.
abbrev pub Pointer : Type 0
Pointer = ℕ

abbrev pub Heap : Type 0
Heap = Pointer → Partition

abbrev pub PartitionList : Type 0
PartitionList = List Pointer

-- An assignment through a pointer.
unfoldable pub store : Pointer → Partition → Heap → Heap
store p v h q = if p == q then v else h q

abbrev pub is_mountable : Heap → Pointer → Bool
is_mountable h p = not ((h p).mount_point == "")

-- The loop of `GetByName` and of `GetByLabel`, which differ in the test on a partition.
unfoldable pub get_by_loop :
    Heap → (Pointer → Bool) → PartitionList → Option Pointer → Option Pointer
get_by_loop h test [] part = part
get_by_loop h test (p ∷ pl) part = elim (test p) [
  | true ↦ elim (is_mountable h p) [ true ↦ some p | false ↦ get_by_loop h test pl (some p) ]
  | false ↦ get_by_loop h test pl part
]

unfoldable pub get_by_name : Heap → PartitionList → String → Option Pointer
unfolding get_by_loop
get_by_name h pl name = get_by_loop h (λ p. (h p).name == name) pl none

unfoldable pub get_by_label : Heap → PartitionList → String → Option Pointer
unfolding get_by_loop
get_by_label h pl label = get_by_loop h (λ p. (h p).filesystem_label == label) pl none

unfoldable pub get_by_name_or_label : Heap → PartitionList → String → String → Option Pointer
unfolding get_by_name get_by_label
get_by_name_or_label h pl name label =
    let by_label = get_by_label h pl label in
    elim (get_by_name h pl name) [ none ↦ by_label | some p ↦ some p ]

pub record ElementalPartitions : Type 0 where
  pub bios : Option Pointer
  pub efi : Option Pointer
  pub oem : Option Pointer
  pub recovery : Option Pointer
  pub state : Option Pointer
  pub persistent : Option Pointer

-- `lm[name]`: the label of the install state for this partition, if there is one.
unfoldable pub label_of : Option InstallState → String → String → String
unfolding get
label_of none name default = default
label_of (some st) name default = elim (get name st.partitions) [
  | none ↦ default
  | some part ↦ part.fs_label
]

unfoldable pub new_elemental_partitions_from_list :
    Heap → PartitionList → Option InstallState → ElementalPartitions
unfolding get_by_name get_by_name_or_label label_of
new_elemental_partitions_from_list h pl st =
    let find = λ (name label : String). get_by_name_or_label h pl name (label_of st name label) in
    record {
      bios = get_by_name h pl Constants.bios_part_name;
      efi = find Constants.efi_part_name Constants.efi_label;
      oem = find Constants.oem_part_name Constants.oem_label;
      recovery = find Constants.recovery_part_name Constants.recovery_label;
      state = find Constants.state_part_name Constants.state_label;
      persistent = find Constants.persistent_part_name Constants.persistent_label;
    }

-- What `SetFirmwarePartitions` allocates.
abbrev pub efi_partition : Partition
efi_partition = record {
  name = Constants.efi_part_name;
  filesystem_label = Constants.efi_label;
  size = Constants.efi_size;
  fs = Constants.efi_fs;
  flags = Constants.esp_flag ∷ [];
  mount_point = Constants.efi_dir;
  path = "";
  disk = "";
}

abbrev pub bios_partition : Partition
bios_partition = record {
  name = Constants.bios_part_name;
  filesystem_label = "";
  size = Constants.bios_size;
  fs = "";
  flags = Constants.bios_flag ∷ [];
  mount_point = "";
  path = "";
  disk = "";
}

-- `SetFirmwarePartitions`; `fresh` is the pointer that an allocation would return.
unfoldable pub set_firmware_partitions :
    Pointer → ElementalPartitions → String → String → Heap → Err × ElementalPartitions × Heap
unfolding store
set_firmware_partitions fresh ep firmware part_table h =
    if firmware == Constants.efi && part_table == Constants.gpt
    then (none, record ep { efi = some fresh; bios = none }, store fresh efi_partition h)
    else if firmware == Constants.bios && part_table == Constants.gpt
    then (none, record ep { bios = some fresh; efi = none }, store fresh bios_partition h)
    else elim ep.state [
      | none ↦ (some (single (plain "nil state partition")), ep, h)
      | some p ↦ (
        none,
        record ep { efi = none; bios = none },
        store p (record (h p) { flags = Constants.boot_flag ∷ [] }) h,
      )
    ]

-- `ep.X != nil && !inExcludes(ep.X, excludes...)`: the partition to append, if any.
unfoldable pub included : PartitionList → Option Pointer → PartitionList
included excludes none = []
included excludes (some p) = if contains excludes p then [] else p ∷ []

-- The persistent partition and the extra ones: the partitions so far, and `lastPartition`.
abbrev pub Order : Type 0
Order = PartitionList × Option Pointer

unfoldable pub add_persistent : Heap → PartitionList → Order → Order
add_persistent h [] (parts, last) = (parts, last)
add_persistent h (p ∷ _) (parts, last) =
    if (h p).size == 0 then (parts, some p) else (parts ++ (p ∷ []), last)

unfoldable pub add_extra : Heap → Pointer → Order → Order
add_extra h p (parts, none) = if (h p).size == 0 then (parts, some p) else (parts ++ (p ∷ []), none)
add_extra h p (parts, some l) =
    if (h p).size == 0 then (parts, some l) else (parts ++ (p ∷ []), some l)

unfoldable pub add_extras : Heap → PartitionList → Order → Order
unfolding add_extra
add_extras h [] o = o
add_extras h (p ∷ ps) o = add_extras h ps (add_extra h p o)

unfoldable pub with_last : Order → PartitionList
with_last (parts, none) = parts
with_last (parts, some p) = parts ++ (p ∷ [])

-- `PartitionsByInstallOrder`
unfoldable pub partitions_by_install_order :
    Heap → ElementalPartitions → PartitionList → PartitionList → PartitionList
unfolding included add_persistent add_extras with_last
partitions_by_install_order h ep extra excludes =
    let add = included excludes in
    let first = add ep.bios ++ (add ep.efi ++ (add ep.oem ++ (add ep.recovery ++ add ep.state))) in
    with_last (add_extras h extra (add_persistent h (add ep.persistent) (first, none)))
