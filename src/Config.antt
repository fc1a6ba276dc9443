-- ===== src/Config.antt =====
-- pkg/config/config.go: the specifications that the actions start from, by the defaults and by what the
-- host has. `fresh` is the pointer that the next allocation would return.
pub mod Found
pub mod Host
pub mod Install
pub mod Mounts
pub mod Ready
pub mod Reset
use elemental_cli.Base.{
  ℕ, suc, ◌+◌, String, Bool, true, false, Option, none, some, List, [], ◌∷◌, ◌==◌, string_eq,
  if◌then◌else◌,
}
use elemental_cli.Constants
use elemental_cli.Golang.{Go}
use elemental_cli.ImageSource.{ImageSource, new_empty_src, new_file_src, new_dir_src}
use elemental_cli.InstallState.{InstallState, PartitionState, ImageState, get}
use elemental_cli.Partitions.{
  Partition, Pointer, Heap, PartitionList, ElementalPartitions, store,
  new_elemental_partitions_from_list,
}
use elemental_cli.Machine.{
  Call, Outside, World, M, Result, ok, fail, panicked, ask, errorf, pure, ◌>>=◌, ◌>>◌, with_heap,
}
use elemental_cli.Devices.{exists, booted_from}
use elemental_cli.Spec.{Image, InstallSpec, ResetSpec, UpgradeSpec}

-- A partition of the default layout.
abbrev default_partition : String → String → ℕ → String → Partition
default_partition name label size mount_point = record {
  name = name;
  filesystem_label = label;
  size = size;
  fs = Constants.linux_fs;
  flags = [];
  mount_point = mount_point;
  path = "";
  disk = "";
}

abbrev pub oem_partition : Partition
oem_partition =
    default_partition Constants.oem_part_name Constants.oem_label Constants.oem_size
      Constants.oem_dir

abbrev pub recovery_partition : Partition
recovery_partition =
    default_partition Constants.recovery_part_name Constants.recovery_label Constants.recovery_size
      Constants.recovery_dir

abbrev pub state_partition : Partition
state_partition =
    default_partition Constants.state_part_name Constants.state_label Constants.state_size
      Constants.state_dir

abbrev pub persistent_partition : Partition
persistent_partition =
    default_partition Constants.persistent_part_name Constants.persistent_label
      Constants.persistent_size Constants.persistent_dir

-- `NewInstallElementalParitions`: four allocations.
unfoldable pub new_install_elemental_partitions : Pointer → Heap → ElementalPartitions × Heap
unfolding store
new_install_elemental_partitions fresh h = (
  record {
    bios = none;
    efi = none;
    oem = some fresh;
    recovery = some (fresh + 1);
    state = some (fresh + 2);
    persistent = some (fresh + 3);
  },
  store (fresh + 3) persistent_partition (
      store (fresh + 2) state_partition
        (store (fresh + 1) recovery_partition (store fresh oem_partition h))),
)

-- `v1.Image{}`
abbrev pub no_image : Image
no_image = record {
  file = "";
  label = "";
  size = 0;
  fs = "";
  source = none;
  mount_point = "";
  loop_device = "";
}

-- The value of `filepath.Join(dir, "cOS", file)`.
unfoldable pub cos_file : Go → String → String → String
cos_file L dir file = L.join (dir ∷ "cOS" ∷ file ∷ [])

-- The specification for a host with or without EFI and the default installation media.
unfoldable pub install_spec_of : Go → Bool → Bool → ElementalPartitions → InstallSpec
unfolding cos_file
install_spec_of L efi iso_root ep =
    let active_file = cos_file L Constants.state_dir Constants.active_img_file in
    record {
      target = "";
      firmware = if efi then Constants.efi else Constants.bios;
      part_table = Constants.gpt;
      partitions = ep;
      extra_partitions = [];
      no_format = false;
      force = false;
      cloud_init = [];
      iso = "";
      grub_def_entry = "";
      active = record {
        file = active_file;
        label = Constants.active_label;
        size = Constants.img_size;
        fs = Constants.linux_img_fs;
        source = some (if iso_root then new_dir_src Constants.iso_base_tree else new_empty_src);
        mount_point = Constants.active_dir;
        loop_device = "";
      };
      recovery = record no_image {
        source = some (new_file_src active_file);
        fs = Constants.linux_img_fs;
        label = Constants.system_label;
        file = cos_file L Constants.recovery_dir Constants.recovery_img_file;
      };
      passive = record no_image {
        file = cos_file L Constants.state_dir Constants.passive_img_file;
        label = Constants.passive_label;
        source = some (new_file_src active_file);
        fs = Constants.linux_img_fs;
      };
      grub_conf = Constants.grub_conf;
      disable_boot_entry = false;
    }

-- `NewInstallSpec`
unfoldable pub new_install_spec : Go → Outside → Pointer → World → InstallSpec × World
unfolding exists new_install_elemental_partitions install_spec_of
new_install_spec L O fresh w =
    let (efi, w1) = exists O Constants.efi_device w in
    let (iso_root, w2) = exists O Constants.iso_base_tree w1 in
    let (ep, h) = new_install_elemental_partitions fresh w2.heap in
    (install_spec_of L efi iso_root ep, with_heap h w2)

-- The image states that the specifications read; `none` of an image is nil.
abbrev default_image : String → ImageState
default_image label = record {
  source = none;
  source_metadata = none;
  label = label;
  fs = Constants.linux_img_fs;
}

or_default : ImageState → Option ImageState → ImageState
or_default default none = default
or_default default (some s) = s

image_in : Option PartitionState → String → ImageState → ImageState
unfolding or_default get
image_in none name default = default
image_in (some part) name default = or_default default (get name part.images)

part_in : Option InstallState → String → Option PartitionState
unfolding get
part_in none name = none
part_in (some st) name = get name st.partitions

-- `getActivePassiveAndRecoveryState`
unfoldable pub get_active_passive_and_recovery_state :
    Option InstallState → ImageState × ImageState × ImageState
unfolding image_in part_in
get_active_passive_and_recovery_state st =
    let state = part_in st Constants.state_part_name in
    (
      image_in state Constants.active_img_name (default_image Constants.active_label),
      image_in state Constants.passive_img_name (default_image Constants.passive_label),
      image_in (part_in st Constants.recovery_part_name) Constants.recovery_img_name
          (default_image Constants.system_label),
    )
