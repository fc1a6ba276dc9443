-- ===== src/Tests/Layouts.antt =====
-- pkg/types/v1/config.go on the layout of a system with a firmware partition and an extra one.
use mathlib.Core.List.{Perm, Pairwise}
use mathlib.Core.Option.{or_else}
use elemental_cli.Base.{
  ℕ, ◌≡◌, ◌↔◌, refl, String, true, false, none, some, [], ◌∷◌, ◌++◌, arith, map, reverse,
  if◌then◌else◌, ◌==◌, nat_eq, string_eq, ℕ_discrete,
}
use elemental_cli.Base.Text.{str_leb}
use elemental_cli.Base.Sort.{sort}
use elemental_cli.ImageSource.{ImageSource, new_dir_src, new_empty_src}
use elemental_cli.Partitions.{
  Partition, Heap, ElementalPartitions, included, get_by_name_or_label, partitions_by_install_order,
  efi_partition,
}
use elemental_cli.Partitions.Lookup.{best, get_by_name_or_label-best}
use elemental_cli.Partitions.InstallOrder.{
  listed, HasSizes, IsSizedButLast, install_order-perm, install_order-IsSizedButLast,
}
use elemental_cli.Partitions.MountOrder.{
  mountable, mount_point_of, partitions_by_mount_point, MayPrecede, by_mount_point-descending,
  map-by_mount_point, by_mount_point-MayPrecede,
}
use elemental_cli.Spec.{
  Image, InstallSpec, UpgradeSpec, returned, panicked, sanitize_install, sanitize_upgrade,
}
use elemental_cli.Spec.Install.{IsFresh, sanitize_install-install_order}
use elemental_cli.Spec.Upgrade.{IsReady, sanitize_upgrade_iff}

abbrev part : String → String → ℕ → String → Partition
part name label size mount_point = record {
  name = name;
  filesystem_label = label;
  size = size;
  fs = "ext4";
  flags = [];
  mount_point = mount_point;
  path = "";
  disk = "/dev/sda";
}

-- The layout: OEM, recovery, state, persistent, and an extra partition.
abbrev pub heap : Heap
heap p =
    if p == 1
    then part "oem" "COS_OEM" 64 "/run/cos/oem"
    else if p == 2
    then part "recovery" "COS_RECOVERY" 8192 "/run/cos/recovery"
    else if p == 3
    then part "state" "COS_STATE" 15360 "/run/cos/state"
    else if p == 4
    then part "persistent" "COS_PERSISTENT" 0 "/run/cos"
    else part "extra" "EXTRA" 100 ""

abbrev pub layout : ElementalPartitions
layout = record {
  bios = none;
  efi = none;
  oem = some 1;
  recovery = some 2;
  state = some 3;
  persistent = some 4;
}

layout-HasSizes : HasSizes heap layout
unfolding ℕ_discrete
layout-HasSizes = record {
  bios = tt;
  efi = tt;
  oem = omega arith;
  recovery = omega arith;
  state = omega arith;
}

install_order_run : partitions_by_install_order heap layout (5 ∷ []) [] ≡ 1 ∷ 2 ∷ 3 ∷ 5 ∷ 4 ∷ []
unfolding partitions_by_install_order ℕ_discrete
install_order_run = refl

mount_order_run : partitions_by_mount_point heap layout false (2 ∷ []) ≡ 4 ∷ 1 ∷ 3 ∷ []
unfolding partitions_by_mount_point ℕ_discrete string_eq
mount_order_run = refl

install_order-perm_example :
    Perm (partitions_by_install_order heap layout (5 ∷ []) []) (listed layout [] ++ (5 ∷ []))
unfolding included ℕ_discrete
install_order-perm_example = install_order-perm heap layout (5 ∷ []) [] (omega arith)

install_order-IsSizedButLast_example :
    IsSizedButLast heap (partitions_by_install_order heap layout (5 ∷ []) (1 ∷ []))
install_order-IsSizedButLast_example =
    install_order-IsSizedButLast heap layout (5 ∷ []) (1 ∷ []) layout-HasSizes

by_mount_point-descending_example :
    partitions_by_mount_point heap layout true (2 ∷ [])
    ≡ reverse (partitions_by_mount_point heap layout false (2 ∷ []))
by_mount_point-descending_example = by_mount_point-descending heap layout (2 ∷ [])

map-by_mount_point_example :
    map (mount_point_of heap) (partitions_by_mount_point heap layout false [])
    ≡ sort str_leb
        (map (mount_point_of heap) (mountable heap (partitions_by_install_order heap layout [] [])))
map-by_mount_point_example = map-by_mount_point heap layout []

by_mount_point-MayPrecede_example :
    Pairwise (MayPrecede heap) (partitions_by_mount_point heap layout false [])
by_mount_point-MayPrecede_example = by_mount_point-MayPrecede heap layout []

get_by_name_or_label-best_example :
    get_by_name_or_label heap (5 ∷ 3 ∷ 4 ∷ []) "none" "COS_STATE"
    ≡ or_else
        (best heap (λ p. (heap p).name == "none") (5 ∷ 3 ∷ 4 ∷ []))
        (best heap (λ p. (heap p).filesystem_label == "COS_STATE") (5 ∷ 3 ∷ 4 ∷ []))
get_by_name_or_label-best_example =
    get_by_name_or_label-best heap (5 ∷ 3 ∷ 4 ∷ []) "none" "COS_STATE"

abbrev pub image : ImageSource → Image
image src = record {
  file = "/run/cos/state/active.img";
  label = "COS_ACTIVE";
  size = 3072;
  fs = "ext2";
  source = some src;
  mount_point = "/run/cos/active";
  loop_device = "";
}

abbrev pub install_spec : InstallSpec
install_spec = record {
  target = "/dev/sda";
  firmware = "efi";
  part_table = "gpt";
  partitions = layout;
  extra_partitions = 5 ∷ [];
  no_format = false;
  force = false;
  cloud_init = [];
  iso = "";
  grub_def_entry = "";
  active = image (new_dir_src "/");
  recovery = image new_empty_src;
  passive = image new_empty_src;
  grub_conf = "/etc/cos/grub.cfg";
  disable_boot_entry = false;
}

install_spec-IsFresh : IsFresh 0 install_spec
install_spec-IsFresh = record {
  persistent = omega arith;
  oem = omega arith;
  recovery = omega arith;
  state = omega arith;
  extra = (omega arith, tt);
}

abbrev sanitized : InstallSpec
sanitized = record install_spec { partitions = record layout { efi = some 0 } }

abbrev with_efi : Heap
with_efi p = if 0 == p then efi_partition else heap p

install_spec-accepted : sanitize_install 0 install_spec heap ≡ returned none (sanitized, with_efi)
unfolding sanitize_install ℕ_discrete string_eq
install_spec-accepted = refl

sanitize_install-install_order_example :
    Perm
      (partitions_by_install_order with_efi sanitized.partitions (5 ∷ []) [])
      (listed sanitized.partitions [] ++ (5 ∷ []))
    × IsSizedButLast with_efi
        (partitions_by_install_order with_efi sanitized.partitions (5 ∷ []) [])
unfolding ℕ_discrete
sanitize_install-install_order_example =
    sanitize_install-install_order 0 install_spec heap sanitized with_efi install_spec-accepted
      install_spec-IsFresh (omega arith) (omega arith) (omega arith)

-- An extra partition of size 0 and no persistent partition: the method dereferences nil.
no_persistent :
    sanitize_install 0
      (record install_spec {
        partitions = record layout { persistent = none };
        extra_partitions = 4 ∷ [];
      })
      heap
    ≡ panicked
unfolding sanitize_install ℕ_discrete string_eq
no_persistent = refl

abbrev pub upgrade_spec : UpgradeSpec
upgrade_spec = record {
  recovery_upgrade = false;
  active = image (new_dir_src "/");
  recovery = image new_empty_src;
  grub_def_entry = "";
  passive = image new_empty_src;
  partitions = layout;
  state = none;
}

sanitize_upgrade_iff_example :
    ((u : UpgradeSpec) × (sanitize_upgrade upgrade_spec heap ≡ returned none u))
    ↔ IsReady heap (some 3) (some (new_dir_src "/"))
sanitize_upgrade_iff_example = sanitize_upgrade_iff upgrade_spec heap
