-- ===== src/Tests/Tries.antt =====
-- A device that is listed from the second try on.
use elemental_cli.Base.{
  ℕ, zero, suc, ◌≡◌, refl, false, none, [], ◌∷◌, ◌<◌, arith, string_eq, ℕ_discrete, if◌then◌else◌,
  leb, length,
}
use elemental_cli.Machine.{Outside, ok}
use elemental_cli.Partitions.{Partition}
use elemental_cli.Devices.{find_label, get_full_device_by_label}
use elemental_cli.Devices.Tries.{after, get_full_device_by_label-after}
use elemental_cli.Tests.Roots.{start}

abbrev state : Partition
state = record {
  name = "state";
  filesystem_label = "COS_STATE";
  size = 64;
  fs = "ext4";
  flags = [];
  mount_point = "";
  path = "/dev/sda2";
  disk = "/dev/sda";
}

abbrev slow : Outside
slow cs c = record {
  out = "";
  flag = false;
  err = none;
  partitions = if leb 4 (length cs) then state ∷ [] else [];
}

missing :
    (i : ℕ) → i < 1 → (find_label slow "COS_STATE" (after slow "COS_STATE" i start)).0 ≡ ok none
unfolding find_label string_eq ℕ_discrete
missing zero h = refl
missing (suc i) h = absurd (omega arith)

get_full_device_by_label-after_example :
    get_full_device_by_label slow 5 "COS_STATE" start ≡ (ok state, after slow "COS_STATE" 2 start)
unfolding find_label string_eq ℕ_discrete
get_full_device_by_label-after_example =
    get_full_device_by_label-after slow "COS_STATE" 5 1 start (omega arith) missing refl
