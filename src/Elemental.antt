-- ===== src/Elemental.antt =====
-- pkg/elemental/elemental.go: the partitions of a disk are created, mounted and unmounted. The images are
-- in Elemental/Images.
pub mod Images
pub mod Deploy
use elemental_cli.Base.{
  ℕ, zero, suc, String, ◌<>◌, Bool, true, false, not, Option, none, some, List, [], ◌∷◌, ◌++◌, ◌==◌,
  string_eq, if◌then◌else◌,
}
use elemental_cli.Errors.{Err, single, plain}
use elemental_cli.Golang.{Go}
use elemental_cli.Partitions.{
  Partition, Pointer, Heap, PartitionList, ElementalPartitions, store, is_mountable,
  partitions_by_install_order,
}
use elemental_cli.Machine.{
  Call, Outside, World, Proc, M, Result, ok, fail, panicked, ask, perform, output, pure, errorf,
  throw, lift, ◌>>=◌, ◌>>◌, ◌then◌, return_err, with_heap,
}
use elemental_cli.Chroot.{mkdir_all}
use elemental_cli.Spec.{InstallSpec}
use elemental_cli.Partitioner.Disk.{
  Disk, new_disk, disk_exists, new_partition_table, add_partition, find_partition_device,
  format_device, wipe_fs_on_partition,
}
use elemental_cli.Devices.{get_device_by_label, is_mounted}

-- `part.Path = path`
unfoldable pub set_path : Pointer → String → World → World
unfolding store
set_path p path w = with_heap (store p (record (w.heap p) { path = path }) w.heap) w

module _ (L : Go) (O : Outside) where
  -- `FormatPartition`
  unfoldable pub format_existing : Pointer → List String → Proc
  unfolding format_device
  format_existing p opts w =
      let part = w.heap p in format_device L O part.path part.fs part.filesystem_label opts w

  -- A new partition gets a file system, or loses the traces of one if it has none.
  format_new : String → Partition → Proc
  unfolding format_device wipe_fs_on_partition
  format_new device part =
      if part.fs == ""
      then wipe_fs_on_partition L O device
      else format_device L O device part.fs part.filesystem_label []

  -- `createAndFormatPartition`, with the disk.
  unfoldable pub create_and_format_partition : Disk → Pointer → M Disk
  unfolding add_partition find_partition_device format_new set_path
  create_and_format_partition disk p w =
      let part = w.heap p in
      (add_partition L O disk part.size part.fs part.name part.flags >>= λ (num, disk').
      find_partition_device L O disk' num >>= λ device.
      lift (format_new device part) >>= λ _. λ w'. (ok disk', set_path p device w'))
        w

  -- `createPartitions`
  unfoldable pub create_partitions : Disk → PartitionList → M Disk
  unfolding create_and_format_partition
  create_partitions disk [] = pure disk
  create_partitions disk (p ∷ ps) =
      create_and_format_partition disk p >>= λ disk'. create_partitions disk' ps

  partition_disk : InstallSpec → Option Disk → M Disk
  unfolding new_partition_table create_partitions partitions_by_install_order
  partition_disk i none w = errorf ("disk " <> i.target <> " does not exist") w
  partition_disk i (some disk) w =
      (new_partition_table L O disk i.part_table >>= λ (_, disk').
      create_partitions disk'
        (partitions_by_install_order w.heap i.partitions i.extra_partitions []))
        w

  -- `PartitionAndFormatDevice`
  unfoldable pub partition_and_format_device : InstallSpec → M Disk
  unfolding partition_disk disk_exists
  partition_and_format_device i w =
      let (disk, w') = disk_exists L O (new_disk i.target) w in partition_disk i disk w'

module _ (O : Outside) where
  -- The device of a partition is looked up by its label if its path is not known: 10 attempts.
  unfoldable ensure_path : Pointer → Proc
  unfolding get_device_by_label set_path
  ensure_path p w =
      let (r, w') = get_device_by_label O 10 (w.heap p).filesystem_label w in
      if (w.heap p).path == ""
      then elim r [
        | ok device ↦ (none, set_path p device w')
        | fail e ↦ (some e, w')
        | panicked ↦ (none, w')
      ]
      else (none, w)

  unfoldable mount_path : Pointer → List String → Proc
  unfolding perform
  mount_path p opts w = perform O (Call.mount (w.heap p).path (w.heap p).mount_point "auto" opts) w

  -- `MountPartition`
  unfoldable pub mount_partition : Pointer → List String → Proc
  unfolding mkdir_all ensure_path mount_path
  mount_partition p opts w =
      (mkdir_all O (w.heap p).mount_point then ensure_path p then mount_path p opts) w

  -- `UnmountPartition`
  unfoldable pub unmount_partition : Pointer → Proc
  unfolding is_mounted perform
  unmount_partition p w =
      let (mnt, _, w') = is_mounted O (some p) w in
      if mnt then perform O (Call.unmount (w.heap p).mount_point) w' else (none, w')

  -- The loop of `UnmountPartitions`: whether one could not be unmounted.
  unfoldable pub unmount_each : PartitionList → World → Bool × World
  unfolding unmount_partition
  unmount_each [] w = (false, w)
  unmount_each (p ∷ ps) w =
      let (e, w') = unmount_partition p w in
      let (failure, w'') = unmount_each ps w' in
      let rest = unmount_each ps w in
      if is_mountable w.heap p then (elim e [ none ↦ failure | some _ ↦ true ], w'') else rest

  -- `UnmountPartitions`
  unfoldable pub unmount_partitions : PartitionList → Proc
  unfolding unmount_each
  unmount_partitions ps w =
      let (failure, w') = unmount_each ps w in
      (if failure then some (single (plain "Failed to unmount")) else none, w')

  -- The loop of `MountPartitions`
  unfoldable pub mount_each : PartitionList → Proc
  unfolding mount_partition
  mount_each [] w = (none, w)
  mount_each (p ∷ ps) w =
      let (e, w') = mount_partition p ("rw" ∷ []) w in
      let rest = mount_each ps w' in
      let skipped = mount_each ps w in
      if is_mountable w.heap p then elim e [ none ↦ rest | some x ↦ (some x, w') ] else skipped

  -- `MountPartitions`: if one fails, all that are mounted are unmounted.
  unfoldable pub mount_partitions : PartitionList → Proc
  unfolding mount_each unmount_partitions
  mount_partitions ps w =
      let (e, w') = mount_each ps w in
      elim e [ none ↦ (none, w') | some x ↦ (some x, (unmount_partitions ps w').1) ]

  -- `MountRWPartition`: what undoes it.
  unfoldable pub mount_rw_partition : Option Pointer → M Proc
  unfolding is_mounted mount_partition unmount_partition
  mount_rw_partition none w = (panicked, w)
  mount_rw_partition (some p) w =
      let (mnt, _, w') = is_mounted O (some p) w in
      if mnt
      then (lift (mount_partition p ("remount" ∷ "rw" ∷ []))
            >> pure (mount_partition p ("remount" ∷ "ro" ∷ [])))
          w'
      else (lift (mount_partition p ("rw" ∷ [])) >> pure (unmount_partition p)) w'
