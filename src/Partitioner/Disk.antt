-- ===== src/Partitioner/Disk.antt =====
-- pkg/partitioner/disk.go: the partitions of a disk, and those that are added to it.
use elemental_cli.Base.{
  ℕ, zero, suc, ◌+◌, ◌*◌, ◌/◌, ◌%◌, String, ◌<>◌, Bool, true, false, ◌&&◌, ◌||◌, Option, none, some,
  List, [], ◌∷◌, ◌==◌, nat_eq, string_eq, if◌then◌else◌, get_last?, ltb, leb, length,
}
use elemental_cli.Errors.{Err, single, plain}
use elemental_cli.Golang.{Go, decimal}
use elemental_cli.Machine.{
  Call, Outside, World, Proc, M, Result, ok, fail, panicked, output, perform, ask, throw, errorf,
  pure, ◌>>=◌, ◌>>◌, lift,
}
use elemental_cli.Partitioner.{
  uint_size, add_uint, sub_uint, Part, PartedCall, new_parted_call, set_partition_table_label,
  create_partition, delete_partition, set_partition_flag, wipe_table, write_changes, print,
  get_sector_size, get_last_sector, get_partition_table_label, get_partitions, apply_mkfs,
}

-- Sizes and sectors are `uint`.
pub record Disk : Type 0 where
  pub device : String
  pub sector_s : ℕ
  pub last_s : ℕ
  pub parts : List Part
  pub label : String

-- `NewDisk` with a device and the options that set the interfaces.
abbrev pub new_disk : String → Disk
new_disk device = record { device = device; sector_s = 0; last_s = 0; parts = []; label = "" }

-- `MiBToSectors` with a sector size that is not 0.
unfoldable pub mib_to_sectors : ℕ → ℕ → ℕ
mib_to_sectors size sector = size * 1048576 % uint_size / sector

-- The sectors behind a partition.
unfoldable pub space_after : Disk → Part → ℕ
space_after d p = sub_uint d.last_s (sub_uint (add_uint p.start p.size) 1)

-- The sectors behind the first MiB.
unfoldable pub space_after_first : Disk → ℕ
space_after_first d = sub_uint d.last_s (sub_uint (1048576 / d.sector_s) 1)

-- `computeFreeSpace`, with a sector size that is not 0.
unfoldable pub compute_free_space : Disk → ℕ
unfolding space_after space_after_first
compute_free_space d = elim (get_last? d.parts) [
  | none ↦ space_after_first d
  | some p ↦ space_after d p
]

-- `dev.parts[len(dev.parts)-2]`, if there is one.
abbrev pub second_last? : List Part → Option Part
second_last? [] = none
second_last? (p ∷ []) = none
second_last? (p ∷ q ∷ []) = some p
second_last? (p ∷ q ∷ r ∷ ps) = second_last? (q ∷ r ∷ ps)

-- `computeFreeSpaceWithoutLast`, with a sector size that is not 0.
unfoldable pub compute_free_space_without_last : Disk → ℕ
unfolding space_after space_after_first
compute_free_space_without_last d = elim (second_last? d.parts) [
  | none ↦ space_after_first d
  | some p ↦ space_after d p
]

-- The number of the last partition, and the first sector behind it.
unfoldable pub last_number : Disk → ℕ
last_number d = elim (get_last? d.parts) [ none ↦ 0 | some p ↦ p.number ]

unfoldable pub next_start : Disk → ℕ
next_start d = elim (get_last? d.parts) [
  | none ↦ 1048576 / d.sector_s
  | some p ↦ add_uint p.start p.size
]

-- What `AddPartition` creates on a disk that is loaded. A sector size of 0 panics.
unfoldable pub plan_partition : Disk → ℕ → String → String → Result Part
unfolding mib_to_sectors compute_free_space last_number next_start
plan_partition d size file_system label =
    let sectors = mib_to_sectors size d.sector_s in
    if d.sector_s == 0
    then panicked
    else if ltb (compute_free_space d) sectors
    then fail (single (plain "not enough free space in disk"))
    else ok (record {
      number = last_number d + 1;
      start = next_start d;
      size = sectors;
      label = label;
      file_system = file_system;
    })

-- What `ExpandLastPartition` replaces the last partition by, on a disk that is loaded.
unfoldable pub plan_expansion : Disk → ℕ → Result Part
unfolding mib_to_sectors compute_free_space_without_last
plan_expansion d size = elim (get_last? d.parts) [
  | none ↦ fail (single (plain "There is no partition to expand"))
  | some p ↦
      let sectors = mib_to_sectors size d.sector_s in
      if size == 0
      then ok (record p { size = 0 })
      else if d.sector_s == 0
      then panicked
      else if ltb sectors p.size
      then fail (single (plain "Layout plugin can only expand a partition, not shrink it"))
      else if ltb (compute_free_space_without_last d) sectors
      then fail (single (plain "not enough free space for to expand last partition"))
      else ok (record p { size = sectors })
]

abbrev return : {A : Type 0} → Result A → M A
return r w = (r, w)

with_flags : ℕ → List String → PartedCall → PartedCall
with_flags num [] pc = pc
with_flags num (f ∷ fs) pc = with_flags num fs (set_partition_flag num f true pc)

module _ (L : Go) (O : Outside) where
  -- `WriteChanges` of a call that is not used afterwards.
  written : PartedCall → M String
  unfolding write_changes
  written pc w = let (r, _, w') = write_changes L O pc w in (r, w')

  -- `Exists`: the disk, with the target of its device if that is a link, if it is there.
  unfoldable pub disk_exists : Disk → World → Option Disk × World
  unfolding ask
  disk_exists d w =
      let (r, w') = ask O (Call.fs "Stat" (d.device ∷ [])) w in
      elim r.err [
        | some _ ↦ (none, w')
        | none ↦
            let (s, w'') = ask O (Call.fs "Readlink" (d.device ∷ [])) w' in
            let target : Option Disk = elim s.err [
              | some _ ↦ none
              | none ↦ some (record d { device = s.out })
            ] in
            if r.flag then (target, w'') else (some d, w')
      ]

  -- The output of parted, with the GPT headers moved to the end of the disk if it warns of them.
  unfoldable pub fixed_print : Disk → M String
  unfolding print perform
  fixed_print d = print L O d.device >>= λ out.
      if L.matches "Not all of the space available" out
      then lift (perform O (Call.run "sgdisk" ("-e" ∷ d.device ∷ []))) >> print L O d.device
      else pure out

  -- `Reload`; a disk that could not be reloaded is as before.
  unfoldable pub reload : Disk → M Disk
  unfolding fixed_print get_sector_size get_last_sector get_partition_table_label get_partitions
  reload d = fixed_print d >>= λ out. return (get_sector_size L out) >>= λ sector_s.
      return (get_last_sector L out) >>= λ last_s.
      return (get_partition_table_label L out) >>= λ label. pure (record d {
        sector_s = sector_s;
        last_s = last_s;
        parts = get_partitions L out;
        label = label;
      })

  -- The partition table is loaded if it is not yet.
  unfoldable pub loaded : Disk → M Disk
  unfolding reload
  loaded d = if d.sector_s == 0 then reload d else pure d

  -- `GetFreeSpace`, with the disk.
  unfoldable pub get_free_space : Disk → M (ℕ × Disk)
  unfolding loaded compute_free_space
  get_free_space d = loaded d >>= λ d'.
      if d'.sector_s == 0 && length d'.parts == 0
      then return panicked
      else pure (compute_free_space d', d')

  -- `NewPartitionTable`, with the disk.
  unfoldable pub new_partition_table : Disk → String → M (String × Disk)
  unfolding written reload new_parted_call
  new_partition_table d label =
      if L.matches "msdos|gpt" label
      then (written (wipe_table true (set_partition_table_label label (new_parted_call d.device)))
          >>= λ out. reload d >>= λ d'. pure (out, d'))
      else errorf "Invalid partition table type, only msdos and gpt are supported"

  -- `AddPartition`: the number of the partition, and the disk. No caller uses a disk after an error.
  unfoldable pub add_partition : Disk → ℕ → String → String → List String → M (ℕ × Disk)
  unfolding loaded plan_partition with_flags written reload new_parted_call
  add_partition d size file_system label flags = loaded d >>= λ d.
      return (plan_partition d size file_system label) >>= λ part.
      written (
        with_flags part.number flags
          (create_partition part (set_partition_table_label d.label (new_parted_call d.device))))
      >>= λ _. reload d >>= λ d'. pure (part.number, d')

  -- The loop of `FindPartitionDevice`, with so many tries.
  unfoldable pub find_device : ℕ → String → M String
  unfolding ask perform
  find_device zero device w = errorf ("could not find partition device '" <> device <> "'") w
  find_device (suc tries) device w =
      let w' = (perform O (Call.run "udevadm" ("settle" ∷ [])) w).1 in
      let (r, w'') = ask O (Call.fs "Stat" (device ∷ [])) w' in
      let rest = find_device tries device w'' in
      elim r.err [ none ↦ (ok device, w'') | some _ ↦ rest ]

  unfoldable pub find_partition_device : Disk → ℕ → M String
  unfolding find_device decimal
  find_partition_device d part_num =
      if L.matches ".*\\d+$" d.device
      then find_device 11 (d.device <> "p" <> decimal part_num)
      else find_device 11 (d.device <> decimal part_num)

  -- `FormatDevice`
  unfoldable pub format_device : String → String → String → List String → Proc
  unfolding apply_mkfs
  format_device device file_system label opts w =
      let (r, w') = apply_mkfs L O file_system label opts device w in
      (elim r [ ok _ ↦ none | fail e ↦ some e | panicked ↦ none ], w')

  -- `FormatPartition`
  unfoldable pub format_partition : Disk → ℕ → String → String → M String
  unfolding find_partition_device apply_mkfs
  format_partition d part_num file_system label =
      find_partition_device d part_num >>= λ device. apply_mkfs L O file_system label [] device

  -- `WipeFsOnPartition`
  unfoldable pub wipe_fs_on_partition : String → Proc
  unfolding perform
  wipe_fs_on_partition device = perform O (Call.run "wipefs" ("--all" ∷ device ∷ []))

  -- `CheckDiskFreeSpaceMiB`, with a sector size that is not 0.
  unfoldable pub check_disk_free_space_mib : Disk → ℕ → World → Bool × World
  unfolding get_free_space mib_to_sectors
  check_disk_free_space_mib d min_space w =
      let (r, w') = get_free_space d w in
      (
        elim r [
          | ok (free, d') ↦ leb (mib_to_sectors min_space d'.sector_s) free
          | fail _ ↦ false
          | panicked ↦ false
        ],
        w',
      )

  -- The tools that grow a file system of the ext family.
  expand_ext : String → M String
  unfolding output
  expand_ext device = output O (Call.run "e2fsck" ("-fy" ∷ device ∷ [])) >>= λ _.
      output O (Call.run "resize2fs" (device ∷ [])) >>= λ _. pure ""

  -- The end of the case of xfs, after the growing: it unmounts, and the error of that counts first.
  grown : String → Err → M String
  unfolding output
  grown dir grow_err = output O (Call.run "umount" (dir ∷ [])) >>= λ out. elim grow_err [
    | none ↦ pure ""
    | some e ↦ throw e
  ]

  mounted_xfs : String → String → M String
  unfolding output perform grown
  mounted_xfs device dir = output O (Call.run "mount" ("-t" ∷ "xfs" ∷ device ∷ dir ∷ [])) >>= λ _.
      λ w. let (e, w') = perform O (Call.run "xfs_growfs" (dir ∷ [])) w in grown dir e w'

  -- xfs grows while it is mounted, on a temporary directory that is removed in any case.
  expand_xfs : String → M String
  unfolding ask perform mounted_xfs
  expand_xfs device w =
      let (r, w') = ask O (Call.library "utils.TempDir" ("" ∷ "partitioner" ∷ [])) w in
      let res : Result String × World = elim r.err [
        | none ↦ mounted_xfs device r.out w'
        | some e ↦ (fail e, w')
      ] in
      (res.0, (perform O (Call.fs "RemoveAll" (r.out ∷ [])) res.1).1)

  -- `expandFilesystem`
  unfoldable pub expand_filesystem : String → M String
  unfolding output expand_ext expand_xfs
  expand_filesystem device =
      output O (Call.library "utils.GetPartitionFS" (device ∷ [])) >>= λ found.
      let fs = L.trim_space found in
      if fs == "ext2" || fs == "ext3" || fs == "ext4"
      then expand_ext device
      else if fs == "xfs"
      then expand_xfs device
      else errorf "could not find filesystem, not resizing the filesystem"

  -- `ExpandLastPartition`, with the disk.
  unfoldable pub expand_last_partition : Disk → ℕ → M (String × Disk)
  unfolding loaded plan_expansion written reload find_partition_device expand_filesystem
      new_parted_call
  expand_last_partition d size = loaded d >>= λ d. return (plan_expansion d size) >>= λ part.
      written (
        create_partition part (
          delete_partition part.number
            (set_partition_table_label d.label (new_parted_call d.device))))
      >>= λ _. reload d >>= λ d'. find_partition_device d' part.number >>= λ device.
          expand_filesystem device >>= λ out. pure (out, d')
