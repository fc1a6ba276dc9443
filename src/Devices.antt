-- ===== src/Devices.antt =====
-- The functions of pkg/utils/common.go on devices, files and the system.
pub mod Tries
use elemental_cli.Base.{
  ℕ, zero, suc, String, ◌<>◌, Bool, true, false, not, Option, none, some, List, [], ◌∷◌, ◌++◌, ◌==◌,
  string_eq, if◌then◌else◌, get_elem?,
}
use elemental_cli.Errors.{Err, single, plain}
use elemental_cli.Golang.{Go}
use elemental_cli.Partitions.{Partition, Pointer, Heap, get_by_label}
use elemental_cli.Machine.{
  Call, Outside, World, Proc, M, ok, fail, panicked, ask, perform, pure, errorf, ◌>>=◌, ◌then◌,
  return_err,
}
use elemental_cli.Chroot.{mkdir_all}

-- A list of partitions that a call returns, as pointers into a heap of its own.
abbrev no_partition : Partition
no_partition = record {
  name = "";
  filesystem_label = "";
  size = 0;
  fs = "";
  flags = [];
  mount_point = "";
  path = "";
  disk = "";
}

element : Option Partition → Partition
element none = no_partition
element (some p) = p

heap_of : List Partition → Heap
unfolding element
heap_of ps i = element (get_elem? ps i)

indices : ℕ → List Partition → List Pointer
indices i [] = []
indices i (p ∷ ps) = i ∷ indices (suc i) ps

-- `parts.GetByLabel(label)` on that list.
unfoldable pub partition_by_label : List Partition → String → Option Partition
unfolding heap_of indices get_by_label
partition_by_label ps label = elim (get_by_label (heap_of ps) (indices 0 ps) label) [
  | none ↦ none
  | some i ↦ some (heap_of ps i)
]

module _ (O : Outside) where
  -- One try of `GetFullDeviceByLabel`.
  unfoldable pub find_label : String → M (Option Partition)
  unfolding ask perform partition_by_label
  find_label label w =
      let w' = (perform O (Call.run "udevadm" ("settle" ∷ [])) w).1 in
      let (r, w'') = ask O Call.all_partitions w' in
      elim r.err [
        | none ↦ (ok (partition_by_label r.partitions label), w'')
        | some e ↦ (fail e, w'')
      ]

  -- `GetFullDeviceByLabel`, with so many attempts.
  unfoldable pub get_full_device_by_label : ℕ → String → M Partition
  unfolding find_label
  get_full_device_by_label zero label w = errorf "no device found" w
  get_full_device_by_label (suc tries) label w =
      let (r, w') = find_label label w in
      let rest = get_full_device_by_label tries label w' in
      elim r [
        | ok none ↦ rest
        | ok (some p) ↦ (ok p, w')
        | fail e ↦ (fail e, w')
        | panicked ↦ (panicked, w')
      ]

  -- `GetDeviceByLabel`
  unfoldable pub get_device_by_label : ℕ → String → M String
  unfolding get_full_device_by_label
  get_device_by_label attempts label = get_full_device_by_label attempts label >>= λ p. pure p.path

  -- `IsMounted`: of a partition that is nil, it is false with an error.
  unfoldable pub is_mounted : Option Pointer → World → Bool × Err × World
  unfolding ask
  is_mounted none w = (false, some (single (plain "nil partition")), w)
  is_mounted (some p) w =
      let (r, w') = ask O (Call.is_likely_not_mount_point (w.heap p).mount_point) w in
      if (w.heap p).mount_point == ""
      then (false, none, w)
      else elim r.err [ none ↦ (not r.flag, none, w') | some e ↦ (false, some e, w') ]

  -- `exists, _ := Exists(fs, path)`
  unfoldable pub exists : String → World → Bool × World
  unfolding ask
  exists path w =
      let (r, w') = ask O (Call.fs "Stat" (path ∷ [])) w in
      (elim r.err [ none ↦ true | some _ ↦ false ], w')

  -- `dir, _ := IsDir(fs, path)`
  unfoldable pub is_dir_path : String → World → Bool × World
  unfolding ask
  is_dir_path path w =
      let (r, w') = ask O (Call.fs "Stat" (path ∷ [])) w in
      (elim r.err [ none ↦ r.flag | some _ ↦ false ], w')

  remove_all : String → Proc
  unfolding perform
  remove_all path = perform O (Call.fs "RemoveAll" (path ∷ []))

  -- The loop of `ConcatFiles` on the sources.
  copy_sources : String → List String → Proc
  unfolding perform
  copy_sources target [] = return_err none
  copy_sources target (s ∷ ss) =
      perform O (Call.fs "Open" (s ∷ []))
      then perform O (Call.library "io.Copy" (target ∷ s ∷ []))
      then perform O (Call.fs "File.Close" (s ∷ []))
      then copy_sources target ss

  -- What `ConcatFiles` defers: an error removes the target, else the target is closed.
  finish_copy : String → Err × World → Err × World
  unfolding perform
  finish_copy target (none, w) = perform O (Call.fs "File.Close" (target ∷ [])) w
  finish_copy target (some e, w) = (some e, (perform O (Call.fs "Remove" (target ∷ [])) w).1)

  copy_to : List String → String → String → Proc
  unfolding copy_sources finish_copy perform ask
  copy_to sources source target w =
      let (r, w') = ask O (Call.fs "Stat" (source ∷ [])) w in
      (return_err r.err then perform O (Call.fs "Create" (target ∷ [])) then λ w''.
      finish_copy target
        ((copy_sources target sources then perform O (Call.fs "Chmod" (target ∷ r.out ∷ []))) w''))
        w'

  -- `ConcatFiles`
  unfoldable pub concat_files : Go → List String → String → Proc
  unfolding copy_to is_dir_path
  concat_files L [] target w = (some (single (plain "Empty sources list")), w)
  concat_files L (s ∷ ss) target w =
      let (dir, w') = is_dir_path target w in
      copy_to (s ∷ ss) s (if dir then L.join (target ∷ L.base s ∷ []) else target) w'

  -- `CopyFile`
  unfoldable pub copy_file : Go → String → String → Proc
  unfolding concat_files
  copy_file L source target = concat_files L (source ∷ []) target

  make_dirs : Go → String → List String → Proc
  unfolding mkdir_all
  make_dirs L target [] = return_err none
  make_dirs L target (d ∷ ds) = mkdir_all O (L.join (target ∷ d ∷ [])) then make_dirs L target ds

  -- `CreateDirStructure`; the modes of the directories are left out.
  unfoldable pub create_dir_structure : Go → String → Proc
  unfolding make_dirs mkdir_all perform
  create_dir_structure L target =
      make_dirs L target ("/run" ∷ "/dev" ∷ "/boot" ∷ "/usr/local" ∷ "/oem" ∷ [])
      then make_dirs L target ("/proc" ∷ "/sys" ∷ [])
      then mkdir_all O (L.join (target ∷ "/tmp" ∷ []))
      then perform O (Call.fs "Chmod" (L.join (target ∷ "/tmp" ∷ []) ∷ "01777" ∷ []))

  -- `if s, err := fs.RawPath(path); err == nil { path = s }`
  raw_path : String → World → String × World
  unfolding ask
  raw_path path w =
      let (r, w') = ask O (Call.fs "RawPath" (path ∷ [])) w in
      (elim r.err [ none ↦ r.out | some _ ↦ path ], w')

  with_slash : Go → String → String
  with_slash L path = if L.has_suffix path "/" then path else path <> "/"

  -- `SyncData`
  unfoldable pub sync_data : Go → String → String → List String → Proc
  unfolding raw_path with_slash perform
  sync_data L source target excludes w =
      let (s, w') = raw_path source w in
      let (t, w'') = raw_path target w' in
      perform O (Call.library "rsync" (with_slash L s ∷ with_slash L t ∷ excludes)) w''

  -- `Reboot` and `Shutdown`
  unfoldable pub reboot : Proc
  unfolding perform
  reboot = perform O (Call.run "reboot" ("-f" ∷ []))

  unfoldable pub shutdown : Proc
  unfolding perform
  shutdown = perform O (Call.run "poweroff" ("-f" ∷ []))

  split_all : Go → List String → List String
  split_all L [] = []
  split_all L (o ∷ os) = L.split o " " ++ split_all L os

  -- `CreateSquashFS`
  unfoldable pub create_squash_fs : Go → String → String → List String → Proc
  unfolding split_all perform
  create_squash_fs L source destination options =
      perform O (Call.run "mksquashfs" (source ∷ destination ∷ split_all L options))

  -- `BootedFrom`
  unfoldable pub booted_from : Go → String → World → Bool × World
  unfolding ask
  booted_from L label w =
      let (r, w') = ask O (Call.run "cat" ("/proc/cmdline" ∷ [])) w in
      (L.contains_text r.out label, w')
