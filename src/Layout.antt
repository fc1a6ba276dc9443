-- ===== src/Layout.antt =====
-- pkg/cloudinit/layout_plugin.go: the partitions that a cloud-init stage adds to a disk.
pub mod Untouched
use elemental_cli.Base.{
  ℕ, String, ◌<>◌, Bool, Option, none, some, List, [], ◌∷◌, ◌==◌, string_eq, if◌then◌else◌,
}
use elemental_cli.Constants
use elemental_cli.Errors.{Error, single, plain, Multierror, message}
use elemental_cli.Golang.{Go}
use elemental_cli.Machine.{
  Outside, World, M, Result, ok, fail, panicked, errorf, throw, pure, ◌>>=◌,
}
use elemental_cli.Devices.{get_full_device_by_label}
use elemental_cli.Partitioner.Disk.{
  Disk, new_disk, disk_exists, expand_last_partition, add_partition, format_partition,
}

-- The fields of yip's `schema.Layout` that the code reads; a size is in MiB.
pub record LayoutPart : Type 0 where
  pub fs_label : String
  pub size : ℕ
  pub p_label : String
  pub file_system : String

pub record LayoutDevice : Type 0 where
  pub label : String
  pub path : String

pub record Layout : Type 0 where
  pub device : Option LayoutDevice
  pub expand : Option ℕ
  pub parts : List LayoutPart

-- `fmt.Errorf` with the text of an error.
wrapped : {A : Type 0} → Multierror → String → M A → M A
unfolding message
wrapped E text m w =
    let (r, w') = m w in
    elim r [
      | ok a ↦ (ok a, w')
      | fail e ↦ (fail (single (plain (text <> message E e))), w')
      | panicked ↦ (panicked, w')
    ]

module _ (E : Multierror) (L : Go) (O : Outside) where
  file_system_of : LayoutPart → String
  file_system_of part = if part.file_system == "" then Constants.linux_fs else part.file_system

  -- A partition of the layout that is not there, and the disk with it.
  create_part : Disk → LayoutPart → M Disk
  unfolding wrapped file_system_of add_partition format_partition
  create_part dev part =
      wrapped E "Failed creating partitions: "
        (add_partition L O dev part.size (file_system_of part) part.p_label [])
      >>= λ added.
          wrapped E "Formatting partition failed: "
            (format_partition L O added.1 added.0 (file_system_of part) part.fs_label)
          >>= λ _. pure added.1

  -- The loop on the partitions.
  unfoldable pub add_parts : Disk → List LayoutPart → M (Unit {0})
  unfolding create_part get_full_device_by_label
  add_parts dev [] w = pure tt w
  add_parts dev (part ∷ parts) w =
      let (r, w') = get_full_device_by_label O 1 part.fs_label w in
      elim r [
        | ok _ ↦ add_parts dev parts w'
        | fail _ ↦ (create_part dev part >>= λ dev'. add_parts dev' parts) w'
        | panicked ↦ (panicked, w')
      ]

  -- `s.Layout.Expand`: the disk after the last partition has been extended, if it is to be.
  unfoldable pub expanded : Disk → Option ℕ → M Disk
  unfolding expand_last_partition
  expanded dev none = pure dev
  expanded dev (some size) = expand_last_partition L O dev size >>= λ r. pure r.1

  -- The disk that a device names, by the label of one of its partitions or by its path; it may name
  -- none.
  unfoldable pub target_disk : LayoutDevice → M (Option Disk)
  unfolding get_full_device_by_label
  target_disk device =
      if L.trim_space device.label == ""
      then (if L.trim_space device.path == ""
          then pure none
          else pure (some (new_disk device.path)))
      else get_full_device_by_label O 5 device.label >>= λ part. pure (some (new_disk part.disk))

  -- `if !dev.Exists()`
  unfoldable pub existing : Disk → M Disk
  unfolding disk_exists
  existing dev w =
      let (found, w') = disk_exists L O dev w in
      elim found [ some dev' ↦ (ok dev', w') | none ↦ errorf "Target disk not found" w' ]

  unfoldable pub apply_layout : Option ℕ → List LayoutPart → Option Disk → M (Unit {0})
  unfolding existing expanded add_parts
  apply_layout expand parts none = pure tt
  apply_layout expand parts (some dev) =
      existing dev >>= λ dev. expanded dev expand >>= λ dev. add_parts dev parts

  -- `layoutPlugin`, given whether the console and the logger have elemental's own types.
  unfoldable pub layout_plugin : Bool → Bool → Layout → M (Unit {0})
  unfolding target_disk apply_layout
  layout_plugin own_console own_logger layout = elim layout.device [
    | none ↦ pure tt
    | some device ↦
        if own_console
        then (if own_logger
            then target_disk device >>= apply_layout layout.expand layout.parts
            else errorf "provided logger is not implementing v1.Logger interface")
        else errorf "provided console is not an instance of 'cloudInitConsole' type"
  ]
