-- ===== src/Partitioner.antt =====
-- pkg/partitioner/parted.go and pkg/partitioner/mkfs.go: the command lines of parted and mkfs, and what
-- is read from the output of parted.
pub mod Disk
pub mod Space
use elemental_cli.Base.{
  ℕ, ◌+◌, ◌-◌, ◌%◌, String, ◌<>◌, Bool, true, false, not, ◌&&◌, Option, none, some, List, [], ◌∷◌,
  ◌++◌, ◌==◌, nat_eq, string_eq, if◌then◌else◌, get_elem?, length,
}
use elemental_cli.Constants
use elemental_cli.Errors.{Err, single, plain}
use elemental_cli.Golang.{Go, decimal}
use elemental_cli.Machine.{
  Call, Outside, World, M, Result, ok, fail, panicked, output, throw, errorf, pure,
}

-- The size of `uint`.
abbrev pub uint_size : ℕ
uint_size = 18446744073709551616

-- `a + b`, `a - b` and `a * b` of `uint`.
abbrev pub add_uint : ℕ → ℕ → ℕ
add_uint a b = (a + b) % uint_size

abbrev pub sub_uint : ℕ → ℕ → ℕ
sub_uint a b = (a + (uint_size - b % uint_size)) % uint_size

-- `Partition` of pkg/partitioner, in sectors. `file_system` is only used to tell parted the type.
pub record Part : Type 0 where
  pub number : ℕ
  pub start : ℕ
  pub size : ℕ
  pub label : String
  pub file_system : String

pub record PartFlag : Type 0 where
  pub flag : String
  pub active : Bool
  pub number : ℕ

pub record PartedCall : Type 0 where
  pub dev : String
  pub wipe : Bool
  pub parts : List Part
  pub deletions : List ℕ
  pub label : String
  pub flags : List PartFlag

-- `NewPartedCall`
unfoldable pub new_parted_call : String → PartedCall
new_parted_call dev = record {
  dev = dev;
  wipe = false;
  parts = [];
  deletions = [];
  label = "";
  flags = [];
}

abbrev pub set_partition_table_label : String → PartedCall → PartedCall
set_partition_table_label label pc = record pc { label = label }

abbrev pub create_partition : Part → PartedCall → PartedCall
create_partition p pc = record pc { parts = pc.parts ++ (p ∷ []) }

abbrev pub delete_partition : ℕ → PartedCall → PartedCall
delete_partition num pc = record pc { deletions = pc.deletions ++ (num ∷ []) }

abbrev pub set_partition_flag : ℕ → String → Bool → PartedCall → PartedCall
set_partition_flag num flag active pc = record pc {
  flags = pc.flags ++ (record { flag = flag; active = active; number = num } ∷ []);
}

abbrev pub wipe_table : Bool → PartedCall → PartedCall
wipe_table wipe pc = record pc { wipe = wipe }

module _ (L : Go) where
  -- The label that is used: gpt if the one given is empty or invalid.
  unfoldable pub valid_label : String → String
  valid_label label = if L.matches "msdos|gpt" label then label else Constants.gpt

  unfoldable pub deletion_options : List ℕ → List String
  unfolding decimal
  deletion_options [] = []
  deletion_options (n ∷ ns) = "rm" ∷ decimal n ∷ deletion_options ns

  -- The label of a partition: that of the table decides.
  unfoldable pub part_label : String → Part → String
  unfolding decimal
  part_label label p =
      if label == Constants.gpt && not (p.label == "")
      then p.label
      else if label == Constants.gpt
      then "part" <> decimal p.number
      else "primary"

  -- The last sector, or all the space that is left if the size is 0.
  unfoldable pub part_end : Part → String
  unfolding decimal
  part_end p = if p.size == 0 then "100%" else decimal (sub_uint (add_uint p.start p.size) 1)

  unfoldable pub part_options : String → List Part → List String
  unfolding part_label part_end
  part_options label [] = []
  part_options label (p ∷ ps) =
      "mkpart"
      ∷ part_label label p
      ∷ (if L.matches "fat|vfat" p.file_system then "fat32" else p.file_system)
      ∷ decimal p.start
      ∷ part_end p
      ∷ part_options label ps

  unfoldable pub flag_options : List PartFlag → List String
  unfolding decimal
  flag_options [] = []
  flag_options (f ∷ fs) =
      "set" ∷ decimal f.number ∷ f.flag ∷ (if f.active then "on" else "off") ∷ flag_options fs

  with_prefix : String → List String → List String
  with_prefix dev [] = []
  with_prefix dev (o ∷ opts) = "--script" ∷ "--machine" ∷ "--" ∷ dev ∷ "unit" ∷ "s" ∷ o ∷ opts

  -- `optionsBuilder`; the empty list is nil.
  unfoldable pub options_builder : PartedCall → List String
  unfolding valid_label deletion_options part_options flag_options with_prefix
  options_builder pc =
      let label = valid_label pc.label in
      with_prefix pc.dev (
        (if pc.wipe then "mklabel" ∷ label ∷ [] else [])
        ++ (deletion_options pc.deletions
            ++ (part_options label pc.parts ++ flag_options pc.flags)))

  run_parted : Outside → List String → M String
  unfolding output
  run_parted O [] = pure ""
  run_parted O (o ∷ opts) = output O (Call.run "parted" (o ∷ opts))

  -- `WriteChanges`: the changes are reset in any case. No caller uses the output of a call that fails.
  unfoldable pub write_changes : Outside → PartedCall → World → Result String × PartedCall × World
  unfolding options_builder run_parted
  write_changes O pc w = elim (options_builder pc) [
    | [] ↦ (ok "", pc, w)
    | o ∷ opts ↦
        let (r, w') = run_parted O (o ∷ opts) w in
        (r, record pc { wipe = false; parts = []; deletions = [] }, w')
  ]

  -- `Print`
  unfoldable pub print : Outside → String → M String
  unfolding output
  print O dev =
      output O
        (Call.run "parted" ("--script" ∷ "--machine" ∷ "--" ∷ dev ∷ "unit" ∷ "s" ∷ "print" ∷ []))

  abbrev pub header_re : String
  header_re = "^(.*):(\\d+)s:(.*):(\\d+):(\\d+):(.*):(.*):(.*);$"

  abbrev pub partition_re : String
  partition_re = "^(\\d+):(\\d+)s:(\\d+)s:(\\d+)s:(.*):(.*):(.*);$"

  -- `match[i]`, or its panic.
  field_of : Option String → Result String
  field_of none = panicked
  field_of (some s) = ok s

  -- The loop of `parseHeaderFields` on the lines.
  unfoldable pub header_field : List String → ℕ → Result String
  unfolding field_of
  header_field [] field = fail (single (plain "failed parsing parted header data"))
  header_field (l ∷ ls) field = elim (L.submatch header_re (L.trim_space l)) [
    | none ↦ header_field ls field
    | some found ↦ field_of (get_elem? found field)
  ]

  -- `parseHeaderFields`
  unfoldable pub parse_header_fields : String → ℕ → Result String
  unfolding header_field
  parse_header_fields out field = header_field (L.lines (L.trim_space out)) field

  -- `GetLastSector` and `GetSectorSize`, which differ in the field and the text of the error.
  unfoldable pub header_number : String → ℕ → String → Result ℕ
  unfolding parse_header_fields
  header_number text field out = elim (parse_header_fields out field) [
    | ok s ↦ elim (L.parse_uint s).1 [ none ↦ ok (L.parse_uint s).0 | some e ↦ fail e ]
    | fail e ↦ fail (single (plain text))
    | panicked ↦ panicked
  ]

  unfoldable pub get_last_sector : String → Result ℕ
  unfolding header_number
  get_last_sector = header_number "Failed parsing last sector" 2

  unfoldable pub get_sector_size : String → Result ℕ
  unfolding header_number
  get_sector_size = header_number "Failed parsing sector size" 4

  unfoldable pub get_partition_table_label : String → Result String
  unfolding parse_header_fields
  get_partition_table_label out = parse_header_fields out 6

  text_of : Option String → String
  text_of none = ""
  text_of (some s) = s

  -- The partition of a line that matches: the expression has seven groups. A number that cannot be
  -- parsed counts as what `ParseUint` returns with its error.
  unfoldable pub partition_of : List String → Part
  unfolding text_of
  partition_of found =
      let at = λ (i : ℕ). text_of (get_elem? found i) in
      let start = (L.parse_uint (at 2)).0 in
      let end = (L.parse_uint (at 3)).0 in
      record {
        number = L.atoi (at 1);
        start = start;
        size = add_uint (sub_uint end start) 1;
        label = at 6;
        file_system = "";
      }

  unfoldable pub partitions_of_lines : List String → List Part
  unfolding partition_of
  partitions_of_lines [] = []
  partitions_of_lines (l ∷ ls) = elim (L.submatch partition_re (L.trim_space l)) [
    | none ↦ partitions_of_lines ls
    | some found ↦ partition_of found ∷ partitions_of_lines ls
  ]

  -- `GetPartitions`
  unfoldable pub get_partitions : String → List Part
  unfolding partitions_of_lines
  get_partitions out = partitions_of_lines (L.lines (L.trim_space out))

  -- `buildOptions` of a `MkfsCall`: nothing for a file system that is not supported.
  unfoldable pub build_options : String → String → List String → String → Option (List String)
  build_options file_system label custom_opts dev =
      let rest = custom_opts ++ (dev ∷ []) in
      if L.matches "ext[2-4]|xfs" file_system
      then some (if label == "" then rest else "-L" ∷ label ∷ rest)
      else if L.matches "fat|vfat" file_system
      then some (if label == "" then rest else "-n" ∷ label ∷ rest)
      else none

  -- `Apply` of a `MkfsCall`
  unfoldable pub apply_mkfs : Outside → String → String → List String → String → M String
  unfolding build_options output
  apply_mkfs O file_system label custom_opts dev =
      elim (build_options file_system label custom_opts dev) [
        | none ↦ errorf ("unsupported filesystem: " <> file_system)
        | some opts ↦ output O (Call.run ("mkfs." <> file_system) opts)
      ]
