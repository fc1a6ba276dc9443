-- ===== src/Tests/Disks.antt =====
-- pkg/partitioner on a disk of 4 GiB with two partitions.
use elemental_cli.Base.{
  ℕ, ◌+◌, ◌≡◌, refl, false, none, [], ◌∷◌, ◌++◌, arith, ◌==◌, string_eq, nat_eq, ℕ_discrete,
  if◌then◌else◌, leb,
}
use elemental_cli.Errors.{single, plain}
use elemental_cli.Golang.{Go}
use elemental_cli.Machine.{ok, fail}
use elemental_cli.Partitioner.{
  Part, new_parted_call, create_partition, set_partition_table_label, options_builder,
}
use elemental_cli.Partitioner.Disk.{
  Disk, mib_to_sectors, last_number, next_start, plan_partition, plan_expansion,
}
use elemental_cli.Partitioner.Space.{
  IsLaidOut, IsValid, plan_partition_lem, plan_partition-IsLaidOut,
}

-- A standard library that finds no more than the label gpt.
abbrev pub go : Go
go = record {
  submatch = λ re s. none;
  matches = λ re s. s == "gpt";
  parse_uint = λ s. (0, none);
  atoi = λ s. 0;
  trim_space = λ s. s;
  lines = λ s. s ∷ [];
  join = λ ss. "path";
  base = λ s. s;
  dir = λ s. "/";
  trim_ext = λ s. s;
  contains_text = λ s part. false;
  has_suffix = λ s part. false;
  split = λ s part. s ∷ [];
  split_n = λ s part n. s ∷ [];
  trim = λ s cutset. s;
}

abbrev part : ℕ → ℕ → ℕ → Part
part number start size = record {
  number = number;
  start = start;
  size = size;
  label = "";
  file_system = "";
}

abbrev disk : Disk
disk = record {
  device = "/dev/sda";
  sector_s = 512;
  last_s = 8388607;
  parts = part 1 2048 131072 ∷ part 2 133120 2097152 ∷ [];
  label = "gpt";
}

disk-IsValid : IsValid disk
disk-IsValid = record {
  sector = omega arith;
  sector_mib = omega arith;
  last = omega arith;
  mib = omega arith;
  parts = (omega arith, omega arith, omega arith, (omega arith, omega arith, omega arith, tt));
}

abbrev new_part : Part
new_part = record {
  number = 3;
  start = 2230272;
  size = 6158336;
  label = "state";
  file_system = "ext4";
}

-- All the space that is left, and a MiB more.
fits : plan_partition disk 3007 "ext4" "state" ≡ ok new_part
unfolding plan_partition ℕ_discrete
fits = refl

too_large :
    plan_partition disk 3008 "ext4" "state" ≡ fail (single (plain "not enough free space in disk"))
unfolding plan_partition ℕ_discrete
too_large = refl

options_run :
    options_builder go
      (create_partition new_part (set_partition_table_label "gpt" (new_parted_call "/dev/sda")))
    ≡ "--script" ∷ "--machine" ∷ "--" ∷ "/dev/sda" ∷ "unit" ∷ "s" ∷ "mkpart" ∷ "state" ∷ "ext4"
      ∷ "2230272" ∷ "8388607" ∷ []
unfolding options_builder new_parted_call string_eq ℕ_discrete
options_run = refl

plan_partition_lem_example : plan_partition disk 3007 "ext4" "state" ≡ (
    if leb (next_start disk + mib_to_sectors 3007 512) 8388608
    then ok (record {
      number = last_number disk + 1;
      start = next_start disk;
      size = mib_to_sectors 3007 512;
      label = "state";
      file_system = "ext4";
    })
    else fail (single (plain "not enough free space in disk")))
plan_partition_lem_example = plan_partition_lem disk 3007 "ext4" "state" disk-IsValid

plan_partition-IsLaidOut_example :
    IsLaidOut 0 8388607 (disk.parts ++ (new_part ∷ [])) × (3 ≡ last_number disk + 1)
unfolding mib_to_sectors
plan_partition-IsLaidOut_example =
    plan_partition-IsLaidOut disk 3007 "ext4" "state" disk-IsValid (omega arith) fits

-- The last partition lies behind a gap: it is expanded beyond the end of the disk.
abbrev with_gap : Disk
with_gap = record disk { parts = part 1 2048 131072 ∷ part 2 4194304 2097152 ∷ [] }

beyond_the_end : plan_expansion with_gap 3000 ≡ ok (part 2 4194304 6144000)
unfolding plan_expansion ℕ_discrete
beyond_the_end = refl
