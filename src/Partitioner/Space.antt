-- ===== src/Partitioner/Space.antt =====
-- The space on a disk: what `AddPartition` and `ExpandLastPartition` create lies on the disk, behind all
-- other partitions.
use elemental_cli.Base.{
  ℕ, ◌+◌, ◌/◌, ◌-◌, ◌≤◌, ◌<◌, ◌≡◌, refl, String, none, some, List, [], ◌∷◌, ◌++◌, arith, nat_eq,
  if◌then◌else◌, get_last?, leb, Option-cases, inl, inr, ◌∙◌, sym,
}
use elemental_cli.Errors.{single, plain}
use elemental_cli.Machine.{ok, fail}
use elemental_cli.Partitioner.{uint_size, sub_uint, Part}
use elemental_cli.Partitioner.Disk.{
  Disk, mib_to_sectors, space_after, space_after_first, compute_free_space, last_number, next_start,
  plan_partition,
}

-- The partitions lie one behind the other, each with a sector at least, from a sector on up to the
-- last one of the disk.
abbrev pub IsLaidOut : ℕ → ℕ → List Part → Type 0
IsLaidOut from last [] = Unit
IsLaidOut from last (p ∷ ps) =
    (from ≤ p.start)
    × (1 ≤ p.size)
    × (p.start + p.size ≤ last + 1)
    × IsLaidOut (p.start + p.size) last ps

-- A disk that is loaded: its sectors are counted in 64 bits, and the first MiB is on it.
pub record IsValid (d : Disk) : Type 0 where
  pub sector : 1 ≤ d.sector_s
  pub sector_mib : d.sector_s ≤ 1048576
  pub last : d.last_s + 1 < uint_size
  pub mib : 1048576 / d.sector_s ≤ d.last_s + 1
  pub parts : IsLaidOut 0 d.last_s d.parts

-- The first sector behind all partitions is on the disk or right behind it.
get_last-IsLaidOut :
    (from last : ℕ) (ps : List Part) {p : Part}
    → IsLaidOut from last ps
    → get_last? ps ≡ some p
    → (1 ≤ p.size) × (p.start + p.size ≤ last + 1)
get_last-IsLaidOut from last [] l e = absurd (ground arith)
get_last-IsLaidOut from last (q ∷ []) (a, b, c, l) e = ground arith
get_last-IsLaidOut from last (q ∷ r ∷ ps) (a, b, c, l) e =
    get_last-IsLaidOut (q.start + q.size) last (r ∷ ps) l e

sub_uint_lem : (a b : ℕ) → b ≤ a → a < uint_size → sub_uint a b ≡ a - b
sub_uint_lem a b h k = omega arith

space_after_lem :
    (d : Disk) (p : Part)
    → d.last_s + 1 < uint_size
    → 1 ≤ p.size
    → p.start + p.size ≤ d.last_s + 1
    → space_after d p ≡ d.last_s + 1 - (p.start + p.size)
unfolding space_after
space_after_lem d p h k l = omega arith

next_start_lem :
    (d : Disk)
    → IsValid d
    → (next_start d ≤ d.last_s + 1) × (compute_free_space d ≡ d.last_s + 1 - next_start d)
unfolding next_start compute_free_space space_after_first
next_start_lem d v = elim (Option-cases (get_last? d.parts)) [
  | inl nil ↦
      let mib = v.mib in
      let last = v.last in
      rw (nil, next_start, compute_free_space, space_after_first) (omega arith, omega arith)
  | inr (p, e) ↦
      let (one, fits) = get_last-IsLaidOut 0 d.last_s d.parts v.parts e in
      let last = v.last in
      rw (e, next_start, compute_free_space)
        (omega arith, space_after_lem d p last one fits ∙ omega arith)
]

-- On a valid disk `AddPartition` plans a partition exactly if its sectors fit between the last
-- partition and the end of the disk, and then the one with the next number that begins right behind
-- the last partition; else it returns an error. It never panics.
pub plan_partition_lem :
    (d : Disk) (size : ℕ) (file_system label : String)
    → IsValid d
    → plan_partition d size file_system label ≡ (
        if leb (next_start d + mib_to_sectors size d.sector_s) (d.last_s + 1)
        then ok (record {
          number = last_number d + 1;
          start = next_start d;
          size = mib_to_sectors size d.sector_s;
          label = label;
          file_system = file_system;
        })
        else fail (single (plain "not enough free space in disk")))
unfolding plan_partition
plan_partition_lem d size file_system label v =
    let (on, free) = next_start_lem d v in let sector = v.sector in ground (arith, free, on, sector)

-- The first sector behind the last partition.
abbrev end_of : ℕ → List Part → ℕ
end_of from [] = from
end_of from (p ∷ ps) = end_of (p.start + p.size) ps

IsLaidOut-snoc :
    (from last : ℕ) (ps : List Part) (p : Part)
    → IsLaidOut from last ps
    → end_of from ps ≤ p.start
    → 1 ≤ p.size
    → p.start + p.size ≤ last + 1
    → IsLaidOut from last (ps ++ (p ∷ []))
IsLaidOut-snoc from last [] p l a one fits = (a, one, fits, tt)
IsLaidOut-snoc from last (q ∷ ps) p (c, d, e, l) a one fits =
    (c, d, e, IsLaidOut-snoc (q.start + q.size) last ps p l a one fits)

end_of-get_last :
    (from : ℕ) (ps : List Part) {p : Part}
    → get_last? ps ≡ some p
    → end_of from ps ≡ p.start + p.size
end_of-get_last from [] e = absurd (ground arith)
end_of-get_last from (q ∷ []) e = ground arith
end_of-get_last from (q ∷ r ∷ ps) e = end_of-get_last (q.start + q.size) (r ∷ ps) e

get_last-cons : (p : Part) (ps : List Part) → get_last? (p ∷ ps) ≡ none → ⊥
get_last-cons p [] e = absurd (ground arith)
get_last-cons p (q ∷ ps) e = get_last-cons q ps e

end_of-none : (from : ℕ) (ps : List Part) → get_last? ps ≡ none → end_of from ps ≡ from
end_of-none from [] e = refl
end_of-none from (q ∷ ps) e = absurd (get_last-cons q ps e)

end_of-next_start : (d : Disk) → IsValid d → end_of 0 d.parts ≤ next_start d
unfolding next_start
end_of-next_start d v = elim (Option-cases (get_last? d.parts)) [
  | inl nil ↦ omega (arith, end_of-none 0 d.parts nil)
  | inr (p, e) ↦
      let (one, fits) = get_last-IsLaidOut 0 d.last_s d.parts v.parts e in
      let last = v.last in rw (e, next_start) (omega (arith, end_of-get_last 0 d.parts e))
]

-- The partition that `AddPartition` plans on a valid disk, if it has a sector at least, lies behind all
-- others and on the disk: with it the partitions are still laid out one behind the other, and its
-- number is the one after that of the last.
pub plan_partition-IsLaidOut :
    (d : Disk) (size : ℕ) (file_system label : String) {p : Part}
    → IsValid d
    → 1 ≤ mib_to_sectors size d.sector_s
    → plan_partition d size file_system label ≡ ok p
    → IsLaidOut 0 d.last_s (d.parts ++ (p ∷ [])) × (p.number ≡ last_number d + 1)
plan_partition-IsLaidOut d size file_system label {p} v one e =
    let shape = sym (plan_partition_lem d size file_system label v) ∙ e in
    let (start, sectors, number, fits) : (p.start ≡ next_start d)
        × (p.size ≡ mib_to_sectors size d.sector_s)
        × (p.number ≡ last_number d + 1)
        × (next_start d + mib_to_sectors size d.sector_s ≤ d.last_s + 1) =
      ground arith in
    (
      IsLaidOut-snoc 0 d.last_s d.parts p v.parts (omega (arith, end_of-next_start d v))
          (omega arith) (omega arith),
      number,
    )
