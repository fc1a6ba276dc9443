-- ===== src/Vhd/Geometry.antt =====
-- The geometry of a disk fits in its fields and covers the disk.
use elemental_cli.Base.{
  ℕ, ◌+◌, ◌*◌, ◌/◌, ◌≤◌, ◌<◌, arith, ltb, leb, if◌then◌else◌, Bool-cases, inl, inr,
}
use native.Mathlib.Nat.{div-add-mod', mod-lt, le_of_mul-le-mul_right}
use elemental_cli.Vhd.{Chs, tracks, max_sectors, few_heads, raise_31, raise_63, chs_calculation}

-- What holds of the calculation before its last division.
abbrev IsGeometry : ℕ → Chs → Type 0
IsGeometry total c =
    (0 < c.heads)
    × (c.heads ≤ 16)
    × (c.sectors_per_track ≤ 255)
    × (c.cylinders ≤ 65535 * c.heads)
    × (c.cylinders * c.sectors_per_track ≤ total)
    × (total < (c.cylinders + 1) * c.sectors_per_track)

raise-IsGeometry :
    (total : ℕ)
    → total < 66059280
    → IsGeometry total (raise_63 total (raise_31 total (tracks total 17 (few_heads (total / 17)))))
unfolding raise_63 raise_31 few_heads
raise-IsGeometry total h =
    (ground arith, ground arith, ground arith, ground arith, ground arith, ground arith)

mul_mono : (a b c : ℕ) → a ≤ b → a * c ≤ b * c
mul_mono a b c h = grind arith

-- The sectors that the calculation counts.
abbrev pub counted : ℕ → ℕ
counted sectors = if ltb max_sectors sectors then max_sectors else sectors

-- Each number fits in its field of the footer, and the geometry covers the sectors, at most 267382800
-- of them, but for less than one cylinder.
abbrev pub Covers : ℕ → Chs → Type 0
Covers total g =
    (g.cylinders < 65536)
    × (g.heads < 256)
    × (g.sectors_per_track < 256)
    × (g.cylinders * g.heads * g.sectors_per_track ≤ total)
    × (total < (g.cylinders + 1) * g.heads * g.sectors_per_track)

divided-Covers :
    (total : ℕ) (c : Chs)
    → IsGeometry total c
    → Covers total (record c { cylinders = c.cylinders / c.heads })
divided-Covers total c (pos, few, small, high, low, up) =
    let q = c.cylinders / c.heads in
    let e = div-add-mod' c.cylinders c.heads in
    let r = mod-lt c.cylinders pos in
    (
      omega (arith, le_of_mul-le-mul_right {m = q} {n = 65535} {k = c.heads} (omega arith) pos),
      omega arith,
      omega arith,
      omega (arith, mul_mono (q * c.heads) c.cylinders c.sectors_per_track (omega arith)),
      omega
          (arith, mul_mono (c.cylinders + 1) ((q + 1) * c.heads) c.sectors_per_track (omega arith)),
    )

-- The geometry of a disk of any size fits in its fields: the cylinders in 16 bits, the heads and the
-- sectors per track in 8. It covers no more than the sectors of the disk, of which it counts
-- 65535 * 16 * 255 at most, and leaves out less than one cylinder of them.
pub chs_calculation-Covers : (sectors : ℕ) → Covers (counted sectors) (chs_calculation sectors)
unfolding chs_calculation
chs_calculation-Covers sectors = elim (Bool-cases (leb 66059280 (counted sectors))) [
  | inl large ↦
      rw (large, chs_calculation)
        (divided-Covers (counted sectors) _
          (omega arith, omega arith, omega arith, ground arith, ground arith, ground arith))
  | inr small ↦
      rw (small, chs_calculation)
        (divided-Covers (counted sectors) _ (raise-IsGeometry (counted sectors) (ground arith)))
]
