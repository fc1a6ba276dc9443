-- ===== src/Efi/NextFree.antt =====
-- `NextFreeEntry`: the number of the next boot entry.
use native.Mathlib.Decide.{ℕ_discrete}
use elemental_cli.Base.{
  ℕ, zero, suc, ◌+◌, ◌≤◌, ◌<◌, ◌≡◌, true, false, Option, none, some, List, arith, nat_eq,
  Bool-cases, inl, inr,
}
use elemental_cli.Efi.{
  BootEntryVariable, BootManager, has_entry, next_free_from, next_free_entry, max_boot_entries,
}

-- The first number from `i` on without an entry, or none among so many numbers.
abbrev pub IsNextFree : List (ℕ × BootEntryVariable) → ℕ → ℕ → Option ℕ → Type 0
IsNextFree es i left (some n) =
    (i ≤ n)
    × (n < i + left)
    × (has_entry es n ≡ false)
    × ((k : ℕ) → i ≤ k → k < n → has_entry es k ≡ true)
IsNextFree es i left none = (k : ℕ) → i ≤ k → k < i + left → has_entry es k ≡ true

taken_from :
    (es : List (ℕ × BootEntryVariable)) (i k : ℕ)
    → has_entry es i ≡ true
    → (i + 1 ≤ k → has_entry es k ≡ true)
    → i ≤ k
    → has_entry es k ≡ true
taken_from es i k t later a = elim (ℕ_discrete i k) [
  | yes e ↦ rw e at t
  | no ne ↦ later (omega arith)
]

IsNextFree-suc :
    (es : List (ℕ × BootEntryVariable)) (i left : ℕ) (o : Option ℕ)
    → has_entry es i ≡ true
    → IsNextFree es (i + 1) left o
    → IsNextFree es i (suc left) o
IsNextFree-suc es i left none t h = λ k a b. taken_from es i k t (λ c. h k c (omega arith)) a
IsNextFree-suc es i left (some n) t (lo, hi, free, below) =
    (omega arith, omega arith, free, λ k a b. taken_from es i k t (λ c. below k c b) a)

next_free_from-IsNextFree :
    (es : List (ℕ × BootEntryVariable)) (i left : ℕ)
    → IsNextFree es i left (next_free_from es i left)
unfolding next_free_from
next_free_from-IsNextFree es i zero = λ k a b. absurd (omega arith)
next_free_from-IsNextFree es i (suc left) = elim (Bool-cases (has_entry es i)) [
  | inl taken ↦
      rw taken (IsNextFree-suc es i left _ taken (next_free_from-IsNextFree es (i + 1) left))
  | inr free ↦ rw free (omega arith, omega arith, free, λ k a b. absurd (omega arith))
]

-- `NextFreeEntry` returns the least number without an entry, if there is one below the maximum of
-- 65535, and else an error, when all the numbers below it have an entry.
pub next_free_entry-IsNextFree :
    (bm : BootManager) → IsNextFree bm.entries 0 max_boot_entries (next_free_entry bm)
unfolding next_free_entry
next_free_entry-IsNextFree bm = next_free_from-IsNextFree bm.entries 0 max_boot_entries
