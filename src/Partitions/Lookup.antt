-- ===== src/Partitions/Lookup.antt =====
-- What `GetByName`, `GetByLabel` and `NewElementalPartitionsFromList` find.
use mathlib.Core.Option.{or_else}
use elemental_cli.Base.{
  any, ◌≡◌, refl, Bool, true, false, ◌&&◌, ◌||◌, Option, none, some, [], ◌∷◌, arith, String, ◌==◌,
  string_eq,
}
use elemental_cli.Partitions.{
  Pointer, Heap, PartitionList, is_mountable, get_by_loop, get_by_name_or_label,
}

-- The first and the last pointer that pass a test.
abbrev pub find_first : (Pointer → Bool) → PartitionList → Option Pointer
find_first test [] = none
find_first test (p ∷ pl) = elim (test p) [ true ↦ some p | false ↦ find_first test pl ]

abbrev pub find_last : (Pointer → Bool) → PartitionList → Option Pointer
find_last test [] = none
find_last test (p ∷ pl) =
    or_else (find_last test pl) (elim (test p) [ true ↦ some p | false ↦ none ])

-- A mounted partition that passes the test is preferred, the first of them; else the last that passes.
abbrev pub best : Heap → (Pointer → Bool) → PartitionList → Option Pointer
best h test pl = or_else (find_first (λ p. test p && is_mountable h p) pl) (find_last test pl)

get_by_loop-best :
    (h : Heap) (test : Pointer → Bool) (pl : PartitionList) (part : Option Pointer)
    → get_by_loop h test pl part ≡ or_else (best h test pl) part
unfolding get_by_loop or_else
get_by_loop-best h test [] part = refl
get_by_loop-best h test (p ∷ pl) part =
    ground (arith, get_by_loop-best h test pl part, get_by_loop-best h test pl (some p))

-- `GetByNameOrLabel` returns the best partition of that name and, if no partition has that name, the
-- best one of that label: the first mounted one, and else the last, of those that match.
pub get_by_name_or_label-best :
    (h : Heap) (pl : PartitionList) (name label : String)
    → get_by_name_or_label h pl name label
      ≡ or_else
          (best h (λ p. (h p).name == name) pl)
          (best h (λ p. (h p).filesystem_label == label) pl)
unfolding get_by_name_or_label or_else
get_by_name_or_label-best h pl name label = ground (
  arith,
  get_by_loop-best h (λ p. (h p).name == name) pl none,
  get_by_loop-best h (λ p. (h p).filesystem_label == label) pl none,
)

-- There is a value.
abbrev pub is_some {ℓ} : {A : Type ℓ} → Option A → Bool
is_some none = false
is_some (some x) = true

get_by_loop-any :
    (h : Heap) (test : Pointer → Bool) (pl : PartitionList) (part : Option Pointer)
    → is_some (get_by_loop h test pl part) ≡ (is_some part || any test pl)
unfolding get_by_loop
get_by_loop-any h test [] part = ground arith
get_by_loop-any h test (p ∷ pl) part =
    ground (arith, get_by_loop-any h test pl part, get_by_loop-any h test pl (some p))

pub get_by_name_or_label-any :
    (h : Heap) (pl : PartitionList) (name label : String)
    → is_some (get_by_name_or_label h pl name label)
      ≡ (any (λ p. (h p).name == name) pl || any (λ p. (h p).filesystem_label == label) pl)
unfolding get_by_name_or_label
get_by_name_or_label-any h pl name label = ground (
  arith,
  get_by_loop-any h (λ p. (h p).name == name) pl none,
  get_by_loop-any h (λ p. (h p).filesystem_label == label) pl none,
)
