-- ===== src/Efi/BootOrder.antt =====
-- `PrependAndSetBootOrder`: the new boot order, and its encoding as bytes.
use mathlib.Core.List.{append-nil, append_assoc}
use elemental_cli.Base.{
  ℕ, ◌<◌, ◌≡◌, refl, ap, ◌∙◌, Bool-cases, inl, inr, true, false, ◌&&◌, ◌||◌, not, some, List, [],
  ◌∷◌, ◌++◌, arith, All, ◌==◌, nat_eq, contains,
}
use elemental_cli.Efi.{
  BootEntryVariable, has_entry, add_number, add_numbers, encode_order, decode_order,
}

-- The boot order that is read back from the bytes of a written one, if its numbers have 16 bits.
pub decode_order-encode_order :
    (nums : List ℕ) → All (λ n. n < 65536) nums → decode_order (encode_order nums) ≡ some nums
unfolding encode_order decode_order
decode_order-encode_order [] a = refl
decode_order-encode_order (n ∷ nums) (h, a) = ground (arith, decode_order-encode_order nums a)

-- No number stands twice.
abbrev pub IsDistinct : List ℕ → Type 0
IsDistinct [] = Unit
IsDistinct (n ∷ ns) = (contains ns n ≡ false) × IsDistinct ns

contains-append :
    (xs ys : List ℕ) (n : ℕ) → contains (xs ++ ys) n ≡ (contains xs n || contains ys n)
contains-append [] ys n = refl
contains-append (x ∷ xs) ys n = ground (arith, contains-append xs ys n)

IsDistinct-snoc :
    (xs : List ℕ) (n : ℕ) → IsDistinct xs → contains xs n ≡ false → IsDistinct (xs ++ (n ∷ []))
IsDistinct-snoc [] n d h = (refl, tt)
IsDistinct-snoc (x ∷ xs) n (h, d) e =
    ground (arith, contains-append xs (n ∷ []) x, IsDistinct-snoc xs n d)

module _ (es : List (ℕ × BootEntryVariable)) where
  add_number-IsDistinct :
      (order : List ℕ) (n : ℕ) → IsDistinct order → IsDistinct (add_number es order n)
  unfolding add_number
  add_number-IsDistinct order n d = ground (arith, IsDistinct-snoc order n d)

  add_numbers-IsDistinct :
      (order nums : List ℕ) → IsDistinct order → IsDistinct (add_numbers es order nums)
  unfolding add_numbers
  add_numbers-IsDistinct order [] d = d
  add_numbers-IsDistinct order (n ∷ nums) d =
      add_numbers-IsDistinct (add_number es order n) nums (add_number-IsDistinct order n d)

  contains-add_number :
      (order : List ℕ) (n m : ℕ)
      → contains (add_number es order n) m ≡ (contains order m || (m == n && has_entry es m))
  unfolding add_number
  contains-add_number order n m = ground (arith, contains-append order (n ∷ []) m)

  contains-add_numbers :
      (order nums : List ℕ) (m : ℕ)
      → contains (add_numbers es order nums) m
        ≡ (contains order m || (contains nums m && has_entry es m))
  unfolding add_numbers
  contains-add_numbers order [] m = ground arith
  contains-add_numbers order (n ∷ nums) m =
      ground
        (arith, contains-add_numbers (add_number es order n) nums m, contains-add_number order n m)

  -- What is there stays in front.
  add_number-prefix :
      (order : List ℕ) (n : ℕ) → (rest : List ℕ) × (add_number es order n ≡ order ++ rest)
  unfolding add_number
  add_number-prefix order n = elim (Bool-cases (has_entry es n && not (contains order n))) [
    | inl new ↦ (n ∷ [], rw new)
    | inr old ↦ ([], rw (old, append-nil))
  ]

  add_numbers-prefix :
      (order nums : List ℕ) → (rest : List ℕ) × (add_numbers es order nums ≡ order ++ rest)
  unfolding add_numbers
  add_numbers-prefix order [] = ([], rw append-nil)
  add_numbers-prefix order (n ∷ nums) =
      let (rest, e) = add_numbers-prefix (add_number es order n) nums in
      let (more, f) = add_number-prefix order n in
      (more ++ rest, e ∙ ap (λ xs. xs ++ rest) f ∙ append_assoc order more rest)

  -- The boot order after a number with an entry has been put in front: that number comes first, no
  -- number stands twice, and a number is in it exactly if it was put in front or was in the old
  -- order, and has an entry.
  pub add_numbers-prepend :
      (n : ℕ) (old : List ℕ)
      → has_entry es n ≡ true
      → let order = add_numbers es [] (n ∷ old) in
        (rest : List ℕ) × (order ≡ n ∷ rest)
        × IsDistinct order
        × ((m : ℕ) → contains order m ≡ (contains (n ∷ old) m && has_entry es m))
  add_numbers-prepend n old h =
      let (rest, e) = add_numbers-prefix (n ∷ []) old in
      (
        rest,
        unfold add_numbers add_number in rw h e,
        add_numbers-IsDistinct [] (n ∷ old) tt,
        contains-add_numbers [] (n ∷ old),
      )
