-- ===== src/Base/Sort.antt =====
-- Go's `sort` on a slice whose order is linear: the result is the one sorted permutation.
use mathlib.Core.Path.{◌≡◌, ap₂}
use mathlib.Core.Logic.{inl, inr}
use mathlib.Core.Logic.Or
use mathlib.Core.Bool.{Bool, true, false, Bool-set}
use mathlib.Core.List.{
  List, [], ◌∷◌, reverse, Perm, Pairwise, Pairwise-reverse, Pairwise-cons, Mem, mem-cons, perm-cons,
  reverse_perm, mem-cons_self, not-mem-nil,
}
use mathlib.Core.List.Perm
use elemental_cli.Base.Lists.{All}
use elemental_cli.Base.Tests.{if◌then◌else◌, Bool-cases}

module _ {ℓ} {A : Type ℓ} where
  pub record IsLinear (leb : A → A → Bool) : Type ℓ where
    pub total : (a b : A) → leb a b ≡ false → leb b a ≡ true
    pub trans : (a b c : A) → leb a b ≡ true → leb b c ≡ true → leb a c ≡ true
    pub antisymm : (a b : A) → leb a b ≡ true → leb b a ≡ true → a ≡ b

  abbrev pub flip : (A → A → Bool) → A → A → Bool
  flip leb a b = leb b a

  pub flip-IsLinear : (leb : A → A → Bool) → IsLinear leb → IsLinear (flip leb)
  flip-IsLinear leb o = record {
    total = λ a b h. o.total b a h;
    trans = λ a b c h k. o.trans c b a k h;
    antisymm = λ a b h k. o.antisymm a b k h;
  }

  unfoldable pub insert_sorted : (A → A → Bool) → A → List A → List A
  insert_sorted leb x [] = x ∷ []
  insert_sorted leb x (y ∷ ys) = if leb x y then x ∷ y ∷ ys else y ∷ insert_sorted leb x ys

  unfoldable pub sort : (A → A → Bool) → List A → List A
  unfolding insert_sorted
  sort leb [] = []
  sort leb (x ∷ xs) = insert_sorted leb x (sort leb xs)

  insert_sorted-perm :
      (leb : A → A → Bool) (x : A) (ys : List A) → Perm (insert_sorted leb x ys) (x ∷ ys)
  unfolding insert_sorted
  insert_sorted-perm leb x [] = Perm.refl _
  insert_sorted-perm leb x (y ∷ ys) = elim (Bool-cases (leb x y)) [
    | inl first ↦ rw first (Perm.refl _)
    | inr later ↦
        rw later (Perm.trans (Perm.cons y (insert_sorted-perm leb x ys)) (Perm.swap x y ys))
  ]

  pub sort-perm : (leb : A → A → Bool) (xs : List A) → Perm (sort leb xs) xs
  unfolding sort
  sort-perm leb [] = Perm.refl _
  sort-perm leb (x ∷ xs) =
      Perm.trans (insert_sorted-perm leb x (sort leb xs)) (Perm.cons x (sort-perm leb xs))

  abbrev pub IsSorted : (A → A → Bool) → List A → Type ℓ
  IsSorted leb xs = Pairwise (λ a b. leb a b ≡ true) xs

  -- What comes first in a sorted list is below all that comes later.
  below_of_mem :
      (leb : A → A → Bool) (z x : A) (ys : List A)
      → leb z x ≡ true
      → ((a : A) → Mem a ys → leb z a ≡ true)
      → (a : A) → Mem a (x ∷ ys)
      → leb z a ≡ true
  below_of_mem leb z x ys h k a m = Or.elim (Bool-set _ _) (mem-cons.0 m) (λ e. rw e h) (k a)

  insert_sorted-IsSorted :
      (leb : A → A → Bool) (x : A) (ys : List A)
      → IsLinear leb
      → IsSorted leb ys
      → IsSorted leb (insert_sorted leb x ys)
  unfolding insert_sorted
  insert_sorted-IsSorted leb x [] o s = Pairwise.cons (λ a m. absurd (not-mem-nil m)) Pairwise.nil
  insert_sorted-IsSorted leb x (y ∷ ys) o s =
      let (head, rest) = Pairwise-cons.0 s in
      elim (Bool-cases (leb x y)) [
        | inl first ↦ rw first (
            Pairwise.cons (below_of_mem leb x y ys first (λ a m. o.trans x y a first (head a m))) s)
        | inr later ↦ rw later (
            Pairwise.cons
              (λ a m.
                below_of_mem leb y x ys (o.total x y later) head a
                  (Perm.subset (insert_sorted-perm leb x ys) a m))
              (insert_sorted-IsSorted leb x ys o rest))
      ]

  pub sort-IsSorted : (leb : A → A → Bool) (xs : List A) → IsLinear leb → IsSorted leb (sort leb xs)
  unfolding sort
  sort-IsSorted leb [] o = Pairwise.nil
  sort-IsSorted leb (x ∷ xs) o =
      insert_sorted-IsSorted leb x (sort leb xs) o (sort-IsSorted leb xs o)

  leb_refl : (leb : A → A → Bool) (x : A) → IsLinear leb → leb x x ≡ true
  leb_refl leb x o = elim (Bool-cases (leb x x)) [ inl h ↦ h | inr h ↦ o.total x x h ]

  -- A list has one sorted permutation.
  pub sorted_unique :
      (leb : A → A → Bool) (xs ys : List A)
      → IsLinear leb
      → IsSorted leb xs
      → IsSorted leb ys
      → Perm xs ys
      → xs ≡ ys
  sorted_unique leb [] ys o s t p = Perm.nil-eq p
  sorted_unique leb (x ∷ xs) [] o s t p = Perm.eq-nil p
  sorted_unique leb (x ∷ xs) (y ∷ ys) o s t p =
      let (hx, sx) = Pairwise-cons.0 s in
      let (hy, sy) = Pairwise-cons.0 t in
      let up =
        below_of_mem leb x x xs (leb_refl leb x o) hx y
          (Perm.subset (Perm.symm p) y mem-cons_self) in
      let down = below_of_mem leb y y ys (leb_refl leb y o) hy x (Perm.subset p x mem-cons_self) in
      let same : x ≡ y = o.antisymm x y up down in
      let p' : Perm (y ∷ xs) (y ∷ ys) = rw same at p in
      ap₂ (λ z zs. z ∷ zs) same (sorted_unique leb xs ys o sx sy ((perm-cons y).0 p'))

  -- Sorting in the reverse order reverses the sorted list.
  pub sort-flip :
      (leb : A → A → Bool) (xs : List A) → IsLinear leb → sort (flip leb) xs ≡ reverse (sort leb xs)
  sort-flip leb xs o =
      sorted_unique (flip leb) _ _ (flip-IsLinear leb o)
        (sort-IsSorted (flip leb) xs (flip-IsLinear leb o))
        ((Pairwise-reverse (λ a b. Bool-set _ _)).1 (sort-IsSorted leb xs o))
        (Perm.trans (sort-perm (flip leb) xs)
          (Perm.symm (Perm.trans (reverse_perm _) (sort-perm leb xs))))

  insert_sorted-All :
      (P : A → Type 0) (leb : A → A → Bool) (x : A) (ys : List A)
      → P x
      → All P ys
      → All P (insert_sorted leb x ys)
  unfolding insert_sorted
  insert_sorted-All P leb x [] px py = (px, tt)
  insert_sorted-All P leb x (y ∷ ys) px py = elim (Bool-cases (leb x y)) [
    | inl first ↦ rw first (px, py)
    | inr later ↦ rw later (py.0, insert_sorted-All P leb x ys px py.1)
  ]

  -- What holds of every member holds of every member of the sorted list.
  pub sort-All :
      (P : A → Type 0) (leb : A → A → Bool) (xs : List A) → All P xs → All P (sort leb xs)
  unfolding sort
  sort-All P leb [] a = tt
  sort-All P leb (x ∷ xs) a = insert_sorted-All P leb x (sort leb xs) a.0 (sort-All P leb xs a.1)
