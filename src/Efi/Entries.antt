-- ===== src/Efi/Entries.antt =====
-- `FindOrCreateEntry` and `CreateBootEntry`: the entry that the machine boots first.
use elemental_cli.Base.{
  ℕ, ◌≡◌, ◌≢◌, refl, ◌∙◌, true, ◌&&◌, none, some, List, [], ◌∷◌, arith, String, ◌==◌, nat_eq,
  if◌then◌else◌, Bool-cases, Option-cases, inl, inr, ◌⊎◌,
}
use elemental_cli.Errors.{single, plain}
use elemental_cli.Efi.{
  encode_order, BootEntryVariable, BootEntry, BootManager, Variables, Found, number, failed,
  lookup_entry, next_free_entry, same_bytes, find_duplicate, insert_entry, create_entry,
  find_or_create_entry, variable_name,
}
use elemental_cli.Efi.BootOrder.{IsDistinct}

-- The entries are a map, in which each entry stands under its own number.
abbrev pub IsValid : List (ℕ × BootEntryVariable) → Type 0
IsValid [] = Unit
IsValid ((k, v) ∷ es) = (v.boot_number ≡ k) × (lookup_entry k es ≡ none) × IsValid es

pub lookup_entry-insert_entry :
    (n m : ℕ) (v : BootEntryVariable) (es : List (ℕ × BootEntryVariable))
    → lookup_entry m (insert_entry n v es) ≡ (if n == m then some v else lookup_entry m es)
unfolding lookup_entry insert_entry
lookup_entry-insert_entry n m v [] = refl
lookup_entry-insert_entry n m v ((k, u) ∷ es) = ground (arith, lookup_entry-insert_entry n m v es)

same_bytes_lem : (bs cs : List ℕ) → same_bytes bs cs ≡ true → bs ≡ cs
unfolding same_bytes
same_bytes_lem [] [] h = refl
same_bytes_lem [] (c ∷ cs) h = cc
same_bytes_lem (b ∷ bs) [] h = cc
same_bytes_lem (b ∷ bs) (c ∷ cs) h = ground (arith, same_bytes_lem bs cs)

-- The entry of a number has this content.
abbrev pub HasContent : List (ℕ × BootEntryVariable) → ℕ → List ℕ → ℕ → Type 0
HasContent es n bytes attributes =
    (v : BootEntryVariable) × (lookup_entry n es ≡ some v)
    × (v.bytes ≡ bytes)
    × (v.attributes ≡ attributes)

find_duplicate-HasContent :
    (bytes : List ℕ) (attributes : ℕ) (es : List (ℕ × BootEntryVariable)) {n : ℕ}
    → IsValid es
    → find_duplicate bytes attributes es ≡ some n
    → HasContent es n bytes attributes
unfolding find_duplicate lookup_entry
find_duplicate-HasContent bytes attributes [] valid h = absurd (ground arith)
find_duplicate-HasContent bytes attributes ((k, v) ∷ es) {n} (own, fresh, valid) h =
    elim (Bool-cases (same_bytes v.bytes bytes && v.attributes == attributes)) [
      | inl same ↦ (v, ground arith, same_bytes_lem v.bytes bytes (ground arith), ground arith)
      | inr other ↦
          let (u, e, f, g) = find_duplicate-HasContent bytes attributes es valid (rw other at h) in
          (u, ground arith, f, g)
    ]

insert_entry-IsValid :
    (n : ℕ) (v : BootEntryVariable) (es : List (ℕ × BootEntryVariable))
    → v.boot_number ≡ n
    → IsValid es
    → IsValid (insert_entry n v es)
unfolding insert_entry lookup_entry
insert_entry-IsValid n v [] e valid = (e, refl, tt)
insert_entry-IsValid n v ((k, u) ∷ es) e (own, fresh, valid) =
    ground (arith, insert_entry-IsValid n v es e valid, lookup_entry-insert_entry n k v es)

module _ {S : Type 0} (V : Variables S) where
  -- The bytes of the entry that `CreateBootEntry` wants.
  abbrev pub Wanted : BootEntry → String → BootManager → Found → Type 0
  Wanted entry relative_to bm (number n) =
      (bytes : List ℕ) × (V.load_option relative_to entry ≡ some bytes)
      × HasContent bm.entries n bytes V.attributes
  Wanted entry relative_to bm (failed e) = e ≢ none

  create_entry-Wanted :
      (entry : BootEntry) (relative_to : String) (n : ℕ) (bytes : List ℕ) (bm : BootManager) (s : S)
      → V.load_option relative_to entry ≡ some bytes
      → IsValid bm.entries
      → let (f, bm', _) = create_entry V n bytes bm s in
        Wanted entry relative_to bm' f × IsValid bm'.entries × (bm'.boot_order ≡ bm.boot_order)
  unfolding create_entry
  create_entry-Wanted entry relative_to n bytes bm s l valid =
      let v : BootEntryVariable = record {
        boot_number = n;
        bytes = bytes;
        attributes = V.attributes;
      } in
      let s' = (V.set_variable (variable_name n) bytes V.attributes s).1 in
      elim (Option-cases (V.set_variable (variable_name n) bytes V.attributes s).0) [
        | inl done ↦
            let e : create_entry V n bytes bm s
                ≡ (number n, record bm { entries = insert_entry n v bm.entries }, s') =
              rw (done, create_entry) refl in
            rw e (
              (
                bytes,
                l,
                (v, lookup_entry-insert_entry n n v bm.entries ∙ ground arith, refl, refl),
              ),
              insert_entry-IsValid n v bm.entries refl valid,
              refl,
            )
        | inr (x, bad) ↦
            let e : create_entry V n bytes bm s ≡ (failed (some x), bm, s') =
              rw (bad, create_entry) refl in
            rw e (λ p. cc, valid, refl)
      ]

  -- What `FindOrCreateEntry` leaves: an entry of the number that it returns with the content that is
  -- wanted, or an error that is not nil.
  pub find_or_create_entry-Wanted :
      (entry : BootEntry) (relative_to : String) (bm : BootManager) (s : S)
      → IsValid bm.entries
      → let (f, bm', _) = find_or_create_entry V entry relative_to bm s in
        Wanted entry relative_to bm' f × IsValid bm'.entries × (bm'.boot_order ≡ bm.boot_order)
  unfolding find_or_create_entry
  find_or_create_entry-Wanted entry relative_to bm s valid =
      elim (Option-cases (next_free_entry bm)) [
        | inl full ↦
            let e : find_or_create_entry V entry relative_to bm s ≡ (
              failed (some (single (plain "maximum number of boot entries exceeded"))),
              bm,
              s,
            ) =
              rw (full, find_or_create_entry) refl in
            rw e (λ p. cc, valid, refl)
        | inr (n, free) ↦ elim (Option-cases (V.load_option relative_to entry)) [
          | inl bad ↦
              let e : find_or_create_entry V entry relative_to bm s
                  ≡ (failed (some (single (plain "cannot encode load option"))), bm, s) =
                rw (free, bad, find_or_create_entry) refl in
              rw e (λ p. cc, valid, refl)
          | inr (bytes, l) ↦ elim (Option-cases (find_duplicate bytes V.attributes bm.entries)) [
            | inl new ↦
                let e : find_or_create_entry V entry relative_to bm s
                    ≡ create_entry V n bytes bm s =
                  rw (free, l, new, find_or_create_entry) refl in
                rw e (create_entry-Wanted entry relative_to n bytes bm s l valid)
            | inr (k, old) ↦
                let e : find_or_create_entry V entry relative_to bm s ≡ (number k, bm, s) =
                  rw (free, l, old, find_or_create_entry) refl in
                rw e (
                  (bytes, l, find_duplicate-HasContent bytes V.attributes bm.entries valid old),
                  valid,
                  refl,
                )
          ]
        ]
      ]

  -- What `CreateBootEntry` leaves when it returns nil: the first number of the boot order is that of
  -- an entry with the content that is wanted, and no number stands twice.
  abbrev pub BootsFirst : BootEntry → String → BootManager → Type 0
  BootsFirst entry relative_to bm =
      (n : ℕ) × (rest : List ℕ) × (bm.boot_order ≡ n ∷ rest)
      × IsDistinct (n ∷ rest)
      × Wanted entry relative_to bm (number n)

  -- The last write is that of this boot order to BootOrder. Before it, nothing was written, or the
  -- content that is wanted to the variable of the first number.
  abbrev pub IsWritten : BootEntry → String → BootManager → S → S → Type 0
  IsWritten entry relative_to bm s s' =
      (s1 : S) × (s'
        ≡ (V.set_variable "BootOrder" (encode_order bm.boot_order) bm.boot_order_attrs s1).1)
      × ((s1 ≡ s)
          ⊎ ((n : ℕ) × (rest : List ℕ) × (bytes : List ℕ) × (bm.boot_order ≡ n ∷ rest)
              × (V.load_option relative_to entry ≡ some bytes)
              × (s1 ≡ (V.set_variable (variable_name n) bytes V.attributes s).1)))

  -- Every write of a variable succeeds.
  abbrev pub WritesSucceed : Type 0
  WritesSucceed =
      (name : String) (bytes : List ℕ) (attributes : ℕ) (s : S)
      → (V.set_variable name bytes attributes s).0 ≡ none
