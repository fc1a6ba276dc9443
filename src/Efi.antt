-- ===== src/Efi.antt =====
-- pkg/efi: the boot manager over the EFI variables, and `CreateBootEntry` of pkg/utils/grub.go.
pub mod BootOrder
pub mod NextFree
pub mod Entries
use elemental_cli.Base.{
  ℕ, zero, suc, ◌+◌, ◌*◌, ◌/◌, ◌%◌, String, ◌<>◌, Bool, true, false, ◌&&◌, not, Option, none, some,
  List, [], ◌∷◌, ◌++◌, ◌==◌, nat_eq, contains, if◌then◌else◌, ltb,
}
use elemental_cli.Errors.{Err, single, plain}

pub record BootEntryVariable : Type 0 where
  pub boot_number : ℕ
  pub bytes : List ℕ
  pub attributes : ℕ

-- The map `entries` by its keys, and the boot order with the attributes of its variable.
pub record BootManager : Type 0 where
  pub entries : List (ℕ × BootEntryVariable)
  pub boot_order : List ℕ
  pub boot_order_attrs : ℕ

pub record BootEntry : Type 0 where
  pub filename : String
  pub label : String
  pub options : String
  pub description : String

-- `Variables` over go-efilib: a write of a variable, the bytes of the load option that points to a
-- file in a directory, if there is one, and the three attributes joined.
pub record Variables (S : Type 0) : Type 0 where
  pub set_variable : String → List ℕ → ℕ → S → Err × S
  pub load_option : String → BootEntry → Option (List ℕ)
  pub attributes : ℕ

abbrev pub max_boot_entries : ℕ
max_boot_entries = 65535

unfoldable pub lookup_entry : ℕ → List (ℕ × BootEntryVariable) → Option BootEntryVariable
lookup_entry n [] = none
lookup_entry n ((k, v) ∷ es) = if k == n then some v else lookup_entry n es

-- `_, ok := bm.entries[n]`
unfoldable pub has_entry : List (ℕ × BootEntryVariable) → ℕ → Bool
unfolding lookup_entry
has_entry es n = elim (lookup_entry n es) [ none ↦ false | some _ ↦ true ]

-- The loop of `NextFreeEntry` from `i` on, with so many numbers left.
unfoldable pub next_free_from : List (ℕ × BootEntryVariable) → ℕ → ℕ → Option ℕ
unfolding has_entry
next_free_from es i zero = none
next_free_from es i (suc left) =
    let rest = next_free_from es (i + 1) left in if has_entry es i then rest else some i

unfoldable pub next_free_entry : BootManager → Option ℕ
unfolding next_free_from
next_free_entry bm = next_free_from bm.entries 0 max_boot_entries

-- One round of the loop of `PrependAndSetBootOrder` on the new order.
unfoldable pub add_number : List (ℕ × BootEntryVariable) → List ℕ → ℕ → List ℕ
unfolding has_entry
add_number es new_order num =
    if has_entry es num && not (contains new_order num) then new_order ++ (num ∷ []) else new_order

unfoldable pub add_numbers : List (ℕ × BootEntryVariable) → List ℕ → List ℕ → List ℕ
unfolding add_number
add_numbers es new_order [] = new_order
add_numbers es new_order (num ∷ nums) = add_numbers es (add_number es new_order num) nums

-- `binary.LittleEndian.PutUint16(numBytes[0:], uint16(num))` for each number.
unfoldable pub encode_order : List ℕ → List ℕ
encode_order [] = []
encode_order (num ∷ nums) = (num % 65536 % 256) ∷ (num % 65536 / 256) ∷ encode_order nums

-- The boot order that `NewBootManagerForVariables` reads; `none` is its panic on an odd length.
unfoldable pub decode_order : List ℕ → Option (List ℕ)
decode_order [] = some []
decode_order (b ∷ []) = none
decode_order (b ∷ c ∷ bs) = elim (decode_order bs) [
  | none ↦ none
  | some nums ↦ some ((b + 256 * c) ∷ nums)
]

hex_digit : ℕ → String
hex_digit d =
    if ltb d 5
    then if d == 0
      then "0"
      else if d == 1
      then "1"
      else if d == 2
      then "2"
      else if d == 3
      then "3"
      else "4"
    else if ltb d 10
    then if d == 5
      then "5"
      else if d == 6
      then "6"
      else if d == 7
      then "7"
      else if d == 8
      then "8"
      else "9"
    else if d == 10
    then "A"
    else if d == 11
    then "B"
    else if d == 12
    then "C"
    else if d == 13
    then "D"
    else if d == 14
    then "E"
    else "F"

-- `fmt.Sprintf("Boot%04X", n)`, below 65536.
unfoldable pub variable_name : ℕ → String
unfolding hex_digit
variable_name n =
    "Boot"
    <> hex_digit (n / 4096 % 16)
    <> hex_digit (n / 256 % 16)
    <> hex_digit (n / 16 % 16)
    <> hex_digit (n % 16)

same_bytes : List ℕ → List ℕ → Bool
same_bytes [] [] = true
same_bytes [] (c ∷ cs) = false
same_bytes (b ∷ bs) [] = false
same_bytes (b ∷ bs) (c ∷ cs) = b == c && same_bytes bs cs

-- The loop over the existing entries, which returns the number of one with the same content.
unfoldable pub find_duplicate : List ℕ → ℕ → List (ℕ × BootEntryVariable) → Option ℕ
unfolding same_bytes
find_duplicate bytes attributes [] = none
find_duplicate bytes attributes ((_, v) ∷ es) =
    if same_bytes v.bytes bytes && v.attributes == attributes
    then some v.boot_number
    else find_duplicate bytes attributes es

-- `entries[n] = v`
unfoldable pub insert_entry :
    ℕ → BootEntryVariable → List (ℕ × BootEntryVariable) → List (ℕ × BootEntryVariable)
insert_entry n v [] = (n, v) ∷ []
insert_entry n v ((k, u) ∷ es) = if k == n then (n, v) ∷ es else (k, u) ∷ insert_entry n v es

-- The number that `FindOrCreateEntry` returns, or its error.
pub data Found : Type 0 where
  number : ℕ → Found
  failed : Err → Found

abbrev pub shim_entry : String → BootEntry
shim_entry shim_name = record {
  filename = shim_name;
  label = "elemental-shim";
  options = "";
  description = "elemental-shim";
}

module _ {S : Type 0} (V : Variables S) where
  -- The end of `FindOrCreateEntry`: the entry is new.
  unfoldable pub create_entry : ℕ → List ℕ → BootManager → S → Found × BootManager × S
  unfolding variable_name insert_entry
  create_entry n bytes bm s =
      let (e, s') = V.set_variable (variable_name n) bytes V.attributes s in
      let v : BootEntryVariable = record {
        boot_number = n;
        bytes = bytes;
        attributes = V.attributes;
      } in
      elim e [
        | some x ↦ (failed (some x), bm, s')
        | none ↦ (number n, record bm { entries = insert_entry n v bm.entries }, s')
      ]

  unfoldable pub find_or_create_entry :
      BootEntry → String → BootManager → S → Found × BootManager × S
  unfolding next_free_entry find_duplicate create_entry
  find_or_create_entry entry relative_to bm s = elim (next_free_entry bm) [
    | none ↦ (failed (some (single (plain "maximum number of boot entries exceeded"))), bm, s)
    | some n ↦ elim (V.load_option relative_to entry) [
      | none ↦ (failed (some (single (plain "cannot encode load option"))), bm, s)
      | some bytes ↦ elim (find_duplicate bytes V.attributes bm.entries) [
        | some existing ↦ (number existing, bm, s)
        | none ↦ create_entry n bytes bm s
      ]
    ]
  ]

  unfoldable pub prepend_and_set_boot_order : List ℕ → BootManager → S → Err × BootManager × S
  unfolding add_numbers encode_order
  prepend_and_set_boot_order head bm s =
      let new_order = add_numbers bm.entries [] (head ++ bm.boot_order) in
      let (e, s') = V.set_variable "BootOrder" (encode_order new_order) bm.boot_order_attrs s in
      elim e [ some x ↦ (some x, bm, s') | none ↦ (none, record bm { boot_order = new_order }, s') ]

  -- `CreateBootEntry` of pkg/utils/grub.go, once the boot manager is there.
  unfoldable pub create_boot_entry : String → String → BootManager → S → Err × BootManager × S
  unfolding find_or_create_entry prepend_and_set_boot_order
  create_boot_entry shim_name relative_to bm s =
      let (f, bm', s') = find_or_create_entry (shim_entry shim_name) relative_to bm s in
      elim f [ failed e ↦ (e, bm', s') | number n ↦ prepend_and_set_boot_order (n ∷ []) bm' s' ]
