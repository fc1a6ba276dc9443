-- ===== src/Tests/Boot.antt =====
-- pkg/efi on two boot entries, of which the second is to boot first.
use elemental_cli.Base.{
  ℕ, ◌+◌, ◌≡◌, refl, ◌&&◌, none, some, List, [], ◌∷◌, arith, contains, nat_eq, ℕ_discrete,
}
use elemental_cli.Efi.{
  BootEntryVariable, BootManager, Variables, has_entry, next_free_entry, add_numbers, encode_order,
  decode_order, create_boot_entry, max_boot_entries,
}
use elemental_cli.Efi.BootOrder.{IsDistinct, decode_order-encode_order, add_numbers-prepend}
use elemental_cli.Efi.NextFree.{IsNextFree, next_free_entry-IsNextFree}

abbrev entry : ℕ → List ℕ → BootEntryVariable
entry n bytes = record { boot_number = n; bytes = bytes; attributes = 7 }

abbrev manager : BootManager
manager = record {
  entries = (0, entry 0 (1 ∷ [])) ∷ (1, entry 1 (2 ∷ [])) ∷ [];
  boot_order = 1 ∷ 0 ∷ 9 ∷ [];
  boot_order_attrs = 7;
}

-- The state of the variables is the number of the writes.
abbrev variables : Variables ℕ
variables = record {
  set_variable = λ name bytes attributes n. (none, n + 1);
  load_option = λ relative_to e. some (3 ∷ []);
  attributes = 7;
}

create_boot_entry_run :
    (create_boot_entry variables "shim.efi" "/EFI/boot" manager 0).1.boot_order ≡ 2 ∷ 1 ∷ 0 ∷ []
unfolding create_boot_entry ℕ_discrete
create_boot_entry_run = refl

next_free_entry-IsNextFree_example :
    IsNextFree manager.entries 0 max_boot_entries (next_free_entry manager)
next_free_entry-IsNextFree_example = next_free_entry-IsNextFree manager

decode_order-encode_order_example :
    decode_order (encode_order (1 ∷ 256 ∷ 65535 ∷ [])) ≡ some (1 ∷ 256 ∷ 65535 ∷ [])
decode_order-encode_order_example =
    decode_order-encode_order (1 ∷ 256 ∷ 65535 ∷ []) (omega arith, (omega arith, (omega arith, tt)))

add_numbers-prepend_example :
    let order = add_numbers manager.entries [] (1 ∷ 1 ∷ 0 ∷ 9 ∷ []) in
    (rest : List ℕ) × (order ≡ 1 ∷ rest)
    × IsDistinct order
    × ((m : ℕ)
        → contains order m ≡ (contains (1 ∷ 1 ∷ 0 ∷ 9 ∷ []) m && has_entry manager.entries m))
unfolding has_entry ℕ_discrete
add_numbers-prepend_example = add_numbers-prepend manager.entries 1 (1 ∷ 0 ∷ 9 ∷ []) refl
