-- ===== src/Vhd/Footer.antt =====
-- The footer of a fixed VHD: its length, its checksum, and the sizes in it.
use elemental_cli.Base.{
  ℕ, zero, suc, ◌+◌, ◌-◌, ◌*◌, ◌/◌, ◌%◌, ◌^◌, ◌<◌, ◌≡◌, refl, sym, ap, String, List, [], ◌∷◌, ◌++◌,
  arith, length, length-append,
}
use elemental_cli.Vhd.{
  VhdHeader, zeros, serialize, copy, hex_to_field, decode_hex, big_endian, sum, complement,
  generate_checksum, unsummed, Chs, geometry_bytes, chs_calculation, new_vhd_fixed,
}

-- The number whose bytes these are, behind one.
abbrev pub of_big_endian : ℕ → List ℕ → ℕ
of_big_endian n [] = n
of_big_endian n (b ∷ bs) = of_big_endian (n * 256 + b) bs

of_big_endian-append :
    (n : ℕ) (bs cs : List ℕ) → of_big_endian n (bs ++ cs) ≡ of_big_endian (of_big_endian n bs) cs
of_big_endian-append n [] cs = refl
of_big_endian-append n (b ∷ bs) cs = of_big_endian-append (n * 256 + b) bs cs

length-big_endian : (k n : ℕ) → length (big_endian k n) ≡ k
unfolding big_endian
length-big_endian zero n = refl
length-big_endian (suc k) n =
    omega
      (arith, length-append (big_endian k (n / 256)) (n % 256 ∷ []), length-big_endian k (n / 256))

length-zeros : (n : ℕ) → length (zeros n) ≡ n
unfolding zeros
length-zeros zero = refl
length-zeros (suc n) = omega (arith, length-zeros n)

length-copy : (src dst : List ℕ) → length (copy src dst) ≡ length dst
unfolding copy
length-copy src [] = refl
length-copy [] (d ∷ dst) = refl
length-copy (s ∷ src) (d ∷ dst) = omega (arith, length-copy src dst)

-- The two sizes that the footer holds, 64-bit numbers, are read back.
of_big_endian-big_endian_8 : (n : ℕ) → n < 2 ^ 64 → of_big_endian 0 (big_endian 8 n) ≡ n
unfolding big_endian
of_big_endian-big_endian_8 n h = omega arith

of_big_endian-big_endian_4 : (n : ℕ) → n < 2 ^ 32 → of_big_endian 0 (big_endian 4 n) ≡ n
unfolding big_endian
of_big_endian-big_endian_4 n h = omega arith

length-serialize :
    (h : VhdHeader)
    → length (serialize h)
      ≡ length h.cookie
        + (length h.features
            + (length h.file_format_version
                + (length h.data_offset
                    + (length h.timestamp
                        + (length h.creator_application
                            + (length h.creator_version
                                + (length h.creator_host_os
                                    + (length h.original_size
                                        + (length h.current_size
                                            + (length h.disk_geometry
                                                + (length h.disk_type
                                                    + (length h.checksum
                                                        + (length h.unique_id
                                                            + (length h.saved_state
                                                            + length h.reserved))))))))))))))
unfolding serialize
length-serialize h = simp length-append

-- The sum of a footer without its checksum and the complement of it.
complement_lem : (n : ℕ) → (complement n + n) % 2 ^ 32 ≡ 2 ^ 32 - 1
unfolding complement
complement_lem n = omega arith

complement-lt : (n : ℕ) → complement n < 2 ^ 32
unfolding complement
complement-lt n = omega arith

length-hex_to_field :
    (hexs : String) (field : List ℕ) → length (hex_to_field hexs field) ≡ length field
unfolding hex_to_field
length-hex_to_field hexs field = length-copy (decode_hex hexs) field

-- Every field has its size.
record IsSized (h : VhdHeader) : Type 0 where
  cookie : length h.cookie ≡ 8
  features : length h.features ≡ 4
  file_format_version : length h.file_format_version ≡ 4
  data_offset : length h.data_offset ≡ 8
  timestamp : length h.timestamp ≡ 4
  creator_application : length h.creator_application ≡ 4
  creator_version : length h.creator_version ≡ 4
  creator_host_os : length h.creator_host_os ≡ 4
  original_size : length h.original_size ≡ 8
  current_size : length h.current_size ≡ 8
  disk_geometry : length h.disk_geometry ≡ 4
  disk_type : length h.disk_type ≡ 4
  checksum : length h.checksum ≡ 4
  unique_id : length h.unique_id ≡ 16
  saved_state : length h.saved_state ≡ 1
  reserved : length h.reserved ≡ 427

serialize-IsSized : (h : VhdHeader) → IsSized h → length (serialize h) ≡ 512
serialize-IsSized h z = omega (arith, length-serialize h)

length-geometry_bytes : (c : Chs) → length (geometry_bytes c) ≡ 4
unfolding geometry_bytes
length-geometry_bytes c = omega (
  arith,
  length-append (big_endian 2 (c.cylinders % 2 ^ 16))
      (c.heads % 256 ∷ c.sectors_per_track % 256 ∷ []),
  length-big_endian 2 (c.cylinders % 2 ^ 16),
)

unsummed-IsSized : (size now : ℕ) (uuid : List ℕ) → IsSized (unsummed size now uuid)
unfolding unsummed zeros
unsummed-IsSized size now uuid = record {
  cookie = refl;
  features = length-hex_to_field "00000002" (zeros 4);
  file_format_version = length-hex_to_field "00010000" (zeros 4);
  data_offset = length-hex_to_field "ffffffffffffffff" (zeros 8);
  timestamp = length-big_endian 4 ((now + 2 ^ 32 - 946684800) % 2 ^ 32);
  creator_application = length-hex_to_field "656c656d" (zeros 4);
  creator_version = refl;
  creator_host_os = length-hex_to_field "73757365" (zeros 4);
  original_size = length-big_endian 8 size;
  current_size = length-big_endian 8 size;
  disk_geometry = length-geometry_bytes (chs_calculation (size / 512));
  disk_type = length-hex_to_field "00000002" (zeros 4);
  checksum = length-hex_to_field "00000000" (zeros 4);
  unique_id = length-copy uuid (zeros 16);
  saved_state = refl;
  reserved = length-zeros 427;
}

generate_checksum-IsSized : (h : VhdHeader) → IsSized h → IsSized (generate_checksum h)
unfolding generate_checksum
generate_checksum-IsSized h z = record {
  cookie = z.cookie;
  features = z.features;
  file_format_version = z.file_format_version;
  data_offset = z.data_offset;
  timestamp = z.timestamp;
  creator_application = z.creator_application;
  creator_version = z.creator_version;
  creator_host_os = z.creator_host_os;
  original_size = z.original_size;
  current_size = z.current_size;
  disk_geometry = z.disk_geometry;
  disk_type = z.disk_type;
  checksum = length-big_endian 4 (complement (sum (serialize h)));
  unique_id = z.unique_id;
  saved_state = z.saved_state;
  reserved = z.reserved;
}

-- The sum of all bytes but the checksum, with which it is compared.
abbrev pub sum_without_checksum : VhdHeader → ℕ
sum_without_checksum h = sum (serialize (record h { checksum = zeros 4 }))

generate_checksum-sum :
    (h : VhdHeader)
    → h.checksum ≡ zeros 4
    → (of_big_endian 0 (generate_checksum h).checksum + sum_without_checksum (generate_checksum h))
        % 2 ^ 32
      ≡ 2 ^ 32 - 1
unfolding generate_checksum
generate_checksum-sum h e =
    let n = sum (serialize h) in
    let same : sum_without_checksum h ≡ n =
      ap (λ k. sum (serialize (record h { checksum = k }))) (sym e) in
    rw (of_big_endian-big_endian_4 (complement n) (complement-lt n), same) (complement_lem n)

unsummed-checksum : (size now : ℕ) (uuid : List ℕ) → (unsummed size now uuid).checksum ≡ zeros 4
unfolding unsummed zeros hex_to_field decode_hex
unsummed-checksum size now uuid = refl

-- What a reader of the footer relies on.
pub record IsFooter (size : ℕ) (h : VhdHeader) : Type 0 where
  pub long : length (serialize h) ≡ 512
  pub summed : (of_big_endian 0 h.checksum + sum_without_checksum h) % 2 ^ 32 ≡ 2 ^ 32 - 1
  pub original : of_big_endian 0 h.original_size ≡ size
  pub current : of_big_endian 0 h.current_size ≡ size
  pub geometry : h.disk_geometry ≡ geometry_bytes (chs_calculation (size / 512))

-- The footer of a disk of less than 2 ^ 64 bytes is 512 bytes long, whatever the time and the UUID;
-- its checksum and the sum of its other bytes add up to 2 ^ 32 - 1, modulo 2 ^ 32; the size in bytes
-- is read back from its two fields for it; and the geometry is that of the sectors of 512 bytes.
pub new_vhd_fixed-IsFooter :
    (size now : ℕ) (uuid : List ℕ) → size < 2 ^ 64 → IsFooter size (new_vhd_fixed size now uuid)
unfolding new_vhd_fixed generate_checksum unsummed
new_vhd_fixed-IsFooter size now uuid small =
    let h = unsummed size now uuid in
    record {
      long =
          serialize-IsSized (generate_checksum h)
            (generate_checksum-IsSized h (unsummed-IsSized size now uuid));
      summed = generate_checksum-sum h (unsummed-checksum size now uuid);
      original = of_big_endian-big_endian_8 size small;
      current = of_big_endian-big_endian_8 size small;
      geometry = refl;
    }
