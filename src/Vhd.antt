-- ===== src/Vhd.antt =====
-- pkg/utils/vhd.go: the footer that makes a raw disk a fixed VHD. Bytes are numbers below 256. The
-- code computes the geometry with floats, which are exact here: the numbers are below 2 ^ 28, and
-- each quotient is rounded down.
pub mod Geometry
pub mod Footer
use elemental_cli.Base.{
  ℕ, zero, suc, ◌+◌, ◌-◌, ◌*◌, ◌/◌, ◌%◌, ◌^◌, String, Bool, true, false, not, ◌||◌, List, [], ◌∷◌,
  ◌++◌, ltb, leb, length, if◌then◌else◌,
}
use Prim.Native.Char.{code}

-- `VHDHeader`: the bytes of each field.
pub record VhdHeader : Type 0 where
  pub cookie : List ℕ
  pub features : List ℕ
  pub file_format_version : List ℕ
  pub data_offset : List ℕ
  pub timestamp : List ℕ
  pub creator_application : List ℕ
  pub creator_version : List ℕ
  pub creator_host_os : List ℕ
  pub original_size : List ℕ
  pub current_size : List ℕ
  pub disk_geometry : List ℕ
  pub disk_type : List ℕ
  pub checksum : List ℕ
  pub unique_id : List ℕ
  pub saved_state : List ℕ
  pub reserved : List ℕ

unfoldable pub zeros : ℕ → List ℕ
zeros zero = []
zeros (suc n) = 0 ∷ zeros n

-- `VHDHeader{}`
abbrev pub empty_header : VhdHeader
empty_header = record {
  cookie = zeros 8;
  features = zeros 4;
  file_format_version = zeros 4;
  data_offset = zeros 8;
  timestamp = zeros 4;
  creator_application = zeros 4;
  creator_version = zeros 4;
  creator_host_os = zeros 4;
  original_size = zeros 8;
  current_size = zeros 8;
  disk_geometry = zeros 4;
  disk_type = zeros 4;
  checksum = zeros 4;
  unique_id = zeros 16;
  saved_state = zeros 1;
  reserved = zeros 427;
}

-- `binary.Write(w, binary.BigEndian, header)`
unfoldable pub serialize : VhdHeader → List ℕ
serialize h =
    h.cookie
    ++ (h.features
        ++ (h.file_format_version
            ++ (h.data_offset
                ++ (h.timestamp
                    ++ (h.creator_application
                        ++ (h.creator_version
                            ++ (h.creator_host_os
                                ++ (h.original_size
                                    ++ (h.current_size
                                        ++ (h.disk_geometry
                                            ++ (h.disk_type
                                                ++ (h.checksum
                                                    ++ (h.unique_id
                                                        ++ (h.saved_state
                                                            ++ h.reserved))))))))))))))

-- `copy(dst, src)`, with the destination after it.
unfoldable pub copy : (src dst : List ℕ) → List ℕ
copy src [] = []
copy [] (d ∷ dst) = d ∷ dst
copy (s ∷ src) (d ∷ dst) = s ∷ copy src dst

-- A hexadecimal digit in lower case.
unfoldable pub nibble : ℕ → ℕ
nibble c = if ltb c b'a' then c - b'0' else c - b'a' + 10

-- `hex.DecodeString` of an even number of such digits.
unfoldable pub decode_hex : String → List ℕ
unfolding nibble
decode_hex String.[] = []
decode_hex (String.◌∷◌ a String.[]) = []
decode_hex (String.◌∷◌ a (String.◌∷◌ b s)) = (nibble (code a) * 16 + nibble (code b)) ∷ decode_hex s

-- `hexToField`, with the field after it.
unfoldable pub hex_to_field : String → List ℕ → List ℕ
unfolding decode_hex copy
hex_to_field hexs field = copy (decode_hex hexs) field

-- The bytes that `binary.BigEndian` puts for a number of k bytes.
unfoldable pub big_endian : ℕ → ℕ → List ℕ
big_endian zero n = []
big_endian (suc k) n = big_endian k (n / 256) ++ (n % 256 ∷ [])

unfoldable pub sum : List ℕ → ℕ
sum [] = 0
sum (b ∷ bs) = b + sum bs

-- `uint32(^checksum)` of an `int` that is not negative.
unfoldable pub complement : ℕ → ℕ
complement n = 2 ^ 32 - 1 - n % 2 ^ 32

-- `generateChecksum`, with the header after it; its loop is on the 512 bytes of the footer.
unfoldable pub generate_checksum : VhdHeader → VhdHeader
unfolding serialize sum complement big_endian
generate_checksum h = record h { checksum = big_endian 4 (complement (sum (serialize h))) }

-- `chs`
pub record Chs : Type 0 where
  pub cylinders : ℕ
  pub heads : ℕ
  pub sectors_per_track : ℕ

-- The state of the calculation: the sectors per track, the heads, and the cylinders times the heads.
abbrev pub tracks : (total sectors_per_track heads : ℕ) → Chs
tracks total sectors_per_track heads = record {
  cylinders = total / sectors_per_track;
  heads = heads;
  sectors_per_track = sectors_per_track;
}

abbrev pub max_sectors : ℕ
max_sectors = 267382800

unfoldable pub few_heads : ℕ → ℕ
few_heads tracks = let heads = (tracks + 1023) / 1024 in if ltb heads 4 then 4 else heads

-- The two conditions that raise the sectors per track.
unfoldable pub raise_31 : ℕ → Chs → Chs
raise_31 total c =
    if leb (c.heads * 1024) c.cylinders || ltb 16 c.heads then tracks total 31 16 else c

unfoldable pub raise_63 : ℕ → Chs → Chs
raise_63 total c = if leb (c.heads * 1024) c.cylinders then tracks total 63 16 else c

unfoldable pub chs_calculation : ℕ → Chs
unfolding few_heads raise_31 raise_63
chs_calculation sectors =
    let total = if ltb max_sectors sectors then max_sectors else sectors in
    let c =
      if leb 66059280 total
      then tracks total 255 16
      else raise_63 total (raise_31 total (tracks total 17 (few_heads (total / 17)))) in
    record c { cylinders = c.cylinders / c.heads }

-- The cylinders in 2 bytes, the heads in 1 and the sectors per track in 1.
unfoldable pub geometry_bytes : Chs → List ℕ
unfolding big_endian
geometry_bytes c =
    big_endian 2 (c.cylinders % 2 ^ 16) ++ (c.heads % 256 ∷ c.sectors_per_track % 256 ∷ [])

-- `newVHDFixed` up to its checksum: of a size in bytes, at a time in seconds since 1970, with the
-- bytes of the text of a new UUID.
unfoldable pub unsummed : (size now : ℕ) (uuid : List ℕ) → VhdHeader
unfolding hex_to_field big_endian chs_calculation geometry_bytes copy
unsummed size now uuid = record empty_header {
  features = hex_to_field "00000002" (zeros 4);
  file_format_version = hex_to_field "00010000" (zeros 4);
  data_offset = hex_to_field "ffffffffffffffff" (zeros 8);
  timestamp = big_endian 4 ((now + 2 ^ 32 - 946684800) % 2 ^ 32);
  creator_application = hex_to_field "656c656d" (zeros 4);
  creator_host_os = hex_to_field "73757365" (zeros 4);
  original_size = big_endian 8 size;
  current_size = big_endian 8 size;
  disk_geometry = geometry_bytes (chs_calculation (size / 512));
  disk_type = hex_to_field "00000002" (zeros 4);
  checksum = hex_to_field "00000000" (zeros 4);
  unique_id = copy uuid (zeros 16);
}

-- `newVHDFixed`
unfoldable pub new_vhd_fixed : (size now : ℕ) (uuid : List ℕ) → VhdHeader
unfolding unsummed generate_checksum
new_vhd_fixed size now uuid = generate_checksum (unsummed size now uuid)
