-- ===== src/Json/Tests.antt =====
-- Strings of concrete numbers.
use zns_tools.Base.{◌≡◌, ◌↔◌, ◌<◌, ◌^◌, refl, some, [], ◌∷◌, arith}
use zns_tools.Base.{List, Text, ◌++◌, length}
use zns_tools.Types.{SegmentInfo, Extent, Control}
use zns_tools.Fixtures.{control, extent_at, one_file}
use zns_tools.Json.Objects.{JsonC}
use zns_tools.Json.Strings.{
  uint32_to_hex_string_cast, uint64_to_hex_string_cast, uint32_to_string_cast, read_hex,
  read_decimal, read_hex-uint32, read_hex-uint64_iff, read_decimal-uint32_iff,
}

-- A state, 0x20, and zone 1234 cut to 123.
state_string : uint32_to_hex_string_cast 32 ≡ 48 ∷ 120 ∷ 50 ∷ 48 ∷ []
unfolding uint32_to_hex_string_cast
state_string = refl

zone_string : uint32_to_string_cast 1234 ≡ 49 ∷ 50 ∷ 51 ∷ []
unfolding uint32_to_string_cast
zone_string = refl

read_hex-uint32_example : read_hex (uint32_to_hex_string_cast 0xFFFF0000) ≡ some 0xFFFF0000
read_hex-uint32_example = read_hex-uint32 0xFFFF0000 (omega arith)

read_hex-uint64_iff_example :
    (read_hex (uint64_to_hex_string_cast 0x30000) ≡ some 0x30000) ↔ (0x30000 < 2 ^ 48)
read_hex-uint64_iff_example = read_hex-uint64_iff 0x30000

read_decimal-uint32_iff_example :
    (read_decimal (uint32_to_string_cast 1234) ≡ some 1234) ↔ (1234 < 1000)
read_decimal-uint32_iff_example = read_decimal-uint32_iff 1234

-- json-c with the bytes of a text for a value.
abbrev texts : JsonC Text
texts = record {
  null = [];
  new_object = [];
  object_add = λ o key value. o ++ (key ++ value);
  new_array = [];
  array_add = λ a value. 44 ∷ a ++ value;
  array_length = λ a. length a;
  new_string = λ s. s;
  new_boolean = λ b. [];
  new_int = λ n. n ∷ [];
  new_uint64 = λ n. n ∷ [];
  new_double = λ n. n ∷ [];
}

abbrev info : SegmentInfo
info = record { id = 48; type = 0; valid_blocks = 512 }

abbrev two_extents : List Extent
two_extents =
    record (extent_at 196608 8) { fs_info = some info }
    ∷ record (extent_at 196624 8) { fs_info = some info }
    ∷ []

abbrev counted : Control
counted = record control { file_counter_map = some one_file }
