-- ===== src/Json/Strings.antt =====
-- The strings that lib/libjson.c (under zns-tools.fs/) makes of numbers: `uint64_to_hex_string_cast`
-- to `uint32_to_string_cast`.
use zns_tools.Base.{
  ℕ, ◌-◌, ◌^◌, ◌<◌, ◌≡◌, ◌↔◌, refl, sym, ◌∙◌, Option, none, some, [], ◌∷◌, map, Text, text_eq, take,
  drop, ltb, if◌then◌else◌, inl, inr, Bool-cases, arith,
}
use zns_tools.Json.Numerals.{digits_of, char_of, digit_of, read_from, read-cut_iff}

-- "0x", and the digits of %x.
abbrev pub hex : ℕ → Text
hex n = 48 ∷ 120 ∷ map char_of (digits_of 16 n)

-- %d of a uint32_t: its upper half is printed as a negative number.
abbrev pub int : ℕ → Text
int n =
    if ltb n (2 ^ 31)
    then map char_of (digits_of 10 n)
    else 45 ∷ map char_of (digits_of 10 (2 ^ 32 - n))

-- snprintf keeps one byte less than it is given: sizeof(uint64_t) + 7, sizeof(uint32_t) + 7 and
-- sizeof(uint32_t).
unfoldable pub uint64_to_hex_string_cast : ℕ → Text
uint64_to_hex_string_cast value = take 14 (hex value)

unfoldable pub uint32_to_hex_string_cast : ℕ → Text
uint32_to_hex_string_cast value = take 10 (hex value)

unfoldable pub uint32_to_string_cast : ℕ → Text
uint32_to_string_cast value = take 3 (int value)

-- How a reader of the file takes them: a number in hexadecimal behind "0x", and one in decimal.
pub read_hex : Text → Option ℕ
read_hex s = if text_eq (take 2 s) (48 ∷ 120 ∷ []) then read_from 16 0 (drop 2 s) else none

pub read_decimal : Text → Option ℕ
read_decimal s = read_from 10 0 s

read_hex-prefixed : (s : Text) → read_hex (48 ∷ 120 ∷ s) ≡ read_from 16 0 s
unfolding read_hex text_eq
read_hex-prefixed s = refl

-- An address written as a JSON string reads back as itself exactly when it is below 2 ^ 48.
pub read_hex-uint64_iff :
    (value : ℕ) → (read_hex (uint64_to_hex_string_cast value) ≡ some value) ↔ (value < 2 ^ 48)
unfolding uint64_to_hex_string_cast
read_hex-uint64_iff value =
    let cut = read-cut_iff 16 value 11 (omega arith) (omega arith) in
    let prefixed = read_hex-prefixed (take 12 (map char_of (digits_of 16 value))) in
    (λ h. cut.0 (sym prefixed ∙ h), λ h. prefixed ∙ cut.1 h)

-- Every 32-bit number that is written in hexadecimal, a state or a mask, reads back as itself.
pub read_hex-uint32 :
    (value : ℕ) → value < 2 ^ 32 → read_hex (uint32_to_hex_string_cast value) ≡ some value
unfolding uint32_to_hex_string_cast
read_hex-uint32 value fits =
    let cut = read-cut_iff 16 value 7 (omega arith) (omega arith) in
    read_hex-prefixed (take 8 (map char_of (digits_of 16 value))) ∙ cut.1 fits

read_negative : (s : Text) → read_decimal (45 ∷ s) ≡ none
unfolding read_decimal digit_of
read_negative s = refl

-- The number of a zone or a segment, which is the key of its object, reads back as itself exactly
-- when it is below 1000.
pub read_decimal-uint32_iff :
    (value : ℕ) → (read_decimal (uint32_to_string_cast value) ≡ some value) ↔ (value < 1000)
unfolding uint32_to_string_cast
read_decimal-uint32_iff value = elim (Bool-cases (ltb value (2 ^ 31))) [
  | inl low ↦ rw low (unfold read_decimal in read-cut_iff 10 value 2 (omega arith) (omega arith))
  | inr high ↦ rw high (
    λ h. let minus = read_negative (take 2 (map char_of (digits_of 10 (2 ^ 32 - value)))) in cc,
    λ h. absurd (ground arith),
  )
]
