-- ===== src/Zones/Numbers.antt =====
-- Which zone an address is said to lie in.
use native.Mathlib.Nat.{mul-div_cancel, mod-eq_of_lt, mod-lt, div-lt_iff_lt-mul}
use zns_tools.Base.{
  ℕ, ◌-◌, ◌*◌, ◌/◌, ◌%◌, ◌^◌, ◌≤◌, ◌<◌, ◌≡◌, ◌↔◌, ap, ◌∙◌, sym, subst, arith, trunc32, not64, sub64,
  two_pow_pos, two_pow-add, two_pow-le, bit_and-high_bits,
}
use zns_tools.Types.{Control}
use zns_tools.Zones.{get_zone_number, zone_sectors}

-- The zone mask, cut to 32 bits.
mask32 : (p : ℕ) → 0 < p → p ≤ 2 ^ 32 → trunc32 (not64 (sub64 p 1)) ≡ 2 ^ 32 - p
mask32 p pos h = omega arith

-- On a device whose zones are 2 ^ k sectors, the zone number is the address over the zone size,
-- modulo 2 ^ (32 - k): the address bits from 2 ^ 32 on are lost.
pub get_zone_number_lem :
    (c : Control) (k lba : ℕ)
    → k ≤ 32
    → zone_sectors c ≡ 2 ^ k
    → get_zone_number c lba ≡ lba / 2 ^ k % 2 ^ (32 - k)
unfolding get_zone_number
get_zone_number_lem c k lba h size =
    rw
      (
        size,
        mask32 (2 ^ k) (two_pow_pos k) (two_pow-le k 32 h),
        bit_and-high_bits 32 k lba h,
        mul-div_cancel (lba / 2 ^ k % 2 ^ (32 - k)) (two_pow_pos k),
      )
      (mod-eq_of_lt small)
  where
    small : lba / 2 ^ k % 2 ^ (32 - k) < 2 ^ 32
    small =
        omega
          (arith, mod-lt (lba / 2 ^ k) (two_pow_pos (32 - k)), two_pow-le (32 - k) 32 (omega arith))

-- On a device whose zones are 2 ^ k sectors, k at most 32, an address is given the number of its
-- own zone exactly when it is below 2 ^ 32.
pub get_zone_number_exact_iff :
    (c : Control) (k lba : ℕ)
    → k ≤ 32
    → zone_sectors c ≡ 2 ^ k
    → (get_zone_number c lba ≡ lba / 2 ^ k) ↔ (lba < 2 ^ 32)
get_zone_number_exact_iff c k lba h size = (only, whenever)
  where
    whole : 2 ^ (32 - k) * 2 ^ k ≡ 2 ^ 32
    whole = sym (two_pow-add (32 - k) k) ∙ ap (λ (t : ℕ). 2 ^ t) {y = 32} (omega arith)

    only : get_zone_number c lba ≡ lba / 2 ^ k → lba < 2 ^ 32
    only e =
        subst (λ (t : ℕ). lba < t) whole
          ((div-lt_iff_lt-mul (two_pow_pos k)).0 (
            omega (
              arith,
              get_zone_number_lem c k lba h size,
              mod-lt (lba / 2 ^ k) (two_pow_pos (32 - k)),
            )))

    whenever : lba < 2 ^ 32 → get_zone_number c lba ≡ lba / 2 ^ k
    whenever low =
        get_zone_number_lem c k lba h size
        ∙ mod-eq_of_lt
            ((div-lt_iff_lt-mul (two_pow_pos k)).1 (subst (λ (t : ℕ). lba < t) (sym whole) low))
