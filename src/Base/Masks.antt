-- ===== src/Base/Masks.antt =====
-- `x & mask` for the masks that round an address down: the high bits of a word, from bit `k` on.
use Prim.Native.Nat.{
  ℕ, zero, suc, ◌+◌, ◌-◌, ◌*◌, ◌/◌, ◌%◌, ◌^◌, ◌≤◌, ◌<◌, min, bit_and, digits, bit_and-bitwise,
}
use mathlib.Core.Path.{◌≡◌, refl, ap, sym, subst, ◌∙◌}
use native.Mathlib.Omega.{arith}
use native.Mathlib.Nat.{
  one-le-pow, two-pow-succ, div-div-eq-div-mul, div-eq_of_lt-le, div-add-mod, mod-lt, zero-add,
  mod-eq_of_lt, div-lt_iff_lt-mul, pow-le-pow_right,
}

and_fuel : (n m a b : ℕ) → a ≤ n → a ≤ m → digits (λ y. 0) min n a b ≡ digits (λ y. 0) min m a b
and_fuel zero zero a b p q = refl
and_fuel zero (suc m) zero b p q = refl
and_fuel zero (suc m) (suc a) b p q = elim p [ ]
and_fuel (suc n) zero zero b p q = refl
and_fuel (suc n) zero (suc a) b p q = elim q [ ]
and_fuel (suc n) (suc m) zero b p q = refl
and_fuel (suc n) (suc m) (suc a) b p q =
    omega (arith, and_fuel n m (suc a / 2) (b / 2) (omega arith) (omega arith))

-- The lowest binary digit of a conjunction, and the rest of it.
pub bit_and-step : (a b : ℕ) → bit_and a b ≡ bit_and (a / 2) (b / 2) * 2 + min (a % 2) (b % 2)
bit_and-step zero b = omega (arith, bit_and-bitwise 0 b, bit_and-bitwise 0 (b / 2))
bit_and-step (suc a) b = omega (
  arith,
  bit_and-bitwise (suc a) b,
  bit_and-bitwise (suc a / 2) (b / 2),
  and_fuel a (suc a / 2) (suc a / 2) (b / 2) (omega arith) (omega arith),
)

pub two_pow_pos : (k : ℕ) → 0 < 2 ^ k
two_pow_pos k = one-le-pow k 2 (omega arith)

pub two_pow-add : (m k : ℕ) → 2 ^ (m + k) ≡ 2 ^ m * 2 ^ k
two_pow-add zero k = rw zero-add (omega arith)
two_pow-add (suc m) k =
    let e : suc m + k ≡ suc (m + k) = omega arith in
    rw e (
      omega
        (arith, two-pow-succ (m + k), two_pow-add m k, ap (λ (t : ℕ). t * 2 ^ k) (two-pow-succ m)))

-- The quotient and remainder are the only pair that adds up.
pub div-mod_unique : (a d q r : ℕ) → r < d → a ≡ q * d + r → (a / d ≡ q) × (a % d ≡ r)
div-mod_unique a d q r h e =
    (quotient, omega (arith, div-add-mod a d, ap (λ (t : ℕ). d * t) quotient))
  where
    quotient : a / d ≡ q
    quotient = div-eq_of_lt-le {k = q} d {m = a} (omega arith) (omega arith)

pub div-mul-two : (a p : ℕ) → a / 2 / p ≡ a / (p + p)
div-mul-two a p = div-div-eq-div-mul a 2 p ∙ ap (λ (t : ℕ). a / t) (omega arith)

mod-double : (a p : ℕ) → 0 < p → a / 2 % p * 2 + a % 2 ≡ a % (p + p)
mod-double a p h =
    sym
      (div-mod_unique a (p + p) (a / 2 / p) (a / 2 % p * 2 + a % 2)
        (omega (arith, mod-lt (a / 2) h)) (omega (arith, div-add-mod (a / 2) p))).1

pub bit_and-zero_le : (n a : ℕ) → a ≤ n → bit_and a 0 ≡ 0
bit_and-zero_le zero zero h = bit_and-bitwise 0 0
bit_and-zero_le zero (suc a) h = elim h [ ]
bit_and-zero_le (suc n) zero h = bit_and-bitwise 0 0
bit_and-zero_le (suc n) (suc a) h =
    omega (arith, bit_and-step (suc a) 0, bit_and-zero_le n (suc a / 2) (omega arith))

-- The `m` lowest bits.
pub bit_and-ones : (m a : ℕ) → bit_and a (2 ^ m - 1) ≡ a % 2 ^ m
bit_and-ones zero a = bit_and-zero_le a a (omega arith) ∙ omega arith
bit_and-ones (suc m) a =
    let p = two_pow_pos m in
    let half : (2 ^ suc m - 1) / 2 ≡ 2 ^ m - 1 = omega (arith, two-pow-succ m, p) in
    rw (two-pow-succ m) (
      omega (
        arith,
        p,
        bit_and-step a (2 ^ m + 2 ^ m - 1),
        ap (bit_and (a / 2)) (ap (λ (t : ℕ). (t - 1) / 2) (sym (two-pow-succ m)) ∙ half),
        bit_and-ones m (a / 2),
        mod-double a (2 ^ m) p,
      ))

-- A mask whose `k` lowest bits are clear.
pub bit_and-mul_two_pow : (k a m : ℕ) → bit_and a (m * 2 ^ k) ≡ bit_and (a / 2 ^ k) m * 2 ^ k
bit_and-mul_two_pow zero a m =
    let e : m * 1 ≡ m = omega arith in let d : a / 1 ≡ a = omega arith in rw (e, d) (omega arith)
bit_and-mul_two_pow (suc k) a m =
    let half : m * 2 ^ suc k / 2 ≡ m * 2 ^ k =
      omega (arith, ap (λ (t : ℕ). m * t) (two-pow-succ k)) in
    omega (
      arith,
      bit_and-step a (m * 2 ^ suc k),
      ap (bit_and (a / 2)) half,
      bit_and-mul_two_pow k (a / 2) m,
      ap (λ t. bit_and t m) (div-mul-two a (2 ^ k) ∙ ap (λ (t : ℕ). a / t) (sym (two-pow-succ k))),
      ap (λ (t : ℕ). bit_and (a / 2 ^ suc k) m * t) (two-pow-succ k),
      ap (λ (t : ℕ). t * 2 ^ k)
          (ap (λ t. bit_and t m)
            (div-mul-two a (2 ^ k) ∙ ap (λ (t : ℕ). a / t) (sym (two-pow-succ k)))),
      ap (λ (t : ℕ). m * t) (two-pow-succ k),
    )

sub-one-mul : (a b : ℕ) → 0 < a → (a - 1) * b + b ≡ a * b
sub-one-mul zero b h = elim h [ ]
sub-one-mul (suc a) b h = let e : suc a - 1 ≡ a = omega arith in rw e (omega arith)

-- The mask of the bits from `k` up to `w`.
pub bit_and-high_bits :
    (w k a : ℕ) → k ≤ w → bit_and a (2 ^ w - 2 ^ k) ≡ a / 2 ^ k % 2 ^ (w - k) * 2 ^ k
bit_and-high_bits w k a h =
    let e : w ≡ w - k + k = omega arith in
    let split : 2 ^ w - 2 ^ k ≡ (2 ^ (w - k) - 1) * 2 ^ k = omega (
      arith,
      sub-one-mul (2 ^ (w - k)) (2 ^ k) (two_pow_pos (w - k)),
      ap (λ (t : ℕ). 2 ^ t) e ∙ two_pow-add (w - k) k,
    ) in
    rw (split, bit_and-mul_two_pow, bit_and-ones)

-- On an address that fits the word, such a mask rounds down to a multiple of `2 ^ k`.
pub bit_and-high_bits_lt :
    (w k a : ℕ) → k ≤ w → a < 2 ^ w → bit_and a (2 ^ w - 2 ^ k) ≡ a / 2 ^ k * 2 ^ k
bit_and-high_bits_lt w k a h fits =
    bit_and-high_bits w k a h ∙ ap (λ (t : ℕ). t * 2 ^ k) (mod-eq_of_lt small)
  where
    small : a / 2 ^ k < 2 ^ (w - k)
    small = (div-lt_iff_lt-mul (two_pow_pos k)).1 (
        subst (λ (t : ℕ). a < t)
          (ap (λ (t : ℕ). 2 ^ t) (let e : w ≡ w - k + k = omega arith in e) ∙ two_pow-add (w - k) k)
          fits)

pub two_pow-le : (k m : ℕ) → k ≤ m → 2 ^ k ≤ 2 ^ m
two_pow-le k m h = pow-le-pow_right {n = 2} (omega arith) h
