-- ===== src/Base/Strings.antt =====
-- C strings: the bytes before the terminating zero.
use Prim.Native.Char.{code}
use Prim.Native.String.{String}
use Prim.Native.Nat.{ℕ, zero, suc, ◌≤◌}
use mathlib.Core.Path.{◌≡◌, refl}
use mathlib.Core.Bool.{Bool, true, false, ◌&&◌}
use mathlib.Core.List.{List, [], ◌∷◌}
use native.Mathlib.Omega.{arith}
use zns_tools.Base.Tests.{◌==◌}
use zns_tools.Base.Lists.{length, take}

abbrev pub Text : Type 0
Text = List ℕ

-- strcmp(a, b) == 0
unfoldable pub text_eq : Text → Text → Bool
text_eq [] [] = true
text_eq [] (y ∷ ys) = false
text_eq (x ∷ xs) [] = false
text_eq (x ∷ xs) (y ∷ ys) = x == y && text_eq xs ys

-- strncmp(a, b, n) == 0
unfoldable pub text_eq_n : ℕ → Text → Text → Bool
text_eq_n zero xs ys = true
text_eq_n (suc n) [] [] = true
text_eq_n (suc n) [] (y ∷ ys) = false
text_eq_n (suc n) (x ∷ xs) [] = false
text_eq_n (suc n) (x ∷ xs) (y ∷ ys) = x == y && text_eq_n n xs ys

pub text_eq_sound : (xs ys : Text) → text_eq xs ys ≡ true → xs ≡ ys
unfolding text_eq
text_eq_sound [] [] h = refl
text_eq_sound [] (y ∷ ys) h = cc
text_eq_sound (x ∷ xs) [] h = cc
text_eq_sound (x ∷ xs) (y ∷ ys) h = ground (arith, text_eq_sound xs ys)

pub text_eq_refl : (xs : Text) → text_eq xs xs ≡ true
unfolding text_eq
text_eq_refl [] = refl
text_eq_refl (x ∷ xs) = ground (arith, text_eq_refl xs)

-- Equal lengths, and equal up to that length, is equality.
pub text_eq_n-length :
    (xs ys : Text) → (length xs == length ys && text_eq_n (length xs) xs ys) ≡ text_eq xs ys
unfolding text_eq text_eq_n
text_eq_n-length [] [] = refl
text_eq_n-length [] (y ∷ ys) = ground arith
text_eq_n-length (x ∷ xs) [] = ground arith
text_eq_n-length (x ∷ xs) (y ∷ ys) = ground (arith, text_eq_n-length xs ys)

pub length-take-le : (n : ℕ) (xs : Text) → length (take n xs) ≤ n
length-take-le zero xs = omega arith
length-take-le (suc n) [] = omega arith
length-take-le (suc n) (x ∷ xs) = omega (arith, length-take-le n xs)

-- Cutting a text that fits changes nothing.
pub take_all : (n : ℕ) (xs : Text) → length xs ≤ n → take n xs ≡ xs
take_all zero [] h = refl
take_all zero (x ∷ xs) h = elim h [ ]
take_all (suc n) [] h = refl
take_all (suc n) (x ∷ xs) h = ground (arith, take_all n xs)

-- The bytes of a literal.
abbrev pub codes : String → Text
codes String.[] = []
codes (String.◌∷◌ ch s) = code ch ∷ codes s
