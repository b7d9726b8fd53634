-- ===== src/Json/Numerals.antt =====
-- Numerals: what printf makes of a number in a base, and what the text says as a number.
use native.Mathlib.Nat.{
  one-le-pow, div-lt_iff_lt-mul, div-lt_self, div-add-mod, mod-lt, pow-suc, pow-zero,
  mul-le-mul_right, pow-le-pow_right,
}
use mathlib.Core.Bool.{◌&&◌}
use zns_tools.Base.{
  ℕ, zero, suc, ◌+◌, ◌-◌, ◌*◌, ◌/◌, ◌%◌, ◌^◌, ◌≤◌, ◌<◌, ◌≡◌, ◌↔◌, refl, sym, ap, subst, ◌∙◌, true,
  Option, none, some, List, [], ◌∷◌, map, Text, All, length, take, length-take-le, take_all,
  some_inj, ltb, leb, if◌then◌else◌, inl, inr, Bool-cases, arith,
}

-- The digits of `n` in base `b`, in front of `rest`, on fuel; `suc n` is enough.
abbrev pub emit : ℕ → ℕ → ℕ → List ℕ → List ℕ
emit b zero n rest = rest
emit b (suc fuel) n rest = if ltb n b then n ∷ rest else emit b fuel (n / b) (n % b ∷ rest)

abbrev pub digits_of : ℕ → ℕ → List ℕ
digits_of b n = emit b (suc n) n []

-- The characters 0 to 9 and a to f.
abbrev pub char_of : ℕ → ℕ
char_of d = if ltb d 10 then 48 + d else 87 + d

unfoldable pub digit_of : ℕ → Option ℕ
digit_of ch =
    if leb 48 ch && leb ch 57
    then some (ch - 48)
    else if leb 97 ch && leb ch 102
    then some (ch - 87)
    else none

-- The number that digits say behind `n`; none for a character that is no digit of the base.
abbrev pub read_from : ℕ → ℕ → Text → Option ℕ
read_from b n [] = some n
read_from b n (ch ∷ s) = elim (digit_of ch) [
  | none ↦ none
  | some d ↦ if ltb d b then read_from b (n * b + d) s else none
]

abbrev number : ℕ → ℕ → List ℕ → ℕ
number b n [] = n
number b n (d ∷ ds) = number b (n * b + d) ds

digit_of-char_of : (d : ℕ) → d < 16 → digit_of (char_of d) ≡ some d
unfolding digit_of
digit_of-char_of d h = ground arith

read_from-step :
    (b n ch d : ℕ) (s : Text)
    → digit_of ch ≡ some d
    → ltb d b ≡ true
    → read_from b n (ch ∷ s) ≡ read_from b (n * b + d) s
read_from-step b n ch d s found below = rw (found, below, read_from) refl

read_from-map :
    (b n : ℕ) (ds : List ℕ)
    → b ≤ 16
    → All (λ d. d < b) ds
    → read_from b n (map char_of ds) ≡ some (number b n ds)
read_from-map b n [] base h = refl
read_from-map b n (d ∷ ds) base (small, h) =
    let below : ltb d b ≡ true = ground arith in
    read_from-step b n (char_of d) d (map char_of ds) (digit_of-char_of d (omega arith)) below
    ∙ read_from-map b (n * b + d) ds base h

quotient_lt : (b n fuel : ℕ) → 2 ≤ b → n < suc fuel → b ≤ n → n / b < fuel
quotient_lt b n fuel base enough more =
    let less : n / b < n = div-lt_self {n = n} {k = b} (omega arith) (omega arith) in omega arith

emit-small :
    (b fuel n : ℕ) (rest : List ℕ)
    → 2 ≤ b
    → n < fuel
    → All (λ d. d < b) rest
    → All (λ d. d < b) (emit b fuel n rest)
emit-small b zero n rest base enough h = elim enough [ ]
emit-small b (suc fuel) n rest base enough h = elim (Bool-cases (ltb n b)) [
  | inl last ↦ rw last (ground arith, h)
  | inr more ↦ rw more (
      emit-small b fuel (n / b) (n % b ∷ rest) base
        (quotient_lt b n fuel base enough (ground arith)) (mod-lt n {m = b} (omega arith), h))
]

number-emit :
    (b fuel n : ℕ) (rest : List ℕ)
    → 2 ≤ b
    → n < fuel
    → number b 0 (emit b fuel n rest) ≡ number b n rest
number-emit b zero n rest base enough = elim enough [ ]
number-emit b (suc fuel) n rest base enough = elim (Bool-cases (ltb n b)) [
  | inl last ↦ rw last (ap (λ (m : ℕ). number b m rest) (omega arith))
  | inr more ↦ rw more (
      number-emit b fuel (n / b) (n % b ∷ rest) base
        (quotient_lt b n fuel base enough (ground arith))
      ∙ ap (λ (m : ℕ). number b m rest) (omega (arith, div-add-mod n b)))
]

length-emit :
    (b fuel n k : ℕ) (rest : List ℕ)
    → 2 ≤ b
    → n < fuel
    → n < b ^ suc k
    → length (emit b fuel n rest) ≤ suc k + length rest
length-emit b zero n k rest base enough fits = elim enough [ ]
length-emit b (suc fuel) n zero rest base enough fits =
    let last : ltb n b ≡ true =
      ground (arith, fits, pow-suc b 0 ∙ ap (λ (p : ℕ). p * b) (pow-zero b)) in
    rw last (omega arith)
length-emit b (suc fuel) n (suc k) rest base enough fits = elim (Bool-cases (ltb n b)) [
  | inl last ↦ rw last (omega arith)
  | inr more ↦
      let less = quotient_lt b n fuel base enough (ground arith) in
      let shorter =
        (div-lt_iff_lt-mul {k = b} {x = n} {y = b ^ suc k} (omega arith)).1
          (omega (arith, fits, pow-suc b (suc k))) in
      rw more (omega (arith, length-emit b fuel (n / b) k (n % b ∷ rest) base less shorter))
]

number-lt :
    (b n k : ℕ) (ds : List ℕ)
    → All (λ d. d < b) ds
    → n < b ^ k
    → number b n ds < b ^ (k + length ds)
number-lt b n k [] h fits =
    let same : k ≡ k + 0 = omega arith in subst (λ (j : ℕ). n < b ^ j) same fits
number-lt b n k (d ∷ ds) (small, h) fits =
    let times : suc n * b ≤ b ^ k * b = mul-le-mul_right b fits in
    let below : n * b + d < b ^ suc k = omega (arith, times, pow-suc b k) in
    let shifted : suc k + length ds ≡ k + suc (length ds) = omega arith in
    subst (λ (j : ℕ). number b (n * b + d) ds < b ^ j) shifted
      (number-lt b (n * b + d) (suc k) ds h below)

map-take : (k : ℕ) (ds : List ℕ) → take k (map char_of ds) ≡ map char_of (take k ds)
map-take zero ds = refl
map-take (suc k) [] = refl
map-take (suc k) (d ∷ ds) = ap (λ (s : Text). char_of d ∷ s) (map-take k ds)

All-take : (P : ℕ → Type 0) (k : ℕ) (ds : List ℕ) → All P ds → All P (take k ds)
All-take P zero ds h = tt
All-take P (suc k) [] h = tt
All-take P (suc k) (d ∷ ds) (here, h) = (here, All-take P k ds h)

-- The numeral of `n` cut to its first `k` characters still says `n` exactly when `n` has no more
-- digits than that.
pub read-cut_iff :
    (b n k : ℕ)
    → 2 ≤ b
    → b ≤ 16
    → (read_from b 0 (take (suc k) (map char_of (digits_of b n))) ≡ some n) ↔ (n < b ^ suc k)
read-cut_iff b n k base small = (only, whenever)
  where
    ds : List ℕ
    ds = digits_of b n

    digits_small : All (λ d. d < b) ds
    digits_small = emit-small b (suc n) n [] base (omega arith) tt

    says : read_from b 0 (take (suc k) (map char_of ds)) ≡ some (number b 0 (take (suc k) ds))
    says =
        ap (read_from b 0) (map-take (suc k) ds)
        ∙ read_from-map b 0 (take (suc k) ds) small (All-take (λ d. d < b) (suc k) ds digits_small)

    cut_lt : number b 0 (take (suc k) ds) < b ^ suc k
    cut_lt =
        let few = length-take-le (suc k) ds in
        let below =
          number-lt b 0 0 (take (suc k) ds) (All-take (λ d. d < b) (suc k) ds digits_small)
            (one-le-pow 0 b (omega arith)) in
        let grows : b ^ (0 + length (take (suc k) ds)) ≤ b ^ suc k =
          pow-le-pow_right (omega arith) (omega (arith, few)) in
        omega (arith, below, grows)

    only : read_from b 0 (take (suc k) (map char_of ds)) ≡ some n → n < b ^ suc k
    only h = omega (arith, cut_lt, some_inj (sym says ∙ h))

    whenever : n < b ^ suc k → read_from b 0 (take (suc k) (map char_of ds)) ≡ some n
    whenever fits =
        let whole =
          take_all (suc k) ds
            (omega (arith, length-emit b (suc n) n k [] base (omega arith) fits)) in
        let told = number-emit b (suc n) n [] base (omega arith) in
        says ∙ ap some (ap (number b 0) whole ∙ told)
