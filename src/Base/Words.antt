-- ===== src/Base/Words.antt =====
-- Machine words as native numbers, with the wrap-around written out.
use Prim.Native.Nat.{ℕ, ◌+◌, ◌-◌, ◌*◌, ◌/◌, ◌%◌, ◌^◌}

-- (uint32_t) x
abbrev pub trunc32 : ℕ → ℕ
trunc32 x = x % 2 ^ 32

abbrev pub add32 : ℕ → ℕ → ℕ
add32 a b = (a + b) % 2 ^ 32

abbrev pub add64 : ℕ → ℕ → ℕ
add64 a b = (a + b) % 2 ^ 64

abbrev pub mul64 : ℕ → ℕ → ℕ
mul64 a b = a * b % 2 ^ 64

-- a - b on uint64_t, for b at most 2 ^ 64.
abbrev pub sub64 : ℕ → ℕ → ℕ
sub64 a b = (a + 2 ^ 64 - b) % 2 ^ 64

-- ~a on uint64_t
abbrev pub not64 : ℕ → ℕ
not64 a = 2 ^ 64 - 1 - a

abbrev pub shl64 : ℕ → ℕ → ℕ
shl64 a k = a * 2 ^ k % 2 ^ 64

abbrev pub shl32 : ℕ → ℕ → ℕ
shl32 a k = a * 2 ^ k % 2 ^ 32

abbrev pub shr : ℕ → ℕ → ℕ
shr a k = a / 2 ^ k
