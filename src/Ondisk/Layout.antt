-- ===== src/Ondisk/Layout.antt =====
-- The C structs of include/f2fs.h (under zns-tools.fs/) as bytes: a layout is a struct's member
-- types in order, little endian as on the hosts the tools run on. A buffer past its end reads as 0.
use zns_tools.Base.{
  ℕ, zero, suc, ◌+◌, ◌*◌, ◌/◌, ◌%◌, ◌^◌, ◌<◌, ◌≡◌, Bool, true, ◌&&◌, List, [], ◌∷◌, ◌++◌, length,
  All, ◌==◌, if◌then◌else◌, leb,
}

-- A member type: an unsigned integer of so many bytes, an array, a struct of two members or more,
-- or such a member under `__attribute__((packed))`.
infixr 6 ◌▸◌
pub data Layout : Type 0 where
  word : ℕ → Layout
  array : ℕ → Layout → Layout
  packed : Layout → Layout
  ◌▸◌ : Layout → Layout → Layout

abbrev pub u8 : Layout
u8 = word 1

abbrev pub le16 : Layout
le16 = word 2

abbrev pub le32 : Layout
le32 = word 4

abbrev pub le64 : Layout
le64 = word 8

-- The value of a member.
abbrev pub Val : Layout → Type 0
Val (word w) = ℕ
Val (array n l) = List (Val l)
Val (packed l) = Val l
Val (l ▸ m) = Val l × Val m

-- A function of the members of a struct, one argument each, and the struct made of such arguments.
abbrev pub Fields : Layout → Type 0 → Type 0
Fields (word w) R = ℕ → R
Fields (array n l) R = List (Val l) → R
Fields (packed l) R = Val l → R
Fields (l ▸ m) R = Val l → Fields m R

abbrev pub apply : {R : Type 0} → (l : Layout) → Fields l R → Val l → R
apply (word w) f v = f v
apply (array n l) f v = f v
apply (packed l) f v = f v
apply (l ▸ m) f (v, w) = apply m (f v) w

abbrev pub curry : {R : Type 0} → (l : Layout) → (Val l → R) → Fields l R
curry (word w) f = f
curry (array n l) f = f
curry (packed l) f = f
curry (l ▸ m) f = λ v. curry m (λ w. f (v, w))

abbrev pub pack : (l : Layout) → Fields l (Val l)
pack l = curry l (λ v. v)

abbrev pub copies : {A : Type 0} → ℕ → A → List A
copies zero a = []
copies (suc n) a = a ∷ copies n a

-- A value whose bytes are all zero.
abbrev pub blank : (l : Layout) → Val l
blank (word w) = 0
blank (array n l) = copies n (blank l)
blank (packed l) = blank l
blank (l ▸ m) = (blank l, blank m)

-- A value that its member can hold.
abbrev pub Fits : (l : Layout) → Val l → Type 0
Fits (word w) n = n < 256 ^ w
Fits (array n l) vs = (length vs ≡ n) × All (Fits l) vs
Fits (packed l) v = Fits l v
Fits (l ▸ m) (v, w) = Fits l v × Fits m w

-- sizeof, where nothing is padded.
unfoldable pub size_of : Layout → ℕ
size_of (word w) = w
size_of (array n l) = n * size_of l
size_of (packed l) = size_of l
size_of (l ▸ m) = size_of l + size_of m

unfoldable pub align_of : Layout → ℕ
align_of (word w) = w
align_of (array n l) = align_of l
align_of (packed l) = 1
align_of (l ▸ m) = if leb (align_of l) (align_of m) then align_of m else align_of l

-- Every member, laid out without a gap from an offset on, lies at a multiple of its alignment.
unfoldable pub is_gapless : ℕ → Layout → Bool
is_gapless offset (word w) = offset % w == 0
is_gapless offset (array n l) = offset % align_of l == 0
is_gapless offset (packed l) = true
is_gapless offset (l ▸ m) = is_gapless offset l && is_gapless (offset + size_of l) m

unfoldable pub put_word : ℕ → ℕ → List ℕ
put_word zero n = []
put_word (suc w) n = (n % 256) ∷ put_word w (n / 256)

unfoldable pub put_all : {A : Type 0} → (A → List ℕ) → List A → List ℕ
put_all put [] = []
put_all put (v ∷ vs) = put v ++ put_all put vs

-- The bytes of a value.
unfoldable pub encode : (l : Layout) → Val l → List ℕ
unfolding put_word put_all
encode (word w) n = put_word w n
encode (array n l) vs = put_all (encode l) vs
encode (packed l) v = encode l v
encode (l ▸ m) (v, w) = encode l v ++ encode m w

abbrev pub with_byte : ℕ → ℕ × List ℕ → ℕ × List ℕ
with_byte b (n, rest) = (b + 256 * n, rest)

unfoldable pub get_word : ℕ → List ℕ → ℕ × List ℕ
get_word zero bs = (0, bs)
get_word (suc w) [] = (0, [])
get_word (suc w) (b ∷ bs) = with_byte b (get_word w bs)

abbrev pub paired : {A B C : Type 0} → (A → B → C) → A → B × List ℕ → C × List ℕ
paired f a (b, rest) = (f a b, rest)

-- Read one member, then what is behind it.
abbrev pub and_then :
    {A B C : Type 0} → (A → B → C) → A × List ℕ → (List ℕ → B × List ℕ) → C × List ℕ
and_then f (a, rest) more = paired f a (more rest)

unfoldable pub get_all : {A : Type 0} → (List ℕ → A × List ℕ) → ℕ → List ℕ → List A × List ℕ
get_all get zero bs = ([], bs)
get_all get (suc n) bs = and_then (λ a as'. a ∷ as') (get bs) (get_all get n)

-- A member's value, and the bytes behind it.
unfoldable pub decode : (l : Layout) → List ℕ → Val l × List ℕ
unfolding get_word get_all
decode (word w) bs = get_word w bs
decode (array n l) bs = get_all (decode l) n bs
decode (packed l) bs = decode l bs
decode (l ▸ m) bs = and_then (λ v w. (v, w)) (decode l bs) (decode m)
