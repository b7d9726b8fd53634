-- ===== src/Ondisk/RoundTrip.antt =====
-- Values written as bytes and read back, for every layout.
use native.Mathlib.Nat.{pow-succ'}
use zns_tools.Base.{
  ℕ, zero, suc, ◌+◌, ◌*◌, ◌/◌, ◌%◌, ◌^◌, ◌<◌, ◌≡◌, refl, sym, ap, ◌∙◌, List, [], ◌∷◌, ◌++◌,
  append_assoc, ap₂, ◌≤◌, length, length-append, All, arith,
}
use zns_tools.Ondisk.Layout.{
  Layout, word, array, packed, ◌▸◌, Val, Fits, size_of, encode, decode, put_word, put_all, get_word,
  get_all, with_byte,
}

get_word-put_word :
    (w n : ℕ) (rest : List ℕ) → n < 256 ^ w → get_word w (put_word w n ++ rest) ≡ (n, rest)
unfolding get_word put_word
get_word-put_word zero n rest h = ap (λ (k : ℕ). (k, rest)) (omega arith)
get_word-put_word (suc w) n rest h =
    let below : n / 256 < 256 ^ w = omega (arith, pow-succ' 256 w) in
    ap (with_byte (n % 256)) (get_word-put_word w (n / 256) rest below)
    ∙ ap (λ (k : ℕ). (k, rest)) (omega arith)

put_word-get_word :
    (w : ℕ) (bs : List ℕ)
    → w ≤ length bs
    → All (λ b. b < 256) bs
    → ((get_word w bs).0 < 256 ^ w)
      × (put_word w (get_word w bs).0 ++ (get_word w bs).1 ≡ bs)
      × All (λ b. b < 256) (get_word w bs).1
      × (length bs ≡ w + length (get_word w bs).1)
unfolding get_word put_word
put_word-get_word zero bs long bytes = (omega arith, refl, bytes, omega arith)
put_word-get_word (suc w) [] long bytes = absurd (omega arith)
put_word-get_word (suc w) (b ∷ bs) long (byte, bytes) =
    let (below, back, more, used) = put_word-get_word w bs (omega arith) bytes in
    let n = (get_word w bs).0 in
    let rest = (get_word w bs).1 in
    let low : (b + 256 * n) % 256 ≡ b = omega arith in
    let high : (b + 256 * n) / 256 ≡ n = omega arith in
    (
      omega (arith, pow-succ' 256 w),
      ap₂ (λ (x y : ℕ). x ∷ (put_word w y ++ rest)) low high ∙ ap (λ xs. b ∷ xs) back,
      more,
      omega arith,
    )

length-put_word : (w n : ℕ) → length (put_word w n) ≡ w
unfolding put_word
length-put_word zero n = refl
length-put_word (suc w) n = ap suc (length-put_word w (n / 256))

module _ {A : Type 0} (put : A → List ℕ) (get : List ℕ → A × List ℕ) where
  get_all-put_all :
      (P : A → Type 0)
      → ((v : A) (rest : List ℕ) → P v → get (put v ++ rest) ≡ (v, rest))
      → (vs : List A) (rest : List ℕ) → All P vs
      → get_all get (length vs) (put_all put vs ++ rest) ≡ (vs, rest)
  unfolding get_all put_all
  get_all-put_all P each [] rest fits = refl
  get_all-put_all P each (v ∷ vs) rest (fit, fits) =
      rw
        (
          append_assoc (put v) (put_all put vs) rest,
          each v (put_all put vs ++ rest) fit,
          get_all-put_all P each vs rest fits,
        )
        refl

pub decode-encode :
    (l : Layout) (v : Val l) (rest : List ℕ) → Fits l v → decode l (encode l v ++ rest) ≡ (v, rest)
unfolding decode encode
decode-encode (word w) n rest fits = get_word-put_word w n rest fits
decode-encode (array n l) vs rest (count, fits) =
    rw (sym count) (get_all-put_all (encode l) (decode l) (Fits l) (decode-encode l) vs rest fits)
decode-encode (packed l) v rest fits = decode-encode l v rest fits
decode-encode (l ▸ m) (v, w) rest (fit, fits) =
    rw
      (
        append_assoc (encode l v) (encode m w) rest,
        decode-encode l v (encode m w ++ rest) fit,
        decode-encode m w rest fits,
      )
      refl

pub length-encode : (l : Layout) (v : Val l) → Fits l v → length (encode l v) ≡ size_of l
unfolding encode size_of
length-encode (word w) n fits = length-put_word w n
length-encode (array n l) vs (count, fits) =
    length-array (length-encode l) vs fits ∙ ap (λ (k : ℕ). k * size_of l) count
  where
    length-array :
        ((v : Val l) → Fits l v → length (encode l v) ≡ size_of l)
        → (vs : List (Val l)) → All (Fits l) vs
        → length (put_all (encode l) vs) ≡ length vs * size_of l
    length-array each [] fits = omega arith
    length-array each (v ∷ vs) (fit, fits) = omega (
      arith,
      length-append {0} (encode l v) (put_all (encode l) vs),
      each v fit,
      length-array each vs fits,
    )
length-encode (packed l) v fits = length-encode l v fits
length-encode (l ▸ m) (v, w) (fit, fits) = omega (
  arith,
  length-append {0} (encode l v) (encode m w),
  length-encode l v fit,
  length-encode m w fits,
)

-- What is read back of the first `n` items, when each is read back.
abbrev pub GoesBack : (l : Layout) → List ℕ → Type 0
GoesBack l bs =
    Fits l (decode l bs).0
    × (encode l (decode l bs).0 ++ (decode l bs).1 ≡ bs)
    × All (λ b. b < 256) (decode l bs).1
    × (length bs ≡ size_of l + length (decode l bs).1)

GoesBack-array :
    (l : Layout)
    → ((bs : List ℕ) → size_of l ≤ length bs → All (λ b. b < 256) bs → GoesBack l bs)
    → (n : ℕ) (bs : List ℕ) → n * size_of l ≤ length bs
    → All (λ b. b < 256) bs
    → GoesBack (array n l) bs
unfolding get_all put_all decode encode size_of
GoesBack-array l each zero bs long bytes = ((refl, tt), refl, bytes, omega arith)
GoesBack-array l each (suc n) bs long bytes =
    let (fit, back, more, used) = each bs (omega arith) bytes in
    let (fits, back', more', used') = GoesBack-array l each n (decode l bs).1 (omega arith) more in
    let v = (decode l bs).0 in
    let vs = (get_all (decode l) n (decode l bs).1).0 in
    let rest = (get_all (decode l) n (decode l bs).1).1 in
    (
      (ap suc fits.0, (fit, fits.1)),
      append_assoc (encode l v) (put_all (encode l) vs) rest
          ∙ ap (λ xs. encode l v ++ xs) back'
          ∙ back,
      more',
      omega arith,
    )

pub encode-decode :
    (l : Layout) (bs : List ℕ) → size_of l ≤ length bs → All (λ b. b < 256) bs → GoesBack l bs
unfolding encode decode size_of
encode-decode (word w) bs long bytes = put_word-get_word w bs long bytes
encode-decode (array n l) bs long bytes = GoesBack-array l (encode-decode l) n bs long bytes
encode-decode (packed l) bs long bytes = encode-decode l bs long bytes
encode-decode (l ▸ m) bs long bytes =
    let (fit, back, more, used) = encode-decode l bs (omega arith) bytes in
    let (fits, back', more', used') = encode-decode m (decode l bs).1 (omega arith) more in
    (
      (fit, fits),
      append_assoc (encode l (decode l bs).0) (encode m (decode m (decode l bs).1).0)
            (decode m (decode l bs).1).1
          ∙ ap (λ xs. encode l (decode l bs).0 ++ xs) back'
          ∙ back,
      more',
      omega arith,
    )
