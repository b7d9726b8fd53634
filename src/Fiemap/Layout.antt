-- ===== src/Fiemap/Layout.antt =====
-- A file's extents as FS_IOC_FIEMAP reports them.
use zns_tools.Base.{
  ℕ, ◌+◌, ◌^◌, ◌≤◌, ◌<◌, ◌≡◌, refl, ap, ◌∙◌, true, false, ◌&&◌, some, List, [], ◌∷◌, ◌++◌, All, ltb,
  arith, if◌then◌else◌,
}
use zns_tools.Fiemap.{FiemapExtent, Fiemap, fiemap_extent_last, has_flag}

abbrev pub end_of : FiemapExtent → ℕ
end_of x = x.fe_logical + x.fe_length

-- The extents that meet `len` bytes from `start` on, in the file's order: what the documentation
-- of FS_IOC_FIEMAP (linux/Documentation/filesystems/fiemap.rst) promises to return.
pub overlapping : List FiemapExtent → ℕ → ℕ → List FiemapExtent
overlapping [] start len = []
overlapping (x ∷ xs) start len =
    if ltb start (end_of x) && ltb x.fe_logical (start + len)
    then x ∷ overlapping xs start len
    else overlapping xs start len

-- The ioctl answers for a file with these extents.
abbrev pub AnswersFor : List FiemapExtent → Fiemap → Type 0
AnswersFor file fiemap = (start len : ℕ) → fiemap start len ≡ some (overlapping file start len)

-- A file's extents from byte `b` on: in order, none empty, and FIEMAP_EXTENT_LAST on the last.
abbrev pub IsLayout : ℕ → List FiemapExtent → Type 0
IsLayout b [] = ⊥
IsLayout b (x ∷ []) =
    (b ≤ x.fe_logical)
    × (0 < x.fe_length)
    × (end_of x < 2 ^ 64)
    × (has_flag x.fe_flags fiemap_extent_last ≡ true)
IsLayout b (x ∷ y ∷ xs) =
    (b ≤ x.fe_logical)
    × (0 < x.fe_length)
    × (end_of x < 2 ^ 64)
    × (has_flag x.fe_flags fiemap_extent_last ≡ false)
    × IsLayout (end_of x) (y ∷ xs)

-- No hole before an extent reaches the length that each call of the ioctl asks for.
abbrev pub HolesBelow : ℕ → ℕ → List FiemapExtent → Type 0
HolesBelow len b [] = Unit
HolesBelow len b (x ∷ xs) = (x.fe_logical < b + len) × HolesBelow len (end_of x) xs

pub overlapping-append :
    (pre xs : List FiemapExtent) (b len : ℕ)
    → All (λ x. end_of x ≤ b) pre
    → overlapping (pre ++ xs) b len ≡ overlapping xs b len
unfolding overlapping
overlapping-append [] xs b len h = refl
overlapping-append (p ∷ pre) xs b len h = ground (arith, overlapping-append pre xs b len h.1)

pub overlapping-cons :
    (x : FiemapExtent) (xs : List FiemapExtent) (b len : ℕ)
    → b ≤ x.fe_logical
    → 0 < x.fe_length
    → x.fe_logical < b + len
    → overlapping (x ∷ xs) b len ≡ x ∷ overlapping xs b len
unfolding overlapping
overlapping-cons x xs b len from some_bytes near = ground arith

pub first_reply :
    (pre xs : List FiemapExtent) (len : ℕ) {fiemap : Fiemap} {file : List FiemapExtent}
    {x : FiemapExtent} {b : ℕ}
    → AnswersFor file fiemap
    → file ≡ pre ++ (x ∷ xs)
    → All (λ x. end_of x ≤ b) pre
    → b ≤ x.fe_logical
    → 0 < x.fe_length
    → x.fe_logical < b + len
    → fiemap b len ≡ some (x ∷ overlapping xs b len)
first_reply pre xs len {x = x} {b = b} ans whole past from some_bytes near =
    ans b len
    ∙ ap some (
        ap (λ f. overlapping f b len) whole
        ∙ overlapping-append pre (x ∷ xs) b len past
        ∙ overlapping-cons x xs b len from some_bytes near)

pub All-raise :
    (pre : List FiemapExtent) (b b' : ℕ)
    → b ≤ b'
    → All (λ x. end_of x ≤ b) pre
    → All (λ x. end_of x ≤ b') pre
All-raise [] b b' le h = tt
All-raise (p ∷ pre) b b' le h = (omega arith, All-raise pre b b' le h.1)

pub All-snoc :
    (pre : List FiemapExtent) (x : FiemapExtent) (b : ℕ)
    → All (λ x. end_of x ≤ b) pre
    → end_of x ≤ b
    → All (λ x. end_of x ≤ b) (pre ++ (x ∷ []))
All-snoc [] x b h le = (le, tt)
All-snoc (p ∷ pre) x b h le = (h.0, All-snoc pre x b h.1 le)

-- Nothing of a file that starts behind the range is returned.
pub overlapping-beyond :
    (xs : List FiemapExtent) (b len d : ℕ) → b + len ≤ d → IsLayout d xs → overlapping xs b len ≡ []
unfolding overlapping
overlapping-beyond [] b len d le lay = absurd lay
overlapping-beyond (x ∷ []) b len d le lay = ground arith
overlapping-beyond (x ∷ y ∷ xs) b len d le lay =
    ground (arith, overlapping-beyond (y ∷ xs) b len (end_of x) (omega arith) lay.4)
