-- ===== src/Fiemap/Wanted.antt =====
-- Which extents are recorded depends on the offset and the excluded flags alone.
use zns_tools.Base.{
  length, ◌≤◌, ℕ, ◌+◌, ◌≡◌, refl, ap, ◌∙◌, Bool, false, not, List, [], ◌∷◌, ◌++◌, ltb,
  if◌then◌else◌, arith,
}
use zns_tools.Types.{Control}
use zns_tools.Fiemap.{FiemapExtent, has_flag, is_recorded}
use zns_tools.Fiemap.Entry.{wanted}
use zns_tools.Fiemap.Collect.{recorded}

abbrev pub Agrees : Control → Control → Type 0
Agrees c d = (c.offset ≡ d.offset) × (c.exclude_flags ≡ d.exclude_flags)

is_recorded-same :
    (c d : Control) (x : FiemapExtent) → Agrees c d → is_recorded c x ≡ is_recorded d x
unfolding is_recorded
is_recorded-same c d x (same_offset, same_flags) =
    ap (λ (o : ℕ). if ltb x.fe_physical o then false else not (has_flag x.fe_flags c.exclude_flags))
      same_offset
    ∙ ap
        (λ (flags : ℕ).
          if ltb x.fe_physical d.offset then false else not (has_flag x.fe_flags flags))
        same_flags

pub recorded-same :
    (c d : Control) (xs : List FiemapExtent) → Agrees c d → recorded c xs ≡ recorded d xs
unfolding recorded
recorded-same c d [] same = refl
recorded-same c d (x ∷ xs) same =
    ap (λ (b : Bool). (if b then 1 else 0) + recorded c xs) (is_recorded-same c d x same)
    ∙ ap (λ (n : ℕ). (if is_recorded d x then 1 else 0) + n) (recorded-same c d xs same)

pub recorded-le : (c : Control) (xs : List FiemapExtent) → recorded c xs ≤ length xs
unfolding recorded
recorded-le c [] = omega arith
recorded-le c (x ∷ xs) = ground (arith, recorded-le c xs)

pub wanted-same : (c d : Control) (xs : List FiemapExtent) → Agrees c d → wanted c xs ≡ wanted d xs
unfolding wanted
wanted-same c d [] same = refl
wanted-same c d (x ∷ xs) same =
    ap (λ (b : Bool). (if b then x ∷ [] else []) ++ wanted c xs) (is_recorded-same c d x same)
    ∙ ap (λ ys. (if is_recorded d x then x ∷ [] else []) ++ ys) (wanted-same c d xs same)
