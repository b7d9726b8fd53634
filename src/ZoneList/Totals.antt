-- ===== src/ZoneList/Totals.antt =====
-- Sums over the zones and their lists, under insertion.
use zns_tools.Base.{
  ℕ, zero, suc, ◌+◌, ◌≤◌, ◌≡◌, List, [], ◌∷◌, some, some_inj, length, get_elem?, set, arith, ltb,
  ap, inl, inr, Bool-cases,
}
use zns_tools.Types.{Extent, Zone}
use zns_tools.ZoneList.{sorted_zone_list_insert, add_to_zone}
use zns_tools.ZoneList.Sorted.{length-sorted_zone_list_insert}
use zns_tools.ZoneList.Valid.{ZoneIsValid, add_to_zone-extents}

abbrev pub sum_by {ℓ} : {A : Type ℓ} → (A → ℕ) → List A → ℕ
sum_by f [] = 0
sum_by f (x ∷ xs) = f x + sum_by f xs

pub sum_by-set {ℓ} :
    {A : Type ℓ} (f : A → ℕ) (xs : List A) (i : ℕ) (a b : A)
    → get_elem? xs i ≡ some a
    → sum_by f (set xs i b) + f a ≡ sum_by f xs + f b
sum_by-set f [] i a b h = cc
sum_by-set f (x ∷ xs) zero a b h = omega (arith, ap f (some_inj h))
sum_by-set f (x ∷ xs) (suc i) a b h = omega (arith, sum_by-set f xs i a b h)

-- An insertion adds what the new extent counts for.
pub sum_by-sorted_insert :
    (f : Extent → ℕ) (xs : List Extent) (e : Extent)
    → sum_by f (sorted_zone_list_insert xs e) ≡ sum_by f xs + f e
unfolding sorted_zone_list_insert
sum_by-sorted_insert f [] e = omega arith
sum_by-sorted_insert f (x ∷ xs) e = elim (Bool-cases (ltb x.phy_blk e.phy_blk)) [
  | inl less ↦ rw less (omega (arith, sum_by-sorted_insert f xs e))
  | inr more ↦ rw more (omega arith)
]

-- The extents of all zones, and their sizes.
abbrev pub total : List Zone → ℕ
total = sum_by (λ z. length z.extents)

abbrev pub extent_sizes : List Extent → ℕ
extent_sizes = sum_by (λ e. e.len)

abbrev pub size : List Zone → ℕ
size = sum_by (λ z. extent_sizes z.extents)

pub sum_by-at-le {ℓ} :
    {A : Type ℓ} (f : A → ℕ) (xs : List A) (i : ℕ) (a : A)
    → get_elem? xs i ≡ some a
    → f a ≤ sum_by f xs
sum_by-at-le f [] i a h = cc
sum_by-at-le f (x ∷ xs) zero a h = omega (arith, ap f (some_inj h))
sum_by-at-le f (x ∷ xs) (suc i) a h = omega (arith, sum_by-at-le f xs i a h)

-- Linking an extent into its zone adds one extent and its size to the sums.
pub set-total :
    (zones : List Zone) (e : Extent) (z : Zone)
    → ZoneIsValid z
    → get_elem? zones e.zone ≡ some z
    → (total (set zones e.zone (add_to_zone z e)) ≡ total zones + 1)
      × (size (set zones e.zone (add_to_zone z e)) ≡ size zones + e.len)
set-total zones e z v at_zone = (
  omega (
    arith,
    sum_by-set (λ (z : Zone). length z.extents) zones e.zone z (add_to_zone z e) at_zone,
    ap length (add_to_zone-extents z e v),
    length-sorted_zone_list_insert z.extents e,
  ),
  omega (
    arith,
    sum_by-set (λ (z : Zone). extent_sizes z.extents) zones e.zone z (add_to_zone z e) at_zone,
    ap extent_sizes (add_to_zone-extents z e v),
    sum_by-sorted_insert (λ e. e.len) z.extents e,
  ),
)
