-- ===== src/ZoneList/Sorted.antt =====
-- The list of a zone stays sorted by physical address, and keeps every extent.
use mathlib.Core.List.{Perm}
use mathlib.Core.List.Perm
use zns_tools.Base.{
  ℕ, ◌+◌, ◌≤◌, ◌<◌, ◌≡◌, refl, List, [], ◌∷◌, ◌++◌, inl, inr, All, length, arith, ltb, Bool-cases,
}
use zns_tools.Types.{Extent}
use zns_tools.ZoneList.{sorted_zone_list_insert}

-- No extent of the list starts before `b`, and each starts no earlier than the one before it.
abbrev pub SortedFrom : ℕ → List Extent → Type 0
SortedFrom b [] = Unit
SortedFrom b (x ∷ xs) = (b ≤ x.phy_blk) × SortedFrom x.phy_blk xs

abbrev pub IsSorted : List Extent → Type 0
IsSorted = SortedFrom 0

sorted_zone_list_insert-SortedFrom :
    (b : ℕ) (xs : List Extent) (e : Extent)
    → SortedFrom b xs
    → b ≤ e.phy_blk
    → SortedFrom b (sorted_zone_list_insert xs e)
unfolding sorted_zone_list_insert
sorted_zone_list_insert-SortedFrom b [] e h le = (le, tt)
sorted_zone_list_insert-SortedFrom b (x ∷ xs) e h le =
    ground (arith, sorted_zone_list_insert-SortedFrom x.phy_blk xs e h.1)

pub sorted_zone_list_insert-IsSorted :
    (xs : List Extent) (e : Extent) → IsSorted xs → IsSorted (sorted_zone_list_insert xs e)
sorted_zone_list_insert-IsSorted xs e h = sorted_zone_list_insert-SortedFrom 0 xs e h (omega arith)

pub sorted_zone_list_insert-perm :
    (xs : List Extent) (e : Extent) → Perm (sorted_zone_list_insert xs e) (e ∷ xs)
unfolding sorted_zone_list_insert
sorted_zone_list_insert-perm [] e = Perm.refl (e ∷ [])
sorted_zone_list_insert-perm (x ∷ xs) e = elim (Bool-cases (ltb x.phy_blk e.phy_blk)) [
  | inl before ↦
      rw before (Perm.trans (Perm.cons x (sorted_zone_list_insert-perm xs e)) (Perm.swap e x xs))
  | inr after ↦ rw after (Perm.refl (e ∷ x ∷ xs))
]

pub length-sorted_zone_list_insert :
    (xs : List Extent) (e : Extent) → length (sorted_zone_list_insert xs e) ≡ length xs + 1
unfolding sorted_zone_list_insert
length-sorted_zone_list_insert [] e = omega arith
length-sorted_zone_list_insert (x ∷ xs) e = ground (arith, length-sorted_zone_list_insert xs e)

-- The first address of a list, or none below the bound.
abbrev pub StartsAfter : ℕ → List Extent → Type 0
StartsAfter b [] = Unit
StartsAfter b (x ∷ xs) = b ≤ x.phy_blk

pub record Split (xs : List Extent) (e : Extent) : Type 0 where
  pub before : List Extent
  pub after : List Extent
  pub whole : xs ≡ before ++ after
  pub result : sorted_zone_list_insert xs e ≡ before ++ (e ∷ after)
  pub smaller : All (λ x. x.phy_blk < e.phy_blk) before
  pub larger : StartsAfter e.phy_blk after

-- The insertion splits the list where the first extent does not start before the new one, and
-- changes neither part.
pub sorted_zone_list_insert-Split : (xs : List Extent) (e : Extent) → Split xs e
unfolding sorted_zone_list_insert
sorted_zone_list_insert-Split [] e = record {
  before = [];
  after = [];
  whole = refl;
  result = refl;
  smaller = tt;
  larger = tt;
}
sorted_zone_list_insert-Split (x ∷ xs) e = elim (Bool-cases (ltb x.phy_blk e.phy_blk)) [
  | inl less ↦
      let s = sorted_zone_list_insert-Split xs e in
      record {
        before = x ∷ s.before;
        after = s.after;
        whole = ground (arith, s.whole);
        result = rw less (ground (arith, s.result));
        smaller = (ground arith, s.smaller);
        larger = s.larger;
      }
  | inr more ↦ record {
    before = [];
    after = x ∷ xs;
    whole = refl;
    result = rw more refl;
    smaller = tt;
    larger = ground arith;
  }
]
