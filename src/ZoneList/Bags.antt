-- ===== src/ZoneList/Bags.antt =====
-- The zone map with its representation forgotten: of each zone the extents, in no order.
use mathlib.Core.List.{foldr}
use mathlib.Core.Path.{fun_ext}
use mathlib.Core.Quot.{sound}
use mathlib.Mathlib.Data.Multiset.Defs.{Multiset, of_list}
use mathlib.Mathlib.Data.Multiset.ZeroCons.{cons, cons-swap}
use zns_tools.Base.{
  ℕ, ◌+◌, ◌^◌, ◌<◌, ◌≡◌, refl, sym, ap, subst, ◌∙◌, Option, none, some, List, [], ◌∷◌, ◌++◌, All,
  length, get_elem?, get_elem?-exists, ◌==◌, ==_iff, if◌then◌else◌, inl, inr, Bool-cases, arith,
}
use zns_tools.Types.{Extent, Zone, Run, returned, returned_inj, ◌>>=◌}
use zns_tools.ZoneList.{add_extent_to_zone_list}
use zns_tools.ZoneList.Valid.{ZoneIsValid, Added, add_extent-Added, add_extent-set, All-get_elem?}
use zns_tools.ZoneList.Totals.{total, sum_by-at-le, set-total}

-- The specification: a bag of extents for each zone number, and what adding one does to it.
abbrev pub Contents : Type 0
Contents = ℕ → Multiset Extent

pub put : Extent → Contents → Contents
put e s i = if i == e.zone then cons e (s i) else s i

abbrev pub put_all : List Extent → Contents → Contents
put_all es s = foldr put s es

-- The bags that the lists of the map stand for.
abbrev pub bag_of : Option Zone → Multiset Extent
bag_of none = of_list []
bag_of (some z) = of_list z.extents

pub view : List Zone → Contents
view zones i = bag_of (get_elem? zones i)

-- Extents linked into the map one after the other.
pub link_all : List Extent → List Zone → Run (List Zone)
link_all [] zones = returned zones
link_all (e ∷ es) zones = do zones' ← add_extent_to_zone_list zones e; link_all es zones'

put_comm : (a b : Extent) (s : Contents) → put a (put b s) ≡ put b (put a s)
unfolding put
put_comm a b s = fun_ext (λ i. elim (Bool-cases (i == a.zone)) [
  | inl in_a ↦ elim (Bool-cases (i == b.zone)) [
    | inl in_b ↦ rw (in_a, in_b) (cons-swap a b (s i))
    | inr not_b ↦ rw (in_a, not_b) refl
  ]
  | inr not_a ↦ rw not_a refl
])

put_all-put :
    (es : List Extent) (e : Extent) (s : Contents) → put_all es (put e s) ≡ put e (put_all es s)
put_all-put [] e s = refl
put_all-put (x ∷ es) e s = ap (put x) (put_all-put es e s) ∙ put_comm x e (put_all es s)

-- One addition refines `put`.
pub view-add_extent :
    (zones : List Zone) (z : Zone) (e : Extent)
    → get_elem? zones e.zone ≡ some z
    → (a : Added zones z e) → view a.zones' ≡ put e (view zones)
unfolding put view
view-add_extent zones z e at_zone a = fun_ext (λ i. elim (Bool-cases (i == e.zone)) [
  | inl same ↦
      let p : i ≡ e.zone = (==_iff _ _).0 same in
      ap (λ (j : ℕ). bag_of (get_elem? a.zones' j)) p
      ∙ ap bag_of a.added
      ∙ sound a.contents
      ∙ sym (rw (same, p, at_zone) refl)
  | inr other ↦ rw other (ap bag_of (a.others i (ground arith)))
])

-- What linking a sequence of extents leaves.
pub record Linked (es : List Extent) (zones : List Zone) : Type 0 where
  pub zones' : List Zone
  pub result : link_all es zones ≡ returned zones'
  pub valid : All ZoneIsValid zones'
  pub same_length : length zones' ≡ length zones
  pub contents : view zones' ≡ put_all es (view zones)

total-add_extent :
    (zones : List Zone) (z : Zone) (e : Extent)
    → All ZoneIsValid zones
    → get_elem? zones e.zone ≡ some z
    → (a : Added zones z e) → total a.zones' ≡ total zones + 1
total-add_extent zones z e valid at_zone a =
    ap total (returned_inj (sym a.result ∙ add_extent-set zones e z at_zone))
    ∙ (set-total zones e z (All-get_elem? zones e.zone at_zone valid) at_zone).0

-- Linking extents of the map's zones into a valid map, fewer than 2 ^ 32 with those that it holds,
-- returns a valid map of as many zones that stands for the bags of the specification: each extent is
-- in its own zone's bag, as often as it was linked, and nothing else changes.
pub link_all-Linked :
    (es : List Extent) (zones : List Zone)
    → All ZoneIsValid zones
    → All (λ e. e.zone < length zones) es
    → total zones + length es < 2 ^ 32
    → Linked es zones
unfolding link_all
link_all-Linked [] zones valid inside fits = record {
  zones' = zones;
  result = refl;
  valid = valid;
  same_length = refl;
  contents = refl;
}
link_all-Linked (e ∷ es) zones valid (here, inside) fits =
    let (z, at_zone) = get_elem?-exists zones e.zone here in
    let z_valid = All-get_elem? zones e.zone at_zone valid in
    let room = sum_by-at-le (λ (y : Zone). length y.extents) zones e.zone z at_zone in
    let a = add_extent-Added zones e z valid at_zone (omega (arith, z_valid.counted, room)) in
    let more = total-add_extent zones z e valid at_zone a in
    let l =
      link_all-Linked es a.zones' a.valid
        (subst (λ (n : ℕ). All (λ (x : Extent). x.zone < n) es) (sym a.same_length) inside)
        (omega (arith, more)) in
    record {
      zones' = l.zones';
      result = ap (λ (r : Run (List Zone)). r >>= link_all es) a.result ∙ l.result;
      valid = l.valid;
      same_length = l.same_length ∙ a.same_length;
      contents =
          l.contents
          ∙ ap (put_all es) (view-add_extent zones z e at_zone a)
          ∙ put_all-put es e (view zones);
    }

-- Sequences that are put in one after the other.
put_all-append :
    (es fs : List Extent) (s : Contents) → put_all fs (put_all es s) ≡ put_all (es ++ fs) s
put_all-append [] fs s = refl
put_all-append (e ∷ es) fs s = put_all-put fs e (put_all es s) ∙ ap (put e) (put_all-append es fs s)

pub put_all_then :
    (r s t : Contents) (es fs : List Extent)
    → s ≡ put_all es r
    → t ≡ put_all fs s
    → t ≡ put_all (es ++ fs) r
put_all_then r s t es fs h g = g ∙ ap (put_all fs) h ∙ put_all-append es fs r
