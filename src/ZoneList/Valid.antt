-- ===== src/ZoneList/Valid.antt =====
-- The invariant of the zone map under `add_extent_to_zone_list`.
use mathlib.Core.List.{Perm}
use zns_tools.Base.{
  ℕ, zero, suc, ◌+◌, ◌^◌, ◌<◌, ◌≡◌, ◌≢◌, refl, sym, subst, List, [], ◌∷◌, All, length, arith,
  get_elem?, set, get_elem?-set_self, get_elem?-set_ne, get_elem?-lt, length-set, none, some,
  some_inj, ◌==◌, if◌then◌else◌,
}
use zns_tools.Types.{Extent, Zone, returned, faulted}
use zns_tools.ZoneList.{
  sorted_zone_list_insert, insert_zone_list_head, add_to_zone, add_extent_to_zone_list,
}
use zns_tools.ZoneList.Sorted.{
  IsSorted, sorted_zone_list_insert-IsSorted, sorted_zone_list_insert-perm,
  length-sorted_zone_list_insert,
}

-- The list is sorted and the counter is its length.
pub record ZoneIsValid (z : Zone) : Type 0 where
  pub sorted : IsSorted z.extents
  pub counted : z.extent_ctr ≡ length z.extents

insert_choice :
    (n : ℕ) (xs : List Extent) (e : Extent)
    → n ≡ length xs
    → (if n == 0 then insert_zone_list_head xs e else sorted_zone_list_insert xs e)
      ≡ sorted_zone_list_insert xs e
unfolding insert_zone_list_head sorted_zone_list_insert
insert_choice n [] e h = ground arith
insert_choice n (x ∷ xs) e h = ground arith

-- With the counter right, the shortcut for an empty zone is the general insertion.
pub add_to_zone-extents :
    (z : Zone) (e : Extent)
    → ZoneIsValid z
    → (add_to_zone z e).extents ≡ sorted_zone_list_insert z.extents e
unfolding add_to_zone
add_to_zone-extents z e v = insert_choice z.extent_ctr z.extents e v.counted

-- Adding an extent keeps a zone's list sorted and its counter the length of the list, as long as
-- the counter does not reach 2 ^ 32.
pub add_to_zone-ZoneIsValid :
    (z : Zone) (e : Extent)
    → ZoneIsValid z
    → z.extent_ctr + 1 < 2 ^ 32
    → ZoneIsValid (add_to_zone z e)
add_to_zone-ZoneIsValid z e v fits = record {
  sorted = rw (add_to_zone-extents z e v) (sorted_zone_list_insert-IsSorted z.extents e v.sorted);
  counted =
      rw (add_to_zone-extents z e v) (
        unfold add_to_zone in omega (arith, v.counted, length-sorted_zone_list_insert z.extents e));
}

All-set :
    (zones : List Zone) (i : ℕ) (z : Zone)
    → All ZoneIsValid zones
    → ZoneIsValid z
    → All ZoneIsValid (set zones i z)
All-set [] i z h v = tt
All-set (y ∷ ys) zero z h v = (v, h.1)
All-set (y ∷ ys) (suc i) z h v = (h.0, All-set ys i z h.1 v)

pub All-get_elem? :
    (zones : List Zone) (i : ℕ) {z : Zone}
    → get_elem? zones i ≡ some z
    → All ZoneIsValid zones
    → ZoneIsValid z
All-get_elem? [] i p h = cc
All-get_elem? (y ∷ ys) zero {z} p h = subst ZoneIsValid (some_inj p) h.0
All-get_elem? (y ∷ ys) (suc i) p h = All-get_elem? ys i p h.1

pub add_extent-set :
    (zones : List Zone) (e : Extent) (z : Zone)
    → get_elem? zones e.zone ≡ some z
    → add_extent_to_zone_list zones e ≡ returned (set zones e.zone (add_to_zone z e))
unfolding add_extent_to_zone_list
add_extent-set zones e z at_zone = rw (at_zone, add_extent_to_zone_list) refl

-- What one addition does to the map.
pub record Added (zones : List Zone) (z : Zone) (e : Extent) : Type 0 where
  pub zones' : List Zone
  pub result : add_extent_to_zone_list zones e ≡ returned zones'
  pub valid : All ZoneIsValid zones'
  pub same_length : length zones' ≡ length zones
  pub added : get_elem? zones' e.zone ≡ some (add_to_zone z e)
  pub contents : Perm (add_to_zone z e).extents (e ∷ z.extents)
  pub others : (j : ℕ) → j ≢ e.zone → get_elem? zones' j ≡ get_elem? zones j

-- In a valid map, an extent whose zone exists is linked into that zone's list and nowhere else,
-- nothing is lost, and the map stays valid.
pub add_extent-Added :
    (zones : List Zone) (e : Extent) (z : Zone)
    → All ZoneIsValid zones
    → get_elem? zones e.zone ≡ some z
    → z.extent_ctr + 1 < 2 ^ 32
    → Added zones z e
add_extent-Added zones e z h at_zone fits = record {
  zones' = set zones e.zone (add_to_zone z e);
  result = add_extent-set zones e z at_zone;
  valid = All-set zones e.zone (add_to_zone z e) h (add_to_zone-ZoneIsValid z e v fits);
  same_length = length-set zones e.zone (add_to_zone z e);
  added = get_elem?-set_self zones e.zone (add_to_zone z e) (get_elem?-lt zones e.zone at_zone);
  contents = rw (add_to_zone-extents z e v) (sorted_zone_list_insert-perm z.extents e);
  others = λ j ne. get_elem?-set_ne zones e.zone j (add_to_zone z e) (λ p. ne (sym p));
}
  where
    v : ZoneIsValid z
    v = All-get_elem? zones e.zone at_zone h

pub add_extent-fault :
    (zones : List Zone) (e : Extent)
    → get_elem? zones e.zone ≡ none
    → add_extent_to_zone_list zones e ≡ faulted
unfolding add_extent_to_zone_list
add_extent-fault zones e nowhere = rw (nowhere, add_extent_to_zone_list) refl
