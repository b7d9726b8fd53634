-- ===== src/Fiemap/Record.antt =====
-- What the rounds of `get_extents` do to the zone map: the invariant of the map and its counters.
use zns_tools.Base.{
  ◌+◌, ◌%◌, ◌^◌, ◌<◌, ◌≡◌, refl, sym, ap, subst, ◌∙◌, some, length, All, get_elem?, set, length-set,
  arith, add64, add32,
}
use zns_tools.Types.{Extent, Zone, ZoneMap, returned, returned_inj}
use zns_tools.ZoneList.{add_to_zone}
use zns_tools.ZoneList.Valid.{ZoneIsValid, add_extent-Added, add_extent-set, All-get_elem?}
use zns_tools.ZoneList.Totals.{sum_by-at-le, set-total, total, size}
use zns_tools.ZoneList.Bags.{view, put, view-add_extent}
use zns_tools.Fiemap.{add_to_map}

-- Each zone's list is sorted and counted; the map's extent counter, its zone counter and its
-- cumulative size are those of all the lists.
pub record MapIsValid (m : ZoneMap) : Type 0 where
  pub zones : All ZoneIsValid m.zones
  pub extents : m.extent_ctr ≡ total m.zones
  pub per_extent : m.zone_ctr ≡ total m.zones
  pub sizes : m.cum_extent_size ≡ size m.zones % 2 ^ 64

-- What `add_to_map` gives for an extent whose zone exists.
pub record Mapped (m : ZoneMap) (e : Extent) : Type 0 where
  pub map' : ZoneMap
  pub result : add_to_map m e ≡ returned map'
  pub valid : MapIsValid map'
  pub one_more : total map'.zones ≡ total m.zones + 1
  pub same_zones : length map'.zones ≡ length m.zones
  pub contents : view map'.zones ≡ put e (view m.zones)

pub add_to_map-Mapped :
    (m : ZoneMap) (e : Extent) (z : Zone)
    → MapIsValid m
    → get_elem? m.zones e.zone ≡ some z
    → total m.zones + 1 < 2 ^ 32
    → Mapped m e
unfolding add_to_map
add_to_map-Mapped m e z v at_zone fits =
    let here = All-get_elem? m.zones e.zone at_zone v.zones in
    let room = sum_by-at-le (λ (z : Zone). length z.extents) m.zones e.zone z at_zone in
    let a = add_extent-Added m.zones e z v.zones at_zone (omega (arith, here.counted, room)) in
    let added = add_extent-set m.zones e z at_zone in
    let zones = set m.zones e.zone (add_to_zone z e) in
    let sums = set-total m.zones e z here at_zone in
    record {
      map' = record m {
        zones = zones;
        cum_extent_size = add64 m.cum_extent_size e.len;
        extent_ctr = add64 m.extent_ctr 1;
        zone_ctr = add32 m.zone_ctr 1;
      };
      result = rw added refl;
      valid = record {
        zones = subst (All ZoneIsValid) (returned_inj (sym a.result ∙ added)) a.valid;
        extents = omega (arith, sums.0, v.extents);
        per_extent = omega (arith, sums.0, v.per_extent);
        sizes = omega (arith, sums.1, v.sizes);
      };
      one_more = sums.0;
      same_zones = length-set m.zones e.zone (add_to_zone z e);
      contents =
          ap view (returned_inj (sym added ∙ a.result)) ∙ view-add_extent m.zones z e at_zone a;
    }
