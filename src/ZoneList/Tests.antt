-- ===== src/ZoneList/Tests.antt =====
-- Insertion into a zone's list at concrete extents.
use zns_tools.Base.{refl, [], ◌∷◌, ◌≡◌, arith}
use zns_tools.Fixtures.{extent_at, zone_with, no_extents}
use zns_tools.ZoneList.{sorted_zone_list_insert}
use zns_tools.ZoneList.Sorted.{Split, sorted_zone_list_insert-Split}
use zns_tools.ZoneList.Valid.{ZoneIsValid, Added, add_extent-Added}
use zns_tools.ZoneList.Bags.{Linked, link_all-Linked}
use zns_tools.Types.{Extent}
use zns_tools.Base.{List}

between :
    sorted_zone_list_insert (extent_at 196608 8 ∷ extent_at 196700 8 ∷ []) (extent_at 196650 8)
    ≡ extent_at 196608 8 ∷ extent_at 196650 8 ∷ extent_at 196700 8 ∷ []
unfolding sorted_zone_list_insert
between = refl

sorted_zone_list_insert-Split_example :
    Split (extent_at 196608 8 ∷ extent_at 196700 8 ∷ []) (extent_at 196650 8)
sorted_zone_list_insert-Split_example =
    sorted_zone_list_insert-Split (extent_at 196608 8 ∷ extent_at 196700 8 ∷ [])
      (extent_at 196650 8)

empty_zone : ZoneIsValid (zone_with 0 [])
empty_zone = record { sorted = tt; counted = refl }

add_extent-Added_example : Added no_extents.zones (zone_with 0 []) (extent_at 196608 8)
add_extent-Added_example =
    add_extent-Added no_extents.zones (extent_at 196608 8) (zone_with 0 [])
      (empty_zone, (empty_zone, (empty_zone, (empty_zone, tt)))) refl (omega arith)

abbrev down : List Extent
down = extent_at 196700 8 ∷ extent_at 196608 8 ∷ []

link_all-Linked_example : Linked down no_extents.zones
link_all-Linked_example =
    link_all-Linked down no_extents.zones (empty_zone, (empty_zone, (empty_zone, (empty_zone, tt))))
      (omega arith, (omega arith, tt)) (omega arith)
