-- ===== src/ZoneList.antt =====
-- The sorted extent list of each zone: `create_zone_extent_node` to `add_extent_to_zone_list` of
-- lib/libzns-tools.c (under zns-tools.fs/). A list of nodes is the list of its extents; a node owns
-- a copy of its extent.
pub mod Sorted
pub mod Valid
pub mod Totals
pub mod Bags
mod Tests
use zns_tools.Base.{
  ℕ, ◌+◌, ◌≡◌, Bool, true, false, Option, none, some, List, [], ◌∷◌, ltb, ◌==◌, if◌then◌else◌,
  add32, get_elem?, set,
}
use zns_tools.Types.{Extent, Zone, ZoneMap, Run, returned, faulted}

-- `create_zone_extent_node`: the node's copy, with its own copy of the file system's data.
abbrev pub create_zone_extent_node : Extent → Extent
create_zone_extent_node e = e

-- `*head = node`: the new node has no successor, so whatever the head was is dropped.
unfoldable pub insert_zone_list_head : List Extent → Extent → List Extent
insert_zone_list_head head node = node ∷ []

-- The loop steps over the nodes that start before the new one, and links it in there.
unfoldable pub sorted_zone_list_insert : List Extent → Extent → List Extent
sorted_zone_list_insert [] node = node ∷ []
sorted_zone_list_insert (x ∷ xs) node =
    if ltb x.phy_blk node.phy_blk then x ∷ sorted_zone_list_insert xs node else node ∷ x ∷ xs

-- What `add_extent_to_zone_list` does to the extent's own zone.
unfoldable pub add_to_zone : Zone → Extent → Zone
add_to_zone z e = record z {
  extents =
      if z.extent_ctr == 0
      then insert_zone_list_head z.extents (create_zone_extent_node e)
      else sorted_zone_list_insert z.extents (create_zone_extent_node e);
  extent_ctr = add32 z.extent_ctr 1;
}

-- A zone number past the map is a write past the array.
pub add_extent_to_zone_list : List Zone → Extent → Run (List Zone)
add_extent_to_zone_list zones e = elim (get_elem? zones e.zone) [
  | none ↦ faulted
  | some z ↦ returned (set zones e.zone (add_to_zone z e))
]
