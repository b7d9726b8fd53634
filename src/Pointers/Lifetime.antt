-- ===== src/Pointers/Lifetime.antt =====
-- A zone's list from its first extent to cleanup_zonemap.
use zns_tools.Base.{
  ℕ, ◌+◌, ◌^◌, ◌<◌, ◌≡◌, refl, sym, ap, ◌∙◌, not, ◌&&◌, Option, none, some, List, [], ◌∷◌, length,
  ◌==◌, if◌then◌else◌, arith,
}
use zns_tools.Types.{Extent, Zone}
use zns_tools.ZoneList as ZoneList
use zns_tools.Pointers.{Ptr, node, Store, ◌>>=◌, add_extent_to_zone_list, cleanup}
use zns_tools.Pointers.Chains.{Cells, no_node, no_extent}
use zns_tools.Pointers.Insert.{insert_cell}
use zns_tools.Pointers.Cells.{
  no_node-insert_cell, no_extent-insert_cell, length-insert_cell, length-Chain,
}
use zns_tools.Pointers.Add.{Represents, IsNew, add_extent-Entered}
use zns_tools.Pointers.Cleanup.{Empty, cleanup-Empty}

-- A call of add_extent_to_zone_list: calloc's two addresses, and the extent.
abbrev pub Call : Type 0
Call = Ptr × Ptr × Extent

unfoldable pub add_calls : ℕ → List Call → Store × ℕ → Option (Store × ℕ)
add_calls fuel [] s = some s
add_calls fuel ((n, x, e) ∷ calls) s = add_extent_to_zone_list fuel n x e s >>= add_calls fuel calls

-- The same calls on a zone that holds a list.
unfoldable pub added : List Call → Zone → Zone
added [] z = z
added ((n, x, e) ∷ calls) z = added calls (ZoneList.add_to_zone z e)

-- calloc never returns an address in use, nor NULL.
abbrev pub AllNew : Cells → List Call → Type 0
AllNew used [] = Unit
AllNew used ((n, x, e) ∷ calls) = IsNew n x used × AllNew ((n, x) ∷ used) calls

count_up :
    (z : Zone) (e : Extent) (k : ℕ)
    → z.extent_ctr ≡ k
    → k + 1 < 2 ^ 32
    → (ZoneList.add_to_zone z e).extent_ctr ≡ k + 1
unfolding ZoneList.add_to_zone
count_up z e k is below = omega arith

record Built (fuel : ℕ) (calls : List Call) (s : Store) (z : Zone) (count : ℕ) : Type 0 where
  s' : Store
  cells' : Cells
  is : add_calls fuel calls (s, z.extent_ctr) ≡ some (s', (added calls z).extent_ctr)
  represents : Represents s' cells' (added calls z).extents
  counted : length cells' ≡ count

add_calls-Built :
    (fuel : ℕ) (calls : List Call) (s : Store) (z : Zone) (cells used : Cells)
    → Represents s cells z.extents
    → z.extent_ctr ≡ length cells
    → ((a : Ptr) → no_node a cells ≡ no_node a used)
    → ((x : Ptr) → no_extent x cells ≡ no_extent x used)
    → AllNew used calls
    → length cells + length calls < 2 ^ 32
    → length cells + length calls < fuel
    → Built fuel calls s z (length cells + length calls)
unfolding add_calls added
add_calls-Built fuel [] s z cells used r count nodes extents new fits enough = record {
  s' = s;
  cells' = cells;
  is = refl;
  represents = r;
  counted = omega arith;
}
add_calls-Built fuel ((n, x, e) ∷ calls) s z cells used r count nodes extents (now, later) fits
      enough =
    let new : IsNew n x cells = record {
      real = now.real;
      node_apart = nodes n ∙ now.node_apart;
      extent_apart = extents x ∙ now.extent_apart;
    } in
    let f =
      add_extent-Entered s cells z.extents r n x e new fuel z refl
        (count ∙ sym (length-Chain s r.head cells z.extents r.chain)) (omega arith) in
    let z_1 = ZoneList.add_to_zone z e in
    let cells_1 = insert_cell cells z.extents (n, x) e.phy_blk in
    let long : length cells_1 ≡ length cells + 1 =
      length-insert_cell (n, x) cells z.extents e.phy_blk in
    let g =
      add_calls-Built fuel calls f.s' z_1 cells_1 ((n, x) ∷ used) f.represents
        (count_up z e (length cells) count (omega arith) ∙ sym long)
        (λ a.
          no_node-insert_cell a n x cells z.extents e.phy_blk
          ∙ ap (λ t. not (a == n) && t) (nodes a))
        (λ y.
          no_extent-insert_cell y n x cells z.extents e.phy_blk
          ∙ ap (λ t. not (y == x) && t) (extents y))
        later (omega arith) (omega arith) in
    record {
      s' = g.s';
      cells' = g.cells';
      is = rw (f.is, ◌>>=◌) g.is;
      represents = g.represents;
      counted = g.counted ∙ omega arith;
    }

-- A zone without extents, in a store that has nothing but its head.
abbrev pub no_nodes : Store
no_nodes = record { nodes = λ a. if a == 0 then some (node 0 0) else none; extents = λ x. none }

no_nodes-Represents : Represents no_nodes [] []
no_nodes-Represents = record {
  no_use = 0;
  head = 0;
  at_head = refl;
  chain = refl;
  distinct = tt;
  only_nodes = λ a live away. rw live refl;
  only_extents = λ x away. refl;
}

-- The calls succeed: the store has the list of the zone, and nothing else. Then cleanup_zonemap
-- succeeds, and leaves nothing.
pub record Kept (fuel : ℕ) (calls : List Call) (z : Zone) : Type 0 where
  pub s' : Store
  pub cells' : Cells
  pub is : add_calls fuel calls (no_nodes, 0) ≡ some (s', (added calls z).extent_ctr)
  pub represents : Represents s' cells' (added calls z).extents
  pub cleaned : Empty (cleanup fuel s')

-- For fewer than 2 ^ 32 calls of add_extent_to_zone_list on an empty zone, each with new addresses
-- from calloc, the program's nodes are, in order, those of the list of extents that the same calls
-- make, and nothing else is allocated; none reads what is not allocated. cleanup_zonemap then frees
-- every node and every copy of an extent, none of them twice, and reads none that it has freed. More
-- fuel than there are calls is enough for both.
pub add_calls-Kept :
    (fuel : ℕ) (calls : List Call) (z : Zone)
    → z.extents ≡ []
    → z.extent_ctr ≡ 0
    → AllNew [] calls
    → length calls < 2 ^ 32
    → length calls < fuel
    → Kept fuel calls z
add_calls-Kept fuel calls z no_extents none_yet new fits enough =
    let r : Represents no_nodes [] z.extents = rw no_extents no_nodes-Represents in
    let f =
      add_calls-Built fuel calls no_nodes z [] [] r none_yet (λ a. refl) (λ x. refl) new
        (omega arith) (omega arith) in
    record {
      s' = f.s';
      cells' = f.cells';
      is = ap (λ (k : ℕ). add_calls fuel calls (no_nodes, k)) (sym none_yet) ∙ f.is;
      represents = f.represents;
      cleaned =
          cleanup-Empty fuel f.s' f.cells' (added calls z).extents f.represents
            (omega (arith, f.counted));
    }
