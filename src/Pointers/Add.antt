-- ===== src/Pointers/Add.antt =====
-- add_extent_to_zone_list on nodes, against that on lists.
use zns_tools.Base.{
  ℕ, ◌<◌, ◌≡◌, refl, sym, ◌∙◌, true, false, not, ◌&&◌, inl, inr, Bool-cases, Option, none, some,
  List, [], ◌∷◌, length, ◌==◌, ==_iff, arith,
}
use zns_tools.Types.{Extent, Zone}
use zns_tools.ZoneList as ZoneList
use zns_tools.Pointers.{
  Ptr, node, Store, put_node, put_extent, ◌>>=◌, create_zone_extent_node, insert_zone_list_head,
  sorted_zone_list_insert, add_extent_to_zone_list,
}
use zns_tools.Pointers.Chains.{
  Cells, Chain, no_node, no_extent, Distinct, Chain-put_node, Chain-put_extent,
}
use zns_tools.Pointers.Insert.{insert_cell, linked, Placed, find-Placed, sorted_insert-Placed}
use zns_tools.Pointers.Cells.{
  no_node-insert_cell, no_extent-insert_cell, Distinct-insert_cell, length-Chain, no_node-null,
  no_items,
}

-- The store has the zone's list, at these addresses, and nothing else.
pub record Represents (s : Store) (cells : Cells) (es : List Extent) : Type 0 where
  pub no_use : Ptr
  pub head : Ptr
  pub at_head : s.nodes 0 ≡ some (node no_use head)
  pub chain : Chain s head cells es
  pub distinct : Distinct cells
  pub only_nodes : (a : Ptr) → (a == 0) ≡ false → no_node a cells ≡ true → s.nodes a ≡ none
  pub only_extents : (x : Ptr) → no_extent x cells ≡ true → s.extents x ≡ none

-- calloc's addresses are new ones.
pub record IsNew (n x : Ptr) (cells : Cells) : Type 0 where
  pub real : (n == 0) ≡ false
  pub node_apart : no_node n cells ≡ true
  pub extent_apart : no_extent x cells ≡ true

module _ (s : Store) (cells : Cells) (es : List Extent) (r : Represents s cells es) (n x : Ptr)
    (e : Extent) (new : IsNew n x cells) where
  abbrev made : Store
  made = put_node (put_extent s x (some e)) n (some (node x 0))

  old_nodes : Chain made r.head cells es
  old_nodes =
      Chain-put_node (put_extent s x (some e)) n (some (node x 0)) r.head cells es
        (Chain-put_extent s x (some e) r.head cells es r.chain new.extent_apart) new.node_apart

  head_made : made.nodes 0 ≡ some (node r.no_use r.head)
  head_made =
      let real = new.real in let apart : (0 == n) ≡ false = ground arith in rw apart r.at_head

  itself : (p : Ptr) → (p == p) ≡ true
  itself p = ground arith

  node_made : made.nodes n ≡ some (node x 0)
  node_made = rw (itself n) refl

  copy_made : made.extents x ≡ some e
  copy_made = rw (itself x) refl

  placed :
      (fuel : ℕ)
      → length cells < fuel
      → Placed made n x e node_made copy_made new.real fuel 0 r.no_use cells es
  placed fuel enough =
      find-Placed made n x e node_made copy_made new.real fuel 0 r.no_use r.head cells es head_made
        old_nodes r.distinct (no_node-null cells r.distinct)
        (ground (arith, new.real, new.node_apart)) enough

  -- Where nothing but the list and the new node is, nothing else is once it is linked in.
  only_made :
      (a : Ptr) → (a == 0) ≡ false → (a == n) ≡ false → no_node a cells ≡ true → made.nodes a ≡ none
  only_made a live apart away = rw apart (r.only_nodes a live away)

  only_made_extents : (z : Ptr) → (not (z == x) && no_extent z cells) ≡ true → made.extents z ≡ none
  only_made_extents z away =
      let apart : (z == x) ≡ false = ground arith in
      let out : no_extent z cells ≡ true = ground arith in rw apart (r.only_extents z out)

  -- What an insertion of either kind leaves, for lists of nodes and for lists of extents.
  pub record Inserted (result : Option Store) (es' : List Extent) : Type 0 where
    pub s' : Store
    pub is : result ≡ some s'
    pub represents : Represents s' (insert_cell cells es (n, x) e.phy_blk) es'

  only_linked :
      (fuel : ℕ) (enough : length cells < fuel) (a : Ptr)
      → (a == 0) ≡ false
      → (not (a == n) && no_node a cells) ≡ true
      → (linked made n x
            (placed fuel enough).current
            (placed fuel enough).extent
            (placed fuel enough).next).nodes
          a
        ≡ none
  only_linked fuel enough a live away =
      let f = placed fuel enough in
      let apart : (a == n) ≡ false = ground arith in
      let out : no_node a cells ≡ true = ground arith in
      let not_place : (a == f.current) ≡ false = f.among a (ground arith) in
      rw (not_place, apart) (r.only_nodes a live out)

  apart_cells : Distinct (insert_cell cells es (n, x) e.phy_blk)
  apart_cells =
      Distinct-insert_cell n x cells es e.phy_blk new.real new.node_apart new.extent_apart
        r.distinct

  sorted_insert :
      (fuel : ℕ)
      → length cells < fuel
      → Inserted (sorted_zone_list_insert fuel n made) (ZoneList.sorted_zone_list_insert es e)
  sorted_insert fuel enough =
      let f = placed fuel enough in
      let fresh : no_node n ((0, r.no_use) ∷ cells) ≡ true =
        ground (arith, new.real, new.node_apart) in
      record {
        s' = linked made n x f.current f.extent f.next;
        is =
            sorted_insert-Placed made n x e node_made copy_made new.real fuel r.no_use cells es f
              fresh;
        represents = record {
          no_use = r.no_use;
          head = f.start;
          at_head = f.before;
          chain = f.chain;
          distinct = apart_cells;
          only_nodes = λ a live away.
              only_linked fuel enough a live
                (sym (no_node-insert_cell a n x cells es e.phy_blk) ∙ away);
          only_extents = λ z away.
              only_made_extents z (sym (no_extent-insert_cell z n x cells es e.phy_blk) ∙ away);
        };
      }

  head_insert : cells ≡ [] → Inserted (insert_zone_list_head n made) (e ∷ [])
  unfolding insert_zone_list_head insert_cell
  head_insert no_cells =
      let real = new.real in
      let apart : (0 == n) ≡ false = ground arith in
      record {
        s' = put_node made 0 (some (node r.no_use n));
        is = rw (head_made, ◌>>=◌) refl;
        represents = rw no_cells (record {
          no_use = r.no_use;
          head = n;
          at_head = refl;
          chain = (0, refl, rw (real, itself n) refl, copy_made, refl);
          distinct = (real, refl, refl, tt);
          only_nodes = λ a live away.
              let other : (a == n) ≡ false = ground arith in
              let out : no_node a cells ≡ true = rw no_cells refl in
              rw (live, other) (r.only_nodes a live out);
          only_extents = λ z away.
              let other : (z == x) ≡ false = ground arith in
              let out : no_extent z cells ≡ true = rw no_cells refl in
              rw other (r.only_extents z out);
        });
      }

  -- One call, on nodes and on a zone that holds the list of extents.
  pub record Entered (fuel : ℕ) (z : Zone) : Type 0 where
    pub s' : Store
    pub is :
        add_extent_to_zone_list fuel n x e (s, z.extent_ctr)
        ≡ some (s', (ZoneList.add_to_zone z e).extent_ctr)
    pub represents :
        Represents s' (insert_cell cells es (n, x) e.phy_blk) (ZoneList.add_to_zone z e).extents

  pub add_extent-Entered :
      (fuel : ℕ) (z : Zone)
      → z.extents ≡ es
      → z.extent_ctr ≡ length es
      → length cells < fuel
      → Entered fuel z
  unfolding add_extent_to_zone_list create_zone_extent_node ZoneList.add_to_zone
      ZoneList.insert_zone_list_head
  add_extent-Entered fuel z same count enough = elim (Bool-cases (z.extent_ctr == 0)) [
    | inl none_yet ↦
        let f = head_insert (
          no_items cells
            (omega (arith, length-Chain s r.head cells es r.chain, (==_iff _ _).0 none_yet))) in
        record {
          s' = f.s';
          is = rw (none_yet, f.is, ◌>>=◌) refl;
          represents = rw none_yet f.represents;
        }
    | inr some_yet ↦
        let f = sorted_insert fuel enough in
        record {
          s' = f.s';
          is = rw (some_yet, f.is, ◌>>=◌) refl;
          represents = rw (some_yet, same) f.represents;
        }
  ]
