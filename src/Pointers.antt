-- ===== src/Pointers.antt =====
-- The zone's extent list as the program has it, nodes at addresses: `create_zone_extent_node` to
-- `add_extent_to_zone_list`, and `cleanup_zonemap`, of lib/libzns-tools.c (under zns-tools.fs/). The
-- address that calloc returns is a parameter.
pub mod Chains
pub mod Insert
pub mod Cells
pub mod Add
pub mod Cleanup
pub mod Lifetime
mod Tests
use zns_tools.Base.{
  ℕ, zero, suc, Bool, true, false, Option, none, some, List, [], ◌∷◌, ◌==◌, ltb, if◌then◌else◌,
  add32,
}
use zns_tools.Types.{Extent}

-- An address; 0 is NULL.
abbrev pub Ptr : Type 0
Ptr = ℕ

-- `struct node`
pub record Node : Type 0 where
  pub extent : Ptr
  pub next : Ptr

abbrev pub node : Ptr → Ptr → Node
node x q = record { extent = x; next = q }

-- What is allocated. Of one zone `extents_head` stands at address 0, as the `next` of a node without
-- an extent: so a `struct node **` is the address of the node whose `next` it points to.
pub record Store : Type 0 where
  pub nodes : Ptr → Option Node
  pub extents : Ptr → Option Extent

abbrev pub put_node : Store → Ptr → Option Node → Store
put_node s p n = record s { nodes = λ a. if a == p then n else s.nodes a }

abbrev pub put_extent : Store → Ptr → Option Extent → Store
put_extent s p e = record s { extents = λ a. if a == p then e else s.extents a }

infixl 5 ◌>>=◌
abbrev pub ◌>>=◌ : {A B : Type 0} → Option A → (A → Option B) → Option B
none >>= f = none
some a >>= f = f a

-- `n` and `x` are the addresses of the node and of its copy of the extent.
unfoldable pub create_zone_extent_node : Ptr → Ptr → Extent → Store → Store
create_zone_extent_node n x e s = put_node (put_extent s x (some e)) n (some (node x 0))

-- `*head = node`
unfoldable pub insert_zone_list_head : Ptr → Store → Option Store
insert_zone_list_head n s = do head ← s.nodes 0; some (put_node s 0 (some (node head.extent n)))

-- The loop, on fuel: from a place on, the place whose successor is NULL or starts no earlier. `none`
-- is a fault, or the end of the fuel.
unfoldable pub find_place : ℕ → Store → Ptr → ℕ → Option Ptr
find_place zero s current start = none
find_place (suc fuel) s current start = do
  place ← s.nodes current
  elim (place.next == 0) [
    | true ↦ some current
    | false ↦ (do
      other ← s.nodes place.next
      e ← s.extents other.extent
      elim (ltb e.phy_blk start) [
        | true ↦ find_place fuel s place.next start
        | false ↦ some current
      ])
  ]

-- `node->next = *current; *current = node`
unfoldable pub link_in : Ptr → Ptr → Store → Option Store
link_in n current s = do
  place ← s.nodes current
  new ← s.nodes n
  let s_1 = put_node s n (some (node new.extent place.next))
  place_1 ← s_1.nodes current
  some (put_node s_1 current (some (node place_1.extent n)))

unfoldable pub sorted_zone_list_insert : ℕ → Ptr → Store → Option Store
sorted_zone_list_insert fuel n s = do
  new ← s.nodes n
  e ← s.extents new.extent
  current ← find_place fuel s 0 e.phy_blk
  link_in n current s

-- With the zone's `extent_ctr`, which is counted up.
unfoldable pub add_extent_to_zone_list : ℕ → Ptr → Ptr → Extent → Store × ℕ → Option (Store × ℕ)
add_extent_to_zone_list fuel n x e (s, extent_ctr) = do
  let s_1 = create_zone_extent_node n x e s
  s_2 ←
      (if extent_ctr == 0 then insert_zone_list_head n s_1 else sorted_zone_list_insert fuel n s_1)
  some (s_2, add32 extent_ctr 1)

-- The loop of cleanup_zonemap over one zone's nodes, on fuel. To free what is not allocated is a
-- fault.
unfoldable pub free_nodes : ℕ → Ptr → Store → Option Store
free_nodes zero head s = none
free_nodes (suc fuel) head s = elim (head == 0) [
  | true ↦ some s
  | false ↦ (do
    current ← s.nodes head
    e ← s.extents current.extent
    free_nodes fuel current.next (put_node (put_extent s current.extent none) head none))
]

unfoldable pub cleanup : ℕ → Store → Option Store
cleanup fuel s = do head ← s.nodes 0; free_nodes fuel head.next s
