-- ===== src/Pointers/Chains.antt =====
-- A chain of nodes in a store, and what a write leaves of it.
use zns_tools.Base.{◌≡◌, Bool, true, false, not, ◌&&◌, some, Option, List, [], ◌∷◌, ◌==◌, arith}
use zns_tools.Types.{Extent}
use zns_tools.Pointers.{Ptr, node, Node, Store, put_node, put_extent}

-- A node's address and that of its extent.
abbrev pub Cells : Type 0
Cells = List (Ptr × Ptr)

-- From `p` on the store has nodes at these addresses, with these extents, to NULL.
abbrev pub Chain : Store → Ptr → Cells → List Extent → Type 0
Chain s p [] [] = p ≡ 0
Chain s p [] (e ∷ es) = ⊥
Chain s p ((a, x) ∷ cells) [] = ⊥
Chain s p ((a, x) ∷ cells) (e ∷ es) =
    (q : Ptr) × (p ≡ a)
    × (s.nodes a ≡ some (node x q))
    × (s.extents x ≡ some e)
    × Chain s q cells es

abbrev pub no_node : Ptr → Cells → Bool
no_node p [] = true
no_node p ((a, x) ∷ cells) = not (p == a) && no_node p cells

abbrev pub no_extent : Ptr → Cells → Bool
no_extent p [] = true
no_extent p ((a, x) ∷ cells) = not (p == x) && no_extent p cells

-- No address comes twice, and none of a node is NULL.
abbrev pub Distinct : Cells → Type 0
Distinct [] = Unit
Distinct ((a, x) ∷ cells) =
    ((a == 0) ≡ false) × (no_node a cells ≡ true) × (no_extent x cells ≡ true) × Distinct cells

pub Chain-put_node :
    (s : Store) (b : Ptr) (n : Option Node) (p : Ptr) (cells : Cells) (es : List Extent)
    → Chain s p cells es
    → no_node b cells ≡ true
    → Chain (put_node s b n) p cells es
Chain-put_node s b n p [] [] c away = c
Chain-put_node s b n p [] (e ∷ es) c away = c
Chain-put_node s b n p ((a, x) ∷ cells) [] c away = c
Chain-put_node s b n p ((a, x) ∷ cells) (e ∷ es) (q, is, at, copy, more) away =
    let other : (a == b) ≡ false = ground arith in
    (q, is, rw other at, copy, Chain-put_node s b n q cells es more (ground arith))

pub Chain-put_extent :
    (s : Store) (y : Ptr) (v : Option Extent) (p : Ptr) (cells : Cells) (es : List Extent)
    → Chain s p cells es
    → no_extent y cells ≡ true
    → Chain (put_extent s y v) p cells es
Chain-put_extent s y v p [] [] c away = c
Chain-put_extent s y v p [] (e ∷ es) c away = c
Chain-put_extent s y v p ((a, x) ∷ cells) [] c away = c
Chain-put_extent s y v p ((a, x) ∷ cells) (e ∷ es) (q, is, at, copy, more) away =
    let other : (x == y) ≡ false = ground arith in
    (q, is, at, rw other copy, Chain-put_extent s y v q cells es more (ground arith))
