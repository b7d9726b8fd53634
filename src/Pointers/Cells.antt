-- ===== src/Pointers/Cells.antt =====
-- The addresses of a chain with a new cell among them.
use zns_tools.Base.{
  ℕ, suc, ◌+◌, ◌≡◌, refl, ap, ◌∙◌, true, false, not, ◌&&◌, inl, inr, Bool-cases, List, [], ◌∷◌,
  length, ltb, ◌==◌, arith,
}
use zns_tools.Types.{Extent}
use zns_tools.Pointers.{Ptr, Store}
use zns_tools.Pointers.Chains.{Cells, Chain, no_node, no_extent, Distinct}
use zns_tools.Pointers.Insert.{insert_cell}

pub no_node-insert_cell :
    (a n x : Ptr) (cells : Cells) (es : List Extent) (start : ℕ)
    → (no_node a (insert_cell cells es (n, x) start) ≡ (not (a == n) && no_node a cells))
unfolding insert_cell
no_node-insert_cell a n x [] es start = ground arith
no_node-insert_cell a n x ((b, y) ∷ cells) [] start = ground arith
no_node-insert_cell a n x ((b, y) ∷ cells) (e ∷ es) start =
    ground (arith, no_node-insert_cell a n x cells es start)

pub no_extent-insert_cell :
    (z n x : Ptr) (cells : Cells) (es : List Extent) (start : ℕ)
    → (no_extent z (insert_cell cells es (n, x) start) ≡ (not (z == x) && no_extent z cells))
unfolding insert_cell
no_extent-insert_cell z n x [] es start = ground arith
no_extent-insert_cell z n x ((b, y) ∷ cells) [] start = ground arith
no_extent-insert_cell z n x ((b, y) ∷ cells) (e ∷ es) start =
    ground (arith, no_extent-insert_cell z n x cells es start)

pub Distinct-insert_cell :
    (n x : Ptr) (cells : Cells) (es : List Extent) (start : ℕ)
    → (n == 0) ≡ false
    → no_node n cells ≡ true
    → no_extent x cells ≡ true
    → Distinct cells
    → Distinct (insert_cell cells es (n, x) start)
unfolding insert_cell
Distinct-insert_cell n x [] es start real fresh fresh_x d = (real, refl, refl, tt)
Distinct-insert_cell n x (c ∷ cells) [] start real fresh fresh_x d = (real, fresh, fresh_x, d)
Distinct-insert_cell n x ((a, y) ∷ cells) (e ∷ es) start real fresh fresh_x (live, away, apart, d) =
    elim (Bool-cases (ltb e.phy_blk start)) [
      | inl less ↦ rw less (
        live,
        no_node-insert_cell a n x cells es start ∙ ground arith,
        no_extent-insert_cell y n x cells es start ∙ ground arith,
        Distinct-insert_cell n x cells es start real (ground arith) (ground arith) d,
      )
      | inr no_less ↦ rw no_less (real, fresh, fresh_x, (live, away, apart, d))
    ]

pub length-insert_cell :
    (new : Ptr × Ptr) (cells : Cells) (es : List Extent) (start : ℕ)
    → length (insert_cell cells es new start) ≡ length cells + 1
unfolding insert_cell
length-insert_cell new [] es start = refl
length-insert_cell new (c ∷ cells) [] start = omega arith
length-insert_cell new (c ∷ cells) (e ∷ es) start =
    ground (arith, length-insert_cell new cells es start)

pub length-Chain :
    (s : Store) (p : Ptr) (cells : Cells) (es : List Extent)
    → Chain s p cells es
    → length es ≡ length cells
length-Chain s p [] [] c = refl
length-Chain s p [] (e ∷ es) c = absurd c
length-Chain s p (x ∷ cells) [] c = absurd c
length-Chain s p ((a, x) ∷ cells) (e ∷ es) (q, is, at, copy, more) =
    ap suc (length-Chain s q cells es more)

pub no_node-null : (cells : Cells) → Distinct cells → no_node 0 cells ≡ true
no_node-null [] d = refl
no_node-null ((a, x) ∷ cells) (live, away, apart, d) = ground (arith, no_node-null cells d)

pub no_items : {A : Type 0} (xs : List A) → length xs ≡ 0 → xs ≡ []
no_items [] h = refl
no_items (x ∷ xs) h = absurd (omega arith)
