-- ===== src/Pointers/Cleanup.antt =====
-- cleanup_zonemap frees each node of a zone and its extent, once.
use zns_tools.Base.{
  ℕ, zero, suc, ◌<◌, ◌≡◌, refl, ap, ◌∙◌, false, inl, inr, Bool-cases, Option, none, some, List, [],
  ◌∷◌, length, ◌==◌, if◌then◌else◌, arith,
}
use zns_tools.Types.{Extent}
use zns_tools.Pointers.{Ptr, node, Store, put_node, put_extent, ◌>>=◌, free_nodes, cleanup}
use zns_tools.Pointers.Chains.{
  Cells, Chain, no_node, no_extent, Distinct, Chain-put_node, Chain-put_extent,
}
use zns_tools.Pointers.Add.{Represents}

-- The loop ends without a fault; nothing is left at the chain's addresses, all else is as it was.
record Freed (s : Store) (cells : Cells) (result : Option Store) : Type 0 where
  s' : Store
  is : result ≡ some s'
  nodes : (a : Ptr) → s'.nodes a ≡ (if no_node a cells then s.nodes a else none)
  extents : (x : Ptr) → s'.extents x ≡ (if no_extent x cells then s.extents x else none)

free_nodes-next :
    (fuel : ℕ) (s : Store) (a x q : Ptr) (e : Extent)
    → (a == 0) ≡ false
    → s.nodes a ≡ some (node x q)
    → s.extents x ≡ some e
    → free_nodes (suc fuel) a s ≡ free_nodes fuel q (put_node (put_extent s x none) a none)
unfolding free_nodes
free_nodes-next fuel s a x q e live at copy = ground arith

free_nodes-Freed :
    (fuel : ℕ) (s : Store) (p : Ptr) (cells : Cells) (es : List Extent)
    → Chain s p cells es
    → Distinct cells
    → length cells < fuel
    → Freed s cells (free_nodes fuel p s)
unfolding free_nodes
free_nodes-Freed zero s p cells es chain d enough = absurd (omega arith)
free_nodes-Freed (suc fuel) s p [] [] chain d enough = record {
  s' = s;
  is = rw chain refl;
  nodes = λ a. refl;
  extents = λ x. refl;
}
free_nodes-Freed (suc fuel) s p [] (e ∷ es) chain d enough = absurd chain
free_nodes-Freed (suc fuel) s p ((a, x) ∷ cells) [] chain d enough = absurd chain
free_nodes-Freed (suc fuel) s p ((a, x) ∷ cells) (e ∷ es) (q, is, at, copy, more)
      (live, away, apart, d) enough =
    let s_1 = put_node (put_extent s x none) a none in
    let chain_1 : Chain s_1 q cells es =
      Chain-put_node (put_extent s x none) a none q cells es
        (Chain-put_extent s x none q cells es more apart) away in
    let f = free_nodes-Freed fuel s_1 q cells es chain_1 d (omega arith) in
    record {
      s' = f.s';
      is =
          ap (λ (t : Ptr). free_nodes (suc fuel) t s) is
          ∙ free_nodes-next fuel s a x q e live at copy
          ∙ f.is;
      nodes = λ b. f.nodes b ∙ ground arith;
      extents = λ y. f.extents y ∙ ground arith;
    }

-- Everything of the zone is gone but the head.
pub record Empty (result : Option Store) : Type 0 where
  pub s' : Store
  pub is : result ≡ some s'
  pub nodes : (a : Ptr) → (a == 0) ≡ false → s'.nodes a ≡ none
  pub extents : (x : Ptr) → s'.extents x ≡ none

pub cleanup-Empty :
    (fuel : ℕ) (s : Store) (cells : Cells) (es : List Extent)
    → Represents s cells es
    → length cells < fuel
    → Empty (cleanup fuel s)
unfolding cleanup
cleanup-Empty fuel s cells es r enough =
    let f = free_nodes-Freed fuel s r.head cells es r.chain r.distinct enough in
    record {
      s' = f.s';
      is = rw (r.at_head, ◌>>=◌) f.is;
      nodes = λ a live. f.nodes a ∙ gone_node a live;
      extents = λ x. f.extents x ∙ gone_extent x;
    }
  where
    gone_node : (a : Ptr) → (a == 0) ≡ false → (if no_node a cells then s.nodes a else none) ≡ none
    gone_node a live = elim (Bool-cases (no_node a cells)) [
      | inl out ↦ rw out (r.only_nodes a live out)
      | inr in_it ↦ rw in_it refl
    ]

    gone_extent : (x : Ptr) → (if no_extent x cells then s.extents x else none) ≡ none
    gone_extent x = elim (Bool-cases (no_extent x cells)) [
      | inl out ↦ rw out (r.only_extents x out)
      | inr in_it ↦ rw in_it refl
    ]
