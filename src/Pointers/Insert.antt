-- ===== src/Pointers/Insert.antt =====
-- Linking a new node in, against the insertion into the list of extents.
use zns_tools.Base.{
  ℕ, suc, zero, ◌<◌, ◌≡◌, refl, ap, ◌∙◌, true, false, inl, inr, Bool-cases, some, List, [], ◌∷◌,
  length, ltb, ◌==◌, if◌then◌else◌, arith,
}
use zns_tools.Types.{Extent}
use zns_tools.ZoneList as ZoneList
use zns_tools.Pointers.{
  Ptr, node, Store, put_node, ◌>>=◌, find_place, link_in, sorted_zone_list_insert,
}
use zns_tools.Pointers.Chains.{Cells, Chain, no_node, Distinct, Chain-put_node}

-- Where the new cell goes.
unfoldable pub insert_cell : Cells → List Extent → Ptr × Ptr → ℕ → Cells
insert_cell [] es new start = new ∷ []
insert_cell (c ∷ cells) [] new start = new ∷ c ∷ cells
insert_cell (c ∷ cells) (e ∷ es) new start =
    let rest = insert_cell cells es new start in
    if ltb e.phy_blk start then c ∷ rest else new ∷ c ∷ cells

-- The store after the two writes.
abbrev pub linked : Store → Ptr → Ptr → Ptr → Ptr → Ptr → Store
linked s n x current xc q = put_node (put_node s n (some (node x q))) current (some (node xc n))

module _ (s : Store) (n x : Ptr) (new : Extent) (there : s.nodes n ≡ some (node x 0))
    (copy : s.extents x ≡ some new) (real : (n == 0) ≡ false) where
  -- The place that is found from `b` on, and the chain behind `b` once the node is linked in there.
  pub record Placed (fuel : ℕ) (b xb : Ptr) (cells : Cells) (es : List Extent) : Type 0 where
    pub current : Ptr
    pub extent : Ptr
    pub next : Ptr
    pub start : Ptr
    pub finds : find_place fuel s b new.phy_blk ≡ some current
    pub place : s.nodes current ≡ some (node extent next)
    pub among : (c : Ptr) → no_node c ((b, xb) ∷ cells) ≡ true → (c == current) ≡ false
    pub before : (linked s n x current extent next).nodes b ≡ some (node xb start)
    pub chain :
        Chain
          (linked s n x current extent next)
          start
          (insert_cell cells es (n, x) new.phy_blk)
          (ZoneList.sorted_zone_list_insert es new)

  -- The node goes right behind `b`.
  here :
      (fuel : ℕ) (b xb p : Ptr) (cells : Cells) (es : List Extent)
      → find_place fuel s b new.phy_blk ≡ some b
      → s.nodes b ≡ some (node xb p)
      → Chain s p cells es
      → no_node b cells ≡ true
      → no_node n ((b, xb) ∷ cells) ≡ true
      → insert_cell cells es (n, x) new.phy_blk ≡ (n, x) ∷ cells
      → ZoneList.sorted_zone_list_insert es new ≡ new ∷ es
      → Placed fuel b xb cells es
  here fuel b xb p cells es found at chain apart fresh e_1 e_2 =
      let other : (n == b) ≡ false = ground arith in
      let same : (b == b) ≡ true = ground arith in
      let itself : (n == n) ≡ true = ground arith in
      record {
        current = b;
        extent = xb;
        next = p;
        start = n;
        finds = found;
        place = at;
        among = λ c away. ground arith;
        before = rw same refl;
        chain =
            rw (e_1, e_2)
              (
                p,
                refl,
                rw (other, itself) refl,
                copy,
                Chain-put_node _ b _ p cells es
                    (Chain-put_node s n _ p cells es chain (ground arith)) apart,
              );
      }

  -- The node goes behind a later place.
  further :
      (fuel : ℕ) (b xb a y : Ptr) (cells : Cells) (e : Extent) (es : List Extent)
      → find_place (suc fuel) s b new.phy_blk ≡ find_place fuel s a new.phy_blk
      → s.nodes b ≡ some (node xb a)
      → s.extents y ≡ some e
      → no_node b ((a, y) ∷ cells) ≡ true
      → no_node n ((b, xb) ∷ (a, y) ∷ cells) ≡ true
      → ltb e.phy_blk new.phy_blk ≡ true
      → Placed fuel a y cells es
      → Placed (suc fuel) b xb ((a, y) ∷ cells) (e ∷ es)
  unfolding ZoneList.sorted_zone_list_insert insert_cell
  further fuel b xb a y cells e es step at copy_e apart fresh less f =
      let other : (b == n) ≡ false = ground arith in
      let earlier : (b == f.current) ≡ false = f.among b apart in
      record {
        current = f.current;
        extent = f.extent;
        next = f.next;
        start = a;
        finds = step ∙ f.finds;
        place = f.place;
        among = λ c away. f.among c (ground arith);
        before = rw (earlier, other) at;
        chain = rw less (f.start, refl, f.before, copy_e, f.chain);
      }

  find_place-next :
      (fuel : ℕ) (b xb a y q : Ptr) (e : Extent)
      → s.nodes b ≡ some (node xb a)
      → (a == 0) ≡ false
      → s.nodes a ≡ some (node y q)
      → s.extents y ≡ some e
      → find_place (suc fuel) s b new.phy_blk ≡ elim (ltb e.phy_blk new.phy_blk) [
        | true ↦ find_place fuel s a new.phy_blk
        | false ↦ some b
      ]
  unfolding find_place
  find_place-next fuel b xb a y q e at live at_a copy_e = ground arith

  pub find-Placed :
      (fuel : ℕ) (b xb p : Ptr) (cells : Cells) (es : List Extent)
      → s.nodes b ≡ some (node xb p)
      → Chain s p cells es
      → Distinct cells
      → no_node b cells ≡ true
      → no_node n ((b, xb) ∷ cells) ≡ true
      → length cells < fuel
      → Placed fuel b xb cells es
  unfolding find_place ZoneList.sorted_zone_list_insert insert_cell
  find-Placed zero b xb p cells es at chain d apart fresh enough = absurd (omega arith)
  find-Placed (suc fuel) b xb p [] [] at chain d apart fresh enough =
      here (suc fuel) b xb p [] [] (rw (at, chain) refl) at chain apart fresh refl refl
  find-Placed (suc fuel) b xb p [] (e ∷ es) at chain d apart fresh enough = absurd chain
  find-Placed (suc fuel) b xb p ((a, y) ∷ cells) [] at chain d apart fresh enough = absurd chain
  find-Placed (suc fuel) b xb p ((a, y) ∷ cells) (e ∷ es) at (q, is, at_a, copy_e, more)
        (live, away, apart_x, d) apart fresh enough =
      let at' : s.nodes b ≡ some (node xb a) = at ∙ ap (λ (t : ℕ). some (node xb t)) is in
      elim (Bool-cases (ltb e.phy_blk new.phy_blk)) [
        | inl less ↦
            further fuel b xb a y cells e es
              (find_place-next fuel b xb a y q e at' live at_a copy_e ∙ rw less refl) at' copy_e
              apart fresh less
              (find-Placed fuel a y q cells es at_a more d away (ground arith) (omega arith))
        | inr no_less ↦
            here (suc fuel) b xb p ((a, y) ∷ cells) (e ∷ es)
              (find_place-next fuel b xb a y q e at' live at_a copy_e ∙ rw no_less refl) at
              (q, is, at_a, copy_e, more) apart fresh (rw no_less refl) (rw no_less refl)
      ]

  link_in_lem :
      (current xc q : Ptr)
      → s.nodes current ≡ some (node xc q)
      → (current == n) ≡ false
      → link_in n current s ≡ some (linked s n x current xc q)
  unfolding link_in
  link_in_lem current xc q at apart = rw (at, there, apart, ◌>>=◌) refl

  pub sorted_insert-Placed :
      (fuel xb : Ptr) (cells : Cells) (es : List Extent) (f : Placed fuel 0 xb cells es)
      → no_node n ((0, xb) ∷ cells) ≡ true
      → sorted_zone_list_insert fuel n s ≡ some (linked s n x f.current f.extent f.next)
  unfolding sorted_zone_list_insert
  sorted_insert-Placed fuel xb cells es f fresh =
      let first : (n == f.current) ≡ false = f.among n fresh in
      let apart : (f.current == n) ≡ false = ground arith in
      rw (there, copy, f.finds, ◌>>=◌) (link_in_lem f.current f.extent f.next f.place apart)
