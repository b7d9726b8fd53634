-- ===== src/NodeTable/Find.antt =====
-- The search loop of zns.imap, src/imap.c (under zns-tools.fs/): it ends at the first entry of the
-- inode number that leads to an inode.
use zns_tools.Base.{
  List, ℕ, zero, suc, ◌+◌, ◌^◌, ◌≤◌, ◌<◌, ◌≡◌, ◌≢◌, refl, sym, ap, ◌∙◌, Bool, true, false, Option,
  none, some, inl, inr, Bool-cases, ltb, ◌==◌, ==_iff, arith,
}
use zns_tools.Types.{Run, returned}
use zns_tools.NodeTable.{
  NatEntry, Node, SuperBlock, Disk, Cursor, nat_entry_per_block, is_inode, nat_block_address,
  nat_blocks, node_offset, f2fs_get_inode_nat_entry, f2fs_get_node_block, find_inode,
}
use zns_tools.NodeTable.Search.{place, start_of, Outcome, f2fs_get_inode_nat_entry-Searched}

pub bool_clash : true ≢ false
bool_clash h = cc

module _ (disk : Disk) (sb : SuperBlock) (table : ℕ → ℕ → NatEntry) (nodes : ℕ → Node)
    (inode : ℕ) where
  -- The table's entry leads to an inode.
  abbrev leads : ℕ → ℕ → Bool
  leads b i = is_inode (nodes (table b i).block_addr)

  -- What the loop returns: an entry of the inode number that leads to an inode, and none from the
  -- cursor on does before it.
  pub record Found (cur : Cursor) (r : Option (Run (Cursor × NatEntry × Node))) : Type 0 where
    pub cursor' : Cursor
    pub block : ℕ
    pub index : ℕ
    pub result :
        r ≡ some (returned (cursor', table block index, nodes (table block index).block_addr))
    pub number : (table block index).ino ≡ inode
    pub in_block : index < nat_entry_per_block
    pub from : start_of cur ≤ place block index
    pub is_node : leads block index ≡ true
    pub first :
        (b i : ℕ)
        → i < nat_entry_per_block
        → start_of cur ≤ place b i
        → place b i < place block index
        → (table b i).ino ≡ inode
        → leads b i ≡ false

  found_here :
      (fuel : ℕ) (cur cur' : Cursor) (e : NatEntry)
      → f2fs_get_inode_nat_entry disk sb cur inode ≡ returned (cur', some e)
      → disk.node (node_offset e.block_addr) ≡ some (nodes e.block_addr)
      → is_inode (nodes e.block_addr) ≡ true
      → find_inode disk sb (suc fuel) cur inode ≡ some (returned (cur', e, nodes e.block_addr))
  unfolding find_inode f2fs_get_node_block
  found_here fuel cur cur' e searched read yes_node = rw (searched, read, yes_node, find_inode) refl

  found_later :
      (fuel : ℕ) (cur cur' : Cursor) (e : NatEntry)
      → f2fs_get_inode_nat_entry disk sb cur inode ≡ returned (cur', some e)
      → disk.node (node_offset e.block_addr) ≡ some (nodes e.block_addr)
      → is_inode (nodes e.block_addr) ≡ false
      → find_inode disk sb (suc fuel) cur inode ≡ find_inode disk sb fuel cur' inode
  unfolding find_inode f2fs_get_node_block
  found_later fuel cur cur' e searched read no_node = rw (searched, read, no_node, find_inode) refl

  same_place :
      (b i b' i' : ℕ)
      → i < nat_entry_per_block
      → i' < nat_entry_per_block
      → place b i ≡ place b' i'
      → leads b i ≡ leads b' i'
  same_place b i b' i' below below' same =
      let p : b ≡ b' = omega arith in
      let q : i ≡ i' = omega arith in ap (λ (n : ℕ). leads n i) p ∙ ap (leads b') q

  -- A round whose entry leads to no inode, and what the loop does from behind it.
  later_round :
      (fuel : ℕ) (cur cur' : Cursor) (b i : ℕ)
      → f2fs_get_inode_nat_entry disk sb cur inode ≡ returned (cur', some (table b i))
      → disk.node (node_offset (table b i).block_addr) ≡ some (nodes (table b i).block_addr)
      → leads b i ≡ false
      → i < nat_entry_per_block
      → start_of cur ≤ place b i
      → start_of cur' ≡ place b i + 1
      → ((b' i' : ℕ)
          → i' < nat_entry_per_block
          → start_of cur ≤ place b' i'
          → place b' i' < place b i
          → (table b' i').ino ≢ inode)
      → Found cur' (find_inode disk sb fuel cur' inode)
      → Found cur (find_inode disk sb (suc fuel) cur inode)
  later_round fuel cur cur' b i searched read no_node below from behind miss f = record {
    cursor' = f.cursor';
    block = f.block;
    index = f.index;
    result = found_later fuel cur cur' (table b i) searched read no_node ∙ f.result;
    number = f.number;
    in_block = f.in_block;
    from = omega (arith, f.from);
    is_node = f.is_node;
    first = λ b' i' below' from' before match. elim (Bool-cases (ltb (place b' i') (place b i))) [
      | inl less ↦ absurd (miss b' i' below' from' (ground arith) match)
      | inr more ↦ elim (Bool-cases (place b' i' == place b i)) [
        | inl same ↦ same_place b' i' b i below' below ((==_iff _ _).0 same) ∙ no_node
        | inr other ↦ f.first b' i' below' (ground arith) before match
      ]
    ];
  }

  -- One round, when the loop goes on from wherever the round leaves the cursor.
  one_round :
      (fuel : ℕ) (cur cur' : Cursor) (found : Option NatEntry) (b i : ℕ)
      → ((address : ℕ) → disk.node (node_offset address) ≡ some (nodes address))
      → cur.entry < nat_entry_per_block
      → i < nat_entry_per_block
      → (table b i).ino ≡ inode
      → leads b i ≡ true
      → start_of cur ≤ place b i
      → b < cur.block + nat_blocks sb
      → place b i < start_of cur + suc fuel
      → f2fs_get_inode_nat_entry disk sb cur inode ≡ returned (cur', found)
      → Outcome disk sb table inode cur (nat_blocks sb) cur' found
      → (cur'.entry < nat_entry_per_block
          → start_of cur' ≤ place b i
          → b < cur'.block + nat_blocks sb
          → place b i < start_of cur' + fuel
          → Found cur' (find_inode disk sb fuel cur' inode))
      → Found cur (find_inode disk sb (suc fuel) cur inode)
  unfolding Outcome
  one_round fuel cur cur' none b i reads entry below match is_node from near enough searched outcome
        next =
      absurd (outcome.1 b i below from near match)
  one_round fuel cur cur' (some e) b i reads entry below match is_node from near enough searched
        (b₁, i₁, is, match₁, below₁, from₁, near₁, behind, entry', miss) next =
      let searched' = searched ∙ ap (λ (t : NatEntry). returned (cur', some t)) (sym is) in
      let read = reads (table b₁ i₁).block_addr in
      elim (Bool-cases (leads b₁ i₁)) [
        | inl yes_node ↦ record {
          cursor' = cur';
          block = b₁;
          index = i₁;
          result = found_here fuel cur cur' (table b₁ i₁) searched' read yes_node;
          number = ap (λ (t : NatEntry). t.ino) is ∙ match₁;
          in_block = below₁;
          from = from₁;
          is_node = yes_node;
          first =
              λ b' i' below' from' before match'. absurd (miss b' i' below' from' before match');
        }
        | inr no_node ↦ elim (Bool-cases (ltb (place b₁ i₁) (place b i))) [
          | inl less ↦
              later_round fuel cur cur' b₁ i₁ searched' read no_node below₁ from₁ behind miss
                (next entry' (ground arith) (ground arith) (ground arith))
          | inr more ↦ elim (Bool-cases (place b i == place b₁ i₁)) [
            | inl same ↦ absurd (
                bool_clash
                  (sym is_node ∙ same_place b i b₁ i₁ below below₁ ((==_iff _ _).0 same) ∙ no_node))
            | inr other ↦ absurd (miss b i below from (ground arith) match)
          ]
        ]
      ]

  -- Where the table and the nodes can be read, and an entry of the inode number from the cursor on
  -- leads to an inode, the loop ends, with a round for each entry up to that one as fuel: it returns
  -- the first such entry, and its node.
  pub find_inode-Found :
      (fuel : ℕ) (cur : Cursor) (b i : ℕ)
      → ((buffer : List ℕ) (block : ℕ)
          → (buffer' : List ℕ) × (disk.nat_block buffer (nat_block_address sb block)
              ≡ some (buffer', table block)))
      → ((address : ℕ) → disk.node (node_offset address) ≡ some (nodes address))
      → cur.entry < nat_entry_per_block
      → i < nat_entry_per_block
      → (table b i).ino ≡ inode
      → leads b i ≡ true
      → start_of cur ≤ place b i
      → b < cur.block + nat_blocks sb
      → b + nat_blocks sb < 2 ^ 32
      → place b i < start_of cur + fuel
      → Found cur (find_inode disk sb fuel cur inode)
  find_inode-Found zero cur b i tables reads entry below match is_node from near fits enough =
      absurd (omega arith)
  find_inode-Found (suc fuel) cur b i tables reads entry below match is_node from near fits enough =
      let s =
        f2fs_get_inode_nat_entry-Searched disk sb table inode cur tables (omega arith) entry in
      one_round fuel cur s.cursor' s.found b i reads entry below match is_node from near enough
        s.result s.outcome
        (λ entry' from' near' enough'.
          find_inode-Found fuel s.cursor' b i tables reads entry' below match is_node from' near'
            fits enough')
