-- ===== src/NodeTable/Search.antt =====
-- A search of the table finds the first entry from the cursor on, and leaves the cursor behind it.
use zns_tools.Base.{
  ℕ, zero, suc, ◌+◌, ◌-◌, ◌*◌, ◌^◌, ◌≤◌, ◌<◌, ◌≡◌, ◌≢◌, refl, subst, false, Option, none, some,
  List, ◌==◌, ==_iff, inl, inr, Bool-cases, Option-cases, arith, add32,
}
use native.Mathlib.Decide.{ℕ_discrete}
use zns_tools.Types.{Run, returned}
use zns_tools.Ondisk.Layout.{copies}
use zns_tools.NodeTable.{
  NatEntry, SuperBlock, Disk, Cursor, nat_entry_per_block, scan_block, advance, nat_block_address,
  nat_blocks, search_blocks, block_sz, f2fs_get_inode_nat_entry,
}

-- What a scan of `n` entries from `i` on says: the first match, or that there is none.
Scanned : (ℕ → NatEntry) → ℕ → ℕ → ℕ → Option ℕ → Type 0
Scanned entries inode i n none = (j : ℕ) → i ≤ j → j < i + n → (entries j).ino ≢ inode
Scanned entries inode i n (some q) =
    (i ≤ q)
    × (q < i + n)
    × ((entries q).ino ≡ inode)
    × ((j : ℕ) → i ≤ j → j < q → (entries j).ino ≢ inode)

differ : (a b : ℕ) → (a == b) ≡ false → a ≢ b
differ a b h e = ground arith

scan_miss :
    (n i : ℕ) (entries : ℕ → NatEntry) (inode : ℕ) (r : Option ℕ)
    → (entries i).ino ≢ inode
    → Scanned entries inode (i + 1) n r
    → Scanned entries inode i (suc n) r
unfolding Scanned
scan_miss n i entries inode none miss rest = λ j from below. elim (ℕ_discrete i j) [
  | yes e ↦ subst (λ k. (entries k).ino ≢ inode) e miss
  | no ne ↦ rest j (omega arith) (omega arith)
]
scan_miss n i entries inode (some q) miss rest = (
  omega arith,
  omega arith,
  rest.2,
  λ j from below. elim (ℕ_discrete i j) [
    | yes e ↦ subst (λ k. (entries k).ino ≢ inode) e miss
    | no ne ↦ rest.3 j (omega arith) (omega arith)
  ],
)

scan_block-Scanned :
    (n i : ℕ) (entries : ℕ → NatEntry) (inode : ℕ)
    → Scanned entries inode i n (scan_block n i entries inode)
unfolding scan_block Scanned
scan_block-Scanned zero i entries inode = λ j from below. absurd (omega arith)
scan_block-Scanned (suc n) i entries inode = elim (Bool-cases ((entries i).ino == inode)) [
  | inl hit ↦
      rw hit (omega arith, omega arith, (==_iff _ _).0 hit, λ j from below. absurd (omega arith))
  | inr miss ↦ rw miss (
      scan_miss n i entries inode (scan_block n (i + 1) entries inode) (differ _ _ miss)
        (scan_block-Scanned n (i + 1) entries inode))
]

-- The place of a table entry: its block and its index in one number.
abbrev pub place : ℕ → ℕ → ℕ
place block i = block * nat_entry_per_block + i

abbrev pub start_of : Cursor → ℕ
start_of cur = place cur.block cur.entry

module _ (disk : Disk) (sb : SuperBlock) (table : ℕ → ℕ → NatEntry) (inode : ℕ) where
  -- What a search of `n` blocks from the cursor on says, and where it leaves the cursor.
  unfoldable pub Outcome : Cursor → ℕ → Cursor → Option NatEntry → Type 0
  Outcome cur n cur' none =
      (cur'.block ≡ cur.block + n)
      × ((b i : ℕ)
          → i < nat_entry_per_block
          → start_of cur ≤ place b i
          → b < cur.block + n
          → (table b i).ino ≢ inode)
  Outcome cur n cur' (some e) =
      (b : ℕ) × (i : ℕ) × (table b i ≡ e)
      × (e.ino ≡ inode)
      × (i < nat_entry_per_block)
      × (start_of cur ≤ place b i)
      × (b < cur.block + n)
      × (start_of cur' ≡ place b i + 1)
      × (cur'.entry < nat_entry_per_block)
      × ((b' i' : ℕ)
          → i' < nat_entry_per_block
          → start_of cur ≤ place b' i'
          → place b' i' < place b i
          → (table b' i').ino ≢ inode)

  pub record Searched (cur : Cursor) (n : ℕ) (r : Run (Cursor × Option NatEntry)) : Type 0 where
    pub cursor' : Cursor
    pub found : Option NatEntry
    pub result : r ≡ returned (cursor', found)
    pub outcome : Outcome cur n cursor' found

  -- Nothing in the cursor's own block: what is said from the next block on holds from the cursor on.
  Outcome-lift :
      (cur next cur' : Cursor) (n : ℕ) (found : Option NatEntry)
      → cur.entry < nat_entry_per_block
      → next.block ≡ cur.block + 1
      → next.entry ≡ 0
      → Scanned (table cur.block) inode cur.entry (nat_entry_per_block - cur.entry) none
      → Outcome next n cur' found
      → Outcome cur (suc n) cur' found
  unfolding Outcome Scanned
  Outcome-lift cur next cur' n none ok bl en miss (len, rest) = (
    omega arith,
    λ b i below from before. elim (ℕ_discrete cur.block b) [
      | yes e ↦ subst (λ t. (table t i).ino ≢ inode) e (miss i (omega arith) (omega arith))
      | no ne ↦ rest b i below (omega arith) (omega arith)
    ],
  )
  Outcome-lift cur next cur' n (some e) ok bl en miss
        (b, i, is, match, in_block, from, before, to, fits, rest) =
      (
        b,
        i,
        is,
        match,
        in_block,
        omega arith,
        omega arith,
        to,
        fits,
        λ b' i' below' from' before'. elim (ℕ_discrete cur.block b') [
          | yes q ↦ subst (λ t. (table t i').ino ≢ inode) q (miss i' (omega arith) (omega arith))
          | no ne ↦ rest b' i' below' (omega arith) before'
        ],
      )

  advance-place :
      (cur : Cursor) (i : ℕ)
      → i < nat_entry_per_block
      → cur.block + 1 < 2 ^ 32
      → (start_of (advance cur i) ≡ place cur.block i + 1)
        × ((advance cur i).entry < nat_entry_per_block)
  unfolding advance
  advance-place cur i below fits = ground arith

  Outcome-here :
      (cur : Cursor) (n i : ℕ)
      → cur.entry < nat_entry_per_block
      → cur.block + 1 < 2 ^ 32
      → Scanned (table cur.block) inode cur.entry (nat_entry_per_block - cur.entry) (some i)
      → Outcome cur (suc n) (advance cur i) (some (table cur.block i))
  unfolding Outcome Scanned
  Outcome-here cur n i ok fits (from, below, match, first) =
      let a = advance-place cur i (omega arith) fits in
      (
        cur.block,
        i,
        refl,
        match,
        omega arith,
        omega arith,
        omega arith,
        a.0,
        a.1,
        λ b' i' below' from' before'.
            let q : cur.block ≡ b' = omega arith in
            subst (λ t. (table t i').ino ≢ inode) q (first i' (omega arith) (omega arith)),
      )

  search_blocks-Searched :
      (n : ℕ) (buffer : List ℕ) (cur : Cursor)
      → ((buffer : List ℕ) (b : ℕ)
          → (buffer' : List ℕ) × (disk.nat_block buffer (nat_block_address sb b)
              ≡ some (buffer', table b)))
      → cur.block + n < 2 ^ 32
      → cur.entry < nat_entry_per_block
      → Searched cur n (search_blocks disk sb n buffer cur inode)
  unfolding search_blocks
  search_blocks-Searched zero buffer cur reads fits ok = record {
    cursor' = cur;
    found = none;
    result = refl;
    outcome = unfold Outcome in (omega arith, λ b i below from before. absurd (omega arith));
  }
  search_blocks-Searched (suc n) buffer cur reads fits ok =
      let scan = scan_block (nat_entry_per_block - cur.entry) cur.entry (table cur.block) inode in
      let (buffer', read) = reads buffer cur.block in
      let says =
        scan_block-Scanned (nat_entry_per_block - cur.entry) cur.entry (table cur.block) inode in
      let next : Cursor = record { block = add32 cur.block 1; entry = 0 } in
      elim (Option-cases scan) [
        | inl miss ↦
            let rest = search_blocks-Searched n buffer' next reads (omega arith) (omega arith) in
            record {
              cursor' = rest.cursor';
              found = rest.found;
              result = rw (read, search_blocks, miss) rest.result;
              outcome =
                  Outcome-lift cur next rest.cursor' n rest.found ok (omega arith) refl
                    (subst
                      (Scanned (table cur.block) inode cur.entry (nat_entry_per_block - cur.entry))
                      miss says)
                    rest.outcome;
            }
        | inr (i, hit) ↦ record {
          cursor' = advance cur i;
          found = some (table cur.block i);
          result = rw (read, search_blocks, hit) refl;
          outcome = Outcome-here cur n i ok (omega arith) (
              subst (Scanned (table cur.block) inode cur.entry (nat_entry_per_block - cur.entry))
                hit says);
        }
      ]

  -- Where every table block can be read, a call returns the first entry with that inode number from
  -- the cursor on, among the next `nat_blocks` blocks, and leaves the cursor just behind it; or it
  -- returns none because those blocks have none, and leaves the cursor behind them.
  pub f2fs_get_inode_nat_entry-Searched :
      (cur : Cursor)
      → ((buffer : List ℕ) (b : ℕ)
          → (buffer' : List ℕ) × (disk.nat_block buffer (nat_block_address sb b)
              ≡ some (buffer', table b)))
      → cur.block + nat_blocks sb < 2 ^ 32
      → cur.entry < nat_entry_per_block
      → Searched cur (nat_blocks sb) (f2fs_get_inode_nat_entry disk sb cur inode)
  unfolding f2fs_get_inode_nat_entry
  f2fs_get_inode_nat_entry-Searched cur reads fits ok =
      search_blocks-Searched (nat_blocks sb) (copies block_sz 0) cur reads fits ok
