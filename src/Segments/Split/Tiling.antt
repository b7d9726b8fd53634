-- ===== src/Segments/Split/Tiling.antt =====
-- The parts into which the loop splits an extent follow one another from its start to its end.
use native.Mathlib.Nat.{div-le_self}
use zns_tools.Base.{
  ℕ, ◌+◌, ◌-◌, ◌/◌, ◌^◌, ◌≤◌, ◌<◌, ◌≡◌, ◌≢◌, refl, sym, ap, ◌∙◌, bit_and, false, some, List, [],
  ◌++◌, ltb, ◌==◌, arith, add64, sub64, shr, inl, inr, ◌⊎◌, Bool-cases, ==_iff,
}
use zns_tools.Types.{Extent, Control, returned}
use zns_tools.Segments.{SegmapManager, SegLine, segment_of, extent_end}
use zns_tools.Segments.Split.{show_in_segment, show_part_1, show_part_2, show_part_3}
use zns_tools.Segments.Geometry.{
  IsGeometry, start_of, mask-start_of, segment_of_lem, start_of-le, start_of-next, start_of-diff,
}
use zns_tools.Segments.Pieces.{
  walk, walk-nil, walk-append, IsPrinted, at_segment, show_segment_info-Headed, show_piece-Shows,
  set_segment_counters-Counted, end-sum, Covers, show_beginning_segment_tiles,
  show_remainder_segment_tiles, show_consecutive_segments-Covers,
}

pub differ : (a b : ℕ) → (a == b) ≡ false → a ≢ b
differ a b h e = ground arith

module _ (c : Control) (e : Extent) (pr : IsPrinted c e) where
  pub show_in_segment-Covers :
      (man : SegmapManager) (s : ℕ)
      → Covers c e pr (show_in_segment c man e s) e.phy_blk (e.phy_blk + e.len)
  unfolding show_in_segment
  show_in_segment-Covers man s = elim (Bool-cases (s == c.cur_segment)) [
    | inl same ↦
        let last = show_piece-Shows c e pr c.cur_segment e.phy_blk (extent_end e) e.len in
        record {
          lines = last.lines;
          cur = c.cur_segment;
          man' = man;
          result = rw (same, last.result) refl;
          tiles = last.tiles (end-sum c e pr) ∙ ap some (end-sum c e pr);
        }
    | inr other ↦
        let head = show_segment_info-Headed c e pr s in
        let cnt = set_segment_counters-Counted c e pr head.cur 1 man in
        let last = show_piece-Shows c e pr s e.phy_blk (extent_end e) e.len in
        record {
          lines = head.lines ++ last.lines;
          cur = s;
          man' = cnt.man';
          result = rw (other, head.result, cnt.result, last.result) refl;
          tiles =
              walk-append e.phy_blk e.phy_blk head.lines last.lines (head.neutral e.phy_blk)
              ∙ last.tiles (end-sum c e pr)
              ∙ ap some (end-sum c e pr);
        }
  ]

  module _ (k : ℕ) (g : IsGeometry c k) where
    -- Part 1, and the segment to go on with.
    pub record First (man : SegmapManager) (s : ℕ) : Type 0 where
      pub lines : List SegLine
      pub cur : ℕ
      pub man' : SegmapManager
      pub next : ℕ
      pub result : show_part_1 c man e s ≡ returned (lines, at_segment c cur, man', next)
      pub tiles : walk e.phy_blk lines ≡ some (start_of k next)
      pub which :
          ((e.phy_blk ≡ start_of k (e.phy_blk / 2 ^ k)) × (next ≡ e.phy_blk / 2 ^ k))
          ⊎ ((start_of k (e.phy_blk / 2 ^ k) < e.phy_blk) × (next ≡ e.phy_blk / 2 ^ k + 1))

    show_part_1-inside :
        (man : SegmapManager) (s : ℕ)
        → s ≡ e.phy_blk / 2 ^ k
        → e.phy_blk / 2 ^ k < (e.phy_blk + e.len) / 2 ^ k
        → (e.phy_blk == bit_and e.phy_blk c.f2fs_segment_mask) ≡ false
        → First man s
    unfolding show_part_1
    show_part_1-inside man s sid more inside =
        let q = e.phy_blk / 2 ^ k in
        let mask = mask-start_of c k g e.phy_blk (omega (arith, pr.fits)) in
        let apart : e.phy_blk ≢ start_of k q = λ h. differ _ _ inside (h ∙ sym mask) in
        let low = start_of-le k e.phy_blk in
        let small : (e.phy_blk + e.len) / 2 ^ k ≤ e.phy_blk + e.len = div-le_self _ _ in
        let next : add64 s 1 ≡ q + 1 = omega (arith, pr.fits) in
        let number = segment_of_lem c k g e.phy_blk (omega (arith, pr.fits)) in
        elim (Bool-cases (s == c.cur_segment)) [
          | inl shown ↦
              let (ls, printed, tiles) =
                show_beginning_segment_tiles c e pr k g c.cur_segment more in
              let cnt = set_segment_counters-Counted c e pr c.cur_segment 1 man in
              record {
                lines = ls;
                cur = c.cur_segment;
                man' = cnt.man';
                next = add64 s 1;
                result = rw (inside, shown, printed, cnt.result) refl;
                tiles = tiles ∙ ap (λ n. some (start_of k n)) (sym next);
                which = inr (omega (arith, apart, low), next);
              }
          | inr other ↦
              let head = show_segment_info-Headed c e pr (segment_of c e.phy_blk) in
              let (ls, printed, tiles) = show_beginning_segment_tiles c e pr k g head.cur more in
              let cnt = set_segment_counters-Counted c e pr head.cur 1 man in
              record {
                lines = head.lines ++ ls;
                cur = head.cur;
                man' = cnt.man';
                next = add64 s 1;
                result = rw (inside, other, head.result, printed, cnt.result) refl;
                tiles =
                    walk-append e.phy_blk e.phy_blk head.lines ls (head.neutral e.phy_blk)
                    ∙ tiles
                    ∙ ap (λ n. some (start_of k n)) (sym next);
                which = inr (omega (arith, apart, low), next);
              }
        ]

    pub show_part_1-First :
        (man : SegmapManager) (s : ℕ)
        → s ≡ e.phy_blk / 2 ^ k
        → e.phy_blk / 2 ^ k < (e.phy_blk + e.len) / 2 ^ k
        → First man s
    unfolding show_part_1
    show_part_1-First man s sid more =
        let mask = mask-start_of c k g e.phy_blk (omega (arith, pr.fits)) in
        elim (Bool-cases (e.phy_blk == bit_and e.phy_blk c.f2fs_segment_mask)) [
          | inl aligned ↦
              let here : e.phy_blk ≡ start_of k (e.phy_blk / 2 ^ k) =
                (==_iff _ _).0 aligned ∙ mask in
              record {
                lines = [];
                cur = c.cur_segment;
                man' = man;
                next = s;
                result = rw aligned refl;
                tiles = walk-nil e.phy_blk ∙ ap some (here ∙ ap (start_of k) (sym sid));
                which = inl (here, sid);
              }
          | inr inside ↦ show_part_1-inside man s sid more inside
        ]

    pub end-mask :
        bit_and (extent_end e) c.f2fs_segment_mask ≡ start_of k ((e.phy_blk + e.len) / 2 ^ k)
    end-mask =
        mask-start_of c k g (extent_end e) (omega (arith, pr.fits))
        ∙ ap (λ (t : ℕ). start_of k (t / 2 ^ k)) (end-sum c e pr)

    -- The whole segments, from `n` on.
    pub show_part_2-Covers :
        (man : SegmapManager) (n : ℕ)
        → e.phy_blk / 2 ^ k < (e.phy_blk + e.len) / 2 ^ k
        → ((n ≡ e.phy_blk / 2 ^ k) ⊎ (n ≡ e.phy_blk / 2 ^ k + 1))
        → (e.phy_blk + e.len) / 2 ^ k ≢ n + 1
        → Covers c e pr
            (show_part_2 c man e n)
            (start_of k n)
            (start_of k ((e.phy_blk + e.len) / 2 ^ k))
    unfolding show_part_2
    show_part_2-Covers man n more which several =
        let q = e.phy_blk / 2 ^ k in
        let p = (e.phy_blk + e.len) / 2 ^ k in
        let span =
          sub64 (bit_and (extent_end e) c.f2fs_segment_mask)
            (bit_and e.phy_blk c.f2fs_segment_mask) in
        let low = start_of-le k e.phy_blk in
        let high = start_of-le k (e.phy_blk + e.len) in
        let step = start_of-next k q p more in
        let gap : span ≡ start_of k p - start_of k q = omega (
          arith,
          pr.fits,
          low,
          high,
          step,
          mask-start_of c k g e.phy_blk (omega (arith, pr.fits)),
          end-mask,
        ) in
        let between : shr span c.segment_shift ≡ p - q =
          ap (λ (t : ℕ). shr t c.segment_shift) gap
          ∙ ap (shr (start_of k p - start_of k q)) g.shift
          ∙ start_of-diff k q p (omega arith) in
        elim (Bool-cases (ltb 1 (shr span c.segment_shift))) [
          | inl many ↦
              let part =
                show_consecutive_segments-Covers c e pr k g man n (omega (arith, which)) several in
              record {
                lines = part.lines;
                cur = part.cur;
                man' = part.man';
                result = rw many part.result;
                tiles = part.tiles;
              }
          | inr one ↦
              let here : n ≡ p = ground (arith, between, one, which, several, more) in
              record {
                lines = [];
                cur = c.cur_segment;
                man' = man;
                result = rw one refl;
                tiles = walk-nil _ ∙ ap (λ t. some (start_of k t)) here;
              }
        ]

    pub show_part_3-Covers :
        (man : SegmapManager)
        → Covers c e pr
            (show_part_3 c man e)
            (start_of k ((e.phy_blk + e.len) / 2 ^ k))
            (e.phy_blk + e.len)
    unfolding show_part_3
    show_part_3-Covers man =
        let sum = end-sum c e pr in
        elim (Bool-cases (bit_and (extent_end e) c.f2fs_segment_mask == extent_end e)) [
          | inl none_left ↦ record {
            lines = [];
            cur = c.cur_segment;
            man' = man;
            result = rw none_left refl;
            tiles = walk-nil _ ∙ ap some (sym end-mask ∙ (==_iff _ _).0 none_left ∙ sum);
          }
          | inr rest ↦
              let (ls, cur, shown, tiles) = show_remainder_segment_tiles c e pr k g in
              let cnt = set_segment_counters-Counted c e pr cur 1 man in
              record {
                lines = ls;
                cur = cur;
                man' = cnt.man';
                result = rw (rest, shown, cnt.result) refl;
                tiles = tiles;
              }
        ]
