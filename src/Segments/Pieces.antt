-- ===== src/Segments/Pieces.antt =====
-- The pieces of an extent follow one another from its start to its end.
use native.Mathlib.Nat.{mod-eq_of_lt, div-le_self, mul-le-mul_right}
use zns_tools.Base.{
  ℕ, ◌+◌, ◌-◌, ◌*◌, ◌/◌, ◌%◌, ◌^◌, ◌≤◌, ◌<◌, ◌≡◌, ◌≢◌, refl, sym, ap, ◌∙◌, bit_and, false, ◌&&◌,
  Option, none, some, List, [], ◌∷◌, ◌++◌, ◌==◌, if◌then◌else◌, arith, not, trunc32, add32, add64,
  sub64, mul64, shl64, shr, inl, inr, Bool-cases,
}
use zns_tools.Types.{SegmentInfo, Extent, FileCounterMap, Control, Run, returned}
use zns_tools.Counters.{get_file_extent_count}
use zns_tools.Segments.{
  SegmapManager, SegLine, zone, segment, range, info, piece, rep, f2fs_show_segment,
  show_segment_info, show_piece, show_beginning_segment, set_segment_counters, segment_of,
  extent_end, show_range, show_consecutive_segments, show_remainder_segment, class_all,
}
use zns_tools.Fiemap.{has_flag, fiemap_extent_data_inline}
use zns_tools.Segments.Geometry.{
  IsGeometry, start_of, mask-start_of, segment_of_lem, shl-start_of, start_of-le, below-start_of,
  start_of-next, start_of-suc, start_of-sub,
}

-- A walk over the lines from an address: each piece has to begin where the one before it ended, and
-- to be as long as it says. The other lines are passed over.
pub walk : ℕ → List SegLine → Option ℕ
walk p [] = some p
walk p (zone z ∷ ls) = walk p ls
walk p (segment a b d e ∷ ls) = walk p ls
walk p (range a b d e f ∷ ls) = walk p ls
walk p (info a b ∷ ls) = walk p ls
walk p (piece from to size file id n ∷ ls) =
    if from == p && to == p + size then walk to ls else none

pub walk-nil : (p : ℕ) → walk p [] ≡ some p
unfolding walk
walk-nil p = refl

pub walk-append :
    (p q : ℕ) (ls ms : List SegLine) → walk p ls ≡ some q → walk p (ls ++ ms) ≡ walk q ms
unfolding walk
walk-append p q [] ms h = ground arith
walk-append p q (zone z ∷ ls) ms h = walk-append p q ls ms h
walk-append p q (segment a b d e ∷ ls) ms h = walk-append p q ls ms h
walk-append p q (range a b d e f ∷ ls) ms h = walk-append p q ls ms h
walk-append p q (info a b ∷ ls) ms h = walk-append p q ls ms h
walk-append p q (piece from to size file id n ∷ ls) ms h = ground (arith, walk-append to q ls ms)

-- The report is printed, the extent has its segment's data, and the files are counted; the classes
-- of segments are not.
pub record IsPrinted (c : Control) (e : Extent) : Type 0 where
  pub shown : c.show_only_stats ≡ false
  pub no_classes : c.show_class_stats ≡ false
  pub seg : SegmentInfo
  pub has_info : e.fs_info ≡ some seg
  pub files : FileCounterMap
  pub has_files : c.file_counter_map ≡ some files
  pub fits : e.phy_blk + e.len < 2 ^ 64

abbrev pub at_segment : Control → ℕ → Control
at_segment c s = record c { cur_segment = s }

module _ (c : Control) (e : Extent) (pr : IsPrinted c e) where
  -- Lines with no piece among them, and the segment that is shown then.
  pub record Headed (s : ℕ) : Type 0 where
    pub lines : List SegLine
    pub cur : ℕ
    pub result : show_segment_info c e s ≡ returned (lines, at_segment c cur)
    pub neutral : (p : ℕ) → walk p lines ≡ some p

  pub show_segment_info-Headed : (s : ℕ) → Headed s
  unfolding show_segment_info f2fs_show_segment walk
  show_segment_info-Headed s = elim (Bool-cases (c.cur_segment == s)) [
    | inl same ↦ record {
      lines = [];
      cur = c.cur_segment;
      result = rw same refl;
      neutral = λ p. refl;
    }
    | inr other ↦ record {
      lines =
          segment s (shl64 s c.segment_shift)
            (add64 (shl64 s c.segment_shift) c.f2fs_segment_sectors) c.f2fs_segment_sectors
          ∷ info pr.seg.type (shr (pr.seg.valid_blocks * 2 ^ 12 % 2 ^ 32) c.sector_shift)
          ∷ [];
      cur = s;
      result = rw (other, pr.has_info, pr.shown) refl;
      neutral = λ p. refl;
    }
  ]

  -- A piece, printed.
  pub record Shows (cur from to size : ℕ) : Type 0 where
    pub lines : List SegLine
    pub result : show_piece (at_segment c cur) e from to size ≡ returned lines
    pub tiles : to ≡ from + size → walk from lines ≡ some to

  pub show_piece-Shows : (cur from to size : ℕ) → Shows cur from to size
  unfolding show_piece walk
  show_piece-Shows cur from to size = record {
    lines =
        piece from to size e.file (add32 e.ext_nr 1) (get_file_extent_count pr.files e.file) ∷ [];
    result = rw (pr.shown, pr.has_files) refl;
    tiles = λ h. ground arith;
  }

  pub record Counted (cur n : ℕ) (man : SegmapManager) : Type 0 where
    pub man' : SegmapManager
    pub result : set_segment_counters (at_segment c cur) n e man ≡ returned man'

  pub set_segment_counters-Counted : (cur n : ℕ) (man : SegmapManager) → Counted cur n man
  unfolding set_segment_counters
  set_segment_counters-Counted cur n man =
      elim (Bool-cases (
        has_flag e.flags fiemap_extent_data_inline
        && not (has_flag c.exclude_flags fiemap_extent_data_inline))) [
          | inl inlined ↦ record {
            man' = man;
            result = rw (pr.has_info, set_segment_counters, inlined) refl;
          }
          | inr counted ↦ record {
            man' =
                class_all pr.seg.type (trunc32 n)
                  (record man { segment_ctr = add32 man.segment_ctr (trunc32 n) });
            result = rw (pr.has_info, set_segment_counters, counted, pr.no_classes) refl;
          }
        ]

  pub end-sum : extent_end e ≡ e.phy_blk + e.len
  end-sum = mod-eq_of_lt pr.fits

  -- What a part of the extent prints goes from one address to the other.
  pub record Covers (r : Run (List SegLine × Control × SegmapManager)) (from to : ℕ) : Type 0 where
    pub lines : List SegLine
    pub cur : ℕ
    pub man' : SegmapManager
    pub result : r ≡ returned (lines, at_segment c cur, man')
    pub tiles : walk from lines ≡ some to

  module _ (k : ℕ) (g : IsGeometry c k) where
    abbrev pub first : ℕ
    first = e.phy_blk / 2 ^ k

    abbrev pub last : ℕ
    last = (e.phy_blk + e.len) / 2 ^ k

    pub show_beginning_segment_tiles :
        (cur : ℕ)
        → first < last
        → (ls : List SegLine) × (show_beginning_segment (at_segment c cur) e ≡ returned ls)
          × (walk e.phy_blk ls ≡ some (start_of k (first + 1)))
    unfolding show_beginning_segment
    show_beginning_segment_tiles cur more =
        let mask = mask-start_of c k g e.phy_blk (omega (arith, pr.fits)) in
        let stop = add64 (bit_and e.phy_blk c.f2fs_segment_mask) c.f2fs_segment_sectors in
        let bound = start_of-next k first last more in
        let top = start_of-le k (e.phy_blk + e.len) in
        let is : stop ≡ start_of k (first + 1) =
          omega (arith, mask, g.sectors, start_of-suc k first, bound, top, pr.fits) in
        let low = below-start_of k e.phy_blk in
        let p = show_piece-Shows cur e.phy_blk stop (sub64 stop e.phy_blk) in
        (
          p.lines,
          p.result,
          p.tiles (omega (arith, is, low, start_of-suc k first, bound, top, pr.fits)) ∙ ap some is,
        )

    -- What is left in the last segment.
    pub show_remainder_segment_tiles :
        (ls : List SegLine) × (cur : ℕ) × (show_remainder_segment c e
          ≡ returned (ls, at_segment c cur))
        × (walk (start_of k last) ls ≡ some (e.phy_blk + e.len))
    unfolding show_remainder_segment
    show_remainder_segment_tiles =
        let s = segment_of c (extent_end e) in
        let from = shl64 s c.segment_shift in
        let to = add64 from (sub64 (extent_end e) from) in
        let below = start_of-le k (e.phy_blk + e.len) in
        let number : s ≡ last =
          segment_of_lem c k g (extent_end e) (omega (arith, pr.fits))
          ∙ ap (λ (t : ℕ). t / 2 ^ k) end-sum in
        let start : from ≡ start_of k last =
          ap (λ t. shl64 t c.segment_shift) number
          ∙ shl-start_of c k g last (omega (arith, below, pr.fits)) in
        let stop : to ≡ e.phy_blk + e.len = omega (arith, start, below, end-sum, pr.fits) in
        let head = show_segment_info-Headed s in
        let body = show_piece-Shows head.cur from to (sub64 (extent_end e) from) in
        (
          head.lines ++ body.lines,
          head.cur,
          rw (head.result, body.result) refl,
          walk-append (start_of k last) (start_of k last) head.lines body.lines
                (head.neutral (start_of k last))
              ∙ ap (λ t. walk t body.lines) (sym start)
              ∙ body.tiles (omega (arith, start, below, end-sum, pr.fits))
              ∙ ap some stop,
        )

    -- The whole segments from `n` to the last, if they are not exactly one.
    pub show_consecutive_segments-Covers :
        (man : SegmapManager) (n : ℕ)
        → n ≤ last
        → last ≢ n + 1
        → Covers (show_consecutive_segments c man e n) (start_of k n) (start_of k last)
    unfolding show_consecutive_segments show_range walk
    show_consecutive_segments-Covers man n le several =
        let top = segment_of c (extent_end e) in
        let count = sub64 top n in
        let from = shl64 n c.segment_shift in
        let to = shl64 top c.segment_shift in
        let below = start_of-le k (e.phy_blk + e.len) in
        let bound : last ≤ e.phy_blk + e.len = div-le_self _ _ in
        let lower : start_of k n ≤ start_of k last = mul-le-mul_right (2 ^ k) le in
        let number : top ≡ last =
          segment_of_lem c k g (extent_end e) (omega (arith, pr.fits))
          ∙ ap (λ (t : ℕ). t / 2 ^ k) end-sum in
        let start : from ≡ start_of k n =
          shl-start_of c k g n (omega (arith, below, lower, pr.fits)) in
        let stop : to ≡ start_of k last =
          ap (λ t. shl64 t c.segment_shift) number
          ∙ shl-start_of c k g last (omega (arith, below, pr.fits)) in
        let counted : count ≡ last - n = omega (arith, number, bound, pr.fits) in
        let other : (count == 1) ≡ false = ground (arith, counted, several) in
        let size : mul64 count c.f2fs_segment_sectors ≡ start_of k last - start_of k n =
          ap (λ t. mul64 t c.f2fs_segment_sectors) counted
          ∙ ap (mul64 (last - n)) g.sectors
          ∙ ap (λ (t : ℕ). t % 2 ^ 64) (start_of-sub k n last le)
          ∙ mod-eq_of_lt (omega (arith, below, pr.fits)) in
        let plain : (if c.show_class_stats && c.procfs
              then set_segment_counters c (add64 count 1) e man
              else returned man)
            ≡ returned man =
          ap
            (λ b.
              if b && c.procfs then set_segment_counters c (add64 count 1) e man else returned man)
            pr.no_classes in
        let printed : rep c (range n (sub64 top 1) from to (mul64 count c.f2fs_segment_sectors))
            ≡ range n (sub64 top 1) from to (mul64 count c.f2fs_segment_sectors) ∷ [] =
          ap
            (λ b.
              if b
              then []
              else range n (sub64 top 1) from to (mul64 count c.f2fs_segment_sectors) ∷ [])
            pr.shown in
        let head = show_segment_info-Headed n in
        let body = show_piece-Shows head.cur from to (mul64 count c.f2fs_segment_sectors) in
        record {
          lines =
              range n (sub64 top 1) from to (mul64 count c.f2fs_segment_sectors)
              ∷ (head.lines ++ body.lines);
          cur = head.cur;
          man' = man;
          result = rw (plain, other, head.result, body.result, printed) refl;
          tiles =
              walk-append (start_of k n) (start_of k n) head.lines body.lines
                (head.neutral (start_of k n))
              ∙ ap (λ t. walk t body.lines) (sym start)
              ∙ body.tiles (omega (arith, start, stop, size, lower))
              ∙ ap some stop;
        }
