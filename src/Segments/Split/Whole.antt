-- ===== src/Segments/Split/Whole.antt =====
-- What the report prints of one extent, whether it lies in one segment or is split.
use zns_tools.Base.{
  ℕ, ◌+◌, ◌/◌, ◌^◌, ◌<◌, ◌≡◌, ◌≢◌, refl, sym, ap, ◌∙◌, bit_and, Bool, true, false, ◌||◌, ◌++◌, ◌==◌,
  if◌then◌else◌, arith, add64, shr, inl, inr, ◌⊎◌, Bool-cases,
}
use zns_tools.Types.{Extent, Control}
use zns_tools.Device.{segment_bytes}
use zns_tools.Segments.{SegmapManager, segment_of, extent_end}
use zns_tools.Segments.Split.{is_in_one_segment, show_part_2, show_part_3, show_parts, show_extent}
use zns_tools.Segments.Geometry.{
  IsGeometry, start_of, mask-start_of, segment_of_lem, start_of-le, below-start_of, start_of-next,
  start_of-suc,
}
use zns_tools.Segments.Pieces.{walk-append, IsPrinted, at_segment, end-sum, Covers}
use zns_tools.Segments.Split.Tiling.{
  show_in_segment-Covers, First, show_part_1-First, show_part_2-Covers, show_part_3-Covers,
  end-mask, differ,
}

-- The first segment of which the extent has the start.
abbrev pub whole_from : ℕ → Extent → ℕ
whole_from k e =
    if e.phy_blk == start_of k (e.phy_blk / 2 ^ k) then e.phy_blk / 2 ^ k else e.phy_blk / 2 ^ k + 1

-- The extent does not have exactly one whole segment, or it ends with its first.
abbrev pub IsSplitRight : ℕ → Extent → Type 0
IsSplitRight k e =
    ((e.phy_blk + e.len) / 2 ^ k ≢ whole_from k e + 1)
    ⊎ (e.phy_blk + e.len ≡ start_of k (e.phy_blk / 2 ^ k + 1))

neither : (a b : Bool) → (a || b) ≡ false → (a ≡ false) × (b ≡ false)
neither true b h = cc
neither false b h = (refl, h)

-- The control of a later part is like the first.
at_segment-IsPrinted :
    (c : Control) (e : Extent) (cur : ℕ) → IsPrinted c e → IsPrinted (at_segment c cur) e
at_segment-IsPrinted c e cur pr = record {
  shown = pr.shown;
  no_classes = pr.no_classes;
  seg = pr.seg;
  has_info = pr.has_info;
  files = pr.files;
  has_files = pr.has_files;
  fits = pr.fits;
}

at_segment-IsGeometry : (c : Control) (k cur : ℕ) → IsGeometry c k → IsGeometry (at_segment c cur) k
at_segment-IsGeometry c k cur g = record {
  small = g.small;
  mask = g.mask;
  shift = g.shift;
  sectors = g.sectors;
  bytes = g.bytes;
}

module _ (c : Control) (e : Extent) (pr : IsPrinted c e) (k : ℕ) (g : IsGeometry c k) where
  split_reaches :
      is_in_one_segment c e ≡ false
      → (e.phy_blk / 2 ^ k < (e.phy_blk + e.len) / 2 ^ k)
        × (e.phy_blk + e.len ≢ start_of k (e.phy_blk / 2 ^ k + 1))
  unfolding is_in_one_segment
  split_reaches h =
      let q = e.phy_blk / 2 ^ k in
      let p = (e.phy_blk + e.len) / 2 ^ k in
      let (differs, beyond) =
        neither
          (bit_and e.phy_blk c.f2fs_segment_mask == bit_and (extent_end e) c.f2fs_segment_mask)
          (extent_end e
            == add64 (bit_and e.phy_blk c.f2fs_segment_mask) (shr segment_bytes c.sector_shift))
          h in
      let low = start_of-le k e.phy_blk in
      let high = start_of-le k (e.phy_blk + e.len) in
      let under = below-start_of k (e.phy_blk + e.len) in
      let first_mask = mask-start_of c k g e.phy_blk (omega (arith, pr.fits)) in
      let last_mask = end-mask c e pr k g in
      let other : q ≢ p =
        λ same. differ _ _ differs (first_mask ∙ ap (start_of k) same ∙ sym last_mask) in
      let order : ¬ (p < q) =
        λ less. absurd (omega (arith, start_of-next k p q less, low, under)) in
      (
        omega (arith, other, order),
        λ same.
            differ _ _ beyond
              (omega (arith, first_mask, g.bytes, end-sum c e pr, same, start_of-suc k q, pr.fits)),
      )

  show_parts-Covers :
      (man : SegmapManager) (s : ℕ) (one : First c e pr k g man s)
      (two : Covers
        (at_segment c one.cur)
        e
        (at_segment-IsPrinted c e one.cur pr)
        (show_part_2 (at_segment c one.cur) one.man' e one.next)
        (start_of k one.next)
        (start_of k ((e.phy_blk + e.len) / 2 ^ k)))
      (three : Covers
        (at_segment c two.cur)
        e
        (at_segment-IsPrinted c e two.cur pr)
        (show_part_3 (at_segment c two.cur) two.man' e)
        (start_of k ((e.phy_blk + e.len) / 2 ^ k))
        (e.phy_blk + e.len))
      → Covers c e pr (show_parts c man e s) e.phy_blk (e.phy_blk + e.len)
  unfolding show_parts
  show_parts-Covers man s one two three = record {
    lines = one.lines ++ (two.lines ++ three.lines);
    cur = three.cur;
    man' = three.man';
    result = rw (one.result, two.result, three.result) refl;
    tiles =
        walk-append e.phy_blk (start_of k one.next) one.lines (two.lines ++ three.lines) one.tiles
        ∙ walk-append (start_of k one.next) (start_of k ((e.phy_blk + e.len) / 2 ^ k)) two.lines
            three.lines two.tiles
        ∙ three.tiles;
  }

  split-Covers :
      (man : SegmapManager) (s : ℕ)
      → s ≡ e.phy_blk / 2 ^ k
      → is_in_one_segment c e ≡ false
      → IsSplitRight k e
      → Covers c e pr (show_parts c man e s) e.phy_blk (e.phy_blk + e.len)
  split-Covers man s number apart right =
      let (more, ends) = split_reaches apart in
      let one = show_part_1-First c e pr k g man s number more in
      let whole : one.next ≡ whole_from k e = ground (arith, one.which) in
      let two =
        show_part_2-Covers (at_segment c one.cur) e (at_segment-IsPrinted c e one.cur pr) k
          (at_segment-IsGeometry c k one.cur g) one.man' one.next more (omega (arith, one.which))
          (omega (arith, whole, right, ends)) in
      show_parts-Covers man s one two (
        show_part_3-Covers (at_segment c two.cur) e (at_segment-IsPrinted c e two.cur pr) k
          (at_segment-IsGeometry c k two.cur g) two.man')

  -- Where the report is printed and classes of segments are not counted, an extent that has its
  -- segment's data, and that does not have exactly one whole segment or ends with its first, is shown
  -- without fault; the pieces printed follow one another from its start to its end, each as long as
  -- it says.
  pub show_extent-Covers :
      (man : SegmapManager)
      → IsSplitRight k e
      → Covers c e pr (show_extent c man e) e.phy_blk (e.phy_blk + e.len)
  unfolding show_extent
  show_extent-Covers man right = elim (Bool-cases (is_in_one_segment c e)) [
    | inl one ↦
        let part = show_in_segment-Covers c e pr man (segment_of c e.phy_blk) in
        record {
          lines = part.lines;
          cur = part.cur;
          man' = part.man';
          result = rw one part.result;
          tiles = part.tiles;
        }
    | inr several ↦
        let number = segment_of_lem c k g e.phy_blk (omega (arith, pr.fits)) in
        let part = split-Covers man (segment_of c e.phy_blk) number several right in
        record {
          lines = part.lines;
          cur = part.cur;
          man' = part.man';
          result = rw several part.result;
          tiles = part.tiles;
        }
  ]
