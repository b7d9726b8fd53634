-- ===== src/Segments/Split.antt =====
-- How the loop of `show_segment_report` in src/segmap.c (under zns-tools.fs/) shows one extent: in
-- its segment, or split into the parts that its segments hold.
pub mod Tiling
pub mod Whole
use zns_tools.Base.{
  ℕ, ◌+◌, ◌/◌, ◌%◌, ◌^◌, bit_and, Bool, true, false, ◌||◌, not, Option, none, some, List, [], ◌∷◌,
  ◌++◌, ltb, ◌==◌, if◌then◌else◌, add64, sub64, shr,
}
use zns_tools.Types.{Extent, Control, Run, returned, ◌>>=◌}
use zns_tools.Device.{segment_bytes}
use zns_tools.Segments.{
  SegmapManager, SegLine, Shown, segment_of, extent_end, show_segment_info, show_piece,
  show_beginning_segment, set_segment_counters, show_consecutive_segments, show_remainder_segment,
}

-- The extent begins and ends in one segment, or ends with it.
unfoldable pub is_in_one_segment : Control → Extent → Bool
is_in_one_segment c e =
    bit_and e.phy_blk c.f2fs_segment_mask == bit_and (extent_end e) c.f2fs_segment_mask
    || extent_end e
      == add64 (bit_and e.phy_blk c.f2fs_segment_mask) (shr segment_bytes c.sector_shift)

-- A segment that the report is in already is neither shown nor counted again.
pub show_in_segment : Control → SegmapManager → Extent → ℕ → Shown
show_in_segment c man e segment_id = do
  (lines, c', man') ←
      (if segment_id == c.cur_segment then returned ([], c, man) else (do
        (lines, c') ← show_segment_info c e segment_id
        man' ← set_segment_counters c' 1 e man
        returned (lines, record c' { cur_segment = segment_id }, man')))
  last ← show_piece c' e e.phy_blk (extent_end e) e.len
  returned (lines ++ last, c', man')

-- Part 1: up to the end of the first segment, unless the extent starts with it; also the number
-- of the segment to go on with.
pub show_part_1 :
    Control → SegmapManager → Extent → ℕ → Run (List SegLine × Control × SegmapManager × ℕ)
show_part_1 c man e segment_id =
    if e.phy_blk == bit_and e.phy_blk c.f2fs_segment_mask
    then returned ([], c, man, segment_id)
    else (do
      (lines, c') ←
          (if segment_id == c.cur_segment
            then returned ([], c)
            else show_segment_info c e (segment_of c e.phy_blk))
      last ← show_beginning_segment c' e
      man' ← set_segment_counters c' 1 e man
      returned (lines ++ last, c', man', add64 segment_id 1))

-- Part 2: the whole segments, where more than one segment lies behind the start of the first.
pub show_part_2 : Control → SegmapManager → Extent → ℕ → Shown
show_part_2 c man e segment_id =
    if ltb 1 (
      shr
        (sub64 (bit_and (extent_end e) c.f2fs_segment_mask) (bit_and e.phy_blk c.f2fs_segment_mask))
        c.segment_shift)
    then show_consecutive_segments c man e segment_id
    else returned ([], c, man)

-- Part 3: what is left in the last segment.
pub show_part_3 : Control → SegmapManager → Extent → Shown
show_part_3 c man e =
    if bit_and (extent_end e) c.f2fs_segment_mask == extent_end e
    then returned ([], c, man)
    else (do
      (lines, c') ← show_remainder_segment c e
      man' ← set_segment_counters c' 1 e man
      returned (lines, c', man'))

-- The three parts of an extent that its first segment does not hold.
pub show_parts : Control → SegmapManager → Extent → ℕ → Shown
show_parts c man e segment_id = do
  (lines_1, c_1, man_1, next) ← show_part_1 c man e segment_id
  (lines_2, c_2, man_2) ← show_part_2 c_1 man_1 e next
  (lines_3, c_3, man_3) ← show_part_3 c_2 man_2 e
  returned (lines_1 ++ (lines_2 ++ lines_3), c_3, man_3)

pub show_extent : Control → SegmapManager → Extent → Shown
show_extent c man e =
    if is_in_one_segment c e
    then show_in_segment c man e (segment_of c e.phy_blk)
    else show_parts c man e (segment_of c e.phy_blk)
