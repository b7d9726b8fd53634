-- ===== src/Segments.antt =====
-- The segment report of one extent: `show_segment_info` to `show_remainder_segment` of src/segmap.c,
-- the part of its loop that splits an extent, and `f2fs_show_segment` of lib/libf2fs.c (under
-- zns-tools.fs/). What is printed is a list of lines.
pub mod Split
mod Tests
pub mod Geometry
pub mod Pieces
pub mod Report
use zns_tools.Base.{
  ℕ, ◌+◌, ◌/◌, ◌%◌, ◌^◌, bit_and, Bool, true, false, ◌&&◌, not, Option, none, some, List, [], ◌∷◌,
  ◌++◌, Text, text_eq_n, length, take, get_elem?, set, ltb, ◌==◌, if◌then◌else◌, trunc32, add32,
  add64, mul64, sub64, shl32, shl64, shr,
}
use zns_tools.Types.{
  SegmentInfo, Extent, Control, Run, returned, faulted, ◌>>=◌, curseg_hot_data, curseg_warm_data,
  curseg_cold_data,
}
use zns_tools.Device.{segment_bytes}
use zns_tools.Zones.{ZoneInfo}
use zns_tools.Counters.{get_file_extent_count, max_file_length}
use zns_tools.Fiemap.{has_flag, fiemap_extent_data_inline}

-- `struct file_stats`
pub record FileStats : Type 0 where
  pub cold_ctr : ℕ
  pub warm_ctr : ℕ
  pub hot_ctr : ℕ
  pub zone_ctr : ℕ
  pub last_zone : ℕ
  pub segment_ctr : ℕ
  pub filename : Text

-- `struct segmap_manager`: of `fs` the entries in use, and the number allocated.
pub record SegmapManager : Type 0 where
  pub dir : Text
  pub isdir : Bool
  pub segment_ctr : ℕ
  pub cold_ctr : ℕ
  pub warm_ctr : ℕ
  pub hot_ctr : ℕ
  pub fs : List FileStats
  pub allocated : ℕ

-- A printed line, without separators: a zone; a segment's number, start, end and size; a range of
-- segments with first and last number; a segment's type and valid blocks; a piece of an extent.
pub data SegLine : Type 0 where
  zone : Option ZoneInfo → SegLine
  segment : ℕ → ℕ → ℕ → ℕ → SegLine
  range : ℕ → ℕ → ℕ → ℕ → ℕ → SegLine
  info : ℕ → ℕ → SegLine
  piece : ℕ → ℕ → ℕ → Text → ℕ → ℕ → SegLine

-- REP
abbrev pub rep : Control → SegLine → List SegLine
rep c l = if c.show_only_stats then [] else l ∷ []

pub f2fs_show_segment : Control → Option SegmentInfo → Run (List SegLine)
f2fs_show_segment c none = faulted
f2fs_show_segment c (some seg) =
    returned (rep c (info seg.type (shr (shl32 seg.valid_blocks 12) c.sector_shift)))

pub show_segment_info : Control → Extent → ℕ → Run (List SegLine × Control)
show_segment_info c e segment_start =
    if c.cur_segment == segment_start then returned ([], c) else (do
      lines ← f2fs_show_segment c e.fs_info
      returned (
        rep c (
              segment segment_start (shl64 segment_start c.segment_shift)
                (add64 (shl64 segment_start c.segment_shift) c.f2fs_segment_sectors)
                c.f2fs_segment_sectors)
            ++ lines,
        record c { cur_segment = segment_start },
      ))

-- The line of a piece; the counter map is read only if it is printed.
pub show_piece : Control → Extent → ℕ → ℕ → ℕ → Run (List SegLine)
show_piece c e pbas pbae size =
    if c.show_only_stats then returned [] else (elim c.file_counter_map [
      | none ↦ faulted
      | some m ↦
          returned
            (piece pbas pbae size e.file (add32 e.ext_nr 1) (get_file_extent_count m e.file) ∷ [])
    ])

pub show_beginning_segment : Control → Extent → Run (List SegLine)
show_beginning_segment c e =
    let segment_end = add64 (bit_and e.phy_blk c.f2fs_segment_mask) c.f2fs_segment_sectors in
    show_piece c e e.phy_blk segment_end (sub64 segment_end e.phy_blk)

-- The loop of `get_file_stats_index`, from index `i` on.
pub find_stats : ℕ → List FileStats → Text → Option ℕ
find_stats i [] filename = none
find_stats i (x ∷ xs) filename =
    if length x.filename == length filename && text_eq_n max_file_length x.filename filename
    then some i
    else find_stats (i + 1) xs filename

abbrev pub new_stats : Text → FileStats
new_stats filename = record {
  cold_ctr = 0;
  warm_ctr = 0;
  hot_ctr = 0;
  zone_ctr = 0;
  last_zone = 0;
  segment_ctr = 0;
  filename = take max_file_length filename;
}

-- A new entry behind the allocated ones is a write past the array.
pub get_file_stats_index : SegmapManager → Text → Run (SegmapManager × ℕ)
get_file_stats_index man filename = elim (find_stats 0 man.fs filename) [
  | some i ↦ returned (man, i)
  | none ↦
      if ltb (length man.fs) man.allocated
      then returned (record man { fs = man.fs ++ (new_stats filename ∷ []) }, length man.fs)
      else faulted
]

-- What `set_segment_counters` does to the file's entry, before the switch and in it.
abbrev pub count_file : ℕ → ℕ → FileStats → FileStats
count_file n e_zone x =
    let y : FileStats = record x { segment_ctr = add32 x.segment_ctr n } in
    if x.last_zone == e_zone
    then y
    else record y { last_zone = e_zone; zone_ctr = add32 x.zone_ctr 1 }

abbrev pub class_file : ℕ → ℕ → FileStats → FileStats
class_file type n x =
    if type == curseg_cold_data
    then record x { cold_ctr = add32 x.cold_ctr n }
    else if type == curseg_warm_data
    then record x { warm_ctr = add32 x.warm_ctr n }
    else if type == curseg_hot_data
    then record x { hot_ctr = add32 x.hot_ctr n }
    else x

abbrev pub class_all : ℕ → ℕ → SegmapManager → SegmapManager
class_all type n x =
    if type == curseg_cold_data
    then record x { cold_ctr = add32 x.cold_ctr n }
    else if type == curseg_warm_data
    then record x { warm_ctr = add32 x.warm_ctr n }
    else if type == curseg_hot_data
    then record x { hot_ctr = add32 x.hot_ctr n }
    else x

-- The counters of the file's own entry.
pub track_file : ℕ → ℕ → Extent → SegmapManager → Run SegmapManager
track_file type n e man = do
  (man', i) ← get_file_stats_index man e.file
  elim (get_elem? man'.fs i) [
    | none ↦ faulted
    | some x ↦
        returned (record man' { fs = set man'.fs i (class_file type n (count_file n e.zone x)) })
  ]

-- `set_segment_counters`; its first argument is cut to 32 bits by the call.
pub set_segment_counters : Control → ℕ → Extent → SegmapManager → Run SegmapManager
set_segment_counters c n e man = elim e.fs_info [
  | none ↦ faulted
  | some seg ↦
      if has_flag e.flags fiemap_extent_data_inline
        && not (has_flag c.exclude_flags fiemap_extent_data_inline)
      then returned man
      else (do
        man' ←
            (if c.show_class_stats && ltb 1 c.nr_files
              then track_file seg.type (trunc32 n) e
                  (record man { segment_ctr = add32 man.segment_ctr (trunc32 n) })
              else returned (record man { segment_ctr = add32 man.segment_ctr (trunc32 n) }))
        returned (class_all seg.type (trunc32 n) man'))
]

-- What an extent prints, and the state that it leaves.
abbrev pub Shown : Type 0
Shown = Run (List SegLine × Control × SegmapManager)

-- The number of the segment that an address is in.
abbrev pub segment_of : Control → ℕ → ℕ
segment_of c lba = shr (bit_and lba c.f2fs_segment_mask) c.segment_shift

abbrev pub extent_end : Extent → ℕ
extent_end e = add64 e.phy_blk e.len

-- The two branches of `show_consecutive_segments`. The start printed for a single segment is its
-- number.
pub show_range : Control → Extent → ℕ → ℕ → Run (List SegLine × Control)
show_range c e segment_start segment_end =
    let num_segments = sub64 segment_end segment_start in
    let from = shl64 segment_start c.segment_shift in
    let to = shl64 segment_end c.segment_shift in
    if num_segments == 1
    then (do
      (lines, c') ← show_segment_info c e segment_start
      last ← show_piece c' e segment_start to c.f2fs_segment_sectors
      returned (lines ++ last, c'))
    else (do
      (lines, c') ← show_segment_info c e segment_start
      last ← show_piece c' e from to (mul64 num_segments c.f2fs_segment_sectors)
      returned (
        rep c (
              range segment_start (sub64 segment_end 1) from to
                (mul64 num_segments c.f2fs_segment_sectors))
            ++ (lines ++ last),
        c',
      ))

pub show_consecutive_segments : Control → SegmapManager → Extent → ℕ → Shown
show_consecutive_segments c man e segment_start = do
  let segment_end = segment_of c (extent_end e)
  man' ←
      (if c.show_class_stats && c.procfs
        then set_segment_counters c (add64 (sub64 segment_end segment_start) 1) e man
        else returned man)
  (lines, c') ← show_range c e segment_start segment_end
  returned (lines, c', man')

pub show_remainder_segment : Control → Extent → Run (List SegLine × Control)
show_remainder_segment c e = do
  let segment_start = segment_of c (extent_end e)
  let from = shl64 segment_start c.segment_shift
  (lines, c') ← show_segment_info c e segment_start
  last ← show_piece c' e from (add64 from (sub64 (extent_end e) from)) (sub64 (extent_end e) from)
  returned (lines ++ last, c')
