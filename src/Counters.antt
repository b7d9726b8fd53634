-- ===== src/Counters.antt =====
-- The per-file counters: `increase_file_extent_counter`, `get_file_extent_count` and
-- `increase_file_segment_counter` of lib/libzns-tools.c, and the growth of the counter map at the
-- head of `get_extents` there (under zns-tools.fs/).
pub mod Extents
mod Tests
use zns_tools.Base.{
  ℕ, ◌+◌, ◌*◌, ◌/◌, ◌%◌, ◌^◌, Bool, true, false, ◌&&◌, not, Option, none, some, List, [], ◌∷◌, ◌++◌,
  Text, text_eq, text_eq_n, length, take, ltb, ◌==◌, if◌then◌else◌, trunc32, add32, shl32, shr,
}
use zns_tools.Types.{
  SegmentInfo, FileCounter, FileCounterMap, Control, Run, returned, faulted, ◌>>=◌, curseg_hot_data,
  curseg_warm_data, curseg_cold_data,
}
use zns_tools.Device.{segment_bytes}
use zns_tools.Zones.{get_zone_number}

-- MAX_FILE_LENGTH
abbrev pub max_file_length : ℕ
max_file_length = 50

-- An entry as calloc or memset leaves it, once its name, of fewer than MAX_FILE_LENGTH bytes, and its
-- first extent are written.
abbrev pub new_counter : Text → FileCounter
new_counter file = record {
  file = take max_file_length file;
  ext_ctr = 1;
  segment_ctr = 0;
  zone_ctr = 0;
  cold_ctr = 0;
  warm_ctr = 0;
  hot_ctr = 0;
  last_segment_id = 0;
  last_zone = 0;
}

-- The loop of `increase_file_extent_counter`: the first entry of that name, `none` if there is none.
pub bump_extent : List FileCounter → Text → Option (List FileCounter)
bump_extent [] file = none
bump_extent (x ∷ xs) file =
    if text_eq x.file file
    then some (record x { ext_ctr = add32 x.ext_ctr 1 } ∷ xs)
    else (elim (bump_extent xs file) [ none ↦ none | some ys ↦ some (x ∷ ys) ])

-- A new entry goes behind the last; behind the allocated ones it is a write past the array. A name
-- of MAX_FILE_LENGTH bytes or more is stored without its end, so that each later comparison runs past
-- the array; it is a fault here. get_extents cuts the names that it passes to 49 bytes.
pub increase_file_extent_counter : FileCounterMap → Text → Run FileCounterMap
unfolding bump_extent
increase_file_extent_counter m file = elim (bump_extent m.files file) [
  | some ys ↦ returned (record m { files = ys })
  | none ↦
      if ltb (length m.files) m.allocated && ltb (length file) max_file_length
      then returned (record m { files = m.files ++ (new_counter file ∷ []) })
      else faulted
]

-- The test of `get_file_extent_count` and of `increase_file_segment_counter`: `strlen` and `strncmp`,
-- on names that are stored with their end.
abbrev pub same_file : FileCounter → Text → Bool
same_file x file = length x.file == length file && text_eq_n (length x.file) x.file file

pub count_in : List FileCounter → Text → ℕ
count_in [] file = 0
count_in (x ∷ xs) file = if same_file x file then x.ext_ctr else count_in xs file

pub get_file_extent_count : FileCounterMap → Text → ℕ
unfolding count_in
get_file_extent_count m file = count_in m.files file

-- The switch on the segment's type.
abbrev pub count_type : ℕ → ℕ → FileCounter → FileCounter
count_type type n x =
    if type == curseg_cold_data
    then record x { cold_ctr = add32 x.cold_ctr n }
    else if type == curseg_warm_data
    then record x { warm_ctr = add32 x.warm_ctr n }
    else if type == curseg_hot_data
    then record x { hot_ctr = add32 x.hot_ctr n }
    else x

-- An extent in the segment that the file was last seen in counts no segment.
pub count_segments : ℕ → ℕ → ℕ → FileCounter → FileCounter
count_segments type n segment x =
    if x.last_segment_id == segment
    then x
    else count_type type n
        (record x { segment_ctr = add32 x.segment_ctr n; last_segment_id = segment })

-- How many zones so many segments take; the product is of 32 bits.
abbrev pub zones_of : Control → ℕ → ℕ → ℕ
zones_of c n zone_cap = trunc32 (shr (n * segment_bytes % 2 ^ 32) c.sector_shift / zone_cap + 1)

-- The zone of a segment, by the shifts that the code makes.
abbrev pub zone_of_segment : Control → ℕ → ℕ
zone_of_segment c segment =
    get_zone_number c (shr (shl32 segment c.segment_shift) c.zns_sector_shift)

-- A zone capacity of 0 is a division by zero.
pub count_zones : Control → ℕ → ℕ → ℕ → FileCounter → Run FileCounter
count_zones c n segment zone_cap x =
    if x.last_zone == zone_of_segment c segment
    then returned x
    else if zone_cap == 0
    then faulted
    else returned (record x {
      zone_ctr = add32 x.zone_ctr (zones_of c n zone_cap);
      last_zone = zone_of_segment c segment;
    })

-- The entry of that file, updated by `f`; `none` if there is none.
pub update_file :
    (FileCounter → Run FileCounter) → List FileCounter → Text → Option (Run (List FileCounter))
update_file f [] file = none
update_file f (x ∷ xs) file =
    if same_file x file
    then some (do y ← f x; returned (y ∷ xs))
    else (elim (update_file f xs file) [
      | none ↦ none
      | some r ↦ some (do ys ← r; returned (x ∷ ys))
    ])

-- A file that has no entry is counted in the entry behind the last, which is in no use, if it is
-- allocated. The arguments are cut to 32 bits by the call.
pub increase_file_segment_counter :
    Control → FileCounterMap → Text → ℕ → ℕ → Option SegmentInfo → ℕ → Run FileCounterMap
unfolding update_file count_segments count_zones
increase_file_segment_counter c m file num_segments cur_segment none zone_cap = faulted
increase_file_segment_counter c m file num_segments cur_segment (some seg) zone_cap =
    elim (update_file
      (λ x.
        count_zones c (trunc32 num_segments) (trunc32 cur_segment) zone_cap
          (count_segments seg.type (trunc32 num_segments) (trunc32 cur_segment) x))
      m.files file) [
        | some r ↦ do ys ← r; returned (record m { files = ys })
        | none ↦ if ltb (length m.files) m.allocated then returned m else faulted
      ]

-- The map as `get_extents` finds it for one more file: `calloc` of one entry the first time, else
-- `realloc` to one entry more than the files so far, the entry behind the last cleared.
unfoldable pub grow : Option FileCounterMap → ℕ → FileCounterMap
grow none nr_files = record { files = []; allocated = 1 }
grow (some m) nr_files = record m { allocated = nr_files + 1 }
