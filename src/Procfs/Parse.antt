-- ===== src/Procfs/Parse.antt =====
-- The parser of the segment table: `init_procfs_segment_bits` and `f2fs_fs_manager_init` of
-- lib/libf2fs.c (under zns-tools.fs/). atoi is a parameter, and so are the lines that getline reads.
use zns_tools.Base.{
  ℕ, zero, suc, ◌-◌, Bool, true, false, ◌||◌, Option, none, some, List, [], ◌∷◌, ◌++◌, Text, length,
  drop, ltb, ◌==◌, if◌then◌else◌, trunc32,
}
use zns_tools.Types.{SegmentInfo, Run, returned, faulted, ◌>>=◌}

-- strsep until it returns NULL: the texts between the separators, empty ones too.
abbrev pub extend : ℕ → List Text → List Text
extend ch [] = (ch ∷ []) ∷ []
extend ch (t ∷ ts) = (ch ∷ t) ∷ ts

abbrev pub split_on : (ℕ → Bool) → Text → List Text
split_on f [] = [] ∷ []
split_on f (ch ∷ s) = if f ch then [] ∷ split_on f s else extend ch (split_on f s)

-- The separators: a space or a tab between the entries, a bar inside one.
abbrev pub is_blank : ℕ → Bool
is_blank ch = ch == 32 || ch == 9

abbrev pub is_bar : ℕ → Bool
is_bar ch = ch == 124

-- strchr(contents, '|')
abbrev pub has_bar : Text → Bool
has_bar [] = false
has_bar (ch ∷ s) = is_bar ch || has_bar s

-- What calloc leaves of an entry.
abbrev pub no_info : SegmentInfo
no_info = record { id = 0; type = 0; valid_blocks = 0 }

module _ (atoi : Text → ℕ) where
  -- The inner loop: the first piece is the type, each further one the valid blocks. No piece is "|".
  abbrev pub set_pieces : Bool → SegmentInfo → List Text → SegmentInfo
  set_pieces set_first info [] = info
  set_pieces false info (piece ∷ pieces) =
      set_pieces true (record info { type = trunc32 (atoi piece) }) pieces
  set_pieces true info (piece ∷ pieces) =
      set_pieces true (record info { valid_blocks = trunc32 (atoi piece) }) pieces

  abbrev pub entry_of : Text → ℕ → SegmentInfo
  entry_of contents id = record (set_pieces false no_info (split_on is_bar contents)) { id = id }

  -- The loop over a line: a contents with a bar is the next entry, behind the last a write past the
  -- array of `allocated`.
  unfoldable pub add_contents : ℕ → List Text → List SegmentInfo → Run (List SegmentInfo)
  add_contents allocated [] segments = returned segments
  add_contents allocated (contents ∷ line) segments =
      if has_bar contents
      then (if ltb (length segments) allocated
          then add_contents allocated line (segments ++ (entry_of contents (length segments) ∷ []))
          else faulted)
      else add_contents allocated line segments

  -- The loop over the lines; it ends behind a line with which there are more than `highest_segment`.
  unfoldable pub add_lines : ℕ → ℕ → List Text → List SegmentInfo → Run (List SegmentInfo)
  add_lines allocated highest_segment [] segments = returned segments
  add_lines allocated highest_segment (line ∷ lines) segments = do
    segments' ← add_contents allocated (split_on is_blank line) segments
    (if ltb highest_segment (length segments')
        then returned segments'
        else add_lines allocated highest_segment lines segments')

  abbrev pub zeros : ℕ → List SegmentInfo
  zeros zero = []
  zeros (suc n) = no_info ∷ zeros n

  -- The array, zeroed and filled from the lines behind the first two; `none` if the file does not
  -- open. The array is as long as `segment_count_main`.
  unfoldable pub f2fs_fs_manager_init : ℕ → Option (List Text) → Run (Option (List SegmentInfo))
  f2fs_fs_manager_init count none = returned none
  f2fs_fs_manager_init count (some lines) = do
    segments ← add_lines count count (drop 2 lines) []
    returned (some (segments ++ zeros (count - length segments)))
