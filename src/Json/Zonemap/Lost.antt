-- ===== src/Json/Zonemap/Lost.antt =====
-- A zone whose extents all lie in one segment, with nothing else collected: its segments are not in the
-- JSON file.
use zns_tools.Base.{ℕ, ◌≡◌, true, Option, some, ◌⊎◌}
use zns_tools.Types.{SegmentInfo, Extent, FileCounterMap, Control, Run, returned}
use zns_tools.Segments.{segment_of}
use zns_tools.Segments.Split.{is_in_one_segment}
use zns_tools.Json.Objects.{JsonC}
use zns_tools.Json.Zonemap.{Builder}

-- An extent that lies in the segment, with the file system's data.
abbrev pub InSegment : Control → ℕ → Extent → Type 0
InSegment c segment e =
    (segment_of c e.phy_blk ≡ segment)
    × (is_in_one_segment c e ≡ true)
    × ((info : SegmentInfo) × (e.fs_info ≡ some info))

module _ {J : Type 0} (j : JsonC J) (files : FileCounterMap) (segment : ℕ) where
  -- The segment is the one that is collected, or nothing is collected yet.
  abbrev Collects : Builder J → Type 0
  Collects b = (b.curseg_id ≡ segment) ⊎ (j.array_length b.curseg_extents ≡ 0)

  -- What the inner loop leaves of the zone's segments.
  pub record Unwritten (b : Builder J) (r : Option (Run (Builder J))) : Type 0 where
    pub b' : Builder J
    pub result : r ≡ some (returned b')
    pub segments : b'.zone_segments ≡ b.zone_segments
