-- ===== src/Segments/Tests.antt =====
-- The segment report of concrete extents.
use zns_tools.Base.{◌+◌, ◌≡◌, ◌≢◌, refl, false, none, some, [], ◌∷◌, arith, inl}
use zns_tools.Types.{Extent, ZoneMap, Control}
use zns_tools.Fixtures.{kernel, control, extent_at, zone_with, no_extents, one_file}
use zns_tools.Segments.{SegmapManager}
use zns_tools.Segments.Geometry.{IsGeometry}
use zns_tools.Segments.Pieces.{IsPrinted, Covers}
use zns_tools.Segments.Split.{show_extent}
use zns_tools.Segments.Split.Whole.{show_extent-Covers}
use zns_tools.Segments.Report.{Report, show_zone, show_segment_report}
use zns_tools.Segments.Report.Ends.{show_zone_stuck, show_segment_report_ends}

abbrev manager : SegmapManager
manager = record {
  dir = [];
  isdir = false;
  segment_ctr = 0;
  cold_ctr = 0;
  warm_ctr = 0;
  hot_ctr = 0;
  fs = [];
  allocated = 0;
}

-- From within segment 48 into segment 52: three whole segments between.
abbrev long : Extent
long = record (extent_at 200000 16000) {
  fs_info = some (record { id = 48; type = 1; valid_blocks = 512 });
}

abbrev counting : Control
counting = record control { file_counter_map = some one_file }

geometry : IsGeometry counting 12
geometry = record { small = omega arith; mask = refl; shift = refl; sectors = refl; bytes = refl }

printed : IsPrinted counting long
printed = record {
  shown = refl;
  no_classes = refl;
  seg = record { id = 48; type = 1; valid_blocks = 512 };
  has_info = refl;
  files = one_file;
  has_files = refl;
  fits = omega arith;
}

show_extent-Covers_example :
    Covers counting long printed (show_extent counting manager long) 200000 (200000 + 16000)
show_extent-Covers_example =
    show_extent-Covers counting long printed 12 geometry manager (inl (omega arith))

abbrev start : Report
start = record { ctrl = counting; man = manager; current_zone = 0 }

-- The extent starts at 196608, the report at 200000.
show_zone_stuck_example : show_zone kernel 100 200000 400000 (extent_at 196608 8 ∷ []) start ≡ none
show_zone_stuck_example =
    show_zone_stuck kernel 100 200000 400000 (extent_at 196608 8) [] start (omega arith)
      (omega arith)

abbrev one_extent : ZoneMap
one_extent = record no_extents { zones = zone_with 1 (long ∷ []) ∷ [] }

abbrev mapped : Control
mapped = record counting { zonemap = some one_extent }

show_segment_report_ends_example : show_segment_report kernel 2 mapped manager ≢ none
show_segment_report_ends_example =
    show_segment_report_ends kernel 2 mapped manager one_extent refl (omega arith) refl
      (omega arith, tt)
