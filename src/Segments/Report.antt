-- ===== src/Segments/Report.antt =====
-- The loop of `show_segment_report` over the zones and their lists, and the rows of
-- `show_segment_stats`: src/segmap.c (under zns-tools.fs/).
pub mod Ends
use zns_tools.Base.{
  ℕ, zero, suc, ◌+◌, ◌*◌, ◌/◌, ◌%◌, ◌^◌, bit_and, Bool, true, false, ◌&&◌, not, Option, none, some,
  List, [], ◌∷◌, ◌++◌, ltb, leb, ◌==◌, if◌then◌else◌, add32, add64, mul64, sub64, shl64,
}
use zns_tools.Types.{
  Extent, Zone, FileCounter, FileCounterMap, Control, Run, returned, exited, faulted, ◌>>=◌,
}
use zns_tools.Device.{Kernel}
use zns_tools.Zones.{print_zone_info}
use zns_tools.Counters.{increase_file_segment_counter}
use zns_tools.Fiemap.{has_flag, fiemap_extent_data_inline, zonemap_of, counters_of}
use zns_tools.Segments.{SegmapManager, SegLine, zone, segment_of, extent_end}
use zns_tools.Segments.Split.{show_extent}

-- `ctrl`, `segmap_man` and the local `current_zone`.
pub record Report : Type 0 where
  pub ctrl : Control
  pub man : SegmapManager
  pub current_zone : ℕ

-- The number of segments that the extent touches; it may be one too many.
abbrev pub num_segments : Control → Extent → ℕ
num_segments c e = add64 (sub64 (segment_of c (extent_end e)) (segment_of c e.phy_blk)) 1

module _ (k : Kernel) where
  -- The zone's line, if the report comes to another zone.
  pub enter_zone : Report → Extent → Run (List SegLine × Report)
  enter_zone r e =
      if r.current_zone == e.zone
      then returned ([], r)
      else if r.ctrl.show_only_stats
      then returned ([], record r { current_zone = e.zone })
      else (do
        info ← print_zone_info k r.ctrl e.zone
        returned (zone info ∷ [], record r { current_zone = e.zone }))

  -- One round of the inner loop, behind its tests.
  pub show_node : Report → Extent → Run (List SegLine × Report)
  show_node r e = do
    (head, r') ← enter_zone r e
    files ← counters_of r'.ctrl
    files' ←
        increase_file_segment_counter r'.ctrl files e.file (num_segments r'.ctrl e)
          (segment_of r'.ctrl e.phy_blk) e.fs_info e.zone_cap
    (lines, c, man) ← show_extent (record r'.ctrl { file_counter_map = some files' }) r'.man e
    returned (head ++ lines, record r' { ctrl = c; man = man })

  abbrev pub before :
      List SegLine → Option (Run (List SegLine × Report)) → Option (Run (List SegLine × Report))
  before ls none = none
  before ls (some exited) = some exited
  before ls (some faulted) = some faulted
  before ls (some (returned (ms, r))) = some (returned (ls ++ ms, r))

  -- The inner loop, on fuel, `none` out of fuel; `continue` stays at the same node.
  pub show_zone : ℕ → ℕ → ℕ → List Extent → Report → Option (Run (List SegLine × Report))
  show_zone zero start_lba end_lba es r = none
  show_zone (suc fuel) start_lba end_lba [] r = some (returned ([], r))
  show_zone (suc fuel) start_lba end_lba (e ∷ es) r =
      let lba = shl64 (segment_of r.ctrl e.phy_blk) r.ctrl.segment_shift in
      elim (leb end_lba lba) [
        | true ↦ some (returned ([], r))
        | false ↦ elim (ltb lba start_lba) [
          | true ↦ show_zone fuel start_lba end_lba (e ∷ es) r
          | false ↦ elim (show_node r e) [
            | exited ↦ some exited
            | faulted ↦ some faulted
            | returned (lines, r') ↦ before lines (show_zone fuel start_lba end_lba es r')
          ]
        ]
      ]

  -- The outer loop; each zone has the same fuel.
  pub show_zones : ℕ → ℕ → ℕ → List Zone → Report → Option (Run (List SegLine × Report))
  show_zones fuel start_lba end_lba [] r = some (returned ([], r))
  show_zones fuel start_lba end_lba (z ∷ zs) r = elim (z.extent_ctr == 0) [
    | true ↦ show_zones fuel start_lba end_lba zs r
    | false ↦ elim (show_zone fuel start_lba end_lba z.extents r) [
      | none ↦ none
      | some exited ↦ some exited
      | some faulted ↦ some faulted
      | some (returned (lines, r')) ↦ before lines (show_zones fuel start_lba end_lba zs r')
    ]
  ]

  abbrev pub start_lba_of : Control → ℕ
  start_lba_of c = sub64 (mul64 c.start_zone c.znsdev.zone_size) c.znsdev.zone_size

  abbrev pub end_lba_of : Control → ℕ
  end_lba_of c = sub64 (mul64 (add32 c.end_zone 1) c.znsdev.zone_size) c.znsdev.zone_size

  -- `show_segment_report`, without the statistics behind it.
  pub show_segment_report : ℕ → Control → SegmapManager → Option (Run (List SegLine × Report))
  show_segment_report fuel c man = elim c.zonemap [
    | none ↦ some faulted
    | some m ↦ show_zones fuel (start_lba_of c) (end_lba_of c) m.zones (record {
      ctrl = c;
      man = if c.show_class_stats then record man { fs = []; allocated = c.nr_files } else man;
      current_zone = 0;
    })
  ]

-- The rows of `show_segment_stats`: the inlined extents, where there are any, and the files of a
-- directory.
pub record StatRows : Type 0 where
  pub inlined : Option ℕ
  pub files : List FileCounter

pub show_segment_stats : Control → SegmapManager → Run StatRows
show_segment_stats c man =
    let inlined =
      if ltb 0 c.inlined_extent_ctr && not (has_flag c.exclude_flags fiemap_extent_data_inline)
      then some c.inlined_extent_ctr
      else none in
    if man.isdir && ltb 1 c.nr_files
    then (do m ← counters_of c; returned (record { inlined = inlined; files = m.files }))
    else returned (record { inlined = inlined; files = [] })
