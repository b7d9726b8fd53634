-- ===== src/Programs/Segments.antt =====
-- zns.segmap: `main` of src/segmap.c (under zns-tools.fs/), behind the options of module Cli.
pub mod Report
use zns_tools.Base.{
  ℕ, Bool, true, false, not, Option, none, some, List, [], ◌∷◌, Text, ◌==◌, if◌then◌else◌,
}
use zns_tools.Types.{SegmentInfo, Control, Run, returned, exited, faulted, ◌>>=◌}
use zns_tools.Device.{f2fs_magic, btrfs_magic}
use zns_tools.Fiemap.{fiemap_extent_data_inline, zonemap_of}
use zns_tools.Holes.{Line, Summary, print_fiemap_report}
use zns_tools.Setup.{Stat, check_dir_init_ctrl}
use zns_tools.Cli.{Opt, Settings, parse_args, default_zones}
use zns_tools.Gather.{map_file}
use zns_tools.Walk.{Entries, collect_extents}
use zns_tools.Segments.{SegLine, SegmapManager}
use zns_tools.Segments.Report.{StatRows, show_segment_report, show_segment_stats}
use zns_tools.Programs.{System, zero_ctrl, open_file, after, then_run}

-- How the program ends when it returns: a directory without extents, with the inlined extents found;
-- the segment report with its statistics; the state that json_dump_data is called with; the extent
-- report; or nothing, on another file system.
pub data Output : Type 0 where
  no_mappings : ℕ → Output
  segments : List SegLine → StatRows → Output
  json : Control → Output
  extents : List Line → Summary → Output
  silent : Output

-- The rest of the system: the segment table of a device, and the tree under a directory.
pub record Tree : Type 0 where
  pub system : System
  pub segman : Text → Option (List SegmentInfo)
  pub entries : Text → Entries

-- `ctrl` and the locals before the options.
abbrev pub first_settings : Settings
first_settings = record {
  ctrl = record zero_ctrl { exclude_flags = fiemap_extent_data_inline; show_holes = true };
  dir = [];
  set_dir = false;
  set_zone = false;
  set_zone_start = false;
  set_zone_end = false;
}

-- What is kept of the command line and the set-up: the control block, `segmap_man.dir` and
-- `segmap_man.isdir`.
pub record Task : Type 0 where
  pub ctrl : Control
  pub dir : Text
  pub isdir : Bool

pub stat_of : System → Text → Option Stat
stat_of s dir = elim (s.stat dir) [ none ↦ none | some st ↦ some st.0 ]

-- The options, the set-up, and the zones to fall back to.
unfoldable pub prepare : Tree → List Opt → Run Task
prepare t os = do
  s ← parse_args os first_settings
  (c, isdir) ←
      check_dir_init_ctrl t.system.kernel t.system.devices t.system.scanned t.segman s.ctrl s.dir
        (stat_of t.system s.dir)
  returned (record { ctrl = default_zones s c; dir = s.dir; isdir = isdir })

-- `segmap_man` when the report begins.
abbrev pub manager : Task → SegmapManager
manager k = record {
  dir = k.dir;
  isdir = k.isdir;
  segment_ctr = 0;
  cold_ctr = 0;
  warm_ctr = 0;
  hot_ctr = 0;
  fs = [];
  allocated = 0;
}

-- The report for the file system at hand; the loops over the lists are on fuel.
pub report : Tree → ℕ → Task → Control → Option (Run Output)
report t fuel task c =
    if c.fs_magic == f2fs_magic
    then (if c.json_dump
        then some (returned (json c))
        else then_run (show_segment_report t.system.kernel fuel c (manager task)) (λ (lines, r). do
          rows ← show_segment_stats r.ctrl r.man
          returned (segments lines rows)))
    else if c.fs_magic == btrfs_magic
    then some (do
      (lines, summary) ← print_fiemap_report t.system.kernel c
      returned (extents lines summary))
    else some (returned silent)

-- A directory without extents is only told.
pub report_directory : Tree → ℕ → Task → Control → Option (Run Output)
report_directory t fuel task c = after (zonemap_of c) (λ m.
    if m.extent_ctr == 0
    then some (returned (no_mappings c.inlined_extent_ctr))
    else report t fuel task c)

abbrev pub go_on : Option (Run Control) → (Control → Option (Run Output)) → Option (Run Output)
go_on none f = none
go_on (some r) f = after r f

-- The extents of the directory or of the one file, and the report.
pub map_and_report : Tree → ℕ → ℕ → Task → Option (Run Output)
map_and_report t fuel nodes task =
    if task.isdir
    then go_on (collect_extents t.system.kernel fuel task.dir (t.entries task.dir) task.ctrl)
        (report_directory t nodes task)
    else after (open_file t.system task.dir) (λ (st, st_blocks).
      go_on (map_file t.system.kernel fuel task.dir (t.system.fiemap task.dir) st_blocks task.ctrl)
        (report t nodes task))

-- `main`: fuel for the extents of each file, and for the nodes of each zone's list.
pub main : Tree → ℕ → ℕ → List Opt → Option (Run Output)
main t fuel nodes os = after (prepare t os) (map_and_report t fuel nodes)
