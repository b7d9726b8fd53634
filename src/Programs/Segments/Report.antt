-- ===== src/Programs/Segments/Report.antt =====
-- zns.segmap on a directory of Btrfs, from its options to its report.
use zns_tools.Base.{
  ℕ, ◌*◌, ◌^◌, ◌<◌, ◌≡◌, refl, sym, ap, ◌∙◌, Bool, true, false, Option, none, some, List, Text,
  length, ◌==◌, if◌then◌else◌, arith, inl,
}
use zns_tools.Types.{ZoneMap, Control, Run, returned, faulted}
use zns_tools.Device.{Kernel, btrfs_magic, f2fs_magic}
use zns_tools.ZoneList.Totals.{total}
use zns_tools.Fiemap.Placed.{print_zone_info-returns}
use zns_tools.Gather.State.{IsReady}
use zns_tools.Holes.{Line, Summary, summary_of, print_fiemap_report}
use zns_tools.Holes.Tallies.{tally_of, no_holes, print_fiemap_report-Totalled}
use zns_tools.Setup.{Stat, init_ctrl, check_dir_init_ctrl}
use zns_tools.Setup.Btrfs.{AnswersAs, init_ctrl_btrfs, init_btrfs-Mounted}
use zns_tools.Cli.{Opt, Settings, parse_args, default_zones}
use zns_tools.Cli.Options.{parse_args-IsNew, default_zones-zones}
use zns_tools.Walk.{Entries, collect_extents}
use zns_tools.Walk.Tree.{IsTree, told, to_record, files}
use zns_tools.Walk.Steps.{Walked}
use zns_tools.Walk.Whole.{collect_extents-Walked}
use zns_tools.Programs.{zero_ctrl, after}
use zns_tools.Programs.Segments as Segments
use zns_tools.Programs.Segments.{
  Output, Tree, Task, stat_of, prepare, report, report_directory, map_and_report, go_on, main,
  first_settings,
}

-- The zones to show are no part of the invariant.
zones-IsReady :
    (k : Kernel) (c : Control) (m : ZoneMap) (bits a b : ℕ)
    → c.fs_info_bytes ≡ 0
    → IsReady k c m bits
    → IsReady k (record c { start_zone = a; end_zone = b }) m bits
zones-IsReady k c m bits a b no_info r = record {
  here = r.here;
  valid = r.valid;
  device = record {
    opens = r.device.opens;
    reports = r.device.reports;
    small = r.device.small;
    zone_size = r.device.zone_size;
    room = r.device.room;
    shifts = r.device.shifts;
    segments = inl no_info;
  };
  counters = r.counters;
}

-- Which extents are recorded depends on the excluded flags alone.
abbrev pub only : ℕ → Control
only flags = record zero_ctrl { exclude_flags = flags }

-- What the program prints: the lines, and a summary that counts `number` extents, and the holes of
-- the lines.
pub record Printed (k : Kernel) (number : ℕ) (holes : Bool) (r : Option (Run Output)) : Type 0 where
  pub c' : Control
  pub m' : ZoneMap
  pub lines : List Line
  pub result :
      r ≡ some (returned (Segments.extents lines (summary_of k c' m' (tally_of lines no_holes))))
  pub noe : m'.extent_ctr ≡ number
  pub as_asked : c'.show_holes ≡ holes

module _ (t : Tree) (nodes : ℕ) where
  abbrev kernel : Kernel
  kernel = t.system.kernel

  extents_reported :
      (task : Task) (c : Control) (lines : List Line) (s : Summary)
      → c.fs_magic ≡ btrfs_magic
      → print_fiemap_report kernel c ≡ returned (lines, s)
      → report t nodes task c ≡ some (returned (Segments.extents lines s))
  unfolding report
  extents_reported task c lines s magic printed =
      let other : (c.fs_magic == f2fs_magic) ≡ false = ground (arith, magic) in
      let same : (c.fs_magic == btrfs_magic) ≡ true = ground (arith, magic) in
      rw (other, same, printed) refl

  directory_reported :
      (task : Task) (c : Control) (m : ZoneMap)
      → c.zonemap ≡ some m
      → (m.extent_ctr == 0) ≡ false
      → report_directory t nodes task c ≡ report t nodes task c
  unfolding report_directory
  directory_reported task c m here used =
      ap
        (λ (o : Option ZoneMap).
          after (elim o [ none ↦ faulted | some z ↦ returned z ])
            (λ z.
              if z.extent_ctr == 0
              then some (returned (Segments.no_mappings c.inlined_extent_ctr))
              else report t nodes task c))
        here
      ∙ rw used refl

  -- The report of a map with extents.
  report_directory-Printed :
      (task : Task) (c : Control) (m : ZoneMap) (bits : ℕ)
      → IsReady kernel c m bits
      → c.fs_magic ≡ btrfs_magic
      → 0 < m.extent_ctr
      → Printed kernel m.extent_ctr c.show_holes (report_directory t nodes task c)
  report_directory-Printed task c m bits ready magic some_extents =
      let used : (m.extent_ctr == 0) ≡ false = ground arith in
      let p =
        print_fiemap_report-Totalled kernel c
          (print_zone_info-returns kernel c (length m.zones) bits ready.device) m ready.here used in
      record {
        c' = c;
        m' = m;
        lines = p.lines;
        result =
            directory_reported task c m ready.here used
            ∙ extents_reported task c p.lines (summary_of kernel c m (tally_of p.lines no_holes))
                magic p.result;
        noe = refl;
        as_asked = refl;
      }

  check_dir_returns :
      (c c' : Control) (path : Text) (st : Stat)
      → init_ctrl kernel t.system.devices t.system.scanned c path st ≡ returned c'
      → (c'.fs_magic == f2fs_magic) ≡ false
      → check_dir_init_ctrl kernel t.system.devices t.system.scanned t.segman c path (some st)
        ≡ returned (c', st.is_dir)
  unfolding check_dir_init_ctrl
  check_dir_returns c c' path st ready other = rw (ready, other) refl

  stat_of-some :
      (path : Text) (st : Stat) (st_blocks : ℕ)
      → t.system.stat path ≡ some (st, st_blocks)
      → stat_of t.system path ≡ some st
  unfolding stat_of
  stat_of-some path st st_blocks found = rw (found, stat_of) refl

  prepare_returns :
      (os : List Opt) (s : Settings) (c' : Control) (st : Stat)
      → parse_args os first_settings ≡ returned s
      → stat_of t.system s.dir ≡ some st
      → check_dir_init_ctrl kernel t.system.devices t.system.scanned t.segman s.ctrl s.dir (some st)
        ≡ returned (c', st.is_dir)
      → prepare t os
        ≡ returned (record { ctrl = default_zones s c'; dir = s.dir; isdir = st.is_dir })
  unfolding prepare
  prepare_returns os s c' st parsed stat checked = rw (parsed, stat, checked) refl

  -- The invariant before the walk, and the files of the tree for it.
  walked :
      (s : Settings) (c' : Control) (m' : ZoneMap) (path : Text) (tree : Entries) (fuel nr bits : ℕ)
      (ok : IsTree (only s.ctrl.exclude_flags) (nr * 2 ^ bits) fuel tree)
      → IsReady kernel c' m' bits
      → c'.fs_info_bytes ≡ 0
      → c'.offset ≡ 0
      → c'.exclude_flags ≡ s.ctrl.exclude_flags
      → c'.nr_files ≡ 0
      → length m'.zones ≡ nr
      → total m'.zones ≡ 0
      → told (only s.ctrl.exclude_flags) (nr * 2 ^ bits) fuel tree ok < 2 ^ 32
      → files (only s.ctrl.exclude_flags) (nr * 2 ^ bits) fuel tree ok < 2 ^ 32
      → (a : ℕ) × (b : ℕ) × (default_zones s c' ≡ record c' { start_zone = a; end_zone = b })
        × Walked
            (only s.ctrl.exclude_flags)
            (nr * 2 ^ bits)
            fuel
            kernel
            bits
            (record c' { start_zone = a; end_zone = b })
            path
            tree
            ok
            (record c' { start_zone = a; end_zone = b })
            m'
            (collect_extents kernel fuel path tree (record c' { start_zone = a; end_zone = b }))
            (to_record (only s.ctrl.exclude_flags) (nr * 2 ^ bits) fuel tree ok)
            (files (only s.ctrl.exclude_flags) (nr * 2 ^ bits) fuel tree ok)
  walked s c' m' path tree fuel nr bits ok ready no_info offset flags first zones empty fits few =
      let (a, b, shape) = default_zones-zones s c' in
      (
        a,
        b,
        shape,
        collect_extents-Walked (only s.ctrl.exclude_flags) (nr * 2 ^ bits) fuel kernel bits path
            tree ok (record c' { start_zone = a; end_zone = b }) m'
            (zones-IsReady kernel c' m' bits a b no_info ready) (offset, flags)
            (ap (λ (n : ℕ). n * 2 ^ bits) (sym zones)) (omega (arith, empty, fits))
            (omega (arith, first, few)),
      )

  -- For a directory of Btrfs on a device that answers, whose tree has files with something to record
  -- and none that cannot be opened, the program ends with the extent report; its summary counts what
  -- all the files of the tree have to record, and the holes that its lines show, unless -n was given.
  pub main-Printed_directory :
      (os : List Opt) (s : Settings) (st : Stat) (st_blocks fuel : ℕ) (name : Text)
      (sector_size nr bits : ℕ) (a : AnswersAs kernel name sector_size nr bits)
      (ok : IsTree (only s.ctrl.exclude_flags) (nr * 2 ^ bits) fuel (t.entries s.dir))
      → parse_args os first_settings ≡ returned s
      → t.system.stat s.dir ≡ some (st, st_blocks)
      → st.is_dir ≡ true
      → kernel.file_system s.dir ≡ some btrfs_magic
      → t.system.scanned ≡ some name
      → 0 < to_record (only s.ctrl.exclude_flags) (nr * 2 ^ bits) fuel (t.entries s.dir) ok
      → told (only s.ctrl.exclude_flags) (nr * 2 ^ bits) fuel (t.entries s.dir) ok < 2 ^ 32
      → files (only s.ctrl.exclude_flags) (nr * 2 ^ bits) fuel (t.entries s.dir) ok < 2 ^ 32
      → Printed kernel
          (to_record (only s.ctrl.exclude_flags) (nr * 2 ^ bits) fuel (t.entries s.dir) ok)
          s.ctrl.show_holes
          (main t fuel nodes os)
  unfolding main map_and_report
  main-Printed_directory os s st st_blocks fuel name sector_size nr bits a ok parsed stat is_dir
        magic scanned some_extents fits few =
      let new = parse_args-IsNew os first_settings s (refl, refl, refl, refl) parsed in
      let c_1 = record s.ctrl { fs_magic = btrfs_magic } in
      let mounted =
        init_btrfs-Mounted kernel name sector_size nr bits a t.system.devices c_1 new.0 new.1
          new.2 in
      let ready =
        ap (λ (o : Option Text). init_ctrl kernel t.system.devices o s.ctrl s.dir st) scanned
        ∙ init_ctrl_btrfs kernel name sector_size nr bits a t.system.devices s.ctrl s.dir st magic
        ∙ mounted.result in
      let other : (mounted.c'.fs_magic == f2fs_magic) ≡ false = ground (arith, mounted.fs_magic) in
      let checked = check_dir_returns s.ctrl mounted.c' s.dir st ready other in
      let prepared =
        prepare_returns os s mounted.c' st parsed (stat_of-some s.dir st st_blocks stat) checked in
      let (from, to, shape, w) =
        walked s mounted.c' mounted.m' s.dir (t.entries s.dir) fuel nr bits ok mounted.ready
          (mounted.info ∙ new.0) mounted.offset mounted.exclude_flags (mounted.nr_files ∙ new.3)
          mounted.zones mounted.empty fits few in
      let task : Task = record { ctrl = default_zones s mounted.c'; dir = s.dir; isdir = true } in
      let prepared' : prepare t os ≡ returned task =
        prepared
        ∙ ap
            (λ (b : Bool).
              returned (record { ctrl = default_zones s mounted.c'; dir = s.dir; isdir = b }))
            is_dir in
      let number : w.m'.extent_ctr
          ≡ to_record (only s.ctrl.exclude_flags) (nr * 2 ^ bits) fuel (t.entries s.dir) ok =
        omega (arith, w.ready.valid.extents, w.totals, mounted.empty) in
      let p =
        report_directory-Printed task w.c' w.m' bits w.ready (w.kept.1 ∙ mounted.fs_magic)
          (omega (arith, number, some_extents)) in
      record {
        c' = p.c';
        m' = p.m';
        lines = p.lines;
        result =
            ap (λ (r : Run Task). after r (map_and_report t fuel nodes)) prepared'
            ∙ ap
                (λ (d : Control).
                  go_on (collect_extents kernel fuel s.dir (t.entries s.dir) d)
                    (report_directory t nodes task))
                shape
            ∙ ap (λ (r : Option (Run Control)). go_on r (report_directory t nodes task)) w.result
            ∙ p.result;
        noe = p.noe ∙ number;
        as_asked = p.as_asked ∙ w.kept.0 ∙ mounted.show_holes;
      }
