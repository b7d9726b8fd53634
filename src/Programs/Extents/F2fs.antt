-- ===== src/Programs/Extents/F2fs.antt =====
-- zns.fiemap on a file of F2FS, from its options to its report.
use zns_tools.Base.{
  ℕ, ◌*◌, ◌^◌, ◌<◌, ◌≡◌, sym, ap, ◌∙◌, true, some, List, Text, length, drop, arith,
}
use zns_tools.Types.{Control, Run, returned, ◌>>=◌}
use zns_tools.Device.{f2fs_magic, get_dev_size}
use zns_tools.Fiemap.Collect.{recorded}
use zns_tools.Fiemap.Wanted.{Agrees, recorded-same}
use zns_tools.Gather.State.{IsFile, file_at}
use zns_tools.Ondisk.Super.{SuperBlock, device_path}
use zns_tools.Setup.{Stat}
use zns_tools.Setup.Mount.{AnswersAs}
use zns_tools.Setup.F2fs.{OnF2fs, init_ctrl_f2fs, init_f2fs-MountedF2fs}
use zns_tools.Programs.{System, zero_ctrl, set_up, after}
use zns_tools.Programs.Extents.{Opt, parse_args, gather_and_report, main}
use zns_tools.Programs.Extents.Report.{
  Reported, parse_args-Fresh, gather_and_report-Reported, open_file_returns, set_up_returns,
}

-- What decides which extents are recorded: those on the first device are not.
abbrev pub behind_first : System → SuperBlock → Control
behind_first s sb = record zero_ctrl { offset = get_dev_size s.kernel (device_path sb 0) }

module _ (s : System) (fuel : ℕ) (filename : Text) (st_blocks : ℕ) (sb : SuperBlock) where
  -- For a file of F2FS whose superblock, as it is read from the file's device, names a first device
  -- and a zoned one that answer, the first of 4 KiB sectors only if the zoned one is, whose extents on
  -- the zoned device lie in its zones, with holes shorter than each request and no more extents than
  -- fuel, the program ends with a report; its summary has the number of the extents on the zoned
  -- device, of which there is at least one, and the holes that its lines show, if -s was given.
  pub main-Reported_f2fs :
      (os : List Opt) (c : Control) (st : Stat) (sector_size nr bits : ℕ)
      (o : OnF2fs s.kernel s.devices st sb sector_size)
      (a : AnswersAs s.kernel (drop 5 (device_path sb 1)) sector_size nr bits)
      (f : IsFile (behind_first s sb) (nr * 2 ^ bits) fuel (s.fiemap filename) st_blocks)
      → parse_args os ≡ returned (c, filename)
      → s.kernel.opens filename ≡ true
      → s.stat filename ≡ some (st, st_blocks)
      → s.kernel.file_system filename ≡ some f2fs_magic
      → 0 < recorded (behind_first s sb) f.file
      → length f.file < 2 ^ 32
      → Reported s.kernel (recorded (behind_first s sb) f.file) c.show_holes (main s fuel os)
  unfolding main
  main-Reported_f2fs os c st sector_size nr bits o a f parsed opens stat magic some_extents few =
      let fresh = parse_args-Fresh os c filename parsed in
      let mounted =
        init_f2fs-MountedF2fs s.kernel s.devices s.scanned (record c { fs_magic = f2fs_magic }) st
          sb sector_size nr bits o a fresh.info fresh.shift fresh.counters in
      let agrees : Agrees mounted.c' (behind_first s sb) =
        (mounted.offset, mounted.exclude_flags ∙ fresh.flags) in
      let f' =
        file_at (behind_first s sb) (nr * 2 ^ bits) fuel mounted.c'
          (length mounted.m'.zones * 2 ^ bits) (s.fiemap filename) st_blocks agrees
          (ap (λ (n : ℕ). n * 2 ^ bits) (sym mounted.zones)) f in
      let all = recorded-same mounted.c' (behind_first s sb) f.file agrees in
      let g =
        gather_and_report-Reported s fuel filename st_blocks mounted.c' mounted.m' bits
          mounted.ready f' mounted.empty (mounted.nr_files ∙ fresh.files)
          (omega (arith, all, some_extents)) few in
      let ready =
        set_up_returns s fuel filename st_blocks c mounted.c' st
          (open_file_returns s fuel filename st_blocks st opens stat)
          (init_ctrl_f2fs s.kernel s.devices s.scanned c filename st magic ∙ mounted.result) in
      record {
        c' = g.c';
        m' = g.m';
        lines = g.lines;
        result =
            ap (λ (r : Run (Control × Text × ℕ)). after r (gather_and_report s fuel))
              (ap (λ (r : Run (Control × Text)). r >>= set_up s) parsed ∙ ready)
            ∙ g.result;
        noe = g.noe ∙ all;
        as_asked = g.as_asked ∙ mounted.show_holes;
      }
