-- ===== src/Programs/Extents/Report.antt =====
-- zns.fiemap on a file of Btrfs, from its options to its report.
use zns_tools.Base.{
  ℕ, ◌*◌, ◌^◌, ◌<◌, ◌≡◌, refl, sym, ap, subst, ◌∙◌, bit_and, bit_and-zero_le, Bool, true, false,
  Option, Option-cases, inl, inr, ◌≢◌, none, some, List, [], ◌∷◌, Text, length, ◌==◌, arith,
}
use zns_tools.Types.{ZoneMap, Control, Run, returned, exited, ◌>>=◌, >>=-Returns, via, returned_inj}
use zns_tools.Device.{Kernel, btrfs_magic}
use zns_tools.ZoneList.Totals.{total}
use zns_tools.Fiemap.{FiemapExtent, is_recorded}
use zns_tools.Fiemap.Collect.{recorded}
use zns_tools.Fiemap.Placed.{print_zone_info-returns}
use zns_tools.Gather.State.{IsReady, IsFile, map_file-Gathered, file_at}
use zns_tools.Holes.{Line, Summary, summary_of, print_fiemap_report}
use zns_tools.Holes.Tallies.{tally_of, no_holes, print_fiemap_report-Totalled}
use zns_tools.Setup.{Stat, init_ctrl}
use zns_tools.Setup.Btrfs.{AnswersAs, init_ctrl_btrfs, init_btrfs-Mounted}
use zns_tools.Programs.{
  System, Settings, zero_ctrl, each_option, require_file, open_file, set_up, then_run, after,
}
use zns_tools.Programs.Extents.{
  Opt, help, file, show_flags, log_level, show_holes, set_option, parse_args, gather_and_report,
  main,
}

-- What the options leave as it was.
pub record Fresh (c : Control) : Type 0 where
  pub info : c.fs_info_bytes ≡ 0
  pub shift : c.zns_sector_shift ≡ 0
  pub counters : c.file_counter_map ≡ none
  pub files : c.nr_files ≡ 0
  pub flags : c.exclude_flags ≡ 0

set_option-Fresh :
    (o : Opt) (s t : Settings) → Fresh s.ctrl → set_option o s ≡ returned t → Fresh t.ctrl
unfolding set_option
set_option-Fresh help s t f h = cc
set_option-Fresh (file path) s t f h = subst (λ (u : Settings). Fresh u.ctrl) (returned_inj h) f
set_option-Fresh show_flags s t f h =
    subst (λ (u : Settings). Fresh u.ctrl) (returned_inj h)
      (record {
        info = f.info;
        shift = f.shift;
        counters = f.counters;
        files = f.files;
        flags = f.flags;
      })
set_option-Fresh (log_level n) s t f h =
    subst (λ (u : Settings). Fresh u.ctrl) (returned_inj h)
      (record {
        info = f.info;
        shift = f.shift;
        counters = f.counters;
        files = f.files;
        flags = f.flags;
      })
set_option-Fresh show_holes s t f h =
    subst (λ (u : Settings). Fresh u.ctrl) (returned_inj h)
      (record {
        info = f.info;
        shift = f.shift;
        counters = f.counters;
        files = f.files;
        flags = f.flags;
      })

options-Fresh :
    (os : List Opt) (s t : Settings)
    → Fresh s.ctrl
    → each_option set_option os s ≡ returned t
    → Fresh t.ctrl
options-Fresh [] s t f h = subst (λ (u : Settings). Fresh u.ctrl) (returned_inj h) f
options-Fresh (o ∷ os) s t f h = elim (>>=-Returns (set_option o s) (each_option set_option os) h) [
  | via u first rest ↦ options-Fresh os u t (set_option-Fresh o s u f first) rest
]

requires :
    (t : Settings) (path : Text) → t.filename ≡ some path → require_file t ≡ returned (t.ctrl, path)
requires t path given = rw given refl

exits :
    (t : Settings) (d : Control) (path : Text)
    → t.filename ≡ none
    → require_file t ≢ returned (d, path)
exits t d path nothing h = let ends : require_file t ≡ exited = rw nothing refl in cc

-- `require_file` changes nothing of the control block.
required_ctrl :
    (t : Settings) (d : Control) (path : Text) → require_file t ≡ returned (d, path) → t.ctrl ≡ d
required_ctrl t d path h = elim (Option-cases t.filename) [
  | inl nothing ↦ absurd (exits t d path nothing h)
  | inr (p, given) ↦ ap (λ (u : Control × Text). u.0) (returned_inj (sym (requires t p given) ∙ h))
]

pub parse_args-Fresh :
    (os : List Opt) (c : Control) (path : Text) → parse_args os ≡ returned (c, path) → Fresh c
unfolding parse_args
parse_args-Fresh os c path h =
    let start : Settings = record { ctrl = zero_ctrl; filename = none } in
    elim (>>=-Returns (each_option set_option os start) require_file h) [
      | via t parsed required ↦ subst Fresh (required_ctrl t c path required) (
          options-Fresh os start t
            (record { info = refl; shift = refl; counters = refl; files = refl; flags = refl })
            parsed)
    ]

-- Nothing is excluded: every extent is recorded.
recorded_all :
    (c : Control) (xs : List FiemapExtent)
    → c.offset ≡ 0
    → c.exclude_flags ≡ 0
    → recorded c xs ≡ length xs
unfolding recorded is_recorded
recorded_all c [] start none_excluded = refl
recorded_all c (x ∷ xs) start none_excluded =
    let rest = recorded_all c xs start none_excluded in
    let no_flag : bit_and x.fe_flags c.exclude_flags ≡ 0 =
      ap (bit_and x.fe_flags) none_excluded ∙ bit_and-zero_le x.fe_flags x.fe_flags (omega arith) in
    ground (arith, rest, no_flag, start)

-- What the program prints: the lines, and a summary that counts the file's extents and the holes of
-- the lines.
pub record Reported (k : Kernel) (number : ℕ) (holes : Bool)
    (r : Option (Run (List Line × Summary))) : Type 0 where
  pub c' : Control
  pub m' : ZoneMap
  pub lines : List Line
  pub result : r ≡ some (returned (lines, summary_of k c' m' (tally_of lines no_holes)))
  pub noe : m'.extent_ctr ≡ number
  pub as_asked : c'.show_holes ≡ holes

module _ (s : System) (fuel : ℕ) (filename : Text) (st_blocks : ℕ) where
  pub gather_and_report-Reported :
      (c : Control) (m : ZoneMap) (bits : ℕ) (ready : IsReady s.kernel c m bits)
      (f : IsFile c (length m.zones * 2 ^ bits) fuel (s.fiemap filename) st_blocks)
      → total m.zones ≡ 0
      → c.nr_files ≡ 0
      → 0 < recorded c f.file
      → length f.file < 2 ^ 32
      → Reported s.kernel
          (recorded c f.file)
          c.show_holes
          (gather_and_report s fuel (c, filename, st_blocks))
  unfolding gather_and_report
  gather_and_report-Reported c m bits ready f empty first some_extents few =
      let g =
        map_file-Gathered s.kernel fuel filename (s.fiemap filename) st_blocks c m bits ready f
          (omega (arith, empty, few)) (omega (arith, first)) (omega (arith, some_extents)) in
      let number : g.m'.extent_ctr ≡ recorded c f.file =
        omega (arith, g.ready.valid.extents, g.totals, empty) in
      let used : (g.m'.extent_ctr == 0) ≡ false = ground (arith, number, some_extents) in
      let t =
        print_fiemap_report-Totalled s.kernel g.c'
          (print_zone_info-returns s.kernel g.c' (length g.m'.zones) bits g.ready.device) g.m'
          g.ready.here used in
      record {
        c' = g.c';
        m' = g.m';
        lines = t.lines;
        result =
            ap (λ (r : Option (Run Control)). then_run r (print_fiemap_report s.kernel)) g.result
            ∙ ap some t.result;
        noe = number;
        as_asked = ap (λ (t : Control). t.show_holes) g.same.2;
      }

  pub open_file_returns :
      (st : Stat)
      → s.kernel.opens filename ≡ true
      → s.stat filename ≡ some (st, st_blocks)
      → open_file s filename ≡ returned (st, st_blocks)
  unfolding open_file
  open_file_returns st opens stat = rw (opens, stat) refl

  pub set_up_returns :
      (c c' : Control) (st : Stat)
      → open_file s filename ≡ returned (st, st_blocks)
      → init_ctrl s.kernel s.devices s.scanned c filename st ≡ returned c'
      → set_up s (c, filename) ≡ returned (c', filename, st_blocks)
  unfolding set_up
  set_up_returns c c' st opened ready = rw (opened, ready) refl

  -- For a file of Btrfs on a device that answers, whose extents lie in the device's zones, with holes
  -- shorter than each request and no more extents than fuel, the program ends with a report; its
  -- summary has the number of the file's extents, every one of them, and the holes that its lines
  -- show, if -s was given.
  pub main-Reported :
      (os : List Opt) (c : Control) (st : Stat) (name : Text) (sector_size nr bits : ℕ)
      (a : AnswersAs s.kernel name sector_size nr bits)
      (f : IsFile zero_ctrl (nr * 2 ^ bits) fuel (s.fiemap filename) st_blocks)
      → parse_args os ≡ returned (c, filename)
      → s.kernel.opens filename ≡ true
      → s.stat filename ≡ some (st, st_blocks)
      → s.kernel.file_system filename ≡ some btrfs_magic
      → s.scanned ≡ some name
      → 0 < length f.file
      → length f.file < 2 ^ 32
      → Reported s.kernel (length f.file) c.show_holes (main s fuel os)
  unfolding main
  main-Reported os c st name sector_size nr bits a f parsed opens stat magic scanned some_extents
        few =
      let fresh = parse_args-Fresh os c filename parsed in
      let mounted =
        init_btrfs-Mounted s.kernel name sector_size nr bits a s.devices
          (record c { fs_magic = btrfs_magic }) fresh.info fresh.shift fresh.counters in
      let no_flags = mounted.exclude_flags ∙ fresh.flags in
      let f' =
        file_at zero_ctrl (nr * 2 ^ bits) fuel mounted.c' (length mounted.m'.zones * 2 ^ bits)
          (s.fiemap filename) st_blocks (mounted.offset, no_flags)
          (ap (λ (n : ℕ). n * 2 ^ bits) (sym mounted.zones)) f in
      let all = recorded_all mounted.c' f.file mounted.offset no_flags in
      let g =
        gather_and_report-Reported mounted.c' mounted.m' bits mounted.ready f' mounted.empty
          (mounted.nr_files ∙ fresh.files) (omega (arith, all, some_extents)) few in
      let ready = set_up_returns c mounted.c' st (open_file_returns st opens stat) (
        ap (λ (o : Option Text). init_ctrl s.kernel s.devices o c filename st) scanned
        ∙ init_ctrl_btrfs s.kernel name sector_size nr bits a s.devices c filename st magic
        ∙ mounted.result) in
      record {
        c' = g.c';
        m' = g.m';
        lines = g.lines;
        result =
            ap (λ (r : Run (Control × Text × ℕ)). after r (gather_and_report s fuel))
              (ap (λ (r : Run (Control × Text)). r >>= set_up s) parsed ∙ ready)
            ∙ g.result;
        noe = g.noe ∙ all;
        as_asked = g.as_asked ∙ mounted.show_holes;
      }
