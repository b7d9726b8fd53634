-- ===== src/Cli.antt =====
-- The command line of zns.segmap: the option loop of `main` in src/segmap.c, its checks, and the
-- zones that it falls back to (under zns-tools.fs/). getopt is a parameter: what it returns is a list
-- of options, with the argument's number where `atoi` reads one.
pub mod Options
pub mod Accepted
mod Tests
use zns_tools.Base.{
  ℕ, ◌%◌, Bool, true, false, ◌&&◌, ◌||◌, not, List, [], ◌∷◌, Text, ◌==◌, if◌then◌else◌, trunc32,
}
use zns_tools.Types.{Control, Run, returned, exited, ◌>>=◌}

-- FIEMAP_EXTENT_DATA_INLINE is what -i stops excluding.
pub data Opt : Type 0 where
  -- -h, and any option that is not known
  help : Opt
  -- -d -l -i -j -w
  dir : Text → Opt
  log_level : ℕ → Opt
  inlined : Opt
  json : Opt
  show_flags : Opt
  -- -s -z -e
  start : ℕ → Opt
  single : ℕ → Opt
  end : ℕ → Opt
  -- -p -c -o -n
  procfs : Opt
  class_stats : Opt
  only_stats : Opt
  no_holes : Opt

-- `ctrl` and the locals of `main`.
pub record Settings : Type 0 where
  pub ctrl : Control
  pub dir : Text
  pub set_dir : Bool
  pub set_zone : Bool
  pub set_zone_start : Bool
  pub set_zone_end : Bool

-- The switch. `show_help` ends the process.
unfoldable pub set_option : Opt → Settings → Run Settings
set_option help s = exited
set_option (dir path) s = returned (record s { dir = path; set_dir = true })
set_option (log_level n) s = returned (record s { ctrl = record s.ctrl { log_level = n % 256 } })
set_option inlined s = returned (record s { ctrl = record s.ctrl { exclude_flags = 0 } })
set_option json s = returned (record s { ctrl = record s.ctrl { json_dump = true } })
set_option show_flags s = returned (record s { ctrl = record s.ctrl { show_flags = true } })
set_option (start n) s =
    returned (record s { ctrl = record s.ctrl { start_zone = n }; set_zone_start = true })
set_option (single n) s =
    returned (record s { ctrl = record s.ctrl { start_zone = n; end_zone = n }; set_zone = true })
set_option (end n) s =
    returned (record s { ctrl = record s.ctrl { end_zone = n }; set_zone_end = true })
set_option procfs s = returned (record s { ctrl = record s.ctrl { procfs = true } })
set_option class_stats s = returned (record s { ctrl = record s.ctrl { show_class_stats = true } })
set_option only_stats s =
    returned (record s { ctrl = record s.ctrl { show_only_stats = true; show_class_stats = true } })
set_option no_holes s = returned (record s { ctrl = record s.ctrl { show_holes = false } })

-- The loop.
unfoldable pub set_options : List Opt → Settings → Run Settings
set_options [] s = returned s
set_options (o ∷ os) s = do s' ← set_option o s; set_options os s'

-- Statistics need the segment table: alone they end the process, else they are left out.
abbrev pub check_stats : Settings → Run Settings
check_stats s =
    if s.ctrl.show_class_stats && not s.ctrl.procfs
    then (if s.ctrl.show_only_stats
        then exited
        else returned (record s { ctrl = record s.ctrl { show_class_stats = false } }))
    else returned s

-- The checks behind the loop.
unfoldable pub check_settings : Settings → Run Settings
check_settings s =
    if not s.set_dir
    then exited
    else if s.set_zone && (s.set_zone_start || s.set_zone_end)
    then exited
    else check_stats s

unfoldable pub parse_args : List Opt → Settings → Run Settings
parse_args os s = do s' ← set_options os s; check_settings s'

-- Behind the set-up, which tells the number of zones: without -z, from zone 1 and to the last.
pub default_zones : Settings → Control → Control
default_zones s c =
    let c_1 = if c.start_zone == 0 && not s.set_zone then record c { start_zone = 1 } else c in
    if c_1.end_zone == 0 && not s.set_zone
    then record c_1 { end_zone = c_1.znsdev.nr_zones }
    else c_1
