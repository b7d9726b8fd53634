-- ===== src/Programs/Extents.antt =====
-- zns.fiemap: `main` of src/fiemap.c (under zns-tools.fs/). getopt is a parameter, a list of options.
pub mod Report
pub mod F2fs
use zns_tools.Base.{ℕ, ◌%◌, true, Option, none, some, List, [], ◌∷◌, Text}
use zns_tools.Types.{Control, Run, returned, exited, ◌>>=◌}
use zns_tools.Gather.{map_file}
use zns_tools.Holes.{Line, Summary, print_fiemap_report}
use zns_tools.Programs.{
  System, Settings, zero_ctrl, each_option, require_file, set_up, then_run, after,
}

-- -h and any option without a case; -f -w -l -s.
pub data Opt : Type 0 where
  help : Opt
  file : Text → Opt
  show_flags : Opt
  log_level : ℕ → Opt
  show_holes : Opt

-- The switch; `log_level` is a uint8_t. `show_help` ends the process.
unfoldable pub set_option : Opt → Settings → Run Settings
set_option help s = exited
set_option (file path) s = returned (record s { filename = some path })
set_option show_flags s = returned (record s { ctrl = record s.ctrl { show_flags = true } })
set_option (log_level n) s = returned (record s { ctrl = record s.ctrl { log_level = n % 256 } })
set_option show_holes s = returned (record s { ctrl = record s.ctrl { show_holes = true } })

unfoldable pub parse_args : List Opt → Run (Control × Text)
parse_args os = do
  s ← each_option set_option os (record { ctrl = zero_ctrl; filename = none })
  require_file s

-- The file's extents gathered, and the report.
pub gather_and_report : System → ℕ → Control × Text × ℕ → Option (Run (List Line × Summary))
gather_and_report s fuel (c, filename, st_blocks) =
    then_run (map_file s.kernel fuel filename (s.fiemap filename) st_blocks c)
      (print_fiemap_report s.kernel)

-- `main`, on fuel, as `get_extents` is.
pub main : System → ℕ → List Opt → Option (Run (List Line × Summary))
main s fuel os = after (do args ← parse_args os; set_up s args) (gather_and_report s fuel)
