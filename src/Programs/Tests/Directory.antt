-- ===== src/Programs/Tests/Directory.antt =====
-- zns.segmap on a directory of Btrfs: a file of two extents and a file that is deleted meanwhile.
use zns_tools.Base.{◌≡◌, refl, true, false, some, none, List, [], ◌∷◌, arith}
use zns_tools.Types.{returned}
use zns_tools.Setup.{Stat}
use zns_tools.Fiemap.{fiemap_extent_data_inline, is_recorded}
use zns_tools.Fiemap.Collect.{recorded}
use zns_tools.Fiemap.Tests.{fiemap, file-IsLayout}
use zns_tools.Fiemap.Tests as Files
use zns_tools.Gather.State.{IsFile}
use zns_tools.Cli.{
  Opt, dir, no_holes, Settings, set_option, set_options, check_settings, parse_args,
}
use zns_tools.Walk.{Entries, deleted, opened, end_of_directory, file}
use zns_tools.Walk.Tree.{IsTree, to_record}
use zns_tools.Programs.Segments.{Tree, main, first_settings}
use zns_tools.Programs.Segments.Report.{only, Printed, main-Printed_directory}
use zns_tools.Programs.Tests.{btrfs, device, path, answers, system}

abbrev folder : Stat
folder = record { major = 0; minor = 0; is_dir = true }

abbrev entries : Entries
entries = file path (opened fiemap 2048) (file device deleted end_of_directory)

abbrev tree : Tree
tree = record {
  system = record system { stat = λ name. some (folder, 0) };
  segman = λ name. none;
  entries = λ name. entries;
}

abbrev whole_file : IsFile (only fiemap_extent_data_inline) 262144 2 fiemap 2048
whole_file = record {
  file = Files.file;
  answers = λ start len. refl;
  layout = file-IsLayout;
  holes = (omega arith, (omega arith, tt));
  word = omega arith;
  enough = omega arith;
  inside = ((omega arith, omega arith), ((omega arith, omega arith), tt));
}

two_recorded : recorded (only fiemap_extent_data_inline) Files.file ≡ 2
unfolding recorded is_recorded
two_recorded = refl

abbrev entries_ok : IsTree (only fiemap_extent_data_inline) 262144 2 entries
entries_ok = (whole_file, omega (arith, two_recorded), tt)

abbrev options : List Opt
options = dir path ∷ no_holes ∷ []

abbrev asked : Settings
asked = record first_settings {
  ctrl = record first_settings.ctrl { show_holes = false };
  dir = path;
  set_dir = true;
}

parsed : parse_args options first_settings ≡ returned asked
unfolding parse_args set_options set_option check_settings
parsed = refl

main-Printed_directory_example :
    Printed btrfs
      (to_record (only fiemap_extent_data_inline) 262144 2 entries entries_ok)
      false
      (main tree 2 3 options)
main-Printed_directory_example =
    main-Printed_directory tree 3 options asked folder 0 2 device 512 4 16 answers entries_ok parsed
      refl refl refl refl (omega (arith, two_recorded)) (omega arith) (omega arith)
