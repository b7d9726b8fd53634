-- ===== src/Programs/Tests/F2fs.antt =====
-- zns.fiemap on a file of F2FS: the superblock as bytes on the first device.
use zns_tools.Base.{◌≡◌, refl, true, none, some, [], ◌∷◌, List, inl, drop, text_eq, arith}
use zns_tools.Types.{Control, returned}
use zns_tools.Device.{get_dev_size}
use zns_tools.Fixtures.{zone_3}
use zns_tools.Fiemap.{is_recorded}
use zns_tools.Fiemap.Collect.{recorded}
use zns_tools.Fiemap.Tests.{file, fiemap, file-IsLayout}
use zns_tools.Gather.State.{IsFile}
use zns_tools.Ondisk.Layout.{encode, decode, put_word, put_all, get_word, get_all, size_of}
use zns_tools.Ondisk.Super.{device_path}
use zns_tools.Ondisk.Read.{f2fs_read_block, overlay, read_struct, read_super}
use zns_tools.Setup.{init_f2fs}
use zns_tools.Setup.Mount.{AnswersAs}
use zns_tools.Setup.F2fs.{OnF2fs, MountedF2fs, init_f2fs-MountedF2fs}
use zns_tools.Programs.{zero_ctrl}
use zns_tools.Programs.Tests.{path, st}
use zns_tools.Programs.Tests.Image.{f2fs, f2fs_system, super_block}
use zns_tools.Programs.Extents as Extents
use zns_tools.Programs.Extents.Report.{Reported}
use zns_tools.Programs.Extents.F2fs.{behind_first, main-Reported_f2fs}

super_read : read_super (f2fs_system.devices []) ≡ some super_block
unfolding read_super read_struct f2fs_read_block overlay encode decode put_word put_all get_word
    get_all size_of text_eq
super_read = refl

on_f2fs : OnF2fs f2fs f2fs_system.devices st super_block 512
unfolding text_eq
on_f2fs = record {
  link = 47 ∷ 97 ∷ [];
  opens = refl;
  links = refl;
  short = refl;
  super = super_read;
  first_short = refl;
  first_opens = refl;
  first_size = 512;
  first_sectors = refl;
  together = λ large. cc;
}

answers : AnswersAs f2fs (drop 5 (device_path super_block 1)) 512 4 16
answers = record {
  short = omega arith;
  opens = refl;
  sectors = refl;
  known = inl refl;
  zone_size = refl;
  aligned = omega arith;
  small = omega arith;
  zones = refl;
  room = omega arith;
  reports = λ start n. (zone_3 ∷ [], refl);
}

init_f2fs-MountedF2fs_example :
    MountedF2fs f2fs f2fs_system.devices none zero_ctrl st super_block 512 4 16 on_f2fs answers
      (init_f2fs f2fs f2fs_system.devices none zero_ctrl st)
init_f2fs-MountedF2fs_example =
    init_f2fs-MountedF2fs f2fs f2fs_system.devices none zero_ctrl st super_block 512 4 16 on_f2fs
      answers refl refl refl

abbrev whole_file : IsFile (behind_first f2fs_system super_block) 262144 2 fiemap 2048
whole_file = record {
  file = file;
  answers = λ start len. refl;
  layout = file-IsLayout;
  holes = (omega arith, (omega arith, tt));
  word = omega arith;
  enough = omega arith;
  inside = ((omega arith, omega arith), ((omega arith, omega arith), tt));
}

abbrev options : List Extents.Opt
options = Extents.show_holes ∷ Extents.file path ∷ []

abbrev asked : Control
asked = record zero_ctrl { show_holes = true }

parsed : Extents.parse_args options ≡ returned (asked, path)
unfolding Extents.parse_args Extents.set_option
parsed = refl

two_recorded : recorded (behind_first f2fs_system super_block) file ≡ 2
unfolding recorded is_recorded get_dev_size
two_recorded = refl

main-Reported_f2fs_example :
    Reported f2fs
      (recorded (behind_first f2fs_system super_block) file)
      true
      (Extents.main f2fs_system 2 options)
main-Reported_f2fs_example =
    main-Reported_f2fs f2fs_system 2 path 2048 super_block options asked st 512 4 16 on_f2fs answers
      whole_file parsed refl refl refl (omega (arith, two_recorded)) (omega arith)
