-- ===== src/Programs/Tests.antt =====
-- zns.fiemap and zns.imap on concrete files.
mod Directory
mod Image
mod F2fs
use zns_tools.Base.{
  ℕ, ◌≡◌, refl, true, false, Option, some, none, List, [], ◌∷◌, Text, inl, if◌then◌else◌, ◌==◌, ◌-◌,
  ◌++◌, length, map, text_eq, arith,
}
use zns_tools.Types.{Control, returned}
use zns_tools.Device.{Kernel, f2fs_magic, btrfs_magic}
use zns_tools.Zones.{ZoneInfo, zone_info, print_zone_info}
use zns_tools.Fixtures.{kernel, zone_3}
use zns_tools.Fiemap.Tests.{file, fiemap, file-IsLayout}
use zns_tools.Gather.State.{IsFile}
use zns_tools.Setup.{Stat}
use zns_tools.Setup.Btrfs.{AnswersAs, Mounted, init_btrfs-Mounted}
use zns_tools.Setup.{init_btrfs}
use zns_tools.Programs.{System, zero_ctrl, set_up, open_file}
use zns_tools.Programs.Inode as Inode
use zns_tools.Programs.Inode.{Opened, opened}
use zns_tools.NodeTable.{nat_blocks}
use zns_tools.Ondisk.Layout.{encode, decode, copies, put_word, put_all, get_word, get_all, size_of}
use zns_tools.Ondisk.Super.{Device, SuperBlock, zero_super, super_block_layout, super_block_members}
use zns_tools.Ondisk.Node.{NatEntry, nat_entry_members, Node, node_layout, node_members, zero_node}
use zns_tools.Ondisk.Read.{
  BlockDevice, block_layout, f2fs_read_block, overlay, read_struct, read_super,
}
use zns_tools.Programs.Inode.Found.{Printed, main-Printed}
use zns_tools.Setup.{
  init_ctrl, init_f2fs, init_dev, load_super, f2fs_read_super_block, set_super_block_info,
  set_fs_magic, init_znsdev, set_geometry,
}
use zns_tools.Device.{
  is_zoned, get_sector_size, get_dev_size, get_zone_size, get_nr_zones, init_zone, init_zones,
  init_zone_map,
}
use zns_tools.Types.{Run, exited, faulted}
use zns_tools.Programs.Extents as Extents
use zns_tools.Programs.Extents.Report.{Reported, main-Reported}

abbrev pub btrfs : Kernel
btrfs = record kernel { file_system = λ path. some btrfs_magic }

abbrev pub device : Text
device = 110 ∷ []

abbrev pub path : Text
path = 102 ∷ []

abbrev pub st : Stat
st = record { major = 0; minor = 0; is_dir = false }

abbrev pub unread : BlockDevice
unread = record { seeks = λ offset. false; reads = λ offset size. none }

abbrev pub system : System
system = record {
  kernel = btrfs;
  stat = λ path. some (st, 2048);
  inode_number = λ path. 7;
  fiemap = λ path. fiemap;
  devices = λ path. unread;
  scanned = some device;
}

abbrev pub answers : AnswersAs btrfs device 512 4 16
answers = record {
  short = omega arith;
  opens = refl;
  sectors = refl;
  known = inl refl;
  zone_size = refl;
  aligned = omega arith;
  small = omega arith;
  zones = refl;
  room = omega arith;
  reports = λ start n. (zone_3 ∷ [], refl);
}

init_btrfs-Mounted_example :
    Mounted btrfs device 512 4 16 answers zero_ctrl
      (init_btrfs btrfs (λ path. unread) (some device) zero_ctrl)
init_btrfs-Mounted_example =
    init_btrfs-Mounted btrfs device 512 4 16 answers (λ path. unread) zero_ctrl refl refl refl

abbrev whole_file : IsFile zero_ctrl 262144 2 fiemap 2048
whole_file = record {
  file = file;
  answers = λ start len. refl;
  layout = file-IsLayout;
  holes = (omega arith, (omega arith, tt));
  word = omega arith;
  enough = omega arith;
  inside = ((omega arith, omega arith), ((omega arith, omega arith), tt));
}

abbrev options : List Extents.Opt
options = Extents.show_holes ∷ Extents.file path ∷ []

abbrev asked : Control
asked = record zero_ctrl { show_holes = true }

parsed : Extents.parse_args options ≡ returned (asked, path)
unfolding Extents.parse_args Extents.set_option
parsed = refl

main-Reported_example : Reported btrfs 2 true (Extents.main system 2 options)
main-Reported_example =
    main-Reported system 2 path 2048 options asked st device 512 4 16 answers whole_file parsed refl
      refl refl refl (omega arith) (omega arith)
