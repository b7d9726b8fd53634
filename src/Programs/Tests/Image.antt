-- ===== src/Programs/Tests/Image.antt =====
-- zns.imap on a file of F2FS: a superblock, a table block and a node as bytes on two devices.
use zns_tools.Base.{
  ℕ, ◌-◌, ◌≡◌, ◌==◌, refl, true, Option, some, List, [], ◌∷◌, ◌++◌, length, map, text_eq,
  if◌then◌else◌, arith, Text,
}
use zns_tools.Types.{Zone, returned}
use zns_tools.Device.{
  Kernel, is_zoned, get_sector_size, get_dev_size, get_zone_size, get_nr_zones, init_zone,
  init_zones, init_zone_map,
}
use zns_tools.Zones.{ZoneInfo, zone_info, print_zone_info}
use zns_tools.Fixtures.{kernel, zone_3, control, zone_with}
use zns_tools.NodeTable.{nat_blocks, nat_block_address, node_offset}
use zns_tools.Ondisk.Layout.{encode, decode, copies, put_word, put_all, get_word, get_all, size_of}
use zns_tools.Ondisk.Super.{Device, SuperBlock, zero_super, super_block_layout, super_block_members}
use zns_tools.Ondisk.Node.{NatEntry, nat_entry_members, Node, node_layout, node_members, zero_node}
use zns_tools.Ondisk.Read.{
  BlockDevice, block_layout, f2fs_read_block, overlay, read_struct, read_super, read_nat_block,
  read_node,
}
use zns_tools.Setup.{
  init_ctrl, init_f2fs, init_dev, load_super, f2fs_read_super_block, set_super_block_info,
  set_fs_magic, init_znsdev, set_geometry,
}
use zns_tools.Programs.{System, zero_ctrl, set_up, open_file}
use zns_tools.Programs.Tests.{system, path}
use zns_tools.Programs.Inode as Inode
use zns_tools.Programs.Inode.{Opened, opened, entry_at, disk_of, super_of}
use zns_tools.Programs.Inode.Found.{Printed, main-Printed}

-- A file of F2FS: the superblock names the devices a and n.
abbrev pub f2fs : Kernel
f2fs = record kernel {
  read_link = λ path. some (47 ∷ 97 ∷ []);
  file_system = λ path. some 0xF2F52010;
}

-- A device that has a struct wherever it is read, by the size that is asked for.
abbrev pub holding : (ℕ → List ℕ) → BlockDevice
holding bytes = record { seeks = λ offset. true; reads = λ offset size. some (bytes size) }

abbrev pub device_of : Text → ℕ → Device
device_of path segments = (path ++ copies (64 - length path) 0, segments)

abbrev pub super_block : SuperBlock
super_block = record zero_super {
  segment_count_nat = 2;
  segment_count_main = 8;
  nat_blkaddr = 100;
  cp_blkaddr = 10;
  devs =
      device_of (47 ∷ 100 ∷ 101 ∷ 118 ∷ 47 ∷ 97 ∷ []) 8
      ∷ device_of (47 ∷ 100 ∷ 101 ∷ 118 ∷ 47 ∷ 110 ∷ []) 8
      ∷ copies 6 (device_of [] 0);
}

-- Inode 7 has entry 3 of the table's block.
abbrev pub entries : List NatEntry
entries =
    let none : NatEntry = record { version = 0; ino = 0; block_addr = 0 } in
    none ∷ none ∷ none ∷ record { version = 0; ino = 7; block_addr = 5000 } ∷ copies 451 none

abbrev pub node_7 : Node
node_7 = record zero_node { footer = record zero_node.footer { nid = 7; ino = 7 } }

abbrev pub first_device : BlockDevice
first_device = holding λ size.
    if size == 3072
    then encode super_block_layout (super_block_members super_block)
    else encode block_layout (map nat_entry_members entries, 0)

abbrev pub zns_device : BlockDevice
zns_device = holding λ size. encode node_layout (node_members node_7)

abbrev pub f2fs_system : System
f2fs_system = record system {
  kernel = f2fs;
  devices = λ path.
      if text_eq path (47 ∷ 100 ∷ 101 ∷ 118 ∷ 47 ∷ 110 ∷ []) then zns_device else first_device;
}

abbrev inode_options : List Inode.Opt
inode_options = Inode.file path ∷ []

abbrev no_zone : ℕ → Zone
no_zone n = record (zone_with 0 []) { zone_number = n; end = 0; capacity = 0; state = 0 }

abbrev mounted : Opened
mounted =
    opened
      (record zero_ctrl {
        bdev = record control.bdev {
          dev_name = 97 ∷ [];
          dev_path = 47 ∷ 100 ∷ 101 ∷ 118 ∷ 47 ∷ 97 ∷ [];
          link_name = 47 ∷ 97 ∷ [];
          nr_zones = 0;
          zone_size = 0;
          zone_mask = 0;
        };
        znsdev = record control.znsdev { dev_path = 47 ∷ 100 ∷ 101 ∷ 118 ∷ 47 ∷ 110 ∷ [] };
        multi_dev = true;
        fs_magic = 0xF2F52010;
        sector_size = 512;
        sector_shift = 9;
        f2fs_segment_sectors = 4096;
        f2fs_segment_mask = 18446744073709547520;
        segment_shift = 12;
        offset = 4096;
        zonemap = some (record {
          nr_zones = 4;
          extent_ctr = 0;
          cum_extent_size = 0;
          zone_ctr = 0;
          zones =
              record (zone_with 0 []) { start = 196608; end = 256608 }
              ∷ no_zone 1
              ∷ no_zone 2
              ∷ no_zone 3
              ∷ [];
        });
      })
      path super_block []

prepared : Inode.prepare f2fs_system inode_options ≡ returned mounted
unfolding Inode.prepare Inode.parse_args Inode.set_option set_up open_file init_ctrl init_f2fs
    init_dev f2fs_read_super_block set_super_block_info set_fs_magic init_znsdev set_geometry
    is_zoned get_sector_size get_dev_size get_zone_size get_nr_zones init_zone init_zones
    init_zone_map text_eq encode decode Inode.super_of read_super load_super read_struct
    f2fs_read_block put_word put_all get_word get_all overlay size_of
prepared = refl

tables :
    (buffer : List ℕ) (block : ℕ)
    → (buffer' : List ℕ) × ((disk_of f2fs_system mounted.ctrl).nat_block buffer
          (nat_block_address mounted.f2fs_sb block)
        ≡ some (buffer', entry_at entries))
unfolding disk_of read_nat_block read_struct f2fs_read_block overlay encode decode put_word put_all
    get_word get_all size_of text_eq
tables buffer block = (_, refl)

nodes : (address : ℕ) → (disk_of f2fs_system mounted.ctrl).node (node_offset address) ≡ some node_7
unfolding disk_of read_node read_struct f2fs_read_block overlay encode decode put_word put_all
    get_word get_all size_of text_eq
nodes address = refl

zones_printed :
    (zone : ℕ) → (z : Option ZoneInfo) × (print_zone_info f2fs mounted.ctrl zone ≡ returned z)
unfolding print_zone_info
zones_printed zone = (some (zone_info mounted.ctrl zone zone_3), refl)

one_block : nat_blocks super_block ≡ 1
unfolding nat_blocks
one_block = refl

main-Printed_example :
    Printed f2fs_system
      (λ block. entry_at entries)
      (λ address. node_7)
      7
      (Inode.main f2fs_system 4 inode_options)
main-Printed_example =
    main-Printed f2fs_system (λ block. entry_at entries) (λ address. node_7) inode_options 4 mounted
      0 3 prepared tables nodes zones_printed (omega arith) refl refl (omega (arith, one_block))
      (omega (arith, one_block)) (omega arith)
