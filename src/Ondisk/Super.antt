-- ===== src/Ondisk/Super.antt =====
-- The superblock of include/f2fs.h (under zns-tools.fs/): the members, their layout, and the struct
-- of a layout's value.
use zns_tools.Base.{ℕ, none, some, List, [], ◌∷◌, Text, get_elem?, ◌==◌, if◌then◌else◌}
use zns_tools.Ondisk.Layout.{
  Layout, array, packed, ◌▸◌, u8, le16, le32, le64, Val, Fields, pack, apply, blank,
}

-- F2FS_MAX_EXTENSION and MAX_DEVICES
abbrev pub f2fs_max_extension : ℕ
f2fs_max_extension = 64

abbrev pub max_devices : ℕ
max_devices = 8

-- `struct f2fs_device`: path and total_segments.
abbrev pub device_layout : Layout
device_layout = array 64 u8 ▸ le32

abbrev pub Device : Type 0
Device = Val device_layout

abbrev pub total_segments : Device → ℕ
total_segments (path, segments) = segments

-- `struct f2fs_super_block`
pub record SuperBlock : Type 0 where
  pub magic : ℕ
  pub major_ver : ℕ
  pub minor_ver : ℕ
  pub log_sectorsize : ℕ
  pub log_sectors_per_block : ℕ
  pub log_blocksize : ℕ
  pub log_blocks_per_seg : ℕ
  pub segs_per_sec : ℕ
  pub secs_per_zone : ℕ
  pub checksum_offset : ℕ
  pub block_count : ℕ
  pub section_count : ℕ
  pub segment_count : ℕ
  pub segment_count_ckpt : ℕ
  pub segment_count_sit : ℕ
  pub segment_count_nat : ℕ
  pub segment_count_ssa : ℕ
  pub segment_count_main : ℕ
  pub segment0_blkaddr : ℕ
  pub cp_blkaddr : ℕ
  pub sit_blkaddr : ℕ
  pub nat_blkaddr : ℕ
  pub ssa_blkaddr : ℕ
  pub main_blkaddr : ℕ
  pub root_ino : ℕ
  pub node_ino : ℕ
  pub meta_ino : ℕ
  pub uuid : List ℕ
  pub volume_name : List ℕ
  pub extension_count : ℕ
  pub extension_list : List (List ℕ)
  pub cp_payload : ℕ
  pub version : List ℕ
  pub init_version : List ℕ
  pub feature : ℕ
  pub encryption_level : ℕ
  pub encrypt_pw_salt : List ℕ
  pub devs : List Device
  pub qf_ino : List ℕ
  pub hot_ext_count : ℕ
  pub s_encoding : ℕ
  pub s_encoding_flags : ℕ
  pub reserved : List ℕ
  pub crc : ℕ

abbrev pub super_block_layout : Layout
super_block_layout =
    le32
    ▸ le16
    ▸ le16
    ▸ le32
    ▸ le32
    ▸ le32
    ▸ le32
    ▸ le32
    ▸ le32
    ▸ le32
    ▸ packed le64
    ▸ le32
    ▸ le32
    ▸ le32
    ▸ le32
    ▸ le32
    ▸ le32
    ▸ le32
    ▸ le32
    ▸ le32
    ▸ le32
    ▸ le32
    ▸ le32
    ▸ le32
    ▸ le32
    ▸ le32
    ▸ le32
    ▸ array 16 u8
    ▸ array 512 le16
    ▸ le32
    ▸ array f2fs_max_extension (array 8 u8)
    ▸ le32
    ▸ array 256 u8
    ▸ array 256 u8
    ▸ le32
    ▸ u8
    ▸ array 16 u8
    ▸ packed (array max_devices device_layout)
    ▸ packed (array 3 le32)
    ▸ u8
    ▸ le16
    ▸ le16
    ▸ array 306 u8
    ▸ le32

abbrev pub super_block_of : Fields super_block_layout SuperBlock
super_block_of magic major_ver minor_ver log_sectorsize log_sectors_per_block log_blocksize
      log_blocks_per_seg segs_per_sec secs_per_zone checksum_offset block_count section_count
      segment_count segment_count_ckpt segment_count_sit segment_count_nat segment_count_ssa
      segment_count_main segment0_blkaddr cp_blkaddr sit_blkaddr nat_blkaddr ssa_blkaddr
      main_blkaddr root_ino node_ino meta_ino uuid volume_name extension_count extension_list
      cp_payload version init_version feature encryption_level encrypt_pw_salt devs qf_ino
      hot_ext_count s_encoding s_encoding_flags reserved crc =
    record {
      magic = magic;
      major_ver = major_ver;
      minor_ver = minor_ver;
      log_sectorsize = log_sectorsize;
      log_sectors_per_block = log_sectors_per_block;
      log_blocksize = log_blocksize;
      log_blocks_per_seg = log_blocks_per_seg;
      segs_per_sec = segs_per_sec;
      secs_per_zone = secs_per_zone;
      checksum_offset = checksum_offset;
      block_count = block_count;
      section_count = section_count;
      segment_count = segment_count;
      segment_count_ckpt = segment_count_ckpt;
      segment_count_sit = segment_count_sit;
      segment_count_nat = segment_count_nat;
      segment_count_ssa = segment_count_ssa;
      segment_count_main = segment_count_main;
      segment0_blkaddr = segment0_blkaddr;
      cp_blkaddr = cp_blkaddr;
      sit_blkaddr = sit_blkaddr;
      nat_blkaddr = nat_blkaddr;
      ssa_blkaddr = ssa_blkaddr;
      main_blkaddr = main_blkaddr;
      root_ino = root_ino;
      node_ino = node_ino;
      meta_ino = meta_ino;
      uuid = uuid;
      volume_name = volume_name;
      extension_count = extension_count;
      extension_list = extension_list;
      cp_payload = cp_payload;
      version = version;
      init_version = init_version;
      feature = feature;
      encryption_level = encryption_level;
      encrypt_pw_salt = encrypt_pw_salt;
      devs = devs;
      qf_ino = qf_ino;
      hot_ext_count = hot_ext_count;
      s_encoding = s_encoding;
      s_encoding_flags = s_encoding_flags;
      reserved = reserved;
      crc = crc;
    }

abbrev pub super_block_members : SuperBlock → Val super_block_layout
super_block_members r =
    pack super_block_layout r.magic r.major_ver r.minor_ver r.log_sectorsize r.log_sectors_per_block
      r.log_blocksize r.log_blocks_per_seg r.segs_per_sec r.secs_per_zone r.checksum_offset
      r.block_count r.section_count r.segment_count r.segment_count_ckpt r.segment_count_sit
      r.segment_count_nat r.segment_count_ssa r.segment_count_main r.segment0_blkaddr r.cp_blkaddr
      r.sit_blkaddr r.nat_blkaddr r.ssa_blkaddr r.main_blkaddr r.root_ino r.node_ino r.meta_ino
      r.uuid r.volume_name r.extension_count r.extension_list r.cp_payload r.version r.init_version
      r.feature r.encryption_level r.encrypt_pw_salt r.devs r.qf_ino r.hot_ext_count r.s_encoding
      r.s_encoding_flags r.reserved r.crc

-- The string that `%s` shows of bytes: what stands before the first zero.
abbrev pub c_string : List ℕ → Text
c_string [] = []
c_string (x ∷ xs) = let rest = c_string xs in if x == 0 then [] else x ∷ rest

-- `f2fs_sb.devs[i].path`
abbrev pub device_path : SuperBlock → ℕ → Text
device_path sb i = elim (get_elem? sb.devs i) [ none ↦ [] | some (path, segments) ↦ c_string path ]

-- `f2fs_sb` before it is read.
abbrev pub zero_super : SuperBlock
zero_super = apply super_block_layout super_block_of (blank super_block_layout)
