-- ===== src/Listings.antt =====
-- The listings of lib/libf2fs.c and show_extent_flags of lib/libzns-tools.c (under zns-tools.fs/), as
-- the lines they print: a line's label and its values.
pub mod Flags
mod Tests
use Prim.Native.String.{String}
use zns_tools.Base.{
  ℕ, zero, suc, ◌+◌, Bool, true, false, Option, none, some, List, [], ◌∷◌, ◌++◌, Text,
  if◌then◌else◌, ◌==◌, bit_and, drop, get_elem?,
}
use zns_tools.Ondisk.Layout.{encode}
use zns_tools.Ondisk.Super.{
  SuperBlock, super_block_layout, super_block_members, Device, total_segments, c_string,
  f2fs_max_extension,
}
use zns_tools.Ondisk.Checkpoint.{Checkpoint}
use zns_tools.Ondisk.Node.{Inode, inode_layout, inode_members}

-- %u, %#x, %s, and names or strings in a row. `devices` is without a line break behind it when
-- `broken` is false.
pub data Line : Type 0 where
  number : String → ℕ → Line
  address : String → ℕ → Line
  text : String → Text → Line
  names : String → List String → Line
  texts : String → List Text → Line
  devices : List Text → Bool → Line

-- The names of the flags that are set.
unfoldable pub flag_names : List (String × ℕ) → ℕ → List String
flag_names [] flags = []
flag_names ((name, mask) ∷ table) flags =
    let rest = flag_names table flags in if bit_and flags mask == 0 then rest else name ∷ rest

-- The flags of <linux/fiemap.h> that are named.
abbrev pub extent_flags : List (String × ℕ)
extent_flags =
    ("FIEMAP_EXTENT_UNKNOWN", 0x2)
    ∷ ("FIEMAP_EXTENT_DELALLOC", 0x4)
    ∷ ("FIEMAP_EXTENT_ENCODED", 0x8)
    ∷ ("FIEMAP_EXTENT_DATA_ENCRYPTED", 0x80)
    ∷ ("FIEMAP_EXTENT_NOT_ALIGNED", 0x100)
    ∷ ("FIEMAP_EXTENT_DATA_INLINE", 0x200)
    ∷ ("FIEMAP_EXTENT_DATA_TAIL", 0x400)
    ∷ ("FIEMAP_EXTENT_UNWRITTEN", 0x800)
    ∷ ("FIEMAP_EXTENT_MERGED", 0x1000)
    ∷ []

unfoldable pub show_extent_flags : ℕ → Line
show_extent_flags flags = names "FLAGS" (flag_names extent_flags flags)

abbrev pub fadvise_flags : List (String × ℕ)
fadvise_flags =
    ("FADVISE_COLD_BIT", 0x01)
    ∷ ("FADVISE_LOST_PINO_BIT", 0x02)
    ∷ ("FADVISE_ENCRYPT_BIT", 0x04)
    ∷ ("FADVISE_ENC_NAME_BIT", 0x08)
    ∷ ("FADVISE_KEEP_SIZE_BIT", 0x10)
    ∷ ("FADVISE_HOT_BIT", 0x20)
    ∷ ("FADVISE_VERITY_BIT", 0x40)
    ∷ ("FADVISE_TRUNC_BIT", 0x80)
    ∷ []

unfoldable pub show_inode_fadvise_flags : Inode → Line
show_inode_fadvise_flags inode = names "i_advise" (flag_names fadvise_flags inode.i_advise)

abbrev pub inode_flags : List (String × ℕ)
inode_flags =
    ("F2FS_COMPR_FL", 0x00000004)
    ∷ ("F2FS_SYNC_FL", 0x00000008)
    ∷ ("F2FS_IMMUTABLE_FL", 0x00000010)
    ∷ ("F2FS_APPEND_FL", 0x00000020)
    ∷ ("F2FS_NODUMP_FL", 0x00000040)
    ∷ ("F2FS_NOATIME_FL", 0x00000080)
    ∷ ("F2FS_NOCOMP_FL", 0x00000400)
    ∷ ("F2FS_INDEX_FL", 0x00001000)
    ∷ ("F2FS_DIRSYNC_FL", 0x00010000)
    ∷ ("F2FS_PROJINHERIT_FL", 0x20000000)
    ∷ ("F2FS_CASEFOLD_FL", 0x40000000)
    ∷ []

unfoldable pub show_inode_flags : Inode → Line
show_inode_flags inode = names "i_flags" (flag_names inode_flags inode.i_flags)

-- An item of an array of numbers.
abbrev pub item : List ℕ → ℕ → ℕ
item xs i = elim (get_elem? xs i) [ none ↦ 0 | some n ↦ n ]

-- The string at an offset of a struct: it runs on past its member if no zero ends it there.
abbrev pub text_at : List ℕ → ℕ → Text
text_at bytes offset = c_string (drop offset bytes)

-- `extension_list[i]`, for the `n` entries from an offset on.
unfoldable pub extensions_at : ℕ → List ℕ → ℕ → List Text
extensions_at zero bytes offset = []
extensions_at (suc n) bytes offset = text_at bytes offset ∷ extensions_at n bytes (offset + 8)

-- The paths of the devices up to the first without segments, and whether there is one.
unfoldable pub device_paths : List Device → List ℕ → ℕ → List Text × Bool
device_paths [] bytes offset = ([], false)
device_paths (d ∷ ds) bytes offset =
    let rest = device_paths ds bytes (offset + 68) in
    if total_segments d == 0 then ([], true) else (text_at bytes offset ∷ rest.0, rest.1)

abbrev pub super_bytes : SuperBlock → List ℕ
super_bytes sb = encode super_block_layout (super_block_members sb)

unfoldable pub f2fs_show_super_block : SuperBlock → List Line
f2fs_show_super_block sb =
    let bytes = super_bytes sb in
    let devs = device_paths sb.devs bytes 2201 in
    address "magic" sb.magic
    ∷ number "major_version" sb.major_ver
    ∷ number "minor_version" sb.minor_ver
    ∷ number "log_sectorsize" sb.log_sectorsize
    ∷ number "log_sectors_per_block" sb.log_sectors_per_block
    ∷ number "log_blocksize" sb.log_blocksize
    ∷ number "log_blocks_per_seg" sb.log_blocks_per_seg
    ∷ number "segs_per_sec" sb.segs_per_sec
    ∷ number "secs_per_zone" sb.secs_per_zone
    ∷ number "checksum_offset" sb.checksum_offset
    ∷ number "block_count" sb.block_count
    ∷ number "section_count" sb.section_count
    ∷ number "segment_count" sb.segment_count
    ∷ number "segment_count_ckpt" sb.segment_count_ckpt
    ∷ number "segment_count_sit" sb.segment_count_sit
    ∷ number "segment_count_nat" sb.segment_count_nat
    ∷ number "segment_count_ssa" sb.segment_count_ssa
    ∷ number "segment_count_main" sb.segment_count_main
    ∷ address "segment0_blkaddr" sb.segment0_blkaddr
    ∷ address "cp_blkaddr" sb.cp_blkaddr
    ∷ address "sit_blkaddr" sb.sit_blkaddr
    ∷ address "nat_blkaddr" sb.nat_blkaddr
    ∷ address "ssa_blkaddr" sb.ssa_blkaddr
    ∷ address "main_blkaddr" sb.main_blkaddr
    ∷ number "root_ino" sb.root_ino
    ∷ number "node_ino" sb.node_ino
    ∷ number "meta_ino" sb.meta_ino
    ∷ number "extension_count" sb.extension_count
    ∷ texts "Extensions" (extensions_at f2fs_max_extension bytes 1152)
    ∷ number "cp_payload" sb.cp_payload
    ∷ text "version" (text_at bytes 1668)
    ∷ text "init_version" (text_at bytes 1924)
    ∷ number "feature" sb.feature
    ∷ number "encryption_level" sb.encryption_level
    ∷ text "encrypt_pw_salt" (text_at bytes 2185)
    ∷ devices devs.0 devs.1
    ∷ number "hot_ext_count" sb.hot_ext_count
    ∷ number "s_encoding" sb.s_encoding
    ∷ number "s_encoding_flags" sb.s_encoding_flags
    ∷ number "crc" sb.crc
    ∷ []

unfoldable pub f2fs_show_checkpoint : Checkpoint → List Line
f2fs_show_checkpoint cp =
    number "checkpoint_ver" cp.checkpoint_ver
    ∷ number "user_block_count" cp.user_block_count
    ∷ number "valid_block_count" cp.valid_block_count
    ∷ number "rsvd_segment_count" cp.rsvd_segment_count
    ∷ number "overprov_segment_count" cp.overprov_segment_count
    ∷ number "free_segment_count" cp.free_segment_count
    ∷ number "ckpt_flags" cp.ckpt_flags
    ∷ number "cp_pack_total_block_count" cp.cp_pack_total_block_count
    ∷ number "cp_pack_start_sum" cp.cp_pack_start_sum
    ∷ number "valid_node_count" cp.valid_node_count
    ∷ number "valid_inode_count" cp.valid_inode_count
    ∷ number "next_free_nid" cp.next_free_nid
    ∷ number "sit_ver_bitmap_bytesize" cp.sit_ver_bitmap_bytesize
    ∷ number "nat_ver_bitmap_bytesize" cp.nat_ver_bitmap_bytesize
    ∷ number "checksum_offset" cp.checksum_offset
    ∷ number "elapsed_time" cp.elapsed_time
    ∷ number "alloc_type[CURSEG_HOT_NODE]" (item cp.alloc_type 3)
    ∷ number "alloc_type[CURSEG_WARM_NODE]" (item cp.alloc_type 4)
    ∷ number "alloc_type[CURSEG_COLD_NODE]" (item cp.alloc_type 5)
    ∷ number "cur_node_segno[0]" (item cp.cur_node_segno 0)
    ∷ number "cur_node_segno[1]" (item cp.cur_node_segno 1)
    ∷ number "cur_node_segno[2]" (item cp.cur_node_segno 2)
    ∷ number "cur_node_blkoff[0]" (item cp.cur_node_blkoff 0)
    ∷ number "cur_node_blkoff[1]" (item cp.cur_node_blkoff 1)
    ∷ number "cur_node_blkoff[2]" (item cp.cur_node_blkoff 2)
    ∷ number "alloc_type[CURSEG_HOT_DATA]" (item cp.alloc_type 0)
    ∷ number "alloc_type[CURSEG_WARM_DATA]" (item cp.alloc_type 1)
    ∷ number "alloc_type[CURSEG_COLD_DATA]" (item cp.alloc_type 2)
    ∷ number "cur_data_segno[0]" (item cp.cur_data_segno 0)
    ∷ number "cur_data_segno[1]" (item cp.cur_data_segno 1)
    ∷ number "cur_data_segno[2]" (item cp.cur_data_segno 2)
    ∷ number "cur_data_blkoff[0]" (item cp.cur_data_blkoff 0)
    ∷ number "cur_data_blkoff[1]" (item cp.cur_data_blkoff 1)
    ∷ number "cur_data_blkoff[2]" (item cp.cur_data_blkoff 2)
    ∷ []

unfoldable pub f2fs_show_inode_info : Inode → List Line
unfolding show_inode_fadvise_flags show_inode_flags
f2fs_show_inode_info inode =
    let bytes = encode inode_layout (inode_members inode) in
    number "i_mode" inode.i_mode
    ∷ show_inode_fadvise_flags inode
    ∷ number "i_inline" inode.i_inline
    ∷ number "i_uid" inode.i_uid
    ∷ number "i_gid" inode.i_gid
    ∷ number "i_links" inode.i_links
    ∷ number "i_size" inode.i_size
    ∷ number "i_blocks" inode.i_blocks
    ∷ number "i_atime" inode.i_atime
    ∷ number "i_ctime" inode.i_ctime
    ∷ number "i_mtime" inode.i_mtime
    ∷ number "i_atime_nsec" inode.i_atime_nsec
    ∷ number "i_ctime_nsec" inode.i_ctime_nsec
    ∷ number "i_mtime_nsec" inode.i_mtime_nsec
    ∷ number "i_generation" inode.i_generation
    ∷ number "i_xattr_nid" inode.i_xattr_nid
    ∷ show_inode_flags inode
    ∷ number "i_flags" inode.i_flags
    ∷ number "i_pino" inode.i_pino
    ∷ number "i_namelen" inode.i_namelen
    ∷ text "i_name" (text_at bytes 92)
    ∷ number "i_dir_level" inode.i_dir_level
    ∷ number "i_nid[0] (direct)" (item inode.i_nid 0)
    ∷ number "i_nid[1] (direct)" (item inode.i_nid 1)
    ∷ number "i_nid[2] (indirect)" (item inode.i_nid 2)
    ∷ number "i_nid[3] (indirect)" (item inode.i_nid 3)
    ∷ number "i_nid[4] (2x indirect)" (item inode.i_nid 4)
    ∷ []
