-- ===== src/Ondisk/Node.antt =====
-- Node address entries and nodes of include/f2fs.h (under zns-tools.fs/): the members, their
-- layout, and the struct of a layout's value.
use zns_tools.Base.{ℕ, List, Bool, ◌==◌}
use zns_tools.Ondisk.Layout.{
  Layout, array, packed, ◌▸◌, u8, le16, le32, le64, Val, Fields, pack, apply, blank,
}

-- `struct f2fs_nat_entry`; the whole struct is packed.
pub record NatEntry : Type 0 where
  pub version : ℕ
  pub ino : ℕ
  pub block_addr : ℕ

abbrev pub nat_entry_layout : Layout
nat_entry_layout = u8 ▸ le32 ▸ le32

abbrev pub nat_entry_of : Fields nat_entry_layout NatEntry
nat_entry_of version ino block_addr = record {
  version = version;
  ino = ino;
  block_addr = block_addr;
}

abbrev pub nat_entry_members : NatEntry → Val nat_entry_layout
nat_entry_members r = pack nat_entry_layout r.version r.ino r.block_addr

-- `struct f2fs_extent`: fofs, blk_addr and len.
abbrev pub extent_layout : Layout
extent_layout = le32 ▸ le32 ▸ le32

abbrev pub BlockExtent : Type 0
BlockExtent = Val extent_layout

-- `struct f2fs_inode`; of its two unions the members `i_current_depth` and `i_addr`.
pub record Inode : Type 0 where
  pub i_mode : ℕ
  pub i_advise : ℕ
  pub i_inline : ℕ
  pub i_uid : ℕ
  pub i_gid : ℕ
  pub i_links : ℕ
  pub i_size : ℕ
  pub i_blocks : ℕ
  pub i_atime : ℕ
  pub i_ctime : ℕ
  pub i_mtime : ℕ
  pub i_atime_nsec : ℕ
  pub i_ctime_nsec : ℕ
  pub i_mtime_nsec : ℕ
  pub i_generation : ℕ
  pub i_current_depth : ℕ
  pub i_xattr_nid : ℕ
  pub i_flags : ℕ
  pub i_pino : ℕ
  pub i_namelen : ℕ
  pub i_name : List ℕ
  pub i_dir_level : ℕ
  pub i_ext : BlockExtent
  pub i_addr : List ℕ
  pub i_nid : List ℕ

abbrev pub inode_layout : Layout
inode_layout =
    le16
    ▸ u8
    ▸ u8
    ▸ le32
    ▸ le32
    ▸ le32
    ▸ le64
    ▸ le64
    ▸ le64
    ▸ le64
    ▸ le64
    ▸ le32
    ▸ le32
    ▸ le32
    ▸ le32
    ▸ le32
    ▸ le32
    ▸ le32
    ▸ le32
    ▸ le32
    ▸ array 255 u8
    ▸ u8
    ▸ packed extent_layout
    ▸ array 923 le32
    ▸ array 5 le32

abbrev pub inode_of : Fields inode_layout Inode
inode_of i_mode i_advise i_inline i_uid i_gid i_links i_size i_blocks i_atime i_ctime i_mtime
      i_atime_nsec i_ctime_nsec i_mtime_nsec i_generation i_current_depth i_xattr_nid i_flags i_pino
      i_namelen i_name i_dir_level i_ext i_addr i_nid =
    record {
      i_mode = i_mode;
      i_advise = i_advise;
      i_inline = i_inline;
      i_uid = i_uid;
      i_gid = i_gid;
      i_links = i_links;
      i_size = i_size;
      i_blocks = i_blocks;
      i_atime = i_atime;
      i_ctime = i_ctime;
      i_mtime = i_mtime;
      i_atime_nsec = i_atime_nsec;
      i_ctime_nsec = i_ctime_nsec;
      i_mtime_nsec = i_mtime_nsec;
      i_generation = i_generation;
      i_current_depth = i_current_depth;
      i_xattr_nid = i_xattr_nid;
      i_flags = i_flags;
      i_pino = i_pino;
      i_namelen = i_namelen;
      i_name = i_name;
      i_dir_level = i_dir_level;
      i_ext = i_ext;
      i_addr = i_addr;
      i_nid = i_nid;
    }

abbrev pub inode_members : Inode → Val inode_layout
inode_members r =
    pack inode_layout r.i_mode r.i_advise r.i_inline r.i_uid r.i_gid r.i_links r.i_size r.i_blocks
      r.i_atime r.i_ctime r.i_mtime r.i_atime_nsec r.i_ctime_nsec r.i_mtime_nsec r.i_generation
      r.i_current_depth r.i_xattr_nid r.i_flags r.i_pino r.i_namelen r.i_name r.i_dir_level r.i_ext
      r.i_addr r.i_nid

-- `struct node_footer`
pub record NodeFooter : Type 0 where
  pub nid : ℕ
  pub ino : ℕ
  pub flag : ℕ
  pub cp_ver : ℕ
  pub next_blkaddr : ℕ

abbrev pub footer_layout : Layout
footer_layout = le32 ▸ le32 ▸ le32 ▸ packed le64 ▸ le32

abbrev pub footer_of : Fields footer_layout NodeFooter
footer_of nid ino flag cp_ver next_blkaddr = record {
  nid = nid;
  ino = ino;
  flag = flag;
  cp_ver = cp_ver;
  next_blkaddr = next_blkaddr;
}

abbrev pub footer_members : NodeFooter → Val footer_layout
footer_members r = pack footer_layout r.nid r.ino r.flag r.cp_ver r.next_blkaddr

-- NAT_ENTRY_PER_BLOCK: 4096 / 9
abbrev pub nat_entry_per_block : ℕ
nat_entry_per_block = 455

-- `struct f2fs_nat_block`: its entries.
abbrev pub nat_block_layout : Layout
nat_block_layout = array nat_entry_per_block (packed nat_entry_layout)

-- `struct f2fs_node`, of whose union the inode is read.
pub record Node : Type 0 where
  pub i : Inode
  pub footer : NodeFooter

abbrev pub node_layout : Layout
node_layout = inode_layout ▸ footer_layout

abbrev pub node_of : Val node_layout → Node
node_of (i, footer) = record {
  i = apply inode_layout inode_of i;
  footer = apply footer_layout footer_of footer;
}

abbrev pub node_members : Node → Val node_layout
node_members r = (inode_members r.i, footer_members r.footer)

-- IS_INODE
abbrev pub is_inode : Node → Bool
is_inode node = node.footer.nid == node.footer.ino

-- A node whose bytes are all zero.
abbrev pub zero_node : Node
zero_node = node_of (blank node_layout)
