-- ===== src/Ondisk/Checkpoint.antt =====
-- The checkpoint of include/f2fs.h (under zns-tools.fs/): the members, their layout, and the struct
-- of a layout's value.
use zns_tools.Base.{ℕ, List}
use zns_tools.Ondisk.Layout.{Layout, array, ◌▸◌, u8, le16, le32, le64, Val, Fields, pack}

-- `struct f2fs_checkpoint`, without the bitmap behind it.
pub record Checkpoint : Type 0 where
  pub checkpoint_ver : ℕ
  pub user_block_count : ℕ
  pub valid_block_count : ℕ
  pub rsvd_segment_count : ℕ
  pub overprov_segment_count : ℕ
  pub free_segment_count : ℕ
  pub cur_node_segno : List ℕ
  pub cur_node_blkoff : List ℕ
  pub cur_data_segno : List ℕ
  pub cur_data_blkoff : List ℕ
  pub ckpt_flags : ℕ
  pub cp_pack_total_block_count : ℕ
  pub cp_pack_start_sum : ℕ
  pub valid_node_count : ℕ
  pub valid_inode_count : ℕ
  pub next_free_nid : ℕ
  pub sit_ver_bitmap_bytesize : ℕ
  pub nat_ver_bitmap_bytesize : ℕ
  pub checksum_offset : ℕ
  pub elapsed_time : ℕ
  pub alloc_type : List ℕ

abbrev pub checkpoint_layout : Layout
checkpoint_layout =
    le64
    ▸ le64
    ▸ le64
    ▸ le32
    ▸ le32
    ▸ le32
    ▸ array 8 le32
    ▸ array 8 le16
    ▸ array 8 le32
    ▸ array 8 le16
    ▸ le32
    ▸ le32
    ▸ le32
    ▸ le32
    ▸ le32
    ▸ le32
    ▸ le32
    ▸ le32
    ▸ le32
    ▸ le64
    ▸ array 16 u8

abbrev pub checkpoint_of : Fields checkpoint_layout Checkpoint
checkpoint_of checkpoint_ver user_block_count valid_block_count rsvd_segment_count
      overprov_segment_count free_segment_count cur_node_segno cur_node_blkoff cur_data_segno
      cur_data_blkoff ckpt_flags cp_pack_total_block_count cp_pack_start_sum valid_node_count
      valid_inode_count next_free_nid sit_ver_bitmap_bytesize nat_ver_bitmap_bytesize
      checksum_offset elapsed_time alloc_type =
    record {
      checkpoint_ver = checkpoint_ver;
      user_block_count = user_block_count;
      valid_block_count = valid_block_count;
      rsvd_segment_count = rsvd_segment_count;
      overprov_segment_count = overprov_segment_count;
      free_segment_count = free_segment_count;
      cur_node_segno = cur_node_segno;
      cur_node_blkoff = cur_node_blkoff;
      cur_data_segno = cur_data_segno;
      cur_data_blkoff = cur_data_blkoff;
      ckpt_flags = ckpt_flags;
      cp_pack_total_block_count = cp_pack_total_block_count;
      cp_pack_start_sum = cp_pack_start_sum;
      valid_node_count = valid_node_count;
      valid_inode_count = valid_inode_count;
      next_free_nid = next_free_nid;
      sit_ver_bitmap_bytesize = sit_ver_bitmap_bytesize;
      nat_ver_bitmap_bytesize = nat_ver_bitmap_bytesize;
      checksum_offset = checksum_offset;
      elapsed_time = elapsed_time;
      alloc_type = alloc_type;
    }

abbrev pub checkpoint_members : Checkpoint → Val checkpoint_layout
checkpoint_members r =
    pack checkpoint_layout r.checkpoint_ver r.user_block_count r.valid_block_count
      r.rsvd_segment_count r.overprov_segment_count r.free_segment_count r.cur_node_segno
      r.cur_node_blkoff r.cur_data_segno r.cur_data_blkoff r.ckpt_flags r.cp_pack_total_block_count
      r.cp_pack_start_sum r.valid_node_count r.valid_inode_count r.next_free_nid
      r.sit_ver_bitmap_bytesize r.nat_ver_bitmap_bytesize r.checksum_offset r.elapsed_time
      r.alloc_type
