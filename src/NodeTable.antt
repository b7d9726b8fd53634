-- ===== src/NodeTable.antt =====
-- The node address table of F2FS and the search for a file's inode: `f2fs_get_inode_nat_entry` and
-- `f2fs_get_node_block` of lib/libf2fs.c, and the search loop of src/imap.c (under zns-tools.fs/).
-- What a read of the disk finds is a parameter.
pub mod Search
pub mod Addresses
pub mod Find
mod Tests
use zns_tools.Base.{
  ℕ, zero, suc, ◌+◌, ◌-◌, ◌*◌, ◌/◌, ◌%◌, ◌^◌, Bool, true, false, Option, none, some, List, ◌==◌,
  if◌then◌else◌, trunc32, add32, shl32, shr,
}
use zns_tools.Types.{Control, Run, returned, exited, faulted, ◌>>=◌}
use zns_tools.Zones.{get_zone_number}
use zns_tools.Ondisk.Layout.{copies}
pub use zns_tools.Ondisk.Super.{SuperBlock}
pub use zns_tools.Ondisk.Node.{NatEntry, nat_entry_per_block, NodeFooter, Node, is_inode}

-- What `f2fs_read_block` leaves of a byte offset of the device: of a table block, the buffer, given what
-- it held before, and the entries in it by index; or a node. `none` if lseek or read fails.
pub record Disk : Type 0 where
  pub nat_block : List ℕ → ℕ → Option (List ℕ × (ℕ → NatEntry))
  pub node : ℕ → Option Node

-- BLOCK_SZ
abbrev pub block_sz : ℕ
block_sz = 4096

-- `nat_block_offset` and `nat_entry_offset`, which are kept between calls.
pub record Cursor : Type 0 where
  pub block : ℕ
  pub entry : ℕ

-- The inner loop, over the entries from `i` on, `n` of them: the index of the first with that inode.
pub scan_block : ℕ → ℕ → (ℕ → NatEntry) → ℕ → Option ℕ
scan_block zero i entries inode = none
scan_block (suc n) i entries inode =
    if (entries i).ino == inode then some i else scan_block n (i + 1) entries inode

-- Where the next call starts, when this one has found entry `i` of the block.
pub advance : Cursor → ℕ → Cursor
advance cur i =
    if i == nat_entry_per_block - 1
    then record { block = add32 cur.block 1; entry = 0 }
    else record { block = cur.block; entry = i + 1 }

-- The byte address of a table block; every part of the sum is of 32 bits.
pub nat_block_address : SuperBlock → ℕ → ℕ
nat_block_address sb block = add32 (shl32 sb.nat_blkaddr 12) (block * 4096 % 2 ^ 32)

unfoldable pub nat_blocks : SuperBlock → ℕ
nat_blocks sb = shl32 (sb.segment_count_nat / 2) sb.log_blocks_per_seg

-- `block_addr << F2FS_BLKSIZE_BITS` is of 32 bits.
pub node_offset : ℕ → ℕ
node_offset block_addr = shl32 block_addr 12

module _ (disk : Disk) (sb : SuperBlock) where
  -- The outer loop, with `n` rounds left; the blocks are read into one buffer.
  pub search_blocks : ℕ → List ℕ → Cursor → ℕ → Run (Cursor × Option NatEntry)
  search_blocks zero buffer cur inode = returned (cur, none)
  search_blocks (suc n) buffer cur inode =
      elim (disk.nat_block buffer (nat_block_address sb cur.block)) [
        | none ↦ exited
        | some (buffer', entries) ↦
            elim (scan_block (nat_entry_per_block - cur.entry) cur.entry entries inode) [
              | some i ↦ returned (advance cur i, some (entries i))
              | none ↦
                  search_blocks n buffer' (record { block = add32 cur.block 1; entry = 0 }) inode
            ]
      ]

  pub f2fs_get_inode_nat_entry : Cursor → ℕ → Run (Cursor × Option NatEntry)
  f2fs_get_inode_nat_entry cur inode = search_blocks (nat_blocks sb) (copies block_sz 0) cur inode

  pub f2fs_get_node_block : ℕ → Run Node
  f2fs_get_node_block block_addr = elim (disk.node (node_offset block_addr)) [
    | none ↦ exited
    | some node ↦ returned node
  ]

  -- The loop of imap.c, on fuel: entries of that inode number, until one leads to an inode.
  pub find_inode : ℕ → Cursor → ℕ → Option (Run (Cursor × NatEntry × Node))
  find_inode zero cur inode = none
  find_inode (suc fuel) cur inode = elim (f2fs_get_inode_nat_entry cur inode) [
    | exited ↦ some exited
    | faulted ↦ some faulted
    | returned (cur', found) ↦ elim found [
      | none ↦ some exited
      | some entry ↦ elim (f2fs_get_node_block entry.block_addr) [
        | exited ↦ some exited
        | faulted ↦ some faulted
        | returned node ↦ elim (is_inode node) [
          | true ↦ some (returned (cur', entry, node))
          | false ↦ find_inode fuel cur' inode
        ]
      ]
    ]
  ]

-- What imap.c prints of the inode's place: its address, and the zone.
abbrev pub inode_lba : Control → NatEntry → ℕ
inode_lba c entry = shr (shl32 entry.block_addr 12) c.sector_shift

pub inode_zone : Control → NatEntry → ℕ
inode_zone c entry = get_zone_number c (inode_lba c entry)
