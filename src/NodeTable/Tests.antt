-- ===== src/NodeTable/Tests.antt =====
-- A table of one block and a search in it.
use zns_tools.Base.{
  ℕ, ◌+◌, ◌-◌, ◌*◌, ◌/◌, ◌^◌, ◌<◌, ◌≡◌, ◌↔◌, refl, arith, none, some, ◌==◌, if◌then◌else◌,
}
use zns_tools.NodeTable.{
  NatEntry, Node, find_inode, SuperBlock, Disk, Cursor, node_offset, nat_block_address, nat_blocks,
  f2fs_get_inode_nat_entry,
}
use zns_tools.Ondisk.Super.{zero_super}
use zns_tools.Ondisk.Node.{zero_node}
use zns_tools.NodeTable.Search.{Searched, f2fs_get_inode_nat_entry-Searched}
use zns_tools.NodeTable.Find.{Found, find_inode-Found}
use zns_tools.NodeTable.Addresses.{node_offset_exact_iff, nat_block_address_exact_iff}

abbrev super_block : SuperBlock
super_block = record zero_super {
  log_blocks_per_seg = 0;
  segment_count_nat = 2;
  segment_count_main = 8;
  nat_blkaddr = 100;
  cp_blkaddr = 10;
}

-- Inode 7 has entry 3 of every block.
abbrev table : ℕ → ℕ → NatEntry
table b i = record { version = 0; ino = if i == 3 then 7 else 0; block_addr = 5000 }

abbrev disk : Disk
disk = record { nat_block = λ buffer. λ address. some (buffer, table 0); node = λ address. none }

abbrev first : Cursor
first = record { block = 0; entry = 0 }

abbrev inode_entry : NatEntry
inode_entry = record { version = 0; ino = 7; block_addr = 5000 }

one_block : nat_blocks super_block ≡ 1
unfolding nat_blocks
one_block = refl

f2fs_get_inode_nat_entry-Searched_example :
    Searched disk super_block table 7 first
      (nat_blocks super_block)
      (f2fs_get_inode_nat_entry disk super_block first 7)
f2fs_get_inode_nat_entry-Searched_example =
    f2fs_get_inode_nat_entry-Searched disk super_block table 7 first (λ buffer b. (buffer, refl))
      (omega (arith, one_block)) (omega arith)

-- The node that examples/zns.imap.md shows.
node_offset_exact_iff_example :
    ((node_offset 0x18001F ≡ 0x18001F * 4096 - 0x100000000)
      ↔ (0x100000000 ≡ 0x18001F / 2 ^ 20 * 2 ^ 32))
    × ((node_offset 0x18001F ≡ 0x18001F * 4096) ↔ (0x18001F < 2 ^ 20))
node_offset_exact_iff_example = node_offset_exact_iff 0x100000000 0x18001F (omega arith)

nat_block_address_exact_iff_example :
    (nat_block_address super_block 3 ≡ (100 + 3) * 4096) ↔ (100 + 3 < 2 ^ 20)
nat_block_address_exact_iff_example = nat_block_address_exact_iff super_block 3

abbrev node_7 : Node
node_7 = record zero_node { footer = record zero_node.footer { nid = 7; ino = 7 } }

abbrev node_disk : Disk
node_disk = record {
  nat_block = λ buffer. λ address. some (buffer, table 0);
  node = λ address. some node_7;
}

find_inode-Found_example :
    Found node_disk super_block table
      (λ address. node_7)
      7
      first
      (find_inode node_disk super_block 4 first 7)
find_inode-Found_example =
    find_inode-Found node_disk super_block table (λ address. node_7) 7 4 first 0 3
      (λ buffer b. (buffer, refl)) (λ address. refl) (omega arith) (omega arith) refl refl
      (omega arith) (omega (arith, one_block)) (omega (arith, one_block)) (omega arith)
