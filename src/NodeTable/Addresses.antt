-- ===== src/NodeTable/Addresses.antt =====
-- The 32-bit byte addresses of table blocks and of nodes.
use zns_tools.Base.{ℕ, ◌+◌, ◌-◌, ◌*◌, ◌/◌, ◌^◌, ◌≤◌, ◌<◌, ◌≡◌, ◌↔◌, arith}
use zns_tools.NodeTable.{SuperBlock, node_offset, nat_block_address}

-- On a device that begins at byte `offset` of the file system's addresses, a node behind that is read at
-- its own place exactly when the offset is what the 32-bit address loses: for a device that begins at
-- 0, exactly when its block number is below 2 ^ 20.
pub node_offset_exact_iff :
    (offset block_addr : ℕ)
    → offset ≤ block_addr * 4096
    → ((node_offset block_addr ≡ block_addr * 4096 - offset)
        ↔ (offset ≡ block_addr / 2 ^ 20 * 2 ^ 32))
      × ((node_offset block_addr ≡ block_addr * 4096) ↔ (block_addr < 2 ^ 20))
unfolding node_offset
node_offset_exact_iff offset block_addr behind =
    ((λ e. omega arith, λ h. omega arith), (λ e. omega arith, λ h. omega arith))

-- A table block is read at its own address exactly when it lies in the first 4 GiB.
pub nat_block_address_exact_iff :
    (sb : SuperBlock) (block : ℕ)
    → (nat_block_address sb block ≡ (sb.nat_blkaddr + block) * 4096)
      ↔ (sb.nat_blkaddr + block < 2 ^ 20)
unfolding nat_block_address
nat_block_address_exact_iff sb block = (λ e. omega arith, λ h. omega arith)
