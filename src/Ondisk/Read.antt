-- ===== src/Ondisk/Read.antt =====
-- The reads of F2FS's structs: f2fs_read_block of lib/libf2fs.c (under zns-tools.fs/) and what its
-- callers read by it. lseek and read are parameters.
use zns_tools.Base.{ℕ, Bool, Option, none, some, List, ◌++◌, length, drop, map, if◌then◌else◌}
use zns_tools.Ondisk.Layout.{Layout, Val, decode, size_of, apply, copies}
use zns_tools.Ondisk.Super.{SuperBlock, super_block_layout, super_block_of}
use zns_tools.Ondisk.Checkpoint.{Checkpoint, checkpoint_layout, checkpoint_of}
use zns_tools.Ondisk.Node.{
  NatEntry, nat_entry_layout, nat_entry_of, nat_block_layout, Node, node_layout, node_of,
}

-- An open block device: whether lseek reaches an offset, and the bytes that read finds there, given
-- how many are asked for; `none` is an error.
pub record BlockDevice : Type 0 where
  pub seeks : ℕ → Bool
  pub reads : ℕ → ℕ → Option (List ℕ)

-- What read leaves in the buffer: it may find less than was asked for.
unfoldable pub overlay : List ℕ → List ℕ → List ℕ
overlay bytes dest = bytes ++ drop (length bytes) dest

unfoldable pub f2fs_read_block : BlockDevice → List ℕ → ℕ → ℕ → Option (List ℕ)
unfolding overlay
f2fs_read_block dev dest offset size =
    if dev.seeks offset
    then (elim (dev.reads offset size) [ none ↦ none | some bytes ↦ some (overlay bytes dest) ])
    else none

-- A struct read into a buffer of its own size, which is zero at first.
unfoldable pub read_struct : (l : Layout) → BlockDevice → ℕ → Option (Val l)
read_struct l dev offset = elim (f2fs_read_block dev (copies (size_of l) 0) offset (size_of l)) [
  | none ↦ none
  | some buffer ↦ some (decode l buffer).0
]

abbrev pub in_struct : {A B : Type 0} → (A → B) → Option A → Option B
in_struct f none = none
in_struct f (some a) = some (f a)

-- F2FS_SUPER_OFFSET
abbrev pub f2fs_super_offset : ℕ
f2fs_super_offset = 1024

unfoldable pub read_super : BlockDevice → Option SuperBlock
read_super dev =
    in_struct (apply super_block_layout super_block_of)
      (read_struct super_block_layout dev f2fs_super_offset)

-- At a byte offset, as are the two below.
unfoldable pub read_checkpoint : BlockDevice → ℕ → Option Checkpoint
read_checkpoint dev offset =
    in_struct (apply checkpoint_layout checkpoint_of) (read_struct checkpoint_layout dev offset)

-- BLOCK_SZ bytes are read, one more than the entries have.
abbrev pub block_layout : Layout
block_layout = Layout.◌▸◌ nat_block_layout (Layout.word 1)

abbrev pub entries_of : Val block_layout → List NatEntry
entries_of (entries, slack) = map (apply nat_entry_layout nat_entry_of) entries

-- Into a buffer of BLOCK_SZ bytes, which keeps what it held beyond a read that falls short.
unfoldable pub read_nat_block : BlockDevice → List ℕ → ℕ → Option (List ℕ × List NatEntry)
read_nat_block dev buffer offset = elim (f2fs_read_block dev buffer offset (size_of block_layout)) [
  | none ↦ none
  | some buffer' ↦ some (buffer', entries_of (decode block_layout buffer').0)
]

unfoldable pub read_node : BlockDevice → ℕ → Option Node
read_node dev offset = in_struct node_of (read_struct node_layout dev offset)
