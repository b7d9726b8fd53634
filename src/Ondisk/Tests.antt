-- ===== src/Ondisk/Tests.antt =====
-- The static assertions of include/f2fs.h (under zns-tools.fs/), the offsets that listings use, and a
-- device of zeros.
use zns_tools.Base.{ℕ, zero, suc, ◌+◌, ◌<◌, ◌≡◌, ◌↔◌, refl, ap, true, some, length, All, arith}
use zns_tools.Ondisk.Layout.{
  Layout, word, array, packed, ◌▸◌, size_of, align_of, is_gapless, copies, Fits, encode,
}
use zns_tools.Ondisk.Super.{device_layout, super_block_layout, super_block_members, zero_super}
use zns_tools.Ondisk.Checkpoint.{Checkpoint, checkpoint_layout, checkpoint_of, checkpoint_members}
use zns_tools.Ondisk.Node.{
  nat_entry_layout, nat_block_layout, inode_layout, footer_layout, node_layout, node_members,
  zero_node,
}
use zns_tools.Ondisk.Layout.{apply, blank}
use zns_tools.Ondisk.Read.{BlockDevice, f2fs_super_offset, read_super, read_checkpoint, read_node}
use zns_tools.Ondisk.Written.{Holds, reads_iff}

sizes :
    (size_of device_layout ≡ 68)
    × (size_of nat_entry_layout ≡ 9)
    × (size_of nat_block_layout ≡ 4095)
    × (size_of inode_layout ≡ 4072)
    × (size_of footer_layout ≡ 24)
unfolding size_of
sizes = (refl, refl, refl, refl, refl)

gapless :
    (is_gapless 0 super_block_layout ≡ true)
    × (is_gapless 0 checkpoint_layout ≡ true)
    × (is_gapless 0 node_layout ≡ true)
unfolding is_gapless size_of align_of
gapless = (refl, refl, refl)

-- Where the member of that index begins.
abbrev offset_of : ℕ → Layout → ℕ
offset_of zero l = 0
offset_of (suc i) (l ▸ m) = size_of l + offset_of i m
offset_of (suc i) (word w) = 0
offset_of (suc i) (array n l) = 0
offset_of (suc i) (packed l) = 0

offsets :
    (offset_of 30 super_block_layout ≡ 1152)
    × (offset_of 32 super_block_layout ≡ 1668)
    × (offset_of 33 super_block_layout ≡ 1924)
    × (offset_of 36 super_block_layout ≡ 2185)
    × (offset_of 37 super_block_layout ≡ 2201)
    × (offset_of 20 inode_layout ≡ 92)
unfolding size_of
offsets = (refl, refl, refl, refl, refl, refl)

abbrev empty : BlockDevice
empty = record { seeks = λ offset. true; reads = λ offset size. some (copies size 0) }

length-copies : (n : ℕ) → length {A = ℕ} (copies n 0) ≡ n
length-copies zero = refl
length-copies (suc n) = ap suc (length-copies n)

copies-bytes : (n : ℕ) → All (λ b. b < 256) (copies n 0)
copies-bytes zero = tt
copies-bytes (suc n) = (omega arith, copies-bytes n)

empty-Holds : (offset n : ℕ) → Holds empty offset (copies n 0)
empty-Holds offset n = record {
  seeks = refl;
  reads = ap (λ (k : ℕ). some (copies k 0)) (length-copies n);
  bytes = copies-bytes n;
}

abbrev zero_checkpoint : Checkpoint
zero_checkpoint = apply checkpoint_layout checkpoint_of (blank checkpoint_layout)

reads_iff_example :
    ((read_super empty ≡ some zero_super) ↔ (
      Fits super_block_layout (super_block_members zero_super)
      × (encode super_block_layout (super_block_members zero_super) ≡ copies 3072 0)))
    × ((read_checkpoint empty 512 ≡ some zero_checkpoint) ↔ (
        Fits checkpoint_layout (checkpoint_members zero_checkpoint)
        × (encode checkpoint_layout (checkpoint_members zero_checkpoint) ≡ copies 192 0)))
    × ((read_node empty 4096 ≡ some zero_node) ↔ (
        Fits node_layout (node_members zero_node)
        × (encode node_layout (node_members zero_node) ≡ copies 4096 0)))
reads_iff_example =
    reads_iff empty 512 4096 (copies 3072 0) (copies 192 0) (copies 4096 0) zero_super
      zero_checkpoint zero_node (empty-Holds f2fs_super_offset 3072) (length-copies 3072)
      (empty-Holds 512 192) (length-copies 192) (empty-Holds 4096 4096) (length-copies 4096)
