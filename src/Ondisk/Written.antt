-- ===== src/Ondisk/Written.antt =====
-- What the reads of F2FS's structs find, against the bytes on the device.
use zns_tools.Base.{
  ℕ, zero, suc, ◌+◌, ◌<◌, ◌≡◌, ◌↔◌, refl, sym, ap, subst, ◌∙◌, true, some, List, [], ◌∷◌, ◌++◌,
  append-nil, length, drop, All, arith,
}
use zns_tools.Ondisk.Layout.{Layout, Val, Fits, size_of, encode, decode, copies, apply}
use zns_tools.Ondisk.RoundTrip.{decode-encode, encode-decode}
use zns_tools.Ondisk.Super.{SuperBlock, super_block_layout, super_block_of, super_block_members}
use zns_tools.Ondisk.Checkpoint.{Checkpoint, checkpoint_layout, checkpoint_of, checkpoint_members}
use zns_tools.Ondisk.Node.{Node, node_layout, node_of, node_members}
use zns_tools.Ondisk.Read.{
  BlockDevice, f2fs_read_block, overlay, read_struct, in_struct, f2fs_super_offset, read_super,
  read_checkpoint, read_node,
}

-- The device has these bytes at the offset: lseek gets there, and read finds them all.
pub record Holds (dev : BlockDevice) (offset : ℕ) (block : List ℕ) : Type 0 where
  pub seeks : dev.seeks offset ≡ true
  pub reads : dev.reads offset (length block) ≡ some block
  pub bytes : All (λ b. b < 256) block

drop-copies : (n : ℕ) → drop {A = ℕ} n (copies n 0) ≡ []
drop-copies zero = refl
drop-copies (suc n) = drop-copies n

f2fs_read_block-Holds :
    (dev : BlockDevice) (offset : ℕ) (block : List ℕ)
    → Holds dev offset block
    → f2fs_read_block dev (copies (length block) 0) offset (length block) ≡ some block
unfolding f2fs_read_block overlay
f2fs_read_block-Holds dev offset block held =
    rw (held.seeks, held.reads)
      (ap (λ xs. some (block ++ xs)) (drop-copies (length block)) ∙ ap some (append-nil block))

read_struct-Holds :
    (l : Layout) (dev : BlockDevice) (offset : ℕ) (block : List ℕ)
    → Holds dev offset block
    → length block ≡ size_of l
    → read_struct l dev offset ≡ some (decode l block).0
unfolding read_struct
read_struct-Holds l dev offset block held size =
    let read : f2fs_read_block dev (copies (size_of l) 0) offset (size_of l) ≡ some block =
      ap (λ (n : ℕ). f2fs_read_block dev (copies n 0) offset n) (sym size)
      ∙ f2fs_read_block-Holds dev offset block held in
    rw (read, read_struct) refl

some_injective : {A : Type 0} {a b : A} → some a ≡ some b → a ≡ b
some_injective h = cc

no_rest :
    (l : Layout) (block rest : List ℕ)
    → length block ≡ size_of l + length rest
    → length block ≡ size_of l
    → rest ≡ []
no_rest l block [] used size = refl
no_rest l block (x ∷ xs) used size = absurd (omega arith)

-- The bytes of what is decoded are the bytes themselves, and whatever has those bytes is decoded.
decode_iff :
    (l : Layout) (block : List ℕ) (v : Val l)
    → All (λ b. b < 256) block
    → length block ≡ size_of l
    → ((decode l block).0 ≡ v) ↔ (Fits l v × (encode l v ≡ block))
decode_iff l block v bytes size =
    let (fits, back, more, used) = encode-decode l block (omega arith) bytes in
    let end = no_rest l block (decode l block).1 used size in
    let whole : encode l (decode l block).0 ≡ block =
      sym (append-nil (encode l (decode l block).0))
      ∙ ap (λ xs. encode l (decode l block).0 ++ xs) (sym end)
      ∙ back in
    (
      (λ e. (subst (Fits l) e fits, ap (encode l) (sym e) ∙ whole)),
      (λ h.
          ap (λ xs. (decode l xs).0) (sym h.1 ∙ sym (append-nil (encode l v)))
          ∙ ap (λ (r : Val l × List ℕ). r.0) (decode-encode l v [] h.0)),
    )

module _ {A : Type 0} (l : Layout) (of : Val l → A) (members : A → Val l)
    (of-members : (a : A) → of (members a) ≡ a)
    (members-of : (v : Val l) → members (of v) ≡ v) where
  read_iff :
      (dev : BlockDevice) (offset : ℕ) (block : List ℕ) (a : A)
      → Holds dev offset block
      → length block ≡ size_of l
      → (in_struct of (read_struct l dev offset) ≡ some a)
        ↔ (Fits l (members a) × (encode l (members a) ≡ block))
  read_iff dev offset block a held size =
      let found = ap (in_struct of) (read_struct-Holds l dev offset block held size) in
      let iff = decode_iff l block (members a) held.bytes size in
      (
        (λ e.
            iff.0
              (sym (members-of (decode l block).0) ∙ ap members (some_injective (sym found ∙ e)))),
        (λ h. found ∙ ap some (ap of (iff.1 h) ∙ of-members a)),
      )

-- The static assertions of the header.
size_super : ◌≡◌ {A = ℕ} 3072 (size_of super_block_layout)
unfolding size_of
size_super = refl

size_checkpoint : ◌≡◌ {A = ℕ} 192 (size_of checkpoint_layout)
unfolding size_of
size_checkpoint = refl

size_node : ◌≡◌ {A = ℕ} 4096 (size_of node_layout)
unfolding size_of
size_node = refl

-- A read of the superblock, of the checkpoint or of a node, where the device has bytes for all of the
-- struct, finds a struct exactly when its members fit and, laid out in the order of the declaration,
-- have these bytes.
pub reads_iff :
    (dev : BlockDevice) (at_cp at_node : ℕ) (block_0 block_1 block_2 : List ℕ) (sb : SuperBlock)
    (cp : Checkpoint) (node : Node)
    → Holds dev f2fs_super_offset block_0
    → length block_0 ≡ 3072
    → Holds dev at_cp block_1
    → length block_1 ≡ 192
    → Holds dev at_node block_2
    → length block_2 ≡ 4096
    → ((read_super dev ≡ some sb) ↔ (
        Fits super_block_layout (super_block_members sb)
        × (encode super_block_layout (super_block_members sb) ≡ block_0)))
      × ((read_checkpoint dev at_cp ≡ some cp) ↔ (
          Fits checkpoint_layout (checkpoint_members cp)
          × (encode checkpoint_layout (checkpoint_members cp) ≡ block_1)))
      × ((read_node dev at_node ≡ some node) ↔ (
          Fits node_layout (node_members node)
          × (encode node_layout (node_members node) ≡ block_2)))
unfolding read_super read_checkpoint read_node
reads_iff dev at_cp at_node block_0 block_1 block_2 sb cp node held_0 long_0 held_1 long_1 held_2
      long_2 =
    (
      read_iff super_block_layout (apply super_block_layout super_block_of) super_block_members
          (λ a. refl) (λ v. refl) dev f2fs_super_offset block_0 sb held_0 (long_0 ∙ size_super),
      read_iff checkpoint_layout (apply checkpoint_layout checkpoint_of) checkpoint_members
          (λ a. refl) (λ v. refl) dev at_cp block_1 cp held_1 (long_1 ∙ size_checkpoint),
      read_iff node_layout node_of node_members (λ a. refl) (λ v. refl) dev at_node block_2 node
          held_2 (long_2 ∙ size_node),
    )
