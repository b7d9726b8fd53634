-- ===== src/Listings/Tests.antt =====
-- Listings of concrete structs.
use zns_tools.Base.{◌≡◌, refl, false, [], ◌∷◌}
use zns_tools.Ondisk.Layout.{encode, put_word, put_all, copies}
use zns_tools.Ondisk.Super.{SuperBlock, zero_super}
use zns_tools.Ondisk.Node.{Inode, zero_node}
use zns_tools.Listings.{
  names, flag_names, show_extent_flags, show_inode_flags, device_paths, super_bytes,
}

abbrev inode : Inode
inode = record zero_node.i { i_advise = 0x21; i_flags = 0x40000008 }

merged :
    show_extent_flags 0x1003 ≡ names "FLAGS" ("FIEMAP_EXTENT_UNKNOWN" ∷ "FIEMAP_EXTENT_MERGED" ∷ [])
unfolding show_extent_flags flag_names
merged = refl

synced : show_inode_flags inode ≡ names "i_flags" ("F2FS_SYNC_FL" ∷ "F2FS_CASEFOLD_FL" ∷ [])
unfolding show_inode_flags flag_names
synced = refl

-- When each device has segments the line is not ended.
full : SuperBlock
full = record zero_super { devs = copies 8 (copies 64 97, 1) }

not_ended : (device_paths full.devs (super_bytes full) 2201).1 ≡ false
unfolding full device_paths encode put_word put_all
not_ended = refl
