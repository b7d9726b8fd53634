-- ===== src/Json/Objects.antt =====
-- The objects of lib/libjson.c (under zns-tools.fs/) about devices, the file system, zones, segments
-- and extents: `json_get_bdev` to `json_get_beginning_segment_extent_info`. json-c is a parameter.
use zns_tools.Base.{
  ℕ, ◌*◌, bit_and, Bool, Option, none, some, List, [], ◌∷◌, Text, codes, ◌==◌, if◌then◌else◌,
  trunc32, add32, add64, sub64, mul64, shl32, shl64, shr,
}
use zns_tools.Types.{
  SegmentInfo, Extent, FileCounterMap, Bdev, Control, Run, returned, exited, faulted, ◌>>=◌,
  curseg_hot_data, curseg_warm_data, curseg_cold_data, curseg_hot_node, curseg_warm_node,
  curseg_cold_node,
}
use zns_tools.Device.{Kernel, reported, f2fs_magic, btrfs_magic}
use zns_tools.Zones.{zone_sectors}
use zns_tools.Counters.{get_file_extent_count}
use zns_tools.Fiemap.{counters_of}
use zns_tools.Json.Strings.{uint64_to_hex_string_cast, uint32_to_hex_string_cast}

-- What the code calls of json-c. `new_int` takes the 32 bits of its int, `new_double` the integer
-- that is converted.
pub record JsonC (J : Type 0) : Type 0 where
  pub null : J
  pub new_object : J
  pub object_add : J → Text → J → J
  pub new_array : J
  pub array_add : J → J → J
  pub array_length : J → ℕ
  pub new_string : Text → J
  pub new_boolean : Bool → J
  pub new_int : ℕ → J
  pub new_uint64 : ℕ → J
  pub new_double : ℕ → J

module _ {J : Type 0} (j : JsonC J) where
  -- Members added one after the other.
  abbrev pub add_all : J → List (Text × J) → J
  add_all o [] = o
  add_all o ((key, value) ∷ members) = add_all (j.object_add o key value) members

  abbrev pub hex64 : ℕ → J
  hex64 n = j.new_string (uint64_to_hex_string_cast n)

  abbrev pub hex32 : ℕ → J
  hex32 n = j.new_string (uint32_to_hex_string_cast n)

  pub json_get_bdev : Control → Bdev → J
  json_get_bdev c bdev =
      let dev = add_all j.new_object (
        (codes "dev_name", j.new_string bdev.dev_name)
        ∷ (codes "dev_path", j.new_string bdev.dev_path)
        ∷ (codes "link_name", j.new_string bdev.link_name)
        ∷ (codes "is_zoned", j.new_boolean bdev.is_zoned)
        ∷ []) in
      if bdev.is_zoned
      then add_all dev (
          (codes "nr_zones", j.new_int bdev.nr_zones)
          ∷ (codes "zone_size", j.new_int (trunc32 bdev.zone_size))
          ∷ (codes "zone_mask", hex32 bdev.zone_mask)
          ∷ (codes "sector_size", j.new_int c.sector_size)
          ∷ (codes "sector_shift", j.new_int c.sector_shift)
          ∷ [])
      else dev

  pub json_get_fs_info : Control → J
  json_get_fs_info c =
      let fs = j.object_add j.new_object (codes "fs_magic") (hex64 c.fs_magic) in
      if c.fs_magic == f2fs_magic
      then add_all fs (
          (codes "fs", j.new_string (codes "F2FS"))
          ∷ (codes "f2fs_segment_sectors", j.new_double c.f2fs_segment_sectors)
          ∷ (codes "f2fs_segment_shift", j.new_int c.segment_shift)
          ∷ (codes "f2fs_segment_mask", hex64 c.f2fs_segment_mask)
          ∷ [])
      else if c.fs_magic == btrfs_magic
      then j.object_add fs (codes "fs") (j.new_string (codes "Btrfs"))
      else fs

  pub json_get_ctrl_config : Control → J
  json_get_ctrl_config c =
      let config =
        if c.multi_dev
        then j.object_add j.new_object (codes "dev-1") (json_get_bdev c c.bdev)
        else j.new_object in
      add_all config
        ((codes "dev-2", json_get_bdev c c.znsdev) ∷ (codes "filesystem", json_get_fs_info c) ∷ [])

  -- The root object, for a program name and a time.
  pub init_json_file : Text → ℕ → Control → J
  init_json_file program time c = j.object_add j.new_object (codes "info") (
      add_all j.new_object (
        (codes "program", j.new_string program)
        ∷ (codes "time", j.new_uint64 time)
        ∷ (codes "config", json_get_ctrl_config c)
        ∷ []))

  -- A device that does not open gives a null.
  pub json_get_zone_info : Kernel → Control → ℕ → Run J
  json_get_zone_info k c zone =
      if k.opens c.znsdev.dev_path
      then (elim (k.report c.znsdev.dev_path (mul64 (zone_sectors c) zone) 1) [
        | none ↦ exited
        | some zs ↦
            let z = reported zs 0 in
            let s = c.zns_sector_shift in
            returned (
              add_all j.new_object (
                (codes "lbas", hex64 (shr z.start s))
                ∷ (codes "lbae", hex64 (add64 (shr z.start s) (shr z.capacity s)))
                ∷ (codes "cap", hex64 (shr z.capacity s))
                ∷ (codes "wp", hex64 (shr z.wp s))
                ∷ (codes "size", hex64 (shr z.len s))
                ∷ (codes "state", hex32 (z.cond * 16))
                ∷ (codes "mask", hex32 c.znsdev.zone_mask)
                ∷ []))
      ])
      else returned j.null

  -- The cases of the switch; another type adds nothing.
  abbrev pub type_members : ℕ → List (Text × J)
  type_members type =
      let member : Text → List (Text × J) = λ name. (codes "type", j.new_string name) ∷ [] in
      if type == curseg_hot_data
      then member (codes "CURSEG_HOT_DATA")
      else if type == curseg_warm_data
      then member (codes "CURSEG_WARM_DATA")
      else if type == curseg_cold_data
      then member (codes "CURSEG_COLD_DATA")
      else if type == curseg_hot_node
      then member (codes "CURSEG_HOT_NODE")
      else if type == curseg_warm_node
      then member (codes "CURSEG_WARM_NODE")
      else if type == curseg_cold_node
      then member (codes "CURSEG_COLD_NODE")
      else []

  unfoldable pub json_get_segment_info : Control → Option SegmentInfo → ℕ → Run J
  json_get_segment_info c none segment_start = faulted
  json_get_segment_info c (some seg) segment_start =
      let start = shl64 segment_start c.segment_shift in
      let placed = add_all j.new_object (
        (codes "pbas", hex64 start)
        ∷ (codes "pbae", hex64 (add64 start c.f2fs_segment_sectors))
        ∷ (codes "size", hex64 c.f2fs_segment_sectors)
        ∷ []) in
      let typed = add_all placed (type_members seg.type) in
      returned (
        j.object_add typed (codes "valid_blocks")
          (j.new_int (shr (shl32 seg.valid_blocks 12) c.sector_shift)))

  -- The members that the three objects about an extent share.
  abbrev pub extent_members : FileCounterMap → Extent → ℕ → ℕ → ℕ → J
  extent_members files e pbas pbae size = add_all j.new_object (
      (codes "file", j.new_string e.file)
      ∷ (codes "pbas", hex64 pbas)
      ∷ (codes "pbae", hex64 pbae)
      ∷ (codes "size", hex64 size)
      ∷ (codes "ext_nr", j.new_int (add32 e.ext_nr 1))
      ∷ (codes "total_exts", j.new_int (get_file_extent_count files e.file))
      ∷ [])

  abbrev pub extent_object : Control → Extent → ℕ → ℕ → ℕ → Run J
  extent_object c e pbas pbae size = do
    files ← counters_of c
    returned (extent_members files e pbas pbae size)

  unfoldable pub json_get_extent_info : Control → Extent → Run J
  json_get_extent_info c e = extent_object c e e.phy_blk (add64 e.phy_blk e.len) e.len

  pub json_get_beginning_segment_extent_info : Control → Extent → Run J
  json_get_beginning_segment_extent_info c e =
      let segment_end = add64 (bit_and e.phy_blk c.f2fs_segment_mask) c.f2fs_segment_sectors in
      extent_object c e e.phy_blk segment_end (sub64 segment_end e.phy_blk)
