-- ===== src/Fixtures.antt =====
-- Data for the tests: a device of 512B sectors with four zones of 2 ^ 16 sectors each, and the
-- records that the tests start from.
use zns_tools.Base.{ℕ, true, false, none, some, List, [], ◌∷◌}
use zns_tools.Types.{Extent, Zone, ZoneMap, FileCounter, FileCounterMap, Bdev, Control}
use zns_tools.Device.{BlkZone, Kernel}

abbrev pub zone_3 : BlkZone
zone_3 = record { start = 196608; len = 65536; wp = 196700; cond = 2; capacity = 60000 }

-- Every zone that is asked for is reported as zone 3.
abbrev pub kernel : Kernel
kernel = record {
  opens = λ path. true;
  read_link = λ path. none;
  sector_size = λ path. some 512;
  zone_sectors = λ path. some 65536;
  nr_zones = λ path. some 4;
  size_bytes = λ path. some 4096;
  report = λ path start n. some (zone_3 ∷ []);
  file_system = λ path. some 0xF2F52010;
}

abbrev pub zns : Bdev
zns = record {
  dev_name = 110 ∷ [];
  dev_path = 110 ∷ [];
  link_name = [];
  is_zoned = true;
  nr_zones = 4;
  zone_size = 65536;
  zone_mask = 4294901760;
}

abbrev pub zone_with : ℕ → List Extent → Zone
zone_with n es = record {
  zone_number = 0;
  start = 0;
  end = 60000;
  capacity = 60000;
  wp = 0;
  state = 32;
  mask = 0;
  extent_ctr = n;
  extents = es;
}

abbrev pub no_extents : ZoneMap
no_extents = record {
  nr_zones = 4;
  extent_ctr = 0;
  cum_extent_size = 0;
  zone_ctr = 0;
  zones = zone_with 0 [] ∷ zone_with 0 [] ∷ zone_with 0 [] ∷ zone_with 0 [] ∷ [];
}

abbrev pub control : Control
control = record {
  bdev = zns;
  znsdev = zns;
  multi_dev = true;
  log_level = 0;
  show_holes = true;
  show_flags = false;
  json_dump = false;
  fs_magic = 0xF2F52010;
  sector_size = 512;
  sector_shift = 9;
  zns_sector_shift = 0;
  f2fs_segment_sectors = 4096;
  f2fs_segment_mask = 18446744073709547520;
  segment_shift = 12;
  start_zone = 1;
  end_zone = 4;
  nr_files = 0;
  exclude_flags = 0;
  offset = 4096;
  cur_segment = 0;
  show_superblock = false;
  show_checkpoint = false;
  procfs = false;
  show_class_stats = false;
  show_only_stats = false;
  inlined_extent_ctr = 0;
  fs_info_bytes = 0;
  fs_manager = none;
  zonemap = some no_extents;
  file_counter_map = none;
}

-- On a device of 4 KiB sectors the zone has 2 ^ 13 of them.
abbrev pub control_4k : Control
control_4k = record control {
  sector_size = 4096;
  sector_shift = 12;
  zns_sector_shift = 3;
  segment_shift = 9;
  znsdev = record zns { zone_size = 8192 };
}

-- An extent of zone 3.
abbrev pub extent_at : ℕ → ℕ → Extent
extent_at phy_blk len = record {
  zone = 3;
  flags = 0;
  ext_nr = 0;
  file_id = 0;
  logical_blk = 0;
  phy_blk = phy_blk;
  zone_lbas = 196608;
  zone_cap = 60000;
  len = len;
  zone_size = 65536;
  zone_wp = 196700;
  zone_lbae = 256608;
  fs_info = none;
  file = 102 ∷ [];
}

abbrev pub counter : FileCounter
counter = record {
  file = 102 ∷ [];
  ext_ctr = 2;
  segment_ctr = 0;
  zone_ctr = 0;
  cold_ctr = 0;
  warm_ctr = 0;
  hot_ctr = 0;
  last_segment_id = 0;
  last_zone = 0;
}

abbrev pub one_file : FileCounterMap
one_file = record { files = counter ∷ []; allocated = 2 }
