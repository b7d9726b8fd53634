-- ===== src/Setup.antt =====
-- The set-up of the control block: `init_dev`, `init_znsdev`, `set_super_block_info`, `set_fs_magic`
-- and `init_ctrl` of lib/libzns-tools.c, and `check_dir_init_ctrl` of src/segmap.c (under
-- zns-tools.fs/). What scanf and a read of the superblock find are parameters.
pub mod Ready
pub mod Mount
pub mod Btrfs
pub mod F2fs
mod Tests
use zns_tools.Base.{
  ℕ, zero, suc, ◌+◌, ◌-◌, ◌/◌, ◌%◌, ◌^◌, Bool, true, false, not, Option, none, some, List, [], ◌∷◌,
  ◌++◌, Text, length, take, drop, ltb, ◌==◌, if◌then◌else◌, trunc32, sub64, not64, shr,
}
use zns_tools.Types.{SegmentInfo, Bdev, Control, Run, returned, exited, faulted, ◌>>=◌}
use zns_tools.Ondisk.Super.{SuperBlock, device_path}
use zns_tools.Ondisk.Read.{BlockDevice, read_super}
use zns_tools.Device.{
  Kernel, f2fs_magic, btrfs_magic, segment_bytes, is_zoned, get_sector_size, get_dev_size,
  get_zone_size, get_nr_zones, init_zone_map,
}
use zns_tools.Procfs.{segment_info_bytes}

-- The fields of `struct stat` that the set-up reads.
pub record Stat : Type 0 where
  pub major : ℕ
  pub minor : ℕ
  pub is_dir : Bool

-- MAX_DEV_NAME and MAX_PATH_LEN
abbrev pub max_dev_name : ℕ
max_dev_name = 15

abbrev pub max_path_len : ℕ
max_path_len = 64

-- %d, the last digits first and on fuel: a number has no more digits than its value and one.
abbrev pub digits : ℕ → ℕ → Text → Text
digits zero n rest = rest
digits (suc fuel) n rest =
    if ltb n 10 then (48 + n) ∷ rest else digits fuel (n / 10) ((48 + n % 10) ∷ rest)

abbrev pub decimal : ℕ → Text
decimal n = digits (n + 1) n []

-- "/dev/block/" and "/dev/"
abbrev pub dev_block : Text
dev_block = 47 ∷ 100 ∷ 101 ∷ 118 ∷ 47 ∷ 98 ∷ 108 ∷ 111 ∷ 99 ∷ 107 ∷ 47 ∷ []

abbrev pub dev : Text
dev = 47 ∷ 100 ∷ 101 ∷ 118 ∷ 47 ∷ []

-- What follows the last '/': `basename` of a path that does not end in one.
abbrev pub base_of : Text → Text → Text
base_of name [] = name
base_of name (x ∷ xs) = base_of (if x == 47 then xs else name) xs

-- A name that goes into `dev_name`, which holds 14 bytes; a longer one is a write past the array.
abbrev pub fit_name : Text → Run Text
fit_name name = if ltb (length name) max_dev_name then returned name else faulted

-- `~(zone_size - 1)`, cut to the 32 bits of `zone_mask`.
abbrev pub mask_of : ℕ → ℕ
mask_of zone_size = trunc32 (not64 (sub64 zone_size 1))

-- The shifts and the mask that the sector size decides.
unfoldable pub set_geometry : Control → ℕ → Control
set_geometry c sector_size =
    let sector_shift = if sector_size == 512 then 9 else 12 in
    record c {
      sector_size = sector_size;
      sector_shift = sector_shift;
      f2fs_segment_sectors = shr segment_bytes sector_shift;
      f2fs_segment_mask = not64 (sub64 (shr segment_bytes sector_shift) 1);
      segment_shift = if sector_size == 512 then 12 else 9;
    }

module _ (k : Kernel) where
  unfoldable pub init_dev : Control → Stat → Run Control
  init_dev c st =
      let path = dev_block ++ (decimal st.major ++ (58 ∷ decimal st.minor)) in
      if k.opens path
      then (elim (k.read_link path) [
        | none ↦ exited
        | some link ↦ do
          name ← fit_name (base_of (take max_path_len link) (take max_path_len link))
          returned (record c {
            bdev = record c.bdev {
              dev_path = path;
              link_name = take max_path_len link;
              dev_name = name;
            };
          })
      ])
      else exited

  -- It ends the process or returns EXIT_SUCCESS.
  unfoldable pub init_znsdev : Control → Run Control
  init_znsdev c = do
    let path = dev ++ c.znsdev.dev_name
    (if k.opens path
        then (do
          zoned ← is_zoned k path
          (c', size) ←
              get_sector_size k
                (record c { znsdev = record c.znsdev { dev_path = path; is_zoned = zoned } }) path
          init_zone_map k (
              set_geometry
                (record c' { znsdev = record c'.znsdev { nr_zones = get_nr_zones k c' } }) size))
        else exited)

  -- Of the superblock the first two devices, less "/dev/" in their names. The loop over the devices
  -- only prints.
  unfoldable pub set_super_block_info : Control → SuperBlock → Run Control
  set_super_block_info c sb = do
    name_0 ← fit_name (drop 5 (device_path sb 0))
    zoned ← is_zoned k (device_path sb 0)
    (c_1, size) ←
        get_sector_size k
          (record c {
            bdev = record c.bdev {
              dev_name = name_0;
              dev_path = device_path sb 0;
              is_zoned = zoned;
            };
          })
          (device_path sb 0)
    name_1 ← fit_name (drop 5 (device_path sb 1))
    c_2 ← init_znsdev (record c_1 {
      sector_size = size;
      segment_shift = if size == 512 then 12 else 9;
      znsdev = record c_1.znsdev { dev_name = name_1 };
    })
    if c_2.znsdev.is_zoned then returned c_2 else exited

  unfoldable pub set_fs_magic : Control → Text → Run Control
  set_fs_magic c name = elim (k.file_system name) [
    | none ↦ exited
    | some magic ↦ returned (record c { fs_magic = magic })
  ]

  -- The zones, once the ZNS device is known.
  abbrev pub set_zones : Control → Control
  set_zones c = record c {
    znsdev = record c.znsdev {
      zone_size = get_zone_size k c;
      zone_mask = mask_of (get_zone_size k c);
      nr_zones = get_nr_zones k c;
    };
  }

  -- `devices` is what lseek and read do on each device, `scanned` what scanf reads.
  module _ (devices : Text → BlockDevice) (scanned : Option Text) where
    unfoldable pub f2fs_read_super_block : Text → Run SuperBlock
    unfolding read_super
    f2fs_read_super_block path =
        if k.opens path
        then (elim (read_super (devices path)) [ none ↦ exited | some sb ↦ returned sb ])
        else exited

    -- The device of the file, and the superblock on it, which is kept in `f2fs_sb`.
    unfoldable pub load_super : Control → Stat → Run (Control × SuperBlock)
    unfolding f2fs_read_super_block
    load_super c st = do
      c_1 ← init_dev c st
      sb ← f2fs_read_super_block c_1.bdev.dev_path
      returned (c_1, sb)

    unfoldable pub init_f2fs : Control → Stat → Run Control
    unfolding load_super
    init_f2fs c st = do
      (c_1, sb) ← load_super c st
      c_2 ← set_super_block_info c_1 sb
      returned
          (set_zones (record c_2 { multi_dev = true; offset = get_dev_size k c_2.bdev.dev_path }))

    pub init_btrfs : Control → Run Control
    init_btrfs c = elim scanned [
      | none ↦ exited
      | some name ↦ do
        fitting ← fit_name name
        c_1 ← init_znsdev (record c { znsdev = record c.znsdev { dev_name = fitting } })
        returned (set_zones (record c_1 { multi_dev = false; offset = 0 }))
    ]

    unfoldable pub init_ctrl : Control → Text → Stat → Run Control
    init_ctrl c filename st = do
      c_1 ← set_fs_magic c filename
      (if c_1.fs_magic == f2fs_magic
          then init_f2fs c_1 st
          else if c_1.fs_magic == btrfs_magic
          then init_btrfs c_1
          else returned c_1)

    -- For zns.segmap, the file system's own data too: `segman` is what f2fs_fs_manager_init returns
    -- for the device's name. Also whether the path is a directory.
    unfoldable pub check_dir_init_ctrl :
        (Text → Option (List SegmentInfo)) → Control → Text → Option Stat → Run (Control × Bool)
    check_dir_init_ctrl segman c dir none = exited
    check_dir_init_ctrl segman c dir (some st) = do
      c_1 ← init_ctrl c dir st
      (if c_1.fs_magic == f2fs_magic
          then returned (
            record c_1 {
              fs_manager = segman c_1.bdev.dev_name;
              fs_info_bytes = segment_info_bytes;
            },
            st.is_dir,
          )
          else returned (c_1, st.is_dir))
