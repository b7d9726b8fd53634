-- ===== src/Setup/F2fs.antt =====
-- The control block after `init_f2fs`: ready for the first file.
use zns_tools.Base.{
  ℕ, ◌≡◌, refl, ap, ◌∙◌, Bool, true, false, Option, none, some, ◌++◌, ◌∷◌, Text, length, List, ltb,
  ◌==◌, if◌then◌else◌, take, drop, trunc32, arith, inl, inr, Bool-cases,
}
use zns_tools.Types.{ZoneMap, Control, Run, returned, ◌>>=◌}
use zns_tools.Device.{
  f2fs_magic, btrfs_magic, BlkZone, Kernel, is_zoned, get_sector_size, get_dev_size,
}
use zns_tools.ZoneList.Totals.{total}
use zns_tools.Gather.State.{IsReady}
use zns_tools.Ondisk.Super.{SuperBlock, device_path}
use zns_tools.Ondisk.Read.{BlockDevice, read_super}
use zns_tools.Setup.{
  Stat, dev_block, decimal, base_of, max_path_len, init_dev, init_znsdev, set_zones,
  set_super_block_info, f2fs_read_super_block, load_super, init_f2fs, init_btrfs, init_ctrl,
  set_fs_magic, set_geometry,
}
use zns_tools.Setup.Mount.{AnswersAs, init_znsdev-MountedAt}

-- The path by number of the device that a file is on.
abbrev pub device_link : Stat → Text
device_link st = dev_block ++ (decimal st.major ++ (58 ∷ decimal st.minor))

-- A file of F2FS: its device has the superblock, which names a first device that answers. A first
-- device of 4 KiB sectors has a ZNS device of 4 KiB sectors with it.
pub record OnF2fs (k : Kernel) (devices : Text → BlockDevice) (st : Stat) (sb : SuperBlock)
    (sector_size : ℕ) : Type 0 where
  pub link : Text
  pub opens : k.opens (device_link st) ≡ true
  pub links : k.read_link (device_link st) ≡ some link
  pub short : ltb (length (base_of (take max_path_len link) (take max_path_len link))) 15 ≡ true
  pub super : read_super (devices (device_link st)) ≡ some sb
  pub first_short : ltb (length (drop 5 (device_path sb 0))) 15 ≡ true
  pub first_opens : k.opens (device_path sb 0) ≡ true
  pub first_size : ℕ
  pub first_sectors : k.sector_size (device_path sb 0) ≡ some first_size
  pub together : (first_size == 4096) ≡ true → (sector_size == 4096) ≡ true

set_fs_magic_known :
    (k : Kernel) (c : Control) (filename : Text) (magic : ℕ)
    → k.file_system filename ≡ some magic
    → set_fs_magic k c filename ≡ returned (record c { fs_magic = magic })
unfolding set_fs_magic
set_fs_magic_known k c filename magic answer = rw (answer, set_fs_magic) refl

-- On a path of F2FS, the set-up is that.
pub init_ctrl_f2fs :
    (k : Kernel) (devices : Text → BlockDevice) (scanned : Option Text) (c : Control)
    (filename : Text) (st : Stat)
    → k.file_system filename ≡ some f2fs_magic
    → init_ctrl k devices scanned c filename st
      ≡ init_f2fs k devices scanned (record c { fs_magic = f2fs_magic }) st
unfolding init_ctrl
init_ctrl_f2fs k devices scanned c filename st magic =
    ap
      (λ (r : Run Control). r >>= (λ c_1.
        if c_1.fs_magic == f2fs_magic
        then init_f2fs k devices scanned c_1 st
        else if c_1.fs_magic == btrfs_magic
        then init_btrfs k devices scanned c_1
        else returned c_1))
      (set_fs_magic_known k c filename f2fs_magic magic)

module _ (k : Kernel) (devices : Text → BlockDevice) (scanned : Option Text) (c : Control)
    (st : Stat) (sb : SuperBlock) (sector_size nr bits : ℕ) (o : OnF2fs k devices st sb sector_size)
    (a : AnswersAs k (drop 5 (device_path sb 1)) sector_size nr bits) where
  -- After `init_dev`.
  abbrev device_known : Control
  device_known = record c {
    bdev = record c.bdev {
      dev_path = device_link st;
      link_name = take max_path_len o.link;
      dev_name = base_of (take max_path_len o.link) (take max_path_len o.link);
    };
  }

  load_super_known : load_super k devices scanned c st ≡ returned (device_known, sb)
  unfolding load_super init_dev f2fs_read_super_block
  load_super_known = rw (o.opens, o.links, o.short, o.super) (rw o.opens refl)

  -- The first device, whether or not it is zoned, and the name of the second.
  abbrev devices_with : Bool → ℕ → Control
  devices_with zoned shift =
      let size = trunc32 o.first_size in
      record device_known {
        bdev = record device_known.bdev {
          dev_name = drop 5 (device_path sb 0);
          dev_path = device_path sb 0;
          is_zoned = zoned;
        };
        zns_sector_shift = shift;
        sector_size = size;
        segment_shift = if size == 512 then 12 else 9;
        znsdev = record c.znsdev { dev_name = drop 5 (device_path sb 1) };
      }

  abbrev devices_named : Bool → Control
  devices_named zoned = devices_with zoned (if o.first_size == 4096 then 3 else c.zns_sector_shift)

  zoned_known : (z : Bool) × (is_zoned k (device_path sb 0) ≡ returned z)
  unfolding is_zoned
  zoned_known = rw o.first_opens (answer (k.report (device_path sb 0) 0 1))
    where
      answer :
          (r : Option (List BlkZone))
          → (z : Bool) × ((elim r as (λ t. Run Bool) [
            | none ↦ returned false
            | some zs ↦ returned true
          ])
              ≡ returned z)
      answer none = (false, refl)
      answer (some zs) = (true, refl)

  set_super_block_info_known :
      (zoned : Bool) (c_1 : Control)
      → is_zoned k (device_path sb 0) ≡ returned zoned
      → init_znsdev k (devices_named zoned) ≡ returned c_1
      → c_1.znsdev.is_zoned ≡ true
      → set_super_block_info k device_known sb ≡ returned c_1
  unfolding set_super_block_info get_sector_size
  set_super_block_info_known zoned c_1 is device second =
      let fits = a.short in
      let second_fits : ltb (length (drop 5 (device_path sb 1))) 15 ≡ true = ground arith in
      let with_shift = λ (n : ℕ). init_znsdev k (devices_with zoned n) in
      elim (Bool-cases (o.first_size == 4096)) [
        | inl large ↦
            let shifted : with_shift 3 ≡ returned c_1 = ap with_shift (rw large refl) ∙ device in
            rw
              (
                o.first_short, is, o.first_opens, o.first_sectors, large, second_fits, shifted,
                second,
              )
              refl
        | inr small ↦
            let kept : with_shift c.zns_sector_shift ≡ returned c_1 =
              ap with_shift (rw small refl) ∙ device in
            rw (o.first_short, is, o.first_opens, o.first_sectors, small, second_fits, kept, second)
              refl
      ]

  -- What the set-up leaves: the invariant between files, nothing recorded yet, and the first device in
  -- front of the zoned one.
  pub record MountedF2fs (r : Run Control) : Type 0 where
    pub c' : Control
    pub m' : ZoneMap
    pub result : r ≡ returned c'
    pub ready : IsReady k c' m' bits
    pub empty : total m'.zones ≡ 0
    pub zones : length m'.zones ≡ nr
    pub multi_dev : c'.multi_dev ≡ true
    pub offset : c'.offset ≡ get_dev_size k (device_path sb 0)
    pub first_path : c'.bdev.dev_path ≡ device_path sb 0
    pub sectors : c'.sector_size ≡ sector_size
    pub nr_files : c'.nr_files ≡ c.nr_files
    pub exclude_flags : c'.exclude_flags ≡ c.exclude_flags
    pub show_holes : c'.show_holes ≡ c.show_holes
    pub fs_magic : c'.fs_magic ≡ c.fs_magic
    pub info : c'.fs_info_bytes ≡ c.fs_info_bytes

  abbrev first_device_size : Control → ℕ
  first_device_size c_2 = get_dev_size k c_2.bdev.dev_path

  init_f2fs_returns :
      (c_2 : Control)
      → set_super_block_info k device_known sb ≡ returned c_2
      → init_f2fs k devices scanned c st
        ≡ returned (set_zones k (record c_2 { multi_dev = true; offset = first_device_size c_2 }))
  unfolding init_f2fs
  init_f2fs_returns c_2 described = rw (load_super_known, described) refl

  shift_known :
      c.zns_sector_shift ≡ 0
      → (if sector_size == 4096
          then 3
          else (if o.first_size == 4096 then 3 else c.zns_sector_shift))
        ≡ (if sector_size == 4096 then 3 else 0)
  shift_known no_shift = elim (Bool-cases (sector_size == 4096)) [
    | inl large ↦ rw large refl
    | inr small ↦ elim (Bool-cases (o.first_size == 4096)) [
      | inl first ↦ ground (arith, o.together first)
      | inr other ↦ rw (small, other) no_shift
    ]
  ]

  -- From a control block without files, a file of F2FS whose superblock, as it is read from the file's
  -- device, names a first device and a zoned one that answer, the first of 4 KiB sectors only if the
  -- zoned one is, is set up: ready for the first file, with the zoned device's zones and sectors and
  -- no extents, and the first device's size as the offset.
  pub init_f2fs-MountedF2fs :
      c.fs_info_bytes ≡ 0
      → c.zns_sector_shift ≡ 0
      → c.file_counter_map ≡ none
      → MountedF2fs (init_f2fs k devices scanned c st)
  unfolding set_geometry
  init_f2fs-MountedF2fs no_info no_shift no_files =
      let (zoned, is) = zoned_known in
      let r =
        init_znsdev-MountedAt k (drop 5 (device_path sb 1)) sector_size nr bits a
          (devices_named zoned) true first_device_size refl no_info (shift_known no_shift)
          no_files in
      let second = ap (λ (t : Control). t.znsdev.is_zoned) r.rest in
      let path = ap (λ (t : Control). t.bdev.dev_path) r.rest in
      record {
        c' = set_zones k (record r.c_1 { multi_dev = true; offset = first_device_size r.c_1 });
        m' = r.m';
        result =
            init_f2fs_returns r.c_1 (set_super_block_info_known zoned r.c_1 is r.result second);
        ready = r.ready;
        empty = r.empty;
        zones = r.zones;
        multi_dev = refl;
        offset = ap (get_dev_size k) path;
        first_path = path;
        sectors = ap (λ (t : Control). t.sector_size) r.rest;
        nr_files = ap (λ (t : Control). t.nr_files) r.rest;
        exclude_flags = ap (λ (t : Control). t.exclude_flags) r.rest;
        show_holes = ap (λ (t : Control). t.show_holes) r.rest;
        fs_magic = ap (λ (t : Control). t.fs_magic) r.rest;
        info = ap (λ (t : Control). t.fs_info_bytes) r.rest;
      }
