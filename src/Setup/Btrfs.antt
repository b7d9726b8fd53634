-- ===== src/Setup/Btrfs.antt =====
-- The control block after `init_btrfs`: ready for the first file.
use zns_tools.Base.{
  ℕ, ◌≡◌, refl, ap, true, false, none, some, Text, length, ltb, ◌==◌, if◌then◌else◌, arith,
}
use zns_tools.Types.{ZoneMap, Control, Run, returned, ◌>>=◌}
use zns_tools.Device.{f2fs_magic, btrfs_magic, Kernel}
use zns_tools.ZoneList.Totals.{total}
use zns_tools.Gather.State.{IsReady}
use zns_tools.Ondisk.Read.{BlockDevice}
use zns_tools.Setup.{
  Stat, set_fs_magic, init_ctrl, set_geometry, init_znsdev, set_zones, init_f2fs, init_btrfs,
}
pub use zns_tools.Setup.Mount.{AnswersAs}
use zns_tools.Setup.Mount.{init_znsdev-MountedAt}

module _ (k : Kernel) (name : Text) (sector_size nr bits : ℕ)
    (a : AnswersAs k name sector_size nr bits) where
  -- What the set-up leaves: the invariant between files, and nothing recorded yet.
  pub record Mounted (c : Control) (r : Run Control) : Type 0 where
    pub c' : Control
    pub m' : ZoneMap
    pub result : r ≡ returned c'
    pub ready : IsReady k c' m' bits
    pub empty : total m'.zones ≡ 0
    pub zones : length m'.zones ≡ nr
    pub offset : c'.offset ≡ 0
    pub nr_files : c'.nr_files ≡ c.nr_files
    pub exclude_flags : c'.exclude_flags ≡ c.exclude_flags
    pub show_holes : c'.show_holes ≡ c.show_holes
    pub fs_magic : c'.fs_magic ≡ c.fs_magic
    pub info : c'.fs_info_bytes ≡ c.fs_info_bytes

  init_btrfs_returns :
      (devices : Text → BlockDevice) (c c_1 : Control)
      → init_znsdev k (record c { znsdev = record c.znsdev { dev_name = name } }) ≡ returned c_1
      → init_btrfs k devices (some name) c
        ≡ returned (set_zones k (record c_1 { multi_dev = false; offset = 0 }))
  unfolding init_btrfs
  init_btrfs_returns devices c c_1 device =
      let fits : ltb (length name) 15 ≡ true = ground (arith, a.short) in rw (fits, device) refl

  set_fs_magic_is :
      (c : Control) (filename : Text) (magic : ℕ)
      → k.file_system filename ≡ some magic
      → set_fs_magic k c filename ≡ returned (record c { fs_magic = magic })
  unfolding set_fs_magic
  set_fs_magic_is c filename magic answer = rw (answer, set_fs_magic) refl

  -- On a path of Btrfs, the set-up is that.
  pub init_ctrl_btrfs :
      (devices : Text → BlockDevice) (c : Control) (filename : Text) (st : Stat)
      → k.file_system filename ≡ some btrfs_magic
      → init_ctrl k devices (some name) c filename st
        ≡ init_btrfs k devices (some name) (record c { fs_magic = btrfs_magic })
  unfolding init_ctrl
  init_ctrl_btrfs devices c filename st magic =
      ap
        (λ (r : Run Control). r >>= (λ c_1.
          if c_1.fs_magic == f2fs_magic
          then init_f2fs k devices (some name) c_1 st
          else if c_1.fs_magic == btrfs_magic
          then init_btrfs k devices (some name) c_1
          else returned c_1))
        (set_fs_magic_is c filename btrfs_magic magic)

  -- From a control block without files, a device that answers is set up for Btrfs: ready for the
  -- first file, with the device's zones and no extents, at offset 0.
  pub init_btrfs-Mounted :
      (devices : Text → BlockDevice) (c : Control)
      → c.fs_info_bytes ≡ 0
      → c.zns_sector_shift ≡ 0
      → c.file_counter_map ≡ none
      → Mounted c (init_btrfs k devices (some name) c)
  unfolding set_geometry
  init_btrfs-Mounted devices c no_info no_shift no_files =
      let c_0 = record c { znsdev = record c.znsdev { dev_name = name } } in
      let r =
        init_znsdev-MountedAt k name sector_size nr bits a c_0 false (λ c_1. 0) refl no_info
          (ap (λ (n : ℕ). if sector_size == 4096 then 3 else n) no_shift) no_files in
      record {
        c' = set_zones k (record r.c_1 { multi_dev = false; offset = 0 });
        m' = r.m';
        result = init_btrfs_returns devices c r.c_1 r.result;
        ready = r.ready;
        empty = r.empty;
        zones = r.zones;
        offset = refl;
        nr_files = ap (λ (t : Control). t.nr_files) r.rest;
        exclude_flags = ap (λ (t : Control). t.exclude_flags) r.rest;
        show_holes = ap (λ (t : Control). t.show_holes) r.rest;
        fs_magic = ap (λ (t : Control). t.fs_magic) r.rest;
        info = ap (λ (t : Control). t.fs_info_bytes) r.rest;
      }
