-- ===== src/Device.antt =====
-- The device queries and the set-up of the control block: lib/libzns-tools.c, up to the zone map
-- and from `set_super_block_info` on (under zns-tools.fs/).
pub mod ZoneMap
use zns_tools.Base.{
  ℕ, zero, suc, ◌+◌, ◌-◌, ◌*◌, ◌%◌, ◌^◌, Bool, true, false, Option, none, some, List, [], ◌∷◌, Text,
  ◌==◌, if◌then◌else◌, trunc32, add64, shr,
}
use zns_tools.Types.{Zone, Control, Run, returned, exited}

-- `struct blk_zone` of linux/blkzoned.h, as far as the tools read it; all in 512B sectors.
pub record BlkZone : Type 0 where
  pub start : ℕ
  pub len : ℕ
  pub wp : ℕ
  pub cond : ℕ
  pub capacity : ℕ

-- What the kernel answers about devices and files: `none` is a call that fails.
pub record Kernel : Type 0 where
  -- open(path, O_RDONLY) succeeds
  pub opens : Text → Bool
  -- readlink(path)
  pub read_link : Text → Option Text
  -- BLKSSZGET, BLKGETZONESZ (in 512B sectors), BLKGETNRZONES, BLKGETSIZE64 on a device path
  pub sector_size : Text → Option ℕ
  pub zone_sectors : Text → Option ℕ
  pub nr_zones : Text → Option ℕ
  pub size_bytes : Text → Option ℕ
  -- BLKREPORTZONE: from this sector on, at most so many zones
  pub report : Text → ℕ → ℕ → Option (List BlkZone)
  -- statfs(path).f_type
  pub file_system : Text → Option ℕ

abbrev pub f2fs_magic : ℕ
f2fs_magic = 0xF2F52010

abbrev pub btrfs_magic : ℕ
btrfs_magic = 0x9123683E

-- F2FS_SEGMENT_BYTES
abbrev pub segment_bytes : ℕ
segment_bytes = 2097152

-- What calloc leaves in an entry of the report that the kernel does not fill.
abbrev pub no_zone : BlkZone
no_zone = record { start = 0; len = 0; wp = 0; cond = 0; capacity = 0 }

abbrev pub reported : List BlkZone → ℕ → BlkZone
reported [] i = no_zone
reported (z ∷ zs) zero = z
reported (z ∷ zs) (suc i) = reported zs i

module _ (k : Kernel) where
  -- `is_zoned`: the code's `return 0` after ERR_MSG is not reached.
  unfoldable pub is_zoned : Text → Run Bool
  is_zoned path =
      if k.opens path
      then (elim (k.report path 0 1) [ none ↦ returned false | some zs ↦ returned true ])
      else exited

  -- `get_sector_size`, with the shift that it sets on the way.
  unfoldable pub get_sector_size : Control → Text → Run (Control × ℕ)
  get_sector_size c path =
      if k.opens path
      then (elim (k.sector_size path) [
        | none ↦ exited
        | some s ↦ returned (if s == 4096 then record c { zns_sector_shift = 3 } else c, trunc32 s)
      ])
      else exited

  -- `get_dev_size`: -1, as a uint64_t, when the size cannot be had.
  unfoldable pub get_dev_size : Text → ℕ
  get_dev_size path =
      if k.opens path
      then (elim (k.size_bytes path) [ none ↦ 2 ^ 64 - 1 | some n ↦ n ])
      else 2 ^ 64 - 1

  unfoldable pub get_zone_size : Control → ℕ
  get_zone_size c =
      if k.opens c.znsdev.dev_path
      then (elim (k.zone_sectors c.znsdev.dev_path) [
        | none ↦ 0
        | some n ↦ shr n c.zns_sector_shift
      ])
      else 0

  unfoldable pub get_nr_zones : Control → ℕ
  get_nr_zones c =
      if k.opens c.znsdev.dev_path
      then (elim (k.nr_zones c.znsdev.dev_path) [ none ↦ 0 | some n ↦ trunc32 n ])
      else 0

  -- The body of the loop in `init_zone_map`, for zone `i`.
  unfoldable pub init_zone : Control → List BlkZone → ℕ → Zone
  init_zone c zs i = record {
    zone_number = i;
    start = shr (reported zs i).start c.zns_sector_shift;
    end =
        add64 (shr (reported zs i).start c.zns_sector_shift)
          (shr (reported zs i).capacity c.zns_sector_shift);
    capacity = shr (reported zs i).capacity c.zns_sector_shift;
    wp = 0;
    state = (reported zs i).cond * 16 % 256;
    mask = c.znsdev.zone_mask;
    extent_ctr = 0;
    extents = [];
  }

  -- The loop, over the zones from `i` on, `n` of them.
  unfoldable pub init_zones : Control → List BlkZone → ℕ → ℕ → List Zone
  unfolding init_zone
  init_zones c zs zero i = []
  init_zones c zs (suc n) i = init_zone c zs i ∷ init_zones c zs n (i + 1)

  -- `init_zone_map`: a device that does not open leaves the zone map as it is.
  unfoldable pub init_zone_map : Control → Run Control
  unfolding init_zones
  init_zone_map c =
      if k.opens c.znsdev.dev_path
      then (elim (k.report c.znsdev.dev_path 0 c.znsdev.nr_zones) [
        | none ↦ exited
        | some zs ↦ returned (record c {
          zonemap = some (record {
            nr_zones = c.znsdev.nr_zones;
            extent_ctr = 0;
            cum_extent_size = 0;
            zone_ctr = 0;
            zones = init_zones c zs c.znsdev.nr_zones 0;
          });
        })
      ])
      else returned c
