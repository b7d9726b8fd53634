-- ===== src/Zones.antt =====
-- Zone numbers and zone reports: `get_zone_number`, `print_zone_info` and `get_zone_info` of
-- lib/libzns-tools.c (under zns-tools.fs/).
pub mod Numbers
mod Tests
use zns_tools.Base.{
  ℕ, ◌*◌, ◌/◌, bit_and, Bool, Option, none, some, List, if◌then◌else◌, trunc32, add64, mul64, sub64,
  not64, shl64, shr,
}
use zns_tools.Types.{Extent, Control, Run, returned, exited}
use zns_tools.Device.{BlkZone, Kernel, reported}

-- The zone size in 512B sectors, `ctrl.znsdev.zone_size << ctrl.zns_sector_shift`.
abbrev pub zone_sectors : Control → ℕ
zone_sectors c = shl64 c.znsdev.zone_size c.zns_sector_shift

-- `zone_mask` is a uint32_t there, so the complement loses its upper half. For a device with zones:
-- without a zone size the division is by zero, and there is no zone that the result could be.
unfoldable pub get_zone_number : Control → ℕ → ℕ
get_zone_number c lba =
    trunc32 (bit_and lba (trunc32 (not64 (sub64 (zone_sectors c) 1))) / zone_sectors c)

-- What `print_zone_info` prints of a zone.
pub record ZoneInfo : Type 0 where
  pub zone : ℕ
  pub lbas : ℕ
  pub lbae : ℕ
  pub cap : ℕ
  pub wp : ℕ
  pub size : ℕ
  pub state : ℕ
  pub mask : ℕ

abbrev pub zone_info : Control → ℕ → BlkZone → ZoneInfo
zone_info c zone z = record {
  zone = zone;
  lbas = shr z.start c.zns_sector_shift;
  lbae = add64 (shr z.start c.zns_sector_shift) (shr z.capacity c.zns_sector_shift);
  cap = shr z.capacity c.zns_sector_shift;
  wp = shr z.wp c.zns_sector_shift;
  size = shr z.len c.zns_sector_shift;
  state = z.cond * 16;
  mask = c.znsdev.zone_mask;
}

-- The fields that `get_zone_info` sets.
abbrev pub set_zone_info : Control → BlkZone → Extent → Extent
set_zone_info c z e = record e {
  zone_wp = shr z.wp c.zns_sector_shift;
  zone_lbae = add64 (shr z.start c.zns_sector_shift) (shr z.capacity c.zns_sector_shift);
  zone_cap = shr z.capacity c.zns_sector_shift;
  zone_lbas = shr z.start c.zns_sector_shift;
}

module _ (k : Kernel) where
  -- `none` where the device does not open: nothing is printed.
  unfoldable pub print_zone_info : Control → ℕ → Run (Option ZoneInfo)
  print_zone_info c zone =
      if k.opens c.znsdev.dev_path
      then (elim (k.report c.znsdev.dev_path (mul64 (zone_sectors c) zone) 1) [
        | none ↦ exited
        | some zs ↦ returned (some (zone_info c zone (reported zs 0)))
      ])
      else returned none

  unfoldable pub get_zone_info : Control → Extent → Run Extent
  get_zone_info c e =
      if k.opens c.znsdev.dev_path
      then (elim (k.report c.znsdev.dev_path (mul64 (zone_sectors c) e.zone) 1) [
        | none ↦ exited
        | some zs ↦ returned (set_zone_info c (reported zs 0) e)
      ])
      else returned e
