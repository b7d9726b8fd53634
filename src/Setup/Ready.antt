-- ===== src/Setup/Ready.antt =====
-- The control block after `init_znsdev`: its zone map and its segment geometry.
use native.Mathlib.Nat.{mod-eq_of_lt}
use zns_tools.Base.{
  ℕ, ◌^◌, ◌<◌, ◌≡◌, refl, ◌∙◌, true, some, List, ◌++◌, Text, length, ◌==◌, if◌then◌else◌, arith,
  trunc32, Bool-cases, inl, inr,
}
use zns_tools.Types.{ZoneMap, Control, returned}
use zns_tools.Device.{
  BlkZone, Kernel, is_zoned, get_sector_size, get_nr_zones, init_zones, init_zone_map,
}
use zns_tools.Device.ZoneMap.{length-init_zones, total-init_zones, init_zones-MapIsValid}
use zns_tools.ZoneList.Totals.{total}
use zns_tools.Fiemap.Record.{MapIsValid}
use zns_tools.Segments.Geometry.{IsGeometry}
use zns_tools.Setup.{dev, set_geometry, init_znsdev}

-- Segments of 2 MiB have 2 ^ 12 sectors of 512B; any other size is taken for 4 KiB.
abbrev pub segment_bits : ℕ → ℕ
segment_bits sector_size = if sector_size == 512 then 12 else 9

set_geometry-IsGeometry :
    (c : Control) (size : ℕ) → IsGeometry (set_geometry c size) (segment_bits size)
unfolding set_geometry
set_geometry-IsGeometry c size = elim (Bool-cases (size == 512)) [
  | inl small ↦
      rw small
        (record { small = omega arith; mask = refl; shift = refl; sectors = refl; bytes = refl })
  | inr large ↦
      rw large
        (record { small = omega arith; mask = refl; shift = refl; sectors = refl; bytes = refl })
]

-- The control block with the device's path and its zones' number and shift.
abbrev pub with_device : Control → ℕ → ℕ → Control
with_device c shift nr = record c {
  znsdev = record c.znsdev { dev_path = dev ++ c.znsdev.dev_name; is_zoned = true; nr_zones = nr };
  zns_sector_shift = shift;
}

-- What the set-up of the ZNS device leaves.
pub record Ready (k : Kernel) (c : Control) (sector_size : ℕ) : Type 0 where
  pub c' : Control
  pub map' : ZoneMap
  pub result : init_znsdev k c ≡ returned c'
  pub has_map : c'.zonemap ≡ some map'
  pub valid : MapIsValid map'
  pub empty : total map'.zones ≡ 0
  pub zones : length map'.zones ≡ c'.znsdev.nr_zones
  pub geometry : IsGeometry c' (segment_bits sector_size)
  pub shift : ℕ
  pub shift_set : shift ≡ (if sector_size == 4096 then 3 else c.zns_sector_shift)
  pub nr : ℕ
  pub nr_set : (n : ℕ) → k.nr_zones (dev ++ c.znsdev.dev_name) ≡ some n → nr ≡ trunc32 n
  pub rest : c' ≡ record (set_geometry (with_device c shift nr) sector_size) { zonemap = some map' }

nr_zones_known :
    (k : Kernel) (c : Control) (n : ℕ)
    → k.opens c.znsdev.dev_path ≡ true
    → k.nr_zones c.znsdev.dev_path ≡ some n
    → get_nr_zones k c ≡ trunc32 n
unfolding get_nr_zones
nr_zones_known k c n opens answer = rw (opens, answer) refl

zone_map_built :
    (k : Kernel) (c : Control) (zs : List BlkZone)
    → k.opens c.znsdev.dev_path ≡ true
    → k.report c.znsdev.dev_path 0 c.znsdev.nr_zones ≡ some zs
    → init_zone_map k c
      ≡ returned (record c {
        zonemap = some (record {
          nr_zones = c.znsdev.nr_zones;
          extent_ctr = 0;
          cum_extent_size = 0;
          zone_ctr = 0;
          zones = init_zones k c zs c.znsdev.nr_zones 0;
        });
      })
unfolding init_zone_map
zone_map_built k c zs opens reports = rw (opens, reports) refl

-- With the device's sector size known, the rest is the geometry and the zone map.
sized_Ready :
    (k : Kernel) (c : Control) (shift sector_size : ℕ) (zs : ℕ → List BlkZone)
    → shift ≡ (if sector_size == 4096 then 3 else c.zns_sector_shift)
    → k.opens (dev ++ c.znsdev.dev_name) ≡ true
    → ((n : ℕ) → k.report (dev ++ c.znsdev.dev_name) 0 n ≡ some (zs n))
    → init_znsdev k c
      ≡ init_zone_map k (
          set_geometry
            (with_device c shift (get_nr_zones k (with_device c shift c.znsdev.nr_zones)))
            sector_size)
    → Ready k c sector_size
unfolding set_geometry
sized_Ready k c shift sector_size zs shift_set opens reports run =
    let c_1 = with_device c shift c.znsdev.nr_zones in
    let nr = get_nr_zones k c_1 in
    let c_2 = set_geometry (with_device c shift nr) sector_size in
    let g = set_geometry-IsGeometry (with_device c shift nr) sector_size in
    record {
      c' = record c_2 {
        zonemap = some (record {
          nr_zones = nr;
          extent_ctr = 0;
          cum_extent_size = 0;
          zone_ctr = 0;
          zones = init_zones k c_2 (zs nr) nr 0;
        });
      };
      map' = record {
        nr_zones = nr;
        extent_ctr = 0;
        cum_extent_size = 0;
        zone_ctr = 0;
        zones = init_zones k c_2 (zs nr) nr 0;
      };
      result = run ∙ zone_map_built k c_2 (zs nr) opens (reports nr);
      has_map = refl;
      valid = init_zones-MapIsValid k c_2 (zs nr) nr nr;
      empty = total-init_zones k c_2 (zs nr) nr 0;
      zones = length-init_zones k c_2 (zs nr) nr 0;
      geometry = record {
        small = g.small;
        mask = g.mask;
        shift = g.shift;
        sectors = g.sectors;
        bytes = g.bytes;
      };
      shift = shift;
      shift_set = shift_set;
      nr = nr;
      nr_set = λ n answer. nr_zones_known k c_1 n opens answer;
      rest = refl;
    }

zoned_true :
    (k : Kernel) (path : Text) (zs : List BlkZone)
    → k.opens path ≡ true
    → k.report path 0 1 ≡ some zs
    → is_zoned k path ≡ returned true
unfolding is_zoned
zoned_true k path zs opens reports = rw (opens, reports) refl

-- The size, and the shift for 4 KiB sectors.
sector_size_known :
    (k : Kernel) (c : Control) (path : Text) (s : ℕ)
    → k.opens path ≡ true
    → k.sector_size path ≡ some s
    → s < 2 ^ 32
    → get_sector_size k c path
      ≡ returned (if s == 4096 then record c { zns_sector_shift = 3 } else c, s)
unfolding get_sector_size
sector_size_known k c path s opens sectors fits =
    let size : trunc32 s ≡ s = mod-eq_of_lt fits in rw (opens, sectors, size) refl

-- On a device that opens, tells its sector size and reports its zones, `init_znsdev` returns; the
-- zone map is then valid, without extents, and has the device's zones, and the segment mask and
-- shifts agree with the sector size.
pub init_znsdev-Ready :
    (k : Kernel) (c : Control) (sector_size : ℕ) (zs : ℕ → List BlkZone)
    → k.opens (dev ++ c.znsdev.dev_name) ≡ true
    → k.sector_size (dev ++ c.znsdev.dev_name) ≡ some sector_size
    → sector_size < 2 ^ 32
    → ((n : ℕ) → k.report (dev ++ c.znsdev.dev_name) 0 n ≡ some (zs n))
    → Ready k c sector_size
unfolding init_znsdev
init_znsdev-Ready k c sector_size zs opens sectors fits reports =
    let path = dev ++ c.znsdev.dev_name in
    let c_0 = record c { znsdev = record c.znsdev { dev_path = path; is_zoned = true } } in
    let zoned = zoned_true k path (zs 1) opens (reports 1) in
    let queried = sector_size_known k c_0 path sector_size opens sectors fits in
    elim (Bool-cases (sector_size == 4096)) [
      | inl large ↦
          sized_Ready k c 3 sector_size zs (rw large refl) opens reports
            (rw (opens, zoned, queried, large) refl)
      | inr small ↦
          sized_Ready k c c.zns_sector_shift sector_size zs (rw small refl) opens reports
            (rw (opens, zoned, queried, small) refl)
    ]
