-- ===== src/Device/ZoneMap.antt =====
-- The zone map as `init_zone_map` builds it: valid and empty.
use zns_tools.Base.{ℕ, zero, suc, ◌+◌, ◌≡◌, refl, sym, ap, List, length, All, arith}
use zns_tools.Types.{Control}
use zns_tools.Device.{BlkZone, Kernel, init_zone, init_zones}
use zns_tools.ZoneList.Valid.{ZoneIsValid}
use zns_tools.ZoneList.Totals.{total, size}
use zns_tools.Fiemap.Record.{MapIsValid}

module _ (k : Kernel) (c : Control) (zs : List BlkZone) where
  pub length-init_zones : (n i : ℕ) → length (init_zones k c zs n i) ≡ n
  unfolding init_zones
  length-init_zones zero i = refl
  length-init_zones (suc n) i = ap suc (length-init_zones n (i + 1))

  pub init_zones-IsValid : (n i : ℕ) → All ZoneIsValid (init_zones k c zs n i)
  unfolding init_zones init_zone
  init_zones-IsValid zero i = tt
  init_zones-IsValid (suc n) i =
      (record { sorted = tt; counted = refl }, init_zones-IsValid n (i + 1))

  pub total-init_zones : (n i : ℕ) → total (init_zones k c zs n i) ≡ 0
  unfolding init_zones init_zone
  total-init_zones zero i = refl
  total-init_zones (suc n) i = omega (arith, total-init_zones n (i + 1))

  pub size-init_zones : (n i : ℕ) → size (init_zones k c zs n i) ≡ 0
  unfolding init_zones init_zone
  size-init_zones zero i = refl
  size-init_zones (suc n) i = omega (arith, size-init_zones n (i + 1))

  pub init_zones-MapIsValid :
      (n nr : ℕ)
      → MapIsValid (record {
        nr_zones = nr;
        extent_ctr = 0;
        cum_extent_size = 0;
        zone_ctr = 0;
        zones = init_zones k c zs n 0;
      })
  init_zones-MapIsValid n nr = record {
    zones = init_zones-IsValid n 0;
    extents = sym (total-init_zones n 0);
    per_extent = sym (total-init_zones n 0);
    sizes = omega (arith, size-init_zones n 0);
  }
