-- ===== src/Holes/Tests.antt =====
-- The report of a concrete zone.
use zns_tools.Base.{ℕ, Option, refl, ◌≡◌, some, [], ◌∷◌, arith}
use zns_tools.Types.{Extent, ZoneMap, returned}
use zns_tools.Zones.{ZoneInfo, print_zone_info}
use zns_tools.Holes.Tallies.{Totalled, print_fiemap_report-Totalled}
use zns_tools.Fixtures.{kernel, no_extents, zone_with, control, extent_at}
use zns_tools.Holes.{zone_lines}
use zns_tools.Holes.Tiling.{walk, finish_of, zone_lines_lem}

-- A hole of 34 sectors between the first two, none behind, and the rest up to the write pointer.
finish_of_example : finish_of 196616 (extent_at 196650 8 ∷ extent_at 196658 8 ∷ []) ≡ 196700
finish_of_example = refl

-- Behind an extent of zone 0.
abbrev elsewhere : Extent
elsewhere = record (extent_at 100 8) { zone = 0 }

zone_lines_lem_example :
    walk 196608 (zone_lines control (some elsewhere) (extent_at 196650 8 ∷ extent_at 196658 8 ∷ []))
    ≡ some (finish_of 196608 (extent_at 196650 8 ∷ extent_at 196658 8 ∷ []))
zone_lines_lem_example =
    zone_lines_lem control (some elsewhere) (extent_at 196650 8) (extent_at 196658 8 ∷ []) refl (
      refl,
      omega arith,
      omega arith,
      omega arith,
      omega arith,
      (refl, omega arith, omega arith, omega arith, omega arith, tt),
    )

-- One zone with a hole of 34 sectors within and one of 34 behind.
abbrev reported_map : ZoneMap
reported_map = record no_extents {
  extent_ctr = 2;
  cum_extent_size = 16;
  zones = zone_with 2 (extent_at 196608 8 ∷ extent_at 196650 16 ∷ []) ∷ [];
}

answered :
    (i : ℕ)
    → (z : Option ZoneInfo) × (print_zone_info kernel
          (record control { zonemap = some reported_map })
          i
        ≡ returned z)
unfolding print_zone_info
answered i = (_, refl)

print_fiemap_report-Totalled_example :
    Totalled kernel (record control { zonemap = some reported_map }) answered reported_map
print_fiemap_report-Totalled_example =
    print_fiemap_report-Totalled kernel (record control { zonemap = some reported_map }) answered
      reported_map refl refl
