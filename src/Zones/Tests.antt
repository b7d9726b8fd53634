-- ===== src/Zones/Tests.antt =====
-- Zone numbers at concrete addresses.
use zns_tools.Base.{◌-◌, ◌/◌, ◌%◌, ◌^◌, ◌<◌, ◌≡◌, ◌↔◌, refl, arith}
use zns_tools.Fixtures.{control}
use zns_tools.Zones.{get_zone_number}
use zns_tools.Zones.Numbers.{get_zone_number_lem, get_zone_number_exact_iff}

get_zone_number_lem_example : get_zone_number control 196700 ≡ 196700 / 2 ^ 16 % 2 ^ (32 - 16)
get_zone_number_lem_example = get_zone_number_lem control 16 196700 (omega arith) refl

get_zone_number_exact_iff_example :
    (get_zone_number control 196700 ≡ 196700 / 2 ^ 16) ↔ (196700 < 2 ^ 32)
get_zone_number_exact_iff_example = get_zone_number_exact_iff control 16 196700 (omega arith) refl
