-- ===== src/Pointers/Tests.antt =====
-- Three extents of a zone, out of order, at addresses of their own.
use zns_tools.Base.{refl, List, [], ◌∷◌, arith}
use zns_tools.Fixtures.{extent_at, zone_with}
use zns_tools.Pointers.Lifetime.{Call, Kept, add_calls-Kept}

abbrev calls : List Call
calls =
    (16, 17, extent_at 200000 8) ∷ (32, 33, extent_at 196608 8) ∷ (48, 49, extent_at 198000 8) ∷ []

add_calls-Kept_example : Kept 4 calls (zone_with 0 [])
add_calls-Kept_example =
    add_calls-Kept 4 calls (zone_with 0 []) refl refl
      (
        record { real = refl; node_apart = refl; extent_apart = refl },
        (
          record { real = refl; node_apart = refl; extent_apart = refl },
          (record { real = refl; node_apart = refl; extent_apart = refl }, tt),
        ),
      )
      (omega arith) (omega arith)
