-- ===== src/Counters/Tests.antt =====
-- The counters of a concrete map.
use zns_tools.Base.{arith, inr, ◌∷◌, []}
use zns_tools.Fixtures.{one_file}
use zns_tools.Counters.Extents.{Counted, increase_file_extent_counter-Counted}

increase_file_extent_counter-Counted_example : Counted one_file (103 ∷ [])
increase_file_extent_counter-Counted_example =
    increase_file_extent_counter-Counted one_file (103 ∷ []) (omega arith) (inr (omega arith))
