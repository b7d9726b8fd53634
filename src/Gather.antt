-- ===== src/Gather.antt =====
-- What every program does with one file: `get_extents`, and the checks that main in src/fiemap.c and
-- src/segmap.c, and `collect_extents` there, make of its result (under zns-tools.fs/).
pub mod State
pub mod Tests
use zns_tools.Base.{ℕ, Bool, true, false, Option, none, some, Text, ◌==◌, if◌then◌else◌}
use zns_tools.Types.{Control, Run, returned, exited, faulted, ◌>>=◌}
use zns_tools.Device.{Kernel}
use zns_tools.Fiemap.{Fiemap, Status, success, failure, get_extents, zonemap_of}

-- A failure ends the process, and so does a zone map that is still empty.
pub require_extents : Run (Control × Status) → Run Control
require_extents exited = exited
require_extents faulted = faulted
require_extents (returned (c, failure)) = exited
require_extents (returned (c, success)) = do
  m ← zonemap_of c
  (if m.extent_ctr == 0 then exited else returned c)

abbrev pub required : Option (Run (Control × Status)) → Option (Run Control)
required none = none
required (some r) = some (require_extents r)

-- On fuel, as `get_extents` is.
pub map_file : Kernel → ℕ → Text → Fiemap → ℕ → Control → Option (Run Control)
unfolding require_extents
map_file k fuel filename fiemap st_blocks c =
    required (get_extents k filename fiemap fuel c st_blocks)
