-- ===== src/Gather/Tests.antt =====
-- The file of two extents on the device of the tests.
use zns_tools.Base.{◌≡◌, refl, ◌^◌, arith, inl, ◌*◌, All, [], ◌∷◌}
use zns_tools.Fixtures.{kernel, control, no_extents, zone_3}
use zns_tools.ZoneList.Totals.{total}
use zns_tools.Fiemap.Collect.{recorded, IsPlaced}
use zns_tools.Fiemap.Placed.{IsDevice, IsInside, inside-IsPlaced_list}
use zns_tools.Fiemap.Tests.{file, fiemap, name, empty_map, file-IsLayout, two_recorded}
use zns_tools.Gather.{map_file}
use zns_tools.Gather.State.{IsReady, IsFile, Gathered, map_file-Gathered}

pub device : IsDevice kernel control 4 16
device = record {
  opens = refl;
  reports = λ start. (zone_3 ∷ [], refl);
  small = omega arith;
  zone_size = refl;
  room = omega arith;
  shifts = refl;
  segments = inl refl;
}

pub file_in_zones : All (IsInside control (4 * 2 ^ 16)) file
file_in_zones = ((omega arith, omega arith), ((omega arith, omega arith), tt))

inside-IsPlaced_list_example : All (IsPlaced kernel name control 4) file
inside-IsPlaced_list_example =
    inside-IsPlaced_list kernel control 4 16 device name file file_in_zones

pub ready : IsReady kernel control no_extents 16
ready = record { here = refl; valid = empty_map; device = device; counters = tt }

abbrev pub whole_file : IsFile control (4 * 2 ^ 16) 2 fiemap 2048
whole_file = record {
  file = file;
  answers = λ start len. refl;
  layout = file-IsLayout;
  holes = (omega arith, (omega arith, tt));
  word = omega arith;
  enough = omega arith;
  inside = file_in_zones;
}

pub no_total : total no_extents.zones ≡ 0
no_total = refl

map_file-Gathered_example :
    Gathered kernel name file control no_extents 16
      (recorded control file)
      (map_file kernel 2 name fiemap 2048 control)
map_file-Gathered_example =
    map_file-Gathered kernel 2 name fiemap 2048 control no_extents 16 ready whole_file
      (omega (arith, no_total)) (omega arith) (omega (arith, no_total, two_recorded))
