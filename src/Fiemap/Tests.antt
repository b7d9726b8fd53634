-- ===== src/Fiemap/Tests.antt =====
-- A file of two extents with a hole between them.
use zns_tools.Base.{◌≡◌, refl, some, [], ◌∷◌, List, Text, All, arith}
use zns_tools.Types.{exited}
use zns_tools.Fixtures.{kernel, control, no_extents, zone_with}
use zns_tools.Zones.{get_zone_number, get_zone_info}
use zns_tools.ZoneList.Valid.{ZoneIsValid}
use zns_tools.ZoneList.Totals.{total}
use zns_tools.Fiemap.{
  FiemapExtent, Fiemap, finish, get_extents, prepare, new_extent, set_fs_info, is_recorded,
}
use zns_tools.Fiemap.Layout.{overlapping, IsLayout}
use zns_tools.Fiemap.Loop.{collect, succeed, grown, get_extents_lem, get_extents_sparse}
use zns_tools.Fiemap.Record.{MapIsValid}
use zns_tools.Fiemap.Collect.{recorded, IsPlaced}
use zns_tools.Fiemap.Whole.{MappedFile, get_extents-MappedFile}

abbrev pub file : List FiemapExtent
file =
    record { fe_logical = 0; fe_physical = 100671488; fe_length = 4096; fe_flags = 0 }
    ∷ record { fe_logical = 8192; fe_physical = 100675584; fe_length = 4096; fe_flags = 1 }
    ∷ []

abbrev pub fiemap : Fiemap
fiemap start len = some (overlapping file start len)

abbrev pub name : Text
name = 102 ∷ []

pub empty_map : MapIsValid no_extents
empty_map =
    let z : ZoneIsValid (zone_with 0 []) = record { sorted = tt; counted = refl } in
    record { zones = (z, (z, (z, (z, tt)))); extents = refl; per_extent = refl; sizes = refl }

placed : All (IsPlaced kernel name control 4) file
unfolding prepare new_extent set_fs_info get_zone_info get_zone_number
placed = (λ wanted n. (_, refl, omega arith, refl), (λ wanted n. (_, refl, omega arith, refl), tt))

pub file-IsLayout : IsLayout 0 file
file-IsLayout =
    (omega arith, omega arith, omega arith, refl, (omega arith, omega arith, omega arith, refl))

no_total : total no_extents.zones ≡ 0
no_total = refl

pub two_recorded : recorded control file ≡ 2
unfolding recorded is_recorded
two_recorded = refl

get_extents-MappedFile_example :
    MappedFile kernel name fiemap control no_extents 2 2048 file (recorded control file)
get_extents-MappedFile_example =
    get_extents-MappedFile kernel name fiemap file 2 2048 control no_extents (λ start len. refl)
      file-IsLayout (omega arith, (omega arith, tt)) (omega arith) (omega arith) refl empty_map
      (omega (arith, no_total)) tt placed

get_extents_lem_example :
    get_extents kernel name fiemap 2 control 2048
    ≡ some (
        finish kernel name fiemap
          (succeed kernel name (collect kernel name (grown kernel name fiemap control) 0 file)))
get_extents_lem_example =
    get_extents_lem kernel name fiemap file 2 2048 control (λ start len. refl) file-IsLayout
      (omega arith, (omega arith, tt)) (omega arith) (omega arith)

-- One block of 512B at byte 4096 of the file.
abbrev sparse : List FiemapExtent
sparse = record { fe_logical = 4096; fe_physical = 100671488; fe_length = 512; fe_flags = 1 } ∷ []

get_extents_sparse_example :
    get_extents kernel name (λ start len. some (overlapping sparse start len)) 1 control 1
    ≡ some exited
get_extents_sparse_example =
    get_extents_sparse kernel name (λ start len. some (overlapping sparse start len)) sparse 0 1
      control (λ start len. refl) (omega arith, omega arith, omega arith, refl) (omega arith)
