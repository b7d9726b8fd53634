-- ===== src/Walk.antt =====
-- The directory walk of zns.segmap: `collect_extents` of src/segmap.c (under zns-tools.fs/). What
-- readdir, open and fstat find is a parameter, a tree.
pub mod Tree
pub mod Steps
pub mod Whole
mod Tests
use zns_tools.Base.{ℕ, Bool, true, false, ◌||◌, Option, none, some, [], ◌∷◌, ◌++◌, Text, text_eq}
use zns_tools.Types.{Control, Run, returned, exited, faulted}
use zns_tools.Device.{Kernel}
use zns_tools.Fiemap.{Fiemap}
use zns_tools.Gather.{map_file}

-- A file at the time it is opened: deleted meanwhile, not to be opened, without fstat, or open, with
-- its extents and its size in 512B blocks.
pub data FileState : Type 0 where
  deleted : FileState
  denied : FileState
  no_stat : FileState
  opened : Fiemap → ℕ → FileState

-- The entries of a directory, in readdir's order.
pub data Entries : Type 0 where
  end_of_directory : Entries
  file : Text → FileState → Entries → Entries
  directory : Text → Entries → Entries → Entries

abbrev pub is_dots : Text → Bool
is_dots name = text_eq name (46 ∷ []) || text_eq name (46 ∷ 46 ∷ [])

module _ (k : Kernel) where
  -- Each file has the same fuel; `none` is out of fuel. A file after which the map is still empty
  -- ends the process.
  pub collect_extents : ℕ → Text → Entries → Control → Option (Run Control)
  collect_extents fuel path end_of_directory c = some (returned c)
  collect_extents fuel path (file name deleted rest) c = collect_extents fuel path rest c
  collect_extents fuel path (file name denied rest) c = some exited
  collect_extents fuel path (file name no_stat rest) c = some exited
  collect_extents fuel path (file name (opened fiemap st_blocks) rest) c =
      elim (map_file k fuel (path ++ (47 ∷ name)) fiemap st_blocks c) [
        | none ↦ none
        | some exited ↦ some exited
        | some faulted ↦ some faulted
        | some (returned c') ↦ collect_extents fuel path rest c'
      ]
  collect_extents fuel path (directory name entries rest) c = elim (is_dots name) [
    | true ↦ collect_extents fuel path rest c
    | false ↦ elim (collect_extents fuel (path ++ (47 ∷ (name ++ (47 ∷ [])))) entries c) [
      | none ↦ none
      | some exited ↦ some exited
      | some faulted ↦ some faulted
      | some (returned c') ↦ collect_extents fuel path rest c'
    ]
  ]
