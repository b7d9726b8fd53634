-- ===== src/Fiemap.antt =====
-- The extents of one file: `get_extents` of lib/libzns-tools.c (under zns-tools.fs/). The ioctl FS_IOC_FIEMAP is a parameter.
pub mod Layout
pub mod Loop
pub mod Record
pub mod Entry
pub mod Collect
pub mod Rounds
pub mod Placed
pub mod Wanted
pub mod Whole
pub mod Tests
use zns_tools.Base.{
  ℕ, zero, suc, ◌+◌, ◌*◌, ◌/◌, ◌%◌, ◌^◌, bit_and, Bool, true, false, not, Option, none, some, List,
  [], ◌∷◌, Text, length, take, ltb, ◌==◌, if◌then◌else◌, trunc32, add32, add64, sub64, shl64, shr,
}
use zns_tools.Types.{
  SegmentInfo, Extent, ZoneMap, FileCounterMap, Control, Run, returned, exited, faulted, ◌>>=◌,
}
use zns_tools.Device.{Kernel}
use zns_tools.Zones.{get_zone_number, get_zone_info}
use zns_tools.ZoneList.{add_extent_to_zone_list}
use zns_tools.Counters.{increase_file_extent_counter, grow}
use zns_tools.Procfs.{fs_info_initialize}

-- `struct fiemap_extent` of linux/fiemap.h, in bytes.
pub record FiemapExtent : Type 0 where
  pub fe_logical : ℕ
  pub fe_physical : ℕ
  pub fe_length : ℕ
  pub fe_flags : ℕ

-- FS_IOC_FIEMAP on the open file, from `fm_start` over `fm_length` bytes: the mapped extents, or
-- `none` if the call fails.
abbrev pub Fiemap : Type 0
Fiemap = ℕ → ℕ → Option (List FiemapExtent)

-- The flags of linux/fiemap.h that change what the code does.
abbrev pub fiemap_extent_last : ℕ
fiemap_extent_last = 0x1

abbrev pub fiemap_extent_data_inline : ℕ
fiemap_extent_data_inline = 0x200

-- `flags & mask` as a condition.
abbrev pub has_flag : ℕ → ℕ → Bool
has_flag flags mask = not (bit_and flags mask == 0)

-- EXIT_SUCCESS and EXIT_FAILURE
pub data Status : Type 0 where
  success failure : Status

-- Extents on the conventional device, and those with an excluded flag, are passed over.
unfoldable pub is_recorded : Control → FiemapExtent → Bool
is_recorded c fe =
    if ltb fe.fe_physical c.offset then false else not (has_flag fe.fe_flags c.exclude_flags)

-- The fields of `*extent` that are set before the zone is asked for.
pub new_extent : Control → Text → ℕ → FiemapExtent → Extent
new_extent c filename ext_ctr fe = record {
  zone =
      get_zone_number c
        (shl64 (shr (sub64 fe.fe_physical c.offset) c.sector_shift) c.zns_sector_shift);
  flags = fe.fe_flags;
  ext_nr = trunc32 ext_ctr;
  file_id = c.nr_files;
  logical_blk = shr fe.fe_logical c.sector_shift;
  phy_blk = shr (sub64 fe.fe_physical c.offset) c.sector_shift;
  zone_lbas = 0;
  zone_cap = 0;
  len = shr fe.fe_length c.sector_shift;
  zone_size = c.znsdev.zone_size;
  zone_wp = 0;
  zone_lbae = 0;
  fs_info = none;
  file = take 49 filename;
}

-- The file system's data, where the library has any.
pub set_fs_info : Control → Extent → Run Extent
set_fs_info c e = if c.fs_info_bytes == 0 then returned e else (do
  info ←
      fs_info_initialize c.fs_manager
        (trunc32 (shr (bit_and e.phy_blk c.f2fs_segment_mask) c.segment_shift))
  returned (record e { fs_info = some info }))

abbrev pub zonemap_of : Control → Run ZoneMap
zonemap_of c = elim c.zonemap [ none ↦ faulted | some m ↦ returned m ]

abbrev pub counters_of : Control → Run FileCounterMap
counters_of c = elim c.file_counter_map [ none ↦ faulted | some m ↦ returned m ]

-- The zone map with the extent in it.
pub add_to_map : ZoneMap → Extent → Run ZoneMap
add_to_map m e = do
  zones ← add_extent_to_zone_list m.zones e
  returned (record m {
    zones = zones;
    cum_extent_size = add64 m.cum_extent_size e.len;
    extent_ctr = add64 m.extent_ctr 1;
    zone_ctr = add32 m.zone_ctr 1;
  })

pub count_inlined : FiemapExtent → Control → Control
count_inlined fe c =
    if has_flag fe.fe_flags fiemap_extent_data_inline
    then record c { inlined_extent_ctr = add64 c.inlined_extent_ctr 1 }
    else c

module _ (k : Kernel) (filename : Text) where
  -- The extent to record, with what is known of its zone and its segment.
  pub prepare : Control → ℕ → FiemapExtent → Run Extent
  prepare c ext_ctr fe = do
    e ← get_zone_info k c (new_extent c filename ext_ctr fe)
    set_fs_info c e

  -- The branch of the loop that records an extent.
  pub record_extent : Control → ℕ → FiemapExtent → Run Control
  record_extent c ext_ctr fe = do
    m ← zonemap_of c
    e ← prepare c ext_ctr fe
    m' ← add_to_map m e
    files ← counters_of c
    files' ← increase_file_extent_counter files e.file
    returned (record c { zonemap = some m'; file_counter_map = some files' })

  -- The extent is recorded or passed over: the control and the extent number after it.
  pub visit : Control → ℕ → FiemapExtent → Run (Control × ℕ)
  visit c ext_ctr fe =
      if is_recorded c fe
      then (do c' ← record_extent c ext_ctr fe; returned (c', add64 ext_ctr 1))
      else returned (c, ext_ctr)

  -- One round of the loop, up to the next `fm_start`.
  pub take_extent : Control → ℕ → FiemapExtent → Run (Control × ℕ)
  take_extent c ext_ctr fe = do (c', n) ← visit c ext_ctr fe; returned (count_inlined fe c', n)

  module _ (fiemap : Fiemap) where
    -- The loop, on fuel, from `fm_start` on; `none` is out of fuel.
    pub extents_loop : ℕ → ℕ → Control → ℕ → ℕ → Option (Run (Control × Status))
    extents_loop zero fm_length c ext_ctr fm_start = none
    extents_loop (suc fuel) fm_length c ext_ctr fm_start = elim (fiemap fm_start fm_length) [
      | none ↦ some (returned (c, failure))
      | some [] ↦ some exited
      | some (fe ∷ more) ↦ elim (take_extent c ext_ctr fe) [
        | exited ↦ some exited
        | faulted ↦ some faulted
        | returned (c', n) ↦ elim (has_flag fe.fe_flags fiemap_extent_last) [
          | true ↦ some (returned (c', success))
          | false ↦ extents_loop fuel fm_length c' n (add64 fe.fe_logical fe.fe_length)
        ]
      ]
    ]

    -- Counting the file comes after the loop, and only then.
    abbrev pub finish : Run (Control × Status) → Run (Control × Status)
    finish (returned (c, success)) = returned (record c { nr_files = add32 c.nr_files 1 }, success)
    finish (returned (c, failure)) = returned (c, failure)
    finish exited = exited
    finish faulted = faulted

    abbrev pub counted : Option (Run (Control × Status)) → Option (Run (Control × Status))
    counted none = none
    counted (some r) = some (finish r)

    -- `get_extents`, for a file of `st_blocks` 512B blocks. `fm_length` is `st_blocks << 3`.
    pub get_extents : ℕ → Control → ℕ → Option (Run (Control × Status))
    get_extents fuel c st_blocks = counted (
        extents_loop fuel (shl64 st_blocks 3)
          (record c { file_counter_map = some (grow c.file_counter_map c.nr_files) }) 0 0)
