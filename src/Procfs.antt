-- ===== src/Procfs.antt =====
-- The segment table that libf2fs.c reads from /proc/fs/f2fs/<device>/segment_info, and the entry
-- of it that goes into each extent: lib/libf2fs.c (under zns-tools.fs/).
pub mod Parse
pub mod Rows
mod Tests
use zns_tools.Base.{
  ◌<◌, ◌≡◌, refl, length, get_elem?-exists, ℕ, Option, none, some, List, get_elem?,
}
use zns_tools.Types.{SegmentInfo, Run, returned, faulted}

-- sizeof(struct segment_info), which `get_fs_info_bytes` returns: three 32-bit fields.
abbrev pub segment_info_bytes : ℕ
segment_info_bytes = 12

-- `fs_info_initialize`: a null table is dereferenced, and a segment past the table is read.
pub fs_info_initialize : Option (List SegmentInfo) → ℕ → Run SegmentInfo
fs_info_initialize none segment = faulted
fs_info_initialize (some table) segment = elim (get_elem? table segment) [
  | none ↦ faulted
  | some info ↦
      returned (record { id = info.id; type = info.type; valid_blocks = info.valid_blocks })
]

-- A segment of the table is found.
pub fs_info_initialize-returns :
    (table : List SegmentInfo) (segment : ℕ)
    → segment < length table
    → (info : SegmentInfo) × (fs_info_initialize (some table) segment ≡ returned info)
unfolding fs_info_initialize
fs_info_initialize-returns table segment h =
    let (info, found) = get_elem?-exists table segment h in
    (
      record { id = info.id; type = info.type; valid_blocks = info.valid_blocks },
      rw (found, fs_info_initialize) refl,
    )
