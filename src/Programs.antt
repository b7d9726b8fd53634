-- ===== src/Programs.antt =====
-- What the three programs share: the control block before the options, and how a file is opened
-- (src/fiemap.c, src/imap.c and src/segmap.c under zns-tools.fs/). What the system answers is a
-- parameter.
pub mod Extents
pub mod Inode
pub mod Segments
pub mod Tests
use zns_tools.Base.{
  ℕ, ◌%◌, Bool, true, false, Option, none, some, List, [], ◌∷◌, Text, if◌then◌else◌,
}
use zns_tools.Types.{Bdev, Control, Run, returned, exited, faulted, ◌>>=◌}
use zns_tools.Device.{Kernel}
use zns_tools.Fiemap.{Fiemap}
use zns_tools.Ondisk.Read.{BlockDevice}
use zns_tools.Setup.{Stat, init_ctrl}

-- What the programs ask of the system: the device queries, fstat with its st_blocks and its st_ino,
-- FS_IOC_FIEMAP, lseek and read on the devices, and the line that scanf reads.
pub record System : Type 0 where
  pub kernel : Kernel
  pub stat : Text → Option (Stat × ℕ)
  pub inode_number : Text → ℕ
  pub fiemap : Text → Fiemap
  pub devices : Text → BlockDevice
  pub scanned : Option Text

abbrev pub no_bdev : Bdev
no_bdev = record {
  dev_name = [];
  dev_path = [];
  link_name = [];
  is_zoned = false;
  nr_zones = 0;
  zone_size = 0;
  zone_mask = 0;
}

-- `ctrl` when all its bytes are zero.
abbrev pub zero_ctrl : Control
zero_ctrl = record {
  bdev = no_bdev;
  znsdev = no_bdev;
  multi_dev = false;
  log_level = 0;
  show_holes = false;
  show_flags = false;
  json_dump = false;
  fs_magic = 0;
  sector_size = 0;
  sector_shift = 0;
  zns_sector_shift = 0;
  f2fs_segment_sectors = 0;
  f2fs_segment_mask = 0;
  segment_shift = 0;
  start_zone = 0;
  end_zone = 0;
  nr_files = 0;
  exclude_flags = 0;
  offset = 0;
  cur_segment = 0;
  show_superblock = false;
  show_checkpoint = false;
  procfs = false;
  show_class_stats = false;
  show_only_stats = false;
  inlined_extent_ctr = 0;
  fs_info_bytes = 0;
  fs_manager = none;
  zonemap = none;
  file_counter_map = none;
}

-- open and fstat: a failure of either ends the process.
unfoldable pub open_file : System → Text → Run (Stat × ℕ)
open_file s filename =
    if s.kernel.opens filename
    then (elim (s.stat filename) [ none ↦ exited | some st ↦ returned st ])
    else exited

-- A computation on fuel whose result the program goes on with.
abbrev pub then_run {ℓ κ} :
    {A : Type ℓ} {B : Type κ} → Option (Run A) → (A → Run B) → Option (Run B)
then_run none f = none
then_run (some r) f = some (r >>= f)

abbrev pub after {ℓ κ} : {A : Type ℓ} {B : Type κ} → Run A → (A → Option (Run B)) → Option (Run B)
after (returned a) f = f a
after exited f = some exited
after faulted f = some faulted

-- The option loop.
abbrev pub each_option {ℓ κ} : {O : Type ℓ} {S : Type κ} → (O → S → Run S) → List O → S → Run S
each_option set_option [] s = returned s
each_option set_option (o ∷ os) s = set_option o s >>= each_option set_option os

-- `ctrl`, and `filename` once it is set.
pub record Settings : Type 0 where
  pub ctrl : Control
  pub filename : Option Text

-- Without -f the process ends.
abbrev pub require_file : Settings → Run (Control × Text)
require_file s = elim s.filename [ none ↦ exited | some path ↦ returned (s.ctrl, path) ]

-- The file opened and the control block set up; with the file's st_blocks.
unfoldable pub set_up : System → Control × Text → Run (Control × Text × ℕ)
set_up s (c, filename) = do
  (st, st_blocks) ← open_file s filename
  c' ← init_ctrl s.kernel s.devices s.scanned c filename st
  returned (c', filename, st_blocks)
