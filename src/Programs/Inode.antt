-- ===== src/Programs/Inode.antt =====
-- zns.imap: `main` of src/imap.c (under zns-tools.fs/). getopt is a parameter, a list of options.
pub mod Found
use zns_tools.Base.{
  ℕ, ◌+◌, ◌%◌, ◌^◌, Bool, true, false, Option, none, some, List, [], ◌∷◌, Text, if◌then◌else◌,
  get_elem?, trunc32, add64, shl32, ◌==◌,
}
use zns_tools.Types.{Control, Run, returned, exited, faulted, ◌>>=◌}
use zns_tools.Device.{f2fs_magic, Kernel}
use zns_tools.Zones.{ZoneInfo, print_zone_info}
use zns_tools.Ondisk.Super.{SuperBlock, zero_super}
use zns_tools.Ondisk.Checkpoint.{Checkpoint}
use zns_tools.Ondisk.Node.{NatEntry, NodeFooter, Node}
use zns_tools.Ondisk.Read.{in_struct, read_checkpoint, read_nat_block, read_node}
use zns_tools.Listings.{Line, f2fs_show_super_block, f2fs_show_checkpoint, f2fs_show_inode_info}
use zns_tools.NodeTable.{Disk, Cursor, find_inode, inode_lba, inode_zone}
use zns_tools.Setup.{load_super}
use zns_tools.Programs.{
  System, Settings, zero_ctrl, each_option, require_file, open_file, set_up, then_run, after,
}

-- -h and any option without a case; -f -l -s -c.
pub data Opt : Type 0 where
  help : Opt
  file : Text → Opt
  log_level : ℕ → Opt
  show_superblock : Opt
  show_checkpoint : Opt

-- The switch; `log_level` is a uint8_t. `show_help` ends the process.
unfoldable pub set_option : Opt → Settings → Run Settings
set_option help s = exited
set_option (file path) s = returned (record s { filename = some path })
set_option (log_level n) s = returned (record s { ctrl = record s.ctrl { log_level = n % 256 } })
set_option show_superblock s =
    returned (record s { ctrl = record s.ctrl { show_superblock = true } })
set_option show_checkpoint s =
    returned (record s { ctrl = record s.ctrl { show_checkpoint = true } })

unfoldable pub parse_args : List Opt → Run (Control × Text)
parse_args os = do
  s ← each_option set_option os (record { ctrl = zero_ctrl; filename = none })
  require_file s

-- What is printed: with -s and -c the superblock and the checkpoint, then of the inode its zone, the
-- line of the zone, its address range, the footer of its node, and its fields.
pub record InodeReport : Type 0 where
  pub super_block : List Line
  pub checkpoint : List Line
  pub ino : ℕ
  pub zone : ℕ
  pub info : Option ZoneInfo
  pub pbas : ℕ
  pub pbae : ℕ
  pub size : ℕ
  pub footer : NodeFooter
  pub inode : List Line

-- F2FS_SECS_PER_BLOCK
abbrev pub secs_per_block : ℕ
secs_per_block = 9

-- An entry of a table block; a block has no entry beyond the last.
abbrev pub entry_at : List NatEntry → ℕ → NatEntry
entry_at entries i = elim (get_elem? entries i) [
  | none ↦ record { version = 0; ino = 0; block_addr = 0 }
  | some entry ↦ entry
]

-- The table is read from the first device, nodes from the ZNS device; `open` fails as a read does.
unfoldable pub disk_of : System → Control → Disk
disk_of s c = record {
  nat_block = λ buffer. λ offset.
      if s.kernel.opens c.bdev.dev_path
      then in_struct (λ (buffer', entries). (buffer', entry_at entries))
          (read_nat_block (s.devices c.bdev.dev_path) buffer offset)
      else none;
  node = λ offset.
      if s.kernel.opens c.znsdev.dev_path
      then read_node (s.devices c.znsdev.dev_path) offset
      else none;
}

-- `f2fs_sb` after the set-up, which reads it if the file is on F2FS; `c_0` is the control block before.
unfoldable pub super_of : System → Control → Text → Control → Run SuperBlock
super_of s c_0 filename c =
    if c.fs_magic == f2fs_magic
    then (do
      (st, st_blocks) ← open_file s filename
      (c_1, sb) ← load_super s.kernel s.devices s.scanned c_0 st
      returned sb)
    else returned zero_super

unfoldable pub f2fs_read_checkpoint : System → SuperBlock → Text → Run Checkpoint
f2fs_read_checkpoint s sb path =
    if s.kernel.opens path
    then (elim (read_checkpoint (s.devices path) (shl32 sb.cp_blkaddr 12)) [
      | none ↦ exited
      | some cp ↦ returned cp
    ])
    else exited

-- What `main` goes on with after the set-up, and what it has listed by then.
pub record Opened : Type 0 where
  pub ctrl : Control
  pub filename : Text
  pub f2fs_sb : SuperBlock
  pub super_block : List Line
  pub checkpoint : List Line

abbrev pub opened : Control → Text → SuperBlock → List Line → Opened
opened c filename sb cp = record {
  ctrl = c;
  filename = filename;
  f2fs_sb = sb;
  super_block = if c.show_superblock then f2fs_show_super_block sb else [];
  checkpoint = cp;
}

-- `main` up to the search.
unfoldable pub prepare : System → List Opt → Run Opened
prepare s os = do
  (c_0, path) ← parse_args os
  (c, filename, st_blocks) ← set_up s (c_0, path)
  sb ← super_of s c_0 filename c
  (if c.show_checkpoint
      then (do
        cp ← f2fs_read_checkpoint s sb c.bdev.dev_path
        returned (opened c filename sb (f2fs_show_checkpoint cp)))
      else returned (opened c filename sb []))

-- What is printed once the inode is found.
abbrev pub report_of : Opened → Option ZoneInfo → NatEntry → Node → InodeReport
report_of o info entry node = record {
  super_block = o.super_block;
  checkpoint = o.checkpoint;
  ino = entry.ino;
  zone = inode_zone o.ctrl entry;
  info = info;
  pbas = inode_lba o.ctrl entry;
  pbae = add64 (inode_lba o.ctrl entry) secs_per_block;
  size = secs_per_block;
  footer = node.footer;
  inode = f2fs_show_inode_info node.i;
}

pub inode_report : Kernel → Opened → Cursor × NatEntry × Node → Run InodeReport
inode_report k o (cur, entry, node) = do
  info ← print_zone_info k o.ctrl (inode_zone o.ctrl entry)
  returned (report_of o info entry node)

abbrev pub first_cursor : Cursor
first_cursor = record { block = 0; entry = 0 }

-- The search, for the number's lower 32 bits, and the report.
pub search_and_report : System → ℕ → Opened → Option (Run InodeReport)
search_and_report s fuel o =
    then_run
      (find_inode (disk_of s o.ctrl) o.f2fs_sb fuel first_cursor
        (trunc32 (s.inode_number o.filename)))
      (inode_report s.kernel o)

-- `main`, on fuel, as the search is.
pub main : System → ℕ → List Opt → Option (Run InodeReport)
main s fuel os = after (prepare s os) (search_and_report s fuel)
