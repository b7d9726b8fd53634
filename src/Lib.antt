-- ===== src/Lib.antt =====
-- A model of zns-tools.fs, the tools that map the files of F2FS and Btrfs onto the zones of a ZNS
-- device (zns.fiemap, zns.segmap, zns.imap), and what makes them correct.
--
-- The tools ask the kernel for a file's extents, find each extent's zone, link it into that zone's
-- list, count it for its file, and print the lists zone by zone; zns.segmap prints them by F2FS
-- segment, zns.imap searches the node address table of F2FS for a file's inode.
--
-- Which file models what (paths from zns-tools.fs/):
-- - Types: the structs of include/zns-tools.h and include/f2fs.h. `Run` is how a piece of the
--   program ends: it returns, ERR_MSG ends the process (`exited`), or it dereferences a null
--   pointer, divides by zero or leaves an array (`faulted`).
-- - Device: the device queries of lib/libzns-tools.c (is_zoned, get_sector_size, get_dev_size,
--   get_zone_size, get_nr_zones, init_zone_map). `Kernel` is what open, ioctl and readlink
--   answer, a parameter of all that asks them; so is what a failing call does. Device/ZoneMap is
--   about the map built.
-- - Setup: init_dev, init_znsdev, set_super_block_info, set_fs_magic, init_ctrl and, of
--   src/segmap.c, check_dir_init_ctrl; Setup/Ready is about the state after init_znsdev,
--   Setup/Btrfs about that after init_btrfs, Setup/F2fs about that after init_f2fs, both over
--   Setup/Mount.
-- - Zones: get_zone_number, print_zone_info and get_zone_info; Zones/Numbers has the arithmetic.
-- - ZoneList: the sorted extent list of a zone, sorted_zone_list_insert and
--   add_extent_to_zone_list; Sorted, Valid and Totals are about one list, one map and its sums,
--   Bags about the map as bags of extents.
-- - Pointers: the same lists as nodes at addresses, and cleanup_zonemap. Chains, Insert and Add
--   are about a chain of nodes, the place of a new one and one call, Cells about addresses,
--   Cleanup and Lifetime about a list from its first extent on.
-- - Counters: increase_file_extent_counter, get_file_extent_count, increase_file_segment_counter
--   and the growth of the counter map. Counters/Extents is about them.
-- - Procfs: fs_info_initialize of lib/libf2fs.c, which reads the segment table; Procfs/Parse is
--   init_procfs_segment_bits and f2fs_fs_manager_init there, Procfs/Rows about the lines they
--   read.
-- - Fiemap: get_extents. Layout is the file as FS_IOC_FIEMAP reports it, Loop the rounds against
--   it, Record one round on the zone map, Entry what is recorded of an extent, Collect one round
--   on the control, Rounds all of them, Whole the function, Placed and Wanted the extents inside
--   the device and those that are recorded.
-- - Ondisk: the structs of include/f2fs.h as bytes. Layout has member types, sizes and
--   alignment; Super, Checkpoint and Node the structs; Read is f2fs_read_block and the reads
--   that lib/libf2fs.c makes by it, RoundTrip and Written are about bytes and values.
-- - Listings: f2fs_show_super_block, f2fs_show_checkpoint and f2fs_show_inode_info of
--   lib/libf2fs.c and show_extent_flags, as lists of lines; Listings/Flags is about the flags by
--   name.
-- - NodeTable: f2fs_get_inode_nat_entry, f2fs_get_node_block and the loop of src/imap.c; Search,
--   Find and Addresses are about one search, the loop around it and the 32-bit byte addresses.
-- - Holes: print_fiemap_report as the list of the lines it prints; Tiling is about the addresses
--   on those lines, Tallies about the summary below them.
-- - Segments: the segment report of src/segmap.c. Segments has what shows a segment and a piece
--   of an extent, Split how one extent is shown, Report the loops of show_segment_report and
--   show_segment_stats. Geometry is about addresses under the mask, Pieces, Split/Tiling and
--   Split/Whole about the pieces of an extent, Report/Ends about the loops' end.
-- - Cli: the options of zns.segmap, in main of src/segmap.c, and the zones it falls back to;
--   Cli/Accepted is about the command lines that are accepted, Cli/Options about what options
--   leave alone.
-- - Gather: one file in any of the programs, get_extents and the checks of its result;
--   Gather/State is about the state between files.
-- - Walk: the directory walk, collect_extents of src/segmap.c; Walk/Whole is about a whole tree,
--   over Walk/Steps, Walk/Tree about what there is to record of it.
-- - Json: the JSON output of lib/libjson.c, with json-c as a parameter: Json/Strings the strings
--   made of numbers, over Json/Numerals, Json/Objects the objects about devices, zones, segments
--   and extents, Json/Zonemap the loops over the zone map.
-- - Programs: the main functions of src/fiemap.c, Programs/Extents, of src/imap.c,
--   Programs/Inode, and of src/segmap.c, Programs/Segments, with the theorems from the options
--   or the set-up to the report below them.
-- - Base: shared operations, words of 32 and 64 bits with their wrap-around written out, masks,
--   strings of bytes. Fixtures and the Tests modules hold data and runs at concrete values.
--
-- State is passed explicitly: `Control` is `struct control` without what only other programs read.
-- A linked list is a list, and a struct copied by memcpy is the record itself.
--
-- Fuel: the loop of get_extents runs until the kernel reports the last extent, so it is on fuel,
-- one unit a round, and as many units as the file has extents are enough. The loop of
-- show_segment_report over a zone's list is on fuel, because it can stay at a node; from zone 1
-- on, one unit more than the list is long is enough. The loops of json_dump_f2fs_zonemap are on
-- fuel for the same reason. For the loop of zns.imap a round for each table entry up to the inode
-- is enough. The loops over nodes in memory have enough with a unit more than there are nodes. The
-- directory walk gives each file the same fuel. All other loops are structural.
--
-- Bounds: an integer of the source is a native number, with its wrap-around written out; a struct's
-- bytes are read as on a little-endian host.
--
-- Not modelled: the memory handling but for the zone lists, a file name stored without its end,
-- which is a fault, a device without a zone size, by which get_zone_number would divide, the
-- colours and column widths of what is printed, the file that lib/libjson.c writes its objects
-- to, and zns-tools.app and zns-tools.nvme, which are tracing and plotting scripts.
pub mod Base
pub mod Types
pub mod Device
pub mod Zones
pub mod ZoneList
pub mod Pointers
pub mod Counters
pub mod Procfs
pub mod Fiemap
pub mod Ondisk
pub mod Listings
pub mod NodeTable
pub mod Holes
pub mod Json
pub mod Setup
pub mod Cli
pub mod Gather
pub mod Walk
pub mod Segments
pub mod Programs
pub mod Fixtures
