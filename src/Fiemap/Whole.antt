-- ===== src/Fiemap/Whole.antt =====
-- `get_extents` from beginning to end, on a file that the devices answer for.
use zns_tools.Base.{
  ℕ, ◌+◌, ◌*◌, ◌^◌, ◌≤◌, ◌<◌, ◌≡◌, ap, ◌∙◌, none, some, List, Text, length, All, add32, arith,
  Option, inr,
}
use zns_tools.Types.{Extent, ZoneMap, FileCounterMap, Control, returned}
use zns_tools.Device.{Kernel}
use zns_tools.Counters.{grow}
use zns_tools.Counters.Extents.{HasRoom}
use zns_tools.ZoneList.Totals.{total}
use zns_tools.ZoneList.Bags.{view, put_all}
use zns_tools.Fiemap.Entry.{wanted, AreEntries}
use zns_tools.Fiemap.{FiemapExtent, Fiemap, success, finish, get_extents}
use zns_tools.Fiemap.Layout.{AnswersFor, IsLayout, HolesBelow}
use zns_tools.Fiemap.Loop.{collect, succeed, grown, get_extents_lem}
use zns_tools.Fiemap.Record.{MapIsValid}
use zns_tools.Fiemap.Collect.{at, recorded, IsPlaced, short_name}
use zns_tools.Fiemap.Rounds.{collect-Left}

-- No more entries than files.
abbrev pub CountersFit : Option FileCounterMap → ℕ → Type 0
CountersFit none nr_files = Unit
CountersFit (some f) nr_files = length f.files ≤ nr_files

grow_room :
    (o : Option FileCounterMap) (nr_files : ℕ) (file : Text)
    → CountersFit o nr_files
    → HasRoom (grow o nr_files) file
      × (length (grow o nr_files).files ≤ (grow o nr_files).allocated)
      × ((grow o nr_files).allocated ≤ nr_files + 1)
unfolding grow
grow_room none nr_files file fit = (inr (omega arith), omega arith, omega arith)
grow_room (some f) nr_files file fit = (inr (omega arith), omega arith, omega arith)

-- What `get_extents` leaves of a file of these extents: the zone map holds `more` extents more than
-- before, the entries for the extents to record.
pub record MappedFile (k : Kernel) (filename : Text) (fiemap : Fiemap) (c : Control) (m : ZoneMap)
    (fuel st_blocks : ℕ) (file : List FiemapExtent) (more : ℕ) : Type 0 where
  pub map' : ZoneMap
  pub files' : FileCounterMap
  pub inlined' : ℕ
  pub result :
      get_extents k filename fiemap fuel c st_blocks
      ≡ some
          (returned (record (at c map' files' inlined') { nr_files = add32 c.nr_files 1 }, success))
  pub valid : MapIsValid map'
  pub totals : total map'.zones ≡ total m.zones + more
  pub extents : List Extent
  pub entries : AreEntries k filename c 0 (wanted c file) extents
  pub contents : view map'.zones ≡ put_all extents (view m.zones)
  pub same_zones : length map'.zones ≡ length m.zones
  pub fit : CountersFit (some files') (c.nr_files + 1)

-- For a file whose holes are shorter than `8 * st_blocks` bytes and whose recorded extents lie in
-- zones that the map has, `get_extents` succeeds: with fuel for one round an extent it returns, the
-- zone map is valid again, the counter map has an entry for each file at most, and the file is
-- counted. To the bags of the zones it adds, each to its own zone's, the entries for the extents to
-- record and nothing else: with the logical and the physical address and the length that FIEMAP
-- tells, in sectors, its flags, the file's number and the first 49 bytes of its name, and numbered
-- from 0 in the file's order.
pub get_extents-MappedFile :
    (k : Kernel) (filename : Text) (fiemap : Fiemap) (file : List FiemapExtent) (fuel st_blocks : ℕ)
    (c : Control) (m : ZoneMap)
    → AnswersFor file fiemap
    → IsLayout 0 file
    → HolesBelow (8 * st_blocks) 0 file
    → 8 * st_blocks < 2 ^ 64
    → length file ≤ fuel
    → c.zonemap ≡ some m
    → MapIsValid m
    → total m.zones + length file < 2 ^ 32
    → CountersFit c.file_counter_map c.nr_files
    → All (IsPlaced k filename c (length m.zones)) file
    → MappedFile k filename fiemap c m fuel st_blocks file (recorded c file)
get_extents-MappedFile k filename fiemap file fuel st_blocks c m ans lay holes bytes enough here
      valid fits counters placed =
    let g = grow c.file_counter_map c.nr_files in
    let (room, within, few) =
      grow_room c.file_counter_map c.nr_files (short_name filename) counters in
    let start : grown k filename fiemap c ≡ at c m g c.inlined_extent_ctr =
      ap (λ z. record c { zonemap = z; file_counter_map = some g }) here in
    let l =
      collect-Left k filename c m g c.inlined_extent_ctr 0 file valid (omega arith) fits room
        placed in
    let run = get_extents_lem k filename fiemap file fuel st_blocks c ans lay holes bytes enough in
    let collected = ap (λ s. collect k filename s 0 file) start ∙ l.result in
    record {
      map' = l.map';
      files' = l.files';
      inlined' = l.inlined';
      result = run ∙ ap (λ r. some (finish k filename fiemap (succeed k filename r))) collected;
      valid = l.valid;
      totals = l.totals;
      extents = l.extents;
      entries = l.entries;
      contents = l.contents;
      same_zones = l.same_zones;
      fit = omega (arith, l.bounded within, few);
    }
