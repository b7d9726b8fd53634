-- ===== src/Gather/State.antt =====
-- The state between files: what one file needs of it, and leaves.
use native.Mathlib.Nat.{mod-eq_of_lt}
use zns_tools.Base.{
  ℕ, ◌+◌, ◌*◌, ◌^◌, ◌≤◌, ◌<◌, ◌≡◌, refl, sym, ap, subst, ◌∙◌, false, Option, none, some, List, Text,
  length, All, ◌==◌, if◌then◌else◌, arith, add32, inl, inr,
}
use zns_tools.Types.{
  Extent, ZoneMap, FileCounterMap, Control, Run, returned, exited, faulted, ◌>>=◌,
}
use zns_tools.Device.{Kernel}
use zns_tools.ZoneList.Totals.{total}
use zns_tools.ZoneList.Bags.{view, put_all}
use zns_tools.Fiemap.Entry.{wanted, AreEntries}
use zns_tools.Fiemap.{FiemapExtent, Fiemap, success, get_extents}
use zns_tools.Fiemap.Layout.{AnswersFor, IsLayout, HolesBelow}
use zns_tools.Fiemap.Record.{MapIsValid}
use zns_tools.Fiemap.Collect.{at, recorded}
use zns_tools.Fiemap.Whole.{CountersFit, get_extents-MappedFile}
use zns_tools.Fiemap.Placed.{IsDevice, IsInside, inside-IsPlaced_list}
use zns_tools.Fiemap.Wanted.{Agrees}
use zns_tools.Gather.{require_extents, required, map_file}

-- The invariant between files: a device that answers, and a zone map with the device's zones that is
-- sorted and counted; no more file counters than files.
pub record IsReady (k : Kernel) (c : Control) (m : ZoneMap) (bits : ℕ) : Type 0 where
  pub here : c.zonemap ≡ some m
  pub valid : MapIsValid m
  pub device : IsDevice k c (length m.zones) bits
  pub counters : CountersFit c.file_counter_map c.nr_files

-- A file of the device: FIEMAP tells its extents, they lie in the zones, no hole of it is longer than
-- each request, and there is fuel for it.
pub record IsFile (c : Control) (sectors fuel : ℕ) (fiemap : Fiemap) (st_blocks : ℕ) : Type 0 where
  pub file : List FiemapExtent
  pub answers : AnswersFor file fiemap
  pub layout : IsLayout 0 file
  pub holes : HolesBelow (8 * st_blocks) 0 file
  pub word : 8 * st_blocks < 2 ^ 64
  pub enough : length file ≤ fuel
  pub inside : All (IsInside c sectors) file

-- A file for one state is a file for another that agrees on which extents are recorded.
abbrev pub file_at :
    (c_0 : Control) (sectors fuel : ℕ) (c : Control) (n : ℕ) (fiemap : Fiemap) (st_blocks : ℕ)
    → Agrees c c_0
    → sectors ≡ n
    → IsFile c_0 sectors fuel fiemap st_blocks
    → IsFile c n fuel fiemap st_blocks
file_at c_0 sectors fuel c n fiemap st_blocks same size f = record {
  file = f.file;
  answers = f.answers;
  layout = f.layout;
  holes = f.holes;
  word = f.word;
  enough = f.enough;
  inside =
      subst (λ (o : ℕ). All (λ x. (x.fe_physical < 2 ^ 64) × (x.fe_physical < o + n * 512)) f.file)
        (sym same.0) (subst (λ (s : ℕ). All (IsInside c_0 s) f.file) size f.inside);
}

-- Mapping a file changes nothing of the device.
IsDevice-at :
    (k : Kernel) (c : Control) (nr bits : ℕ) (m : ZoneMap) (f : FileCounterMap) (i n : ℕ)
    → IsDevice k c nr bits
    → IsDevice k (record (at c m f i) { nr_files = n }) nr bits
IsDevice-at k c nr bits m f i n d = record {
  opens = d.opens;
  reports = d.reports;
  small = d.small;
  zone_size = d.zone_size;
  room = d.room;
  shifts = d.shifts;
  segments = elim d.segments [
    | inl no_info ↦ inl no_info
    | inr s ↦ inr (record {
      table = s.table;
      known = s.known;
      bits = s.bits;
      geometry = record {
        small = s.geometry.small;
        mask = s.geometry.mask;
        shift = s.geometry.shift;
        sectors = s.geometry.sectors;
        bytes = s.geometry.bytes;
      };
      covers = s.covers;
      fits = s.fits;
    })
  ];
}

require_returns :
    (c : Control) (m : ZoneMap)
    → c.zonemap ≡ some m
    → (m.extent_ctr == 0) ≡ false
    → require_extents (returned (c, success)) ≡ returned c
unfolding require_extents
require_returns c m here some_extents =
    ap
      (λ (o : Option ZoneMap).
        (elim o [ none ↦ faulted | some z ↦ returned z ])
        >>= (λ z. if z.extent_ctr == 0 then exited else returned c))
      here
    ∙ rw some_extents refl

-- What a file of these extents leaves.
pub record Gathered (k : Kernel) (filename : Text) (file : List FiemapExtent) (c : Control)
    (m : ZoneMap) (bits more : ℕ) (r : Option (Run Control)) : Type 0 where
  pub c' : Control
  pub m' : ZoneMap
  pub result : r ≡ some (returned c')
  pub ready : IsReady k c' m' bits
  pub totals : total m'.zones ≡ total m.zones + more
  pub extents : List Extent
  pub entries : AreEntries k filename c 0 (wanted c file) extents
  pub contents : view m'.zones ≡ put_all extents (view m.zones)
  pub same_zones : length m'.zones ≡ length m.zones
  pub same :
      (fs : FileCounterMap) × (i : ℕ) × (c' ≡ record (at c m' fs i) { nr_files = c.nr_files + 1 })

module _ (k : Kernel) (fuel : ℕ) (filename : Text) (fiemap : Fiemap) (st_blocks : ℕ) where
  -- From the invariant, if the map then has any extent, a file of the device is mapped without fault:
  -- the program goes on, in the invariant again, and what is added to the bags of the zones, each to its
  -- own zone's, are the entries for the extents that the file has to record, in their order, with their
  -- addresses, lengths and flags, and nothing else.
  pub map_file-Gathered :
      (c : Control) (m : ZoneMap) (bits : ℕ) (r : IsReady k c m bits)
      (f : IsFile c (length m.zones * 2 ^ bits) fuel fiemap st_blocks)
      → total m.zones + length f.file < 2 ^ 32
      → c.nr_files + 1 < 2 ^ 32
      → 0 < total m.zones + recorded c f.file
      → Gathered k filename f.file c m bits
          (recorded c f.file)
          (map_file k fuel filename fiemap st_blocks c)
  unfolding map_file
  map_file-Gathered c m bits r f fits files nonzero =
      let placed =
        inside-IsPlaced_list k c (length m.zones) bits r.device filename f.file f.inside in
      let g =
        get_extents-MappedFile k filename fiemap f.file fuel st_blocks c m f.answers f.layout
          f.holes f.word f.enough r.here r.valid fits r.counters placed in
      let c' = record (at c g.map' g.files' g.inlined') { nr_files = c.nr_files + 1 } in
      let count : add32 c.nr_files 1 ≡ c.nr_files + 1 = mod-eq_of_lt files in
      let mapped : get_extents k filename fiemap fuel c st_blocks ≡ some (returned (c', success)) =
        g.result
        ∙ ap
            (λ t.
              some (returned (record (at c g.map' g.files' g.inlined') { nr_files = t }, success)))
            count in
      let some_extents : (g.map'.extent_ctr == 0) ≡ false =
        ground (arith, g.valid.extents, g.totals, nonzero) in
      record {
        c' = c';
        m' = g.map';
        result = ap required mapped ∙ ap some (require_returns c' g.map' refl some_extents);
        ready = record {
          here = refl;
          valid = g.valid;
          device =
              subst (λ n. IsDevice k c' n bits) (sym g.same_zones)
                (IsDevice-at k c (length m.zones) bits g.map' g.files' g.inlined' (c.nr_files + 1)
                  r.device);
          counters = g.fit;
        };
        totals = g.totals;
        extents = g.extents;
        entries = g.entries;
        contents = g.contents;
        same_zones = g.same_zones;
        same = (g.files', g.inlined', refl);
      }
