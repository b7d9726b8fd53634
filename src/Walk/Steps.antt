-- ===== src/Walk/Steps.antt =====
-- What the walk over a tree leaves, and the steps of it: a file, a directory, what is passed over.
use zns_tools.Base.{
  ℕ, ◌+◌, ◌<◌, ◌≡◌, refl, sym, ap, subst, ◌∙◌, true, false, Option, some, Text, length, arith, inl,
  inr, List, [], ◌∷◌, ◌++◌,
}
use zns_tools.Types.{Extent, ZoneMap, FileCounterMap, Control, Run, returned}
use zns_tools.Device.{Kernel}
use zns_tools.ZoneList.Totals.{total}
use zns_tools.ZoneList.Bags.{view, put_all, put_all_then}
use zns_tools.Fiemap.{FiemapExtent, Fiemap}
use zns_tools.Fiemap.Entry.{wanted, AreEntries, AreEntries-at}
use zns_tools.Fiemap.Collect.{at, recorded}
use zns_tools.Fiemap.Wanted.{Agrees, wanted-same}
use zns_tools.Gather.{map_file}
use zns_tools.Gather.State.{IsReady, IsFile, Gathered}
use zns_tools.Walk.{Entries, deleted, opened, file, directory, is_dots, collect_extents}
use zns_tools.Walk.Tree.{IsTree, files, TreeEntries}

-- What changes of a control between files.
abbrev pub IsAt : Control → Control → Type 0
IsAt b c =
    (z : Option ZoneMap) × (f : Option FileCounterMap) × (i : ℕ) × (j : ℕ) × (c
      ≡ record b { zonemap = z; file_counter_map = f; inlined_extent_ctr = i; nr_files = j })

entries_from :
    (k : Kernel) (filename : Text) (b c : Control) (xs : List FiemapExtent) (es : List Extent)
    → IsAt b c
    → AreEntries k filename c 0 (wanted c xs) es
    → AreEntries k filename (record b { nr_files = c.nr_files }) 0 (wanted b xs) es
entries_from k filename b c xs es (z, f, i, j, same) h =
    let number = ap (λ (t : Control). t.nr_files) same in
    let from = subst (λ (t : Control). AreEntries k filename t 0 (wanted c xs) es) same h in
    let agreed =
      wanted-same c b xs
        (ap (λ (t : Control). t.offset) same, ap (λ (t : Control). t.exclude_flags) same) in
    subst (λ (n : ℕ). AreEntries k filename (record b { nr_files = n }) 0 (wanted b xs) es)
      (sym number)
      (subst (λ ys. AreEntries k filename (record b { nr_files = j }) 0 ys es) agreed
        (AreEntries-at k filename b z f i j 0 (wanted c xs) es from))

module _ (c_0 : Control) (sectors fuel : ℕ) where
  -- What the walk leaves; `b` is the control that it started from.
  pub record Walked (k : Kernel) (bits : ℕ) (b : Control) (path : Text) (t : Entries)
      (ok : IsTree c_0 sectors fuel t) (c : Control) (m : ZoneMap) (r : Option (Run Control))
      (more count : ℕ) : Type 0 where
    pub c' : Control
    pub m' : ZoneMap
    pub result : r ≡ some (returned c')
    pub ready : IsReady k c' m' bits
    pub totals : total m'.zones ≡ total m.zones + more
    pub same_zones : length m'.zones ≡ length m.zones
    pub counted : c'.nr_files ≡ c.nr_files + count
    pub agrees : Agrees c' c_0
    pub extents : List Extent
    pub entries : TreeEntries c_0 sectors fuel k b path t ok c.nr_files extents
    pub contents : view m'.zones ≡ put_all extents (view m.zones)
    pub base : IsAt b c'
    pub kept : (c'.show_holes ≡ c.show_holes) × (c'.fs_magic ≡ c.fs_magic)

  module _ (k : Kernel) (bits : ℕ) (b : Control) where
    -- One file, then what follows it.
    pub file_then :
        (c : Control) (m : ZoneMap) (path name : Text) (fiemap : Fiemap) (st_blocks : ℕ)
        (rest : Entries) (f : IsFile c_0 sectors fuel fiemap st_blocks)
        (some_extents : 0 < recorded c_0 f.file) (ok : IsTree c_0 sectors fuel rest)
        (more count : ℕ)
        (g : Gathered k
          (path ++ (47 ∷ name))
          f.file
          c
          m
          bits
          (recorded c_0 f.file)
          (map_file k fuel (path ++ (47 ∷ name)) fiemap st_blocks c))
        → IsAt b c
        → Walked k bits b path rest ok g.c' g.m' (collect_extents k fuel path rest g.c') more count
        → Walked k bits b path
            (file name (opened fiemap st_blocks) rest)
            (f, some_extents, ok)
            c
            m
            (collect_extents k fuel path (file name (opened fiemap st_blocks) rest) c)
            (recorded c_0 f.file + more)
            (1 + count)
    unfolding collect_extents
    file_then c m path name fiemap st_blocks rest f some_extents ok more count g at_c w = record {
      c' = w.c';
      m' = w.m';
      result = rw (g.result, collect_extents) w.result;
      ready = w.ready;
      totals = omega (arith, w.totals, g.totals);
      same_zones = w.same_zones ∙ g.same_zones;
      counted = omega (arith, w.counted, ap (λ (t : Control). t.nr_files) g.same.2);
      agrees = w.agrees;
      extents = g.extents ++ w.extents;
      entries = (
        g.extents,
        w.extents,
        refl,
        entries_from k (path ++ (47 ∷ name)) b c f.file g.extents at_c g.entries,
        subst (λ (j : ℕ). TreeEntries c_0 sectors fuel k b path rest ok j w.extents)
            (ap (λ (t : Control). t.nr_files) g.same.2) w.entries,
      );
      contents =
          put_all_then (view m.zones) (view g.m'.zones) (view w.m'.zones) g.extents w.extents
            g.contents w.contents;
      base = w.base;
      kept = (
        w.kept.0 ∙ ap (λ (t : Control). t.show_holes) g.same.2,
        w.kept.1 ∙ ap (λ (t : Control). t.fs_magic) g.same.2,
      );
    }

    -- A directory, then what follows it.
    pub directory_then :
        (c : Control) (m : ZoneMap) (path name : Text) (inner rest : Entries)
        (dots : is_dots name ≡ false) (inner_ok : IsTree c_0 sectors fuel inner)
        (ok : IsTree c_0 sectors fuel rest) (inner_more more : ℕ)
        (d : Walked k bits b
          (path ++ (47 ∷ (name ++ (47 ∷ []))))
          inner
          inner_ok
          c
          m
          (collect_extents k fuel (path ++ (47 ∷ (name ++ (47 ∷ [])))) inner c)
          inner_more
          (files c_0 sectors fuel inner inner_ok))
        → Walked k bits b path rest ok d.c' d.m'
            (collect_extents k fuel path rest d.c')
            more
            (files c_0 sectors fuel rest ok)
        → Walked k bits b path
            (directory name inner rest)
            (inr (dots, inner_ok), ok)
            c
            m
            (collect_extents k fuel path (directory name inner rest) c)
            (inner_more + more)
            (files c_0 sectors fuel inner inner_ok + files c_0 sectors fuel rest ok)
    unfolding collect_extents
    directory_then c m path name inner rest dots inner_ok ok inner_more more d w = record {
      c' = w.c';
      m' = w.m';
      result = rw (dots, d.result, collect_extents) w.result;
      ready = w.ready;
      totals = omega (arith, w.totals, d.totals);
      same_zones = w.same_zones ∙ d.same_zones;
      counted = omega (arith, w.counted, d.counted);
      agrees = w.agrees;
      extents = d.extents ++ w.extents;
      entries = (
        d.extents,
        w.extents,
        refl,
        d.entries,
        subst (λ (j : ℕ). TreeEntries c_0 sectors fuel k b path rest ok j w.extents) d.counted
            w.entries,
      );
      contents =
          put_all_then (view m.zones) (view d.m'.zones) (view w.m'.zones) d.extents w.extents
            d.contents w.contents;
      base = w.base;
      kept = (w.kept.0 ∙ d.kept.0, w.kept.1 ∙ d.kept.1);
    }

    -- The entries `.` and `..` are passed over.
    pub dots_then :
        (c : Control) (m : ZoneMap) (path name : Text) (inner rest : Entries)
        (dots : is_dots name ≡ true) (ok : IsTree c_0 sectors fuel rest) (more count : ℕ)
        → Walked k bits b path rest ok c m (collect_extents k fuel path rest c) more count
        → Walked k bits b path
            (directory name inner rest)
            (inl dots, ok)
            c
            m
            (collect_extents k fuel path (directory name inner rest) c)
            more
            count
    unfolding collect_extents
    dots_then c m path name inner rest dots ok more count w = record {
      c' = w.c';
      m' = w.m';
      result = rw (dots, collect_extents) w.result;
      ready = w.ready;
      totals = w.totals;
      same_zones = w.same_zones;
      counted = w.counted;
      agrees = w.agrees;
      extents = w.extents;
      entries = w.entries;
      contents = w.contents;
      base = w.base;
      kept = w.kept;
    }

    -- A file that is deleted meanwhile is passed over.
    pub deleted_then :
        (c : Control) (m : ZoneMap) (path name : Text) (rest : Entries)
        (ok : IsTree c_0 sectors fuel rest) (more count : ℕ)
        → Walked k bits b path rest ok c m (collect_extents k fuel path rest c) more count
        → Walked k bits b path
            (file name deleted rest)
            ok
            c
            m
            (collect_extents k fuel path (file name deleted rest) c)
            more
            count
    unfolding collect_extents
    deleted_then c m path name rest ok more count w = record {
      c' = w.c';
      m' = w.m';
      result = w.result;
      ready = w.ready;
      totals = w.totals;
      same_zones = w.same_zones;
      counted = w.counted;
      agrees = w.agrees;
      extents = w.extents;
      entries = w.entries;
      contents = w.contents;
      base = w.base;
      kept = w.kept;
    }

    pub after_file :
        (c c' : Control) (m' : ZoneMap)
        → (fs : FileCounterMap) × (i : ℕ) × (c'
            ≡ record (at c m' fs i) { nr_files = c.nr_files + 1 })
        → IsAt b c
        → IsAt b c'
    after_file c c' m' (fs, i, new) (z, f, n, j, same) = (
      some m',
      some fs,
      i,
      c.nr_files + 1,
      new ∙ ap (λ (t : Control). record (at t m' fs i) { nr_files = c.nr_files + 1 }) same,
    )
