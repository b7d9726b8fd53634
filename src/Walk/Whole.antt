-- ===== src/Walk/Whole.antt =====
-- The walk over a whole tree of files.
use zns_tools.Base.{
  ℕ, ◌+◌, ◌*◌, ◌^◌, ◌≤◌, ◌<◌, ◌≡◌, refl, sym, ap, subst, ◌∙◌, Text, length, arith, inl, inr, [],
  ◌∷◌, ◌++◌,
}
use zns_tools.Types.{ZoneMap, Control}
use zns_tools.Device.{Kernel}
use zns_tools.ZoneList.Totals.{total}
use zns_tools.Fiemap.Collect.{recorded}
use zns_tools.Fiemap.Wanted.{Agrees, recorded-same, recorded-le}
use zns_tools.Gather.{map_file}
use zns_tools.Gather.State.{IsReady, Gathered, map_file-Gathered, file_at}
use zns_tools.Walk.{
  Entries, deleted, denied, no_stat, opened, end_of_directory, file, directory, collect_extents,
}
use zns_tools.Walk.Tree.{IsTree, told, to_record, files, to_record-le}
use zns_tools.Walk.Steps.{
  IsAt, Walked, file_then, directory_then, dots_then, deleted_then, after_file,
}

module _ (c_0 : Control) (sectors fuel : ℕ) (k : Kernel) (bits : ℕ) (b : Control) where
  -- From any control that the walk has got to.
  walk_from-Walked :
      (path : Text) (t : Entries) (ok : IsTree c_0 sectors fuel t) (c : Control) (m : ZoneMap)
      → IsAt b c
      → IsReady k c m bits
      → Agrees c c_0
      → sectors ≡ length m.zones * 2 ^ bits
      → total m.zones + told c_0 sectors fuel t ok < 2 ^ 32
      → c.nr_files + files c_0 sectors fuel t ok < 2 ^ 32
      → Walked c_0 sectors fuel k bits b path t ok c m
          (collect_extents k fuel path t c)
          (to_record c_0 sectors fuel t ok)
          (files c_0 sectors fuel t ok)
  unfolding collect_extents
  walk_from-Walked path end_of_directory ok c m at_c ready same size fits few = record {
    c' = c;
    m' = m;
    result = refl;
    ready = ready;
    totals = omega arith;
    same_zones = refl;
    counted = omega arith;
    agrees = same;
    extents = [];
    entries = refl;
    contents = refl;
    base = at_c;
    kept = (refl, refl);
  }
  walk_from-Walked path (file name deleted rest) ok c m at_c ready same size fits few =
      deleted_then c_0 sectors fuel k bits b c m path name rest ok
        (to_record c_0 sectors fuel rest ok) (files c_0 sectors fuel rest ok)
        (walk_from-Walked path rest ok c m at_c ready same size fits few)
  walk_from-Walked path (file name denied rest) ok c m at_c ready same size fits few = absurd ok
  walk_from-Walked path (file name no_stat rest) ok c m at_c ready same size fits few = absurd ok
  walk_from-Walked path (file name (opened fiemap st_blocks) rest) (f, some_extents, ok) c m at_c
        ready same size fits few =
      let f' =
        file_at c_0 sectors fuel c (length m.zones * 2 ^ bits) fiemap st_blocks same size f in
      let number = recorded-same c c_0 f.file same in
      let all : recorded c_0 f.file ≤ length f.file = recorded-le c_0 f.file in
      let g =
        subst
          (λ (n : ℕ).
            Gathered k (path ++ (47 ∷ name)) f.file c m bits n
              (map_file k fuel (path ++ (47 ∷ name)) fiemap st_blocks c))
          number
          (map_file-Gathered k fuel (path ++ (47 ∷ name)) fiemap st_blocks c m bits ready f'
            (omega arith) (omega arith) (omega (arith, number, some_extents))) in
      let offset' = ap (λ (t : Control). t.offset) g.same.2 in
      let flags' = ap (λ (t : Control). t.exclude_flags) g.same.2 in
      file_then c_0 sectors fuel k bits b c m path name fiemap st_blocks rest f some_extents ok
        (to_record c_0 sectors fuel rest ok) (files c_0 sectors fuel rest ok) g at_c
        (walk_from-Walked path rest ok g.c' g.m'
          (after_file c_0 sectors fuel k bits b c g.c' g.m' g.same at_c) g.ready
          (offset' ∙ same.0, flags' ∙ same.1)
          (size ∙ ap (λ (n : ℕ). n * 2 ^ bits) (sym g.same_zones)) (omega (arith, g.totals, all))
          (omega (arith, ap (λ (t : Control). t.nr_files) g.same.2)))
  walk_from-Walked path (directory name inner rest) (inl dots, ok) c m at_c ready same size fits
        few =
      dots_then c_0 sectors fuel k bits b c m path name inner rest dots ok
        (to_record c_0 sectors fuel rest ok) (files c_0 sectors fuel rest ok)
        (walk_from-Walked path rest ok c m at_c ready same size fits few)
  walk_from-Walked path (directory name inner rest) (inr (dots, inner_ok), ok) c m at_c ready same
        size fits few =
      let sub = path ++ (47 ∷ (name ++ (47 ∷ []))) in
      let d =
        walk_from-Walked sub inner inner_ok c m at_c ready same size (omega arith) (omega arith) in
      let all = to_record-le c_0 sectors fuel inner inner_ok in
      directory_then c_0 sectors fuel k bits b c m path name inner rest dots inner_ok ok
        (to_record c_0 sectors fuel inner inner_ok) (to_record c_0 sectors fuel rest ok) d
        (walk_from-Walked path rest ok d.c' d.m' d.base d.ready d.agrees
          (size ∙ ap (λ (n : ℕ). n * 2 ^ bits) (sym d.same_zones)) (omega (arith, d.totals, all))
          (omega (arith, d.counted)))

module _ (c_0 : Control) (sectors fuel : ℕ) (k : Kernel) (bits : ℕ) where
  -- From the invariant, over a tree whose files are deleted meanwhile, or have something to record and
  -- lie in the device's zones, the walk maps every file and leaves the invariant, with every file counted.
  -- To the bags of the zones it adds, each to its own zone's, the entries for what the files have to
  -- record, with each file's number and the first 49 bytes of its path, and nothing else.
  pub collect_extents-Walked :
      (path : Text) (t : Entries) (ok : IsTree c_0 sectors fuel t) (c : Control) (m : ZoneMap)
      → IsReady k c m bits
      → Agrees c c_0
      → sectors ≡ length m.zones * 2 ^ bits
      → total m.zones + told c_0 sectors fuel t ok < 2 ^ 32
      → c.nr_files + files c_0 sectors fuel t ok < 2 ^ 32
      → Walked c_0 sectors fuel k bits c path t ok c m
          (collect_extents k fuel path t c)
          (to_record c_0 sectors fuel t ok)
          (files c_0 sectors fuel t ok)
  collect_extents-Walked path t ok c m =
      walk_from-Walked c_0 sectors fuel k bits c path t ok c m
        (c.zonemap, c.file_counter_map, c.inlined_extent_ctr, c.nr_files, refl)
