-- ===== src/Fiemap/Collect.antt =====
-- One round of `get_extents` over a file: it returns, and what it leaves.
use zns_tools.Base.{
  ℕ, ◌+◌, ◌^◌, ◌≤◌, ◌<◌, ◌≡◌, refl, sym, ap, subst, true, false, some, List, [], ◌∷◌, Text, length,
  take, get_elem?-exists, arith, add64, if◌then◌else◌, inl, inr, Bool-cases, length-take-le,
}
use zns_tools.Types.{Extent, ZoneMap, FileCounterMap, Control, Run, returned}
use zns_tools.Device.{Kernel}
use zns_tools.Zones.{get_zone_info, get_zone_number}
use zns_tools.Counters.{increase_file_extent_counter, max_file_length}
use zns_tools.Counters.Extents.{HasRoom, increase_file_extent_counter-Counted}
use zns_tools.ZoneList.Totals.{total}
use zns_tools.ZoneList.Bags.{view, put_all}
use zns_tools.Fiemap.{
  FiemapExtent, has_flag, fiemap_extent_data_inline, is_recorded, prepare, new_extent, set_fs_info,
  count_inlined, visit, record_extent, take_extent, add_to_map,
}
use zns_tools.Fiemap.Entry.{AreEntries, prepare-IsEntry}
use zns_tools.Fiemap.Record.{MapIsValid, add_to_map-Mapped}

-- The control with the parts that the rounds change.
abbrev pub at : Control → ZoneMap → FileCounterMap → ℕ → Control
at c m f i = record c { zonemap = some m; file_counter_map = some f; inlined_extent_ctr = i }

-- How many of the extents are recorded.
unfoldable pub recorded : Control → List FiemapExtent → ℕ
recorded c [] = 0
recorded c (x ∷ xs) = (if is_recorded c x then 1 else 0) + recorded c xs

-- The name that an extent carries: at most 49 bytes of the file's path.
abbrev pub short_name : Text → Text
short_name filename = take 49 filename

module _ (k : Kernel) (filename : Text) where
  -- The devices answer for this extent, if it is one to record: its zone is found, and its segment
  -- if the file system has segments.
  abbrev pub IsPlaced : Control → ℕ → FiemapExtent → Type 0
  IsPlaced c nr_zones x =
      is_recorded c x ≡ true
      → (n : ℕ)
      → (e : Extent) × (prepare k filename c n x ≡ returned e)
        × (e.zone < nr_zones)
        × (e.file ≡ short_name filename)

  -- What a run of rounds from this state leaves, with `more` extents recorded: those of `ws`.
  pub record Left (c : Control) (m : ZoneMap) (f : FileCounterMap) (n : ℕ) (ws : List FiemapExtent)
      (r : Run (Control × ℕ)) (more : ℕ) : Type 0 where
    pub map' : ZoneMap
    pub files' : FileCounterMap
    pub inlined' : ℕ
    pub ext_ctr' : ℕ
    pub result : r ≡ returned (at c map' files' inlined', ext_ctr')
    pub valid : MapIsValid map'
    pub totals : total map'.zones ≡ total m.zones + more
    pub extents : List Extent
    pub entries : AreEntries k filename c n ws extents
    pub next : ext_ctr' ≡ n + length extents
    pub contents : view map'.zones ≡ put_all extents (view m.zones)
    pub same_zones : length map'.zones ≡ length m.zones
    pub room : HasRoom files' (short_name filename)
    pub bounded : length f.files ≤ f.allocated → length files'.files ≤ f.allocated
    pub allocated : files'.allocated ≡ f.allocated

  prepare-at :
      (c : Control) (m : ZoneMap) (f : FileCounterMap) (i n : ℕ) (x : FiemapExtent)
      → prepare k filename (at c m f i) n x ≡ prepare k filename c n x
  unfolding prepare new_extent set_fs_info get_zone_info get_zone_number
  prepare-at c m f i n x = refl

  record_extent-at :
      (c : Control) (m : ZoneMap) (f : FileCounterMap) (i n : ℕ) (x : FiemapExtent) (e : Extent)
      (m' : ZoneMap) (f' : FileCounterMap)
      → prepare k filename c n x ≡ returned e
      → add_to_map m e ≡ returned m'
      → increase_file_extent_counter f e.file ≡ returned f'
      → record_extent k filename (at c m f i) n x ≡ returned (at c m' f' i)
  unfolding record_extent
  record_extent-at c m f i n x e m' f' prepared mapped counted =
      rw (prepare-at c m f i n x, prepared, mapped, counted) refl

  visit-recorded :
      (c : Control) (m : ZoneMap) (f : FileCounterMap) (i n : ℕ) (x : FiemapExtent)
      → MapIsValid m
      → n + 1 < 2 ^ 64
      → total m.zones + 1 < 2 ^ 32
      → HasRoom f (short_name filename)
      → IsPlaced c (length m.zones) x
      → is_recorded c x ≡ true
      → Left c m f n (x ∷ []) (visit k filename (at c m f i) n x) 1
  visit-recorded c m f i n x valid word fits room placed record_it =
      let (e, prepared, in_range, name) = placed record_it n in
      let (z, at_zone) = get_elem?-exists m.zones e.zone in_range in
      let a = add_to_map-Mapped m e z valid at_zone fits in
      let short : length (short_name filename) < max_file_length =
        omega (arith, length-take-le 49 filename) in
      let b = increase_file_extent_counter-Counted f (short_name filename) short room in
      let counted =
        subst (λ t. increase_file_extent_counter f t ≡ returned b.map') (sym name) b.result in
      let recording = record_extent-at c m f i n x e a.map' b.map' prepared a.result counted in
      record {
        map' = a.map';
        files' = b.map';
        inlined' = i;
        ext_ctr' = add64 n 1;
        result = unfold visit is_recorded in rw (record_it, visit, recording) refl;
        valid = a.valid;
        totals = a.one_more;
        extents = e ∷ [];
        entries = (prepare-IsEntry k filename c n x e prepared, tt);
        next = omega arith;
        contents = a.contents;
        same_zones = a.same_zones;
        room = b.known;
        bounded = b.bounded;
        allocated = b.allocated;
      }

  visit-skipped :
      (c : Control) (m : ZoneMap) (f : FileCounterMap) (i n : ℕ) (x : FiemapExtent)
      → MapIsValid m
      → HasRoom f (short_name filename)
      → is_recorded c x ≡ false
      → Left c m f n [] (visit k filename (at c m f i) n x) 0
  visit-skipped c m f i n x valid room skip = record {
    map' = m;
    files' = f;
    inlined' = i;
    ext_ctr' = n;
    result = unfold visit is_recorded in rw (skip, visit) refl;
    valid = valid;
    totals = omega arith;
    extents = [];
    entries = tt;
    next = omega arith;
    contents = refl;
    same_zones = refl;
    room = room;
    bounded = λ le. le;
    allocated = refl;
  }

  count_inlined-at :
      (c : Control) (m : ZoneMap) (f : FileCounterMap) (i : ℕ) (x : FiemapExtent)
      → count_inlined x (at c m f i)
        ≡ at c m f (if has_flag x.fe_flags fiemap_extent_data_inline then add64 i 1 else i)
  unfolding count_inlined
  count_inlined-at c m f i x = elim (Bool-cases (has_flag x.fe_flags fiemap_extent_data_inline)) [
    | inl flag ↦ rw flag refl
    | inr plain ↦ rw plain refl
  ]

  -- The inlined extents are counted in any case.
  count_inlined-Left :
      (c : Control) (m : ZoneMap) (f : FileCounterMap) (i n : ℕ) (x : FiemapExtent)
      (ws : List FiemapExtent) (more : ℕ)
      → Left c m f n ws (visit k filename (at c m f i) n x) more
      → Left c m f n ws (take_extent k filename (at c m f i) n x) more
  unfolding take_extent
  count_inlined-Left c m f i n x ws more v = record {
    map' = v.map';
    files' = v.files';
    inlined' =
        if has_flag x.fe_flags fiemap_extent_data_inline then add64 v.inlined' 1 else v.inlined';
    ext_ctr' = v.ext_ctr';
    result =
        rw (v.result, take_extent)
          (ap (λ t. returned (t, v.ext_ctr')) (count_inlined-at c v.map' v.files' v.inlined' x));
    valid = v.valid;
    totals = v.totals;
    extents = v.extents;
    entries = v.entries;
    next = v.next;
    contents = v.contents;
    same_zones = v.same_zones;
    room = v.room;
    bounded = v.bounded;
    allocated = v.allocated;
  }

  pub take_extent-Left :
      (c : Control) (m : ZoneMap) (f : FileCounterMap) (i n : ℕ) (x : FiemapExtent)
      → MapIsValid m
      → n + 1 < 2 ^ 64
      → total m.zones + 1 < 2 ^ 32
      → HasRoom f (short_name filename)
      → IsPlaced c (length m.zones) x
      → Left c m f n
          (if is_recorded c x then x ∷ [] else [])
          (take_extent k filename (at c m f i) n x)
          (if is_recorded c x then 1 else 0)
  take_extent-Left c m f i n x valid word fits room placed = elim (Bool-cases (is_recorded c x)) [
    | inl record_it ↦ rw record_it (
        count_inlined-Left c m f i n x (x ∷ []) 1
          (visit-recorded c m f i n x valid word fits room placed record_it))
    | inr skip ↦
        rw skip (count_inlined-Left c m f i n x [] 0 (visit-skipped c m f i n x valid room skip))
  ]
