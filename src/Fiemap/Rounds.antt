-- ===== src/Fiemap/Rounds.antt =====
-- All the rounds of `get_extents` over a file: they return, and what they leave.
use zns_tools.Base.{
  ℕ, ◌+◌, ◌^◌, ◌≤◌, ◌<◌, refl, sym, subst, List, [], ◌∷◌, Text, length, All, arith, if◌then◌else◌,
  inl, inr, Bool-cases, ◌++◌, length-append,
}
use zns_tools.Types.{Extent, ZoneMap, FileCounterMap, Control}
use zns_tools.Device.{Kernel}
use zns_tools.Counters.Extents.{HasRoom}
use zns_tools.ZoneList.Totals.{total}
use zns_tools.ZoneList.Bags.{view, put_all_then}
use zns_tools.Fiemap.{FiemapExtent, is_recorded}
use zns_tools.Fiemap.Entry.{wanted, AreEntries, AreEntries-append}
use zns_tools.Fiemap.Loop.{collect}
use zns_tools.Fiemap.Record.{MapIsValid}
use zns_tools.Fiemap.Collect.{at, recorded, IsPlaced, short_name, Left, take_extent-Left}

module _ (k : Kernel) (filename : Text) where
  at_most_one :
      (c : Control) (x : FiemapExtent) (n : ℕ) (es : List Extent)
      → AreEntries k filename c n (if is_recorded c x then x ∷ [] else []) es
      → length es ≤ 1
  at_most_one c x n es h = elim (Bool-cases (is_recorded c x)) [
    | inl record_it ↦
        one_entry es
          (subst (λ b. AreEntries k filename c n (if b then x ∷ [] else []) es) record_it h)
    | inr skip ↦
        no_entry es (subst (λ b. AreEntries k filename c n (if b then x ∷ [] else []) es) skip h)
  ]
    where
      one_entry : (es : List Extent) → AreEntries k filename c n (x ∷ []) es → length es ≤ 1
      one_entry [] h = absurd h
      one_entry (e ∷ []) h = omega arith
      one_entry (e ∷ f ∷ es) h = absurd h.1

      no_entry : (es : List Extent) → AreEntries k filename c n [] es → length es ≤ 1
      no_entry [] h = omega arith
      no_entry (e ∷ es) h = absurd h

  pub collect-Left :
      (c : Control) (m : ZoneMap) (f : FileCounterMap) (i n : ℕ) (xs : List FiemapExtent)
      → MapIsValid m
      → n + length xs < 2 ^ 64
      → total m.zones + length xs < 2 ^ 32
      → HasRoom f (short_name filename)
      → All (IsPlaced k filename c (length m.zones)) xs
      → Left k filename c m f n (wanted c xs) (collect k filename (at c m f i) n xs) (recorded c xs)
  unfolding collect recorded wanted
  collect-Left c m f i n [] valid word fits room placed = record {
    map' = m;
    files' = f;
    inlined' = i;
    ext_ctr' = n;
    result = refl;
    valid = valid;
    totals = omega arith;
    extents = [];
    entries = tt;
    next = omega arith;
    contents = refl;
    same_zones = refl;
    room = room;
    bounded = λ le. le;
    allocated = refl;
  }
  collect-Left c m f i n (x ∷ xs) valid word fits room placed =
      let one =
        take_extent-Left k filename c m f i n x valid (omega arith) (omega arith) room placed.0 in
      let few : (if is_recorded c x then 1 else 0) ≤ 1 = ground arith in
      let one_entry = at_most_one c x n one.extents one.entries in
      let rest =
        collect-Left c one.map' one.files' one.inlined' one.ext_ctr' xs one.valid
          (omega (arith, one.next, one_entry)) (omega (arith, one.totals, few)) one.room
          (subst (λ z. All (IsPlaced k filename c z) xs) (sym one.same_zones) placed.1) in
      record {
        map' = rest.map';
        files' = rest.files';
        inlined' = rest.inlined';
        ext_ctr' = rest.ext_ctr';
        result = rw one.result rest.result;
        valid = rest.valid;
        totals = omega (arith, one.totals, rest.totals);
        extents = one.extents ++ rest.extents;
        entries =
            AreEntries-append k filename c n one.ext_ctr' (if is_recorded c x then x ∷ [] else [])
              (wanted c xs) one.extents rest.extents one.next one.entries rest.entries;
        next = omega (arith, one.next, rest.next, length-append one.extents rest.extents);
        contents =
            put_all_then (view m.zones) (view one.map'.zones) (view rest.map'.zones) one.extents
              rest.extents one.contents rest.contents;
        same_zones = omega (arith, rest.same_zones, one.same_zones);
        room = rest.room;
        bounded = λ le.
            omega
              (arith, one.allocated, rest.bounded (omega (arith, one.allocated, one.bounded le)));
        allocated = omega (arith, rest.allocated, one.allocated);
      }
