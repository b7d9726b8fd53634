-- ===== src/Fiemap/Entry.antt =====
-- What `get_extents` puts in the zone map for an extent that FIEMAP tells, field by field.
use zns_tools.Base.{
  Option, ℕ, ◌+◌, ◌/◌, ◌%◌, ◌^◌, ◌≡◌, refl, sym, ap, subst, ◌∙◌, some, List, [], ◌∷◌, ◌++◌, Text,
  length, take, mul64, arith, sub64, shl64, inl, inr, Bool-cases, Option-cases, ◌==◌, if◌then◌else◌,
  trunc32, shr, bit_and,
}
use zns_tools.Types.{
  SegmentInfo, Extent, ZoneMap, FileCounterMap, Control, returned, returned_inj, ◌>>=◌, >>=-Returns,
  via,
}
use zns_tools.Device.{BlkZone, Kernel, reported}
use zns_tools.Zones.{get_zone_number, get_zone_info, set_zone_info, zone_sectors}
use zns_tools.Procfs.{fs_info_initialize}
use zns_tools.Fiemap.{FiemapExtent, is_recorded, prepare, new_extent, set_fs_info}

-- The extents to record, in order.
unfoldable pub wanted : Control → List FiemapExtent → List FiemapExtent
wanted c [] = []
wanted c (x ∷ xs) = (if is_recorded c x then x ∷ [] else []) ++ wanted c xs

module _ (k : Kernel) (filename : Text) (c : Control) where
  -- `e` is the entry for `x` as extent number `n` of the file: its addresses and its length in
  -- sectors, its flags, and the file; what is known of its zone and its segment is as it was asked for.
  pub record IsEntry (n : ℕ) (x : FiemapExtent) (e : Extent) : Type 0 where
    pub asked : prepare k filename c n x ≡ returned e
    pub logical : e.logical_blk ≡ x.fe_logical / 2 ^ c.sector_shift
    pub physical : e.phy_blk ≡ sub64 x.fe_physical c.offset / 2 ^ c.sector_shift
    pub sectors : e.len ≡ x.fe_length / 2 ^ c.sector_shift
    pub flags : e.flags ≡ x.fe_flags
    pub number : e.ext_nr ≡ n % 2 ^ 32
    pub file : e.file ≡ take 49 filename
    pub file_id : e.file_id ≡ c.nr_files
    pub zone : e.zone ≡ get_zone_number c (shl64 e.phy_blk c.zns_sector_shift)

  -- The entries for a list of extents, numbered from `n` on.
  abbrev pub AreEntries : ℕ → List FiemapExtent → List Extent → Type 0
  AreEntries n [] [] = Unit
  AreEntries n [] (e ∷ es) = ⊥
  AreEntries n (x ∷ xs) [] = ⊥
  AreEntries n (x ∷ xs) (e ∷ es) = IsEntry n x e × AreEntries (n + 1) xs es

  pub AreEntries-append :
      (n p : ℕ) (xs ys : List FiemapExtent) (es fs : List Extent)
      → p ≡ n + length es
      → AreEntries n xs es
      → AreEntries p ys fs
      → AreEntries n (xs ++ ys) (es ++ fs)
  AreEntries-append n p [] ys [] fs from h g = subst (λ (q : ℕ). AreEntries q ys fs) (omega arith) g
  AreEntries-append n p [] ys (e ∷ es) fs from h g = absurd h
  AreEntries-append n p (x ∷ xs) ys [] fs from h g = absurd h
  AreEntries-append n p (x ∷ xs) ys (e ∷ es) fs from (h, hs) g =
      (h, AreEntries-append (n + 1) p xs ys es fs (omega arith) hs g)

  -- The fields that are written before the zone is asked for.
  pub record Kept (e e' : Extent) : Type 0 where
    pub logical : e'.logical_blk ≡ e.logical_blk
    pub physical : e'.phy_blk ≡ e.phy_blk
    pub sectors : e'.len ≡ e.len
    pub flags : e'.flags ≡ e.flags
    pub number : e'.ext_nr ≡ e.ext_nr
    pub file : e'.file ≡ e.file
    pub file_id : e'.file_id ≡ e.file_id
    pub zone : e'.zone ≡ e.zone

  all-Kept : (e : Extent) → Kept e e
  all-Kept e = record {
    logical = refl;
    physical = refl;
    sectors = refl;
    flags = refl;
    number = refl;
    file = refl;
    file_id = refl;
    zone = refl;
  }

  set_zone_info-Kept : (z : BlkZone) (e : Extent) → Kept e (set_zone_info c z e)
  set_zone_info-Kept z e = record {
    logical = refl;
    physical = refl;
    sectors = refl;
    flags = refl;
    number = refl;
    file = refl;
    file_id = refl;
    zone = refl;
  }

  fs_info-Kept : (i : SegmentInfo) (e : Extent) → Kept e (record e { fs_info = some i })
  fs_info-Kept i e = record {
    logical = refl;
    physical = refl;
    sectors = refl;
    flags = refl;
    number = refl;
    file = refl;
    file_id = refl;
    zone = refl;
  }

  get_zone_info-Kept : (e e' : Extent) → get_zone_info k c e ≡ returned e' → Kept e e'
  unfolding get_zone_info
  get_zone_info-Kept e e' h = elim (Bool-cases (k.opens c.znsdev.dev_path)) [
    | inr closed ↦ subst (Kept e) (returned_inj (sym (rw closed refl) ∙ h)) (all-Kept e)
    | inl opens ↦
        elim (Option-cases (k.report c.znsdev.dev_path (mul64 (zone_sectors c) e.zone) 1)) [
          | inl silent ↦ absurd (ground arith)
          | inr (zs, answer) ↦
              subst (Kept e) (returned_inj (sym (rw (opens, answer) refl) ∙ h))
                (set_zone_info-Kept (reported zs 0) e)
        ]
  ]

  set_fs_info-Kept : (e e' : Extent) → set_fs_info c e ≡ returned e' → Kept e e'
  unfolding set_fs_info
  set_fs_info-Kept e e' h = elim (Bool-cases (c.fs_info_bytes == 0)) [
    | inl no_info ↦ subst (Kept e) (returned_inj (sym (rw no_info refl) ∙ h)) (all-Kept e)
    | inr some_info ↦
        let asked : (fs_info_initialize c.fs_manager
                (trunc32 (shr (bit_and e.phy_blk c.f2fs_segment_mask) c.segment_shift))
              >>= (λ i. returned (record e { fs_info = some i })))
            ≡ returned e' =
          sym (rw some_info refl) ∙ h in
        elim (>>=-Returns
          (fs_info_initialize c.fs_manager
            (trunc32 (shr (bit_and e.phy_blk c.f2fs_segment_mask) c.segment_shift)))
          (λ i. returned (record e { fs_info = some i })) asked) [
            | via i found set ↦ subst (Kept e) (returned_inj set) (fs_info-Kept i e)
          ]
  ]

  Kept-IsEntry :
      (n : ℕ) (x : FiemapExtent) (e' e : Extent)
      → prepare k filename c n x ≡ returned e
      → Kept (new_extent c filename n x) e'
      → Kept e' e
      → IsEntry n x e
  unfolding new_extent
  Kept-IsEntry n x e' e asked a b = record {
    asked = asked;
    logical = b.logical ∙ a.logical;
    physical = b.physical ∙ a.physical;
    sectors = b.sectors ∙ a.sectors;
    flags = b.flags ∙ a.flags;
    number = b.number ∙ a.number;
    file = b.file ∙ a.file;
    file_id = b.file_id ∙ a.file_id;
    zone =
        b.zone
        ∙ a.zone
        ∙ ap (λ (t : ℕ). get_zone_number c (shl64 t c.zns_sector_shift))
            (sym (b.physical ∙ a.physical));
  }

  -- What `prepare` gives is the entry for the extent.
  pub prepare-IsEntry :
      (n : ℕ) (x : FiemapExtent) (e : Extent)
      → prepare k filename c n x ≡ returned e
      → IsEntry n x e
  unfolding prepare
  prepare-IsEntry n x e asked =
      elim (>>=-Returns (get_zone_info k c (new_extent c filename n x)) (set_fs_info c) asked) [
        | via e' zoned set ↦
            Kept-IsEntry n x e' e asked (get_zone_info-Kept (new_extent c filename n x) e' zoned)
              (set_fs_info-Kept e' e set)
      ]

-- The state between files is of no importance for the entries, but for the number of files.
pub AreEntries-at :
    (k : Kernel) (filename : Text) (b : Control) (z : Option ZoneMap) (f : Option FileCounterMap)
    (i j n : ℕ) (xs : List FiemapExtent) (es : List Extent)
    → AreEntries k filename
        (record b { zonemap = z; file_counter_map = f; inlined_extent_ctr = i; nr_files = j })
        n
        xs
        es
    → AreEntries k filename (record b { nr_files = j }) n xs es
unfolding prepare new_extent set_fs_info get_zone_info get_zone_number
AreEntries-at k filename b z f i j n [] [] h = tt
AreEntries-at k filename b z f i j n [] (e ∷ es) h = h
AreEntries-at k filename b z f i j n (x ∷ xs) [] h = h
AreEntries-at k filename b z f i j n (x ∷ xs) (e ∷ es) (h, hs) = (
  record {
    asked = h.asked;
    logical = h.logical;
    physical = h.physical;
    sectors = h.sectors;
    flags = h.flags;
    number = h.number;
    file = h.file;
    file_id = h.file_id;
    zone = h.zone;
  },
  AreEntries-at k filename b z f i j (n + 1) xs es hs,
)
