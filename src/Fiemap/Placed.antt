-- ===== src/Fiemap/Placed.antt =====
-- Extents inside the device have a place: their zone exists, and their segment is in the table.
use native.Mathlib.Nat.{
  mod-eq_of_lt, div-lt_iff_lt-mul, div-mul-le_self, div-le_self, lt_of_mul-lt-mul_right,
}
use zns_tools.Base.{
  Option, ℕ, ◌+◌, ◌-◌, ◌*◌, ◌/◌, ◌^◌, ◌≤◌, ◌<◌, ◌≡◌, refl, sym, ap, subst, ◌∙◌, true, false, some,
  List, [], ◌∷◌, Text, length, ◌==◌, arith, trunc32, mul64, sub64, shl64, shr, two_pow_pos,
  two_pow-add, ==_iff, inl, inr, ◌⊎◌, Bool-cases, All,
}
use zns_tools.Types.{SegmentInfo, Extent, Control, returned}
use zns_tools.Device.{BlkZone, Kernel, reported}
use zns_tools.Zones.{
  ZoneInfo, zone_info, print_zone_info, zone_sectors, get_zone_number, get_zone_info, set_zone_info,
}
use zns_tools.Zones.Numbers.{get_zone_number_exact_iff}
use zns_tools.Procfs.{fs_info_initialize-returns}
use zns_tools.Segments.Geometry.{IsGeometry, segment_of_lem}
use zns_tools.Segments.{segment_of}
use zns_tools.Fiemap.{FiemapExtent, is_recorded, prepare, new_extent, set_fs_info}
use zns_tools.Fiemap.Collect.{IsPlaced, short_name}

-- The segment table has an entry for every segment of the zones.
pub record HasSegments (c : Control) (sectors : ℕ) : Type 0 where
  pub table : List SegmentInfo
  pub known : c.fs_manager ≡ some table
  pub bits : ℕ
  pub geometry : IsGeometry c bits
  pub covers : sectors ≤ length table * 2 ^ bits * 2 ^ c.zns_sector_shift
  pub fits : length table < 2 ^ 32

-- The device answers, and has `nr_zones` zones of 2 ^ bits sectors of 512B, together at most 2 TiB.
pub record IsDevice (k : Kernel) (c : Control) (nr_zones bits : ℕ) : Type 0 where
  pub opens : k.opens c.znsdev.dev_path ≡ true
  pub reports : (start : ℕ) → (zs : List BlkZone) × (k.report c.znsdev.dev_path start 1 ≡ some zs)
  pub small : bits ≤ 32
  pub zone_size : zone_sectors c ≡ 2 ^ bits
  pub room : nr_zones * 2 ^ bits ≤ 2 ^ 32
  pub shifts : c.sector_shift ≡ 9 + c.zns_sector_shift
  pub segments : (c.fs_info_bytes ≡ 0) ⊎ HasSegments c (nr_zones * 2 ^ bits)

-- An extent behind the offset of the zoned device lies in its zones.
abbrev pub IsInside : Control → ℕ → FiemapExtent → Type 0
IsInside c sectors x = (x.fe_physical < 2 ^ 64) × (x.fe_physical < c.offset + sectors * 512)

module _ (k : Kernel) (c : Control) (nr_zones bits : ℕ) (d : IsDevice k c nr_zones bits) where
  -- The address of a recorded extent, in sectors of 512B, is below the zones' end.
  abbrev sector_of : FiemapExtent → ℕ
  sector_of x = shr (sub64 x.fe_physical c.offset) c.sector_shift

  new_extent-zone :
      (filename : Text) (n : ℕ) (x : FiemapExtent)
      → (new_extent c filename n x).zone
        ≡ get_zone_number c (shl64 (sector_of x) c.zns_sector_shift)
  unfolding new_extent
  new_extent-zone filename n x = refl

  new_extent-phy :
      (filename : Text) (n : ℕ) (x : FiemapExtent)
      → (new_extent c filename n x).phy_blk ≡ sector_of x
  unfolding new_extent
  new_extent-phy filename n x = refl

  new_extent-file :
      (filename : Text) (n : ℕ) (x : FiemapExtent)
      → (new_extent c filename n x).file ≡ short_name filename
  unfolding new_extent
  new_extent-file filename n x = refl

  recorded_behind : (x : FiemapExtent) → is_recorded c x ≡ true → c.offset ≤ x.fe_physical
  unfolding is_recorded
  recorded_behind x h = ground arith

  sector_of-scaled :
      (x : FiemapExtent)
      → is_recorded c x ≡ true
      → IsInside c (nr_zones * 2 ^ bits) x
      → sector_of x * 2 ^ c.zns_sector_shift < nr_zones * 2 ^ bits
  sector_of-scaled x wanted (word, inside) =
      let p = x.fe_physical - c.offset in
      let behind = recorded_behind x wanted in
      let unwrapped : sub64 x.fe_physical c.offset ≡ p = omega arith in
      let q = p / 2 ^ c.sector_shift in
      let scale : 2 ^ c.sector_shift ≡ 512 * 2 ^ c.zns_sector_shift =
        ap (λ (t : ℕ). 2 ^ t) d.shifts ∙ two_pow-add 9 c.zns_sector_shift in
      let below : q * 2 ^ c.zns_sector_shift < nr_zones * 2 ^ bits =
        omega (arith, div-mul-le_self p (2 ^ c.sector_shift), ap (λ (t : ℕ). q * t) scale) in
      rw unwrapped below

  -- The number of the extent's zone.
  zone-lt :
      (x : FiemapExtent)
      → is_recorded c x ≡ true
      → IsInside c (nr_zones * 2 ^ bits) x
      → get_zone_number c (shl64 (sector_of x) c.zns_sector_shift) < nr_zones
  zone-lt x wanted inside =
      let scaled = sector_of-scaled x wanted inside in
      let lba : shl64 (sector_of x) c.zns_sector_shift ≡ sector_of x * 2 ^ c.zns_sector_shift =
        mod-eq_of_lt (omega (arith, scaled, d.room)) in
      let number =
        (get_zone_number_exact_iff c bits (sector_of x * 2 ^ c.zns_sector_shift) d.small
            d.zone_size).1
          (omega (arith, scaled, d.room)) in
      subst (λ (t : ℕ). get_zone_number c t < nr_zones) (sym lba)
        (subst (λ (t : ℕ). t < nr_zones) (sym number)
          ((div-lt_iff_lt-mul (two_pow_pos bits)).1 scaled))

  segment-lt :
      (x : FiemapExtent) (segs : HasSegments c (nr_zones * 2 ^ bits))
      → is_recorded c x ≡ true
      → IsInside c (nr_zones * 2 ^ bits) x
      → sector_of x / 2 ^ segs.bits < length segs.table
  segment-lt x segs wanted inside =
      let scaled = sector_of-scaled x wanted inside in
      let below : sector_of x < length segs.table * 2 ^ segs.bits =
        lt_of_mul-lt-mul_right (2 ^ c.zns_sector_shift) (omega (arith, scaled, segs.covers)) in
      (div-lt_iff_lt-mul (two_pow_pos segs.bits)).1 below

  set_fs_info_none : c.fs_info_bytes ≡ 0 → (e : Extent) → set_fs_info c e ≡ returned e
  unfolding set_fs_info
  set_fs_info_none none_set e = rw none_set refl

  segment_entry_set :
      (e : Extent) (segs : HasSegments c (nr_zones * 2 ^ bits))
      → e.phy_blk < 2 ^ 64
      → e.phy_blk / 2 ^ segs.bits < length segs.table
      → (c.fs_info_bytes == 0) ≡ false
      → (info : SegmentInfo) × (set_fs_info c e ≡ returned (record e { fs_info = some info }))
  unfolding set_fs_info
  segment_entry_set e segs word inside some_info =
      let number = segment_of_lem c segs.bits segs.geometry e.phy_blk word in
      let short : trunc32 (segment_of c e.phy_blk) ≡ e.phy_blk / 2 ^ segs.bits =
        omega (arith, number, inside, segs.fits) in
      let (info, found) =
        fs_info_initialize-returns segs.table (e.phy_blk / 2 ^ segs.bits) inside in
      (info, rw (some_info, segs.known, short, found) refl)

  -- The segment's entry in the table.
  set_fs_info-returns :
      (x : FiemapExtent) (e : Extent)
      → is_recorded c x ≡ true
      → IsInside c (nr_zones * 2 ^ bits) x
      → e.phy_blk ≡ sector_of x
      → (e' : Extent) × (set_fs_info c e ≡ returned e') × (e'.zone ≡ e.zone) × (e'.file ≡ e.file)
  set_fs_info-returns x e wanted inside here = elim d.segments [
    | inl no_info ↦ (e, set_fs_info_none no_info e, refl, refl)
    | inr segs ↦ elim (Bool-cases (c.fs_info_bytes == 0)) [
      | inl no_info ↦ (e, set_fs_info_none ((==_iff _ _).0 no_info) e, refl, refl)
      | inr some_info ↦
          let word : sector_of x < 2 ^ 64 =
            omega (arith, div-le_self (sub64 x.fe_physical c.offset) (2 ^ c.sector_shift)) in
          let below : e.phy_blk / 2 ^ segs.bits < length segs.table =
            subst (λ (t : ℕ). t / 2 ^ segs.bits < length segs.table) (sym here)
              (segment-lt x segs wanted inside) in
          let (info, set) = segment_entry_set e segs (omega (arith, here, word)) below some_info in
          (record e { fs_info = some info }, set, refl, refl)
    ]
  ]

  get_zone_info-returns :
      (e : Extent)
      → (e' : Extent) × (get_zone_info k c e ≡ returned e')
        × (e'.zone ≡ e.zone)
        × (e'.file ≡ e.file)
        × (e'.phy_blk ≡ e.phy_blk)
  unfolding get_zone_info
  get_zone_info-returns e =
      let (zs, answer) = d.reports (mul64 (zone_sectors c) e.zone) in
      (set_zone_info c (reported zs 0) e, rw (d.opens, answer) refl, refl, refl, refl)

  -- Each extent inside the device has its place.
  pub inside-IsPlaced :
      (filename : Text) (x : FiemapExtent)
      → IsInside c (nr_zones * 2 ^ bits) x
      → IsPlaced k filename c nr_zones x
  unfolding prepare
  inside-IsPlaced filename x inside wanted n =
      let e = new_extent c filename n x in
      let (e', zoned, zone', file', phy') = get_zone_info-returns e in
      let (e'', full, zone'', file'') =
        set_fs_info-returns x e' wanted inside (phy' ∙ new_extent-phy filename n x) in
      let number = zone-lt x wanted inside in
      (
        e'',
        rw (zoned, full) refl,
        omega (arith, number, zone', zone'', new_extent-zone filename n x),
        file'' ∙ file' ∙ new_extent-file filename n x,
      )

  -- On a device that answers, an extent that is to be recorded and lies in the device's zones has a
  -- place, whatever its number in the file: its zone is reported, the number of its zone is one of the
  -- zone map's, and its segment has an entry in the segment table, if there is one.
  pub inside-IsPlaced_list :
      (filename : Text) (file : List FiemapExtent)
      → All (IsInside c (nr_zones * 2 ^ bits)) file
      → All (IsPlaced k filename c nr_zones) file
  inside-IsPlaced_list filename [] h = tt
  inside-IsPlaced_list filename (x ∷ xs) h =
      (inside-IsPlaced filename x h.0, inside-IsPlaced_list filename xs h.1)

-- A device that answers has its zones printed.
pub print_zone_info-returns :
    (k : Kernel) (c : Control) (nr bits : ℕ)
    → IsDevice k c nr bits
    → (i : ℕ) → (z : Option ZoneInfo) × (print_zone_info k c i ≡ returned z)
unfolding print_zone_info
print_zone_info-returns k c nr bits d i =
    let (zs, answer) = d.reports (mul64 (zone_sectors c) i) in
    (some (zone_info c i (reported zs 0)), rw (d.opens, answer) refl)
