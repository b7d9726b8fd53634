-- ===== src/Setup/Mount.antt =====
-- The ZNS device and the zone map after the set-up of either file system.
use native.Mathlib.Nat.{pow-le-pow_right, mod-eq_of_lt, mul-le-mul_left}
use zns_tools.Base.{
  ℕ, ◌+◌, ◌-◌, ◌*◌, ◌^◌, ◌≤◌, ◌<◌, ◌≡◌, sym, ap, subst, ◌∙◌, Bool, true, Option, none, some, List,
  ◌++◌, Text, length, ◌==◌, if◌then◌else◌, two_pow-add, arith, ◌⊎◌, inl, inr,
}
use zns_tools.Types.{ZoneMap, FileCounterMap, Control, returned}
use zns_tools.Device.{BlkZone, Kernel, get_zone_size}
use zns_tools.ZoneList.Totals.{total}
use zns_tools.Zones.{zone_sectors}
use zns_tools.Fiemap.Placed.{IsDevice}
use zns_tools.Fiemap.Whole.{CountersFit}
use zns_tools.Gather.State.{IsReady}
use zns_tools.Setup.{dev, set_geometry, init_znsdev, set_zones}
use zns_tools.Setup.Ready.{with_device, init_znsdev-Ready}

-- A zoned device that answers: sectors of 512B or of 4 KiB, and `nr` zones of 2 ^ bits sectors of
-- 512B, together at most 2 TiB.
pub record AnswersAs (k : Kernel) (name : Text) (sector_size nr bits : ℕ) : Type 0 where
  pub short : length name < 15
  pub opens : k.opens (dev ++ name) ≡ true
  pub sectors : k.sector_size (dev ++ name) ≡ some sector_size
  pub known : (sector_size ≡ 512) ⊎ (sector_size ≡ 4096)
  pub zone_size : k.zone_sectors (dev ++ name) ≡ some (2 ^ bits)
  pub aligned : 3 ≤ bits
  pub small : bits ≤ 32
  pub zones : k.nr_zones (dev ++ name) ≡ some nr
  pub room : nr * 2 ^ bits ≤ 2 ^ 32
  pub reports : (start n : ℕ) → (zs : List BlkZone) × (k.report (dev ++ name) start n ≡ some zs)

-- The zone size in sectors of the device, scaled back.
zone_sectors_of :
    (k : Kernel) (c : Control) (size bits : ℕ)
    → k.opens c.znsdev.dev_path ≡ true
    → k.zone_sectors c.znsdev.dev_path ≡ some (2 ^ bits)
    → 3 ≤ bits
    → bits ≤ 32
    → (c.zns_sector_shift ≡ 0) ⊎ (c.zns_sector_shift ≡ 3)
    → zone_sectors (set_zones k c) ≡ 2 ^ bits
unfolding get_zone_size
zone_sectors_of k c size bits opens answer aligned small shift =
    let word : 2 ^ bits ≤ 2 ^ 32 = pow-le-pow_right (omega arith) small in
    let shifted : 3 + (bits - 3) ≡ bits = omega arith in
    let eighths : 2 ^ bits ≡ 8 * 2 ^ (bits - 3) =
      ap (λ (t : ℕ). 2 ^ t) (sym shifted) ∙ two_pow-add 3 (bits - 3) in
    rw (opens, answer)
      (elim shift [
        | inl none_set ↦ rw none_set (omega (arith, word))
        | inr three ↦ rw three (omega (arith, word, eighths))
      ])

module _ (k : Kernel) (name : Text) (sector_size nr bits : ℕ)
    (a : AnswersAs k name sector_size nr bits) where
  -- The device at the end of the set-up.
  set_zones-IsDevice :
      (c : Control) (shift : ℕ) (m : ZoneMap) (multi : Bool) (offset : ℕ)
      → c.znsdev.dev_name ≡ name
      → c.fs_info_bytes ≡ 0
      → shift ≡ (if sector_size == 4096 then 3 else 0)
      → IsDevice k
          (set_zones k
            (record (record (set_geometry (with_device c shift nr) sector_size) {
              zonemap = some m;
            }) { multi_dev = multi; offset = offset }))
          nr
          bits
  unfolding set_geometry
  set_zones-IsDevice c shift m multi offset named no_info shift_set =
      let path : dev ++ c.znsdev.dev_name ≡ dev ++ name = ap (λ (t : Text). dev ++ t) named in
      let opens = ap k.opens path ∙ a.opens in
      let size = ap k.zone_sectors path ∙ a.zone_size in
      let shift_cases : (shift ≡ 0) ⊎ (shift ≡ 3) = elim a.known [
        | inl small ↦ inl (ground arith)
        | inr large ↦ inr (ground arith)
      ] in
      let c' =
        record (record (set_geometry (with_device c shift nr) sector_size) { zonemap = some m }) {
          multi_dev = multi;
          offset = offset;
        } in
      record {
        opens = opens;
        reports = λ start. (
          (a.reports start 1).0,
          ap (λ (p : Text). k.report p start 1) path ∙ (a.reports start 1).1,
        );
        small = a.small;
        zone_size = zone_sectors_of k c' sector_size bits opens size a.aligned a.small shift_cases;
        room = a.room;
        shifts = elim a.known [ inl small ↦ ground arith | inr large ↦ ground arith ];
        segments = inl no_info;
      }

  -- The control block at the end of the set-up.
  abbrev pub finished : Bool → (Control → ℕ) → Control → Control
  finished multi offset c = set_zones k (record c { multi_dev = multi; offset = offset c })

  -- From the set-up of the ZNS device on.
  pub record MountedAt (c_0 : Control) (multi : Bool) (offset : Control → ℕ) : Type 0 where
    pub c_1 : Control
    pub m' : ZoneMap
    pub shift : ℕ
    pub result : init_znsdev k c_0 ≡ returned c_1
    pub rest :
        c_1 ≡ record (set_geometry (with_device c_0 shift nr) sector_size) { zonemap = some m' }
    pub ready : IsReady k (finished multi offset c_1) m' bits
    pub empty : total m'.zones ≡ 0
    pub zones : length m'.zones ≡ nr

  pub init_znsdev-MountedAt :
      (c_0 : Control) (multi : Bool) (offset : Control → ℕ)
      → c_0.znsdev.dev_name ≡ name
      → c_0.fs_info_bytes ≡ 0
      → (if sector_size == 4096 then 3 else c_0.zns_sector_shift)
        ≡ (if sector_size == 4096 then 3 else 0)
      → c_0.file_counter_map ≡ none
      → MountedAt c_0 multi offset
  unfolding set_geometry
  init_znsdev-MountedAt c_0 multi offset named no_info known_shift no_files =
      let path : dev ++ c_0.znsdev.dev_name ≡ dev ++ name = ap (λ (t : Text). dev ++ t) named in
      let word : sector_size < 2 ^ 32 = elim a.known [
        | inl small ↦ omega (arith, small)
        | inr large ↦ omega (arith, large)
      ] in
      let r =
        init_znsdev-Ready k c_0 sector_size (λ n. (a.reports 0 n).0) (ap k.opens path ∙ a.opens)
          (ap k.sector_size path ∙ a.sectors) word
          (λ n. ap (λ (p : Text). k.report p 0 n) path ∙ (a.reports 0 n).1) in
      let eighths : 2 ^ 3 ≤ 2 ^ bits = pow-le-pow_right (omega arith) a.aligned in
      let few : nr < 2 ^ 32 = omega (arith, mul-le-mul_left nr eighths, a.room) in
      let count : r.nr ≡ nr = r.nr_set nr (ap k.nr_zones path ∙ a.zones) ∙ mod-eq_of_lt few in
      let at_rest : r.c' ≡ record (set_geometry (with_device c_0 r.shift nr) sector_size) {
        zonemap = some r.map';
      } =
        r.rest
        ∙ ap
            (λ (n : ℕ). record (set_geometry (with_device c_0 r.shift n) sector_size) {
              zonemap = some r.map';
            })
            count in
      let zones : length r.map'.zones ≡ nr =
        r.zones ∙ ap (λ (t : Control). t.znsdev.nr_zones) at_rest in
      let device : IsDevice k (finished multi offset r.c') (length r.map'.zones) bits =
        subst (λ (n : ℕ). IsDevice k (finished multi offset r.c') n bits) (sym zones)
          (subst
            (λ (t : Control).
              IsDevice k (set_zones k (record t { multi_dev = multi; offset = offset r.c' })) nr
                bits)
            (sym at_rest)
            (set_zones-IsDevice c_0 r.shift r.map' multi (offset r.c') named no_info
              (r.shift_set ∙ known_shift))) in
      record {
        c_1 = r.c';
        m' = r.map';
        shift = r.shift;
        result = r.result;
        rest = at_rest;
        ready = record {
          here = r.has_map;
          valid = r.valid;
          device = device;
          counters =
              subst (λ (o : Option FileCounterMap). CountersFit o r.c'.nr_files)
                (sym (ap (λ (t : Control). t.file_counter_map) at_rest ∙ no_files)) tt;
        };
        empty = r.empty;
        zones = zones;
      }
