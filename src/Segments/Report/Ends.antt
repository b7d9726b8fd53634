-- ===== src/Segments/Report/Ends.antt =====
-- When the loops of the segment report end.
use zns_tools.Base.{
  ℕ, zero, suc, ◌^◌, ◌<◌, ◌≡◌, ◌≢◌, refl, ap, ◌∙◌, true, false, Option, none, some, List, [], ◌∷◌,
  length, All, ltb, leb, ◌==◌, arith, shl64, sub64, mul64, Bool-cases, inl, inr, Option-cases,
}
use zns_tools.Types.{Extent, Zone, ZoneMap, Control, Run, returned, exited, faulted, Run-cases}
use zns_tools.Device.{Kernel}
use zns_tools.Segments.{SegmapManager, SegLine, segment_of}
use zns_tools.Segments.Report.{
  Report, show_node, before, show_zone, show_zones, start_lba_of, end_lba_of, show_segment_report,
}

module _ (k : Kernel) where
  -- Once the loop is at an extent whose segment starts below the first zone to show, and not behind
  -- the last, it never leaves it: no number of rounds is enough.
  pub show_zone_stuck :
      (fuel start_lba end_lba : ℕ) (e : Extent) (es : List Extent) (r : Report)
      → shl64 (segment_of r.ctrl e.phy_blk) r.ctrl.segment_shift < start_lba
      → shl64 (segment_of r.ctrl e.phy_blk) r.ctrl.segment_shift < end_lba
      → show_zone k fuel start_lba end_lba (e ∷ es) r ≡ none
  unfolding show_zone
  show_zone_stuck zero start_lba end_lba e es r low inside = refl
  show_zone_stuck (suc fuel) start_lba end_lba e es r low inside =
      let lba = shl64 (segment_of r.ctrl e.phy_blk) r.ctrl.segment_shift in
      let not_behind : leb end_lba lba ≡ false = ground arith in
      let below : ltb lba start_lba ≡ true = ground arith in
      rw (not_behind, show_zone, below) (show_zone_stuck fuel start_lba end_lba e es r low inside)

  before_ends :
      (ls : List SegLine) (o : Option (Run (List SegLine × Report)))
      → o ≢ none
      → before k ls o ≢ none
  before_ends ls none h e = h refl
  before_ends ls (some exited) h e = cc
  before_ends ls (some faulted) h e = cc
  before_ends ls (some (returned (ms, r))) h e = cc

  show_zone_ends :
      (fuel end_lba : ℕ) (es : List Extent) (r : Report)
      → length es < fuel
      → show_zone k fuel 0 end_lba es r ≢ none
  unfolding show_zone
  show_zone_ends zero end_lba es r enough = absurd (omega arith)
  show_zone_ends (suc fuel) end_lba [] r enough = λ e. cc
  show_zone_ends (suc fuel) end_lba (e ∷ es) r enough =
      let lba = shl64 (segment_of r.ctrl e.phy_blk) r.ctrl.segment_shift in
      let not_below : ltb lba 0 ≡ false = ground arith in
      elim (Bool-cases (leb end_lba lba)) [
        | inl behind ↦ rw (behind, show_zone) (λ e. cc)
        | inr inside ↦ elim (Run-cases (show_node k r e)) [
          | inl (x, h) ↦
              rw (inside, show_zone, not_below, h)
                (before_ends x.0 (show_zone k fuel 0 end_lba es x.1)
                  (show_zone_ends fuel end_lba es x.1 (omega arith)))
          | inr (inl h) ↦ rw (inside, show_zone, not_below, h) (λ e. cc)
          | inr (inr h) ↦ rw (inside, show_zone, not_below, h) (λ e. cc)
        ]
      ]

  show_zones_ends :
      (fuel end_lba : ℕ) (zs : List Zone) (r : Report)
      → All (λ z. length z.extents < fuel) zs
      → show_zones k fuel 0 end_lba zs r ≢ none
  unfolding show_zones
  show_zones_ends fuel end_lba [] r enough = λ e. cc
  show_zones_ends fuel end_lba (z ∷ zs) r enough = elim (Bool-cases (z.extent_ctr == 0)) [
    | inl empty ↦ rw (empty, show_zones) (show_zones_ends fuel end_lba zs r enough.1)
    | inr used ↦ elim (Option-cases (show_zone k fuel 0 end_lba z.extents r)) [
      | inl none_left ↦ absurd (show_zone_ends fuel end_lba z.extents r enough.0 none_left)
      | inr (res, h) ↦ elim (Run-cases res) [
        | inl (x, q) ↦
            let both = h ∙ ap some q in
            rw (used, show_zones, both)
              (before_ends x.0 (show_zones k fuel 0 end_lba zs x.1)
                (show_zones_ends fuel end_lba zs x.1 enough.1))
        | inr (inl q) ↦ let both = h ∙ ap some q in rw (used, show_zones, both) (λ e. cc)
        | inr (inr q) ↦ let both = h ∙ ap some q in rw (used, show_zones, both) (λ e. cc)
      ]
    ]
  ]

  -- From zone 1 on, which is where the report starts by default, its loops end: fuel for one round
  -- more than the longest list is enough.
  pub show_segment_report_ends :
      (fuel : ℕ) (c : Control) (man : SegmapManager) (m : ZoneMap)
      → c.start_zone ≡ 1
      → c.znsdev.zone_size < 2 ^ 64
      → c.zonemap ≡ some m
      → All (λ z. length z.extents < fuel) m.zones
      → show_segment_report k fuel c man ≢ none
  unfolding show_segment_report
  show_segment_report_ends fuel c man m one size here enough =
      let from_0 : start_lba_of k c ≡ 0 =
        ap (λ t. sub64 (mul64 t c.znsdev.zone_size) c.znsdev.zone_size) one ∙ omega arith in
      rw (here, from_0) (show_zones_ends fuel (end_lba_of k c) m.zones _ enough)
