-- ===== src/Holes/Tallies.antt =====
-- The hole counters of the summary are those of the lines printed above it.
use zns_tools.Base.{
  ℕ, ◌+◌, ◌≡◌, refl, sym, ap, ◌∙◌, Bool, false, Option, none, some, List, [], ◌∷◌, ◌++◌, ◌==◌, inl,
  inr, Bool-cases, arith,
}
use zns_tools.Types.{Extent, Zone, ZoneMap, Control, returned, faulted}
use zns_tools.Device.{Kernel}
use zns_tools.Zones.{ZoneInfo, print_zone_info}
use zns_tools.Holes.{
  Hole, Line, zone, hole, extent, flags, Tally, hole_lines, flag_lines, add_hole, extent_lines,
  extent_tally, is_cons, zone_lines, zone_tally, last_of, report_zones, summary, summary_of,
  print_zones, print_fiemap_report,
}

-- The holes among the lines, counted and summed.
pub tally_of : List Line → Tally → Tally
tally_of [] t = t
tally_of (zone z ∷ ls) t = tally_of ls t
tally_of (hole h ∷ ls) t = tally_of ls (add_hole (some h) t)
tally_of (extent n from to size ∷ ls) t = tally_of ls t
tally_of (flags f ∷ ls) t = tally_of ls t

abbrev pub no_holes : Tally
no_holes = record { hole_ctr = 0; hole_cum_size = 0 }

tally_of-append :
    (ls ms : List Line) (t : Tally) → tally_of (ls ++ ms) t ≡ tally_of ms (tally_of ls t)
unfolding tally_of
tally_of-append [] ms t = refl
tally_of-append (zone z ∷ ls) ms t = tally_of-append ls ms t
tally_of-append (hole h ∷ ls) ms t = tally_of-append ls ms (add_hole (some h) t)
tally_of-append (extent n from to size ∷ ls) ms t = tally_of-append ls ms t
tally_of-append (flags f ∷ ls) ms t = tally_of-append ls ms t

tally_of-hole_lines : (o : Option Hole) (t : Tally) → tally_of (hole_lines o) t ≡ add_hole o t
unfolding tally_of
tally_of-hole_lines none t = refl
tally_of-hole_lines (some h) t = refl

tally_of-flag_lines : (c : Control) (e : Extent) (t : Tally) → tally_of (flag_lines c e) t ≡ t
unfolding tally_of
tally_of-flag_lines c e t = ground arith

tally_of-extent_lines :
    (c : Control) (prev : Option Extent) (has_next : Bool) (e : Extent) (t : Tally)
    → tally_of (extent_lines c prev has_next e) t ≡ extent_tally c prev has_next e t
unfolding extent_lines extent_tally tally_of
tally_of-extent_lines c prev has_next e t =
    simp (tally_of-append, tally_of-hole_lines, tally_of-flag_lines) refl

tally_of-zone_lines :
    (c : Control) (prev : Option Extent) (es : List Extent) (t : Tally)
    → tally_of (zone_lines c prev es) t ≡ zone_tally c prev es t
unfolding zone_lines zone_tally tally_of
tally_of-zone_lines c prev [] t = refl
tally_of-zone_lines c prev (e ∷ es) t =
    tally_of-append (extent_lines c prev (is_cons es) e) (zone_lines c (some e) es) t
    ∙ tally_of-zone_lines c (some e) es (tally_of (extent_lines c prev (is_cons es) e) t)
    ∙ ap (zone_tally c (some e) es) (tally_of-extent_lines c prev (is_cons es) e t)

module _ (k : Kernel) (c : Control)
    (answers : (i : ℕ) → (z : Option ZoneInfo) × (print_zone_info k c i ≡ returned z)) where
  -- The outer loop returns, with the tally of what it prints.
  record Reported (i : ℕ) (zs : List Zone) (prev : Option Extent) (t : Tally) : Type 0 where
    pub lines : List Line
    pub result : report_zones k c i zs prev t ≡ returned (lines, tally_of lines t)

  report_zones-Reported :
      (i : ℕ) (zs : List Zone) (prev : Option Extent) (t : Tally) → Reported i zs prev t
  unfolding report_zones tally_of
  report_zones-Reported i [] prev t = record { lines = []; result = refl }
  report_zones-Reported i (z ∷ zs) prev t = elim (Bool-cases (z.extent_ctr == 0)) [
    | inl skip ↦
        let rest = report_zones-Reported (i + 1) zs prev t in
        record { lines = rest.lines; result = rw (skip, rest.result) refl }
    | inr print ↦
        let (info, printed) = answers i in
        let t' = zone_tally c prev z.extents t in
        let rest = report_zones-Reported (i + 1) zs (last_of prev z.extents) t' in
        record {
          lines = zone info ∷ (zone_lines c prev z.extents ++ rest.lines);
          result =
              rw (print, printed, rest.result)
                (ap (λ s. returned (zone info ∷ (zone_lines c prev z.extents ++ rest.lines), s))
                  (ap (tally_of rest.lines) (sym (tally_of-zone_lines c prev z.extents t))
                    ∙ sym (tally_of-append (zone_lines c prev z.extents) rest.lines t)));
        }
  ]

  print_zones_total :
      (m : ZoneMap)
      → (m.extent_ctr == 0) ≡ false
      → (lines : List Line) × (print_zones k c m
          ≡ returned (lines, summary_of k c m (tally_of lines no_holes)))
  unfolding print_zones summary
  print_zones_total m used =
      let r = report_zones-Reported 0 m.zones none no_holes in (r.lines, rw (r.result, used) refl)

  -- What the report prints: the lines, and the summary of their holes.
  pub record Totalled (m : ZoneMap) : Type 0 where
    pub lines : List Line
    pub result :
        print_fiemap_report k c ≡ returned (lines, summary_of k c m (tally_of lines no_holes))

  -- On a map that holds extents, with every zone's report answered, the report returns, and the
  -- summary below it is made from the number and the sizes of exactly the holes that its lines show.
  pub print_fiemap_report-Totalled :
      (m : ZoneMap) → c.zonemap ≡ some m → (m.extent_ctr == 0) ≡ false → Totalled m
  unfolding print_fiemap_report
  print_fiemap_report-Totalled m here used =
      let (lines, printed) = print_zones_total m used in
      record {
        lines = lines;
        result = ap (λ o. elim o [ none ↦ faulted | some z ↦ print_zones k c z ]) here ∙ printed;
      }
