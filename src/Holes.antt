-- ===== src/Holes.antt =====
-- The extent report: `print_fiemap_report` of lib/libzns-tools.c (under zns-tools.fs/). What is
-- printed is a list of lines.
pub mod Tiling
pub mod Tallies
mod Tests
use zns_tools.Base.{
  ℕ, ◌+◌, ◌/◌, Bool, true, false, ◌&&◌, not, Option, none, some, List, [], ◌∷◌, ◌++◌, ltb, ◌==◌,
  if◌then◌else◌, add32, add64, sub64,
}
use zns_tools.Types.{Extent, Zone, ZoneMap, Control, Run, returned, faulted, ◌>>=◌}
use zns_tools.Device.{Kernel}
use zns_tools.Zones.{ZoneInfo, print_zone_info}

pub record Hole : Type 0 where
  pub pbas : ℕ
  pub pbae : ℕ
  pub size : ℕ

-- A printed line; the separators are left out.
pub data Line : Type 0 where
  zone : Option ZoneInfo → Line
  hole : Hole → Line
  extent : ℕ → ℕ → ℕ → ℕ → Line
  flags : ℕ → Line

-- `hole_ctr` and `hole_cum_size`
pub record Tally : Type 0 where
  pub hole_ctr : ℕ
  pub hole_cum_size : ℕ

abbrev pub pbae_of : Extent → ℕ
pbae_of e = add64 e.phy_blk e.len

-- The hole behind the previous extent, if that is in the same zone.
pub hole_between : Control → Option Extent → Extent → Option Hole
hole_between c none e = none
hole_between c (some prev) e =
    if c.show_holes && not (pbae_of prev == e.phy_blk) && prev.zone == e.zone
    then some
        (record { pbas = pbae_of prev; pbae = e.phy_blk; size = sub64 e.phy_blk (pbae_of prev) })
    else none

-- The hole at the start of the zone, if the previous extent is in another zone; not before an extent
-- that is the last of its zone, nor before the very first.
pub hole_before : Control → Option Extent → Bool → Extent → Option Hole
hole_before c none has_next e = none
hole_before c (some prev) has_next e =
    if c.show_holes && has_next && not (e.zone_lbas == e.phy_blk) && not (prev.zone == e.zone)
    then some (record { pbas = e.zone_lbas; pbae = e.phy_blk; size = sub64 e.phy_blk e.zone_lbas })
    else none

-- `hole_end`: the write pointer, but not past what can be written of the zone.
abbrev pub hole_end : Extent → ℕ
hole_end e = if ltb e.zone_wp e.zone_lbae then e.zone_wp else e.zone_lbae

-- The hole behind the last extent of the zone, up to the write pointer.
pub hole_after : Control → Bool → Extent → Option Hole
hole_after c has_next e =
    if c.show_holes && not has_next && not (pbae_of e == e.zone_lbae) && ltb (pbae_of e) e.zone_wp
    then some
        (record { pbas = pbae_of e; pbae = hole_end e; size = sub64 (hole_end e) (pbae_of e) })
    else none

abbrev pub hole_lines : Option Hole → List Line
hole_lines none = []
hole_lines (some h) = hole h ∷ []

abbrev pub flag_lines : Control → Extent → List Line
flag_lines c e = if not (e.flags == 0) && c.show_flags then flags e.flags ∷ [] else []

abbrev pub add_hole : Option Hole → Tally → Tally
add_hole none t = t
add_hole (some h) t = record {
  hole_ctr = add32 t.hole_ctr 1;
  hole_cum_size = add64 t.hole_cum_size h.size;
}

-- One round of the inner loop.
pub extent_lines : Control → Option Extent → Bool → Extent → List Line
extent_lines c prev has_next e =
    hole_lines (hole_between c prev e)
    ++ (hole_lines (hole_before c prev has_next e)
        ++ ((extent (add32 e.ext_nr 1) e.phy_blk (pbae_of e) e.len ∷ flag_lines c e)
            ++ hole_lines (hole_after c has_next e)))

pub extent_tally : Control → Option Extent → Bool → Extent → Tally → Tally
extent_tally c prev has_next e t =
    add_hole (hole_after c has_next e)
      (add_hole (hole_before c prev has_next e) (add_hole (hole_between c prev e) t))

abbrev pub is_cons {ℓ} : {A : Type ℓ} → List A → Bool
is_cons [] = false
is_cons (x ∷ xs) = true

-- The inner loop over a zone's list: what it prints, the last extent, and the holes so far.
pub zone_lines : Control → Option Extent → List Extent → List Line
zone_lines c prev [] = []
zone_lines c prev (e ∷ es) = extent_lines c prev (is_cons es) e ++ zone_lines c (some e) es

pub zone_tally : Control → Option Extent → List Extent → Tally → Tally
zone_tally c prev [] t = t
zone_tally c prev (e ∷ es) t = zone_tally c (some e) es (extent_tally c prev (is_cons es) e t)

abbrev pub last_of : Option Extent → List Extent → Option Extent
last_of prev [] = prev
last_of prev (e ∷ es) = last_of (some e) es

-- The summary; the averages that are printed as doubles are left out.
pub record Summary : Type 0 where
  pub noe : ℕ
  pub tes : ℕ
  pub aes : ℕ
  pub noz : ℕ
  pub holes : Option (ℕ × ℕ × ℕ)

module _ (k : Kernel) where
  -- The outer loop, from zone `i` on; `prev` is carried from one zone to the next.
  pub report_zones : Control → ℕ → List Zone → Option Extent → Tally → Run (List Line × Tally)
  report_zones c i [] prev t = returned ([], t)
  report_zones c i (z ∷ zs) prev t =
      let skip = report_zones c (i + 1) zs prev t in
      let print = (do
        info ← print_zone_info k c i
        (lines, t') ←
            report_zones c (i + 1) zs (last_of prev z.extents) (zone_tally c prev z.extents t)
        returned (zone info ∷ (zone_lines c prev z.extents ++ lines), t')) in
      if z.extent_ctr == 0 then skip else print

  abbrev pub summary_of : Control → ZoneMap → Tally → Summary
  summary_of c m t = record {
    noe = m.extent_ctr;
    tes = m.cum_extent_size;
    aes = m.cum_extent_size / m.extent_ctr;
    noz = m.zone_ctr;
    holes =
        if c.show_holes && not (t.hole_ctr == 0)
        then some (t.hole_ctr, t.hole_cum_size, t.hole_cum_size / t.hole_ctr)
        else none;
  }

  -- The averages divide by the number of extents and, if there are any, of holes.
  pub summary : Control → ZoneMap → Tally → Run Summary
  summary c m t = if m.extent_ctr == 0 then faulted else returned (summary_of c m t)

  pub print_zones : Control → ZoneMap → Run (List Line × Summary)
  print_zones c m = do
    (lines, t) ← report_zones c 0 m.zones none (record { hole_ctr = 0; hole_cum_size = 0 })
    s ← summary c m t
    returned (lines, s)

  pub print_fiemap_report : Control → Run (List Line × Summary)
  print_fiemap_report c = elim c.zonemap [ none ↦ faulted | some m ↦ print_zones c m ]
