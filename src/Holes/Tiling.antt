-- ===== src/Holes/Tiling.antt =====
-- The lines of one zone, extents and holes, follow one another without gap or overlap.
use zns_tools.Base.{
  ℕ, ◌+◌, ◌^◌, ◌≤◌, ◌<◌, ◌≡◌, refl, sym, ap, subst, ◌∙◌, Bool, true, false, ◌&&◌, not, Option, none,
  some, List, [], ◌∷◌, ◌++◌, ltb, ◌==◌, if◌then◌else◌, arith, add32,
}
use zns_tools.Types.{Extent, Control}
use zns_tools.Holes.{
  Line, hole, extent, flags, zone, pbae_of, hole_between, hole_before, hole_after, hole_end,
  hole_lines, flag_lines, extent_lines, zone_lines, is_cons,
}

-- A walk over the lines from an address: each extent and each hole has to begin where the one
-- before it ended, and to be as long as it says.
pub walk : ℕ → List Line → Option ℕ
walk p [] = some p
walk p (zone z ∷ ls) = walk p ls
walk p (flags f ∷ ls) = walk p ls
walk p (hole h ∷ ls) = if h.pbas == p && h.pbae == p + h.size then walk h.pbae ls else none
walk p (extent n from to size ∷ ls) = if from == p && to == p + size then walk to ls else none

-- Extents of one zone, in order and apart, the first not before address `b`.
abbrev pub IsApart : ℕ → ℕ → List Extent → Type 0
IsApart z b [] = Unit
IsApart z b (e ∷ es) =
    (e.zone ≡ z)
    × (b ≤ e.phy_blk)
    × (e.phy_blk + e.len < 2 ^ 64)
    × (e.phy_blk + e.len ≤ e.zone_lbae)
    × (e.zone_lbae < 2 ^ 64)
    × IsApart z (e.phy_blk + e.len) es

-- Where the lines of a zone end: behind the last extent, or where the written part ends.
abbrev pub finish_of : ℕ → List Extent → ℕ
finish_of p [] = p
finish_of p (e ∷ []) =
    if not (pbae_of e == e.zone_lbae) && ltb (pbae_of e) e.zone_wp then hole_end e else pbae_of e
finish_of p (e ∷ f ∷ es) = finish_of (e.phy_blk + e.len) (f ∷ es)

walk-append : (p q : ℕ) (ls ms : List Line) → walk p ls ≡ some q → walk p (ls ++ ms) ≡ walk q ms
unfolding walk
walk-append p q [] ms h = ground arith
walk-append p q (zone z ∷ ls) ms h = walk-append p q ls ms h
walk-append p q (flags f ∷ ls) ms h = walk-append p q ls ms h
walk-append p q (hole x ∷ ls) ms h = ground (arith, walk-append x.pbae q ls ms)
walk-append p q (extent n from to size ∷ ls) ms h = ground (arith, walk-append to q ls ms)

walk-between :
    (c : Control) (prev e : Extent)
    → c.show_holes ≡ true
    → prev.zone ≡ e.zone
    → prev.phy_blk + prev.len ≤ e.phy_blk
    → e.phy_blk < 2 ^ 64
    → walk (prev.phy_blk + prev.len) (hole_lines (hole_between c (some prev) e)) ≡ some e.phy_blk
unfolding walk hole_between
walk-between c prev e shown same apart fits = ground arith

walk-extent :
    (c : Control) (e : Extent)
    → (n : ℕ) → e.phy_blk + e.len < 2 ^ 64
    → walk e.phy_blk (extent n e.phy_blk (pbae_of e) e.len ∷ flag_lines c e)
      ≡ some (e.phy_blk + e.len)
unfolding walk
walk-extent c e n fits = ground arith

walk-after :
    (c : Control) (e : Extent)
    → c.show_holes ≡ true
    → e.phy_blk + e.len < 2 ^ 64
    → e.phy_blk + e.len ≤ e.zone_lbae
    → e.zone_lbae < 2 ^ 64
    → walk (e.phy_blk + e.len) (hole_lines (hole_after c false e)) ≡ some (finish_of 0 (e ∷ []))
unfolding walk hole_after
walk-after c e shown fits inside lbae = ground arith

no_hole_before :
    (c : Control) (prev e : Extent) (has_next : Bool)
    → prev.zone ≡ e.zone
    → hole_before c (some prev) has_next e ≡ none
unfolding hole_before
no_hole_before c prev e has_next same = ground arith

no_hole_after : (c : Control) (e : Extent) → hole_after c true e ≡ none
unfolding hole_after
no_hole_after c e = ground arith

walk-extent_lines :
    (c : Control) (prev e : Extent) (has_next : Bool)
    → c.show_holes ≡ true
    → prev.zone ≡ e.zone
    → prev.phy_blk + prev.len ≤ e.phy_blk
    → e.phy_blk + e.len < 2 ^ 64
    → walk (prev.phy_blk + prev.len) (extent_lines c (some prev) has_next e)
      ≡ walk (e.phy_blk + e.len) (hole_lines (hole_after c has_next e))
unfolding extent_lines
walk-extent_lines c prev e has_next shown same apart fits =
    let last = hole_lines (hole_after c has_next e) in
    let body = extent (add32 e.ext_nr 1) e.phy_blk (pbae_of e) e.len ∷ flag_lines c e in
    let between = hole_lines (hole_between c (some prev) e) in
    rw (no_hole_before c prev e has_next same) (
      walk-append (prev.phy_blk + prev.len) e.phy_blk between (body ++ last)
        (walk-between c prev e shown same apart (omega arith))
      ∙ walk-append e.phy_blk (e.phy_blk + e.len) body last
          (walk-extent c e (add32 e.ext_nr 1) fits))

-- The lines behind another extent of the zone.
zone_lines_behind :
    (c : Control) (prev : Extent) (es : List Extent)
    → c.show_holes ≡ true
    → IsApart prev.zone (prev.phy_blk + prev.len) es
    → walk (prev.phy_blk + prev.len) (zone_lines c (some prev) es)
      ≡ some (finish_of (prev.phy_blk + prev.len) es)
unfolding zone_lines walk
zone_lines_behind c prev [] shown apart = refl
zone_lines_behind c prev (e ∷ []) shown (same, from, fits, inside, lbae, rest) =
    walk-append (prev.phy_blk + prev.len) (finish_of 0 (e ∷ []))
      (extent_lines c (some prev) false e) []
      (walk-extent_lines c prev e false shown (sym same) from fits
        ∙ walk-after c e shown fits inside lbae)
zone_lines_behind c prev (e ∷ f ∷ es) shown (same, from, fits, inside, lbae, rest) =
    walk-append (prev.phy_blk + prev.len) (e.phy_blk + e.len) (extent_lines c (some prev) true e)
      (zone_lines c (some e) (f ∷ es))
      (walk-extent_lines c prev e true shown (sym same) from fits
        ∙ ap (λ h. walk (e.phy_blk + e.len) (hole_lines h)) (no_hole_after c e))
    ∙ zone_lines_behind c e (f ∷ es) shown
        (subst (λ z. IsApart z (e.phy_blk + e.len) (f ∷ es)) (sym same) rest)

-- Where the lines of a zone begin: behind the extent before, if that is of the zone; at the start of
-- the zone, if it is of another one and the zone has more than one extent; else at the first extent.
abbrev pub begin_of : Option Extent → Bool → Extent → ℕ
begin_of none has_next e = e.phy_blk
begin_of (some prev) has_next e =
    if prev.zone == e.zone
    then prev.phy_blk + prev.len
    else if has_next
    then e.zone_lbas
    else e.phy_blk

walk-before :
    (c : Control) (prev : Option Extent) (has_next : Bool) (e : Extent) (ms : List Line)
    → c.show_holes ≡ true
    → begin_of prev has_next e ≤ e.phy_blk
    → e.phy_blk < 2 ^ 64
    → walk
        (begin_of prev has_next e)
        (hole_lines (hole_between c prev e) ++ (hole_lines (hole_before c prev has_next e) ++ ms))
      ≡ walk e.phy_blk ms
unfolding walk hole_between hole_before
walk-before c none has_next e ms shown from fits = refl
walk-before c (some prev) true e ms shown from fits = ground arith
walk-before c (some prev) false e ms shown from fits = ground arith

walk-first :
    (c : Control) (prev : Option Extent) (has_next : Bool) (e : Extent)
    → c.show_holes ≡ true
    → begin_of prev has_next e ≤ e.phy_blk
    → e.phy_blk + e.len < 2 ^ 64
    → walk (begin_of prev has_next e) (extent_lines c prev has_next e)
      ≡ walk (e.phy_blk + e.len) (hole_lines (hole_after c has_next e))
unfolding extent_lines
walk-first c prev has_next e shown from fits =
    let last = hole_lines (hole_after c has_next e) in
    let body = extent (add32 e.ext_nr 1) e.phy_blk (pbae_of e) e.len ∷ flag_lines c e in
    walk-before c prev has_next e (body ++ last) shown from (omega arith)
    ∙ walk-append e.phy_blk (e.phy_blk + e.len) body last (walk-extent c e (add32 e.ext_nr 1) fits)

-- With holes shown, the lines of a zone whose extents are in order and apart follow one another
-- without gap or overlap: each hole and each extent begins where the line before it ended, and is as
-- long as it says. They begin at the start of the zone if it has more than one extent and the report
-- has shown another zone before, else at its first extent; they end behind the last extent, or where
-- the written part of the zone ends.
pub zone_lines_lem :
    (c : Control) (prev : Option Extent) (e : Extent) (es : List Extent)
    → c.show_holes ≡ true
    → IsApart e.zone (begin_of prev (is_cons es) e) (e ∷ es)
    → walk (begin_of prev (is_cons es) e) (zone_lines c prev (e ∷ es))
      ≡ some (finish_of (begin_of prev (is_cons es) e) (e ∷ es))
unfolding zone_lines walk
zone_lines_lem c prev e [] shown (same, from, fits, inside, lbae, rest) =
    walk-append (begin_of prev false e) (finish_of 0 (e ∷ [])) (extent_lines c prev false e) []
      (walk-first c prev false e shown from fits ∙ walk-after c e shown fits inside lbae)
zone_lines_lem c prev e (f ∷ es) shown (same, from, fits, inside, lbae, rest) =
    walk-append (begin_of prev true e) (e.phy_blk + e.len) (extent_lines c prev true e)
      (zone_lines c (some e) (f ∷ es))
      (walk-first c prev true e shown from fits
        ∙ ap (λ h. walk (e.phy_blk + e.len) (hole_lines h)) (no_hole_after c e))
    ∙ zone_lines_behind c e (f ∷ es) shown rest
