-- ===== src/Cli/Options.antt =====
-- What the options of zns.segmap leave as it was in the control block.
use zns_tools.Base.{
  ℕ, ◌≡◌, refl, subst, Bool, true, false, not, ◌&&◌, ◌||◌, none, List, [], ◌∷◌, ◌==◌, if◌then◌else◌,
  inl, inr, Bool-cases,
}
use zns_tools.Types.{Control, Run, returned, exited, >>=-Returns, via, returned_inj}
use zns_tools.Cli.{
  Opt, help, dir, log_level, inlined, json, show_flags, start, single, end, procfs, class_stats,
  only_stats, no_holes, Settings, set_option, set_options, check_stats, check_settings, parse_args,
  default_zones,
}

-- Nothing is set up and no file is counted yet.
abbrev pub IsNew : Control → Type 0
IsNew c =
    (c.fs_info_bytes ≡ 0)
    × (c.zns_sector_shift ≡ 0)
    × (c.file_counter_map ≡ none)
    × (c.nr_files ≡ 0)

unchanged : (s t : Settings) → returned s ≡ returned t → IsNew s.ctrl → IsNew t.ctrl
unchanged s t h n = subst (λ (u : Settings). IsNew u.ctrl) (returned_inj h) n

set_option-IsNew :
    (o : Opt) (s t : Settings) → IsNew s.ctrl → set_option o s ≡ returned t → IsNew t.ctrl
unfolding set_option
set_option-IsNew help s t n h = cc
set_option-IsNew (dir path) s t n h = unchanged _ t h n
set_option-IsNew (log_level l) s t n h = unchanged _ t h n
set_option-IsNew inlined s t n h = unchanged _ t h n
set_option-IsNew json s t n h = unchanged _ t h n
set_option-IsNew show_flags s t n h = unchanged _ t h n
set_option-IsNew (start z) s t n h = unchanged _ t h n
set_option-IsNew (single z) s t n h = unchanged _ t h n
set_option-IsNew (end z) s t n h = unchanged _ t h n
set_option-IsNew procfs s t n h = unchanged _ t h n
set_option-IsNew class_stats s t n h = unchanged _ t h n
set_option-IsNew only_stats s t n h = unchanged _ t h n
set_option-IsNew no_holes s t n h = unchanged _ t h n

set_options-IsNew :
    (os : List Opt) (s t : Settings) → IsNew s.ctrl → set_options os s ≡ returned t → IsNew t.ctrl
unfolding set_options
set_options-IsNew [] s t n h = unchanged s t h n
set_options-IsNew (o ∷ os) s t n h = elim (>>=-Returns (set_option o s) (set_options os) h) [
  | via u first rest ↦ set_options-IsNew os u t (set_option-IsNew o s u n first) rest
]

branch-IsNew :
    (b : Bool) (r q : Run Settings) (t : Settings)
    → (r ≡ returned t → IsNew t.ctrl)
    → (q ≡ returned t → IsNew t.ctrl)
    → (if b then r else q) ≡ returned t
    → IsNew t.ctrl
branch-IsNew true r q t yes_new no_new h = yes_new h
branch-IsNew false r q t yes_new no_new h = no_new h

ended : (t : Settings) → exited ≡ returned t → IsNew t.ctrl
ended t h = cc

check_stats-IsNew : (s t : Settings) → IsNew s.ctrl → check_stats s ≡ returned t → IsNew t.ctrl
check_stats-IsNew s t n h =
    let without = record s { ctrl = record s.ctrl { show_class_stats = false } } in
    branch-IsNew (s.ctrl.show_class_stats && not s.ctrl.procfs)
      (if s.ctrl.show_only_stats then exited else returned without) (returned s) t
      (branch-IsNew s.ctrl.show_only_stats exited (returned without) t (ended t)
        (λ e. unchanged without t e n))
      (λ e. unchanged s t e n) h

check_settings-IsNew :
    (s t : Settings) → IsNew s.ctrl → check_settings s ≡ returned t → IsNew t.ctrl
unfolding check_settings
check_settings-IsNew s t n h =
    let zones_clash = s.set_zone && (s.set_zone_start || s.set_zone_end) in
    branch-IsNew (not s.set_dir) exited (if zones_clash then exited else check_stats s) t (ended t)
      (branch-IsNew zones_clash exited (check_stats s) t (ended t) (check_stats-IsNew s t n)) h

-- Whatever the options are, a command line that is accepted leaves the control block without a file
-- system's data and without files.
pub parse_args-IsNew :
    (os : List Opt) (s t : Settings) → IsNew s.ctrl → parse_args os s ≡ returned t → IsNew t.ctrl
unfolding parse_args
parse_args-IsNew os s t n h = elim (>>=-Returns (set_options os s) check_settings h) [
  | via u set checked ↦ check_settings-IsNew u t (set_options-IsNew os s u n set) checked
]

-- The zones to fall back to are all that it changes.
pub default_zones-zones :
    (s : Settings) (c : Control)
    → (a : ℕ) × (b : ℕ) × (default_zones s c ≡ record c { start_zone = a; end_zone = b })
unfolding default_zones
default_zones-zones s c = elim (Bool-cases (c.start_zone == 0 && not s.set_zone)) [
  | inl first ↦ elim (Bool-cases (c.end_zone == 0 && not s.set_zone)) [
    | inl last ↦ (1, c.znsdev.nr_zones, rw (first, last) refl)
    | inr given ↦ (1, c.end_zone, rw (first, given) refl)
  ]
  | inr given ↦ elim (Bool-cases (c.end_zone == 0 && not s.set_zone)) [
    | inl last ↦ (c.start_zone, c.znsdev.nr_zones, rw (given, last) refl)
    | inr both ↦ (c.start_zone, c.end_zone, rw (given, both) refl)
  ]
]
