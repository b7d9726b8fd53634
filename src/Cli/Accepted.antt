-- ===== src/Cli/Accepted.antt =====
-- Which command lines zns.segmap accepts.
use zns_tools.Base.{◌≡◌, refl, Bool, true, false, not, ◌&&◌, ◌||◌, List, [], ◌∷◌, if◌then◌else◌}
use zns_tools.Types.{Run, returned, exited, faulted}
use zns_tools.Cli.{
  Opt, help, dir, log_level, inlined, json, show_flags, start, single, end, procfs, class_stats,
  only_stats, no_holes, Settings, set_option, set_options, check_settings, parse_args,
}

abbrev pub accepts : Run Settings → Bool
accepts (returned s) = true
accepts exited = false
accepts faulted = false

abbrev pub any_of : (Opt → Bool) → List Opt → Bool
any_of p [] = false
any_of p (o ∷ os) = p o || any_of p os

-- The options by the letter: -h, -d, -z, -s, -e, -p, -o, and -c, which -o implies.
abbrev pub is_help : Opt → Bool
is_help help = true
is_help _ = false

abbrev pub is_dir : Opt → Bool
is_dir (dir path) = true
is_dir _ = false

abbrev pub is_single : Opt → Bool
is_single (single n) = true
is_single _ = false

abbrev pub is_start : Opt → Bool
is_start (start n) = true
is_start _ = false

abbrev pub is_end : Opt → Bool
is_end (end n) = true
is_end _ = false

abbrev pub is_procfs : Opt → Bool
is_procfs procfs = true
is_procfs _ = false

abbrev pub is_only : Opt → Bool
is_only only_stats = true
is_only _ = false

abbrev pub is_class : Opt → Bool
is_class class_stats = true
is_class only_stats = true
is_class _ = false

-- A directory, no zone together with a first or a last one, and statistics alone only with the
-- segment table.
pub consistent : Bool → Bool → Bool → Bool → Bool → Bool → Bool → Bool
consistent set_dir zone zone_start zone_end class table only =
    set_dir && (not (zone && (zone_start || zone_end)) && not (class && (not table && only)))

or_true : (b : Bool) → (b || true) ≡ true
or_true true = refl
or_true false = refl

or_false : (b : Bool) → (b || false) ≡ b
or_false true = refl
or_false false = refl

check_cases :
    (set_dir clash class table only : Bool) (without s : Settings)
    → accepts (
        if not set_dir
        then exited
        else if clash
        then exited
        else if class && not table
        then (if only then exited else returned without)
        else returned s)
      ≡ (set_dir && (not clash && not (class && (not table && only))))
check_cases false clash class table only without s = refl
check_cases true true class table only without s = refl
check_cases true false false table only without s = refl
check_cases true false true true only without s = refl
check_cases true false true false true without s = refl
check_cases true false true false false without s = refl

check_settings_lem :
    (s : Settings)
    → accepts (check_settings s)
      ≡ consistent s.set_dir s.set_zone s.set_zone_start s.set_zone_end s.ctrl.show_class_stats
          s.ctrl.procfs s.ctrl.show_only_stats
unfolding check_settings consistent
check_settings_lem s =
    check_cases s.set_dir (s.set_zone && (s.set_zone_start || s.set_zone_end))
      s.ctrl.show_class_stats s.ctrl.procfs s.ctrl.show_only_stats
      (record s { ctrl = record s.ctrl { show_class_stats = false } }) s

-- A command line is accepted exactly if -h is not in it and what it sets, with what was set before,
-- is consistent: there is a directory, -z does not come with -s or -e, and -o comes with -p.
pub accepts-parse_args :
    (os : List Opt) (s : Settings)
    → accepts (parse_args os s) ≡ (
        not (any_of is_help os)
        && consistent
            (s.set_dir || any_of is_dir os)
            (s.set_zone || any_of is_single os)
            (s.set_zone_start || any_of is_start os)
            (s.set_zone_end || any_of is_end os)
            (s.ctrl.show_class_stats || any_of is_class os)
            (s.ctrl.procfs || any_of is_procfs os)
            (s.ctrl.show_only_stats || any_of is_only os))
unfolding parse_args set_options set_option
accepts-parse_args [] s =
    rw
      (
        or_false s.set_dir,
        or_false s.set_zone,
        or_false s.set_zone_start,
        or_false s.set_zone_end,
        or_false s.ctrl.show_class_stats,
        or_false s.ctrl.procfs,
        or_false s.ctrl.show_only_stats,
      )
      (check_settings_lem s)
accepts-parse_args (help ∷ os) s = refl
accepts-parse_args (dir path ∷ os) s =
    rw (or_true s.set_dir) (accepts-parse_args os (record s { dir = path; set_dir = true }))
accepts-parse_args (log_level n ∷ os) s = accepts-parse_args os _
accepts-parse_args (inlined ∷ os) s = accepts-parse_args os _
accepts-parse_args (json ∷ os) s = accepts-parse_args os _
accepts-parse_args (show_flags ∷ os) s = accepts-parse_args os _
accepts-parse_args (start n ∷ os) s = rw (or_true s.set_zone_start) (
    accepts-parse_args os
      (record s { ctrl = record s.ctrl { start_zone = n }; set_zone_start = true }))
accepts-parse_args (single n ∷ os) s = rw (or_true s.set_zone) (
    accepts-parse_args os
      (record s { ctrl = record s.ctrl { start_zone = n; end_zone = n }; set_zone = true }))
accepts-parse_args (end n ∷ os) s = rw (or_true s.set_zone_end) (
    accepts-parse_args os (record s { ctrl = record s.ctrl { end_zone = n }; set_zone_end = true }))
accepts-parse_args (procfs ∷ os) s =
    rw (or_true s.ctrl.procfs)
      (accepts-parse_args os (record s { ctrl = record s.ctrl { procfs = true } }))
accepts-parse_args (class_stats ∷ os) s =
    rw (or_true s.ctrl.show_class_stats)
      (accepts-parse_args os (record s { ctrl = record s.ctrl { show_class_stats = true } }))
accepts-parse_args (only_stats ∷ os) s =
    rw (or_true s.ctrl.show_only_stats, or_true s.ctrl.show_class_stats)
      (accepts-parse_args os
        (record s { ctrl = record s.ctrl { show_only_stats = true; show_class_stats = true } }))
accepts-parse_args (no_holes ∷ os) s = accepts-parse_args os _
