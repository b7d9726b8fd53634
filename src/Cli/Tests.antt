-- ===== src/Cli/Tests.antt =====
-- Concrete command lines.
use zns_tools.Base.{◌≡◌, refl, false, [], ◌∷◌}
use zns_tools.Types.{exited}
use zns_tools.Fixtures.{control}
use zns_tools.Cli.{
  Settings, dir, start, single, set_options, set_option, check_settings, parse_args,
}
use zns_tools.Base.{true, ◌&&◌}
use zns_tools.Cli.Accepted.{accepts, consistent, accepts-parse_args}

abbrev fresh : Settings
fresh = record {
  ctrl = record control { start_zone = 0; end_zone = 0 };
  dir = [];
  set_dir = false;
  set_zone = false;
  set_zone_start = false;
  set_zone_end = false;
}

-- `-d x -z 3 -s 2`
single_and_start : parse_args (dir (120 ∷ []) ∷ single 3 ∷ start 2 ∷ []) fresh ≡ exited
unfolding parse_args set_options set_option check_settings
single_and_start = refl

accepts-parse_args_example :
    accepts (parse_args (dir (120 ∷ []) ∷ single 3 ∷ start 2 ∷ []) fresh)
    ≡ (true && consistent true true true false false false false)
accepts-parse_args_example = accepts-parse_args (dir (120 ∷ []) ∷ single 3 ∷ start 2 ∷ []) fresh
