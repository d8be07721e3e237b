-- ===== src/Tests/Configs.antt =====
-- The theorems on the configuration, on a file with a duplicated key.
use radar_workstation.Common.{◌≡◌, refl, none, some, err, true, List, [], ◌∷◌, ◌++◌, map}
use radar_workstation.Common.Text.{codes, bytes_eq}
use radar_workstation.State.{Site}
use radar_workstation.Config.{read_text, load}
use radar_workstation.Common.Int.{pos}
use radar_workstation.Config.Sites.{by_id, find_site}
use radar_workstation.Config.Parse.{Text}
use radar_workstation.Config.Save.{format, pending_changes, saved_lines}
use radar_workstation.Config.Cli.{
  parsed_args, unknown_cli_site, parse_args, parse_argument, argument_of, parse_command_line,
  resolve_site,
}
use radar_workstation.Config.Loaded.{InRange, load-InRange}
use radar_workstation.Config.Save.Preserves.{Edits, Contains, saved_lines-Edits}

abbrev file_lines : List Text
file_lines =
    codes "# mine" ∷ codes "window.width = 100000" ∷ codes "ingest.poll_interval_seconds=1" ∷ []

abbrev file_text : Text
file_text = codes "window.width = 100000" ++ 10 ∷ codes "ingest.poll_interval_seconds=1"

abbrev oklahoma_city : Site
oklahoma_city = record {
  id = codes "KTLX";
  name = codes "Oklahoma City";
  state = codes "OK";
  lat = 0;
  lon = 0;
  elevation_m = pos 370;
}

abbrev sites : List Site
sites = oklahoma_city ∷ []

-- A name in small letters.
by_id-lower_case : by_id sites (codes "ktlx") ≡ some oklahoma_city
unfolding by_id find_site bytes_eq
by_id-lower_case = refl

load-InRange_example : InRange (load sites (read_text file_text)).0
load-InRange_example = load-InRange sites (read_text file_text)

abbrev changes : List (Text × Text)
changes = (codes "window.width", codes "900") ∷ (codes "site", codes "KTLX") ∷ []

saved_lines-Edits_example :
    (edited : List Text) × (new : List Text) × (saved_lines file_lines changes ≡ edited ++ new)
    × Edits (pending_changes changes) file_lines edited
    × Contains (saved_lines file_lines changes) (map format (pending_changes changes))
saved_lines-Edits_example = saved_lines-Edits file_lines changes

-- The site stands before an option, and no site is known by this name.
command_line-unknown_site :
    (parse_command_line (λ arg. arg) (codes "radar" ∷ codes "KXXX" ∷ codes "--headless" ∷ [])
      ≡ parsed_args (record { site = some (codes "KXXX"); config_path = none; headless = true }))
    × (resolve_site sites (some (codes "KXXX")) (some oklahoma_city)
        ≡ err (unknown_cli_site (codes "KXXX")))
unfolding parse_args parse_argument argument_of resolve_site by_id find_site bytes_eq
command_line-unknown_site = (refl, refl)
