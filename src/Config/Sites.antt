-- ===== src/Config/Sites.antt =====
-- crates/radar-workstation/src/sites.rs: by_id, on the bundled table, which is generated. The table is
-- sorted by the identifiers, without duplicates, so that the binary search finds the one site that
-- has the identifier.
use radar_workstation.Common.{
  ℕ, ◌-◌, Option, none, some, List, [], ◌∷◌, map, ◌&&◌, leb, if◌then◌else◌,
}
use radar_workstation.Common.Text.{bytes_eq}
use radar_workstation.Config.Parse.{Text}
use radar_workstation.State.{Site}

-- `char::to_ascii_uppercase`
abbrev pub to_ascii_uppercase : ℕ → ℕ
to_ascii_uppercase c = if leb 97 c && leb c 122 then c - 32 else c

unfoldable pub find_site : Text → List Site → Option Site
find_site id [] = none
find_site id (s ∷ sites) =
    let rest = find_site id sites in if bytes_eq s.id id then some s else rest

unfoldable pub by_id : List Site → Text → Option Site
by_id sites id = find_site (map to_ascii_uppercase id) sites
