-- ===== src/Config.antt =====
-- crates/radar-workstation/src/config: the configuration that a file's text gives. The child modules
-- are the line parser of parse.rs and the line-preserving save of save.rs.
pub mod Parse
pub mod Save
pub mod Sites
pub mod Cli
pub mod Loaded
use radar_workstation.Common.{
  ℕ, ◌+◌, String, Option, none, some, Bytes, List, [], ◌∷◌, ◌++◌, map, Bool, true, false, ◌&&◌,
  ◌==◌, ltb, leb, if◌then◌else◌,
}
use radar_workstation.Common.Maybe.{◌>>=◌}
use radar_workstation.Common.Text.{codes, bytes_eq}
use radar_workstation.Compute.{DisplayProduct, parse_display_product}
use radar_workstation.Config.Parse.{Text, parse}
use radar_workstation.Config.Sites.{by_id}
use radar_workstation.Event.{
  Event, config_unreadable, config_line_unparseable, config_unknown_site, config_value_invalid,
  config_poll_interval_clamped,
}
use radar_workstation.Ingest.Listing.{parse_u64}
use radar_workstation.State.{Site}

-- Durations are in seconds.
abbrev pub poll_interval_min : ℕ
poll_interval_min = 2

abbrev pub poll_interval_max : ℕ
poll_interval_max = 60

abbrev pub default_poll_interval : ℕ
default_poll_interval = 5

abbrev pub site_key : Text
site_key = codes "site"

abbrev pub poll_interval_key : Text
poll_interval_key = codes "ingest.poll_interval_seconds"

abbrev pub window_width_key : Text
window_width_key = codes "window.width"

abbrev pub window_height_key : Text
window_height_key = codes "window.height"

abbrev pub view_product_key : Text
view_product_key = codes "view.product"

abbrev pub view_highways_key : Text
view_highways_key = codes "view.highways"

abbrev pub view_reference_key : Text
view_reference_key = codes "view.reference"

pub record Config : Type 0 where
  pub site : Option Site
  pub poll_interval : ℕ
  pub window_width : Option ℕ
  pub window_height : Option ℕ
  pub view_product : Option DisplayProduct
  pub show_highways : Option Bool
  pub show_reference : Option Bool

-- `Config::default()`
abbrev pub default_config : Config
default_config = record {
  site = none;
  poll_interval = default_poll_interval;
  window_width = none;
  window_height = none;
  view_product = none;
  show_highways = none;
  show_reference = none;
}

-- `Duration::clamp`
abbrev pub clamp : ℕ → ℕ → ℕ → ℕ
clamp low high n = if ltb n low then low else if ltb high n then high else n

-- `str::parse::<u32>().ok()`, which takes the texts that give a `u64` below 2 ^ 32.
unfoldable pub parse_u32 : Text → Option ℕ
parse_u32 value = parse_u64 value >>= λ n. if ltb n 4294967296 then some n else none

-- `range.contains`, of a number that was parsed.
unfoldable pub in_range : ℕ → ℕ → Option ℕ → Option ℕ
in_range low high none = none
in_range low high (some n) = if leb low n && leb n high then some n else none

abbrev pub invalid_unless : {A : Type 0} → Text → Text → Option A → List Event
invalid_unless key value none = config_value_invalid key value ∷ []
invalid_unless key value (some a) = []

unfoldable pub parse_dimension : Text → Text → ℕ → ℕ → Option ℕ × List Event
parse_dimension key value low high =
    let n = in_range low high (parse_u32 value) in (n, invalid_unless key value n)

-- `char::to_ascii_lowercase`
abbrev pub to_ascii_lowercase : ℕ → ℕ
to_ascii_lowercase c = if leb 65 c && leb c 90 then c + 32 else c

unfoldable pub truth_of : Text → Option Bool
truth_of value =
    if bytes_eq value (codes "true")
    then some true
    else if bytes_eq value (codes "false")
    then some false
    else none

unfoldable pub parse_bool : Text → Text → Option Bool × List Event
parse_bool key value =
    let b = truth_of (map to_ascii_lowercase value) in (b, invalid_unless key value b)

unfoldable pub set_site : Text → Option Site → Config → Config × List Event
set_site value (some site) c = (record c { site = some site }, [])
set_site value none c = (c, config_unknown_site value ∷ [])

unfoldable pub set_poll_interval : Text → Text → Option ℕ → Config → Config × List Event
set_poll_interval key value none c = (c, config_value_invalid key value ∷ [])
set_poll_interval key value (some secs) c =
    let clamped = clamp poll_interval_min poll_interval_max secs in
    (
      record c { poll_interval = clamped },
      if clamped == secs then [] else config_poll_interval_clamped secs clamped ∷ [],
    )

unfoldable pub set_view_product : Text → Text → Option DisplayProduct → Config → Config × List Event
set_view_product key value (some p) c = (record c { view_product = some p }, [])
set_view_product key value none c = (c, config_value_invalid key value ∷ [])

-- The keys of the match.
pub data KnownKey : Type 0 where
  a_site a_poll_interval a_window_width a_window_height a_view_product : KnownKey
  a_view_highways a_view_reference another_key : KnownKey

unfoldable pub known_key : Text → KnownKey
known_key key =
    if bytes_eq key site_key
    then a_site
    else if bytes_eq key poll_interval_key
    then a_poll_interval
    else if bytes_eq key window_width_key
    then a_window_width
    else if bytes_eq key window_height_key
    then a_window_height
    else if bytes_eq key view_product_key
    then a_view_product
    else if bytes_eq key view_highways_key
    then a_view_highways
    else if bytes_eq key view_reference_key
    then a_view_reference
    else another_key

-- What reading the file comes to.
pub data FileText : Type 0 where
  read_text : Text → FileText
  not_found : FileText
  unreadable : Text → Text → FileText

-- The bundled table of the sites is a parameter.
module _ (sites : List Site) where
  -- The arms of `apply_key`: the configuration, and the events that are pushed.
  unfoldable pub set_known : KnownKey → Text → Text → Config → Config × List Event
  set_known a_site key value c = set_site value (by_id sites value) c
  set_known a_poll_interval key value c = set_poll_interval key value (parse_u64 value) c
  set_known a_window_width key value c =
      let n = parse_dimension key value 640 7680 in (record c { window_width = n.0 }, n.1)
  set_known a_window_height key value c =
      let n = parse_dimension key value 480 4320 in (record c { window_height = n.0 }, n.1)
  set_known a_view_product key value c = set_view_product key value (parse_display_product value) c
  set_known a_view_highways key value c =
      let b = parse_bool key value in (record c { show_highways = b.0 }, b.1)
  set_known a_view_reference key value c =
      let b = parse_bool key value in (record c { show_reference = b.0 }, b.1)
  set_known another_key key value c = (c, [])

  unfoldable pub apply_key : Text → Text → Config → Config × List Event
  apply_key key value c = set_known (known_key key) key value c

  unfoldable pub apply_keys : List (Text × Text) → Config → Config × List Event
  apply_keys [] c = (c, [])
  apply_keys ((key, value) ∷ pairs) c =
      let first = apply_key key value c in
      let rest = apply_keys pairs first.0 in (rest.0, first.1 ++ rest.1)

  unfoldable pub load : FileText → Config × List Event
  load (read_text content) =
      let parsed = parse content in
      let applied = apply_keys parsed.0 default_config in
      (applied.0, map config_line_unparseable parsed.1 ++ applied.1)
  load not_found = (default_config, [])
  load (unreadable path reason) = (default_config, config_unreadable path reason ∷ [])
