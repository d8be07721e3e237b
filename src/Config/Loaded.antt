-- ===== src/Config/Loaded.antt =====
-- The ranges of what is loaded.
use radar_workstation.Common.{
  ℕ, ◌≤◌, Option, none, some, List, [], ◌∷◌, Bool-cases, inl, inr, arith, leb, ◌&&◌,
}
use radar_workstation.Compute.{DisplayProduct}
use radar_workstation.State.{Site}
use radar_workstation.Config.Parse.{Text, parse}
use radar_workstation.Config.Sites.{by_id}
use radar_workstation.Config.{
  Config, default_config, poll_interval_min, poll_interval_max, in_range, parse_dimension, set_site,
  set_poll_interval, set_view_product, KnownKey, a_site, a_poll_interval, a_window_width,
  a_window_height, a_view_product, a_view_highways, a_view_reference, another_key, known_key,
  set_known, apply_key, apply_keys, FileText, read_text, not_found, unreadable, load, parse_u32,
}

-- None, or between the bounds.
abbrev pub Within : ℕ → ℕ → Option ℕ → Type 0
Within low high none = Unit {0}
Within low high (some n) = (low ≤ n) × (n ≤ high)

abbrev pub InRange : Config → Type 0
InRange c =
    (poll_interval_min ≤ c.poll_interval)
    × (c.poll_interval ≤ poll_interval_max)
    × Within 640 7680 c.window_width
    × Within 480 4320 c.window_height

in_range-Within : (low high : ℕ) (o : Option ℕ) → Within low high (in_range low high o)
unfolding in_range
in_range-Within low high none = tt
in_range-Within low high (some n) = elim (Bool-cases (leb low n && leb n high)) [
  | inl inside ↦ rw inside (ground arith, ground arith)
  | inr outside ↦ rw outside tt
]

set_poll_interval-InRange :
    (key value : Text) (o : Option ℕ) (c : Config)
    → InRange c
    → InRange (set_poll_interval key value o c).0
unfolding set_poll_interval
set_poll_interval-InRange key value none c is = is
set_poll_interval-InRange key value (some n) c is = (ground arith, ground arith, is.2, is.3)

set_site-InRange :
    (value : Text) (o : Option Site) (c : Config) → InRange c → InRange (set_site value o c).0
unfolding set_site
set_site-InRange value none c is = is
set_site-InRange value (some site) c is = is

set_view_product-InRange :
    (key value : Text) (o : Option DisplayProduct) (c : Config)
    → InRange c
    → InRange (set_view_product key value o c).0
unfolding set_view_product
set_view_product-InRange key value none c is = is
set_view_product-InRange key value (some p) c is = is

module _ (sites : List Site) where
  set_known-InRange :
      (k : KnownKey) (key value : Text) (c : Config)
      → InRange c
      → InRange (set_known sites k key value c).0
  unfolding set_known parse_dimension
  set_known-InRange a_site key value c is = set_site-InRange value (by_id sites value) c is
  set_known-InRange a_poll_interval key value c is = set_poll_interval-InRange key value _ c is
  set_known-InRange a_window_width key value c is =
      (is.0, is.1, in_range-Within 640 7680 (parse_u32 value), is.3)
  set_known-InRange a_window_height key value c is =
      (is.0, is.1, is.2, in_range-Within 480 4320 (parse_u32 value))
  set_known-InRange a_view_product key value c is = set_view_product-InRange key value _ c is
  set_known-InRange a_view_highways key value c is = is
  set_known-InRange a_view_reference key value c is = is
  set_known-InRange another_key key value c is = is

  apply_keys-InRange :
      (pairs : List (Text × Text)) (c : Config) → InRange c → InRange (apply_keys sites pairs c).0
  unfolding apply_keys apply_key
  apply_keys-InRange [] c is = is
  apply_keys-InRange ((key, value) ∷ pairs) c is =
      apply_keys-InRange pairs (set_known sites (known_key key) key value c).0
        (set_known-InRange (known_key key) key value c is)

  -- Whatever the file holds, and also without one, the configuration polls at an interval of 2 to
  -- 60 seconds, and its window's width and height are absent or within 640 to 7680 and 480 to 4320.
  pub load-InRange : (f : FileText) → InRange (load sites f).0
  unfolding load
  load-InRange (read_text content) =
      apply_keys-InRange (parse content).0 default_config (omega arith, omega arith, tt, tt)
  load-InRange not_found = (omega arith, omega arith, tt, tt)
  load-InRange (unreadable path reason) = (omega arith, omega arith, tt, tt)
