-- ===== src/Config/Cli.antt =====
-- crates/radar-workstation/src/cli.rs: the arguments of the command line, and the site of a run.
use radar_workstation.Common.{
  Option, none, some, Result, ok, err, List, [], ◌∷◌, Bool, true, false, not, ◌&&◌, ◌||◌,
  if◌then◌else◌,
}
use radar_workstation.Common.Text.{codes, bytes_eq}
use radar_workstation.Config.Parse.{Text, starts_with}
use radar_workstation.Config.Sites.{by_id}
use radar_workstation.State.{Site}

-- `P` is the type of an argument as the system gives it, an `OsString`.
pub record Args (P : Type 0) : Type 0 where
  pub site : Option Text
  pub config_path : Option P
  pub headless : Bool

-- The errors have their text.
pub data ParseOutcome (P : Type 0) : Type 0 where
  parsed_args : Args P → ParseOutcome P
  help version : ParseOutcome P
  config_without_path : ParseOutcome P
  unrecognized_option unexpected_argument : Text → ParseOutcome P

-- The arms of the match.
pub data Argument : Type 0 where
  asks_help asks_version sets_headless sets_config unknown_option positional : Argument

unfoldable pub argument_of : Text → Argument
argument_of arg =
    if bytes_eq arg (codes "--help") || bytes_eq arg (codes "-h")
    then asks_help
    else if bytes_eq arg (codes "--version") || bytes_eq arg (codes "-V")
    then asks_version
    else if bytes_eq arg (codes "--headless")
    then sets_headless
    else if bytes_eq arg (codes "--config")
    then sets_config
    else if starts_with 45 arg && not (bytes_eq arg (codes "-"))
    then unknown_option
    else positional

abbrev pub no_args : {P : Type 0} → Args P
no_args = record { site = none; config_path = none; headless = false }

abbrev pub is_given : Option Text → Bool
is_given none = false
is_given (some site) = true

-- What an argument leads to, with what follows it, and with what follows it and its path.
unfoldable pub parse_argument :
    {P : Type 0}
    → Argument
    → Text
    → Args P
    → (Args P → ParseOutcome P)
    → ParseOutcome P
    → ParseOutcome P
parse_argument asks_help arg args next behind_path = help
parse_argument asks_version arg args next behind_path = version
parse_argument sets_headless arg args next behind_path = next (record args { headless = true })
parse_argument sets_config arg args next behind_path = behind_path
parse_argument unknown_option arg args next behind_path = unrecognized_option arg
parse_argument positional arg args next behind_path =
    if is_given args.site then unexpected_argument arg else next (record args { site = some arg })

module _ {P : Type 0} (to_string_lossy : P → Text) where
  -- The loop, behind `argv[0]`.
  unfoldable pub parse_args : Args P → List P → ParseOutcome P
  parse_args args [] = parsed_args args
  parse_args args (p ∷ []) =
      let arg = to_string_lossy p in
      parse_argument (argument_of arg) arg args parsed_args config_without_path
  parse_args args (p ∷ q ∷ ps) =
      let arg = to_string_lossy p in
      parse_argument (argument_of arg) arg args (λ after. parse_args after (q ∷ ps))
        (parse_args (record args { config_path = some q }) ps)

  abbrev pub parse_command_line : List P → ParseOutcome P
  parse_command_line [] = parsed_args no_args
  parse_command_line (name ∷ ps) = parse_args no_args ps

pub data SiteResolutionError : Type 0 where
  no_site_specified : SiteResolutionError
  unknown_cli_site : Text → SiteResolutionError

abbrev pub ok_or : {E A : Type 0} → E → Option A → Result E A
ok_or e none = err e
ok_or e (some a) = ok a

unfoldable pub resolve_site :
    List Site → Option Text → Option Site → Result SiteResolutionError Site
resolve_site sites (some id) config_site = ok_or (unknown_cli_site id) (by_id sites id)
resolve_site sites none config_site = ok_or no_site_specified config_site
