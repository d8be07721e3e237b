-- ===== src/Config/Parse.antt =====
-- crates/radar-workstation/src/config/parse.rs: the lines `key = value`.
use radar_workstation.Common.{
  ℕ, suc, Option, none, some, List, [], ◌∷◌, ◌++◌, Bool, true, false, not, ◌&&◌, ◌||◌, ◌==◌, leb,
  all, if◌then◌else◌,
}
use radar_workstation.Common.Maybe.{◌>>=◌}
use radar_workstation.Common.Text.{bytes_eq}

-- A `str` is its characters.
abbrev pub Text : Type 0
Text = List ℕ

abbrev pub is_empty : Text → Bool
is_empty [] = true
is_empty (c ∷ cs) = false

abbrev pub starts_with : ℕ → Text → Bool
starts_with c [] = false
starts_with c (d ∷ ds) = c == d

abbrev pub onto_first : ℕ → List Text → List Text
onto_first c [] = (c ∷ []) ∷ []
onto_first c (l ∷ ls) = (c ∷ l) ∷ ls

-- `str::lines`: a line ends with LF or CRLF, and the last may have no end.
unfoldable pub lines : Text → List Text
lines [] = []
lines (c ∷ cs) =
    let rest = lines cs in
    if c == 10 then [] ∷ rest else if c == 13 && starts_with 10 cs then rest else onto_first c rest

-- `char::is_whitespace`, the property White_Space.
abbrev pub is_whitespace : ℕ → Bool
is_whitespace c =
    (leb 9 c && leb c 13)
    || c == 32
    || c == 133
    || c == 160
    || c == 5760
    || (leb 8192 c && leb c 8202)
    || c == 8232
    || c == 8233
    || c == 8239
    || c == 8287
    || c == 12288

unfoldable pub trim_start : Text → Text
trim_start [] = []
trim_start (c ∷ cs) = let rest = trim_start cs in if is_whitespace c then rest else c ∷ cs

unfoldable pub trim_end : Text → Text
trim_end [] = []
trim_end (c ∷ cs) =
    let rest = trim_end cs in if is_whitespace c && is_empty rest then [] else c ∷ rest

abbrev pub trim : Text → Text
trim t = trim_end (trim_start t)

-- `split_once('=')`
unfoldable pub split_once : Text → Option (Text × Text)
split_once [] = none
split_once (c ∷ cs) =
    let rest = split_once cs in if c == 61 then some ([], cs) else rest >>= λ r. some (c ∷ r.0, r.1)

-- `split('.')`
unfoldable pub segments : Text → List Text
segments [] = [] ∷ []
segments (c ∷ cs) = let rest = segments cs in if c == 46 then [] ∷ rest else onto_first c rest

abbrev pub is_key_char : ℕ → Bool
is_key_char c =
    (leb 48 c && leb c 57) || (leb 65 c && leb c 90) || (leb 97 c && leb c 122) || c == 95

unfoldable pub is_valid_key : Text → Bool
is_valid_key key =
    not (is_empty key)
    && all (λ segment. not (is_empty segment) && all is_key_char segment) (segments key)

-- The pairs so far, with the new value where the key is there already.
unfoldable pub set_pair : Text → Text → List (Text × Text) → List (Text × Text)
set_pair key value [] = (key, value) ∷ []
set_pair key value ((k, v) ∷ pairs) =
    let rest = set_pair key value pairs in
    if bytes_eq k key then (k, value) ∷ pairs else (k, v) ∷ rest

-- What a line is: nothing to read, one that is skipped, or a pair.
pub data Line : Type 0 where
  nothing skipped : Line
  pair : Text → Text → Line

unfoldable pub pair_of : Option (Text × Text) → Line
pair_of none = skipped
pair_of (some (key, value)) =
    if is_valid_key (trim key) then pair (trim key) (trim value) else skipped

-- A round of the loop of `parse`, up to the pair.
unfoldable pub read_line : Text → Line
read_line raw_line =
    let line = trim raw_line in
    if is_empty line || starts_with 35 line then nothing else pair_of (split_once line)

abbrev pub Parsed : Type 0
Parsed = List (Text × Text) × List ℕ

unfoldable pub add_line : Line → ℕ → Parsed → Parsed
add_line nothing n parsed = parsed
add_line skipped n (pairs, skipped_lines) = (pairs, skipped_lines ++ n ∷ [])
add_line (pair key value) n (pairs, skipped_lines) = (set_pair key value pairs, skipped_lines)

unfoldable pub parse_lines : ℕ → List Text → Parsed → Parsed
parse_lines n [] parsed = parsed
parse_lines n (l ∷ ls) parsed = parse_lines (suc n) ls (add_line (read_line l) n parsed)

unfoldable pub parse : Text → Parsed
parse content = parse_lines 1 (lines content) ([], [])

-- `line_key`
unfoldable pub line_key : Text → Option Text
line_key line =
    let trimmed = trim line in
    if is_empty trimmed || starts_with 35 trimmed
    then none
    else split_once trimmed >>= λ r. if is_valid_key (trim r.0) then some (trim r.0) else none
