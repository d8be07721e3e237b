-- ===== src/Config/Save.antt =====
-- crates/radar-workstation/src/config/save.rs: the text that `save` writes. The file itself is read
-- before and replaced after by the file system.
pub mod Preserves
use radar_workstation.Common.{
  ℕ, Option, none, some, List, [], ◌∷◌, ◌++◌, Bool, true, false, not, ◌&&◌, if◌then◌else◌,
}
use radar_workstation.Common.Text.{codes, bytes_eq}
use radar_workstation.Config.Parse.{Text, is_empty, lines, line_key}

-- A change, with its entry of `applied`.
pub record Change : Type 0 where
  pub key : Text
  pub value : Text
  pub applied : Bool

-- `format!("{key} = {value}")`
abbrev pub format : Change → Text
format c = c.key ++ (codes " = " ++ c.value)

-- The inner loop, for a line with a key: the line, and the changes with the flag set.
unfoldable pub change_line : Text → Text → List Change → Text × List Change
change_line existing_key line [] = (line, [])
change_line existing_key line (c ∷ cs) =
    let rest = change_line existing_key line cs in
    if not c.applied && bytes_eq c.key existing_key
    then (format c, record c { applied = true } ∷ cs)
    else (rest.0, c ∷ rest.1)

unfoldable pub change_if_keyed : Option Text → Text → List Change → Text × List Change
change_if_keyed none line cs = (line, cs)
change_if_keyed (some key) line cs = change_line key line cs

-- The loop over the lines.
unfoldable pub change_lines : List Text → List Change → List Text × List Change
change_lines [] cs = ([], cs)
change_lines (l ∷ ls) cs =
    let first = change_if_keyed (line_key l) l cs in
    let rest = change_lines ls first.1 in (first.0 ∷ rest.0, rest.1)

-- The loop that appends the changes that were not applied.
unfoldable pub new_lines : List Change → List Text
new_lines [] = []
new_lines (c ∷ cs) = let rest = new_lines cs in if c.applied then rest else format c ∷ rest

abbrev pub pending_change : Text × Text → Change
pending_change (key, value) = record { key = key; value = value; applied = false }

abbrev pub pending_changes : List (Text × Text) → List Change
pending_changes [] = []
pending_changes (c ∷ cs) = pending_change c ∷ pending_changes cs

unfoldable pub saved_lines : List Text → List (Text × Text) → List Text
saved_lines existing changes =
    let changed = change_lines existing (pending_changes changes) in
    changed.0 ++ new_lines changed.1

-- `join("\n")`
unfoldable pub join : List Text → Text
join [] = []
join (l ∷ []) = l
join (l ∷ m ∷ ls) = l ++ (10 ∷ join (m ∷ ls))

abbrev pub with_end : Text → Text
with_end [] = []
with_end (c ∷ cs) = c ∷ cs ++ 10 ∷ []

-- The contents for an existing text, which is empty where there is no file.
unfoldable pub saved_text : Text → List (Text × Text) → Text
saved_text existing changes = with_end (join (saved_lines (lines existing) changes))
