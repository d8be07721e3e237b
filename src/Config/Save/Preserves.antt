-- ===== src/Config/Save/Preserves.antt =====
-- What save leaves of the lines that are there, and what it writes.
use radar_workstation.Common.{
  ◌≡◌, ◌⊎◌, refl, ap, sym, ◌∙◌, subst, inl, inr, Option, none, some, List, [], ◌∷◌, ◌++◌, map, Bool,
  true, false, not, ◌&&◌, ◌||◌, any, all, Bool-cases, append_assoc, append-nil, arith,
}
use radar_workstation.Common.Text.{bytes_eq, bytes_eq_refl}
use radar_workstation.Config.Parse.{Text, line_key}
use radar_workstation.Config.Save.{
  Change, format, change_line, change_if_keyed, change_lines, new_lines, pending_changes,
  saved_lines,
}

-- A line that a change of this key writes.
abbrev pub is_change_of : List Change → Text → Text → Bool
is_change_of cs key line = any (λ c. bytes_eq c.key key && bytes_eq line (format c)) cs

-- A line is as before, or its key is that of a change and it is written by this change.
abbrev pub Edit : List Change → Text → Text → Type 0
Edit cs before after =
    (after ≡ before)
    ⊎ ((key : Text) × (line_key before ≡ some key) × (is_change_of cs key after ≡ true))

abbrev pub Edits : List Change → List Text → List Text → Type 0
Edits cs [] [] = Unit {0}
Edits cs (l ∷ ls) (m ∷ ms) = Edit cs l m × Edits cs ls ms
Edits cs _ _ = Unit {0} → true ≡ false

or_right : (a b : Bool) → b ≡ true → (a || b) ≡ true
or_right true b h = refl
or_right false b h = h

change_line-hit :
    (key line : Text) (c : Change) (cs : List Change)
    → (not c.applied && bytes_eq c.key key) ≡ true
    → change_line key line (c ∷ cs) ≡ (format c, record c { applied = true } ∷ cs)
unfolding change_line
change_line-hit key line c cs hit = rw hit

change_line-miss :
    (key line : Text) (c : Change) (cs : List Change)
    → (not c.applied && bytes_eq c.key key) ≡ false
    → change_line key line (c ∷ cs) ≡ ((change_line key line cs).0, c ∷ (change_line key line cs).1)
unfolding change_line
change_line-miss key line c cs miss = rw miss

abbrev LineChanged : Text → Text → List Change → Text × List Change → Type 0
LineChanged key line cs r =
    ((r.0 ≡ line) ⊎ (is_change_of cs key r.0 ≡ true))
    × ((k m : Text) → is_change_of r.1 k m ≡ is_change_of cs k m)
    × (map format r.1 ≡ map format cs)

and_second : (a b : Bool) → (a && b) ≡ true → b ≡ true
and_second true b h = h
and_second false b h = cc

and_both : (a b : Bool) → a ≡ true → b ≡ true → (a && b) ≡ true
and_both true b first second = second
and_both false b first second = cc

or_left : (a b : Bool) → a ≡ true → (a || b) ≡ true
or_left true b h = refl
or_left false b h = cc

change_line-LineChanged :
    (key line : Text) (cs : List Change) → LineChanged key line cs (change_line key line cs)
unfolding change_line
change_line-LineChanged key line [] = (inl refl, λ k m. refl, refl)
change_line-LineChanged key line (c ∷ cs) =
    let ih = change_line-LineChanged key line cs in
    let rest = change_line key line cs in
    let test : Text → Text → Bool = λ k m. bytes_eq c.key k && bytes_eq m (format c) in
    elim (Bool-cases (not c.applied && bytes_eq c.key key)) [
      | inl hit ↦
          let here = and_second (not c.applied) (bytes_eq c.key key) hit in
          let written : test key (format c) ≡ true = rw here (bytes_eq_refl (format c)) in
          subst (LineChanged key line (c ∷ cs)) (sym (change_line-hit key line c cs hit)) (
            inr (or_left (test key (format c)) (is_change_of cs key (format c)) written),
            λ k m. refl,
            refl,
          )
      | inr miss ↦
          subst (LineChanged key line (c ∷ cs)) (sym (change_line-miss key line c cs miss)) (
            elim ih.0 [
              | inl kept ↦ inl kept
              | inr changed ↦ inr (or_right (test key rest.0) (is_change_of cs key rest.0) changed)
            ],
            λ k m. ap (λ b. test k m || b) (ih.1 k m),
            ap (λ fs. format c ∷ fs) ih.2,
          )
    ]

-- Every line that the applied changes write is there.
abbrev Written : List Text → List Change → Type 0
Written ws [] = Unit {0}
Written ws (c ∷ cs) = (c.applied ≡ true → any (bytes_eq (format c)) ws ≡ true) × Written ws cs

any-append :
    (t : Text) (ws vs : List Text) → any (bytes_eq t) ws ≡ true → any (bytes_eq t) (ws ++ vs) ≡ true
any-append t [] vs h = cc
any-append t (w ∷ ws) vs h = elim (Bool-cases (bytes_eq t w)) [
  | inl same ↦ rw same refl
  | inr other ↦ rw other (any-append t ws vs (ground arith))
]

any-append_right :
    (t : Text) (ws vs : List Text) → any (bytes_eq t) vs ≡ true → any (bytes_eq t) (ws ++ vs) ≡ true
any-append_right t [] vs h = h
any-append_right t (w ∷ ws) vs h =
    or_right (bytes_eq t w) (any (bytes_eq t) (ws ++ vs)) (any-append_right t ws vs h)

Written-append : (ws vs : List Text) (cs : List Change) → Written ws cs → Written (ws ++ vs) cs
Written-append ws vs [] h = tt
Written-append ws vs (c ∷ cs) h =
    (λ on. any-append (format c) ws vs (h.0 on), Written-append ws vs cs h.1)

change_line-Written :
    (ws : List Text) (key line : Text) (cs : List Change)
    → Written ws cs
    → let r = change_line key line cs in Written (ws ++ r.0 ∷ []) r.1
unfolding change_line
change_line-Written ws key line [] h = tt
change_line-Written ws key line (c ∷ cs) h =
    let rest = change_line key line cs in
    elim (Bool-cases (not c.applied && bytes_eq c.key key)) [
      | inl hit ↦
          let last : any (bytes_eq (format c)) (format c ∷ []) ≡ true =
            ap (λ b. b || false) (bytes_eq_refl (format c)) in
          subst (λ r. Written (ws ++ r.0 ∷ []) r.1) (sym (change_line-hit key line c cs hit))
            (
              λ on. any-append_right (format c) ws (format c ∷ []) last,
              Written-append ws (format c ∷ []) cs h.1,
            )
      | inr miss ↦
          subst (λ r. Written (ws ++ r.0 ∷ []) r.1) (sym (change_line-miss key line c cs miss))
            (
              λ on. any-append (format c) ws (rest.0 ∷ []) (h.0 on),
              change_line-Written ws key line cs h.1,
            )
    ]

-- One line, with a key or without.
change_if_keyed_lem :
    (o : Option Text) (line : Text) (cs : List Change) (ws : List Text)
    → line_key line ≡ o
    → Written ws cs
    → let r = change_if_keyed o line cs in
      Edit cs line r.0
      × ((k m : Text) → is_change_of r.1 k m ≡ is_change_of cs k m)
      × (map format r.1 ≡ map format cs)
      × Written (ws ++ r.0 ∷ []) r.1
unfolding change_if_keyed
change_if_keyed_lem none line cs ws known h =
    (inl refl, λ k m. refl, refl, Written-append ws (line ∷ []) cs h)
change_if_keyed_lem (some key) line cs ws known h =
    let (edit, same, formats) = change_line-LineChanged key line cs in
    (
      elim edit [ inl kept ↦ inl kept | inr changed ↦ inr (key, known, changed) ],
      same,
      formats,
      change_line-Written ws key line cs h,
    )

Edits-same :
    (cs ds : List Change) (ls ms : List Text)
    → ((k m : Text) → is_change_of ds k m ≡ is_change_of cs k m)
    → Edits ds ls ms
    → Edits cs ls ms
Edits-same cs ds [] [] same h = tt
Edits-same cs ds [] (m ∷ ms) same h = h
Edits-same cs ds (l ∷ ls) [] same h = h
Edits-same cs ds (l ∷ ls) (m ∷ ms) same h = (
  elim h.0 [
    | inl kept ↦ inl kept
    | inr (k, known, changed) ↦ inr (k, known, sym (same k m) ∙ changed)
  ],
  Edits-same cs ds ls ms same h.1,
)

change_lines_lem :
    (ls : List Text) (cs : List Change) (ws : List Text)
    → Written ws cs
    → let r = change_lines ls cs in
      Edits cs ls r.0 × (map format r.1 ≡ map format cs) × Written (ws ++ r.0) r.1
unfolding change_lines
change_lines_lem [] cs ws h = (tt, refl, subst (λ vs. Written vs cs) (sym (append-nil ws)) h)
change_lines_lem (l ∷ ls) cs ws h =
    let first = change_if_keyed (line_key l) l cs in
    let (edit, same, formats, written) = change_if_keyed_lem (line_key l) l cs ws refl h in
    let (edits, more, all_written) = change_lines_lem ls first.1 (ws ++ first.0 ∷ []) written in
    let out = change_lines ls first.1 in
    (
      (edit, Edits-same cs first.1 ls out.0 same edits),
      more ∙ formats,
      subst (λ vs. Written vs out.1) (append_assoc ws (first.0 ∷ []) out.0) all_written,
    )

new_lines-applied :
    (c : Change) (cs : List Change) → c.applied ≡ true → new_lines (c ∷ cs) ≡ new_lines cs
unfolding new_lines
new_lines-applied c cs on = rw on refl

new_lines-pending :
    (c : Change) (cs : List Change)
    → c.applied ≡ false
    → new_lines (c ∷ cs) ≡ format c ∷ new_lines cs
unfolding new_lines
new_lines-pending c cs off = rw off refl

-- Every line of `fs` is among the lines.
abbrev pub Contains : List Text → List Text → Type 0
Contains ls fs = all (λ f. any (bytes_eq f) ls) fs ≡ true

new_lines-Contains :
    (ws : List Text) (cs : List Change)
    → Written ws cs
    → Contains (ws ++ new_lines cs) (map format cs)
unfolding new_lines
new_lines-Contains ws [] h = refl
new_lines-Contains ws (c ∷ cs) h =
    let tail = new_lines cs in
    let f = format c in
    let goal : List Text → Type 0 = λ vs. Contains (ws ++ vs) (f ∷ map format cs) in
    elim (Bool-cases c.applied) [
      | inl on ↦ subst goal (sym (new_lines-applied c cs on)) (
          and_both (any (bytes_eq f) (ws ++ tail))
            (all (λ g. any (bytes_eq g) (ws ++ tail)) (map format cs))
            (any-append f ws tail (h.0 on)) (new_lines-Contains ws cs h.1))
      | inr off ↦
          let itself : any (bytes_eq f) (f ∷ tail) ≡ true =
            or_left (bytes_eq f f) (any (bytes_eq f) tail) (bytes_eq_refl f) in
          let rest = new_lines-Contains (ws ++ f ∷ []) cs (Written-append ws (f ∷ []) cs h.1) in
          let moved =
            subst (λ vs. Contains vs (map format cs)) (append_assoc ws (f ∷ []) tail) rest in
          subst goal (sym (new_lines-pending c cs off)) (
            and_both (any (bytes_eq f) (ws ++ f ∷ tail))
              (all (λ g. any (bytes_eq g) (ws ++ f ∷ tail)) (map format cs))
              (any-append_right f ws (f ∷ tail) itself) moved)
    ]

pending-Written : (changes : List (Text × Text)) → Written [] (pending_changes changes)
pending-Written [] = tt
pending-Written (c ∷ changes) = (λ on. cc, pending-Written changes)

-- `save` works line by line: each line that is there is kept as it is, unless it defines the key of
-- a change, which may then write it; further lines come behind these; and the line of every change
-- is in the result.
pub saved_lines-Edits :
    (existing : List Text) (changes : List (Text × Text))
    → let cs = pending_changes changes in
      (edited : List Text) × (new : List Text) × (saved_lines existing changes ≡ edited ++ new)
      × Edits cs existing edited
      × Contains (saved_lines existing changes) (map format cs)
unfolding saved_lines
saved_lines-Edits existing changes =
    let cs = pending_changes changes in
    let changed = change_lines existing cs in
    let (edits, formats, written) = change_lines_lem existing cs [] (pending-Written changes) in
    (
      changed.0,
      new_lines changed.1,
      refl,
      edits,
      subst (Contains (changed.0 ++ new_lines changed.1)) formats
          (new_lines-Contains changed.0 changed.1 written),
    )
