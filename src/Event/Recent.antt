-- ===== src/Event/Recent.antt =====
-- What the log of events holds.
use radar_workstation.Common.{
  ℕ, zero, suc, ◌+◌, ◌-◌, ◌≡◌, ◌<◌, refl, ap, sym, ◌∙◌, List, [], ◌∷◌, ◌++◌, length, drop, arith,
  ◌==◌, Bool-cases, inl, inr, length-append, length-drop, drop-append_left, false, append_assoc,
  append-nil, ==_iff, min, leb, leb→le,
}
use radar_workstation.Event.{Event, Entry, EventLog, push, recent, event_log_capacity}

-- The log after reports, each with its instant.
unfoldable pub push_all : List Entry → EventLog → EventLog
push_all [] log = log
push_all ((now, e) ∷ es) log = push_all es (push now e log)

-- The last entries, as many as the log has room for.
abbrev pub last_entries : List Entry → EventLog
last_entries es = drop (length es - event_log_capacity) es

drop-nil : (n : ℕ) → drop {A = Entry} n [] ≡ []
drop-nil zero = refl
drop-nil (suc n) = refl

drop-drop : (m n : ℕ) (es : List Entry) → drop m (drop n es) ≡ drop (n + m) es
drop-drop m zero es = ap (λ k. drop k es) (omega arith)
drop-drop m (suc n) [] = drop-nil m ∙ sym (drop-nil (suc n + m))
drop-drop m (suc n) (e ∷ es) =
    let next : suc (n + m) ≡ suc n + m = omega arith in
    drop-drop m n es ∙ ap (λ k. drop k (e ∷ es)) next

push-full :
    (now : ℕ) (e : Event) (log : EventLog)
    → length log ≡ event_log_capacity
    → push now e log ≡ drop 1 log ++ (now, e) ∷ []
unfolding push
push-full now e log full = rw ((==_iff (length log) event_log_capacity).1 full)

push-room :
    (now : ℕ) (e : Event) (log : EventLog)
    → length log < event_log_capacity
    → push now e log ≡ log ++ (now, e) ∷ []
unfolding push
push-room now e log room =
    let not_full : (length log == event_log_capacity) ≡ false = ground arith in rw not_full

push-last_entries :
    (now : ℕ) (e : Event) (es : List Entry)
    → push now e (last_entries es) ≡ last_entries (es ++ (now, e) ∷ [])
push-last_entries now e es =
    let new : List Entry = (now, e) ∷ [] in
    let excess = length es - event_log_capacity in
    let longer = length-append es new in
    let kept = length-drop excess es in
    elim (Bool-cases (leb event_log_capacity (length es))) [
      | inl full ↦
          let many = leb→le event_log_capacity (length es) full in
          let next : excess + 1 ≡ length (es ++ new) - event_log_capacity = omega arith in
          push-full now e (last_entries es) (omega arith)
          ∙ ap (λ log. log ++ new) (drop-drop 1 excess es)
          ∙ sym (drop-append_left (excess + 1) es new (omega arith))
          ∙ ap (λ k. drop k (es ++ new)) next
      | inr few ↦
          let small : length es < event_log_capacity = ground arith in
          let none_over : excess ≡ 0 = omega arith in
          let next : 0 ≡ length (es ++ new) - event_log_capacity = omega arith in
          push-room now e (last_entries es) (omega arith)
          ∙ ap (λ k. drop k es ++ new) none_over
          ∙ ap (λ k. drop k (es ++ new)) next
    ]

push_all-last_entries :
    (es before : List Entry) → push_all es (last_entries before) ≡ last_entries (before ++ es)
unfolding push_all
push_all-last_entries [] before = ap last_entries (sym (append-nil before))
push_all-last_entries ((now, e) ∷ es) before =
    ap (push_all es) (push-last_entries now e before)
    ∙ push_all-last_entries es (before ++ (now, e) ∷ [])
    ∙ ap last_entries (append_assoc before ((now, e) ∷ []) es)

-- The log is a window on what was reported: after any reports to an empty log, `recent` gives the
-- last of them, in order, as many as are asked for and 64 at most.
pub recent-push_all :
    (n : ℕ) (es : List Entry)
    → recent n (push_all es []) ≡ drop (length es - min n event_log_capacity) es
unfolding recent
recent-push_all n es =
    let excess = length es - event_log_capacity in
    let kept = length-drop excess es in
    let total : excess + (length (last_entries es) - n) ≡ length es - min n event_log_capacity =
      omega arith in
    ap (λ log. drop (length log - n) log) (push_all-last_entries es [])
    ∙ drop-drop (length (last_entries es) - n) excess es
    ∙ ap (λ k. drop k es) total
