-- ===== src/Ingest/Rounds/Moves/Cases.antt =====
-- What the recovery makes of the poller after an empty poll.
use radar_workstation.Common.{
  ℕ, ◌+◌, ◌-◌, ◌≡◌, ◌≤◌, ◌<◌, ◌⊎◌, inl, inr, refl, ap, ap₂, sym, ◌∙◌, subst, Option, none, some,
  Result, ok, List, [], ◌∷◌, ◌++◌, Bool, true, false, Bytes, Bool-cases, arith, leb, ltb→lt, leb→le,
  if◌then◌else◌,
}
use radar_workstation.Ingest.{PollError}
use radar_workstation.Ingest.Poller.{
  Poller, PollAction, continue_polling, re_anchor, advance_past_stuck_volume, next_target,
  anchor_after, inc_u32, inc_u64, last_key, count_empty_poll, move_to, act, poll_state,
  should_relist,
}
use radar_workstation.Ingest.Poller.Thresholds.{dec_u64-pred}
use radar_workstation.Ingest.Rounds.{baseline_fits, empty_polls_fit, action_fits}
use radar_workstation.Ingest.Rounds.Machine.{IsBaseline, is_some}
use radar_workstation.Pipeline.{ChunkEnvelope}
use radar_workstation.Ingest.Rounds.Moves.{
  moved, counted, Move, waited, found_nothing, re_anchored, gave_up,
}
use radar_workstation.Ingest.Rounds.Moves.Folders.{NoneAfter-later, anchor_after-cases}

-- The tests of the recovery, on a count of empty polls that is `n` now.
at_limit : (bound n : ℕ) → leb bound n ≡ true → bound ≤ n
at_limit bound n h = leb→le bound n h

below_limit : (bound n : ℕ) → leb bound n ≡ false → n < bound
below_limit bound n h = ground arith

next_target-unseen :
    (target : ℕ) (p : Poller) (folders : Option (List ℕ))
    → p.seen_any_key_in_current_volume ≡ false
    → next_target (poll_state target p) folders
      ≡ (if leb 12 p.consecutive_empty_polls then anchor_after target folders else continue_polling)
unfolding next_target
next_target-unseen target p folders unseen = rw unseen refl

next_target-seen :
    (target : ℕ) (p : Poller) (folders : Option (List ℕ))
    → p.seen_any_key_in_current_volume ≡ true
    → next_target (poll_state target p) folders ≡ (
        if leb 60 p.consecutive_empty_polls
        then advance_past_stuck_volume (inc_u64 target)
        else continue_polling)
unfolding next_target
next_target-seen target p folders seen = rw seen refl

should_relist-unseen :
    (p : Poller)
    → p.seen_any_key_in_current_volume ≡ false
    → should_relist p ≡ leb 12 p.consecutive_empty_polls
should_relist-unseen p unseen = rw unseen refl

should_relist-seen :
    (p : Poller) → p.seen_any_key_in_current_volume ≡ true → should_relist p ≡ false
should_relist-seen p seen = rw seen refl

act-moves :
    (a : PollAction) (due : Bool) (target new_target volume : ℕ) (b : ℕ) (p : Poller)
    → (a ≡ re_anchor new_target) ⊎ (a ≡ advance_past_stuck_volume new_target)
    → 0 < new_target
    → new_target - 1 ≡ volume
    → (act a due target (counted b p)).0 ≡ moved volume p
unfolding act move_to
act-moves a due target new_target volume b p (inl is) some_target same =
    ap (λ x. (act x due target (counted b p)).0) is
    ∙ ap (λ v. moved v p) (dec_u64-pred new_target some_target ∙ same)
act-moves a due target new_target volume b p (inr is) some_target same =
    ap (λ x. (act x due target (counted b p)).0) is
    ∙ ap (λ v. moved v p) (dec_u64-pred new_target some_target ∙ same)

act-stays :
    (a : PollAction) (due known : Bool) (target : ℕ) (c : Poller)
    → a ≡ continue_polling
    → due ≡ known
    → (act a due target c).0 ≡ (if known then record c { consecutive_empty_polls = 0 } else c)
unfolding act
act-stays a due known target c is same = ap₂ (λ x y. (act x y target c).0) is same

module _ (b : ℕ) (p q : Poller) (r : Result PollError (List ChunkEnvelope)) (base : IsBaseline p b)
    (done : r ≡ ok []) where
  pub seen-Move :
      (folders : Option (List ℕ))
      → baseline_fits b ≡ true
      → p.seen_any_key_in_current_volume ≡ true
      → should_relist (counted b p) ≡ is_some folders
      → action_fits (next_target (poll_state (b + 1) (counted b p)) folders) ≡ true
      → q
        ≡ (act
            (next_target (poll_state (b + 1) (counted b p)) folders)
            (is_some folders)
            (b + 1)
            (counted b p)).0
      → Move p q r
  seen-Move folders low seen listed acts same =
      let action = next_target (poll_state (b + 1) (counted b p)) folders in
      let known = next_target-seen (b + 1) (counted b p) folders seen in
      let choose : Bool → PollAction =
        λ x. if x then advance_past_stuck_volume (inc_u64 (b + 1)) else continue_polling in
      elim (Bool-cases (leb 60 (p.consecutive_empty_polls + 1))) [
        | inl due ↦
            let is = known ∙ ap choose due in
            let room : leb 1 (inc_u64 (b + 1)) ≡ true = ap action_fits (sym is) ∙ acts in
            let some_target = leb→le 1 (inc_u64 (b + 1)) room in
            gave_up b base seen (leb→le 60 (p.consecutive_empty_polls + 1) due) done (
              same
              ∙ act-moves action (is_some folders) (b + 1) (inc_u64 (b + 1)) (b + 1) b p (inr is)
                  some_target (omega (arith, some_target, ltb→lt b 18446744073709551615 low)))
        | inr early ↦
            let limit =
              subst (λ x. p.consecutive_empty_polls + 1 < (if x then 60 else 12)) (sym seen)
                (below_limit 60 (p.consecutive_empty_polls + 1) early) in
            waited b base limit done (
              same
              ∙ act-stays action (is_some folders) false (b + 1) (counted b p)
                  (known ∙ ap choose early) (sym listed ∙ should_relist-seen (counted b p) seen))
      ]

  pub unseen-Move :
      (folders : Option (List ℕ))
      → p.seen_any_key_in_current_volume ≡ false
      → should_relist (counted b p) ≡ is_some folders
      → q
        ≡ (act
            (next_target (poll_state (b + 1) (counted b p)) folders)
            (is_some folders)
            (b + 1)
            (counted b p)).0
      → Move p q r
  unseen-Move none unseen listed same =
      let early = sym (should_relist-unseen (counted b p) unseen) ∙ listed in
      let limit =
        subst (λ x. p.consecutive_empty_polls + 1 < (if x then 60 else 12)) (sym unseen)
          (below_limit 12 (p.consecutive_empty_polls + 1) early) in
      waited b base limit done (
        same
        ∙ act-stays (next_target (poll_state (b + 1) (counted b p)) none) false false (b + 1)
            (counted b p)
            (next_target-unseen (b + 1) (counted b p) none unseen
              ∙ ap (λ x. if x then anchor_after (b + 1) none else continue_polling) early)
            refl)
  unseen-Move (some folders) unseen listed same =
      let action = next_target (poll_state (b + 1) (counted b p)) (some folders) in
      let due = sym (should_relist-unseen (counted b p) unseen) ∙ listed in
      let known : action ≡ anchor_after (b + 1) (some folders) =
        next_target-unseen (b + 1) (counted b p) (some folders) unseen
        ∙ ap (λ x. if x then anchor_after (b + 1) (some folders) else continue_polling) due in
      let limit = leb→le 12 (p.consecutive_empty_polls + 1) due in
      elim (anchor_after-cases (b + 1) folders) [
        | inl (stays, none_after) ↦
            let near = NoneAfter-later (b + 1 + 1) (b + 2) folders (omega arith) none_after in
            found_nothing b folders base unseen limit near done
              (same ∙ act-stays action true true (b + 1) (counted b p) (known ∙ stays) refl)
        | inr (newest, anchors, is, ahead) ↦
            re_anchored b newest folders base unseen limit is (omega (arith, ahead)) done (
              same
              ∙ act-moves action true (b + 1) (newest - 1) (newest - 2) b p (inl (known ∙ anchors))
                  (omega (arith, ahead)) (omega arith))
      ]

pub inc_u64-exact : (b : ℕ) → baseline_fits b ≡ true → inc_u64 b ≡ b + 1
inc_u64-exact b low = let fits = ltb→lt b 18446744073709551615 low in omega (arith, fits)

pub count_empty_poll-counted :
    (b : ℕ) (p : Poller) → empty_polls_fit p ≡ true → count_empty_poll b p ≡ counted b p
unfolding count_empty_poll
count_empty_poll-counted b p room =
    let fits = ltb→lt p.consecutive_empty_polls 4294967295 room in
    let next : inc_u32 p.consecutive_empty_polls ≡ p.consecutive_empty_polls + 1 =
      omega (arith, fits) in
    ap (λ n. record p { last_completed_volume = some b; consecutive_empty_polls = n }) next

pub last_key-last : (keys : List Bytes) (key : Bytes) → last_key (keys ++ key ∷ []) ≡ some key
unfolding last_key
last_key-last [] key = refl
last_key-last (k ∷ []) key = refl
last_key-last (k ∷ l ∷ keys) key = last_key-last (l ∷ keys) key

pub split_last :
    (k : Bytes) (keys : List Bytes)
    → (init : List Bytes) × (key : Bytes) × (k ∷ keys ≡ init ++ key ∷ [])
split_last k [] = ([], k, refl)
split_last k (l ∷ keys) =
    let (init, key, same) = split_last l keys in (k ∷ init, key, ap (λ ks. k ∷ ks) same)
