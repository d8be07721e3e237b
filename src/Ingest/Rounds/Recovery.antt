-- ===== src/Ingest/Rounds/Recovery.antt =====
-- The recovery of the poller from a volume that does not come, or does not go on.
use radar_workstation.Common.{
  ℕ, suc, ◌+◌, ◌-◌, ◌≡◌, ◌<◌, ◌≤◌, ap, sym, ◌∙◌, refl, subst, Option, none, some, ok, List, [], ◌∷◌,
  ◌++◌, Bool, true, false, Bytes, arith, length, lt→ltb, le→leb,
}
use radar_workstation.Common.Text.{codes}
use radar_workstation.Ingest.{reanchor_empty_polls, stuck_mid_volume_empty_polls}
use radar_workstation.Ingest.Listing.{XmlReader, ListPage, newest_or}
use radar_workstation.Ingest.Pages.{Client, list_all_keys_after, volume_folders}
use radar_workstation.Ingest.Poller.{
  Poller, PollAction, continue_polling, re_anchor, advance_past_stuck_volume, next_target,
  poll_state, inc_u64, dec_u64, count_empty_poll, move_to, note_success, site_prefix, volume_prefix,
}
use radar_workstation.Ingest.Poller.Thresholds.{
  Waiting, limit, next_count, dec_u64-pred, should_relist-early, should_relist-due,
  should_relist-seen, act-early, act-anchors, act-advances,
}
use radar_workstation.Ingest.Rounds.{
  Context, action_fits, empty_polls_fit, poll_once, take_keys, poll_round, run_poller,
}
use radar_workstation.Ingest.Rounds.Position.{MovesOn, next_target-MovesOn}
use radar_workstation.Ingest.Rounds.Silence.{
  Answers, keys-Answers, folders-Answers, poll_once-empty, take_keys-waiting, take_keys-relisting,
  poll_round-ok, run_poller-silent,
}

-- The counters have room on the way.
MovesOn-fits :
    (target : ℕ) (a : PollAction)
    → target + 1 < 18446744073709551616
    → MovesOn target a
    → action_fits a ≡ true
MovesOn-fits target continue_polling fits moves = refl
MovesOn-fits target (re_anchor n) fits moves = le→leb 1 n (omega (arith, moves))
MovesOn-fits target (advance_past_stuck_volume n) fits moves = le→leb 1 n (omega (arith, moves))

action-fits :
    (v : ℕ) (p : Poller) (folders : Option (List ℕ))
    → v + 2 < 18446744073709551616
    → action_fits (next_target (poll_state (inc_u64 v) p) folders) ≡ true
action-fits v p folders fits =
    let s = poll_state (inc_u64 v) p in
    MovesOn-fits (inc_u64 v) (next_target s folders) (omega arith) (next_target-MovesOn s folders)

Waiting-room :
    (v n : ℕ) (seen : Bool) (p : Poller)
    → Waiting v seen n p
    → n < limit seen
    → empty_polls_fit p ≡ true
Waiting-room v n true p waiting early =
    lt→ltb p.consecutive_empty_polls 4294967295 (omega (arith, waiting.2))
Waiting-room v n false p waiting early =
    lt→ltb p.consecutive_empty_polls 4294967295 (omega (arith, waiting.2))

module _ {W : Type 0} (client : Client W) (reader : XmlReader) (site : Bytes) (fuel v : ℕ)
    (fits : v + 2 < 18446744073709551616) (keys : ListPage) where
  -- Any request for the keys of the volume after `v` is answered with a page that has none.
  abbrev pub IsSilent : Type 0
  IsSilent =
      (keys.keys ≡ [])
      × ((start_after : Option Bytes)
          → Answers client reader (volume_prefix site (inc_u64 v)) start_after none keys)

  silent-poll :
      IsSilent
      → (c : Context W) → c.poller.last_completed_volume ≡ some v
      → (t : W) × (poll_once client reader site (suc fuel) c
          ≡ take_keys client reader site (suc fuel) v (inc_u64 v) [] (record c { server = t }))
  silent-poll silent c known =
      let start_after = c.poller.last_seen_key in
      let (t, listed) =
        keys-Answers client reader fuel (volume_prefix site (inc_u64 v)) start_after keys
          (silent.1 start_after) c.server in
      let no_key =
        subst
          (λ ks.
            list_all_keys_after client reader (suc fuel) (volume_prefix site (inc_u64 v))
              start_after c.server
            ≡ some (t, ok (ks, 1)))
          silent.0 listed in
      (
        t,
        poll_once-empty client reader site (suc fuel) v 1 c t known
            (lt→ltb v 18446744073709551615 (omega arith)) no_key,
      )

  silent-round :
      IsSilent
      → (seen : Bool) (n now : ℕ) (c : Context W) → Waiting v seen n c.poller
      → n + 1 < limit seen
      → (t : Context W) × (poll_round client reader site (suc fuel) now c ≡ some (t, []))
        × Waiting v seen (suc n) t.poller
  unfolding note_success count_empty_poll
  silent-round silent seen n now c waiting early =
      let (w, polled) = silent-poll silent c waiting.0 in
      let c1 : Context W = record c { server = w } in
      let kept =
        take_keys-waiting client reader site (suc fuel) v (inc_u64 v) c1
          (Waiting-room v n seen c.poller waiting (omega arith))
          (should_relist-early v n seen c.poller waiting early)
          (action-fits v (count_empty_poll v c.poller) none fits) in
      let q = count_empty_poll v c.poller in
      let acted = act-early v n seen c.poller waiting early in
      (
        _,
        poll_round-ok client reader site (suc fuel) now c _ [] (polled ∙ kept),
        subst (λ s. Waiting v seen (suc n) (note_success now s.0)) (sym acted)
            (refl, waiting.1, next_count v n seen c.poller waiting early),
      )

  -- Rounds up to the limit, of which the last leaves the poller as `Goal` says.
  silent-rounds :
      IsSilent
      → (Goal : Poller → Type 0) (seen : Bool)
      → ((now : ℕ) (c : Context W) (n : ℕ)
          → n + 1 ≡ limit seen
          → Waiting v seen n c.poller
          → (t : Context W) × (poll_round client reader site (suc fuel) now c ≡ some (t, []))
            × Goal t.poller)
      → (n now : ℕ) (ticks : List ℕ) (c : Context W) → n + 1 + length ticks ≡ limit seen
      → Waiting v seen n c.poller
      → (t : Context W) × ((room : Option ℕ)
          → run_poller client reader site (suc fuel) room (now ∷ ticks) c ≡ some (t, []))
        × Goal t.poller
  unfolding run_poller
  silent-rounds silent Goal seen last n now [] c count waiting =
      let (t, round, goal) = last now c n (omega arith) waiting in
      (
        t,
        λ room. run_poller-silent client reader site (suc fuel) room now [] c t t round (λ r. refl),
        goal,
      )
  silent-rounds silent Goal seen last n now (next ∷ ticks) c count waiting =
      let (t, round, still) = silent-round silent seen n now c waiting (omega arith) in
      let (u, rounds, goal) =
        silent-rounds silent Goal seen last (suc n) next ticks t (omega arith) still in
      (
        u,
        λ room.
            run_poller-silent client reader site (suc fuel) room now (next ∷ ticks) c t u round
              rounds,
        goal,
      )

  anchoring-round :
      IsSilent
      → (folders : ListPage) (newest : ℕ)
      → Answers client reader (site_prefix site) none (some (codes "/")) folders
      → newest_or 0 (volume_folders (site_prefix site) folders.common_prefixes).0 ≡ newest
      → v + 3 ≤ newest
      → (now : ℕ) (c : Context W) (n : ℕ) → n + 1 ≡ reanchor_empty_polls
      → Waiting v false n c.poller
      → (t : Context W) × (poll_round client reader site (suc fuel) now c ≡ some (t, []))
        × Waiting (newest - 2) false 0 t.poller
  unfolding note_success move_to
  anchoring-round silent folders newest answers top ahead now c n due waiting =
      let prefix = site_prefix site in
      let found = (volume_folders prefix folders.common_prefixes).0 in
      let (w, polled) = silent-poll silent c waiting.0 in
      let (u, listed) =
        folders-Answers client reader fuel prefix folders answers w (c.reports ++ []) in
      let q = count_empty_poll v c.poller in
      let relisted =
        take_keys-relisting client reader site (suc fuel) v (inc_u64 v) (record c { server = w }) u
          _ found (Waiting-room v n false c.poller waiting (omega arith))
          (should_relist-due v n c.poller waiting due)
          (action-fits v (count_empty_poll v c.poller) (some found) fits) listed in
      let anchored = act-anchors v n c.poller found waiting due fits (omega arith) in
      let moved : dec_u64 (newest_or 0 found - 1) ≡ newest - 2 =
        dec_u64-pred (newest_or 0 found - 1) (omega arith) ∙ omega arith in
      (
        _,
        poll_round-ok client reader site (suc fuel) now c _ [] (polled ∙ relisted),
        subst (λ s. Waiting (newest - 2) false 0 (note_success now s)) (sym anchored)
            (ap some moved, refl, refl),
      )

  advancing-round :
      IsSilent
      → (now : ℕ) (c : Context W) (n : ℕ) → n + 1 ≡ stuck_mid_volume_empty_polls
      → Waiting v true n c.poller
      → (t : Context W) × (poll_round client reader site (suc fuel) now c ≡ some (t, []))
        × Waiting (inc_u64 v) false 0 t.poller
  unfolding note_success move_to
  advancing-round silent now c n due waiting =
      let (w, polled) = silent-poll silent c waiting.0 in
      let kept =
        take_keys-waiting client reader site (suc fuel) v (inc_u64 v) (record c { server = w })
          (Waiting-room v n true c.poller waiting (omega arith))
          (should_relist-seen v n c.poller waiting)
          (action-fits v (count_empty_poll v c.poller) none fits) in
      let advanced = act-advances v n c.poller waiting due in
      (
        _,
        poll_round-ok client reader site (suc fuel) now c _ [] (polled ∙ kept),
        subst (λ s. Waiting (inc_u64 v) false 0 (note_success now s)) (sym advanced)
            (ap some (dec_u64-pred (inc_u64 (inc_u64 v)) (omega arith) ∙ omega arith), refl, refl),
      )

  -- When the server lists no key of the volume after `v`, of which none was seen, the poller
  -- re-anchors at the twelfth empty poll in a row, if the newest folder is at least three after `v`:
  -- it then goes on from two before the newest folder, whatever the channel does. The listings are
  -- of one page, and `v` is two below the largest `u64`.
  pub run_poller-re_anchors :
      IsSilent
      → (folders : ListPage)
      → Answers client reader (site_prefix site) none (some (codes "/")) folders
      → let newest = newest_or 0 (volume_folders (site_prefix site) folders.common_prefixes).0 in
        v + 3 ≤ newest
        → (n now : ℕ) (ticks : List ℕ) (c : Context W) → n + 1 + length ticks ≡ reanchor_empty_polls
        → Waiting v false n c.poller
        → (t : Context W) × ((room : Option ℕ)
            → run_poller client reader site (suc fuel) room (now ∷ ticks) c ≡ some (t, []))
          × Waiting (newest - 2) false 0 t.poller
  run_poller-re_anchors silent folders answers ahead n now ticks c count waiting =
      let newest = newest_or 0 (volume_folders (site_prefix site) folders.common_prefixes).0 in
      silent-rounds silent (Waiting (newest - 2) false 0) false
        (anchoring-round silent folders newest answers refl ahead) n now ticks c count waiting

  -- When the server lists no more key of the volume after `v`, of which one was seen, the poller
  -- gives this volume up at the sixtieth empty poll in a row, and goes on from it. The listing is of
  -- one page, and `v` is two below the largest `u64`.
  pub run_poller-advances :
      IsSilent
      → (n now : ℕ) (ticks : List ℕ) (c : Context W)
      → n + 1 + length ticks ≡ stuck_mid_volume_empty_polls
      → Waiting v true n c.poller
      → (t : Context W) × ((room : Option ℕ)
          → run_poller client reader site (suc fuel) room (now ∷ ticks) c ≡ some (t, []))
        × Waiting (inc_u64 v) false 0 t.poller
  run_poller-advances silent n now ticks c count waiting =
      silent-rounds silent (Waiting (inc_u64 v) false 0) true (advancing-round silent) n now ticks c
        count waiting
