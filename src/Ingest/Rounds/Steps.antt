-- ===== src/Ingest/Rounds/Steps.antt =====
-- A call of poll_once takes a step of the state machine.
use radar_workstation.Common.{
  ℕ, ◌≡◌, ◌⊎◌, inl, inr, refl, ap, ap₂, sym, ◌∙◌, Option, none, some, Result, ok, err, List, [],
  ◌∷◌, ◌++◌, ◌||◌, Bool, true, false, Bytes, Option-cases, arith, subst, ok_eq,
}
use radar_workstation.Chunk.{ChunkKind, end_chunk, kind_eq}
use radar_workstation.Event.{Event}
use radar_workstation.Common.Maybe.{some_eq}
use radar_workstation.Ingest.{PollError}
use radar_workstation.Ingest.Action.{Action, >>=-Chained, request, pure, ◌>>=◌, ◌>>◌}
use radar_workstation.Ingest.Listing.{XmlReader, cold_start_baseline}
use radar_workstation.Ingest.Pages.{Client, list_all_keys_after, list_volume_folders}
use radar_workstation.Ingest.Poller.{
  next_target, inc_u64, to_fetch, count_empty_poll, note_keys, finish_batch, act, poll_state,
  should_relist, volume_prefix, site_prefix,
}
use radar_workstation.Ingest.Rounds.{
  Context, checked, action_fits, empty_polls_fit, baseline_fits, take_no_key, poll_behind, listing,
  serving, modify, listing_if, apply_recovery, baseline_of, fetch_all, take_keys, poll_from,
  poll_once,
}
use radar_workstation.Pipeline.{ChunkEnvelope}
use radar_workstation.Ingest.Rounds.Machine.{
  IsBaseline, Fetched, is_some, PollStep, kept, batch_failed, batch, relisting_failed, empty,
}

module _ {W A : Type 0} where
  pub checked-some :
      (fits : Bool) (m : Action (Context W) A) (c : Context W) (r : Context W × Result PollError A)
      → checked fits m c ≡ some r
      → (fits ≡ true) × (m c ≡ some r)
  checked-some true m c r h = (refl, h)
  checked-some false m c r h = cc

  -- The listings and the fetches leave the poller as it is.
  pub listing-poller :
      (m : Action (W × List Event) A) (c c' : Context W) (r : Result PollError A)
      → listing m c ≡ some (c', r)
      → c'.poller ≡ c.poller
  listing-poller m c c' r h = elim (Option-cases (m (c.server, c.reports))) [
    | inl e ↦ ground arith
    | inr (a, e) ↦ ground arith
  ]

  pub serving-poller :
      (m : Action W A) (c c' : Context W) (r : Result PollError A)
      → serving m c ≡ some (c', r)
      → (c'.poller ≡ c.poller) × (m c.server ≡ some (c'.server, r))
  serving-poller m c c' r h = elim (Option-cases (m c.server)) [
    | inl e ↦ ground arith
    | inr (a, e) ↦ ground arith
  ]

module _ {W : Type 0} (client : Client W) (reader : XmlReader) (site : Bytes) (fuel : ℕ) where
  fetch_all-Fetched :
      (keys : List (Bytes × ChunkKind)) (w w' : W) (fetched : List ChunkEnvelope × Bool)
      → fetch_all client reader site fuel keys w ≡ some (w', ok fetched)
      → Fetched keys fetched
  unfolding fetch_all
  fetch_all-Fetched [] w w' fetched h = ground arith
  fetch_all-Fetched ((key, kind) ∷ keys) w w' fetched h =
      elim (>>=-Chained (request (client.get_object key))
        (λ raw. fetch_all client reader site fuel keys >>= λ rest.
          pure (record { kind = kind; raw_bytes = raw } ∷ rest.0, kind_eq kind end_chunk || rest.1))
        w w' (ok fetched) h) [
          | inl (e, first, absurd_ok) ↦ cc
          | inr (raw, t, first, rest) ↦
              elim (>>=-Chained (fetch_all client reader site fuel keys)
                (λ rest. pure (
                  record { kind = kind; raw_bytes = raw } ∷ rest.0,
                  kind_eq kind end_chunk || rest.1,
                ))
                t w' (ok fetched) rest) [
                  | inl (e, second, absurd_ok) ↦ cc
                  | inr (others, u, second, done) ↦
                      let ih = fetch_all-Fetched keys t u others second in ground arith
                ]
        ]

  listing_if_lem :
      (due : Bool) (c c' : Context W) (r : Result PollError (Option (List ℕ)))
      → listing_if client reader site fuel due c ≡ some (c', r)
      → (c'.poller ≡ c.poller)
        × ((folders : Option (List ℕ)) → r ≡ ok folders → due ≡ is_some folders)
  unfolding listing_if
  listing_if_lem true c c' r h =
      elim (>>=-Chained (listing (list_volume_folders client reader fuel (site_prefix site)))
        (λ folders. pure (some folders)) c c' r h) [
          | inl (e, listed, failed) ↦ (
            listing-poller (list_volume_folders client reader fuel (site_prefix site)) c c' _
                listed,
            λ folders h. cc,
          )
          | inr (found, t, listed, done) ↦ (
            ap (λ q. q.0.poller) (sym (some_eq done))
                ∙ listing-poller (list_volume_folders client reader fuel (site_prefix site)) c t _
                    listed,
            λ folders h. ap is_some (ok_eq (ap (λ q. q.1) (some_eq done) ∙ h)),
          )
        ]
  listing_if_lem false c c' r h = (
    ap (λ q. q.0.poller) (sym (some_eq h)),
    λ folders e. ap is_some (ok_eq (ap (λ q. q.1) (some_eq h) ∙ e)),
  )

  -- The recovery fails with the folders' listing, or acts on the folders.
  apply_recovery_lem :
      (target : ℕ) (c c' : Context W) (r : Result PollError (Unit {0}))
      → apply_recovery client reader site fuel target c ≡ some (c', r)
      → ((e : PollError) × (r ≡ err e) × (c'.poller ≡ c.poller))
        ⊎ ((folders : Option (List ℕ)) × (should_relist c.poller ≡ is_some folders)
            × (action_fits (next_target (poll_state target c.poller) folders) ≡ true)
            × (r ≡ ok tt)
            × (c'.poller
                ≡ (act
                    (next_target (poll_state target c.poller) folders)
                    (is_some folders)
                    target
                    c.poller).0))
  unfolding apply_recovery
  apply_recovery_lem target c c' r h =
      let s = poll_state target c.poller in
      let relist = should_relist c.poller in
      elim (>>=-Chained (listing_if client reader site fuel relist)
        (λ folders.
          checked (action_fits (next_target s folders))
            (modify (act (next_target s folders) relist target)))
        c c' r h) [
          | inl (e, listed, failed) ↦ inl (e, failed, (listing_if_lem relist c c' _ listed).0)
          | inr (folders, t, listed, checked_done) ↦
              let same = listing_if_lem relist c t _ listed in
              let (acts, done) =
                checked-some (action_fits (next_target s folders))
                  (modify (act (next_target s folders) relist target)) t (c', r) checked_done in
              inr (
                folders,
                same.1 folders refl,
                acts,
                ap (λ q. q.1) (sym (some_eq done)),
                ap (λ q. q.0.poller) (sym (some_eq done))
                    ∙ ap₂ (λ due p. (act (next_target s folders) due target p).0)
                        (same.1 folders refl) same.0,
              )
        ]

  take_keys-empty :
      (b : ℕ) (c c' : Context W) (r : Result PollError (List ChunkEnvelope))
      → IsBaseline c.poller b
      → baseline_fits b ≡ true
      → take_keys client reader site fuel b (inc_u64 b) [] c ≡ some (c', r)
      → PollStep c.poller c'.poller r
  unfolding take_keys
  take_keys-empty b c c' r base low checked_h =
      let (room, h) =
        checked-some (empty_polls_fit c.poller) (take_no_key client reader site fuel b (inc_u64 b))
          c (c', r) checked_h in
      let c1 : Context W = record c {
        poller = count_empty_poll b c.poller;
        reports = c.reports ++ [];
      } in
      elim (>>=-Chained (apply_recovery client reader site fuel (inc_u64 b)) (λ _. pure []) c1 c' r
        h) [
          | inl (e, recovery, failed) ↦ elim (apply_recovery_lem (inc_u64 b) c1 c' _ recovery) [
            | inl (e', _, same) ↦ relisting_failed b e base low room failed same
            | inr (folders, listed, acts, done, acted) ↦ cc
          ]
          | inr (u, t, recovery, done) ↦ elim (apply_recovery_lem (inc_u64 b) c1 t _ recovery) [
            | inl (e', failed, same) ↦ cc
            | inr (folders, listed, acts, ok_tt, acted) ↦
                empty b folders base low room acts listed (ap (λ q. q.1) (sym (some_eq done)))
                  (ap (λ q. q.0.poller) (sym (some_eq done)) ∙ acted)
          ]
        ]

  take_keys-batch :
      (b : ℕ) (key : Bytes) (keys : List Bytes) (c c' : Context W)
      (r : Result PollError (List ChunkEnvelope))
      → IsBaseline c.poller b
      → baseline_fits b ≡ true
      → take_keys client reader site fuel b (inc_u64 b) (key ∷ keys) c ≡ some (c', r)
      → PollStep c.poller c'.poller r
  unfolding take_keys
  take_keys-batch b key keys c c' r base low h =
      let kept_keys = key ∷ keys in
      let c1 : Context W = record c {
        poller = note_keys c.poller;
        reports = c.reports ++ (to_fetch kept_keys).1;
      } in
      elim (>>=-Chained (serving (fetch_all client reader site fuel (to_fetch kept_keys).0))
        (λ fetched.
          modify (λ p. (finish_batch b (inc_u64 b) kept_keys fetched.1 p, [])) >> pure fetched.0)
        c1 c' r h) [
          | inl (e, fetch, failed) ↦
              batch_failed e failed
                (serving-poller (fetch_all client reader site fuel (to_fetch kept_keys).0) c1 c' _
                  fetch).0
          | inr (fetched, t, fetch, done) ↦
              let same =
                serving-poller (fetch_all client reader site fuel (to_fetch kept_keys).0) c1 t _
                  fetch in
              batch b key keys fetched base low
                (fetch_all-Fetched (to_fetch kept_keys).0 c.server t.server fetched same.1)
                (ap (λ q. q.1) (sym (some_eq done)))
                (ap (λ q. q.0.poller) (sym (some_eq done))
                  ∙ ap (finish_batch b (inc_u64 b) kept_keys fetched.1) same.0)
        ]

  take_keys-PollStep :
      (b : ℕ) (keys : List Bytes) (c c' : Context W) (r : Result PollError (List ChunkEnvelope))
      → IsBaseline c.poller b
      → baseline_fits b ≡ true
      → take_keys client reader site fuel b (inc_u64 b) keys c ≡ some (c', r)
      → PollStep c.poller c'.poller r
  take_keys-PollStep b [] c c' r base low h = take_keys-empty b c c' r base low h
  take_keys-PollStep b (key ∷ keys) c c' r base low h = take_keys-batch b key keys c c' r base low h

  baseline_of_lem :
      (last : Option ℕ) (c c' : Context W) (r : Result PollError ℕ)
      → c.poller.last_completed_volume ≡ last
      → baseline_of client reader site fuel last c ≡ some (c', r)
      → (c'.poller ≡ c.poller) × ((b : ℕ) → r ≡ ok b → IsBaseline c.poller b)
  unfolding baseline_of
  baseline_of_lem (some v) c c' r known h = ground arith
  baseline_of_lem none c c' r known h =
      let no_volume : (b : ℕ) → IsBaseline c.poller b = λ b v e. cc in
      elim (>>=-Chained (listing (list_volume_folders client reader fuel (site_prefix site)))
        (λ folders. pure (cold_start_baseline folders)) c c' r h) [
          | inl (e, listed, failed) ↦ (
            listing-poller (list_volume_folders client reader fuel (site_prefix site)) c c' _
                listed,
            λ b _. no_volume b,
          )
          | inr (folders, t, listed, done) ↦ (
            ap (λ q. q.0.poller) (sym (some_eq done))
                ∙ listing-poller (list_volume_folders client reader fuel (site_prefix site)) c t _
                    listed,
            λ b _. no_volume b,
          )
        ]

  poll_from-PollStep :
      (b : ℕ) (c c' : Context W) (r : Result PollError (List ChunkEnvelope))
      → IsBaseline c.poller b
      → poll_from client reader site fuel b c ≡ some (c', r)
      → PollStep c.poller c'.poller r
  unfolding poll_from
  poll_from-PollStep b c c' r base checked_h =
      let (low, h) =
        checked-some (baseline_fits b) (poll_behind client reader site fuel b) c (c', r)
          checked_h in
      elim (>>=-Chained
        (serving (
          list_all_keys_after client reader fuel (volume_prefix site (inc_u64 b))
            c.poller.last_seen_key))
        (λ keys. take_keys client reader site fuel b (inc_u64 b) keys.0) c c' r h) [
          | inl (e, listed, failed) ↦
              kept e failed
                (serving-poller
                  (list_all_keys_after client reader fuel (volume_prefix site (inc_u64 b))
                    c.poller.last_seen_key)
                  c c' _ listed).0
          | inr (keys, t, listed, rest) ↦
              let same =
                (serving-poller
                  (list_all_keys_after client reader fuel (volume_prefix site (inc_u64 b))
                    c.poller.last_seen_key)
                  c t _ listed).0 in
              subst (λ p. PollStep p c'.poller r) same
                (take_keys-PollStep b keys.0 t c' r (subst (λ p. IsBaseline p b) (sym same) base)
                  low rest)
        ]

  -- A call that comes to its end takes a step.
  pub poll_once-PollStep :
      (c c' : Context W) (r : Result PollError (List ChunkEnvelope))
      → poll_once client reader site fuel c ≡ some (c', r)
      → PollStep c.poller c'.poller r
  unfolding poll_once
  poll_once-PollStep c c' r h =
      let last = c.poller.last_completed_volume in
      elim (>>=-Chained (baseline_of client reader site fuel last)
        (poll_from client reader site fuel) c c' r h) [
          | inl (e, based, failed) ↦ kept e failed (baseline_of_lem last c c' _ refl based).0
          | inr (b, t, based, rest) ↦
              let same = baseline_of_lem last c t _ refl based in
              subst (λ p. PollStep p c'.poller r) same.0
                (poll_from-PollStep b t c' r
                  (subst (λ p. IsBaseline p b) (sym same.0) (same.1 b refl)) rest)
        ]
