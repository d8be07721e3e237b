-- ===== src/Ingest/Rounds.antt =====
-- The calls of the poller of s3_poll.rs: poll_once with apply_recovery, and the rounds of run.
pub mod Machine
pub mod Steps
pub mod Position
pub mod Health
pub mod Silence
pub mod Recovery
pub mod Moves
use radar_workstation.Common.{
  ℕ, ◌-◌, Option, none, some, Result, ok, err, Bytes, List, [], ◌∷◌, ◌++◌, Bool, true, false, ◌||◌,
  ltb, leb, length, take,
}
use radar_workstation.Chunk.{ChunkKind, end_chunk, kind_eq}
use radar_workstation.Event.{Event, poll_failed}
use radar_workstation.Ingest.{PollError}
use radar_workstation.Ingest.Action.{Action, pure, out_of_fuel, request, ◌>>=◌, ◌>>◌}
use radar_workstation.Ingest.Listing.{XmlReader, cold_start_baseline}
use radar_workstation.Ingest.Pages.{Client, list_all_keys_after, list_volume_folders}
use radar_workstation.Ingest.Poller.{
  Poller, PollAction, continue_polling, re_anchor, advance_past_stuck_volume, next_target, inc_u64,
  site_prefix, volume_prefix, to_fetch, count_empty_poll, note_keys, finish_batch, act, poll_state,
  should_relist, note_success, note_failure,
}
use radar_workstation.Pipeline.{ChunkEnvelope}

-- The server's side, the poller, and the events reported so far.
pub record Context (W : Type 0) : Type 0 where
  pub server : W
  pub poller : Poller
  pub reports : List Event

-- The steps of the poller's calls: one on the listing's state, and one on the poller alone.
module _ {W : Type 0} where
  abbrev pub listing : {A : Type 0} → Action (W × List Event) A → Action (Context W) A
  listing m c = elim (m (c.server, c.reports)) [
    | none ↦ none
    | some r ↦ some (record c { server = r.0.0; reports = r.0.1 }, r.1)
  ]

  abbrev pub serving : {A : Type 0} → Action W A → Action (Context W) A
  serving m c = elim (m c.server) [ none ↦ none | some r ↦ some (record c { server = r.0 }, r.1) ]

  abbrev pub read : {A : Type 0} → (Poller → A) → Action (Context W) A
  read f c = some (c, ok (f c.poller))

  abbrev pub modify : (Poller → Poller × List Event) → Action (Context W) (Unit {0})
  modify f c =
      let moved = f c.poller in
      some (record c { poller = moved.0; reports = c.reports ++ moved.1 }, ok tt)

  -- A sum or a difference that does not fit ends the task: there is no result.
  abbrev pub checked : {A : Type 0} → Bool → Action (Context W) A → Action (Context W) A
  checked true m = m
  checked false m = out_of_fuel

-- Whether a poller's counters have room for what comes next. The sum of `next_target` that does not
-- fit is 0, and so is the target below which there is none.
abbrev pub action_fits : PollAction → Bool
action_fits continue_polling = true
action_fits (re_anchor new_target) = leb 1 new_target
action_fits (advance_past_stuck_volume new_target) = leb 1 new_target

abbrev pub baseline_fits : ℕ → Bool
baseline_fits baseline = ltb baseline 18446744073709551615

abbrev pub empty_polls_fit : Poller → Bool
empty_polls_fit p = ltb p.consecutive_empty_polls 4294967295

abbrev pub errors_fit : {W : Type 0} → Context W × Result PollError (List ChunkEnvelope) → Bool
errors_fit (c, ok envelopes) = true
errors_fit (c, err e) = ltb c.poller.consecutive_errors 4294967295

module _ {W : Type 0} (client : Client W) (reader : XmlReader) (site : Bytes) (fuel : ℕ) where
  unfoldable pub listing_if : Bool → Action (Context W) (Option (List ℕ))
  listing_if true = do
    folders ← listing (list_volume_folders client reader fuel (site_prefix site))
    pure (some folders)
  listing_if false = pure none

  unfoldable pub apply_recovery : ℕ → Action (Context W) (Unit {0})
  apply_recovery target = do
    s ← read (poll_state target)
    relist ← read should_relist
    folders ← listing_if relist
    checked (action_fits (next_target s folders))
        (modify (act (next_target s folders) relist target))

  unfoldable pub baseline_of : Option ℕ → Action (Context W) ℕ
  baseline_of (some v) = pure v
  baseline_of none = do
    folders ← listing (list_volume_folders client reader fuel (site_prefix site))
    pure (cold_start_baseline folders)

  -- The loop that fetches, one key after the other: the envelopes, and whether an end was seen.
  unfoldable pub fetch_all : List (Bytes × ChunkKind) → Action W (List ChunkEnvelope × Bool)
  fetch_all [] = pure ([], false)
  fetch_all ((key, kind) ∷ keys) = do
    raw_bytes ← request (client.get_object key)
    rest ← fetch_all keys
    pure (record { kind = kind; raw_bytes = raw_bytes } ∷ rest.0, kind_eq kind end_chunk || rest.1)

  -- An empty poll.
  abbrev pub take_no_key : ℕ → ℕ → Action (Context W) (List ChunkEnvelope)
  take_no_key baseline volume = do
    modify (λ p. (count_empty_poll baseline p, []))
    apply_recovery volume
    pure []

  -- What follows the listing of the keys.
  unfoldable pub take_keys : ℕ → ℕ → List Bytes → Action (Context W) (List ChunkEnvelope)
  take_keys baseline volume [] = do
    fits ← read empty_polls_fit
    checked fits (take_no_key baseline volume)
  take_keys baseline volume (key ∷ keys) = do
    modify (λ p. (note_keys p, (to_fetch (key ∷ keys)).1))
    fetched ← serving (fetch_all (to_fetch (key ∷ keys)).0)
    modify (λ p. (finish_batch baseline volume (key ∷ keys) fetched.1 p, []))
    pure fetched.0

  -- What follows once the volume is known, which is behind the baseline.
  abbrev pub poll_behind : ℕ → Action (Context W) (List ChunkEnvelope)
  poll_behind baseline = do
    start_after ← read (λ p. p.last_seen_key)
    keys ←
        serving (
          list_all_keys_after client reader fuel (volume_prefix site (inc_u64 baseline))
            start_after)
    take_keys baseline (inc_u64 baseline) keys.0

  unfoldable pub poll_from : ℕ → Action (Context W) (List ChunkEnvelope)
  poll_from baseline = checked (baseline_fits baseline) (poll_behind baseline)

  unfoldable pub poll_once : Action (Context W) (List ChunkEnvelope)
  poll_once = do
    last ← read (λ p. p.last_completed_volume)
    baseline ← baseline_of last
    poll_from baseline

-- The match on what a poll gave: the context, and the envelopes to send.
unfoldable pub publish :
    {W : Type 0}
    → ℕ
    → Context W × Result PollError (List ChunkEnvelope)
    → Context W × List ChunkEnvelope
publish now (c, ok envelopes) = (record c { poller = note_success now c.poller }, envelopes)
publish now (c, err e) =
    (record c { poller = note_failure e c.poller; reports = c.reports ++ poll_failed e ∷ [] }, [])

-- How many envelopes the receiver still takes until it is dropped, if it is.
abbrev pub sent : Option ℕ → List ChunkEnvelope → List ChunkEnvelope
sent none envelopes = envelopes
sent (some n) envelopes = take n envelopes

abbrev pub is_refused : Option ℕ → List ChunkEnvelope → Bool
is_refused none envelopes = false
is_refused (some n) envelopes = ltb n (length envelopes)

abbrev pub room_left : Option ℕ → List ChunkEnvelope → Option ℕ
room_left none envelopes = none
room_left (some n) envelopes = some (n - length envelopes)

module _ {W : Type 0} (client : Client W) (reader : XmlReader) (site : Bytes) (fuel : ℕ) where
  unfoldable pub poll_round : ℕ → Context W → Option (Context W × List ChunkEnvelope)
  poll_round now c = elim (poll_once client reader site fuel c) [
    | none ↦ none
    | some r ↦ elim (errors_fit r) [ true ↦ some (publish now r) | false ↦ none ]
  ]

  -- `run`: the instants of the ticks until the shutdown is published, and what was sent.
  unfoldable pub run_poller :
      Option ℕ → List ℕ → Context W → Option (Context W × List ChunkEnvelope)
  run_poller room [] c = some (c, [])
  run_poller room (now ∷ ticks) c = elim (poll_round now c) [
    | none ↦ none
    | some r ↦ elim (is_refused room r.1) [
      | true ↦ some (r.0, sent room r.1)
      | false ↦ elim (run_poller (room_left room r.1) ticks r.0) [
        | none ↦ none
        | some q ↦ some (q.0, r.1 ++ q.1)
      ]
    ]
  ]
