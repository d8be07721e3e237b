-- ===== src/Ingest/Rounds/Machine.antt =====
-- The poller's state machine: the steps that a call of poll_once can take.
use radar_workstation.Common.{
  ℕ, ◌≡◌, Option, none, some, Result, ok, err, List, [], ◌∷◌, Bool, true, false, map, any, Bytes,
}
use radar_workstation.Chunk.{ChunkKind, end_chunk, kind_eq}
use radar_workstation.Ingest.{PollError}
use radar_workstation.Ingest.Poller.{
  Poller, next_target, inc_u64, to_fetch, count_empty_poll, note_keys, finish_batch, act,
  poll_state, should_relist,
}
use radar_workstation.Ingest.Rounds.{baseline_fits, empty_polls_fit, action_fits}
use radar_workstation.Pipeline.{ChunkEnvelope}

-- The volume that a poll goes on from: the last completed one, or the cold start's.
abbrev pub IsBaseline : Poller → ℕ → Type 0
IsBaseline p b = (v : ℕ) → p.last_completed_volume ≡ some v → b ≡ v

abbrev pub kinds_of : List (Bytes × ChunkKind) → List ChunkKind
kinds_of keys = map (λ k. k.1) keys

abbrev pub is_end : ChunkKind → Bool
is_end kind = kind_eq kind end_chunk

-- The envelopes of a batch have the kinds of its recognised keys, in order.
abbrev pub Fetched : List (Bytes × ChunkKind) → List ChunkEnvelope × Bool → Type 0
Fetched keys (envelopes, saw_end) =
    (map (λ e. e.kind) envelopes ≡ kinds_of keys) × (saw_end ≡ any is_end (kinds_of keys))

abbrev pub is_some {ℓ} : {A : Type ℓ} → Option A → Bool
is_some none = false
is_some (some a) = true

-- What a poll makes of the poller `p`, with its result.
pub data PollStep (p q : Poller) (r : Result PollError (List ChunkEnvelope)) : Type 0 where
  -- A listing failed.
  kept : (e : PollError) → r ≡ err e → q ≡ p → PollStep p q r
  -- Keys were listed, and the fetch of one failed.
  batch_failed : (e : PollError) → r ≡ err e → q ≡ note_keys p → PollStep p q r
  -- Every key was fetched.
  batch :
      (b : ℕ) (key : Bytes) (keys : List Bytes) (fetched : List ChunkEnvelope × Bool)
      → IsBaseline p b
      → baseline_fits b ≡ true
      → Fetched (to_fetch (key ∷ keys)).0 fetched
      → r ≡ ok fetched.0
      → q ≡ finish_batch b (inc_u64 b) (key ∷ keys) fetched.1 (note_keys p)
      → PollStep p q r
  -- No key was listed, the folders were due, and their listing failed.
  relisting_failed :
      (b : ℕ) (e : PollError)
      → IsBaseline p b
      → baseline_fits b ≡ true
      → empty_polls_fit p ≡ true
      → r ≡ err e
      → q ≡ count_empty_poll b p
      → PollStep p q r
  -- No key was listed, and the poller acts on the folders, if these were due.
  empty :
      (b : ℕ) (folders : Option (List ℕ))
      → IsBaseline p b
      → baseline_fits b ≡ true
      → empty_polls_fit p ≡ true
      → action_fits (next_target (poll_state (inc_u64 b) (count_empty_poll b p)) folders) ≡ true
      → should_relist (count_empty_poll b p) ≡ is_some folders
      → r ≡ ok []
      → q
        ≡ (act
            (next_target (poll_state (inc_u64 b) (count_empty_poll b p)) folders)
            (is_some folders)
            (inc_u64 b)
            (count_empty_poll b p)).0
      → PollStep p q r
