-- ===== src/Ingest/Rounds/Moves.antt =====
-- What a call of poll_once makes of the poller, field by field.
pub mod Folders
pub mod Cases
pub mod Calls
use radar_workstation.Common.{
  ℕ, ◌+◌, ◌-◌, ◌≡◌, ◌≤◌, ◌<◌, ◌⊎◌, inl, inr, refl, ap, ap₂, sym, ◌∙◌, subst, Option, none, some,
  Result, ok, err, List, [], ◌∷◌, ◌++◌, Bool, true, false, ◌&&◌, ◌||◌, ◌==◌, all, any, Bytes,
  Bool-cases, arith, leb, ltb, ltb→lt, leb→le, le→leb, if◌then◌else◌, ==_iff,
}
use radar_workstation.Ingest.{PollError, re_anchoring}
use radar_workstation.Ingest.Listing.{XmlReader, newest_or}
use radar_workstation.Ingest.Pages.{Client}
use radar_workstation.Ingest.Poller.{
  Poller, PollAction, continue_polling, re_anchor, advance_past_stuck_volume, next_target,
  anchor_after, inc_u32, inc_u64, to_fetch, last_key, count_empty_poll, note_keys, finish_batch,
  move_to, act, poll_state, should_relist,
}
use radar_workstation.Ingest.Poller.Thresholds.{dec_u64-pred}
use radar_workstation.Ingest.Rounds.{
  Context, poll_once, baseline_fits, empty_polls_fit, action_fits,
}
use radar_workstation.Ingest.Rounds.Machine.{
  IsBaseline, Fetched, is_some, PollStep, kept, batch_failed, batch, relisting_failed, empty,
}
use radar_workstation.Ingest.Rounds.Steps.{poll_once-PollStep}
use radar_workstation.Pipeline.{ChunkEnvelope}

-- The poller that goes on from another volume.
abbrev pub moved : ℕ → Poller → Poller
moved volume p = record p {
  last_completed_volume = some volume;
  last_seen_key = none;
  consecutive_empty_polls = 0;
  seen_any_key_in_current_volume = false;
  status = record p.status { state = re_anchoring; current_volume = some volume };
}

-- The poller that has counted an empty poll of the volume after `b`.
abbrev pub counted : ℕ → Poller → Poller
counted b p = record p {
  last_completed_volume = some b;
  consecutive_empty_polls = p.consecutive_empty_polls + 1;
}

-- No folder is after this volume.
abbrev pub NoneAfter : ℕ → List ℕ → Type 0
NoneAfter volume folders = all (λ f. leb f volume) folders ≡ true

-- The greatest folder.
abbrev pub IsNewest : ℕ → List ℕ → Type 0
IsNewest newest folders = NoneAfter newest folders × (any (λ f. f == newest) folders ≡ true)

-- What a call makes of the poller `p`, with its result.
pub data Move (p q : Poller) (r : Result PollError (List ChunkEnvelope)) : Type 0 where
  -- A listing failed before any key was listed.
  listing_failed : (e : PollError) → r ≡ err e → q ≡ p → Move p q r
  -- Keys were listed, and the fetch of one failed.
  fetch_failed :
      (e : PollError)
      → r ≡ err e
      → q ≡ record p { consecutive_empty_polls = 0; seen_any_key_in_current_volume = true }
      → Move p q r
  -- A batch without an end chunk: the poller stays at the volume, behind the last key.
  went_on :
      (b : ℕ) (keys : List Bytes) (key : Bytes) (envelopes : List ChunkEnvelope)
      → IsBaseline p b
      → Fetched (to_fetch (keys ++ key ∷ [])).0 (envelopes, false)
      → r ≡ ok envelopes
      → q ≡ record p {
        last_completed_volume = some b;
        last_seen_key = some key;
        consecutive_empty_polls = 0;
        seen_any_key_in_current_volume = true;
      }
      → Move p q r
  -- A batch with an end chunk: the volume after `b` is complete.
  ended :
      (b : ℕ) (keys : List Bytes) (envelopes : List ChunkEnvelope)
      → IsBaseline p b
      → Fetched (to_fetch keys).0 (envelopes, true)
      → r ≡ ok envelopes
      → q ≡ record p {
        last_completed_volume = some (b + 1);
        last_seen_key = none;
        consecutive_empty_polls = 0;
        seen_any_key_in_current_volume = false;
      }
      → Move p q r
  -- An empty poll was counted, and the listing of the folders failed.
  relisting_stopped :
      (b : ℕ) (e : PollError) → IsBaseline p b → r ≡ err e → q ≡ counted b p → Move p q r
  -- An empty poll below the limit, which is 12, or 60 once a key of the volume was seen.
  waited :
      (b : ℕ)
      → IsBaseline p b
      → p.consecutive_empty_polls + 1 < (if p.seen_any_key_in_current_volume then 60 else 12)
      → r ≡ ok []
      → q ≡ counted b p
      → Move p q r
  -- At the limit without a key, no folder is far enough ahead: the count starts again.
  found_nothing :
      (b : ℕ) (folders : List ℕ)
      → IsBaseline p b
      → p.seen_any_key_in_current_volume ≡ false
      → 12 ≤ p.consecutive_empty_polls + 1
      → NoneAfter (b + 2) folders
      → r ≡ ok []
      → q ≡ record p { last_completed_volume = some b; consecutive_empty_polls = 0 }
      → Move p q r
  -- At the limit without a key, the poller goes on from two before the newest folder.
  re_anchored :
      (b newest : ℕ) (folders : List ℕ)
      → IsBaseline p b
      → p.seen_any_key_in_current_volume ≡ false
      → 12 ≤ p.consecutive_empty_polls + 1
      → IsNewest newest folders
      → b + 2 < newest
      → r ≡ ok []
      → q ≡ moved (newest - 2) p
      → Move p q r
  -- At the limit with a key, the volume after `b` is given up.
  gave_up :
      (b : ℕ)
      → IsBaseline p b
      → p.seen_any_key_in_current_volume ≡ true
      → 60 ≤ p.consecutive_empty_polls + 1
      → r ≡ ok []
      → q ≡ moved (b + 1) p
      → Move p q r
