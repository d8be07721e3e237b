-- ===== src/Ingest/Poller.antt =====
-- The state of the poller of s3_poll.rs: S3Poller with new, the decision next_target, and what each
-- part of poll_once, apply_recovery and run assigns. The calls are in Ingest/Rounds.
pub mod Thresholds
use radar_workstation.Common.{
  ℕ, zero, suc, ◌+◌, ◌-◌, ◌*◌, ◌/◌, ◌%◌, Option, none, some, Result, ok, err, Bytes, List, [], ◌∷◌,
  ◌++◌, Bool, true, false, ◌&&◌, ◌||◌, not, ltb, leb, if◌then◌else◌, length, take,
}
use radar_workstation.Common.Text.{codes}
use radar_workstation.Chunk.{ChunkKind, end_chunk, kind_eq}
use radar_workstation.Event.{
  Event, poll_failed, unrecognized_key_suffix, re_anchored, advanced_past_stalled_volume,
}
use radar_workstation.Ingest.{
  PollError, IngestState, polling, retrying, stalled, re_anchoring, IngestStatus, default_status,
  kind_of_error, reanchor_empty_polls, stuck_mid_volume_empty_polls,
  stalled_after_consecutive_errors,
}
use radar_workstation.Ingest.Action.{Action, pure, request, ◌>>=◌, ◌>>◌}
use radar_workstation.Ingest.Listing.{
  XmlReader, chunk_kind_from_key, newest_or, cold_start_baseline, max,
}
use radar_workstation.Ingest.Pages.{Client, list_all_keys_after, list_volume_folders}
use radar_workstation.Pipeline.{ChunkEnvelope}

-- The sums and the difference of counters; Ingest/Rounds tests that they fit.
abbrev pub inc_u32 : ℕ → ℕ
inc_u32 n = (n + 1) % 4294967296

abbrev pub inc_u64 : ℕ → ℕ
inc_u64 n = (n + 1) % 18446744073709551616

abbrev pub dec_u64 : ℕ → ℕ
dec_u64 zero = 18446744073709551615
dec_u64 (suc n) = n

-- `S3Poller`: `status` is what the watch channel holds. The site and the client do not change, and
-- are arguments of the calls.
pub record Poller : Type 0 where
  pub last_completed_volume : Option ℕ
  pub last_seen_key : Option Bytes
  pub consecutive_empty_polls : ℕ
  pub seen_any_key_in_current_volume : Bool
  pub consecutive_errors : ℕ
  pub status : IngestStatus

-- `S3Poller::new`, on a channel that holds a status.
unfoldable pub new_poller : IngestStatus → Poller
new_poller status = record {
  last_completed_volume = none;
  last_seen_key = none;
  consecutive_empty_polls = 0;
  seen_any_key_in_current_volume = false;
  consecutive_errors = 0;
  status = status;
}

pub record PollState : Type 0 where
  pub current_target : ℕ
  pub consecutive_empty_polls : ℕ
  pub seen_any_key_in_current_volume : Bool

pub data PollAction : Type 0 where
  continue_polling : PollAction
  re_anchor : ℕ → PollAction
  advance_past_stuck_volume : ℕ → PollAction

-- The first `if` of `next_target`, with the folders that were listed, if any.
unfoldable pub anchor_after : ℕ → Option (List ℕ) → PollAction
anchor_after target none = continue_polling
anchor_after target (some folders) =
    let candidate = max (newest_or target folders - 1) target in
    if ltb target candidate then re_anchor candidate else continue_polling

unfoldable pub next_target : PollState → Option (List ℕ) → PollAction
next_target s listing =
    if not s.seen_any_key_in_current_volume && leb reanchor_empty_polls s.consecutive_empty_polls
    then anchor_after s.current_target listing
    else if s.seen_any_key_in_current_volume
        && leb stuck_mid_volume_empty_polls s.consecutive_empty_polls
    then advance_past_stuck_volume (inc_u64 s.current_target)
    else continue_polling

-- `format!` of a `u64`: its decimal digits, at most twenty.
unfoldable pub digits_before : ℕ → ℕ → Bytes → Bytes
digits_before zero n digits = digits
digits_before (suc fuel) n digits =
    let more = (48 + n % 10) ∷ digits in if ltb n 10 then more else digits_before fuel (n / 10) more

abbrev pub decimal : ℕ → Bytes
decimal n = digits_before 20 n []

abbrev pub site_prefix : Bytes → Bytes
site_prefix site = site ++ codes "/"

abbrev pub volume_prefix : Bytes → ℕ → Bytes
volume_prefix site volume = site_prefix site ++ decimal volume ++ codes "/"

-- The keys to fetch, with their kinds, and a report of each key that has none.
unfoldable pub to_fetch : List Bytes → List (Bytes × ChunkKind) × List Event
to_fetch [] = ([], [])
to_fetch (key ∷ keys) =
    let rest = to_fetch keys in
    elim (chunk_kind_from_key key) [
      | some kind ↦ ((key, kind) ∷ rest.0, rest.1)
      | none ↦ (rest.0, unrecognized_key_suffix key ∷ rest.1)
    ]

-- `into_iter().next_back()`
unfoldable pub last_key : List Bytes → Option Bytes
last_key [] = none
last_key (k ∷ []) = some k
last_key (k ∷ l ∷ ls) = last_key (l ∷ ls)

-- The two assignments on an empty poll, before the recovery.
unfoldable pub count_empty_poll : ℕ → Poller → Poller
count_empty_poll baseline p = record p {
  last_completed_volume = some baseline;
  consecutive_empty_polls = inc_u32 p.consecutive_empty_polls;
}

unfoldable pub note_keys : Poller → Poller
note_keys p = record p { consecutive_empty_polls = 0; seen_any_key_in_current_volume = true }

-- The assignments once the whole batch is fetched.
unfoldable pub finish_batch : ℕ → ℕ → List Bytes → Bool → Poller → Poller
finish_batch baseline volume keys true p = record p {
  last_completed_volume = some volume;
  last_seen_key = none;
  seen_any_key_in_current_volume = false;
}
finish_batch baseline volume keys false p = record p {
  last_completed_volume = some baseline;
  last_seen_key = last_key keys;
}

-- The move to another target, with what is published.
unfoldable pub move_to : ℕ → Poller → Poller
move_to new_target p = record p {
  last_completed_volume = some (dec_u64 new_target);
  last_seen_key = none;
  consecutive_empty_polls = 0;
  seen_any_key_in_current_volume = false;
  status = record p.status { state = re_anchoring; current_volume = some (dec_u64 new_target) };
}

-- The match on the action: the poller, and what is reported.
unfoldable pub act : PollAction → Bool → ℕ → Poller → Poller × List Event
act continue_polling should_relist target p =
    (if should_relist then record p { consecutive_empty_polls = 0 } else p, [])
act (re_anchor new_target) should_relist target p =
    (move_to new_target p, re_anchored target new_target p.consecutive_empty_polls ∷ [])
act (advance_past_stuck_volume new_target) should_relist target p = (
  move_to new_target p,
  advanced_past_stalled_volume target new_target p.consecutive_empty_polls ∷ [],
)

abbrev pub poll_state : ℕ → Poller → PollState
poll_state target p = record {
  current_target = target;
  consecutive_empty_polls = p.consecutive_empty_polls;
  seen_any_key_in_current_volume = p.seen_any_key_in_current_volume;
}

abbrev pub should_relist : Poller → Bool
should_relist p =
    not p.seen_any_key_in_current_volume && leb reanchor_empty_polls p.consecutive_empty_polls

-- The arm of `Ok`: the instant is that of `Instant::now()`.
unfoldable pub note_success : ℕ → Poller → Poller
note_success now p = record p {
  consecutive_errors = 0;
  status = record p.status {
    state = polling;
    last_success = some now;
    current_volume = p.last_completed_volume;
  };
}

unfoldable pub state_after_errors : ℕ → IngestState
state_after_errors n = if leb stalled_after_consecutive_errors n then stalled else retrying n

-- The arm of `Err`.
unfoldable pub note_failure : PollError → Poller → Poller
note_failure e p = record p {
  consecutive_errors = inc_u32 p.consecutive_errors;
  status = record p.status {
    state = state_after_errors (inc_u32 p.consecutive_errors);
    last_error = some (kind_of_error e);
  };
}
