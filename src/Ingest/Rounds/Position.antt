-- ===== src/Ingest/Rounds/Position.antt =====
-- Where the poller stands in the stream of volumes, over a poll.
use radar_workstation.Common.{
  ◌∷◌, ℕ, zero, suc, ◌+◌, ◌-◌, ◌≡◌, ◌<◌, ◌≤◌, ap, sym, ◌∙◌, refl, subst, Option, none, some, Result,
  err, List, Bool, true, false, arith, Bytes, ltb, ltb→lt, leb, not, ◌&&◌, if◌then◌else◌,
}
use radar_workstation.Ingest.{PollError, reanchor_empty_polls, stuck_mid_volume_empty_polls}
use radar_workstation.Ingest.Listing.{XmlReader, newest_or, max}
use radar_workstation.Ingest.Pages.{Client}
use radar_workstation.Ingest.Poller.{
  Poller, PollState, PollAction, continue_polling, re_anchor, advance_past_stuck_volume,
  next_target, anchor_after, inc_u64, dec_u64, count_empty_poll, note_keys, finish_batch, move_to,
  act, poll_state,
}
use radar_workstation.Ingest.Rounds.{Context, poll_once}
use radar_workstation.Ingest.Rounds.Machine.{
  PollStep, kept, batch_failed, batch, relisting_failed, empty, is_some,
}
use radar_workstation.Ingest.Rounds.Steps.{poll_once-PollStep}
use radar_workstation.Pipeline.{ChunkEnvelope}

-- What a failed poll leaves as it was: the position, once there is one, and the health.
abbrev pub KeepsPosition : Poller → Poller → Type 0
KeepsPosition p q =
    (q.last_seen_key ≡ p.last_seen_key)
    × ((v : ℕ) → p.last_completed_volume ≡ some v → q.last_completed_volume ≡ some v)
    × (q.consecutive_errors ≡ p.consecutive_errors)
    × (q.status ≡ p.status)

PollStep-KeepsPosition : (p q : Poller) (e : PollError) → PollStep p q (err e) → KeepsPosition p q
unfolding count_empty_poll note_keys
PollStep-KeepsPosition p q e (kept e' failed same) = ground arith
PollStep-KeepsPosition p q e (batch_failed e' failed same) = ground arith
PollStep-KeepsPosition p q e (batch b key keys fetched base low got failed same) = cc
PollStep-KeepsPosition p q e (relisting_failed b e' base low room failed same) = (
  ap (λ r. r.last_seen_key) same,
  λ v known. ap (λ r. r.last_completed_volume) same ∙ ap some (base v known),
  ap (λ r. r.consecutive_errors) same,
  ap (λ r. r.status) same,
)
PollStep-KeepsPosition p q e (empty b folders base low room acts due failed same) = cc

-- The action never goes back: a re-anchoring is past the target, an advance one past it.
abbrev pub MovesOn : ℕ → PollAction → Type 0
MovesOn target continue_polling = Unit {0}
MovesOn target (re_anchor new_target) = target < new_target
MovesOn target (advance_past_stuck_volume new_target) = new_target ≡ inc_u64 target

MovesOn-if :
    (target : ℕ) (a b : PollAction) (test : Bool)
    → MovesOn target a
    → MovesOn target b
    → MovesOn target (if test then a else b)
MovesOn-if target a b true first second = first
MovesOn-if target a b false first second = second

re_anchor-MovesOn :
    (target candidate : ℕ) (test : Bool)
    → ltb target candidate ≡ test
    → MovesOn target (if test then re_anchor candidate else continue_polling)
re_anchor-MovesOn target candidate true past = ltb→lt target candidate past
re_anchor-MovesOn target candidate false past = tt

anchor_after-MovesOn :
    (target : ℕ) (folders : Option (List ℕ)) → MovesOn target (anchor_after target folders)
unfolding anchor_after
anchor_after-MovesOn target none = tt
anchor_after-MovesOn target (some folders) =
    let candidate = max (newest_or target folders - 1) target in
    re_anchor-MovesOn target candidate (ltb target candidate) refl

pub next_target-MovesOn :
    (s : PollState) (folders : Option (List ℕ)) → MovesOn s.current_target (next_target s folders)
unfolding next_target
next_target-MovesOn s folders =
    let target = s.current_target in
    let advance = advance_past_stuck_volume (inc_u64 target) in
    let stuck =
      s.seen_any_key_in_current_volume
      && leb stuck_mid_volume_empty_polls s.consecutive_empty_polls in
    MovesOn-if target (anchor_after target folders) (if stuck then advance else continue_polling)
      (not s.seen_any_key_in_current_volume && leb reanchor_empty_polls s.consecutive_empty_polls)
      (anchor_after-MovesOn target folders)
      (MovesOn-if target advance continue_polling stuck refl tt)

-- A volume is completed that is not before `v`.
abbrev pub CompletedFrom : ℕ → Poller → Type 0
CompletedFrom v p = (w : ℕ) × (p.last_completed_volume ≡ some w) × (v ≤ w)

act-CompletedFrom :
    (a : PollAction) (due : Bool) (v : ℕ) (p : Poller)
    → p.last_completed_volume ≡ some v
    → v + 2 < 18446744073709551616
    → MovesOn (inc_u64 v) a
    → CompletedFrom v (act a due (inc_u64 v) p).0
unfolding act move_to
act-CompletedFrom continue_polling true v p known fits moves = (v, known, omega arith)
act-CompletedFrom continue_polling false v p known fits moves = (v, known, omega arith)
act-CompletedFrom (re_anchor zero) due v p known fits moves = absurd (omega arith)
act-CompletedFrom (re_anchor (suc n)) due v p known fits moves = (n, refl, omega arith)
act-CompletedFrom (advance_past_stuck_volume n) due v p known fits moves =
    let next : n ≡ suc (suc v) = omega arith in
    (suc v, ap (λ k. some (dec_u64 k)) next, omega arith)

finish_batch-CompletedFrom :
    (v : ℕ) (keys : List Bytes) (saw_end : Bool) (p : Poller)
    → v + 2 < 18446744073709551616
    → CompletedFrom v (finish_batch v (inc_u64 v) keys saw_end p)
unfolding finish_batch
finish_batch-CompletedFrom v keys true p fits = (inc_u64 v, refl, omega arith)
finish_batch-CompletedFrom v keys false p fits = (v, refl, omega arith)

PollStep-CompletedFrom :
    (v : ℕ) (p q : Poller) (r : Result PollError (List ChunkEnvelope))
    → p.last_completed_volume ≡ some v
    → v + 2 < 18446744073709551616
    → PollStep p q r
    → CompletedFrom v q
unfolding note_keys count_empty_poll
PollStep-CompletedFrom v p q r known fits (kept e failed same) =
    (v, ap (λ x. x.last_completed_volume) same ∙ known, omega arith)
PollStep-CompletedFrom v p q r known fits (batch_failed e failed same) =
    (v, ap (λ x. x.last_completed_volume) same ∙ known, omega arith)
PollStep-CompletedFrom v p q r known fits (batch b key keys fetched base low got done same) =
    subst (CompletedFrom v)
      (ap (λ k. finish_batch k (inc_u64 k) (key ∷ keys) fetched.1 (note_keys p))
          (sym (base v known))
        ∙ sym same)
      (finish_batch-CompletedFrom v (key ∷ keys) fetched.1 (note_keys p) fits)
PollStep-CompletedFrom v p q r known fits (relisting_failed b e base low room failed same) =
    (v, ap (λ x. x.last_completed_volume) same ∙ ap some (base v known), omega arith)
PollStep-CompletedFrom v p q r known fits (empty b folders base low room acts due done same) =
    let counted = count_empty_poll v p in
    let action = next_target (poll_state (inc_u64 v) counted) folders in
    subst (CompletedFrom v)
      (ap
          (λ k.
            (act (next_target (poll_state (inc_u64 k) (count_empty_poll k p)) folders)
              (is_some folders) (inc_u64 k) (count_empty_poll k p)).0)
          (sym (base v known))
        ∙ sym same)
      (act-CompletedFrom action (is_some folders) v counted refl fits
        (next_target-MovesOn (poll_state (inc_u64 v) counted) folders))

module _ {W : Type 0} (client : Client W) (reader : XmlReader) (site : Bytes) (fuel : ℕ) where
  -- A poll that fails, in a listing or in a fetch, leaves the key to go on after, the count of
  -- errors and the published health as they were, and the last completed volume too, once there is
  -- one: the next poll asks for the same batch again.
  pub poll_once-KeepsPosition :
      (c c' : Context W) (e : PollError)
      → poll_once client reader site fuel c ≡ some (c', err e)
      → KeepsPosition c.poller c'.poller
  poll_once-KeepsPosition c c' e h =
      PollStep-KeepsPosition c.poller c'.poller e
        (poll_once-PollStep client reader site fuel c c' (err e) h)

  -- No poll goes back in the stream of volumes: whatever the servers answer, and also when the poll
  -- fails, re-anchors or gives up a volume, the last completed volume after it is not before the
  -- one before it, as long as that is two below the largest `u64`.
  pub poll_once-CompletedFrom :
      (v : ℕ) (c c' : Context W) (r : Result PollError (List ChunkEnvelope))
      → c.poller.last_completed_volume ≡ some v
      → v + 2 < 18446744073709551616
      → poll_once client reader site fuel c ≡ some (c', r)
      → CompletedFrom v c'.poller
  poll_once-CompletedFrom v c c' r known fits h =
      PollStep-CompletedFrom v c.poller c'.poller r known fits
        (poll_once-PollStep client reader site fuel c c' r h)
