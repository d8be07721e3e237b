-- ===== src/Ingest/Rounds/Health.antt =====
-- The health that the poller publishes, over its rounds.
use radar_workstation.Common.{
  ℕ, zero, suc, ◌+◌, ◌≡◌, ◌<◌, ◌≤◌, ap, sym, ◌∙◌, refl, subst, Option, some, Result, ok, err, List,
  [], ◌∷◌, Bool, true, false, Bool-cases, Option-cases, arith, ltb, inl, inr, Bytes, length,
  if◌then◌else◌, ◌==◌,
}
use radar_workstation.Common.Maybe.{some_eq}
use radar_workstation.Ingest.{PollError, IngestState, polling, retrying, stalled}
use radar_workstation.Ingest.Listing.{XmlReader}
use radar_workstation.Ingest.Pages.{Client}
use radar_workstation.Ingest.Poller.{
  Poller, inc_u64, inc_u32, count_empty_poll, note_keys, finish_batch, move_to, act, note_success,
  note_failure, state_after_errors, PollAction, continue_polling, re_anchor,
  advance_past_stuck_volume, next_target, poll_state,
}
use radar_workstation.Ingest.Rounds.{
  Context, errors_fit, poll_once, publish, poll_round, run_poller, is_refused, room_left,
}
use radar_workstation.Ingest.Rounds.Machine.{
  PollStep, kept, batch_failed, batch, relisting_failed, empty, is_some,
}
use radar_workstation.Ingest.Rounds.Steps.{poll_once-PollStep}
use radar_workstation.Pipeline.{ChunkEnvelope}

act-errors :
    (a : PollAction) (due : Bool) (target : ℕ) (p : Poller)
    → (act a due target p).0.consecutive_errors ≡ p.consecutive_errors
unfolding act move_to
act-errors continue_polling true target p = refl
act-errors continue_polling false target p = refl
act-errors (re_anchor n) due target p = refl
act-errors (advance_past_stuck_volume n) due target p = refl

finish_batch-errors :
    (b volume : ℕ) (keys : List Bytes) (saw_end : Bool) (p : Poller)
    → (finish_batch b volume keys saw_end p).consecutive_errors ≡ p.consecutive_errors
unfolding finish_batch
finish_batch-errors b volume keys true p = refl
finish_batch-errors b volume keys false p = refl

PollStep-errors :
    (p q : Poller) (r : Result PollError (List ChunkEnvelope))
    → PollStep p q r
    → q.consecutive_errors ≡ p.consecutive_errors
unfolding note_keys count_empty_poll
PollStep-errors p q r (kept e failed same) = ap (λ x. x.consecutive_errors) same
PollStep-errors p q r (batch_failed e failed same) = ap (λ x. x.consecutive_errors) same
PollStep-errors p q r (batch b key keys fetched base low got done same) =
    ap (λ x. x.consecutive_errors) same
    ∙ finish_batch-errors b (inc_u64 b) (key ∷ keys) fetched.1 (note_keys p)
PollStep-errors p q r (relisting_failed b e base low room failed same) =
    ap (λ x. x.consecutive_errors) same
PollStep-errors p q r (empty b folders base low room acts due done same) =
    ap (λ x. x.consecutive_errors) same
    ∙ act-errors (next_target (poll_state (inc_u64 b) (count_empty_poll b p)) folders)
        (is_some folders) (inc_u64 b) (count_empty_poll b p)

-- The health that the count of errors in a row stands for.
abbrev pub state_of_errors : ℕ → IngestState
state_of_errors n = if n == 0 then polling else if ltb n 5 then retrying n else stalled

abbrev pub IsHealthy : Poller → Type 0
IsHealthy p = p.status.state ≡ state_of_errors p.consecutive_errors

state_of_errors-polling : (n : ℕ) → 0 < n → state_of_errors n ≡ state_after_errors n
unfolding state_after_errors
state_of_errors-polling zero h = absurd (omega arith)
state_of_errors-polling (suc n) h = ground arith

module _ {W : Type 0} (client : Client W) (reader : XmlReader) (site : Bytes) (fuel : ℕ) where
  -- After a round, the errors in a row are none or one more, and the state is theirs.
  publish-IsHealthy :
      (now : ℕ) (p : Poller) (c : Context W) (r : Result PollError (List ChunkEnvelope))
      → c.poller.consecutive_errors ≡ p.consecutive_errors
      → p.consecutive_errors + 1 < 4294967296
      → IsHealthy (publish now (c, r)).0.poller
        × ((publish now (c, r)).0.poller.consecutive_errors ≤ p.consecutive_errors + 1)
  unfolding publish note_success note_failure
  publish-IsHealthy now p c (ok envelopes) same fits = (refl, omega arith)
  publish-IsHealthy now p c (err e) same fits = (
    sym (state_of_errors-polling (inc_u32 c.poller.consecutive_errors) (omega arith)),
    omega arith,
  )

  poll_round-IsHealthy :
      (now : ℕ) (c c' : Context W) (envelopes : List ChunkEnvelope)
      → c.poller.consecutive_errors + 1 < 4294967296
      → poll_round client reader site fuel now c ≡ some (c', envelopes)
      → IsHealthy c'.poller × (c'.poller.consecutive_errors ≤ c.poller.consecutive_errors + 1)
  unfolding poll_round
  poll_round-IsHealthy now c c' envelopes fits h =
      elim (Option-cases (poll_once client reader site fuel c)) [
        | inl e ↦ cc
        | inr ((t, r), e) ↦
            let published : publish now (t, r) ≡ (c', envelopes) =
              elim (Bool-cases (errors_fit (t, r))) [
                | inl fits ↦ ground arith
                | inr over ↦ absurd (ground arith)
              ] in
            subst
              (λ s.
                IsHealthy s.0.poller
                × (s.0.poller.consecutive_errors ≤ c.poller.consecutive_errors + 1))
              published
              (publish-IsHealthy now c.poller t r
                (PollStep-errors c.poller t.poller r
                  (poll_once-PollStep client reader site fuel c t r e))
                fits)
      ]

  -- A count of the rounds that are left, and a property of the poller that a round keeps with it.
  run_poller-keeps :
      (P : ℕ → Poller → Type 0)
      → ((n now : ℕ) (c t : Context W) (envelopes : List ChunkEnvelope)
          → P (suc n) c.poller
          → poll_round client reader site fuel now c ≡ some (t, envelopes)
          → P n t.poller)
      → (room : Option ℕ) (ticks : List ℕ) (c c' : Context W) (envelopes : List ChunkEnvelope)
      → P (length ticks) c.poller
      → run_poller client reader site fuel room ticks c ≡ some (c', envelopes)
      → (n : ℕ) × P n c'.poller
  unfolding run_poller
  run_poller-keeps P step room [] c c' envelopes holds h =
      (0, subst (λ s. P 0 s.0.poller) (some_eq h) holds)
  run_poller-keeps P step room (now ∷ ticks) c c' envelopes holds h =
      elim (Option-cases (poll_round client reader site fuel now c)) [
        | inl e ↦ cc
        | inr ((t, es), e) ↦
            let after = step (length ticks) now c t es holds e in
            elim (Bool-cases (is_refused room es)) [
              | inl refused ↦
                  let stop : c' ≡ t = ground arith in
                  (length ticks, subst (λ s. P (length ticks) s.poller) (sym stop) after)
              | inr taken ↦
                  elim (Option-cases
                    (run_poller client reader site fuel (room_left room es) ticks t)) [
                      | inl none_left ↦ absurd (ground arith)
                      | inr ((u, more), rest) ↦
                          let last : c' ≡ u = ground arith in
                          subst (λ s. (n : ℕ) × P n s.poller) (sym last)
                            (run_poller-keeps P step (room_left room es) ticks t u more after rest)
                    ]
            ]
      ]

  -- The health that is published after any rounds is that of the errors in a row: polling after
  -- none, retrying with their number after less than five, and stalled from then on, if it was so
  -- before. In particular it is never re-anchoring. The count stays below 2 ^ 32.
  pub run_poller-IsHealthy :
      (room : Option ℕ) (ticks : List ℕ) (c c' : Context W) (envelopes : List ChunkEnvelope)
      → c.poller.consecutive_errors + length ticks < 4294967296
      → IsHealthy c.poller
      → run_poller client reader site fuel room ticks c ≡ some (c', envelopes)
      → IsHealthy c'.poller
  run_poller-IsHealthy room ticks c c' envelopes fits healthy h =
      (run_poller-keeps (λ n p. (p.consecutive_errors + n < 4294967296) × IsHealthy p)
        (λ n now s t es holds round.
          let after = poll_round-IsHealthy now s t es (omega (arith, holds.0)) round in
          (omega (arith, holds.0, after.1), after.0))
        room ticks c c' envelopes (fits, healthy) h).1.1
