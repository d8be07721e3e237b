-- ===== src/Http/Client/Retry.antt =====
-- The connection that is kept over a call, and the one retry.
use radar_workstation.Common.{
  ℕ, ◌≡◌, ◌⊎◌, refl, ap, sym, ◌∙◌, subst, Option, none, some, Result, err, Bytes, true,
  Option-cases, Result-cases, Bool-cases, inl, inr, arith, if◌then◌else◌,
}
use radar_workstation.Common.Maybe.{some_eq}
use radar_workstation.Http.{Limits, HttpError}
use radar_workstation.Http.Connection.{
  Connection, Attempt, success, closed_empty, failed, crashed, round_trip,
}
use radar_workstation.Http.Connection.Tame.{NoByte, NotWritten}
use radar_workstation.Http.Connection.Unanswered.{round_trip-Unanswered}
use radar_workstation.Http.Client.{
  S3Client, Sent, answered, keep, attempt, attempt_once, attempt_fresh, after_reused, send_on, send,
}

-- The connection that is kept, if any, may be used again.
abbrev pub IsKept : Option Connection → Type 0
IsKept none = Unit {0}
IsKept (some c) = c.reusable ≡ true

keep-IsKept : (c : Connection) → IsKept (keep c)
keep-IsKept c = elim (Bool-cases c.reusable) [
  | inl again ↦ subst IsKept (sym (ap (λ b. if b then some c else none) again)) again
  | inr over ↦ subst IsKept (sym (ap (λ b. if b then some c else none) over)) tt
]

-- The network is asked for a connection in the place of a kept one only when that could not be
-- written, or when its first read brought no byte: it was at its end, or failed.
abbrev pub Redials : {W : Type 0} → Option Connection → S3Client W → S3Client W → Type 0
Redials none s s' = Unit {0}
Redials (some c) s s' = (s'.network ≡ s.network) ⊎ (NotWritten c.accepts ⊎ NoByte c.incoming)

module _ {W : Type 0} (connect : W → W × Result HttpError Connection)
    (format_request : Bytes → Bytes) (fuel : ℕ) (limits : Limits) where
  attempt-IsKept :
      (request : Bytes) (c : Connection) (s s' : S3Client W) (a : Attempt)
      → attempt connect format_request fuel limits request c s ≡ some (s', a)
      → IsKept s'.conn × (s'.network ≡ s.network)
  unfolding attempt
  attempt-IsKept request c s s' a h = elim (Option-cases (round_trip fuel limits request c)) [
    | inl out ↦ absurd (ground arith)
    | inr ((d, b), back) ↦
        let made : attempt connect format_request fuel limits request c s
            ≡ some (record s { conn = keep d }, b) =
          ground arith in
        let same = ap (λ q. q.0) (some_eq (sym made ∙ h)) in
        subst (λ t. IsKept t.conn × (t.network ≡ s.network)) same (keep-IsKept d, refl)
  ]

  attempt_once-IsKept :
      (request : Bytes) (c : Connection) (s s' : S3Client W) (r : Sent)
      → attempt_once connect format_request fuel limits request c s ≡ some (s', r)
      → IsKept s'.conn
  unfolding attempt_once
  attempt_once-IsKept request c s s' r h =
      elim (Option-cases (attempt connect format_request fuel limits request c s)) [
        | inl out ↦ absurd (ground arith)
        | inr ((t, a), made) ↦
            let same : t ≡ s' = ground arith in
            subst (λ q. IsKept q.conn) same (attempt-IsKept request c s t a made).0
      ]

  attempt_fresh-IsKept :
      (request : Bytes) (s s' : S3Client W) (r : Sent)
      → IsKept s.conn
      → attempt_fresh connect format_request fuel limits request s ≡ some (s', r)
      → IsKept s'.conn
  unfolding attempt_fresh
  attempt_fresh-IsKept request s s' r is h = elim (Result-cases (connect s.network).1) [
    | inl (c, dialled) ↦
        attempt_once-IsKept request c (record s { conn = some c; network = (connect s.network).0 })
          s' r (ground arith)
    | inr (e, refused) ↦
        let kept : S3Client W = record s { network = (connect s.network).0 } in
        let made : attempt_fresh connect format_request fuel limits request s
            ≡ some (kept, answered (err e)) =
          ground arith in
        subst (λ q. IsKept q.0.conn) (some_eq (sym made ∙ h)) is
  ]

  after_reused-IsKept :
      (request : Bytes) (s s' : S3Client W) (a : Attempt) (r : Sent)
      → IsKept s.conn
      → after_reused connect format_request fuel limits request (s, a) ≡ some (s', r)
      → IsKept s'.conn
  unfolding after_reused
  after_reused-IsKept request s s' closed_empty r is h = attempt_fresh-IsKept request s s' r is h
  after_reused-IsKept request s s' (success bytes) r is h =
      subst (λ q. IsKept q.0.conn) (some_eq h) is
  after_reused-IsKept request s s' (failed e) r is h = subst (λ q. IsKept q.0.conn) (some_eq h) is
  after_reused-IsKept request s s' crashed r is h = subst (λ q. IsKept q.0.conn) (some_eq h) is

  attempt-closed_empty :
      (request : Bytes) (c : Connection) (s t : S3Client W)
      → attempt connect format_request fuel limits request c s ≡ some (t, closed_empty)
      → (d : Connection) × (round_trip fuel limits request c ≡ some (d, closed_empty))
  unfolding attempt
  attempt-closed_empty request c s t h = elim (Option-cases (round_trip fuel limits request c)) [
    | inl out ↦ absurd (ground arith)
    | inr ((d, b), back) ↦
        let same : b ≡ closed_empty = ground arith in (d, back ∙ ap (λ a. some (d, a)) same)
  ]

  after_reused-Redials :
      (request : Bytes) (c : Connection) (s t s' : S3Client W) (a : Attempt) (r : Sent)
      → attempt connect format_request fuel limits request c s ≡ some (t, a)
      → after_reused connect format_request fuel limits request (t, a) ≡ some (s', r)
      → Redials (some c) s s'
  unfolding after_reused
  after_reused-Redials request c s t s' closed_empty r made h =
      let (d, closed) = attempt-closed_empty request c s t made in
      inr (round_trip-Unanswered fuel limits request c d closed)
  after_reused-Redials request c s t s' (success bytes) r made h =
      inl (ap (λ q. q.0.network) (sym (some_eq h)) ∙ (attempt-IsKept request c s t _ made).1)
  after_reused-Redials request c s t s' (failed e) r made h =
      inl (ap (λ q. q.0.network) (sym (some_eq h)) ∙ (attempt-IsKept request c s t _ made).1)
  after_reused-Redials request c s t s' crashed r made h =
      inl (ap (λ q. q.0.network) (sym (some_eq h)) ∙ (attempt-IsKept request c s t _ made).1)

  send_on-IsKept :
      (request : Bytes) (o : Option Connection) (s s' : S3Client W) (r : Sent)
      → s.conn ≡ o
      → send_on connect format_request fuel limits request o s ≡ some (s', r)
      → IsKept s'.conn × Redials o s s'
  unfolding send_on
  send_on-IsKept request none s s' r same h =
      (attempt_fresh-IsKept request s s' r (subst IsKept (sym same) tt) h, tt)
  send_on-IsKept request (some c) s s' r same h =
      elim (Option-cases (attempt connect format_request fuel limits request c s)) [
        | inl out ↦ absurd (ground arith)
        | inr ((t, a), made) ↦
            let after : after_reused connect format_request fuel limits request (t, a)
                ≡ some (s', r) =
              ground arith in
            (
              after_reused-IsKept request t s' a r (attempt-IsKept request c s t a made).0 after,
              after_reused-Redials request c s t s' a r made after,
            )
      ]

  -- After any request the client keeps no connection, or one that may be used again; and a request
  -- on a kept connection dials again, and so is sent again, only when it could not be written, or
  -- when the first read behind it was the end of the stream or failed: once a byte has come, or
  -- after a timeout, the result is final.
  pub send-IsKept :
      (path : Bytes) (s s' : S3Client W) (r : Sent)
      → send connect format_request fuel limits path s ≡ some (s', r)
      → IsKept s'.conn × Redials s.conn s s'
  send-IsKept path s s' r h = send_on-IsKept (format_request path) s.conn s s' r refl h
