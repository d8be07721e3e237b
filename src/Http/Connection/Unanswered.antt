-- ===== src/Http/Connection/Unanswered.antt =====
-- When a round trip ends as one that the server did not answer: nothing was written, or the first
-- read brought no byte.
use radar_workstation.Common.{
  ℕ, ◌≡◌, ◌⊎◌, refl, ap, subst, some, Result, ok, err, Bytes, List, [], ◌∷◌, ◌++◌, Bool, true,
  false, inl, inr, arith, drop, Option-cases,
}
use radar_workstation.Common.Maybe.{some_eq}
use radar_workstation.Http.{Limits, body_too_large}
use radar_workstation.Http.Response.{Head}
use radar_workstation.Http.Connection.{
  Wire, Internal, io, fatal, panicked, timed_out_in, closed_empty, read_head, read_body, Connection,
  attempt_of, finish_with_internal, finish_body, finish_response, body_cap, respond, exchange,
  round_trip_from, round_trip,
}
use radar_workstation.Http.Connection.Tame.{
  NoByte, NotWritten, Unheard, Lost, After, Unheard-before, read_head-Tame, read_body-Tame,
}

-- What counts as unanswered.
attempt_of-closed_empty : (e : Internal) → attempt_of e ≡ closed_empty → e ≡ io false
unfolding attempt_of
attempt_of-closed_empty (timed_out_in phase) h = cc
attempt_of-closed_empty (io true) h = cc
attempt_of-closed_empty (io false) h = refl
attempt_of-closed_empty (fatal e) h = cc
attempt_of-closed_empty panicked h = cc

io-Unheard : (w : Wire) (e : Internal) → e ≡ io false → Lost w e → Unheard w
io-Unheard w e same lost = subst (Lost w) same lost

finish_body-closed_empty :
    (head : Head) (e : Internal) (w : Wire) (c : Connection)
    → (finish_body head e w c).1 ≡ closed_empty
    → e ≡ io false
unfolding finish_body finish_with_internal attempt_of
finish_body-closed_empty head (timed_out_in phase) w c h = cc
finish_body-closed_empty head (io true) w c h = cc
finish_body-closed_empty head (io false) w c h = refl
finish_body-closed_empty head (fatal (body_too_large len limit)) w c h = ground arith
finish_body-closed_empty head (fatal e) w c h = cc
finish_body-closed_empty head panicked w c h = cc

finish_response-closed_empty :
    (head : Head) (c : Connection) (w : Wire) (r : Result Internal Bytes)
    → (finish_response head c (w, r)).1 ≡ closed_empty
    → r ≡ err (io false)
unfolding finish_response
finish_response-closed_empty head c w (ok bytes) h = ground arith
finish_response-closed_empty head c w (err e) h = ap err (finish_body-closed_empty head e w c h)

-- The result that is lost is the one without any byte.
After-Unheard :
    {A : Type 0} (w u : Wire) (r : Result Internal A)
    → r ≡ err (io false)
    → After w (u, r)
    → Unheard w
After-Unheard w u r same after = subst (λ x. After w (u, x)) same after

respond-Unheard :
    (fuel : ℕ) (limits : Limits) (c d : Connection) (w u : Wire) (r : Result Internal Head)
    → After w (u, r)
    → respond fuel limits c (u, r) ≡ some (d, closed_empty)
    → Unheard w
unfolding respond finish_with_internal
respond-Unheard fuel limits c d w u (err e) after h =
    io-Unheard w e (attempt_of-closed_empty e (ap (λ q. q.1) (some_eq h))) after
respond-Unheard fuel limits c d w u (ok head) after h =
    let v : Wire = record u { rbuf = drop head.head_len u.rbuf } in
    let body = read_body fuel head.framing (body_cap limits head) in
    elim (Option-cases (body v)) [
      | inl out ↦ absurd (ground arith)
      | inr ((t, r), read) ↦
          let same : finish_response head c (t, r) ≡ (d, closed_empty) = ground arith in
          let lost = finish_response-closed_empty head c t r (ap (λ q. q.1) same) in
          Unheard-before w v after (
            After-Unheard v t r lost
              (read_body-Tame fuel head.framing (body_cap limits head) v (t, r) read))
    ]

exchange-NoByte :
    (fuel : ℕ) (limits : Limits) (c d : Connection)
    → exchange fuel limits c ≡ some (d, closed_empty)
    → NoByte c.incoming
unfolding exchange
exchange-NoByte fuel limits c d h =
    let w : Wire = record { incoming = c.incoming; rbuf = c.rbuf; any_bytes = false } in
    elim (Option-cases (read_head fuel limits w)) [
      | inl out ↦ absurd (ground arith)
      | inr ((u, r), read) ↦
          let responded : respond fuel limits c (u, r) ≡ some (d, closed_empty) = ground arith in
          (respond-Unheard fuel limits c d w u r (read_head-Tame fuel limits w (u, r) read)
            responded).1
    ]

round_trip_from-Unanswered :
    (fuel : ℕ) (limits : Limits) (request : Bytes) (accepts : List Bool) (c d : Connection)
    → round_trip_from fuel limits request accepts c ≡ some (d, closed_empty)
    → NotWritten accepts ⊎ NoByte c.incoming
unfolding round_trip_from
round_trip_from-Unanswered fuel limits request (true ∷ accepts) c d h = inr (
    exchange-NoByte fuel limits
      (record c { written = c.written ++ request ∷ []; accepts = accepts }) d h)
round_trip_from-Unanswered fuel limits request (false ∷ accepts) c d h = inl refl
round_trip_from-Unanswered fuel limits request [] c d h = inl tt

-- A round trip that ends unanswered could not write, or its first read brought no byte.
pub round_trip-Unanswered :
    (fuel : ℕ) (limits : Limits) (request : Bytes) (c d : Connection)
    → round_trip fuel limits request c ≡ some (d, closed_empty)
    → NotWritten c.accepts ⊎ NoByte c.incoming
round_trip-Unanswered fuel limits request c d h =
    round_trip_from-Unanswered fuel limits request c.accepts c d h
