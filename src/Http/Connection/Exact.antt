-- ===== src/Http/Connection/Exact.antt =====
-- A body of a known length, however its bytes arrive.
use radar_workstation.Common.{
  ℕ, zero, suc, ◌≤◌, ◌<◌, ◌≡◌, refl, ap, sym, ◌∙◌, subst, none, some, ok, Bytes, List, [], ◌∷◌,
  ◌++◌, Bool, true, false, not, Bool-cases, inl, inr, arith, length, take, drop, ltb, le→ltb,
  le→leb, length-append, take-append, drop-append, take-append_left, drop-append_left, append_assoc,
  append-nil,
}
use radar_workstation.Http.{Limits}
use radar_workstation.Http.Response.{Head, BodyFraming, content_length, parse_head}
use radar_workstation.Http.Response.Limit.{Accepted, parse_head-Accepted}
use radar_workstation.Http.Response.Grow.{parse_head-grows}
use radar_workstation.Http.Connection.{
  ReadOutcome, received, read_failed, timed_out_read, Wire, Connection, success, receive_from,
  split_to, read_head, fill_to, read_exact_body, read_body, finish_response, with_wire, is_2xx,
  respond, exchange, round_trip_from, round_trip, parsed,
}

-- Every read brings some bytes.
abbrev pub AllReceived : List ReadOutcome → Type 0
AllReceived [] = Unit {0}
AllReceived (received (b ∷ bs) ∷ rest) = AllReceived rest
AllReceived (_ ∷ rest) = Unit {0} → 1 ≤ 0

abbrev pub arriving : List ReadOutcome → Bytes
arriving [] = []
arriving (received bs ∷ rest) = bs ++ arriving rest
arriving (_ ∷ rest) = arriving rest

-- The bytes that are there or will come.
abbrev pub pending : Wire → Bytes
pending w = w.rbuf ++ arriving w.incoming

-- A wire that has the same bytes to give, and no more reads than before.
abbrev Follows : Wire → Wire → Type 0
Follows w u =
    (pending u ≡ pending w) × AllReceived u.incoming × (length u.incoming ≤ length w.incoming)

fill_to-filled :
    (fuel needed : ℕ) (w : Wire)
    → needed ≤ length w.rbuf
    → fill_to (suc fuel) needed w ≡ some (w, ok tt)
unfolding fill_to
fill_to-filled fuel needed w there =
    let filled = le→ltb (length w.rbuf) needed there in ground arith

fill_to-short :
    (fuel needed b : ℕ) (bs : Bytes) (rest : List ReadOutcome) (rbuf : Bytes) (any : Bool)
    → ltb (length rbuf) needed ≡ true
    → fill_to
        (suc fuel)
        needed
        (record { incoming = received (b ∷ bs) ∷ rest; rbuf = rbuf; any_bytes = any })
      ≡ fill_to fuel needed (record { incoming = rest; rbuf = rbuf ++ (b ∷ bs); any_bytes = true })
unfolding fill_to receive_from
fill_to-short fuel needed b bs rest rbuf any short = ground arith

fill_to-Follows :
    (fuel needed : ℕ) (incoming : List ReadOutcome) (rbuf : Bytes) (any : Bool)
    → AllReceived incoming
    → length incoming < fuel
    → needed ≤ length (rbuf ++ arriving incoming)
    → let w : Wire = record { incoming = incoming; rbuf = rbuf; any_bytes = any } in
      (u : Wire) × (fill_to fuel needed w ≡ some (u, ok tt))
      × Follows w u
      × (needed ≤ length u.rbuf)
fill_to-Follows zero needed incoming rbuf any all enough there = absurd (omega arith)
fill_to-Follows (suc fuel) needed [] rbuf any all enough there =
    let w : Wire = record { incoming = []; rbuf = rbuf; any_bytes = any } in
    let here : needed ≤ length rbuf = subst (λ l. needed ≤ length l) (append-nil rbuf) there in
    (w, fill_to-filled fuel needed w here, (refl, all, omega arith), here)
fill_to-Follows (suc fuel) needed (received (b ∷ bs) ∷ rest) rbuf any all enough there =
    elim (Bool-cases (ltb (length rbuf) needed)) [
      | inl short ↦
          let more = append_assoc rbuf (b ∷ bs) (arriving rest) in
          let (u, filled, follows, here) =
            fill_to-Follows fuel needed rest (rbuf ++ (b ∷ bs)) true all (omega arith)
              (subst (λ l. needed ≤ length l) (sym more) there) in
          (
            u,
            fill_to-short fuel needed b bs rest rbuf any short ∙ filled,
            (follows.0 ∙ more, follows.1, omega (arith, follows.2)),
            here,
          )
      | inr filled ↦
          let w : Wire = record {
            incoming = received (b ∷ bs) ∷ rest;
            rbuf = rbuf;
            any_bytes = any;
          } in
          let here : needed ≤ length rbuf = ground arith in
          (w, fill_to-filled fuel needed w here, (refl, all, omega arith), here)
    ]
fill_to-Follows (suc fuel) needed (received [] ∷ rest) rbuf any all enough there =
    absurd (omega (arith, all tt))
fill_to-Follows (suc fuel) needed (read_failed ∷ rest) rbuf any all enough there =
    absurd (omega (arith, all tt))
fill_to-Follows (suc fuel) needed (timed_out_read ∷ rest) rbuf any all enough there =
    absurd (omega (arith, all tt))

-- Taking a part that is in the buffer from the bytes that are pending.
take-pending :
    (rbuf more body rest : Bytes)
    → rbuf ++ more ≡ body ++ rest
    → length body ≤ length rbuf
    → (take (length body) rbuf ≡ body) × (drop (length body) rbuf ++ more ≡ rest)
take-pending rbuf more body rest same here = (
  sym (take-append_left (length body) rbuf more here)
      ∙ ap (take (length body)) same
      ∙ take-append body rest,
  sym (drop-append_left (length body) rbuf more here)
      ∙ ap (drop (length body)) same
      ∙ drop-append body rest,
)

read_exact_body-filled :
    (fuel n : ℕ) (w u : Wire)
    → fill_to fuel n w ≡ some (u, ok tt)
    → n ≤ length u.rbuf
    → read_exact_body fuel n w ≡ some (record u { rbuf = drop n u.rbuf }, ok (take n u.rbuf))
unfolding read_exact_body split_to
read_exact_body-filled fuel n w u filled here =
    let within = le→leb n (length u.rbuf) here in ground arith

read_exact_body-Follows :
    (fuel : ℕ) (w : Wire) (body rest : Bytes)
    → AllReceived w.incoming
    → length w.incoming < fuel
    → pending w ≡ body ++ rest
    → (u : Wire) × (read_exact_body fuel (length body) w ≡ some (u, ok body))
      × (pending u ≡ rest)
      × AllReceived u.incoming
read_exact_body-Follows fuel w body rest all enough same =
    let total = length-append body rest in
    let (u, filled, follows, here) =
      fill_to-Follows fuel (length body) w.incoming w.rbuf w.any_bytes all enough
        (subst (λ l. length body ≤ length l) (sym same) (omega (arith, total))) in
    let parts = take-pending u.rbuf (arriving u.incoming) body rest (follows.0 ∙ same) here in
    let left : Wire = record u { rbuf = drop (length body) u.rbuf } in
    (
      left,
      read_exact_body-filled fuel (length body) w u filled here
          ∙ ap (λ bs. some (left, ok bs)) parts.0,
      parts.1,
      follows.1,
    )

read_head-found :
    (fuel : ℕ) (limits : Limits) (w : Wire) (head : Head)
    → parse_head w.rbuf limits ≡ ok (some head)
    → read_head (suc fuel) limits w ≡ some (w, ok head)
unfolding read_head parsed
read_head-found fuel limits w head found = ground arith

read_head-more :
    (fuel : ℕ) (limits : Limits) (b : ℕ) (bs : Bytes) (rest : List ReadOutcome) (rbuf : Bytes)
    (any : Bool)
    → parse_head rbuf limits ≡ ok none
    → read_head
        (suc fuel)
        limits
        (record { incoming = received (b ∷ bs) ∷ rest; rbuf = rbuf; any_bytes = any })
      ≡ read_head fuel limits
          (record { incoming = rest; rbuf = rbuf ++ (b ∷ bs); any_bytes = true })
unfolding read_head parsed receive_from
read_head-more fuel limits b bs rest rbuf any wants = ground arith

-- The head, of bytes that begin with a whole one.
read_head-Follows :
    (fuel : ℕ) (limits : Limits) (incoming : List ReadOutcome) (rbuf : Bytes) (any : Bool)
    (head : Head)
    → AllReceived incoming
    → length incoming < fuel
    → parse_head (rbuf ++ arriving incoming) limits ≡ ok (some head)
    → let w : Wire = record { incoming = incoming; rbuf = rbuf; any_bytes = any } in
      (u : Wire) × (read_head fuel limits w ≡ some (u, ok head))
      × Follows w u
      × (parse_head u.rbuf limits ≡ ok (some head))
read_head-Follows zero limits incoming rbuf any head all enough whole = absurd (omega arith)
read_head-Follows (suc fuel) limits [] rbuf any head all enough whole =
    let w : Wire = record { incoming = []; rbuf = rbuf; any_bytes = any } in
    let found : parse_head rbuf limits ≡ ok (some head) =
      ap (λ l. parse_head l limits) (sym (append-nil rbuf)) ∙ whole in
    (w, read_head-found fuel limits w head found, (refl, all, omega arith), found)
read_head-Follows (suc fuel) limits (received (b ∷ bs) ∷ rest) rbuf any head all enough whole =
    elim (parse_head-grows limits rbuf ((b ∷ bs) ++ arriving rest)) [
      | inl wants ↦
          let more = append_assoc rbuf (b ∷ bs) (arriving rest) in
          let (u, read, follows, found) =
            read_head-Follows fuel limits rest (rbuf ++ (b ∷ bs)) true head all (omega arith)
              (ap (λ l. parse_head l limits) more ∙ whole) in
          (
            u,
            read_head-more fuel limits b bs rest rbuf any wants ∙ read,
            (follows.0 ∙ more, follows.1, omega (arith, follows.2)),
            found,
          )
      | inr decided ↦
          let w : Wire = record {
            incoming = received (b ∷ bs) ∷ rest;
            rbuf = rbuf;
            any_bytes = any;
          } in
          let found = sym decided ∙ whole in
          (w, read_head-found fuel limits w head found, (refl, all, omega arith), found)
    ]
read_head-Follows (suc fuel) limits (received [] ∷ rest) rbuf any head all enough whole =
    absurd (omega (arith, all tt))
read_head-Follows (suc fuel) limits (read_failed ∷ rest) rbuf any head all enough whole =
    absurd (omega (arith, all tt))
read_head-Follows (suc fuel) limits (timed_out_read ∷ rest) rbuf any head all enough whole =
    absurd (omega (arith, all tt))

-- A connection that takes the next request, and whose reads bring what is pending.
abbrev pub wire_of : Connection → Wire
wire_of c = record { incoming = c.incoming; rbuf = c.rbuf; any_bytes = false }

parse_head-longer :
    (limits : Limits) (buf more : Bytes) (head : Head)
    → parse_head buf limits ≡ ok (some head)
    → parse_head (buf ++ more) limits ≡ ok (some head)
parse_head-longer limits buf more head whole = elim (parse_head-grows limits buf more) [
  | inl wants ↦ cc
  | inr decided ↦ decided ∙ whole
]

read_body-length :
    (fuel n cap : ℕ) (framing : BodyFraming) (w : Wire)
    → framing ≡ content_length n
    → n ≤ cap
    → read_body fuel framing cap w ≡ read_exact_body fuel n w
unfolding read_body
read_body-length fuel n cap framing w known fits =
    let within = le→ltb cap n fits in
    ap (λ f. read_body fuel f cap w) known ∙ rw (within, read_body)

exchange-success :
    (fuel : ℕ) (limits : Limits) (c : Connection) (head : Head) (u v : Wire) (body : Bytes)
    → read_head fuel limits (wire_of c) ≡ some (u, ok head)
    → is_2xx head.status ≡ true
    → read_body fuel head.framing limits.max_body_bytes
        (record u { rbuf = drop head.head_len u.rbuf })
      ≡ some (v, ok body)
    → exchange fuel limits c ≡ some (with_wire (not head.connection_close) v c, success body)
unfolding exchange respond finish_response
exchange-success fuel limits c head u v body read ok_status answered = ground arith

-- A response with a body of a known length is read exactly, however its bytes are cut into reads:
-- when the bytes that are there or will come are a head that parses with success and the length of
-- `body`, then `body`, then `rest`, the round trip gives `body`, writes the request once, and leaves
-- `rest` to the next response, on any fuel above the number of reads. The body is within the limit.
pub round_trip-Exact :
    (fuel : ℕ) (limits : Limits) (request : Bytes) (accepts : List Bool) (c : Connection)
    (head : Head) (head_bytes body rest : Bytes)
    → c.accepts ≡ true ∷ accepts
    → AllReceived c.incoming
    → length c.incoming < fuel
    → pending (wire_of c) ≡ head_bytes ++ (body ++ rest)
    → parse_head head_bytes limits ≡ ok (some head)
    → head.head_len ≡ length head_bytes
    → head.framing ≡ content_length (length body)
    → is_2xx head.status ≡ true
    → length body ≤ limits.max_body_bytes
    → (d : Connection) × (round_trip fuel limits request c ≡ some (d, success body))
      × (d.written ≡ c.written ++ request ∷ [])
      × (d.reusable ≡ not head.connection_close)
      × (pending (wire_of d) ≡ rest)
unfolding round_trip_from
round_trip-Exact fuel limits request accepts c head head_bytes body rest next all enough same whole
      len framing success_status fits =
    let c1 : Connection = record c { written = c.written ++ request ∷ []; accepts = accepts } in
    let full : parse_head (pending (wire_of c)) limits ≡ ok (some head) =
      ap (λ l. parse_head l limits) same
      ∙ parse_head-longer limits head_bytes (body ++ rest) head whole in
    let (u, read, follows, found) =
      read_head-Follows fuel limits c.incoming c.rbuf false head all enough full in
    let here =
      (subst (Accepted limits (length u.rbuf)) found (parse_head-Accepted limits u.rbuf)).0 in
    let left =
      (take-pending u.rbuf (arriving u.incoming) head_bytes (body ++ rest) (follows.0 ∙ same)
        (omega (arith, here))).1 in
    let u1 : Wire = record u { rbuf = drop head.head_len u.rbuf } in
    let (v, exact, behind, still) =
      read_exact_body-Follows fuel u1 body rest follows.1 (omega (arith, follows.2))
        (ap (λ n. drop n u.rbuf ++ arriving u.incoming) len ∙ left) in
    let bytes =
      read_body-length fuel (length body) limits.max_body_bytes head.framing u1 framing fits
      ∙ exact in
    let exchanged = exchange-success fuel limits c1 head u v body read success_status bytes in
    (
      with_wire (not head.connection_close) v c1,
      ap (λ a. round_trip_from fuel limits request a c) next ∙ exchanged,
      refl,
      refl,
      behind,
    )
