-- ===== src/Http/Connection/Tame.antt =====
-- The reads of a response, as to what they lose: a call that fails as unanswered has read no byte.
use radar_workstation.Common.{
  ℕ, zero, suc, ◌+◌, ◌≡◌, ◌⊎◌, refl, sym, ◌∙◌, subst, Option, none, some, Result, ok, err, Bytes,
  List, [], ◌∷◌, ◌++◌, Bool, true, false, Bool-cases, inl, inr, arith, ltb, leb, length, drop, take,
}
use radar_workstation.Common.Maybe.{some_eq}
use radar_workstation.Common.Stateful.{pure, fail, ◌>>=◌, ◌>>◌, >>=-Chained}
use radar_workstation.Common.Text.{bytes_eq}
use radar_workstation.Http.{
  Limits, HttpError, Phase, reading_headers, reading_body, protocol, body_too_large,
}
use radar_workstation.Http.Response.{
  BodyFraming, no_body, content_length, chunked, parse_head, parse_chunk_size_line,
}
use radar_workstation.Http.Connection.{
  ReadOutcome, received, read_failed, timed_out_read, Wire, Internal, io, fatal, panicked,
  timed_out_in, Reading, receive, receive_from, buffer, advance, split_to, expect_crlf, sum_of,
  parsed, read_head, fill_to, read_exact_body, read_chunk_size, read_chunk, read_chunks,
  read_chunked_body, read_body,
}

-- The first read brings no byte, and does not time out: it is the end of the stream, or fails.
abbrev pub NoByte : List ReadOutcome → Type 0
NoByte [] = Unit {0}
NoByte (received [] ∷ rest) = Unit {0}
NoByte (received (b ∷ bs) ∷ rest) = ⊥
NoByte (read_failed ∷ rest) = Unit {0}
NoByte (timed_out_read ∷ rest) = ⊥

-- The next write fails.
abbrev pub NotWritten : List Bool → Type 0
NotWritten [] = Unit {0}
NotWritten (written ∷ accepts) = written ≡ false

-- No read was made, or some byte has come.
abbrev pub Advanced : Wire → Wire → Type 0
Advanced w u = (u.any_bytes ≡ true) ⊎ ((u.any_bytes ≡ w.any_bytes) × (u.incoming ≡ w.incoming))

abbrev pub Unheard : Wire → Type 0
Unheard w = (w.any_bytes ≡ false) × NoByte w.incoming

abbrev pub Lost : Wire → Internal → Type 0
Lost w (io false) = Unheard w
Lost w (io true) = Unit {0}
Lost w (timed_out_in phase) = Unit {0}
Lost w (fatal e) = Unit {0}
Lost w panicked = Unit {0}

-- A call that fails as unanswered only when no byte comes.
abbrev pub After : {A : Type 0} → Wire → Wire × Result Internal A → Type 0
After w (u, ok a) = Advanced w u
After w (u, err e) = Lost w e

abbrev Tame : {A : Type 0} → Reading A → Type 0
Tame {A} m = (w : Wire) (q : Wire × Result Internal A) → m w ≡ some q → After w q

Advanced-trans : (w t u : Wire) → Advanced w t → Advanced t u → Advanced w u
Advanced-trans w t u first (inl heard) = inl heard
Advanced-trans w t u (inl heard) (inr same) = inl (same.0 ∙ heard)
Advanced-trans w t u (inr before) (inr same) = inr (same.0 ∙ before.0, same.1 ∙ before.1)

pub Unheard-before : (w t : Wire) → Advanced w t → Unheard t → Unheard w
Unheard-before w t (inl heard) silent = cc
Unheard-before w t (inr same) silent = (sym same.0 ∙ silent.0, subst NoByte same.1 silent.1)

Lost-before : (w t : Wire) (e : Internal) → Advanced w t → Lost t e → Lost w e
Lost-before w t (io false) on lost = Unheard-before w t on lost
Lost-before w t (io true) on lost = tt
Lost-before w t (timed_out_in phase) on lost = tt
Lost-before w t (fatal e) on lost = tt
Lost-before w t panicked on lost = tt

After-trans :
    {A : Type 0} (w t : Wire) (q : Wire × Result Internal A) → Advanced w t → After t q → After w q
After-trans w t (u, ok a) on later = Advanced-trans w t u on later
After-trans w t (u, err e) on later = Lost-before w t e on later

directly :
    {A : Type 0} (w : Wire) (p q : Wire × Result Internal A)
    → After w p
    → some p ≡ some q
    → After w q
directly w p q holds h = subst (After w) (some_eq h) holds

>>=-Tame :
    {A B : Type 0} (m : Reading A) (f : A → Reading B)
    → Tame m
    → ((a : A) → Tame (f a))
    → Tame (m >>= f)
>>=-Tame m f first rest w (u, r) h = elim (>>=-Chained m f w u r h) [
  | inl (e, made, failed) ↦ subst (λ x. After w (u, x)) (sym failed) (first w (u, err e) made)
  | inr (a, t, made, more) ↦ After-trans w t (u, r) (first w (t, ok a) made) (rest a t (u, r) more)
]

pure-Tame : {A : Type 0} (a : A) → Tame (pure a)
pure-Tame a w q h = directly w (w, ok a) q (inr (refl, refl)) h

fail-Tame : {A : Type 0} (e : Internal) → ((w : Wire) → Lost w e) → Tame (fail {A = A} e)
fail-Tame e lost w q h = directly w (w, err e) q (lost w) h

buffer-Tame : Tame buffer
buffer-Tame w q h = directly w (w, ok w.rbuf) q (inr (refl, refl)) h

advance-Tame : (n : ℕ) → Tame (advance n)
advance-Tame n w q h = directly w (record w { rbuf = drop n w.rbuf }, ok tt) q (inr (refl, refl)) h

split_to-Tame : (n : ℕ) → Tame (split_to n)
unfolding split_to
split_to-Tame n w q h = elim (Bool-cases (leb n (length w.rbuf))) [
  | inl fits ↦
      directly w (record w { rbuf = drop n w.rbuf }, ok (take n w.rbuf)) q (inr (refl, refl))
        (ground arith)
  | inr over ↦ directly w (w, err panicked) q tt (ground arith)
]

expect_crlf-Tame : (e : HttpError) → Tame (expect_crlf e)
unfolding expect_crlf
expect_crlf-Tame e w q h = elim (Bool-cases (ltb (length w.rbuf) 2)) [
  | inl short ↦ directly w (w, err panicked) q tt (ground arith)
  | inr there ↦ elim (Bool-cases (bytes_eq (take 2 w.rbuf) (13 ∷ 10 ∷ []))) [
    | inl same ↦
        directly w (record w { rbuf = drop 2 w.rbuf }, ok tt) q (inr (refl, refl)) (ground arith)
    | inr other ↦ directly w (w, err (fatal e)) q tt (ground arith)
  ]
]

sum_of-Tame : (m n : ℕ) → Tame (sum_of m n)
unfolding sum_of
sum_of-Tame m n w q h = elim (Bool-cases (ltb (m + n) 18446744073709551616)) [
  | inl fits ↦ directly w (w, ok (m + n)) q (inr (refl, refl)) (ground arith)
  | inr over ↦ directly w (w, err panicked) q tt (ground arith)
]

parsed-Tame : {A : Type 0} (r : Result HttpError (Option A)) → Tame (parsed r)
unfolding parsed
parsed-Tame (ok a) = pure-Tame a
parsed-Tame (err e) = fail-Tame (fatal e) (λ w. tt)

Lost-io : (w : Wire) (heard : Bool) → w.any_bytes ≡ heard → NoByte w.incoming → Lost w (io heard)
Lost-io w true same silent = tt
Lost-io w false same silent = (same, silent)

Lost-io_now : (w : Wire) → NoByte w.incoming → Lost w (io w.any_bytes)
Lost-io_now w silent = Lost-io w w.any_bytes refl silent

receive_from-Tame :
    (phase : Phase) (incoming : List ReadOutcome) (w : Wire) (q : Wire × Result Internal (Unit {0}))
    → w.incoming ≡ incoming
    → receive_from phase incoming w ≡ some q
    → After w q
unfolding receive_from
receive_from-Tame phase [] w q there h =
    directly w (w, err (io w.any_bytes)) q (Lost-io_now w (subst NoByte (sym there) tt)) h
receive_from-Tame phase (received [] ∷ rest) w q there h =
    directly w (record w { incoming = rest }, err (io w.any_bytes)) q
      (Lost-io_now w (subst NoByte (sym there) tt)) h
receive_from-Tame phase (received (b ∷ bs) ∷ rest) w q there h =
    directly w (record w { incoming = rest; rbuf = w.rbuf ++ (b ∷ bs); any_bytes = true }, ok tt) q
      (inl refl) h
receive_from-Tame phase (read_failed ∷ rest) w q there h =
    directly w (record w { incoming = rest }, err (io w.any_bytes)) q
      (Lost-io_now w (subst NoByte (sym there) tt)) h
receive_from-Tame phase (timed_out_read ∷ rest) w q there h =
    directly w (record w { incoming = rest }, err (timed_out_in phase)) q tt h

receive-Tame : (phase : Phase) → Tame (receive phase)
receive-Tame phase w q h = receive_from-Tame phase w.incoming w q refl h

-- The cases of a loop.
option-Tame :
    {A B : Type 0} (o : Option A) (f : A → Reading B) (m : Reading B)
    → ((a : A) → Tame (f a))
    → Tame m
    → Tame (elim o [ some a ↦ f a | none ↦ m ])
option-Tame none f m found wanting = wanting
option-Tame (some a) f m found wanting = found a

bool-Tame :
    {B : Type 0} (test : Bool) (m k : Reading B)
    → Tame m
    → Tame k
    → Tame (elim test [ true ↦ m | false ↦ k ])
bool-Tame true m k first second = first
bool-Tame false m k first second = second

size-Tame :
    {B : Type 0} (size : ℕ) (m k : Reading B)
    → Tame m
    → Tame k
    → Tame (elim size [ zero ↦ m | suc n ↦ k ])
size-Tame zero m k last more = last
size-Tame (suc n) m k last more = more

pub read_head-Tame : (fuel : ℕ) (limits : Limits) → Tame (read_head fuel limits)
unfolding read_head
read_head-Tame zero limits = λ w q h. cc
read_head-Tame (suc fuel) limits = >>=-Tame buffer _ buffer-Tame λ rbuf.
    >>=-Tame (parsed (parse_head rbuf limits)) _ (parsed-Tame (parse_head rbuf limits)) λ found.
      option-Tame found pure (receive reading_headers >> read_head fuel limits) pure-Tame (
        >>=-Tame (receive reading_headers) _ (receive-Tame reading_headers)
          λ _. read_head-Tame fuel limits)

fill_to-Tame : (fuel needed : ℕ) → Tame (fill_to fuel needed)
unfolding fill_to
fill_to-Tame zero needed = λ w q h. cc
fill_to-Tame (suc fuel) needed = >>=-Tame buffer _ buffer-Tame λ rbuf.
    bool-Tame (ltb (length rbuf) needed) (receive reading_body >> fill_to fuel needed) (pure tt)
      (>>=-Tame (receive reading_body) _ (receive-Tame reading_body) λ _. fill_to-Tame fuel needed)
      (pure-Tame tt)

read_chunk_size-Tame : (fuel : ℕ) → Tame (read_chunk_size fuel)
unfolding read_chunk_size
read_chunk_size-Tame zero = λ w q h. cc
read_chunk_size-Tame (suc fuel) = >>=-Tame buffer _ buffer-Tame λ rbuf.
    >>=-Tame (parsed (parse_chunk_size_line rbuf)) _ (parsed-Tame (parse_chunk_size_line rbuf))
      λ found. option-Tame found pure (receive reading_body >> read_chunk_size fuel) pure-Tame (
        >>=-Tame (receive reading_body) _ (receive-Tame reading_body)
          λ _. read_chunk_size-Tame fuel)

read_chunk-Tame : (fuel size : ℕ) → Tame (read_chunk fuel size)
unfolding read_chunk
read_chunk-Tame fuel size = >>=-Tame (sum_of size 2) _ (sum_of-Tame size 2) λ needed.
    >>=-Tame (fill_to fuel needed) _ (fill_to-Tame fuel needed) λ _.
      >>=-Tame (split_to size) _ (split_to-Tame size)
        λ chunk. >>=-Tame (expect_crlf _) _ (expect_crlf-Tame _) λ _. pure-Tame chunk

read_chunks-Tame : (fuel rounds limit : ℕ) (out : Bytes) → Tame (read_chunks fuel rounds limit out)
unfolding read_chunks
read_chunks-Tame fuel zero limit out = λ w q h. cc
read_chunks-Tame fuel (suc rounds) limit out =
    >>=-Tame (read_chunk_size fuel) _ (read_chunk_size-Tame fuel) λ sized.
      >>=-Tame (advance sized.1) _ (advance-Tame sized.1) λ _.
        size-Tame sized.0 _ _
          (>>=-Tame (fill_to fuel 2) _ (fill_to-Tame fuel 2) λ _.
            >>=-Tame (expect_crlf (protocol "chunk trailers not supported")) _
              (expect_crlf-Tame (protocol "chunk trailers not supported")) λ _. pure-Tame out)
          (>>=-Tame (sum_of (length out) sized.0) _ (sum_of-Tame (length out) sized.0) λ total.
            bool-Tame (ltb limit total) _ _ (fail-Tame (fatal (body_too_large total limit)) λ w. tt)
              (>>=-Tame (read_chunk fuel sized.0) _ (read_chunk-Tame fuel sized.0)
                λ chunk. read_chunks-Tame fuel rounds limit (out ++ chunk)))

pub read_body-Tame :
    (fuel : ℕ) (framing : BodyFraming) (limit : ℕ) → Tame (read_body fuel framing limit)
unfolding read_body read_exact_body read_chunked_body
read_body-Tame fuel no_body limit = pure-Tame []
read_body-Tame fuel (content_length len) limit =
    bool-Tame (ltb limit len) _ _ (fail-Tame (fatal (body_too_large len limit)) λ w. tt)
      (>>=-Tame (fill_to fuel len) _ (fill_to-Tame fuel len) λ _. split_to-Tame len)
read_body-Tame fuel chunked limit = read_chunks-Tame fuel fuel limit []
