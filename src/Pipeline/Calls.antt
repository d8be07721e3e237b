-- ===== src/Pipeline/Calls.antt =====
-- A run on raw chunks is a run of calls of the assembler.
use radar_workstation.Common.{
  ℕ, ◌≡◌, refl, ap, ◌∙◌, sym, Option, none, some, Bool, true, false, Result, ok, err, Bytes, List,
  [], ◌∷◌, ◌++◌, Bool-cases, inl, inr, append-nil, append_assoc,
}
use radar_workstation.Chunk.{
  ChunkKind, start, intermediate, end_chunk, ChunkError, decompress_chunk, kind_eq,
}
use radar_workstation.Chunk.Total.{decompress_chunk_total}
use radar_workstation.Decoder.Cursor.{DecodeError}
use radar_workstation.Decoder.Radial.{Radial}
use radar_workstation.Decoder.Stream.{VolumeMetadata, parse_metadata_stream, parse_radial_stream}
use radar_workstation.Decoder.Stream.Total.{parse_streams_total}
use radar_workstation.Assembly.{
  on_start_chunk, VolumeAssembler, Step, HashOrder, ◌▹◌, Call, start_chunk, chunk, tick,
  site_change, step, run_calls,
}
use radar_workstation.Assembly.Volume.{AssemblyEvent}
use radar_workstation.Assembly.Events.{OneSite}
use radar_workstation.Pipeline.{
  Platform, ChunkEnvelope, vcp_of, ingest_radials, ingest_stream, ingest_decompressed,
  decode_and_ingest, Input, received, ticked, round, run,
}

abbrev pub is_metadata : ChunkKind → Bool
is_metadata start = true
is_metadata _ = false

-- What one round does for the assembler, by what its input decodes to.
pub data Does (p : Platform) : Input → List Call → Type 0 where
  -- A tick.
  tick_of : (now : ℕ) → Does p (ticked now) (tick now ∷ [])
  -- A chunk that does not decompress does nothing.
  not_decompressed :
      (envelope : ChunkEnvelope) (now : ℕ) (e : ChunkError)
      → decompress_chunk p.bz envelope.raw_bytes envelope.kind ≡ some (err e)
      → Does p (received envelope now) []
  -- A start chunk with its VCP, if it has one; without, if its stream does not parse.
  metadata :
      (envelope : ChunkEnvelope) (now : ℕ) (bytes : Bytes) (m : VolumeMetadata)
      → decompress_chunk p.bz envelope.raw_bytes envelope.kind ≡ some (ok bytes)
      → is_metadata envelope.kind ≡ true
      → parse_metadata_stream p.floats bytes ≡ some (ok m)
      → Does p (received envelope now) (start_chunk m.vcp now ∷ [])
  bad_metadata :
      (envelope : ChunkEnvelope) (now : ℕ) (bytes : Bytes) (e : DecodeError)
      → decompress_chunk p.bz envelope.raw_bytes envelope.kind ≡ some (ok bytes)
      → is_metadata envelope.kind ≡ true
      → parse_metadata_stream p.floats bytes ≡ some (err e)
      → Does p (received envelope now) (start_chunk none now ∷ [])
  -- Any other chunk with all its radials; nothing, if its stream does not parse.
  radials :
      (envelope : ChunkEnvelope) (now : ℕ) (bytes : Bytes) (rs : List Radial)
      → decompress_chunk p.bz envelope.raw_bytes envelope.kind ≡ some (ok bytes)
      → is_metadata envelope.kind ≡ false
      → parse_radial_stream p.floats bytes ≡ some (ok rs)
      → Does p (received envelope now) (chunk envelope.kind rs now ∷ [])
  bad_radials :
      (envelope : ChunkEnvelope) (now : ℕ) (bytes : Bytes) (e : DecodeError)
      → decompress_chunk p.bz envelope.raw_bytes envelope.kind ≡ some (ok bytes)
      → is_metadata envelope.kind ≡ false
      → parse_radial_stream p.floats bytes ≡ some (err e)
      → Does p (received envelope now) []

-- What the rounds do, one after the other.
pub data DoesAll (p : Platform) : List Input → List Call → Type 0 where
  no_more : DoesAll p [] []
  and_then_all :
      (i : Input) (inputs : List Input) (cs ds : List Call)
      → Does p i cs
      → DoesAll p inputs ds
      → DoesAll p (i ∷ inputs) (cs ++ ds)

-- A round that is the run of the calls that it should be.
abbrev pub IsCall : Platform → Input → VolumeAssembler → Option Step → Type 0
IsCall p i a r = (calls : List Call) × Does p i calls × (r ≡ some (run_calls p.order calls a))

kind_eq-start : (kind : ChunkKind) → kind_eq kind start ≡ is_metadata kind
kind_eq-start start = refl
kind_eq-start intermediate = refl
kind_eq-start end_chunk = refl

run_calls-one :
    (order : HashOrder) (c : Call) (a : VolumeAssembler)
    → run_calls order (c ∷ []) a ≡ step order c a
unfolding run_calls
run_calls-one order c a =
    ap (λ (l : List AssemblyEvent). ((step order c a).0, l)) (append-nil (step order c a).1)

module _ (p : Platform) (now : ℕ) (a : VolumeAssembler) (envelope : ChunkEnvelope) where
  module _ (bytes : Bytes)
      (decompressed : decompress_chunk p.bz envelope.raw_bytes envelope.kind
        ≡ some (ok bytes)) where
    metadata-IsCall :
        (r : Result DecodeError VolumeMetadata)
        → is_metadata envelope.kind ≡ true
        → parse_metadata_stream p.floats bytes ≡ some r
        → IsCall p (received envelope now) a (some (on_start_chunk (vcp_of r) now a))
    unfolding step
    metadata-IsCall (ok m) is parsed = (
      start_chunk m.vcp now ∷ [],
      metadata envelope now bytes m decompressed is parsed,
      ap some (sym (run_calls-one p.order (start_chunk m.vcp now) a)),
    )
    metadata-IsCall (err e) is parsed = (
      start_chunk none now ∷ [],
      bad_metadata envelope now bytes e decompressed is parsed,
      ap some (sym (run_calls-one p.order (start_chunk none now) a)),
    )

    radials-IsCall :
        (r : Result DecodeError (List Radial))
        → is_metadata envelope.kind ≡ false
        → parse_radial_stream p.floats bytes ≡ some r
        → IsCall p (received envelope now) a (some (ingest_radials p envelope.kind now a r))
    unfolding ingest_radials step run_calls
    radials-IsCall (ok rs) is parsed = (
      chunk envelope.kind rs now ∷ [],
      radials envelope now bytes rs decompressed is parsed,
      ap some (sym (run_calls-one p.order (chunk envelope.kind rs now) a)),
    )
    radials-IsCall (err e) is parsed =
        ([], bad_radials envelope now bytes e decompressed is parsed, refl)

    ingest_stream-IsCall :
        IsCall p (received envelope now) a (ingest_stream p envelope.kind now a bytes)
    unfolding ingest_stream
    ingest_stream-IsCall =
        let same = kind_eq-start envelope.kind in
        elim (Bool-cases (kind_eq envelope.kind start)) [
          | inl is ↦
              let (m, e) = (parse_streams_total p.floats bytes).1 in
              let (calls, does, result) = metadata-IsCall m (sym same ∙ is) e in
              (calls, does, rw (is, ingest_stream) (rw e result))
          | inr is ↦
              let (r, e) = (parse_streams_total p.floats bytes).0 in
              let (calls, does, result) = radials-IsCall r (sym same ∙ is) e in
              (calls, does, rw (is, ingest_stream) (rw e result))
        ]

  ingest_decompressed-IsCall :
      (r : Result ChunkError Bytes)
      → decompress_chunk p.bz envelope.raw_bytes envelope.kind ≡ some r
      → IsCall p (received envelope now) a (ingest_decompressed p envelope.kind now a r)
  unfolding ingest_decompressed run_calls
  ingest_decompressed-IsCall (ok bytes) decompressed = ingest_stream-IsCall bytes decompressed
  ingest_decompressed-IsCall (err e) failed = ([], not_decompressed envelope now e failed, refl)

  decode_and_ingest-IsCall : IsCall p (received envelope now) a (decode_and_ingest p envelope now a)
  unfolding decode_and_ingest
  decode_and_ingest-IsCall =
      let (result, e) = decompress_chunk_total p.bz envelope.raw_bytes envelope.kind in
      let (calls, does, same) = ingest_decompressed-IsCall result e in
      (calls, does, rw (e, decode_and_ingest) same)

round-IsCall : (p : Platform) (i : Input) (a : VolumeAssembler) → IsCall p i a (round p i a)
unfolding round step
round-IsCall p (received envelope now) a = decode_and_ingest-IsCall p now a envelope
round-IsCall p (ticked now) a =
    (tick now ∷ [], tick_of now, ap some (sym (run_calls-one p.order (tick now) a)))

▹-assoc : (s : Step) (f g : VolumeAssembler → Step) → (s ▹ λ a. f a ▹ g) ≡ (s ▹ f ▹ g)
▹-assoc s f g =
    ap (λ (l : List AssemblyEvent). ((g (f s.0).0).0, l))
      (sym (append_assoc s.1 (f s.0).1 (g (f s.0).0).1))

run_calls-append :
    (order : HashOrder) (cs ds : List Call) (a : VolumeAssembler)
    → run_calls order (cs ++ ds) a ≡ (run_calls order cs a ▹ run_calls order ds)
unfolding run_calls
run_calls-append order [] ds a = refl
run_calls-append order (c ∷ cs) ds a =
    ap (λ (s : Step). (s.0, (step order c a).1 ++ s.1))
      (run_calls-append order cs ds (step order c a).0)
    ∙ ▹-assoc (step order c a) (run_calls order cs) (run_calls order ds)

OneSite-append : (cs ds : List Call) → OneSite cs → OneSite ds → OneSite (cs ++ ds)
OneSite-append [] ds one rest = rest
OneSite-append (start_chunk vcp now ∷ cs) ds one rest = OneSite-append cs ds one rest
OneSite-append (chunk kind rs now ∷ cs) ds one rest = OneSite-append cs ds one rest
OneSite-append (tick now ∷ cs) ds one rest = OneSite-append cs ds one rest
OneSite-append (site_change ∷ cs) ds one rest = absurd one

Does-OneSite : (p : Platform) (i : Input) (cs : List Call) → Does p i cs → OneSite cs
Does-OneSite p _ _ (tick_of now) = tt
Does-OneSite p _ _ (not_decompressed envelope now e failed) = tt
Does-OneSite p _ _ (metadata envelope now bytes m d is parsed) = tt
Does-OneSite p _ _ (bad_metadata envelope now bytes e d is parsed) = tt
Does-OneSite p _ _ (radials envelope now bytes rs d is parsed) = tt
Does-OneSite p _ _ (bad_radials envelope now bytes e d is parsed) = tt

-- No round changes the site.
pub DoesAll-OneSite :
    (p : Platform) (inputs : List Input) (cs : List Call) → DoesAll p inputs cs → OneSite cs
DoesAll-OneSite p _ _ no_more = tt
DoesAll-OneSite p _ _ (and_then_all i inputs cs ds first rest) =
    OneSite-append cs ds (Does-OneSite p i cs first) (DoesAll-OneSite p inputs ds rest)

-- On any chunks and ticks, whatever the bytes, the loop proceeds, and does the calls of the assembler
-- that its inputs decode to, in their order: a tick is one call; a start chunk is one call with the
-- VCP of its stream, without one if the stream does not parse; any other chunk is one call with the
-- radials of its stream, and none if that does not parse; and a chunk that does not decompress is
-- none.
pub run-run_calls :
    (p : Platform) (inputs : List Input) (a : VolumeAssembler)
    → (calls : List Call) × DoesAll p inputs calls
      × (run p inputs a ≡ some (run_calls p.order calls a))
unfolding run run_calls
run-run_calls p [] a = ([], no_more, refl)
run-run_calls p (i ∷ inputs) a =
    let (cs, does, first) = round-IsCall p i a in
    let (ds, does_rest, rest) = run-run_calls p inputs (run_calls p.order cs a).0 in
    (
      cs ++ ds,
      and_then_all i inputs cs ds does does_rest,
      rw (first, run) (rw rest (ap some (sym (run_calls-append p.order cs ds a)))),
    )
