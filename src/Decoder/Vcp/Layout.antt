-- ===== src/Decoder/Vcp/Layout.antt =====
-- The Message 5 parser against the layout of a record.
use native.Mathlib.Decide.{dec_le, dec_lt}
use radar_workstation.Common.{
  to_option, leb, le→leb, lt→leb, if◌then◌else◌, none, some, refl, ℕ, zero, suc, ◌+◌, ◌-◌, ◌*◌, ◌≤◌,
  ◌<◌, ◌≡◌, refl, sym, ap, ◌∙◌, subst, List, [], ◌∷◌, ◌++◌, append_assoc, append-nil, Bytes, length,
  drop, length-drop, ok, err, arith, le→ltb, lt→ltb,
}
use radar_workstation.Decoder.Cursor.{DecodeError, truncated, new}
use radar_workstation.Decoder.Cursor.Reads.{
  Reads, Reads-pure, Reads-bind, Reads-of_eq, be_at, u8_at, advance,
}
use radar_workstation.Decoder.Float32.{FloatOps}
use radar_workstation.Decoder.Headers.Layout.{Reads-read_vcp_header, cut_at, Reads-read_cut}
use radar_workstation.Decoder.Vcp.{
  VcpElevationCut, VcpDefinition, body_offset, make_cut, read_cuts, read_vcp, parse_vcp,
}

-- An elevation cut by its offsets. The angle is in units of 360 / 65536 degrees.
abbrev pub elevation_cut_at : FloatOps → Bytes → ℕ → VcpElevationCut
elevation_cut_at f bs p = record {
  elevation_deg = f.div (f.mul (f.of_int (be_at 2 bs p)) 0x43b40000) 0x47800000;
  channel_config = u8_at bs (p + 2);
  waveform = u8_at bs (p + 3);
  super_res = u8_at bs (p + 4);
}

make_cut-cut_at :
    (f : FloatOps) (bs : Bytes) (p : ℕ) → make_cut f (cut_at bs p) ≡ elevation_cut_at f bs p
unfolding make_cut
make_cut-cut_at f bs p = refl

-- The elevation cuts from a position on, 46 bytes each.
abbrev pub cuts_at : FloatOps → ℕ → Bytes → ℕ → List VcpElevationCut
cuts_at f zero bs p = []
cuts_at f (suc n) bs p = elevation_cut_at f bs p ∷ cuts_at f n bs (p + 46)

length-cuts_at : (f : FloatOps) (n : ℕ) (bs : Bytes) (p : ℕ) → length (cuts_at f n bs p) ≡ n
length-cuts_at f zero bs p = refl
length-cuts_at f (suc n) bs p = ap suc (length-cuts_at f n bs (p + 46))

Reads-read_cuts :
    (f : FloatOps) (n : ℕ) (acc : List VcpElevationCut)
    → Reads (n * 46) (λ bs p. acc ++ cuts_at f n bs p) (read_cuts f n acc)
unfolding read_cuts
Reads-read_cuts f zero acc = Reads-of_eq (Reads-pure acc) (λ bs p. sym (append-nil acc))
Reads-read_cuts f (suc n) acc =
    let size : 46 + n * 46 ≡ suc n * 46 = omega arith in
    subst (λ k. Reads k (λ bs p. acc ++ cuts_at f (suc n) bs p) (read_cuts f (suc n) acc)) size
      (Reads-of_eq (Reads-bind Reads-read_cut λ w. Reads-read_cuts f n (acc ++ make_cut f w ∷ []))
        (λ bs p.
          append_assoc acc (make_cut f (cut_at bs p) ∷ []) (cuts_at f n bs (p + 46))
          ∙ ap (λ cut. acc ++ cut ∷ cuts_at f n bs (p + 46)) (make_cut-cut_at f bs p)))

-- How many cuts a record announces, and the bytes that it must have for them.
abbrev pub el_cut_count : Bytes → ℕ
el_cut_count bytes = be_at 2 (drop body_offset bytes) 6

abbrev pub vcp_size : Bytes → ℕ
vcp_size bytes = 50 + el_cut_count bytes * 46

abbrev pub vcp_at : FloatOps → Bytes → VcpDefinition
vcp_at f bytes =
    let body = drop body_offset bytes in
    record {
      vcp_number = be_at 2 body 4;
      pattern_type = be_at 2 body 2;
      elevations = cuts_at f (el_cut_count bytes) body 22;
    }

read_vcp-short :
    (f : FloatOps) (body : Bytes)
    → 22 ≤ length body
    → length body < 22 + be_at 2 body 6 * 46
    → (e : DecodeError) × (read_vcp f (new body) ≡ err e)
unfolding read_vcp
read_vcp-short f body fits h =
    let (e, q) = (Reads-read_cuts f (be_at 2 body 6) []).short (advance (new body) 22) fits h in
    (e, rw (Reads-read_vcp_header.room (new body) fits) (rw q))

module _ (f : FloatOps) (bytes : Bytes) where
  parse_vcp-room : vcp_size bytes ≤ length bytes → parse_vcp f bytes ≡ ok (vcp_at f bytes)
  unfolding parse_vcp
  parse_vcp-room h =
      let body = drop body_offset bytes in
      let size : length body ≡ length bytes - 28 = length-drop body_offset bytes in
      rw (le→ltb (length bytes) 50 (omega arith)) (
        rw (Reads-read_vcp_header.room (new body) (omega arith)) (
          rw (
            (Reads-read_cuts f (el_cut_count bytes) []).room (advance (new body) 22)
              (omega arith))))

  parse_vcp-short : length bytes < vcp_size bytes → (e : DecodeError) × (parse_vcp f bytes ≡ err e)
  unfolding parse_vcp
  parse_vcp-short h = elim (dec_lt (length bytes) 50) [
    | yes tiny ↦ (truncated "msg5 header", rw (lt→ltb (length bytes) 50 tiny))
    | no big ↦
        let size : length (drop body_offset bytes) ≡ length bytes - 28 =
          length-drop body_offset bytes in
        let (e, q) = read_vcp-short f (drop body_offset bytes) (omega arith) (omega arith) in
        (e, rw (le→ltb (length bytes) 50 (omega arith)) (rw q))
  ]

-- A Message 5 record is decoded exactly when it holds its header and all the cuts that it
-- announces, and then has as many cuts as it announces, in order, with their fields at their offsets.
pub parse_vcp_lem :
    (f : FloatOps) (bytes : Bytes)
    → (to_option (parse_vcp f bytes)
        ≡ (if leb (vcp_size bytes) (length bytes) then some (vcp_at f bytes) else none))
      × (length (vcp_at f bytes).elevations ≡ el_cut_count bytes)
parse_vcp_lem f bytes = (
  elim (dec_le (vcp_size bytes) (length bytes)) [
    | yes fits ↦
        rw (parse_vcp-room f bytes fits) (rw (le→leb (vcp_size bytes) (length bytes) fits) refl)
    | no over ↦
        let (e, q) = parse_vcp-short f bytes (omega arith) in
        rw q (rw (lt→leb (vcp_size bytes) (length bytes) (omega arith)) refl)
  ],
  length-cuts_at f (el_cut_count bytes) (drop body_offset bytes) 22,
)
