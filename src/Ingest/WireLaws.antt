-- ===== src/Ingest/WireLaws.antt =====
-- readFrame of internal/ingest/gateway.go: the boundaries of the frames in a stream.
use utaki_tick_data_platform.Common.{
  ℕ, ◌≤◌, ◌≡◌, refl, sym, ap, ◌∙◌, subst, true, ok, require_holds, >>-eq-ok, >>=-eq-ok, >>=_of_ok,
  map_err, map_err-eq-ok, Bytes, ◌++◌, le_value, bytes_eq, eq→bytes_eq, length, length-append,
  length-take, take, drop, slice, slice-take, take-append_length, drop-append, take-append-drop,
  arith,
}
use utaki_tick_data_platform.Protocol.{Frame, ErrorCode, magic, header_length}
use utaki_tick_data_platform.Protocol.Framing.{decode_frame}
use utaki_tick_data_platform.Protocol.FramingLaws.{Accepted-decode_frame}
use utaki_tick_data_platform.Ingest.Wire.{read_frame}

slice_front :
    (a b : ℕ) (raw rest : Bytes) → b ≤ length raw → slice a b (raw ++ rest) ≡ slice a b raw
slice_front a b raw rest h =
    sym (slice-take a b (length raw) (raw ++ rest) h)
    ∙ ap (slice a b) (take-append_length (length raw) raw rest refl)

-- A frame that DecodeFrame accepts and that is within the limit is read from the front of what a
-- connection delivers, and the bytes behind it are left, whatever they are.
pub read_frame-append :
    (limit : ℕ) (raw rest : Bytes) (frame : Frame)
    → decode_frame raw ≡ ok frame
    → length raw ≤ limit
    → read_frame limit (raw ++ rest) ≡ ok (raw, rest)
unfolding read_frame
read_frame-append limit raw rest frame h fits =
    let a = Accepted-decode_frame raw frame h in
    let long = length-append raw rest in
    let own : le_value (slice 8 12 (raw ++ rest)) ≡ length raw =
      ap le_value (slice_front 8 12 raw rest (omega (arith, a.at_least))) ∙ a.own_length in
    let named : bytes_eq (slice 0 4 (raw ++ rest)) magic ≡ true =
      eq→bytes_eq _ _ (slice_front 0 4 raw rest (omega (arith, a.at_least)) ∙ a.own_magic) in
    let header : le_value (slice 12 16 (raw ++ rest)) ≡ header_length =
      ap le_value (slice_front 12 16 raw rest (omega (arith, a.at_least))) ∙ a.own_header in
    let taken : take (le_value (slice 8 12 (raw ++ rest))) (raw ++ rest) ≡ raw =
      ap (λ (n : ℕ). take n (raw ++ rest)) own ∙ take-append_length (length raw) raw rest refl in
    let dropped : drop (le_value (slice 8 12 (raw ++ rest))) (raw ++ rest) ≡ rest =
      ap (λ (n : ℕ). drop n (raw ++ rest)) own ∙ drop-append (length raw) raw rest refl in
    require_holds _ _ _ (ground (arith, a.at_least, long))
    ∙ require_holds _ _ _ (ground (arith, own, a.at_least))
    ∙ require_holds _ _ _ (ground (arith, own, a.at_most, fits))
    ∙ require_holds _ _ _ named
    ∙ require_holds _ _ _ (ground (arith, header))
    ∙ require_holds _ _ _ (ground (arith, own, long))
    ∙ >>=_of_ok _ (ap (map_err (λ (e : ErrorCode). (true, e))) (ap decode_frame taken ∙ h))
    ∙ (λ i. ok (taken i, dropped i))

-- What readFrame returns is a frame that DecodeFrame accepts, within the limit, and with the bytes that
-- are left it is what the connection delivered.
pub read_frame_exact :
    (limit : ℕ) (input raw rest : Bytes)
    → read_frame limit input ≡ ok (raw, rest)
    → (frame : Frame) × (decode_frame raw ≡ ok frame) × (raw ++ rest ≡ input) × (length raw ≤ limit)
unfolding read_frame
read_frame_exact limit input raw rest h =
    let n = le_value (slice 8 12 input) in
    let (header, h1) = >>-eq-ok _ _ _ h in
    let (least, h2) = >>-eq-ok _ _ _ h1 in
    let (most, h3) = >>-eq-ok _ _ _ h2 in
    let (named, h4) = >>-eq-ok _ _ _ h3 in
    let (sixteen, h5) = >>-eq-ok _ _ _ h4 in
    let (whole, h6) = >>-eq-ok _ _ _ h5 in
    let (frame, decoded, h7) =
      >>=-eq-ok (map_err (λ (e : ErrorCode). (true, e)) (decode_frame (take n input))) _ h6 in
    let small : n ≤ limit = ground (arith, most) in
    let taken : take n input ≡ raw = cc in
    let dropped : drop n input ≡ rest = cc in
    (
      frame,
      sym (ap decode_frame taken) ∙ map_err-eq-ok _ _ _ decoded,
      sym (λ i. taken i ++ dropped i) ∙ take-append-drop n input,
      subst (λ (r : Bytes). length r ≤ limit) taken (omega (arith, length-take n input, small)),
    )
