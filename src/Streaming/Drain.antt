-- ===== src/Streaming/Drain.antt =====
-- One call of the loop of `request_body_filter` on the bytes that have arrived so far.
use object_storage_proxy.Base.{
  ℕ, ◌+◌, ◌-◌, ◌%◌, ◌≤◌, ◌<◌, ◌≡◌, inl, inr, refl, sym, ap, ◌∙◌, false, some, List, [], ◌∷◌, ◌++◌,
  append_assoc, arith, ltb, ◌==◌, if◌then◌else◌, Bytes, length, length-append, take, drop,
  take-append_length, drop-append_length, Option-cases,
}
use object_storage_proxy.Streaming.Hex.{usize_mod}
use object_storage_proxy.Streaming.Frame.{crlf, parse_aws_chunk_header}
use object_storage_proxy.Streaming.State.{StreamingState}
use object_storage_proxy.Streaming.Filter.{slice, wait, last, payload, take_frame, round}
use object_storage_proxy.Streaming.RoundTrip.{Frame, encode, IsFrame, parse-encode, parse-append}

-- The frames of a whole upload: what is empty is the last.
abbrev pub IsUpload : List Frame → Type 0
IsUpload [] = Unit
IsUpload (f ∷ fs) = IsFrame f × (f.payload ≡ [] → fs ≡ []) × IsUpload fs

abbrev pub wire : List Frame → Bytes
wire [] = []
wire (f ∷ fs) = encode f ++ wire fs

drop_at : (a r : Bytes) (n : ℕ) → n ≡ length a → drop n (a ++ r) ≡ r
drop_at a r n e = rw e (drop-append_length a r)

take_at : (a r : Bytes) (n : ℕ) → n ≡ length a → take n (a ++ r) ≡ a
take_at a r n e = rw e (take-append_length a r)

slice_at :
    (a p r : Bytes) (n m : ℕ) → n ≡ length a → m ≡ n + length p → slice n m (a ++ (p ++ r)) ≡ some p
slice_at a p r n m e g =
    let le : m ≤ length (a ++ (p ++ r)) =
      omega (arith, length-append {0} a (p ++ r), length-append {0} p r) in
    ground (arith, drop_at a (p ++ r) n e, take_at p r (m - n))

length-encode : (f : Frame) → length (encode f) ≡ length f.line + 2 + length f.payload + 2
length-encode f = omega (
  arith,
  length-append {0} f.line (crlf ++ (f.payload ++ crlf)),
  length-append {0} f.payload crlf,
)

slice-encode :
    (f : Frame) (rest : Bytes)
    → slice (length f.line + 2) (length f.line + 2 + length f.payload) (encode f ++ rest)
      ≡ some f.payload
slice-encode f rest =
    ap (slice (length f.line + 2) (length f.line + 2 + length f.payload)) (simp append_assoc)
    ∙ slice_at (f.line ++ crlf) f.payload (crlf ++ rest) _ _
        (omega (arith, length-append {0} f.line crlf)) refl

drop-encode :
    (f : Frame) (rest : Bytes)
    → drop (length f.line + 2 + length f.payload + 2) (encode f ++ rest) ≡ rest
drop-encode f rest = drop_at (encode f) rest _ (sym (length-encode f))

-- A header whose frame is not complete makes the loop wait.
pub round_wait :
    (s : StreamingState) (q r : Bytes) (f : Frame)
    → IsFrame f
    → s.decode_buf ++ q ≡ encode f ++ r
    → length s.decode_buf < length (encode f)
    → round s ≡ wait
unfolding round take_frame
round_wait s q r f h e l = elim (Option-cases (parse_aws_chunk_header s.decode_buf)) [
  | inl missing ↦ ground arith
  | inr ((header_len, payload_len), found) ↦ ground (
    arith,
    parse-append s.decode_buf q header_len payload_len found,
    parse-encode f r h,
    ap parse_aws_chunk_header e,
    length-encode f,
    h.fits,
  )
]

take_frame_lem :
    (s : StreamingState) (n m : ℕ) (raw left : Bytes)
    → n + m + 2 < usize_mod
    → n + m + 2 ≤ length s.decode_buf
    → slice n (n + m) s.decode_buf ≡ some raw
    → drop (n + m + 2) s.decode_buf ≡ left
    → take_frame s n m ≡ (
        if m == 0
        then last (record s { decode_buf = left })
        else payload (record s { decode_buf = left }) raw)
unfolding take_frame
take_frame_lem s n m raw left small enough sliced dropped =
    let total : (n + m + 2) % usize_mod ≡ n + m + 2 = omega arith in
    let end : (n + m) % usize_mod ≡ n + m = omega arith in
    let have : ltb (length s.decode_buf) (n + m + 2) ≡ false = ground arith in
    rw (total, end, have, sliced, total, dropped)

-- A complete frame is found whole.
pub round_complete :
    (s : StreamingState) (left : Bytes) (f : Frame)
    → IsFrame f
    → s.decode_buf ≡ encode f ++ left
    → round s ≡ (
        if length f.payload == 0
        then last (record s { decode_buf = left })
        else payload (record s { decode_buf = left }) f.payload)
unfolding round
round_complete s left f h e =
    let n = length f.line + 2 in
    let m = length f.payload in
    rw (ap parse_aws_chunk_header e ∙ parse-encode f left h, round)
      (take_frame_lem s n m f.payload left (omega (arith, length-encode f, h.fits))
        (omega (arith, ap length e, length-append {0} (encode f) left, length-encode f))
        (ap (slice n (n + m)) e ∙ slice-encode f left)
        (ap (drop (n + m + 2)) e ∙ drop-encode f left))
