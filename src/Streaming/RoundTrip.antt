-- ===== src/Streaming/RoundTrip.antt =====
-- A frame that is well formed is read back, wherever it stands in front of other bytes, and what
-- has been read of a header does not change when more bytes arrive.
use object_storage_proxy.Base.{
  ℕ, ◌+◌, ◌<◌, ◌≡◌, ◌≢◌, some, [], ◌∷◌, ◌++◌, append_assoc, arith, Bytes, codes, length,
  length-append, inl, inr, Option-cases, All, All-imp, All-append, Lacks, until, until-append,
  until_extend, split-append, is_utf8_ascii, IsGraphic, trim_graphic,
}
use object_storage_proxy.Streaming.Hex.{
  usize_mod, lower_hex, IsHexDigit, lower_hex-IsHexDigit, from_str_radix_16-lower_hex,
}
use object_storage_proxy.Streaming.Frame.{
  crlf, header_size, parse_aws_chunk_header, chunk_line, build_chunk_frame,
}

-- A frame on the wire: its header line, and its payload.
pub record Frame : Type 0 where
  pub line : Bytes
  pub payload : Bytes

abbrev pub encode : Frame → Bytes
encode f = f.line ++ (crlf ++ (f.payload ++ crlf))

-- The line has no CR, and gives the size of the payload; the frame's length is a usize.
pub record IsFrame (f : Frame) : Type 0 where
  pub one_line : Lacks 13 f.line
  pub sized : header_size f.line ≡ some (length f.payload)
  pub fits : length (encode f) < usize_mod

pub parse-encode :
    (f : Frame) (rest : Bytes)
    → IsFrame f
    → parse_aws_chunk_header (encode f ++ rest) ≡ some (length f.line + 2, length f.payload)
unfolding parse_aws_chunk_header
parse-encode f rest h = rw (append_assoc f.line (crlf ++ (f.payload ++ crlf)) rest) (
    ground
      (arith, until-append 13 (10 ∷ []) f.line ((f.payload ++ crlf) ++ rest), h.one_line, h.sized))

pub parse-append :
    (p q : Bytes) (h n : ℕ)
    → parse_aws_chunk_header p ≡ some (h, n)
    → parse_aws_chunk_header (p ++ q) ≡ some (h, n)
unfolding parse_aws_chunk_header
parse-append p q h n e = elim (Option-cases (until crlf p)) [
  | inl missing ↦ ground arith
  | inr ((before, from), found) ↦ ground (arith, until_extend crlf p q before from found)
]

abbrev pub frame_of : Bytes → Bytes → Frame
frame_of payload sig = record { line = chunk_line (length payload) sig; payload = payload }

graphic-IsAscii : (c : ℕ) → IsGraphic c → c < 128
graphic-IsAscii c h = h.1

graphic-ne_cr : (c : ℕ) → IsGraphic c → c ≢ 13
graphic-ne_cr c h = omega arith

hex-IsGraphic : (c : ℕ) → IsHexDigit c → IsGraphic c
hex-IsGraphic c h = ground arith

line-IsGraphic :
    (payload sig : Bytes) → All IsGraphic sig → All IsGraphic (frame_of payload sig).line
line-IsGraphic payload sig h =
    All-append IsGraphic (lower_hex (length payload)) _
      (All-imp hex-IsGraphic _ (lower_hex-IsHexDigit (length payload)))
      (All-append IsGraphic (codes ";chunk-signature=") sig (omega arith) h)

hex-Lacks : (c : ℕ) → IsHexDigit c → c ≢ b';'
hex-Lacks c h = ground arith

header_size_line :
    (payload sig : Bytes)
    → All IsGraphic sig
    → length payload < usize_mod
    → header_size (frame_of payload sig).line ≡ some (length payload)
unfolding header_size
header_size_line payload sig h l =
    let n = length payload in
    let digits = lower_hex-IsHexDigit n in
    let line = frame_of payload sig in
    rw (is_utf8_ascii line.line (All-imp graphic-IsAscii line.line (line-IsGraphic payload sig h)))
      (rw (split-append b';' (lower_hex n) _ (All-imp hex-Lacks _ digits)) (
        rw (trim_graphic (lower_hex n) (All-imp hex-IsGraphic _ digits))
          (from_str_radix_16-lower_hex n l)))

length-frame : (f : Frame) → length f.payload < length (encode f)
length-frame f = omega (
  arith,
  length-append {0} f.line (crlf ++ (f.payload ++ crlf)),
  length-append {0} f.payload crlf,
)

-- The frames that the proxy builds are well formed.
pub frame_of-IsFrame :
    (payload sig : Bytes)
    → All IsGraphic sig
    → length (encode (frame_of payload sig)) < usize_mod
    → IsFrame (frame_of payload sig)
frame_of-IsFrame payload sig h l = record {
  one_line = All-imp (λ c g. graphic-ne_cr c g) _ (line-IsGraphic payload sig h);
  sized = header_size_line payload sig h (omega (arith, length-frame (frame_of payload sig)));
  fits = l;
}

-- The header of a frame that `build_chunk_frame` has written is read back, whatever bytes follow:
-- the length of the line with its CRLF, and the length of the payload. The signature is printing
-- ASCII, and the frame's length a usize.
pub parse-build :
    (payload sig rest : Bytes)
    → All IsGraphic sig
    → length (build_chunk_frame payload sig) < usize_mod
    → parse_aws_chunk_header (build_chunk_frame payload sig ++ rest)
      ≡ some (length (chunk_line (length payload) sig) + 2, length payload)
unfolding build_chunk_frame
parse-build payload sig rest h l =
    parse-encode (frame_of payload sig) rest (frame_of-IsFrame payload sig h l)
