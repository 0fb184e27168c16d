-- ===== src/Streaming/Total.antt =====
-- The loop of `request_body_filter` on any bytes: it ends, and what makes it panic.
use object_storage_proxy.Base.{
  first, ℕ, zero, suc, ◌+◌, ◌^◌, ◌%◌, ◌-◌, ◌≤◌, ◌<◌, ◌≡◌, ◌≢◌, inl, inr, refl, ap, ◌⊎◌,
  if◌then◌else◌, Option, none, some, ◌++◌, arith, ◌>>=◌, Bytes, length, length-append, length-drop,
  Option-cases, until, until_sound, length-starts_with, split, is_utf8, trim,
}
use object_storage_proxy.External.{Crypto, Calendar}
use object_storage_proxy.Streaming.Hex.{usize_mod, from_str_radix_16-lt}
use object_storage_proxy.Streaming.Frame.{crlf, header_size, parse_aws_chunk_header}
use object_storage_proxy.Streaming.State.{StreamingState, sign_chunk}
use object_storage_proxy.Streaming.Filter.{
  stuck, Round, wait, fault, last, payload, take_frame, round, drain,
}

-- What a buffer may hold: Rust bounds an allocation by isize::MAX.
abbrev pub isize_max : ℕ
isize_max = 2 ^ 63 - 1

abbrev hex_size : Bytes → Option Bytes
hex_size line = do header ← if is_utf8 line then some line else none; first (split b';' header)

header_size-lt : (line : Bytes) (n : ℕ) → header_size line ≡ some n → n < usize_mod
unfolding header_size
header_size-lt line n h = elim (Option-cases (hex_size line)) [
  | inl missing ↦ ground arith
  | inr (size, found) ↦ ground (arith, from_str_radix_16-lt (trim size) n)
]

header_bounds :
    (buf : Bytes) (h n : ℕ)
    → parse_aws_chunk_header buf ≡ some (h, n)
    → (2 ≤ h) × (h ≤ length buf) × (n < usize_mod)
unfolding parse_aws_chunk_header
header_bounds buf h n e = elim (Option-cases (until crlf buf)) [
  | inl missing ↦ ground arith
  | inr ((line, from), found) ↦
      let (whole, at_crlf) = until_sound crlf buf line from found in
      ground (
        arith,
        ap length whole,
        length-append {0} line from,
        length-starts_with crlf from at_crlf,
        header_size-lt line n,
      )
]

take_frame_shrinks :
    (s s' : StreamingState) (raw : Bytes) (h n : ℕ)
    → 2 ≤ h
    → h ≤ length s.decode_buf
    → n < usize_mod
    → length s.decode_buf ≤ isize_max
    → take_frame s h n ≡ payload s' raw
    → length s'.decode_buf < length s.decode_buf
unfolding take_frame
take_frame_shrinks s s' raw h n lo hi small fits e =
    ground (arith, length-drop {0} ((h + n + 2) % usize_mod) s.decode_buf)

-- A round that yields a payload has taken bytes off the buffer.
round_shrinks :
    (s s' : StreamingState) (raw : Bytes)
    → length s.decode_buf ≤ isize_max
    → round s ≡ payload s' raw
    → length s'.decode_buf < length s.decode_buf
unfolding round
round_shrinks s s' raw fits e = elim (Option-cases (parse_aws_chunk_header s.decode_buf)) [
  | inl missing ↦ ground arith
  | inr ((h, n), found) ↦
      let (lo, hi, small) = header_bounds s.decode_buf h n found in
      take_frame_shrinks s s' raw h n lo hi small fits (ground arith)
]

Round-cases :
    (r : Round)
    → (r ≡ wait)
      ⊎ (r ≡ fault)
      ⊎ ((s : StreamingState) × (r ≡ last s))
      ⊎ ((s : StreamingState) × (raw : Bytes) × (r ≡ payload s raw))
Round-cases wait = inl refl
Round-cases fault = inr (inl refl)
Round-cases (last s) = inr (inr (inl (s, refl)))
Round-cases (payload s raw) = inr (inr (inr (s, raw, refl)))

-- The fuel that `request_body_filter` gives is enough, whatever bytes the client has sent: the
-- loop ends, by a `break` or a panic.
pub drain-ne-stuck :
    (crypto : Crypto) (calendar : Calendar) (fuel : ℕ) (s : StreamingState) (out : Bytes)
    → length s.decode_buf < fuel
    → length s.decode_buf ≤ isize_max
    → drain crypto calendar fuel s out ≢ stuck
unfolding drain sign_chunk
drain-ne-stuck crypto calendar zero s out l fits = elim l [ ]
drain-ne-stuck crypto calendar (suc fuel) s out l fits = elim (Round-cases (round s)) [
  | inl e ↦ ground arith
  | inr (inl e) ↦ ground arith
  | inr (inr (inl (s', e))) ↦ ground arith
  | inr (inr (inr (s', raw, e))) ↦
      let shrinks = round_shrinks s s' raw fits e in
      let (frame, s'') = sign_chunk crypto calendar s' raw in
      let later =
        drain-ne-stuck crypto calendar fuel s'' (out ++ frame) (omega arith) (omega arith) in
      rw (e, drain) later
]

-- A header that announces a size so near to 2^64 that the sums of lengths wrap around makes the
-- loop index out of its buffer, as soon as one byte of payload has arrived.
pub round_overflow :
    (s : StreamingState) (h n : ℕ)
    → parse_aws_chunk_header s.decode_buf ≡ some (h, n)
    → usize_mod ≤ h + n + 2
    → h < length s.decode_buf
    → length s.decode_buf ≤ isize_max
    → round s ≡ fault
unfolding round take_frame
round_overflow s h n found wraps more fits =
    let (lo, hi, small) = header_bounds s.decode_buf h n found in ground (arith, found)
