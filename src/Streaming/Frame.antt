-- ===== src/Streaming/Frame.antt =====
-- aws-chunked frames: `parse_aws_chunk_header` and `build_chunk_frame` of credentials/signer.rs.
use object_storage_proxy.Base.{
  ℕ, ◌+◌, Option, none, some, [], ◌∷◌, ◌++◌, if◌then◌else◌, ◌>>=◌, Bytes, codes, length, first,
  until, split, is_utf8, trim,
}
use object_storage_proxy.Streaming.Hex.{lower_hex, from_str_radix_16}

abbrev pub crlf : Bytes
crlf = 13 ∷ 10 ∷ []

-- The size that stands in a header line before `;`.
unfoldable pub header_size : Bytes → Option ℕ
header_size line = do
  header ← if is_utf8 line then some line else none
  hex_size ← first (split b';' header)
  from_str_radix_16 (trim hex_size)

-- The header line goes up to the first CRLF.
unfoldable pub parse_aws_chunk_header : Bytes → Option (ℕ × ℕ)
parse_aws_chunk_header buf = do
  (line, _) ← until crlf buf
  payload_len ← header_size line
  some (length line + 2, payload_len)

-- `write!("{:x};chunk-signature={}\r\n")`
abbrev pub chunk_line : ℕ → Bytes → Bytes
chunk_line len sig = lower_hex len ++ ((b';' ∷ codes "chunk-signature=") ++ sig)

unfoldable pub build_chunk_frame : Bytes → Bytes → Bytes
build_chunk_frame payload sig = chunk_line (length payload) sig ++ (crlf ++ (payload ++ crlf))
