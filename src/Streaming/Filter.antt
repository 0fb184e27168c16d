-- ===== src/Streaming/Filter.antt =====
-- `request_body_filter` of lib.rs: takes the client's chunk framing off and puts the proxy's on.
use object_storage_proxy.Base.{
  ℕ, zero, suc, ◌+◌, ◌-◌, ◌%◌, Bool, true, false, ◌&&◌, not, Option, none, some, [], ◌++◌, ltb, leb,
  ◌==◌, if◌then◌else◌, Bytes, is_empty, length, take, drop,
}
use object_storage_proxy.External.{Crypto, Calendar}
use object_storage_proxy.Streaming.Hex.{usize_mod}
use object_storage_proxy.Streaming.Frame.{parse_aws_chunk_header}
use object_storage_proxy.Streaming.State.{StreamingState, sign_chunk, final_chunk}

-- `stuck` stands for a loop that has used up its fuel, `panic` for an index out of range.
pub data Outcome (A : Type 0) : Type 0 where
  done : A → Outcome A
  panic : Outcome A
  stuck : Outcome A

-- `buf[from..to]`
abbrev pub slice : ℕ → ℕ → Bytes → Option Bytes
slice from to buf =
    if leb from to && leb to (length buf) then some (take (to - from) (drop from buf)) else none

-- What one round of the loop finds in the buffer: not yet a whole frame (`break`), an index out of
-- range, the client's empty last frame (`break`), or a payload; the buffer has moved on behind it.
pub data Round : Type 0 where
  wait : Round
  fault : Round
  last : StreamingState → Round
  payload : StreamingState → Bytes → Round

-- The sums of lengths wrap around, as they do in the release build.
unfoldable pub take_frame : StreamingState → ℕ → ℕ → Round
take_frame s header_len payload_len =
    let total = (header_len + payload_len + 2) % usize_mod in
    let s' = record s { decode_buf = drop total s.decode_buf } in
    if ltb (length s.decode_buf) total
    then wait
    else elim (slice header_len ((header_len + payload_len) % usize_mod) s.decode_buf) [
      | none ↦ fault
      | some raw ↦ if payload_len == 0 then last s' else payload s' raw
    ]

unfoldable pub round : StreamingState → Round
round s = elim (parse_aws_chunk_header s.decode_buf) [
  | none ↦ wait
  | some (header_len, payload_len) ↦ take_frame s header_len payload_len
]

module _ (crypto : Crypto) (calendar : Calendar) where
  -- The `while let` loop: the bytes that have been written, and the state behind them.
  unfoldable pub drain : ℕ → StreamingState → Bytes → Outcome (Bytes × StreamingState)
  drain zero s out = stuck
  drain (suc fuel) s out = elim (round s) [
    | wait ↦ done (out, s)
    | fault ↦ panic
    | last s' ↦ done (out, s')
    | payload s' raw ↦
        let (frame, s'') = sign_chunk crypto calendar s' raw in drain fuel s'' (out ++ frame)
  ]

  -- What is done to the body and to `ctx.stream_state`.
  unfoldable pub finish :
      Bool → Outcome (Bytes × StreamingState) → Outcome (Option Bytes × Option StreamingState)
  finish eos stuck = stuck
  finish eos panic = panic
  finish true (done (out, s)) = done (some (out ++ final_chunk crypto calendar s), none)
  finish false (done (out, s)) = done (some out, some s)

  unfoldable pub request_body_filter :
      Option StreamingState → Option Bytes → Bool → Outcome (Option Bytes × Option StreamingState)
  unfolding finish
  request_body_filter none body end_of_stream = done (body, none)
  request_body_filter (some s) none end_of_stream = done (none, some s)
  request_body_filter (some s) (some chunk) end_of_stream =
      let buf = s.decode_buf ++ chunk in
      if is_empty chunk && not end_of_stream
      then done (none, some s)
      else finish end_of_stream (drain (suc (length buf)) (record s { decode_buf = buf }) [])
