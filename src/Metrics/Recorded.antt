-- ===== src/Metrics/Recorded.antt =====
-- What the handlers of lib.rs record.
use object_storage_proxy.Base.{
  ℕ, ◌-◌, ◌%◌, Bool, ◌&&◌, Option, none, some, List, [], ◌∷◌, ◌++◌, if◌then◌else◌, leb, ◌>>=◌,
  Bytes, codes, is_empty, split, to_text, length, usize_mod,
}
use object_storage_proxy.Signing.Presigned.{Seconds, forward, backward, parse_i64}
use object_storage_proxy.Metrics.Instruments.{
  Instrument, requests_total, request_errors_total, transfer_bytes_total, presigned_url_hits_total,
  presigned_url_rejected_total, response_size_bytes,
}

-- `with_label_values(labels).inc_by(n)`, and `.observe(n)`.
pub data Recording : Type 0 where
  add : Instrument → List Bytes → ℕ → Recording
  observe : Instrument → List Bytes → Seconds → Recording

abbrev pub second_or_dash : List Bytes → Bytes
second_or_dash (first ∷ second ∷ parts) = second
second_or_dash _ = codes "-"

-- path.split('/').nth(1).unwrap_or("-")
unfoldable pub bucket_label : Bytes → Bytes
bucket_label path = second_or_dash (split b'/' path)

-- In `request_filter`, when the limit of a presigned URL is exceeded.
unfoldable pub record_rejected : Bytes → List Recording
record_rejected path = add presigned_url_rejected_total (bucket_label path ∷ []) 1 ∷ []

-- In `request_filter`, behind the parse of the path, which a request with
-- `expect: 100-continue` does not reach.
unfoldable pub record_received : Bytes → Bytes → Bool → List Recording
record_received method bucket is_presigned_url =
    add requests_total (method ∷ bucket ∷ codes "received" ∷ []) 1
    ∷ (if is_presigned_url then add presigned_url_hits_total (bucket ∷ []) 1 ∷ [] else [])

-- `cl as u64`
abbrev pub as_u64 : Seconds → ℕ
as_u64 (forward n) = n
as_u64 (backward n) = (usize_mod - n) % usize_mod

-- A status of 400 to 599.
abbrev pub is_error : ℕ → Bool
is_error status = leb 400 status && leb status 599

abbrev pub record_size : Bytes → Bytes → Option Seconds → List Recording
record_size method bucket none = []
record_size method bucket (some cl) =
    add transfer_bytes_total (codes "tx" ∷ bucket ∷ []) (as_u64 cl)
    ∷ observe response_size_bytes (method ∷ bucket ∷ []) cl
    ∷ []

-- In `response_filter`; the length is the text of the response's header.
unfoldable pub record_response : Bytes → Bytes → ℕ → Option Bytes → List Recording
record_response method path status content_length =
    let bucket = bucket_label path in
    add requests_total (method ∷ bucket ∷ to_text status ∷ []) 1
    ∷ ((if is_error status
          then add request_errors_total (method ∷ bucket ∷ to_text status ∷ []) 1 ∷ []
          else [])
        ++ record_size method bucket (do v ← content_length; parse_i64 v))

-- At the start of `request_body_filter`.
unfoldable pub record_body : Bytes → Option Bytes → List Recording
record_body path none = []
record_body path (some payload) =
    if is_empty payload
    then []
    else add transfer_bytes_total (codes "rx" ∷ bucket_label path ∷ []) (length payload) ∷ []
