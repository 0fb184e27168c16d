-- ===== src/Metrics/Labels.antt =====
-- What the recorded metrics add up to.
use object_storage_proxy.Base.{
  ℕ, ◌+◌, ◌*◌, ◌≡◌, inl, inr, refl, ap, ◌∙◌, Bool, true, false, Option, none, some, List, [], ◌∷◌,
  ◌++◌, if◌then◌else◌, arith, Bytes, beq, split, split-append, split-Lacks, length, length-append,
  ◌>>=◌, Bool-cases,
}
use object_storage_proxy.External.{Nom}
use object_storage_proxy.Path.{ok, parse_path}
use object_storage_proxy.Path.Laws.{parse_path-bucket}
use object_storage_proxy.Signing.Presigned.{Seconds, parse_i64}
use object_storage_proxy.Metrics.Instruments.{Instrument, requests_total, transfer_bytes_total}
use object_storage_proxy.Metrics.Recorded.{
  Recording, add, observe, is_error, record_size, second_or_dash, bucket_label, record_received,
  record_response, record_body,
}

module _ (nom : Nom) where
  -- The bucket that the response's metrics are labelled with, which is cut out of the path again, is
  -- the bucket that `request_filter` has parsed.
  pub bucket_label-parse_path :
      (path bucket rest : Bytes)
      → parse_path nom path ≡ ok (bucket, rest)
      → bucket_label path ≡ bucket
  unfolding bucket_label split
  bucket_label-parse_path path bucket rest h =
      let (some_bucket, clean, shape) = parse_path-bucket nom path bucket rest h in
      elim shape [
        | inl alone ↦
            ap bucket_label alone
            ∙ ap (λ ps. second_or_dash ([] ∷ ps)) (split-Lacks b'/' bucket clean)
        | inr (key, longer) ↦
            ap bucket_label longer
            ∙ ap (λ ps. second_or_dash ([] ∷ ps)) (split-append b'/' bucket key clean)
      ]

-- What is added to a counter, over all labels.
unfoldable pub added : Instrument → List Recording → ℕ
added i [] = 0
added i (add j labels n ∷ rs) = (if beq i.name j.name then n else 0) + added i rs
added i (observe j labels x ∷ rs) = added i rs

added-append :
    (i : Instrument) (rs qs : List Recording) → added i (rs ++ qs) ≡ added i rs + added i qs
unfolding added
added-append i [] qs = omega arith
added-append i (add j labels n ∷ rs) qs = ground (arith, added-append i rs qs)
added-append i (observe j labels x ∷ rs) qs = added-append i rs qs

-- A request that comes without `expect: 100-continue`, that the filter passes on and that the
-- upstream answers. With that header the filter returns before it counts.
pub record Exchange : Type 0 where
  pub method : Bytes
  pub path : Bytes
  pub bucket : Bytes
  pub presigned : Bool
  pub status : ℕ
  pub content_length : Option Bytes

abbrev pub recorded : List Exchange → List Recording
recorded [] = []
recorded (e ∷ es) =
    record_received e.method e.bucket e.presigned
    ++ (record_response e.method e.path e.status e.content_length ++ recorded es)

received_once :
    (method bucket : Bytes) (presigned : Bool)
    → added requests_total (record_received method bucket presigned) ≡ 1
unfolding added record_received
received_once method bucket true = refl
received_once method bucket false = refl

size_none :
    (method bucket : Bytes) (cl : Option Seconds)
    → added requests_total (record_size method bucket cl) ≡ 0
unfolding added
size_none method bucket none = refl
size_none method bucket (some cl) = refl

answered_once :
    (method path : Bytes) (status : ℕ) (content_length : Option Bytes)
    → added requests_total (record_response method path status content_length) ≡ 1
unfolding added record_response
answered_once method path status content_length =
    let none_for_size = size_none method (bucket_label path) (do v ← content_length; parse_i64 v) in
    elim (Bool-cases (is_error status)) [
      | inl fails ↦ ground (arith, fails, none_for_size)
      | inr fine ↦ ground (arith, fine, none_for_size)
    ]

-- Such requests are counted twice: as received, and with the status of the answer.
pub requests_total_twice : (es : List Exchange) → added requests_total (recorded es) ≡ 2 * length es
requests_total_twice [] = unfold added in refl
requests_total_twice (e ∷ es) = omega (
  arith,
  added-append requests_total (record_received e.method e.bucket e.presigned)
      (record_response e.method e.path e.status e.content_length ++ recorded es),
  added-append requests_total (record_response e.method e.path e.status e.content_length)
      (recorded es),
  received_once e.method e.bucket e.presigned,
  answered_once e.method e.path e.status e.content_length,
  requests_total_twice es,
)

-- The chunks of a request's body, as they come.
abbrev pub recorded_body : Bytes → List (Option Bytes) → List Recording
recorded_body path [] = []
recorded_body path (chunk ∷ chunks) = record_body path chunk ++ recorded_body path chunks

abbrev pub received_bytes : List (Option Bytes) → Bytes
received_bytes [] = []
received_bytes (none ∷ chunks) = received_bytes chunks
received_bytes (some payload ∷ chunks) = payload ++ received_bytes chunks

no_chunk : (path : Bytes) → added transfer_bytes_total (record_body path none) ≡ 0
unfolding added record_body
no_chunk path = refl

chunk_length :
    (path : Bytes) (payload : Bytes)
    → added transfer_bytes_total (record_body path (some payload)) ≡ length payload
unfolding added record_body
chunk_length path [] = refl
chunk_length path (c ∷ payload) = omega arith

-- However the body of a request is cut into chunks, the bytes that are counted as received are the
-- length of the whole.
pub transfer_bytes_total-length :
    (path : Bytes) (chunks : List (Option Bytes))
    → added transfer_bytes_total (recorded_body path chunks) ≡ length (received_bytes chunks)
transfer_bytes_total-length path [] = unfold added in refl
transfer_bytes_total-length path (none ∷ chunks) = omega (
  arith,
  added-append transfer_bytes_total (record_body path none) (recorded_body path chunks),
  no_chunk path,
  transfer_bytes_total-length path chunks,
)
transfer_bytes_total-length path (some payload ∷ chunks) = omega (
  arith,
  added-append transfer_bytes_total (record_body path (some payload)) (recorded_body path chunks),
  chunk_length path payload,
  length-append payload (received_bytes chunks),
  transfer_bytes_total-length path chunks,
)
