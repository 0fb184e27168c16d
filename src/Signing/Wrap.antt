-- ===== src/Signing/Wrap.antt =====
-- `wrap_streaming_body` of credentials/signer.rs, which the handlers do not use.
use object_storage_proxy.Base.{
  Bool, Option, none, some, ◌>>=◌, Bytes, codes, length, to_text, insert, remove,
}
use object_storage_proxy.External.{Crypto, Calendar, DateTime, Web}
use object_storage_proxy.Message.{Request, Handled, finished, error, panic, Http}
use object_storage_proxy.Signing.Key.{KeyCache}
use object_storage_proxy.Signing.Resign.{signer_of, authorize}
use object_storage_proxy.Gate.World.{Write, response_body}

-- The signed request, and what is written to the client.
abbrev pub Wrapped : Type 0
Wrapped = Handled (Request × Write)

module _ (crypto : Crypto) (calendar : Calendar) (web : Web) (http : Http) where
  -- The request with the headers of an unsigned payload of this length.
  abbrev pub unsigned_payload : DateTime → Bytes → Request → Request
  unsigned_payload ts body req = record req {
    headers = insert (codes "x-amz-date") (calendar.long_datetime ts) (
        insert (codes "content-length") (to_text (length body)) (
          remove (codes "x-amz-decoded-content-length")
            (insert (codes "x-amz-content-sha256") (codes "UNSIGNED-PAYLOAD") req.headers)));
  }

  abbrev pub with_body : Bytes → Bool → Handled Request → Wrapped
  with_body body end_of_stream (finished req) = finished (req, response_body body end_of_stream)
  with_body body end_of_stream error = error
  with_body body end_of_stream panic = panic

  -- `read` is what `read_request_body` gives: `none` if it fails, and `some none` without a body.
  unfoldable pub wrap_streaming_body :
      DateTime
      → Option (Option Bytes)
      → Bool
      → Bytes
      → Bytes
      → Bytes
      → Request
      → KeyCache
      → Wrapped × KeyCache
  wrap_streaming_body ts read end_of_stream region access_key secret_key req cache =
      elim (do body ← read; body) [
        | none ↦ (error, cache)
        | some body ↦
            let req' = unsigned_payload ts body req in
            let (outcome, cache') =
              authorize crypto calendar web http
                (signer_of crypto calendar web http ts region access_key secret_key
                  (codes "UNSIGNED-PAYLOAD") req')
                req' cache in
            (with_body body end_of_stream outcome, cache')
      ]
