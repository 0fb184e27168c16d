-- ===== src/Signing/Resign.antt =====
-- Requests signed for the upstream: `sign_request` and `resign_streaming_request`.
pub mod Keys
use object_storage_proxy.Base.{
  ◌||◌, Option, none, some, [], if◌then◌else◌, ◌>>=◌, Bytes, codes, beq, lookup, insert, remove,
}
use object_storage_proxy.External.{Crypto, Calendar, DateTime, Web}
use object_storage_proxy.Message.{
  uri_text, Request, Handled, finished, error, panic, Http, insert_header,
}
use object_storage_proxy.CosMap.{CosMapItem}
use object_storage_proxy.Signing.Key.{KeyCache}
use object_storage_proxy.Signing.AwsSign.{AwsSign, new, set_payload_override, sign}
use object_storage_proxy.Streaming.State.{empty_sha256}

-- The client's own hash, or the one for the method.
unfoldable pub payload_hash : Bytes → Option Bytes → Bytes
payload_hash method (some h) = h
payload_hash method none =
    if beq method (codes "GET") || (beq method (codes "HEAD") || beq method (codes "DELETE"))
    then empty_sha256
    else codes "UNSIGNED-PAYLOAD"

unfoldable pub body_bytes : Bytes → Bytes
body_bytes hash =
    if beq hash (codes "UNSIGNED-PAYLOAD")
      || (beq hash (codes "STREAMING-UNSIGNED-PAYLOAD-TRAILER")
          || beq hash (codes "STREAMING-AWS4-HMAC-SHA256-PAYLOAD"))
    then hash
    else []

abbrev pub or_error : Option Request → Handled Request
or_error none = error
or_error (some req) = finished req

-- Region, access key and secret key, all of which a signature needs.
unfoldable pub keys_of : CosMapItem → Option (Bytes × Bytes × Bytes)
keys_of cos_map = do
  region ← cos_map.region
  access_key ← cos_map.access_key
  secret_key ← cos_map.secret_key
  some (region, access_key, secret_key)

module _ (crypto : Crypto) (calendar : Calendar) (web : Web) (http : Http) where
  -- The signer of a request that has its other headers.
  unfoldable pub signer_of : DateTime → Bytes → Bytes → Bytes → Bytes → Request → Option AwsSign
  signer_of now region access_key secret_key body req =
      new web req.method (uri_text req.uri) now req.headers region access_key secret_key
        (codes "s3") body none

  -- `insert_header("Authorization", sign())`, behind a signer that may not have been built.
  unfoldable pub authorize : Option AwsSign → Request → KeyCache → Handled Request × KeyCache
  authorize none req cache = (panic, cache)
  authorize (some s) req cache =
      let (signature, cache') = sign crypto calendar s cache in
      (or_error (insert_header http (codes "authorization") signature req), cache')

  -- The headers that are set before a request is signed, and its payload hash.
  unfoldable pub dated : DateTime → Request → Bytes × Request
  dated now req =
      let headers =
        insert (codes "x-amz-date") (calendar.long_datetime now)
          (remove (codes "authorization") req.headers) in
      let hash =
        payload_hash req.method
          (do v ← lookup (codes "x-amz-content-sha256") headers; web.to_str v) in
      (hash, record req { headers = insert (codes "x-amz-content-sha256") hash headers })

  unfoldable pub sign_request :
      DateTime → CosMapItem → Request → KeyCache → Handled Request × KeyCache
  sign_request now cos_map req cache = elim (keys_of cos_map) [
    | none ↦ (error, cache)
    | some (region, access_key, secret_key) ↦
        let (hash, req') = dated now req in
        authorize
          (do
            s ← signer_of now region access_key secret_key (body_bytes hash) req'
            some (set_payload_override s hash))
          req' cache
  ]

  unfoldable pub resign_streaming_request :
      DateTime → Bytes → Bytes → Bytes → Request → KeyCache → Handled Request × KeyCache
  resign_streaming_request ts region access_key secret_key req cache =
      let req' = record req {
        headers = insert (codes "x-amz-date") (calendar.long_datetime ts) req.headers;
      } in
      authorize
        (signer_of ts region access_key secret_key (codes "STREAMING-AWS4-HMAC-SHA256-PAYLOAD")
          req')
        req' cache
