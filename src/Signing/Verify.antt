-- ===== src/Signing/Verify.antt =====
-- Checks of a client's signature: `signature_is_valid_core` and `signature_is_valid_for_request`.
pub mod Correct
use object_storage_proxy.Base.{
  Bool, true, false, Option, none, some, List, [], ◌∷◌, ◌++◌, if◌then◌else◌, ◌>>=◌, unwrap_or,
  Bytes, codes, beq, is_empty, first, second_part, starts_with, split, lookup,
}
use object_storage_proxy.External.{Crypto, Calendar, DateTime, Nom, Web}
use object_storage_proxy.Message.{Uri, uri_text, Request}
use object_storage_proxy.Signing.Key.{KeyCache}
use object_storage_proxy.Signing.AwsSign.{AwsSign, Headers, new, set_payload_override, sign}
use object_storage_proxy.Credentials.{parse_token_from_header, parse_credential_scope}

-- What a check ends with: an answer, an error, or the panic on an invalid URL.
pub data Checked : Type 0 where
  answered : Bool → Checked
  error : Checked
  panic : Checked

abbrev pub overridden : Option Bytes → AwsSign → AwsSign
overridden none s = s
overridden (some h) s = set_payload_override s h

-- What the headers of a request say of its signature.
pub record Claimed : Type 0 where
  pub signature : Bytes
  pub region : Bytes
  pub service : Bytes
  pub datetime : DateTime
  pub url : Bytes
  pub signed_headers : List Bytes
  pub body : Bytes
  pub payload_override : Option Bytes

-- The bytes that stand for the body, and the line that replaces its digest.
unfoldable pub payload_of : Bytes → Bytes × Option Bytes
payload_of content_sha256 =
    if beq content_sha256 (codes "UNSIGNED-PAYLOAD")
    then (codes "UNSIGNED-PAYLOAD", none)
    else if beq content_sha256 (codes "STREAMING-AWS4-HMAC-SHA256-PAYLOAD")
    then (
      codes "STREAMING-AWS4-HMAC-SHA256-PAYLOAD",
      some (codes "STREAMING-AWS4-HMAC-SHA256-PAYLOAD"),
    )
    else ([], some content_sha256)

-- A URI that begins with its path is put behind the `host` header.
unfoldable pub full_url : Web → Request → Option Bytes
full_url web req =
    let original = uri_text req.uri in
    if starts_with (codes "/") original
    then (do
      value ← lookup (codes "host") req.headers
      host ← web.to_str value
      some (codes "https://" ++ (host ++ original)))
    else some original

-- `NaiveDateTime::parse_from_str(_, LONG_DATETIME)` of `chrono` is an argument.
module _ (crypto : Crypto) (calendar : Calendar) (web : Web) (nom : Nom)
    (parse_datetime : Bytes → Option DateTime) where
  unfoldable pub signature_is_valid_core :
      Bytes → Claimed → Headers → Bytes → Bytes → KeyCache → Checked × KeyCache
  signature_is_valid_core method c headers access_key secret_key cache =
      elim (new web method c.url c.datetime headers c.region access_key secret_key c.service c.body
        (some c.signed_headers)) [
          | none ↦ (panic, cache)
          | some s ↦
              let (header, cache') = sign crypto calendar (overridden c.payload_override s) cache in
              let computed = unwrap_or (second_part (codes "Signature=") header) [] in
              (answered (beq computed c.signature), cache')
        ]

  -- Each of its steps may fail, with an error.
  unfoldable pub claimed : Bytes → Request → Option Claimed
  claimed auth_header req = do
    signature ← second_part (codes "Signature=") auth_header
    (_, (region, service)) ← parse_credential_scope nom auth_header
    date_value ← lookup (codes "x-amz-date") req.headers
    date_text ← web.to_str date_value
    datetime ← parse_datetime date_text
    content_value ← lookup (codes "x-amz-content-sha256") req.headers
    content_sha256 ← web.to_str content_value
    url ← full_url web req
    signed_part ← second_part (codes "SignedHeaders=") auth_header
    signed_text ← first (split b',' signed_part)
    let (body, payload_override) = payload_of content_sha256
    some (record {
      signature = signature;
      region = region;
      service = service;
      datetime = datetime;
      url = url;
      signed_headers = split b';' signed_text;
      body = body;
      payload_override = payload_override;
    })

  unfoldable pub signature_is_valid_for_request :
      Bytes → Request → Bytes → KeyCache → Checked × KeyCache
  signature_is_valid_for_request auth_header req secret_key cache =
      elim (parse_token_from_header nom auth_header) [
        | none ↦ (error, cache)
        | some (_, access_key) ↦
            if is_empty access_key
            then (answered false, cache)
            else elim (claimed auth_header req) [
              | none ↦ (error, cache)
              | some c ↦
                  signature_is_valid_core req.method c req.headers access_key secret_key cache
            ]
      ]
