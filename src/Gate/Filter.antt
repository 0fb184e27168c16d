-- ===== src/Gate/Filter.antt =====
-- `request_filter` of lib.rs, composed of its steps.
use object_storage_proxy.Base.{
  ℕ, Bool, true, false, not, ◌&&◌, Option, none, some, [], ◌∷◌, ◌++◌, if◌then◌else◌, unwrap_or,
  Bytes, codes, beq, is_empty, Assoc, lookup, insert,
}
use object_storage_proxy.Base
use object_storage_proxy.External.{Crypto, Calendar, DateTime, Nom, Web}
use object_storage_proxy.Message.{Request, Http}
use object_storage_proxy.Path.{Parsed, ok, err, parse_path}
use object_storage_proxy.Path
use object_storage_proxy.Credentials.{parse_token_from_header}
use object_storage_proxy.Credentials.Params.{parse_presigned_params}
use object_storage_proxy.CosMap.{CosMapItem, Json, ensure_credentials}
use object_storage_proxy.Authorization.{LruCache}
use object_storage_proxy.Signing.Presigned.{UrlText}
use object_storage_proxy.Gate.World.{
  Callback, Settings, failed, panic, next, stop, M, ◌>>=◌, ◌>>◌, pure, refuse,
}
use object_storage_proxy.Gate.Replies.{
  write_error_response_with_header, list_buckets, no_such_bucket,
}
use object_storage_proxy.Gate.Usage.{query_contains, header_text, usage_limit, expects_continue}
use object_storage_proxy.Gate.Keys.{check_signature}
use object_storage_proxy.Gate.Validate.{Instants, ask_validator}

-- What the program takes from other packages, for a whole request.
pub record Packages (C J : Type 0) : Type 0 where
  pub lru : LruCache C
  pub json : Json J
  pub crypto : Crypto
  pub calendar : Calendar
  pub web : Web
  pub nom : Nom
  pub parse_datetime : Bytes → Option DateTime
  pub http : Http
  pub urls : UrlText
  pub decode_segment : Bytes → Option Bytes
  pub percent_decode : Bytes → Bytes

abbrev pub from_option : {C A : Type 0} → Option A → M C A
from_option none = refuse failed
from_option (some a) = pure a

abbrev pub from_parsed : {C A : Type 0} → Parsed A → M C A
from_parsed (ok a) = pure a
from_parsed err = refuse failed
from_parsed Path.panic = refuse panic

-- `get_credential_for_bucket` of credentials/secrets_proxy.rs: the callable is given the token first.
abbrev pub get_credential_for_bucket : (Bytes → Bytes → Option Bytes) → Bytes → Bytes → Option Bytes
get_credential_for_bucket callback bucket token = callback token bucket

module _ {C J : Type 0} (p : Packages C J) (settings : Settings) (now : DateTime) (times : Instants)
    (req : Request) where
  -- A request for the list of buckets is answered here.
  unfoldable pub list_when_root : M C (Unit {0})
  list_when_root w =
      if beq req.uri.path (codes "/") && beq req.method (codes "GET")
      then stop (list_buckets p.http w.ctx.cos_mapping) w
      else next tt w

  abbrev pub enter_bucket : Bytes → M C (Bytes × Option CosMapItem)
  enter_bucket bucket w =
      let config = lookup bucket w.ctx.cos_mapping in
      next (bucket, config)
        (record w {
          ctx = record w.ctx { cached_bucket = some bucket; cached_bucket_config = config };
        })

  -- The bucket of the path, and its configuration; the context keeps both.
  unfoldable pub route : M C (Bytes × Option CosMapItem)
  route = do (bucket, _) ← from_parsed (parse_path p.nom req.uri.path); enter_bucket bucket

  abbrev pub auth_header : Bytes
  auth_header = unwrap_or (header_text p.web (codes "authorization") req) []

  -- The access key of the header or, without one, of the query; it may be empty.
  unfoldable pub access_key_of : Option Bytes
  access_key_of =
      if is_empty auth_header
      then (if query_contains (codes "X-Amz-Credential") req
          then Base.◌>>=◌
              (parse_presigned_params p.nom p.percent_decode
                (codes "?" ++ unwrap_or req.uri.query []))
              (λ (rest, params). some params.access_key)
          else some [])
      else Base.◌>>=◌ (parse_token_from_header p.nom auth_header) (λ (rest, token). some token)

  -- The signature, and then the validator.
  unfoldable pub consult : Callback → Bytes → Option CosMapItem → Bytes → M C Bool
  consult callback bucket config access_key = do
    check_signature p.crypto p.calendar p.web p.nom p.parse_datetime p.http p.urls settings now
        auth_header req access_key
    ask_validator p.lru p.nom p.decode_segment p.web settings times callback
        (unwrap_or (Base.◌>>=◌ config (λ c. c.ttl)) 0) access_key bucket req

  -- Without a validator every request is authorized.
  unfoldable pub is_authorized : Bytes → Option CosMapItem → Bytes → M C Bool
  is_authorized bucket config access_key = elim settings.validator [
    | none ↦ pure true
    | some callback ↦ consult callback bucket config access_key
  ]

  abbrev pub deny_unless : Bytes → Bool → M C (Unit {0})
  deny_unless bucket true = pure tt
  deny_unless bucket false =
      refuse
        (write_error_response_with_header p.http 401 (codes "Access denied for bucket: " ++ bucket))

  abbrev pub fetcher_for : Bytes → Option (Bytes → Option Bytes)
  fetcher_for access_key =
      Base.◌>>=◌ settings.bucket_creds_fetcher
        (λ fetch. some (λ bucket. get_credential_for_bucket fetch bucket access_key))

  -- The bucket's configuration gets its credentials, and is written back.
  unfoldable pub grant : Bytes → Option CosMapItem → Bytes → M C (Unit {0})
  grant bucket none access_key w = stop (no_such_bucket p.http req.method bucket) w
  grant bucket (some config) access_key w =
      elim (ensure_credentials p.json config bucket (fetcher_for access_key)).0 [
        | none ↦ stop failed w
        | some config' ↦ next tt (record w {
          ctx = record w.ctx { cos_mapping = insert bucket config' w.ctx.cos_mapping };
        })
      ]

  -- Everything behind the test of the `expect` header.
  unfoldable pub guarded : M C (Unit {0})
  guarded = do
    list_when_root
    (bucket, config) ← route
    access_key ← from_option access_key_of
    authorized ← is_authorized bucket config access_key
    deny_unless bucket authorized
    grant bucket config access_key

  -- `next` stands for `Ok(false)`: the request goes on to the other handlers.
  unfoldable pub request_filter : M C (Unit {0})
  request_filter = do
    usage_limit settings p.http req
    if expects_continue p.web req then pure tt else guarded
