-- ===== src/Proxy/Rewrite.antt =====
-- What `upstream_request_filter` of lib.rs makes of a request.
use object_storage_proxy.Base.{
  ℕ, Bool, false, Option, none, some, [], ◌++◌, if◌then◌else◌, ◌>>=◌, unwrap_or, Bytes, codes,
  starts_with, second_part, lookup, insert, remove,
}
use object_storage_proxy.External.{Crypto, Calendar, DateTime, Nom, Web}
use object_storage_proxy.Message.{Request, Handled, finished, error, panic, Http, insert_header}
use object_storage_proxy.Path.{Parsed, ok, err, parse_path}
use object_storage_proxy.CosMap.{CosMapItem, has_hmac}
use object_storage_proxy.Secrets.{SecretsCache, IamResponse}
use object_storage_proxy.Secrets
use object_storage_proxy.Signing.Key.{KeyCache, signing_key}
use object_storage_proxy.Signing.Resign.{or_error, sign_request, resign_streaming_request}
use object_storage_proxy.Streaming.State.{StreamingState, empty_sha256}
use object_storage_proxy.Streaming.State
use object_storage_proxy.Proxy.Upstream.{Config, Ctx, style_of}
use object_storage_proxy.Proxy.Target.{
  presigned_target, my_query, this_url, authority_of, to_remove, remove_all,
}

-- The request and the context afterwards, and the cache of signing keys.
pub record Step : Type 0 where
  pub outcome : Handled Request
  pub ctx : Ctx
  pub keys : KeyCache

unfoldable pub is_streaming : Request → Bool
is_streaming req =
    unwrap_or
      (do
        v ← lookup (codes "x-amz-content-sha256") req.headers
        some (starts_with (codes "STREAMING-") v))
      false

-- The headers of a streaming upload before it is signed.
abbrev pub chunked : Request → Request
chunked req = record req {
  headers =
      insert (codes "transfer-encoding") (codes "chunked")
        (remove (codes "content-md5") (remove (codes "content-length") req.headers));
}

module _ (crypto : Crypto) (calendar : Calendar) (web : Web) (http : Http) (nom : Nom)
    (to_text : ℕ → Bytes) where
  -- The request without the client's signature of a presigned URL.
  unfoldable pub unsigned : Ctx → Request → Option Request
  unsigned ctx req =
      let stripped =
        remove (codes "accept-encoding") (remove (codes "authorization") req.headers) in
      let plain = remove (codes "accept-encoding") req.headers in
      if unwrap_or ctx.is_presigned false
      then (do
        u ← http.parse_uri (presigned_target req.uri)
        some (record req { uri = u; headers = stripped }))
      else some (record req { headers = plain })

  -- The request for the upstream's host, with the headers that are passed on.
  unfoldable pub retarget : Bytes → Bytes → Bytes → Option CosMapItem → Request → Handled Request
  retarget cos_endpoint bucket my_updated_url config req =
      let authority = authority_of to_text cos_endpoint bucket config in
      let url = this_url (style_of config) bucket my_updated_url ++ my_query req.uri in
      let headers = insert (codes "host") authority req.headers in
      if http.is_authority authority
      then elim (http.parse_target url) [
        | none ↦ panic
        | some (path, query) ↦ finished (record {
          method = req.method;
          uri = record { origin = codes "https://" ++ authority; path = path; query = query };
          headers = remove_all (to_remove headers) headers;
        })
      ]
      else error

  -- Behind the signature of an upload's header: the state that signs its chunks.
  unfoldable pub start_stream :
      DateTime → Bytes → Bytes → Bytes → Ctx → Handled Request × KeyCache → Step
  start_stream ts region access_key secret_key ctx (finished req, cache) =
      elim (do
        v ← lookup (codes "authorization") req.headers
        text ← web.to_str v
        second_part (codes "Signature=") text) [
          | none ↦ record { outcome = panic; ctx = ctx; keys = cache }
          | some seed_sig ↦
              let (key, cache') =
                signing_key crypto calendar ts secret_key region (codes "s3") cache in
              record {
                outcome = finished req;
                ctx = record ctx {
                  stream_state =
                      some (State.new crypto calendar key region access_key secret_key ts seed_sig);
                };
                keys = cache';
              }
        ]
  start_stream ts region access_key secret_key ctx (error, cache) = record {
    outcome = error;
    ctx = ctx;
    keys = cache;
  }
  start_stream ts region access_key secret_key ctx (panic, cache) = record {
    outcome = panic;
    ctx = ctx;
    keys = cache;
  }

  unfoldable pub with_hmac : DateTime → CosMapItem → Ctx → Request → KeyCache → Step
  with_hmac now cfg ctx req cache =
      let access_key = unwrap_or cfg.access_key [] in
      let secret_key = unwrap_or cfg.secret_key [] in
      let region = unwrap_or cfg.region [] in
      let streamed = start_stream now region access_key secret_key ctx (
        resign_streaming_request crypto calendar web http now region access_key secret_key
          (chunked req) cache) in
      let (outcome, cache') = sign_request crypto calendar web http now cfg req cache in
      let signed : Step = record { outcome = outcome; ctx = ctx; keys = cache' } in
      if is_streaming req then streamed else signed

  -- `get_bearer` is asked through the cache of tokens; `now_secs` is its clock.
  unfoldable pub with_bearer :
      ℕ → Option IamResponse → Bytes → Option CosMapItem → Ctx → Request → KeyCache → Step
  with_bearer now_secs bearer bucket config ctx req cache =
      let got = Secrets.get bucket now_secs bearer ctx.secrets_cache in
      elim (do c ← config; c.api_key) [
        | none ↦ record { outcome = error; ctx = ctx; keys = cache }
        | some api_key ↦ record {
          outcome = or_error (do
            token ← got.token
            insert_header http (codes "authorization") (codes "Bearer " ++ token) req);
          ctx = record ctx { secrets_cache = got.cache };
          keys = cache;
        }
      ]

  unfoldable pub authenticate :
      DateTime
      → ℕ
      → Option IamResponse
      → Bytes
      → Option CosMapItem
      → Ctx
      → Request
      → KeyCache
      → Step
  authenticate now now_secs bearer bucket config ctx req cache =
      let keyed = with_bearer now_secs bearer bucket config ctx req cache in
      elim config [
        | none ↦ keyed
        | some cfg ↦ if has_hmac cfg then with_hmac now cfg ctx req cache else keyed
      ]

  -- Behind the parse of the path.
  unfoldable pub send :
      Config → DateTime → ℕ → Option IamResponse → Bytes → Bytes → Ctx → Request → KeyCache → Step
  send proxy now now_secs bearer bucket my_updated_url ctx req cache =
      let config = lookup bucket ctx.cos_mapping in
      elim (retarget proxy.cos_endpoint bucket my_updated_url config req) [
        | finished req' ↦ authenticate now now_secs bearer bucket config ctx req' cache
        | error ↦ record { outcome = error; ctx = ctx; keys = cache }
        | panic ↦ record { outcome = panic; ctx = ctx; keys = cache }
      ]

  unfoldable pub upstream_request_filter :
      Config → DateTime → ℕ → Option IamResponse → Ctx → Request → KeyCache → Step
  upstream_request_filter proxy now now_secs bearer ctx req cache = elim (unsigned ctx req) [
    | none ↦ record { outcome = error; ctx = ctx; keys = cache }
    | some req' ↦ elim (parse_path nom req'.uri.path) [
      | ok (bucket, url) ↦ send proxy now now_secs bearer bucket url ctx req' cache
      | err ↦ record { outcome = error; ctx = ctx; keys = cache }
      | Parsed.panic ↦ record { outcome = panic; ctx = ctx; keys = cache }
    ]
  ]
