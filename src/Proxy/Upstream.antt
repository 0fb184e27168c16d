-- ===== src/Proxy/Upstream.antt =====
-- Where a request goes: the proxy's configuration and the context of a request (`MyProxy` and
-- `MyCtx` of lib.rs), and `upstream_peer`.
use object_storage_proxy.Base.{
  ℕ, Bool, true, Option, none, some, [], ◌++◌, if◌then◌else◌, ◌>>=◌, unwrap_or, or_else, Bytes,
  codes, beq, Assoc, lookup,
}
use object_storage_proxy.External.{Nom}
use object_storage_proxy.Message.{Request}
use object_storage_proxy.Path.{Parsed, ok, err, panic, parse_path}
use object_storage_proxy.CosMap.{CosMapItem}
use object_storage_proxy.Secrets.{SecretsCache}
use object_storage_proxy.Streaming.State.{StreamingState}

-- What the upstream handlers read of `MyProxy`.
pub record Config : Type 0 where
  pub cos_endpoint : Bytes
  pub verify : Option Bool

-- What they use of `MyCtx`; the mapping and the cache are shared by all requests.
pub record Ctx : Type 0 where
  pub cos_mapping : Assoc CosMapItem
  pub secrets_cache : SecretsCache
  pub is_presigned : Option Bool
  pub stream_state : Option StreamingState
  pub cached_bucket : Option Bytes
  pub cached_bucket_config : Option CosMapItem

-- The context of a new request, over the shared parts.
unfoldable pub new_ctx : Assoc CosMapItem → SecretsCache → Ctx
new_ctx cos_mapping secrets_cache = record {
  cos_mapping = cos_mapping;
  secrets_cache = secrets_cache;
  is_presigned = none;
  stream_state = none;
  cached_bucket = none;
  cached_bucket_config = none;
}

-- `HttpPeer`, with what the handler sets of its options; `verify_hostname` may keep its default.
pub record HttpPeer : Type 0 where
  pub host : Bytes
  pub port : ℕ
  pub tls : Bool
  pub sni : Bytes
  pub max_h2_streams : ℕ
  pub h2_ping_interval : ℕ
  pub verify_cert : Bool
  pub verify_hostname : Option Bool

abbrev pub style_of : Option CosMapItem → Bytes
style_of config = unwrap_or (do c ← config; c.addressing_style) (codes "virtual")

-- The host of a bucket.
abbrev pub endpoint_of : Bytes → Bytes → Option CosMapItem → Bytes
endpoint_of cos_endpoint bucket none = bucket ++ (codes "." ++ cos_endpoint)
endpoint_of cos_endpoint bucket (some config) =
    if beq (style_of (some config)) (codes "path")
    then config.host
    else bucket ++ (codes "." ++ config.host)

-- The bucket that the path names; an error counts as the empty name.
abbrev pub bucket_or_default : Parsed (Bytes × Bytes) → Parsed Bytes
bucket_or_default (ok (bucket, path)) = ok bucket
bucket_or_default err = ok []
bucket_or_default panic = panic

abbrev pub peer_for : Config → Assoc CosMapItem → Option CosMapItem → Bytes → HttpPeer
peer_for proxy cos_mapping cached hdr_bucket =
    let bucket_config = or_else cached (lookup hdr_bucket cos_mapping) in
    let endpoint = endpoint_of proxy.cos_endpoint hdr_bucket bucket_config in
    record {
      host = endpoint;
      port = unwrap_or (do c ← bucket_config; some c.port) 443;
      tls = unwrap_or (do c ← bucket_config; c.tls) true;
      sni = endpoint;
      max_h2_streams = 128;
      h2_ping_interval = 30;
      verify_cert = unwrap_or proxy.verify true;
      verify_hostname = proxy.verify;
    }

abbrev pub peer_at : Config → Ctx → Parsed Bytes → Parsed HttpPeer
peer_at proxy ctx (ok hdr_bucket) =
    ok (peer_for proxy ctx.cos_mapping ctx.cached_bucket_config hdr_bucket)
peer_at proxy ctx err = err
peer_at proxy ctx panic = panic

module _ (nom : Nom) where
  unfoldable pub upstream_peer : Config → Ctx → Request → Parsed HttpPeer
  upstream_peer proxy ctx req = peer_at proxy ctx (elim ctx.cached_bucket [
    | some bucket ↦ ok bucket
    | none ↦ bucket_or_default (parse_path nom req.uri.path)
  ])
