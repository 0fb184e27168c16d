-- ===== src/Proxy/Authenticated.antt =====
-- How the requests for the upstream are authenticated.
use object_storage_proxy.Base.{
  if◌then◌else◌, ℕ, ◌≡◌, ◌≢◌, ◌⊎◌, refl, true, Option, none, some, ◌++◌, arith, ◌>>=◌, Bytes, codes,
  lookup, Option-cases, Bool-cases, inl, inr,
}
use object_storage_proxy.External.{Crypto, Calendar, DateTime, Nom, Web}
use object_storage_proxy.Message.{Request, Handled, finished, error, panic, Http}
use object_storage_proxy.Path.{Parsed, ok, err, parse_path}
use object_storage_proxy.Path
use object_storage_proxy.CosMap.{CosMapItem, has_hmac}
use object_storage_proxy.Secrets.{IamResponse}
use object_storage_proxy.Secrets
use object_storage_proxy.Signing.Key.{KeyCache}
use object_storage_proxy.Signing.Resign.Keys.{
  insert_header-finished, SignedFor, HasPlainRegion, resigned, signed,
}
use object_storage_proxy.Signing.Key.Cache.{IsValid}
use object_storage_proxy.Proxy.Upstream.{Config, Ctx}
use object_storage_proxy.Proxy.Rewrite.{
  is_streaming, chunked, unsigned, retarget, start_stream, with_hmac, with_bearer, authenticate,
  send, upstream_request_filter,
}

error-ne-finished : {r : Request} → error ≢ finished r
error-ne-finished e = cc

panic-ne-finished : {r : Request} → panic ≢ finished r
panic-ne-finished e = cc

Parsed-cases : {A : Type 0} (o : Parsed A) → ((a : A) × (o ≡ ok a)) ⊎ ((o ≡ err) ⊎ (o ≡ Path.panic))
Parsed-cases (ok a) = inl (a, refl)
Parsed-cases err = inr (inl refl)
Parsed-cases Path.panic = inr (inr refl)

module _ (crypto : Crypto) (calendar : Calendar) (web : Web) (http : Http) (nom : Nom)
    (to_text : ℕ → Bytes) where
  start_stream-finished :
      (ts : DateTime) (region ak sk : Bytes) (ctx : Ctx) (o : Handled Request × KeyCache)
      (r : Request)
      → (start_stream crypto calendar web http nom to_text ts region ak sk ctx o).outcome
        ≡ finished r
      → o.0 ≡ finished r
  unfolding start_stream
  start_stream-finished ts region ak sk ctx (finished req, cache) r h = ground arith
  start_stream-finished ts region ak sk ctx (error, cache) r h = cc
  start_stream-finished ts region ak sk ctx (panic, cache) r h = cc

  with_hmac-finished :
      (now : DateTime) (cfg : CosMapItem) (ctx : Ctx) (req r : Request) (cache : KeyCache)
      → HasPlainRegion crypto calendar web http now cfg
      → IsValid crypto cache
      → (with_hmac crypto calendar web http nom to_text now cfg ctx req cache).outcome ≡ finished r
      → SignedFor crypto calendar web http now cfg r
  unfolding with_hmac
  with_hmac-finished now cfg ctx req r cache plain v h = elim (Bool-cases (is_streaming req)) [
    | inl streaming ↦
        resigned crypto calendar web http now _ _ _ (chunked req) r cache plain v
          (start_stream-finished now _ _ _ ctx _ r (rw (streaming, with_hmac) at h))
    | inr other ↦
        signed crypto calendar web http now cfg req r cache plain v (rw (other, with_hmac) at h)
  ]

  -- The header with a token of the cache.
  abbrev pub BearerFor : ℕ → Option IamResponse → Bytes → Ctx → Request → Type 0
  BearerFor now_secs bearer bucket ctx r =
      (token : Bytes) × ((Secrets.get bucket now_secs bearer ctx.secrets_cache).token ≡ some token)
      × (lookup (codes "authorization") r.headers ≡ some (codes "Bearer " ++ token))

  with_bearer-finished :
      (now_secs : ℕ) (bearer : Option IamResponse) (bucket : Bytes) (config : Option CosMapItem)
      (ctx : Ctx) (req r : Request) (cache : KeyCache)
      → (with_bearer crypto calendar web http nom to_text now_secs bearer bucket config ctx req
          cache).outcome
        ≡ finished r
      → BearerFor now_secs bearer bucket ctx r
  unfolding with_bearer
  with_bearer-finished now_secs bearer bucket config ctx req r cache h =
      elim (Option-cases (Secrets.get bucket now_secs bearer ctx.secrets_cache).token) [
        | inl none_got ↦ ground arith
        | inr (token, got) ↦ (
          token,
          got,
          insert_header-finished http (codes "authorization") (codes "Bearer " ++ token) req r
              (ground arith),
        )
      ]

  -- What a request of a bucket is authenticated with.
  abbrev pub AuthenticatedFor : DateTime → ℕ → Option IamResponse → Bytes → Ctx → Request → Type 0
  AuthenticatedFor now now_secs bearer bucket ctx r =
      ((cfg : CosMapItem) × (lookup bucket ctx.cos_mapping ≡ some cfg)
        × (has_hmac cfg ≡ true)
        × SignedFor crypto calendar web http now cfg r)
      ⊎ (((do cfg ← lookup bucket ctx.cos_mapping; if has_hmac cfg then some cfg else none) ≡ none)
          × BearerFor now_secs bearer bucket ctx r)

  authenticate-finished :
      (now : DateTime) (now_secs : ℕ) (bearer : Option IamResponse) (bucket : Bytes)
      (config : Option CosMapItem) (ctx : Ctx) (req r : Request) (cache : KeyCache)
      → ((b : Bytes) (cfg : CosMapItem)
          → lookup b ctx.cos_mapping ≡ some cfg
          → HasPlainRegion crypto calendar web http now cfg)
      → IsValid crypto cache
      → lookup bucket ctx.cos_mapping ≡ config
      → (authenticate crypto calendar web http nom to_text now now_secs bearer bucket config ctx req
          cache).outcome
        ≡ finished r
      → AuthenticatedFor now now_secs bearer bucket ctx r
  unfolding authenticate
  authenticate-finished now now_secs bearer bucket none ctx req r cache plain v e h =
      inr (ground (arith, e), with_bearer-finished now_secs bearer bucket none ctx req r cache h)
  authenticate-finished now now_secs bearer bucket (some cfg) ctx req r cache plain v e h =
      elim (Bool-cases (has_hmac cfg)) [
        | inl has ↦ inl (
          cfg,
          e,
          has,
          with_hmac-finished now cfg ctx req r cache (plain bucket cfg e) v
              (rw (has, authenticate) at h),
        )
        | inr lacks ↦
            let sent =
              with_bearer-finished now_secs bearer bucket (some cfg) ctx req r cache
                (rw (lacks, authenticate) at h) in
            inr (ground (arith, e, lacks), sent)
      ]

  Handled-cases :
      (o : Handled Request) → ((req : Request) × (o ≡ finished req)) ⊎ ((o ≡ error) ⊎ (o ≡ panic))
  Handled-cases (finished req) = inl (req, refl)
  Handled-cases error = inr (inl refl)
  Handled-cases panic = inr (inr refl)

  send-finished :
      (proxy : Config) (now : DateTime) (now_secs : ℕ) (bearer : Option IamResponse)
      (bucket url : Bytes) (ctx : Ctx) (req r : Request) (cache : KeyCache)
      → ((b : Bytes) (cfg : CosMapItem)
          → lookup b ctx.cos_mapping ≡ some cfg
          → HasPlainRegion crypto calendar web http now cfg)
      → IsValid crypto cache
      → (send crypto calendar web http nom to_text proxy now now_secs bearer bucket url ctx req
          cache).outcome
        ≡ finished r
      → AuthenticatedFor now now_secs bearer bucket ctx r
  unfolding send
  send-finished proxy now now_secs bearer bucket url ctx req r cache plain v h =
      elim (Handled-cases (
        retarget crypto calendar web http nom to_text proxy.cos_endpoint bucket url
          (lookup bucket ctx.cos_mapping) req)) [
            | inl (req', e) ↦
                authenticate-finished now now_secs bearer bucket (lookup bucket ctx.cos_mapping) ctx
                  req' r cache plain v refl (rw (e, send) at h)
            | inr (inl e) ↦ absurd (error-ne-finished (rw (e, send) at h))
            | inr (inr e) ↦ absurd (panic-ne-finished (rw (e, send) at h))
          ]

  pub upstream_request_filter-authenticated :
      (proxy : Config) (now : DateTime) (now_secs : ℕ) (bearer : Option IamResponse) (ctx : Ctx)
      (req r : Request) (cache : KeyCache)
      → ((b : Bytes) (cfg : CosMapItem)
          → lookup b ctx.cos_mapping ≡ some cfg
          → HasPlainRegion crypto calendar web http now cfg)
      → IsValid crypto cache
      → (upstream_request_filter crypto calendar web http nom to_text proxy now now_secs bearer ctx
          req cache).outcome
        ≡ finished r
      → (plain : Request) × (bucket path : Bytes) × (unsigned crypto calendar web http nom to_text
            ctx req
          ≡ some plain)
        × (parse_path nom plain.uri.path ≡ ok (bucket, path))
        × AuthenticatedFor now now_secs bearer bucket ctx r
  unfolding upstream_request_filter
  upstream_request_filter-authenticated proxy now now_secs bearer ctx req r cache plain v h =
      elim (Option-cases (unsigned crypto calendar web http nom to_text ctx req)) [
        | inl bad ↦ ground arith
        | inr (stripped, found) ↦ elim (Parsed-cases (parse_path nom stripped.uri.path)) [
          | inl ((bucket, path), good) ↦ (
            stripped,
            bucket,
            path,
            found,
            good,
            send-finished proxy now now_secs bearer bucket path ctx stripped r cache plain v
                (rw (found, upstream_request_filter, good) at h),
          )
          | inr (inl bad) ↦ ground arith
          | inr (inr bad) ↦ ground arith
        ]
      ]
