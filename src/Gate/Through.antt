-- ===== src/Gate/Through.antt =====
-- A request from `request_filter` to the upstream (lib.rs).
use object_storage_proxy.Base.{
  ℕ, ◌≡◌, inl, inr, subst, false, Option, some, arith, unwrap_or, Bytes, Option-cases, Bool-cases,
}
use object_storage_proxy.Base.{lookup}
use object_storage_proxy.External.{DateTime}
use object_storage_proxy.CosMap.{CosMapItem}
use object_storage_proxy.Signing.Key.Cache.{IsValid}
use object_storage_proxy.Signing.Resign.Keys.{HasPlainRegion}
use object_storage_proxy.Message.{Request}
use object_storage_proxy.Path.{ok, parse_path}
use object_storage_proxy.Gate.World.{Callback, Settings, World, next}
use object_storage_proxy.Gate.Validate.{Instants}
use object_storage_proxy.Gate.Filter.{Packages, access_key_of}
use object_storage_proxy.Gate.Passed.{Signed, Vouched}
use object_storage_proxy.Gate.Filter.{request_filter}
use object_storage_proxy.Gate.Usage.{expects_continue}
use object_storage_proxy.Base.{to_text}
use object_storage_proxy.Message.{Uri, finished}
use object_storage_proxy.Secrets.{IamResponse}
use object_storage_proxy.Proxy.Upstream.{Config, Ctx}
use object_storage_proxy.Proxy.Target.{presigned_target}
use object_storage_proxy.Proxy.Rewrite.{unsigned, upstream_request_filter}
use object_storage_proxy.Proxy.Authenticated.{
  AuthenticatedFor, upstream_request_filter-authenticated,
}
use object_storage_proxy.Gate.Admission.{request_filter-authorized}

module _ {C J : Type 0} (p : Packages C J) (settings : Settings) (now : DateTime) (times : Instants)
    (req : Request) where
  pub same_bucket_lem :
      (bucket rest bucket' rest' path path' : Bytes)
      → path ≡ path'
      → parse_path p.nom path ≡ ok (bucket, rest)
      → parse_path p.nom path' ≡ ok (bucket', rest')
      → bucket ≡ bucket'
  same_bucket_lem bucket rest bucket' rest' path path' same h h' = cc

  pub unsigned-path :
      (ctx : Ctx) (plain : Request)
      → ((u : Uri) → p.http.parse_uri (presigned_target req.uri) ≡ some u → u.path ≡ req.uri.path)
      → unsigned p.crypto p.calendar p.web p.http p.nom to_text ctx req ≡ some plain
      → plain.uri.path ≡ req.uri.path
  unfolding unsigned
  unsigned-path ctx plain kept h = elim (Bool-cases (unwrap_or ctx.is_presigned false)) [
    | inr plainly ↦ ground (arith, plainly)
    | inl presigned ↦ elim (Option-cases (p.http.parse_uri (presigned_target req.uri))) [
      | inl fails ↦ ground (arith, presigned, fails)
      | inr (u, parsed) ↦ ground (arith, presigned, parsed, kept u parsed)
    ]
  ]

  -- What reaches the upstream is what was allowed: with a validator set, a request without
  -- `expect: 100-continue` that `request_filter` and then `upstream_request_filter` let through has
  -- a bucket in its path for which its signature (where one is asked for) is valid and the
  -- validator answers true, or the cache has a true decision that has not expired when it is read;
  -- and it goes out with the credentials of this bucket: signed as it is sent with the bucket's
  -- region, access key and secret key, or with a token that the cache of tokens gives for the
  -- bucket. The cache of signing keys is taken to be valid and the buckets' regions to have no
  -- colon when the request is signed. The path of a presigned URL is taken to
  -- stay as it is when the URL is parsed again without the signature's parameters.
  pub upstream_request_filter-authorized :
      (callback : Callback) (w w' : World C) (proxy : Config) (now' : DateTime) (now_secs : ℕ)
      (bearer : Option IamResponse) (r : Request)
      → settings.validator ≡ some callback
      → expects_continue p.web req ≡ false
      → ((b : Bytes) (cfg : CosMapItem)
          → lookup b w'.ctx.cos_mapping ≡ some cfg
          → HasPlainRegion p.crypto p.calendar p.web p.http now' cfg)
      → IsValid p.crypto w'.keys
      → ((u : Uri) → p.http.parse_uri (presigned_target req.uri) ≡ some u → u.path ≡ req.uri.path)
      → request_filter p settings now times req w ≡ next tt w'
      → (upstream_request_filter p.crypto p.calendar p.web p.http p.nom to_text proxy now' now_secs
          bearer w'.ctx req w'.keys).outcome
        ≡ finished r
      → (bucket rest access_key : Bytes) × (parse_path p.nom req.uri.path ≡ ok (bucket, rest))
        × (access_key_of p settings now times req ≡ some access_key)
        × Signed p settings now times req access_key w.hmac_keystore w.keys
        × Vouched p settings now times req callback bucket access_key w.auth_cache
        × AuthenticatedFor p.crypto p.calendar p.web p.http p.nom to_text now' now_secs bearer
            bucket w'.ctx r
  upstream_request_filter-authorized callback w w' proxy now' now_secs bearer r set without plainly
        valid kept passed sent =
      let (bucket, rest, access_key, item, parses, found, has_key, signed, vouched) =
        request_filter-authorized p settings now times req callback w w' set without passed in
      let (plain, bucket', rest', stripped, parses', authenticated) =
        upstream_request_filter-authenticated p.crypto p.calendar p.web p.http p.nom to_text proxy
          now' now_secs bearer w'.ctx req r w'.keys plainly valid sent in
      let same_path = unsigned-path w'.ctx plain kept stripped in
      let same_bucket : bucket' ≡ bucket =
        same_bucket_lem bucket' rest' bucket rest plain.uri.path req.uri.path same_path parses'
          parses in
      (
        bucket,
        rest,
        access_key,
        parses,
        has_key,
        signed,
        vouched,
        subst
            (λ b.
              AuthenticatedFor p.crypto p.calendar p.web p.http p.nom to_text now' now_secs bearer b
                w'.ctx r)
            same_bucket authenticated,
      )
