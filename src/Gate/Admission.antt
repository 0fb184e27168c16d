-- ===== src/Gate/Admission.antt =====
-- Whom `request_filter` of lib.rs lets through.
use object_storage_proxy.Base.{◌≡◌, subst, subst₂, true, false, ◌||◌, some, arith, Bytes, lookup}
use object_storage_proxy.External.{DateTime}
use object_storage_proxy.Message.{Request, Http}
use object_storage_proxy.Path.{ok, parse_path}
use object_storage_proxy.CosMap.{CosMapItem, has_hmac, has_api_key}
use object_storage_proxy.Gate.World.{Callback, Settings, World, next, then_do, then_do-next}
use object_storage_proxy.Gate.Usage.{is_presigned_url, usage_limit}
use object_storage_proxy.Gate.Validate.{Instants}
use object_storage_proxy.Gate.Filter.{Packages, access_key_of}
use object_storage_proxy.Gate.Passed.{Signed, Vouched, guarded-next, is_authorized-next}
use object_storage_proxy.Gate.Filter.{request_filter, guarded}
use object_storage_proxy.Gate.Usage.{expects_continue}

module _ {C : Type 0} where
  pub usage_limit-next :
      (settings : Settings) (http : Http) (req : Request) (w w' : World C)
      → usage_limit settings http req w ≡ next tt w'
      → (w'.ctx ≡ w.ctx)
        × (w'.hmac_keystore ≡ w.hmac_keystore)
        × (w'.auth_cache ≡ w.auth_cache)
        × (w'.keys ≡ w.keys)
  unfolding usage_limit
  usage_limit-next settings http req w w' h = ground arith

module _ {C J : Type 0} (p : Packages C J) (settings : Settings) (now : DateTime) (times : Instants)
    (req : Request) where
  -- Without the header, a pass is one of the guards.
  not_expected :
      (w w' : World C)
      → expects_continue p.web req ≡ false
      → request_filter p settings now times req w ≡ next tt w'
      → (w0 : World C) × (usage_limit settings p.http req w ≡ next tt w0)
        × (guarded p settings now times req w0 ≡ next tt w')
  unfolding request_filter
  not_expected w w' without h =
      then_do-next h (λ _ w0 counted h0. (w0, counted, ground (arith, without)))

  -- The checks of `request_filter` let a request through only with a valid signature and the
  -- validator's word: with a validator set, a request without `expect: 100-continue` that passes
  -- has a path with a configured bucket in it and an access key; unless the settings or an
  -- `uploadId=` in the query skip it, its signature is valid, as a presigned URL or in the header,
  -- under a secret key that the store has, or the fetcher gives, for that access key; and the
  -- validator answers true for the access key and the bucket, or the cache has a true decision for
  -- them and the method that has not expired when it is read.
  pub request_filter-authorized :
      (callback : Callback) (w w' : World C)
      → settings.validator ≡ some callback
      → expects_continue p.web req ≡ false
      → request_filter p settings now times req w ≡ next tt w'
      → (bucket rest access_key : Bytes) × (item : CosMapItem) × (parse_path p.nom req.uri.path
          ≡ ok (bucket, rest))
        × (lookup bucket w.ctx.cos_mapping ≡ some item)
        × (access_key_of p settings now times req ≡ some access_key)
        × Signed p settings now times req access_key w.hmac_keystore w.keys
        × Vouched p settings now times req callback bucket access_key w.auth_cache
  request_filter-authorized callback w w' set without h =
      let (w0, counted, passed) = not_expected w w' without h in
      let (ctx, store, cache, keys) = usage_limit-next settings p.http req w w0 counted in
      let (
        bucket, rest, access_key, item, item', w1, w2, parses, has_key, found, store', cache',
        keys', authorized, given, has,
      ) =
        guarded-next p settings now times req w0 w' passed in
      let (signed, vouched, _) =
        is_authorized-next p settings now times req callback bucket (some item) access_key w1 w2 set
          authorized in
      (
        bucket,
        rest,
        access_key,
        item,
        parses,
        cc,
        has_key,
        subst₂ (Signed p settings now times req access_key) (cc) (cc) signed,
        subst (Vouched p settings now times req callback bucket access_key) (cc) vouched,
      )

  -- A request without `expect: 100-continue` that `request_filter` lets through goes to a bucket
  -- that was configured, and the configuration in the context has then a key pair or an API key.
  pub request_filter-has_credentials :
      (w w' : World C)
      → expects_continue p.web req ≡ false
      → request_filter p settings now times req w ≡ next tt w'
      → (bucket rest : Bytes) × (item item' : CosMapItem) × (parse_path p.nom req.uri.path
          ≡ ok (bucket, rest))
        × (lookup bucket w.ctx.cos_mapping ≡ some item)
        × (lookup bucket w'.ctx.cos_mapping ≡ some item')
        × ((has_hmac item' || has_api_key item') ≡ true)
  request_filter-has_credentials w w' without h =
      let (w0, counted, passed) = not_expected w w' without h in
      let (ctx, _, _, _) = usage_limit-next settings p.http req w w0 counted in
      let (
        bucket, rest, access_key, item, item', w1, w2, parses, has_key, found, store', cache',
        keys', authorized, given, has,
      ) =
        guarded-next p settings now times req w0 w' passed in
      (bucket, rest, item, item', parses, cc, given, has)

  -- A request with `expect: 100-continue` that is not a presigned URL passes `request_filter` with
  -- none of the checks, whatever its path, its signature and the validator; nothing changes.
  pub request_filter_expected :
      (w : World C)
      → expects_continue p.web req ≡ true
      → is_presigned_url req ≡ false
      → request_filter p settings now times req w ≡ next tt w
  unfolding request_filter then_do usage_limit
  request_filter_expected w with_header no_url = ground (arith, with_header, no_url)
