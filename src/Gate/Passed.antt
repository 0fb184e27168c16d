-- ===== src/Gate/Passed.antt =====
-- What has to hold where a step of `request_filter` comes to its end.
use object_storage_proxy.Base.{
  ℕ, ◌≡◌, ◌⊎◌, inl, inr, refl, ◌∙◌, subst, Bool, true, false, ◌&&◌, ◌||◌, Option, none, some, [],
  arith, unwrap_or, Bytes, is_empty, Assoc, lookup, lookup-insert_self, Option-cases, Bool-cases,
}
use object_storage_proxy.External.{DateTime}
use object_storage_proxy.Message.{Request}
use object_storage_proxy.Path.{Parsed, ok, err, parse_path}
use object_storage_proxy.Path
use object_storage_proxy.Path.Query.{parse_query}
use object_storage_proxy.CosMap.{CosMapItem, has_hmac, has_api_key, ensure_credentials}
use object_storage_proxy.CosMap.Ensured.{ensure_credentials-has}
use object_storage_proxy.Authorization.{
  LruCache, Verdict, decided, Validated, fresh, get_or_validate,
}
use object_storage_proxy.Authorization
use object_storage_proxy.Authorization.Decisions.{get_or_validate_source}
use object_storage_proxy.Signing.Key.{KeyCache}
use object_storage_proxy.Signing.Verify.{answered, signature_is_valid_for_request}
use object_storage_proxy.Signing.Presigned.{checked, signature_is_valid_for_presigned}
use object_storage_proxy.Gate.World.{Callback, Settings, World, next, then_do-next}
use object_storage_proxy.Gate.Usage.{is_presigned_url}
use object_storage_proxy.Gate.Keys.{skips_signature, check_signature}
use object_storage_proxy.Gate.Validate.{
  validate_request, details, decision_key, effective_ttl, Instants, after_decision, ask_validator,
}
use object_storage_proxy.Gate.Filter.{
  Packages, from_option, from_parsed, route, access_key_of, is_authorized, deny_unless, fetcher_for,
  grant,
}
use object_storage_proxy.Gate.Steps.{KnownKey, check_presigned-next, check_request-next}
use object_storage_proxy.Gate.Filter.{guarded, consult, auth_header, list_when_root}

Verdict-cases :
    (v : Verdict)
    → ((b : Bool) × (v ≡ decided b)) ⊎ ((v ≡ Authorization.failed) ⊎ (v ≡ Authorization.panic))
Verdict-cases (decided b) = inl (b, refl)
Verdict-cases Authorization.failed = inr (inl refl)
Verdict-cases Authorization.panic = inr (inr refl)

after_decision-next :
    {C : Type 0} (lru : LruCache C) (v : Validated C) (b : Bool) (w w' : World C)
    → after_decision lru v w ≡ next b w'
    → (v.verdict ≡ decided b) × (w'.ctx.cos_mapping ≡ w.ctx.cos_mapping)
after_decision-next lru v b w w' h = elim (Verdict-cases v.verdict) [
  | inl (authorized, answer) ↦ ground (arith, answer)
  | inr (inl fails) ↦ ground (arith, fails)
  | inr (inr panics) ↦ ground (arith, panics)
]

module _ {C J : Type 0} (p : Packages C J) (settings : Settings) (now : DateTime) (times : Instants)
    (req : Request) where
  -- The request carries a valid signature, as a presigned URL or in its header.
  abbrev pub SignatureValid : Bytes → KeyCache → Type 0
  SignatureValid secret keys =
      ((signature_is_valid_for_presigned p.crypto p.calendar p.web p.nom p.parse_datetime p.http
          p.urls now req secret keys).0
        ≡ checked (answered true))
      ⊎ ((signature_is_valid_for_request p.crypto p.calendar p.web p.nom p.parse_datetime
            (auth_header p settings now times req) req secret keys).0
          ≡ answered true)

  -- No signature is asked for, or there is a valid one with a key that belongs to the access key.
  abbrev pub Signed : Bytes → Assoc Bytes → KeyCache → Type 0
  Signed access_key keystore keys =
      (skips_signature settings req ≡ true)
      ⊎ ((secret : Bytes) × KnownKey settings keystore access_key secret
          × SignatureValid secret keys)

  check_signature-next :
      (access_key : Bytes) (w w' : World C)
      → check_signature p.crypto p.calendar p.web p.nom p.parse_datetime p.http p.urls settings now
          (auth_header p settings now times req)
          req
          access_key
          w
        ≡ next tt w'
      → Signed access_key w.hmac_keystore w.keys
        × (w'.auth_cache ≡ w.auth_cache)
        × (w'.ctx.cos_mapping ≡ w.ctx.cos_mapping)
  unfolding check_signature
  check_signature-next access_key w w' h = elim (Bool-cases (skips_signature settings req)) [
    | inl skips ↦ (inl skips, ground (arith, skips), ground (arith, skips))
    | inr checks ↦
        elim (Bool-cases
          (is_empty (auth_header p settings now times req) && is_presigned_url req)) [
            | inl url ↦
                let (secret, known, valid, same_cache, same_mapping) =
                  check_presigned-next p.crypto p.calendar p.web p.nom p.parse_datetime p.http
                    p.urls settings now req access_key w w' (rw (checks, url) at h) in
                (inr (secret, known, inl valid), same_cache, same_mapping)
            | inr header ↦
                let (secret, known, valid, same_cache, same_mapping) =
                  check_request-next p.crypto p.calendar p.web p.nom p.parse_datetime p.http p.urls
                    settings now (auth_header p settings now times req) req access_key w w'
                    (rw (checks, header) at h) in
                (inr (secret, known, inr valid), same_cache, same_mapping)
          ]
  ]

  -- The validator says yes, or the cache has a yes that has not expired when it is read.
  abbrev pub Vouched : Callback → Bytes → Bytes → C → Type 0
  Vouched callback bucket access_key cache =
      let key = decision_key access_key bucket req.method in
      ((rest : Bytes) × (query_dict : Assoc Bytes) × (parse_query p.nom p.decode_segment
            (unwrap_or req.uri.query [])
          ≡ some (rest, query_dict))
        × (validate_request access_key bucket (details p.web req query_dict) callback
              (unwrap_or settings.validator_takes_request false)
            ≡ some true))
      ⊎ ((fresh p.lru key times.first cache ≡ some true)
          ⊎ (fresh p.lru key times.looked cache ≡ some true))

  ask_validator-next :
      (callback : Callback) (ttl : ℕ) (access_key bucket : Bytes) (w w' : World C)
      → ask_validator p.lru p.nom p.decode_segment p.web settings times callback ttl access_key
          bucket req w
        ≡ next true w'
      → Vouched callback bucket access_key w.auth_cache × (w'.ctx.cos_mapping ≡ w.ctx.cos_mapping)
  unfolding ask_validator
  ask_validator-next callback ttl access_key bucket w w' h =
      elim (Option-cases (parse_query p.nom p.decode_segment (unwrap_or req.uri.query []))) [
        | inl fails ↦ ground (arith, fails)
        | inr ((rest, query_dict), parsed) ↦
            let (answer, same) =
              after_decision-next p.lru
                (get_or_validate p.lru (decision_key access_key bucket req.method)
                  (effective_ttl ttl) times.first times.looked times.written
                  (validate_request access_key bucket (details p.web req query_dict) callback
                    (unwrap_or settings.validator_takes_request false))
                  w.auth_cache w.auth_cache)
                true w w' (ground (arith, parsed)) in
            elim (get_or_validate_source p.lru _ _ _ _ _ _ _ _ true answer) [
              | inl (_, yes_now) ↦ (inl (rest, query_dict, parsed, yes_now), same)
              | inr (_, inl early) ↦ (inr (inl early), same)
              | inr (_, inr late) ↦ (inr (inr late), same)
            ]
      ]

  -- The validator's word and, where a signature is asked for, the signature too.
  pub is_authorized-next :
      (callback : Callback) (bucket : Bytes) (config : Option CosMapItem) (access_key : Bytes)
      (w w' : World C)
      → settings.validator ≡ some callback
      → is_authorized p settings now times req bucket config access_key w ≡ next true w'
      → Signed access_key w.hmac_keystore w.keys
        × Vouched callback bucket access_key w.auth_cache
        × (w'.ctx.cos_mapping ≡ w.ctx.cos_mapping)
  unfolding is_authorized consult
  is_authorized-next callback bucket config access_key w w' set h =
      let consulted : consult p settings now times req callback bucket config access_key w
          ≡ next true w' =
        ground (arith, set) in
      then_do-next consulted (λ _ w1 checks asks.
        let (signed, same_cache, same_mapping) = check_signature-next access_key w w1 checks in
        let (vouched, same) = ask_validator-next callback _ access_key bucket w1 w' asks in
        (
          signed,
          subst (Vouched callback bucket access_key) same_cache vouched,
          same ∙ same_mapping,
        ))

  pub deny_unless-next :
      (bucket : Bytes) (authorized : Bool) (w w' : World C)
      → deny_unless p settings now times req bucket authorized w ≡ next tt w'
      → (authorized ≡ true) × (w' ≡ w)
  deny_unless-next bucket true w w' h = (refl, cc)
  deny_unless-next bucket false w w' h = cc

  -- A bucket that the request may use is configured, and has credentials from then on.
  grant-next :
      (bucket : Bytes) (config : Option CosMapItem) (access_key : Bytes) (w w' : World C)
      → grant p settings now times req bucket config access_key w ≡ next tt w'
      → (item item' : CosMapItem) × (config ≡ some item)
        × (lookup bucket w'.ctx.cos_mapping ≡ some item')
        × ((has_hmac item' || has_api_key item') ≡ true)
  unfolding grant
  grant-next bucket none access_key w w' h = cc
  grant-next bucket (some item) access_key w w' h =
      elim (Option-cases
        (ensure_credentials p.json item bucket
          (fetcher_for p settings now times req access_key)).0) [
            | inl fails ↦ ground (arith, fails)
            | inr (item', ensured) ↦
                let (has, _) = ensure_credentials-has p.json item item' bucket _ ensured in
                (
                  item,
                  item',
                  refl,
                  ground (arith, ensured, lookup-insert_self bucket item' w.ctx.cos_mapping),
                  has,
                )
          ]

  pub from_parsed-next :
      {A : Type 0} (parsed : Parsed A) (a : A) (w w' : World C)
      → from_parsed parsed w ≡ next a w'
      → (parsed ≡ ok a) × (w' ≡ w)
  from_parsed-next (ok a) b w w' h = (cc, cc)
  from_parsed-next err b w w' h = cc
  from_parsed-next Path.panic b w w' h = cc

  pub list_when_root-next :
      (w w' : World C) → list_when_root p settings now times req w ≡ next tt w' → w' ≡ w
  unfolding list_when_root
  list_when_root-next w w' h = ground arith

  route-next :
      (bucket : Bytes) (config : Option CosMapItem) (w w' : World C)
      → route p settings now times req w ≡ next (bucket, config) w'
      → (rest : Bytes) × (parse_path p.nom req.uri.path ≡ ok (bucket, rest))
        × (lookup bucket w.ctx.cos_mapping ≡ config)
        × (w'.hmac_keystore ≡ w.hmac_keystore)
        × (w'.auth_cache ≡ w.auth_cache)
        × (w'.keys ≡ w.keys)
  unfolding route
  route-next bucket config w w' h = then_do-next h (λ parsed w1 parses enters.
      let (parses_ok, same) = from_parsed-next _ parsed w w1 parses in
      (parsed.1, cc, cc, cc, cc, cc))

  pub access_key-next :
      (access_key : Bytes) (w w' : World C)
      → from_option (access_key_of p settings now times req) w ≡ next access_key w'
      → (access_key_of p settings now times req ≡ some access_key) × (w' ≡ w)
  access_key-next access_key w w' h = elim (Option-cases (access_key_of p settings now times req)) [
    | inl fails ↦ ground (arith, fails)
    | inr (k, found) ↦ ground (arith, found)
  ]

  -- A request that is not let through before its checks has a bucket that is configured and gets
  -- credentials, and is authorized.
  pub guarded-next :
      (w w' : World C)
      → guarded p settings now times req w ≡ next tt w'
      → (bucket rest access_key : Bytes) × (item item' : CosMapItem) × (w1 w2 : World C)
        × (parse_path p.nom req.uri.path ≡ ok (bucket, rest))
        × (access_key_of p settings now times req ≡ some access_key)
        × (lookup bucket w.ctx.cos_mapping ≡ some item)
        × (w1.hmac_keystore ≡ w.hmac_keystore)
        × (w1.auth_cache ≡ w.auth_cache)
        × (w1.keys ≡ w.keys)
        × (is_authorized p settings now times req bucket (some item) access_key w1 ≡ next true w2)
        × (lookup bucket w'.ctx.cos_mapping ≡ some item')
        × ((has_hmac item' || has_api_key item') ≡ true)
  unfolding guarded
  guarded-next w w' h = then_do-next h (λ _ w0 listed h0. then_do-next h0 (λ routed w1 routes h1.
      then_do-next h1 (λ access_key w2 keyed h2. then_do-next h2 (λ authorized w3 asked h3.
        then_do-next h3 (λ _ w4 allowed granted.
          let rooted = list_when_root-next w w0 listed in
          let (rest, parses, found, same_store, same_cache, same_keys) =
            route-next routed.0 routed.1 w0 w1 routes in
          let (has_key, kept) = access_key-next access_key w1 w2 keyed in
          let (yes_said, _) = deny_unless-next _ authorized w3 w4 allowed in
          let (item, item', configured, given, has) =
            grant-next routed.0 routed.1 access_key w4 w' granted in
          (
            routed.0, rest, access_key, item, item', w2, w3, parses, has_key, cc, cc, cc, cc, cc,
            given, has,
          ))))))
