-- ===== src/Gate/Steps.antt =====
-- What each step of `request_filter` has established when it lets a request through.
use object_storage_proxy.Base.{
  ℕ, ◌≡◌, ◌≢◌, ◌⊎◌, inl, inr, refl, sym, ap, ◌∙◌, subst, Bool, true, false, ◌&&◌, ◌||◌, Option,
  none, some, [], ◌++◌, arith, if◌then◌else◌, unwrap_or, Bytes, codes, beq_iff, beq, is_empty,
  Assoc, lookup, insert, lookup-insert_self, Option-cases, Bool-cases, is_some,
}
use object_storage_proxy.Base
use object_storage_proxy.External.{Crypto, Calendar, DateTime, Nom, Web}
use object_storage_proxy.Message.{Request, Http}
use object_storage_proxy.Signing.Verify.{Checked, answered, signature_is_valid_for_request}
use object_storage_proxy.Signing.Verify
use object_storage_proxy.Signing.Presigned.{
  UrlText, PresignedResult, checked, has_expired, signature_is_valid_for_presigned,
}
use object_storage_proxy.Gate.World.{Settings, World, next, then_do-next}
use object_storage_proxy.Gate.Keys.{
  ensure_key, stored_key, presigned_answer, request_answer, run_presigned, run_request,
  check_presigned, check_request,
}

-- The key of a client: it was in the store, or the fetcher has given it.
abbrev pub KnownKey : Settings → Assoc Bytes → Bytes → Bytes → Type 0
KnownKey settings keystore access_key secret_key =
    (lookup access_key keystore ≡ some secret_key)
    ⊎ ((lookup access_key keystore ≡ none)
        × (Base.◌>>=◌ settings.hmac_fetcher (λ fetch. fetch access_key) ≡ some secret_key))

module _ {C : Type 0} where
  pub stored_key-next :
      (access_key k : Bytes) (w w' : World C)
      → stored_key access_key w ≡ next k w'
      → (lookup access_key w.hmac_keystore ≡ some k) × (w ≡ w')
  unfolding stored_key
  stored_key-next access_key k w w' h = elim (Option-cases (lookup access_key w.hmac_keystore)) [
    | inl missing ↦ ground (arith, missing)
    | inr (secret, found) ↦ ground (arith, found)
  ]

  -- What `ensure_key` leaves in the store under the access key is known, and the rest of the world
  -- is as it was.
  pub ensure_key-next :
      (settings : Settings) (http : Http) (msg access_key secret : Bytes) (w w' : World C)
      → ensure_key settings http msg access_key w ≡ next tt w'
      → lookup access_key w'.hmac_keystore ≡ some secret
      → KnownKey settings w.hmac_keystore access_key secret
        × (w' ≡ record w { hmac_keystore = w'.hmac_keystore })
  unfolding ensure_key
  ensure_key-next settings http msg access_key secret w w' h found =
      elim (Option-cases (lookup access_key w.hmac_keystore)) [
        | inr (k, there) ↦ ground (arith, there)
        | inl missing ↦ elim (Option-cases settings.hmac_fetcher) [
          | inl without ↦ ground (arith, missing, without)
          | inr (fetch, with_fetch) ↦ elim (Option-cases (fetch access_key)) [
            | inl fails ↦ ground (arith, missing, with_fetch, fails)
            | inr (k, fetched) ↦ ground (
              arith,
              missing,
              with_fetch,
              fetched,
              lookup-insert_self access_key k w.hmac_keystore,
            )
          ]
        ]
      ]

  pub presigned_answer-next :
      (http : Http) (req : Request) (result : PresignedResult) (w w' : World C)
      → presigned_answer http req result w ≡ next tt w'
      → (result ≡ checked (answered true)) × (w' ≡ w)
  presigned_answer-next http req (checked (answered true)) w w' h = (refl, cc)
  presigned_answer-next http req (checked (answered false)) w w' h = cc
  presigned_answer-next http req (checked Verify.error) w w' h = cc
  presigned_answer-next http req (checked Verify.panic) w w' h = cc
  presigned_answer-next http req has_expired w w' h = cc

  pub request_answer-next :
      (http : Http) (result : Checked) (w w' : World C)
      → request_answer http result w ≡ next tt w'
      → (result ≡ answered true) × (w' ≡ w)
  request_answer-next http (answered true) w w' h = (refl, cc)
  request_answer-next http (answered false) w w' h = cc
  request_answer-next http Verify.error w w' h = cc
  request_answer-next http Verify.panic w w' h = cc

  module _ (crypto : Crypto) (calendar : Calendar) (web : Web) (nom : Nom)
      (parse_datetime : Bytes → Option DateTime) (http : Http) (urls : UrlText)
      (settings : Settings) (now : DateTime) where
    pub check_presigned-next :
        (req : Request) (access_key : Bytes) (w w' : World C)
        → check_presigned crypto calendar web nom parse_datetime http urls settings now req
            access_key w
          ≡ next tt w'
        → (secret : Bytes) × KnownKey settings w.hmac_keystore access_key secret
          × ((signature_is_valid_for_presigned crypto calendar web nom parse_datetime http urls now
                req secret w.keys).0
              ≡ checked (answered true))
          × (w'.auth_cache ≡ w.auth_cache)
          × (w'.ctx.cos_mapping ≡ w.ctx.cos_mapping)
    unfolding check_presigned run_presigned
    check_presigned-next req access_key w w' h = then_do-next h (λ _ w0 marked h0.
        then_do-next h0 (λ _ w1 ensured h1. then_do-next h1 (λ secret w2 stored h2.
          then_do-next h2 (λ result w3 ran h3.
            let (valid, last) = presigned_answer-next http req result w3 w' h3 in
            let (found, same) = stored_key-next access_key secret w1 w2 stored in
            let (known, frame) =
              ensure_key-next settings http _ access_key secret w0 w1 ensured found in
            (
              secret,
              subst (λ store. KnownKey settings store access_key secret) (cc) known,
              cc,
              cc,
              cc,
            )))))

    pub check_request-next :
        (auth_header : Bytes) (req : Request) (access_key : Bytes) (w w' : World C)
        → check_request crypto calendar web nom parse_datetime http urls settings auth_header req
            access_key w
          ≡ next tt w'
        → (secret : Bytes) × KnownKey settings w.hmac_keystore access_key secret
          × ((signature_is_valid_for_request crypto calendar web nom parse_datetime auth_header req
                secret w.keys).0
              ≡ answered true)
          × (w'.auth_cache ≡ w.auth_cache)
          × (w'.ctx.cos_mapping ≡ w.ctx.cos_mapping)
    unfolding check_request run_request
    check_request-next auth_header req access_key w w' h = then_do-next h (λ _ w1 ensured h1.
        then_do-next h1 (λ secret w2 stored h2. then_do-next h2 (λ result w3 ran h3.
          let (valid, last) = request_answer-next http result w3 w' h3 in
          let (found, same) = stored_key-next access_key secret w1 w2 stored in
          let (known, frame) =
            ensure_key-next settings http _ access_key secret w w1 ensured found in
          (secret, known, cc, cc, cc))))
