-- ===== src/CosMap/Ensured.antt =====
-- `ensure_credentials` leaves a bucket with credentials.
use object_storage_proxy.Base.{
  ◌≡◌, ◌↔◌, inl, inr, refl, subst, true, false, ◌||◌, Option, none, some, arith, ◌>>=◌, Bytes,
  Bool-cases, Option-cases,
}
use object_storage_proxy.CosMap.{
  CosMapItem, BucketCredential, hmac, api_key_of, Json, parse, has_hmac, has_api_key, fill,
  ensure_credentials,
}

-- What no credential changes.
pub record SameBackend (a b : CosMapItem) : Type 0 where
  pub host : a.host ≡ b.host
  pub port : a.port ≡ b.port
  pub region : a.region ≡ b.region
  pub ttl : a.ttl ≡ b.ttl
  pub tls : a.tls ≡ b.tls
  pub addressing_style : a.addressing_style ≡ b.addressing_style

SameBackend-fill : (item : CosMapItem) (c : BucketCredential) → SameBackend item (fill item c)
SameBackend-fill item (hmac ak sk) = ground arith
SameBackend-fill item (api_key_of k) = ground arith

has-fill :
    (item : CosMapItem) (c : BucketCredential)
    → (has_hmac (fill item c) || has_api_key (fill item c)) ≡ true
unfolding has_hmac has_api_key
has-fill item (hmac ak sk) = refl
has-fill item (api_key_of k) = ground arith

SameBackend-refl : (item : CosMapItem) → SameBackend item item
SameBackend-refl item = ground arith

abbrev Ensured : CosMapItem → CosMapItem → Type 0
Ensured item item' = ((has_hmac item' || has_api_key item') ≡ true) × SameBackend item item'

module _ {J : Type 0} (json : Json J) where
  fetched :
      (item item' : CosMapItem) (bucket : Bytes) (fetcher : Option (Bytes → Option Bytes))
      → (has_hmac item || has_api_key item) ≡ false
      → (ensure_credentials json item bucket fetcher).0 ≡ some item'
      → Ensured item item'
  unfolding ensure_credentials
  fetched item item' bucket none e h = ground arith
  fetched item item' bucket (some fetch) e h = elim (Option-cases (fetch bucket)) [
    | inl no_answer ↦ ground arith
    | inr (raw, answer) ↦
        let c = parse json raw in
        let same : fill item c ≡ item' = ground arith in
        subst (Ensured item) same (has-fill item c, SameBackend-fill item c)
  ]

  -- Where it succeeds, the item has a key pair or an API key, and the backend's address, region,
  -- time to live, TLS setting and addressing style are as they were.
  pub ensure_credentials-has :
      (item item' : CosMapItem) (bucket : Bytes) (fetcher : Option (Bytes → Option Bytes))
      → (ensure_credentials json item bucket fetcher).0 ≡ some item'
      → ((has_hmac item' || has_api_key item') ≡ true) × SameBackend item item'
  unfolding ensure_credentials
  ensure_credentials-has item item' bucket fetcher h =
      elim (Bool-cases (has_hmac item || has_api_key item)) [
        | inl has ↦
            let same : item ≡ item' = ground arith in
            subst (Ensured item) same (has, SameBackend-refl item)
        | inr lacks ↦ fetched item item' bucket fetcher lacks h
      ]

  -- It fails exactly where the item has no credential and there is no fetcher, or the fetcher
  -- fails.
  pub ensure_credentials-eq_none :
      (item : CosMapItem) (bucket : Bytes) (fetcher : Option (Bytes → Option Bytes))
      → ((ensure_credentials json item bucket fetcher).0 ≡ none) ↔ (
          ((has_hmac item || has_api_key item) ≡ false)
          × ((do fetch ← fetcher; fetch bucket) ≡ none))
  unfolding ensure_credentials
  ensure_credentials-eq_none item bucket none = ground arith
  ensure_credentials-eq_none item bucket (some fetch) = ground arith

  -- With a credential in the item nothing is fetched and nothing changes; so a second call after a
  -- successful one is without effect.
  pub ensure_credentials_idem :
      (item item' : CosMapItem) (bucket : Bytes) (fetcher fetcher' : Option (Bytes → Option Bytes))
      → (ensure_credentials json item bucket fetcher).0 ≡ some item'
      → ensure_credentials json item' bucket fetcher' ≡ (some item', false)
  ensure_credentials_idem item item' bucket fetcher fetcher' h =
      let (has, _) = ensure_credentials-has item item' bucket fetcher h in
      unfold ensure_credentials in rw has
