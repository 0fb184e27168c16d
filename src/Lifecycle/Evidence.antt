-- ===== src/Lifecycle/Evidence.antt =====
-- What a request has shown where it stands in `request_filter` (lib.rs), and what the shared objects
-- hold.
use object_storage_proxy.Base.{
  ◌≡◌, ◌⊎◌, true, false, ◌||◌, some, ◌>>=◌, unwrap_or, Bytes, Lacks, Assoc, lookup,
}
use object_storage_proxy.Message.{Request}
use object_storage_proxy.External.{DateTime}
use object_storage_proxy.Path.{ok, parse_path}
use object_storage_proxy.CosMap.{CosMapItem, has_hmac, has_api_key}
use object_storage_proxy.Authorization.{AuthEntry}
use object_storage_proxy.Gate.World.{Callback, Settings, World}
use object_storage_proxy.Gate.Keys.{skips_signature}
use object_storage_proxy.Gate.Usage.{expects_continue}
use object_storage_proxy.Gate.Validate.{Instants, validate_request, details, decision_key}
use object_storage_proxy.Gate.Filter.{Packages, access_key_of}
use object_storage_proxy.Lifecycle.Phases.{
  Question, Phase, arrived, counted, listing, routing, identifying, signing, ensuring, taking,
  checking, asking, missed, storing, judged, granting, granted, waved,
}

-- A bucket that is configured with a key pair or an API key.
abbrev pub HasCredentials : Bytes → Assoc CosMapItem → Type 0
HasCredentials bucket cos_mapping =
    (item : CosMapItem) × (lookup bucket cos_mapping ≡ some item)
    × ((has_hmac item || has_api_key item) ≡ true)

-- No bucket loses its credentials.
abbrev pub Grows : Assoc CosMapItem → Assoc CosMapItem → Type 0
Grows before after = (bucket : Bytes) → HasCredentials bucket before → HasCredentials bucket after

-- `Valid req secret`: at some time the request's signature has been valid under the secret key.
module _ {C J : Type 0} (p : Packages C J) (settings : Settings) (stored : Assoc Bytes)
    (Valid : Request → Bytes → Type 0) where
  -- The bucket and the method can be told apart in a decision's key.
  abbrev pub IsPlain : Request → Type 0
  IsPlain req =
      Lacks b':' req.method
      × ((bucket rest : Bytes)
          → parse_path p.nom req.uri.path ≡ ok (bucket, rest)
          → Lacks b':' bucket)

  -- The key is the client's: it was given at the start, or by the fetcher.
  abbrev pub Origin : Bytes → Bytes → Type 0
  Origin access_key secret_key =
      (lookup access_key stored ≡ some secret_key)
      ⊎ ((settings.hmac_fetcher >>= (λ fetch. fetch access_key)) ≡ some secret_key)

  -- The validator itself answers true for the access key, the bucket and the method.
  abbrev pub Approved : Callback → Bytes → Bytes → Bytes → Type 0
  Approved callback access_key bucket method =
      (req : Request) × (query_dict : Assoc Bytes) × (req.method ≡ method)
      × (validate_request access_key bucket (details p.web req query_dict) callback
            (unwrap_or settings.validator_takes_request false)
          ≡ some true)

  abbrev pub Honest : Callback → C → Type 0
  Honest callback cache =
      (key : Bytes) (entry : AuthEntry)
      → p.lru.peek key cache ≡ some entry
      → entry.authorized ≡ true
      → (access_key bucket method : Bytes) × (key ≡ decision_key access_key bucket method)
        × Lacks b':' bucket
        × Lacks b':' method
        × Approved callback access_key bucket method

  abbrev pub Known : Assoc Bytes → Type 0
  Known keystore =
      (access_key secret_key : Bytes)
      → lookup access_key keystore ≡ some secret_key
      → Origin access_key secret_key

  -- Every yes in the cache is the validator's, and every key in the store the client's.
  abbrev pub Sound : Callback → World C → Type 0
  Sound callback w = Honest callback w.auth_cache × Known w.hmac_keystore

  abbrev pub Identified : Request → Bytes → Bytes → Type 0
  Identified req bucket access_key =
      ((rest : Bytes) × (parse_path p.nom req.uri.path ≡ ok (bucket, rest)))
      × ((now : DateTime) (times : Instants)
          → access_key_of p settings now times req ≡ some access_key)

  abbrev pub SignedBefore : Request → Bytes → Type 0
  SignedBefore req access_key =
      (skips_signature settings req ≡ true)
      ⊎ ((secret_key : Bytes) × Origin access_key secret_key × Valid req secret_key)

  module _ (callback : Callback) where
    abbrev pub Asked : Request → Question → Type 0
    Asked req q = (q.callback ≡ callback) × Identified req q.bucket q.access_key

    abbrev pub Cleared : Request → Bytes → Bytes → Type 0
    Cleared req bucket access_key =
        Identified req bucket access_key
        × SignedBefore req access_key
        × Approved callback access_key bucket req.method

    -- What a request has shown where it stands.
    unfoldable pub Shown : Request → Assoc CosMapItem → Phase → Type 0
    Shown req cos_mapping arrived = Unit
    Shown req cos_mapping counted = Unit
    Shown req cos_mapping listing = Unit
    Shown req cos_mapping routing = Unit
    Shown req cos_mapping (identifying bucket config) =
        (rest : Bytes) × (parse_path p.nom req.uri.path ≡ ok (bucket, rest))
    Shown req cos_mapping (signing q) = Asked req q
    Shown req cos_mapping (ensuring how q) = Asked req q
    Shown req cos_mapping (taking how q) = Asked req q
    Shown req cos_mapping (checking how secret_key q) = Asked req q × Origin q.access_key secret_key
    Shown req cos_mapping (asking q) = Asked req q × SignedBefore req q.access_key
    Shown req cos_mapping (missed query_dict q) = Asked req q × SignedBefore req q.access_key
    Shown req cos_mapping (storing authorized q) =
        Asked req q
        × SignedBefore req q.access_key
        × (authorized ≡ true → Approved callback q.access_key q.bucket req.method)
    Shown req cos_mapping (judged authorized q) =
        Asked req q
        × SignedBefore req q.access_key
        × (authorized ≡ true → Approved callback q.access_key q.bucket req.method)
    Shown req cos_mapping (granting bucket config access_key) = Cleared req bucket access_key
    Shown req cos_mapping (granted bucket) =
        ((access_key : Bytes) × Cleared req bucket access_key) × HasCredentials bucket cos_mapping
    Shown req cos_mapping waved = expects_continue p.web req ≡ true

    -- What others do to the mapping takes nothing away.
    pub Shown-Grows :
        (req : Request) (before after : Assoc CosMapItem) (phase : Phase)
        → Grows before after
        → Shown req before phase
        → Shown req after phase
    unfolding Shown
    Shown-Grows req before after (granted bucket) grows (cleared, has) = (cleared, grows bucket has)
    Shown-Grows req before after arrived grows h = h
    Shown-Grows req before after counted grows h = h
    Shown-Grows req before after listing grows h = h
    Shown-Grows req before after routing grows h = h
    Shown-Grows req before after (identifying bucket config) grows h = h
    Shown-Grows req before after (signing q) grows h = h
    Shown-Grows req before after (ensuring how q) grows h = h
    Shown-Grows req before after (taking how q) grows h = h
    Shown-Grows req before after (checking how secret_key q) grows h = h
    Shown-Grows req before after (asking q) grows h = h
    Shown-Grows req before after (missed query_dict q) grows h = h
    Shown-Grows req before after (storing authorized q) grows h = h
    Shown-Grows req before after (judged authorized q) grows h = h
    Shown-Grows req before after (granting bucket config access_key) grows h = h
    Shown-Grows req before after waved grows h = h
