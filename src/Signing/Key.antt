-- ===== src/Signing/Key.antt =====
-- `scope_string`, and `signing_key` with its cache.
pub mod Cache
use object_storage_proxy.Base.{
  ℕ, Bool, true, false, Option, none, some, List, [], ◌∷◌, ◌++◌, if◌then◌else◌, Bytes, codes,
  starts_with, Assoc, lookup, insert,
}
use object_storage_proxy.External.{Crypto, Calendar, DateTime}

-- SIGNING_KEY_CACHE
abbrev pub KeyCache : Type 0
KeyCache = Assoc Bytes

-- `YYYYMMDD:{region}:{service}:{secret_key}`
abbrev pub cache_key : Bytes → Bytes → Bytes → Bytes → Bytes
cache_key date region service secret_key =
    date ++ (b':' ∷ (region ++ (b':' ∷ (service ++ (b':' ∷ secret_key)))))

unfoldable pub retain : Bytes → KeyCache → KeyCache
retain date [] = []
retain date ((k, v) ∷ cache) =
    let rest = retain date cache in if starts_with date k then (k, v) ∷ rest else rest

unfoldable pub scope_string : Calendar → DateTime → Bytes → Bytes → Bytes
scope_string calendar datetime region service =
    calendar.short_date datetime ++ (b'/' ∷ (region ++ (b'/' ∷ (service ++ codes "/aws4_request"))))

-- The four chained digests.
unfoldable pub derive : Crypto → Bytes → Bytes → Bytes → Bytes → Bytes
derive crypto date secret_key region service =
    let date_tag = crypto.hmac_sign (codes "AWS4" ++ secret_key) date in
    let region_tag = crypto.hmac_sign date_tag region in
    let service_tag = crypto.hmac_sign region_tag service in
    crypto.hmac_sign service_tag (codes "aws4_request")

-- The key, and the cache afterwards. The result is never an error.
unfoldable pub signing_key :
    Crypto → Calendar → DateTime → Bytes → Bytes → Bytes → KeyCache → Bytes × KeyCache
signing_key crypto calendar datetime secret_key region service cache =
    let date_str = calendar.short_date datetime in
    let key = cache_key date_str region service secret_key in
    elim (lookup key cache) [
      | some cached ↦ (cached, cache)
      | none ↦
          let derived = derive crypto date_str secret_key region service in
          (derived, insert key derived (retain date_str cache))
    ]
