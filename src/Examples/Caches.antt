-- ===== src/Examples/Caches.antt =====
-- The caches of signing keys and tokens, and the tracker.
use object_storage_proxy.Base.{
  ◌<◌, ◌≡◌, refl, true, false, [], ◌∷◌, none, some, arith, Bytes, codes, lookup, All, starts_with,
}
use object_storage_proxy.Base.{◌≢◌, ◌++◌, ◌∷◌}
use object_storage_proxy.Signing.Key.{KeyCache, derive, signing_key}
use object_storage_proxy.Signing.Key.Cache.{
  IsPlain, IsValid, signing_key-IsValid, signing_key_evicts, signing_key_collision,
}
use object_storage_proxy.Signing.AwsSign.{AwsSign, canonical_request, string_to_sign, sign}
use object_storage_proxy.Signing.AwsSign.Equivalence.{sign-specified}
use object_storage_proxy.Signing.Specification
use object_storage_proxy.Tracker.{UrlTracker, new}
use object_storage_proxy.Tracker
use object_storage_proxy.Tracker.Counting.{count_of, track_all, count_of-track_all}
use object_storage_proxy.Secrets.{SecretValue, SecretsCache, IamResponse, is_expired, renew, get}
use object_storage_proxy.Secrets.Freshness.{get_cached, get_again, get_failed, get_underflow}
use object_storage_proxy.Examples.Sample.{sample_crypto, sample_calendar}

nil-IsValid : IsValid sample_crypto []
unfolding lookup
nil-IsValid = record { entry = λ date region service secret_key key plain found. cc }

sample-IsPlain : IsPlain (codes "20250501") (codes "eu") (codes "s3")
sample-IsPlain = ground arith

abbrev request : AwsSign
request = record {
  method = codes "GET";
  url = record { path = codes "/b/k"; query_pairs = (codes "x", codes "1") ∷ [] };
  datetime = 7;
  region = codes "eu";
  access_key = codes "AK";
  secret_key = codes "SK";
  headers = (codes "x-amz-date", codes " d") ∷ (codes "host", codes "h") ∷ [];
  payload_override = none;
  service = codes "s3";
  body = [];
}

sign-specified_example :
    ((sign sample_crypto sample_calendar request []).0
      ≡ Specification.header sample_crypto sample_calendar request)
    × IsValid sample_crypto (sign sample_crypto sample_calendar request []).1
    × (canonical_request sample_crypto request ≡ Specification.request sample_crypto request)
    × (string_to_sign sample_crypto sample_calendar request.datetime request.region
          (canonical_request sample_crypto request)
          request.service
        ≡ Specification.text_to_sign sample_crypto sample_calendar request)
sign-specified_example =
    sign-specified sample_crypto sample_calendar request [] sample-IsPlain nil-IsValid

signing_key-IsValid_example :
    ((signing_key sample_crypto sample_calendar 7 (codes "SK") (codes "eu") (codes "s3") []).0
      ≡ derive sample_crypto (codes "20250501") (codes "SK") (codes "eu") (codes "s3"))
    × IsValid sample_crypto
        (signing_key sample_crypto sample_calendar 7 (codes "SK") (codes "eu") (codes "s3") []).1
signing_key-IsValid_example =
    signing_key-IsValid sample_crypto sample_calendar 7 (codes "SK") (codes "eu") (codes "s3") []
      sample-IsPlain nil-IsValid

-- A key of the day before.
abbrev yesterday : KeyCache
yesterday = (codes "20250430:eu:s3:SK", codes "old") ∷ []

signing_key_evicts_run :
    All
      (λ (e : Bytes × Bytes). starts_with (codes "20250501") e.0 ≡ true)
      (signing_key sample_crypto sample_calendar 7
        (codes "SK")
        (codes "eu")
        (codes "s3")
        yesterday).1
signing_key_evicts_run =
    signing_key_evicts sample_crypto sample_calendar 7 (codes "SK") (codes "eu") (codes "s3")
      yesterday (unfold lookup in refl)

-- The region `eu:b` with the service `s3`, and the region `eu` with the service `b:s3`.
signing_key_collision_example :
    ((codes "eu" ++ (b':' ∷ codes "b")) ≢ codes "eu")
    × ((signing_key sample_crypto sample_calendar 7
          (codes "SK")
          (codes "eu")
          (codes "b" ++ (b':' ∷ codes "s3"))
          (signing_key sample_crypto sample_calendar 7
            (codes "SK")
            (codes "eu" ++ (b':' ∷ codes "b"))
            (codes "s3")
            []).1).0
        ≡ derive sample_crypto
            (codes "20250501")
            (codes "SK")
            (codes "eu" ++ (b':' ∷ codes "b"))
            (codes "s3"))
signing_key_collision_example =
    signing_key_collision sample_crypto sample_calendar 7 (codes "SK") (codes "eu") (codes "b")
      (codes "s3")

count_of-track_all_run :
    count_of (track_all new (codes "u" ∷ codes "v" ∷ codes "u" ∷ [])) (codes "u") ≡ 2
unfolding Tracker.get lookup
count_of-track_all_run =
    count_of-track_all (codes "u" ∷ codes "v" ∷ codes "u" ∷ []) new (codes "u") (omega arith)

abbrev token : SecretValue
token = record { value = codes "tok"; expiration = 5000 }

abbrev tokens : SecretsCache
tokens = (codes "b", token) ∷ []

get_cached_example :
    (s : SecretValue) × (lookup (codes "b") tokens ≡ some s)
    × ((get (codes "b") 100 none tokens).token ≡ some s.value)
    × (400 < s.expiration)
    × ((get (codes "b") 100 none tokens).cache ≡ tokens)
get_cached_example =
    get_cached (codes "b") 100 none tokens (λ s found. unfold lookup in ground arith)
      (unfold get lookup is_expired in refl)

abbrev answer : IamResponse
answer = record { access_token = codes "new"; expires_in = 3600; expiration = 9000 }

get_again_run :
    ((get (codes "b") 4900 (some answer) tokens).token ≡ some (codes "new"))
    × ((get (codes "b") 5000 none (get (codes "b") 4900 (some answer) tokens).cache).token
        ≡ some (codes "new"))
    × ((get (codes "b") 5000 none (get (codes "b") 4900 (some answer) tokens).cache).fetched
        ≡ false)
get_again_run =
    get_again (codes "b") 4900 5000 answer none tokens (unfold get lookup is_expired renew in refl)
      (omega arith) (omega arith)

get_failed_run :
    ((get (codes "b") 4900 none tokens).token ≡ none)
    × ((get (codes "b") 4900 none tokens).cache ≡ tokens)
get_failed_run = get_failed (codes "b") 4900 tokens (unfold get lookup is_expired renew in refl)

-- An expiry of 200, asked for at a time long after.
get_underflow_example :
    (get
      (codes "b")
      4900
      none
      ((codes "b", record { value = codes "tok"; expiration = 200 }) ∷ [])).token
    ≡ some (codes "tok")
get_underflow_example =
    get_underflow (codes "b") 4900 none
      ((codes "b", record { value = codes "tok"; expiration = 200 }) ∷ [])
      (record { value = codes "tok"; expiration = 200 }) (unfold lookup in refl) (omega arith)
      (omega arith)
