-- ===== src/Examples/Decided.antt =====
-- The cache of decisions, and the credentials of buckets.
use object_storage_proxy.Base.{
  ◌*◌, ◌-◌, beq, if◌then◌else◌, ◌^◌, ◌≡◌, ◌≢◌, ◌⊎◌, ◌↔◌, inl, refl, true, false, ◌||◌, [], ◌∷◌,
  Option, none, some, ◌>>=◌, arith, Bytes, codes, Assoc, lookup, insert, remove, lookup-insert_self,
  lookup-insert_ne, lookup-remove, beq_refl, beq_iff,
}
use object_storage_proxy.Authorization.{
  AuthEntry, LruCache, decided, panic, fresh, validate_locked, get_or_validate, invalidate,
}
use object_storage_proxy.Authorization.Decisions.{
  get_or_validate_source, validate_never_expires, invalidate_asks,
}
use object_storage_proxy.Base.{◌++◌}
use object_storage_proxy.Gate.Validate.{decision_key}
use object_storage_proxy.Gate.DecisionKeys.{get_or_validate_shared}
use object_storage_proxy.CosMap.{CosMapItem, Json, has_hmac, has_api_key, parse, ensure_credentials}
use object_storage_proxy.CosMap.Ensured.{
  SameBackend, ensure_credentials-has, ensure_credentials-eq_none, ensure_credentials_idem,
}

pub peek_popped : (k : Bytes) (c : Assoc AuthEntry) → lookup k (remove k c) ≡ none
peek_popped k c = ground (arith, lookup-remove k k c, beq_refl k)

pub peek_others : (k j : Bytes) (c : Assoc AuthEntry) → k ≢ j → lookup j (remove k c) ≡ lookup j c
peek_others k j c ne = ground (arith, lookup-remove k j c, beq_iff k j)

-- A cache that never evicts.
abbrev pub unbounded : LruCache (Assoc AuthEntry)
unbounded = record {
  peek = lookup;
  put = insert;
  pop = remove;
  peek-put_self = λ k e c. lookup-insert_self k e c;
  peek-put_ne = λ k j e c ne. inl (lookup-insert_ne k j e c ne);
  peek-pop_self = peek_popped;
  peek-pop_ne = peek_others;
}

abbrev entry : AuthEntry
entry = record { authorized = true; expires_at = 9 * 10 ^ 9 }

abbrev entries : Assoc AuthEntry
entries = (codes "t", entry) ∷ []

get_or_validate_source_run :
    (((get_or_validate unbounded (codes "t") 60 5 5 5 none entries entries).called ≡ true)
      × (none ≡ some true))
    ⊎ (((get_or_validate unbounded (codes "t") 60 5 5 5 none entries entries).called ≡ false)
        × ((fresh unbounded (codes "t") 5 entries ≡ some true)
            ⊎ (fresh unbounded (codes "t") 5 entries ≡ some true)))
get_or_validate_source_run =
    get_or_validate_source unbounded (codes "t") 60 5 5 5 none entries entries true
      (unfold get_or_validate fresh lookup in refl)

validate_never_expires_run :
    (validate_locked unbounded (codes "u") (2 ^ 64 - 1) 5 6 (some true) entries).verdict ≡ panic
validate_never_expires_run =
    validate_never_expires unbounded (codes "u") 5 6 true entries (unfold fresh lookup in refl)

invalidate_asks_run :
    (get_or_validate unbounded
      (codes "t")
      60
      5
      6
      7
      (some true)
      (invalidate unbounded (codes "t") entries)
      (invalidate unbounded (codes "t") entries)).called
    ≡ true
invalidate_asks_run = invalidate_asks unbounded (codes "t") 60 5 6 7 (some true) entries

-- Texts stand for JSON values; each is an object with the one key `api_key`.
abbrev pub sample_json : Json Bytes
sample_json = record {
  from_str = λ s. some s;
  get = λ v k. if beq k (codes "api_key") then some v else none;
  as_str = λ v. some v;
}

abbrev bare : CosMapItem
bare = record {
  host = codes "s3.example.com";
  port = 443;
  region = none;
  api_key = none;
  access_key = none;
  secret_key = none;
  ttl = none;
  tls = none;
  addressing_style = none;
}

abbrev secret_fetcher : Option (Bytes → Option Bytes)
secret_fetcher = some (λ bucket. some (codes "secret"))

bare_filled :
    (ensure_credentials sample_json bare (codes "b") secret_fetcher).0
    ≡ some (record bare { api_key = some (codes "secret") })
unfolding ensure_credentials has_hmac has_api_key parse
bare_filled = refl

ensure_credentials-has_run :
    ((has_hmac (record bare { api_key = some (codes "secret") })
        || has_api_key (record bare { api_key = some (codes "secret") }))
      ≡ true)
    × SameBackend bare (record bare { api_key = some (codes "secret") })
ensure_credentials-has_run =
    ensure_credentials-has sample_json bare (record bare { api_key = some (codes "secret") })
      (codes "b") secret_fetcher bare_filled

abbrev no_fetcher : Option (Bytes → Option Bytes)
no_fetcher = none

ensure_credentials-eq_none_run :
    ((ensure_credentials sample_json bare (codes "b") no_fetcher).0 ≡ none) ↔ (
      ((has_hmac bare || has_api_key bare) ≡ false)
      × ((do fetch ← no_fetcher; fetch (codes "b")) ≡ none))
ensure_credentials-eq_none_run = ensure_credentials-eq_none sample_json bare (codes "b") no_fetcher

ensure_credentials_idem_run :
    ensure_credentials sample_json
      (record bare { api_key = some (codes "secret") })
      (codes "b")
      none
    ≡ (some (record bare { api_key = some (codes "secret") }), false)
ensure_credentials_idem_run =
    ensure_credentials_idem sample_json bare (record bare { api_key = some (codes "secret") })
      (codes "b") secret_fetcher none bare_filled

-- Client `A` is refused bucket `b:c`; client `A:b` shares this answer for bucket `c`.
get_or_validate_shared_example :
    get_or_validate unbounded
      (decision_key (codes "A" ++ (b':' ∷ codes "b")) (codes "c") (codes "GET"))
      60
      7
      7
      7
      (some true)
      (validate_locked unbounded
        (decision_key (codes "A") (codes "b" ++ (b':' ∷ codes "c")) (codes "GET"))
        60
        5
        6
        (some false)
        entries).cache
      entries
    ≡ record {
      verdict = decided false;
      cache =
          (validate_locked unbounded
            (decision_key (codes "A") (codes "b" ++ (b':' ∷ codes "c")) (codes "GET"))
            60
            5
            6
            (some false)
            entries).cache;
      called = false;
    }
get_or_validate_shared_example =
    get_or_validate_shared unbounded (codes "A") (codes "b") (codes "c") (codes "GET") 60 5 6 7 7 7
      false (some true) entries entries (unfold fresh lookup decision_key in refl) (omega arith)
      (omega arith)
