-- ===== src/Secrets/Freshness.antt =====
-- Which tokens the cache hands out.
use object_storage_proxy.Base.{
  ℕ, ◌+◌, ◌≤◌, ◌<◌, ◌≡◌, inl, inr, refl, ap, true, false, Option, none, some, arith, usize_mod,
  Bytes, lookup, lookup-insert_self, Option-cases,
}
use object_storage_proxy.Secrets.{
  SecretValue, SecretsCache, IamResponse, Got, is_expired, store, renew, get,
}

-- A token that is handed out without a fetch is the one in the cache, and it does not expire
-- within five minutes, if its expiry is at least 300 and a u64; the cache is as it was.
pub get_cached :
    (key : Bytes) (now : ℕ) (response : Option IamResponse) (cache : SecretsCache)
    → ((s : SecretValue)
        → lookup key cache ≡ some s
        → (300 ≤ s.expiration) × (s.expiration < usize_mod))
    → (get key now response cache).fetched ≡ false
    → (s : SecretValue) × (lookup key cache ≡ some s)
      × ((get key now response cache).token ≡ some s.value)
      × (now + 300 < s.expiration)
      × ((get key now response cache).cache ≡ cache)
unfolding get
get_cached key now response cache sane h = elim (Option-cases (lookup key cache)) [
  | inl missing ↦ ground arith
  | inr (s, found) ↦ (s, found, ground arith, ground (arith, sane s found), ground arith)
]

fetched_renews :
    (key : Bytes) (now : ℕ) (response : Option IamResponse) (cache : SecretsCache)
    → (get key now response cache).fetched ≡ true
    → get key now response cache ≡ renew key response cache
unfolding get
fetched_renews key now response cache h = ground arith

valid_hits :
    (key : Bytes) (now : ℕ) (response : Option IamResponse) (cache : SecretsCache) (s : SecretValue)
    → lookup key cache ≡ some s
    → is_expired now s ≡ false
    → get key now response cache ≡ record { token = some s.value; cache = cache; fetched = false }
unfolding get
valid_hits key now response cache s found fresh = rw (found, get, fresh)

stored_hits :
    (key : Bytes) (later : ℕ) (r : IamResponse) (response : Option IamResponse)
    (cache : SecretsCache)
    → r.expiration < usize_mod
    → later + 300 < r.expiration
    → get key later response (store key r.access_token r.expiration cache) ≡ record {
      token = some r.access_token;
      cache = store key r.access_token r.expiration cache;
      fetched = false;
    }
unfolding store is_expired
stored_hits key later r response cache fits early =
    valid_hits key later response _ (record { value = r.access_token; expiration = r.expiration })
      (lookup-insert_self key _ cache) (ground arith)

-- A token that was fetched is in the cache: until five minutes before its expiry the next call
-- returns it and fetches nothing.
pub get_again :
    (key : Bytes) (now later : ℕ) (r : IamResponse) (response : Option IamResponse)
    (cache : SecretsCache)
    → (get key now (some r) cache).fetched ≡ true
    → r.expiration < usize_mod
    → later + 300 < r.expiration
    → ((get key now (some r) cache).token ≡ some r.access_token)
      × ((get key later response (get key now (some r) cache).cache).token ≡ some r.access_token)
      × ((get key later response (get key now (some r) cache).cache).fetched ≡ false)
unfolding renew
get_again key now later r response cache h fits early =
    rw (fetched_renews key now (some r) cache h) (
      refl,
      ap (λ (g : Got). g.token) (stored_hits key later r response cache fits early),
      ap (λ (g : Got). g.fetched) (stored_hits key later r response cache fits early),
    )

-- A fetch that fails gives no token, and leaves the cache as it was.
pub get_failed :
    (key : Bytes) (now : ℕ) (cache : SecretsCache)
    → (get key now none cache).fetched ≡ true
    → ((get key now none cache).token ≡ none) × ((get key now none cache).cache ≡ cache)
unfolding get
get_failed key now cache h = ground arith

-- A cached token whose expiry is below 300 is never renewed: the subtraction wraps around, and the
-- token is handed out at any time that a clock can show.
pub get_underflow :
    (key : Bytes) (now : ℕ) (response : Option IamResponse) (cache : SecretsCache) (s : SecretValue)
    → lookup key cache ≡ some s
    → s.expiration < 300
    → now + 300 < usize_mod
    → (get key now response cache).token ≡ some s.value
unfolding is_expired
get_underflow key now response cache s found low clock =
    ap (λ (g : Got). g.token) (valid_hits key now response cache s found (ground arith))
