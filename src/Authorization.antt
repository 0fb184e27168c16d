-- ===== src/Authorization.antt =====
-- `AuthCache` of utils/validator.rs: decisions with a time to live, over the `lru` crate's cache.
pub mod Decisions
pub mod Tasks
use object_storage_proxy.Base.{
  ℕ, ◌+◌, ◌*◌, ◌/◌, ◌^◌, ◌≡◌, ◌≢◌, ◌⊎◌, Bool, true, false, Option, none, some, ltb, if◌then◌else◌,
  Bytes,
}

-- Instants are counted in nanoseconds.
pub record AuthEntry : Type 0 where
  pub authorized : Bool
  pub expires_at : ℕ

-- `LruCache<String, AuthEntry>`. A write may evict the entry of another key; a `peek` changes
-- nothing.
pub record LruCache (C : Type 0) : Type 0 where
  pub peek : Bytes → C → Option AuthEntry
  pub put : Bytes → AuthEntry → C → C
  pub pop : Bytes → C → C
  pub peek-put_self : (k : Bytes) (e : AuthEntry) (c : C) → peek k (put k e c) ≡ some e
  pub peek-put_ne :
      (k j : Bytes) (e : AuthEntry) (c : C)
      → k ≢ j
      → (peek j (put k e c) ≡ peek j c) ⊎ (peek j (put k e c) ≡ none)
  pub peek-pop_self : (k : Bytes) (c : C) → peek k (pop k c) ≡ none
  pub peek-pop_ne : (k j : Bytes) (c : C) → k ≢ j → peek j (pop k c) ≡ peek j c

abbrev pub second : ℕ
second = 10 ^ 9

-- `Instant + Duration`: an instant holds its seconds in an i64, and the sum panics beyond that.
unfoldable pub add_ttl : ℕ → ℕ → Option ℕ
add_ttl now ttl = if ltb (now / second + ttl) (2 ^ 63) then some (now + ttl * second) else none

-- What a call ends with: a decision, the validator's error, or a panic.
pub data Verdict : Type 0 where
  decided : Bool → Verdict
  failed : Verdict
  panic : Verdict

pub record Validated (C : Type 0) : Type 0 where
  pub verdict : Verdict
  pub cache : C
  pub called : Bool

module _ {C : Type 0} (lru : LruCache C) where
  -- An entry that has not expired.
  unfoldable pub fresh : Bytes → ℕ → C → Option Bool
  fresh key now cache = elim (lru.peek key cache) [
    | none ↦ none
    | some entry ↦ if ltb now entry.expires_at then some entry.authorized else none
  ]

  -- `map.put(key, AuthEntry { authorized, expires_at: Instant::now() + ttl })`
  unfoldable pub remember : Bytes → ℕ → ℕ → Bool → C → Option C
  remember key now ttl authorized cache = elim (add_ttl now ttl) [
    | none ↦ none
    | some expires_at ↦
        some (lru.put key (record { authorized = authorized; expires_at = expires_at }) cache)
  ]

  -- Under the lock of the key: the second look, the validator, the write. The decision is the
  -- validator's answer, `none` if it fails.
  unfoldable pub validate_locked : Bytes → ℕ → ℕ → ℕ → Option Bool → C → Validated C
  validate_locked key ttl looked written decision cache = elim (fresh key looked cache) [
    | some authorized ↦ record { verdict = decided authorized; cache = cache; called = false }
    | none ↦ elim decision [
      | none ↦ record { verdict = failed; cache = cache; called = true }
      | some authorized ↦ elim (remember key written ttl authorized cache) [
        | none ↦ record { verdict = panic; cache = cache; called = true }
        | some cache' ↦ record { verdict = decided authorized; cache = cache'; called = true }
      ]
    ]
  ]

  -- The clock is read up to three times, and other tasks may have changed the cache between the
  -- first look (`before`) and the second, which waits for the lock.
  unfoldable pub get_or_validate : Bytes → ℕ → ℕ → ℕ → ℕ → Option Bool → C → C → Validated C
  get_or_validate key ttl first looked written decision before cache =
      elim (fresh key first before) [
        | some authorized ↦ record { verdict = decided authorized; cache = before; called = false }
        | none ↦ validate_locked key ttl looked written decision cache
      ]

  unfoldable pub insert : Bytes → Bool → ℕ → ℕ → C → Option C
  insert key authorized ttl now cache = remember key now ttl authorized cache

  unfoldable pub invalidate : Bytes → C → C
  invalidate key cache = lru.pop key cache
