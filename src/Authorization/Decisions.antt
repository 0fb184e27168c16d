-- ===== src/Authorization/Decisions.antt =====
-- Where the decisions come from, and how long they last.
use object_storage_proxy.Base.{
  ℕ, ◌+◌, ◌-◌, ◌*◌, ◌/◌, ◌^◌, ◌<◌, ◌≡◌, ◌⊎◌, Bool, true, false, Option, none, some, arith, Bytes,
}
use object_storage_proxy.Authorization.{
  AuthEntry, LruCache, second, add_ttl, decided, panic, fresh, remember, validate_locked,
  get_or_validate, invalidate,
}

module _ {C : Type 0} (lru : LruCache C) where
  -- A decision is the validator's, or that of an entry that had not expired when it was read; and
  -- without a call of the validator it is always such an entry's.
  pub get_or_validate_source :
      (key : Bytes) (ttl first looked written : ℕ) (decision : Option Bool) (before cache : C)
      (b : Bool)
      → (get_or_validate lru key ttl first looked written decision before cache).verdict ≡ decided b
      → (((get_or_validate lru key ttl first looked written decision before cache).called ≡ true)
          × (decision ≡ some b))
        ⊎ (((get_or_validate lru key ttl first looked written decision before cache).called ≡ false)
            × ((fresh lru key first before ≡ some b) ⊎ (fresh lru key looked cache ≡ some b)))
  unfolding get_or_validate validate_locked
  get_or_validate_source key ttl first looked written decision before cache b h = ground arith

  remember-fresh :
      (key : Bytes) (written ttl later : ℕ) (b : Bool) (cache : C)
      → written / second + ttl < 2 ^ 63
      → later < written + ttl * second
      → (cache' : C) × (remember lru key written ttl b cache ≡ some cache')
        × (fresh lru key later cache' ≡ some b)
  unfolding remember fresh add_ttl
  remember-fresh key written ttl later b cache fits early =
      let e : AuthEntry = record { authorized = b; expires_at = written + ttl * second } in
      (lru.put key e cache, ground arith, ground (arith, lru.peek-put_self key e cache))

  pub get_or_validate_again :
      (key : Bytes) (ttl looked written later looked' written' : ℕ) (b : Bool)
      (decision' : Option Bool) (cache cache' : C)
      → fresh lru key looked cache ≡ none
      → written / second + ttl < 2 ^ 63
      → later < written + ttl * second
      → (get_or_validate lru key ttl later looked' written' decision'
          (validate_locked lru key ttl looked written (some b) cache).cache
          cache')
        ≡ record {
          verdict = decided b;
          cache = (validate_locked lru key ttl looked written (some b) cache).cache;
          called = false;
        }
  unfolding get_or_validate validate_locked
  get_or_validate_again key ttl looked written later looked' written' b d c c' missed fits early =
      let (stored, put, found) = remember-fresh key written ttl later b c fits early in
      ground (arith, missed, put, found)

  -- With the time to live at the largest u64, which the bucket configuration is documented to take
  -- for "no expiry", every decision of the validator ends in a panic.
  pub validate_never_expires :
      (key : Bytes) (looked written : ℕ) (b : Bool) (cache : C)
      → fresh lru key looked cache ≡ none
      → (validate_locked lru key (2 ^ 64 - 1) looked written (some b) cache).verdict ≡ panic
  unfolding validate_locked remember add_ttl
  validate_never_expires key looked written b cache missed = ground (arith, missed)

  -- After an invalidation nothing is found, and the validator is asked.
  pub invalidate_asks :
      (key : Bytes) (ttl first looked written : ℕ) (decision : Option Bool) (cache : C)
      → (get_or_validate lru key ttl first looked written decision
          (invalidate lru key cache)
          (invalidate lru key cache)).called
        ≡ true
  unfolding get_or_validate validate_locked fresh invalidate
  invalidate_asks key ttl first looked written decision cache =
      ground (arith, lru.peek-pop_self key cache)
