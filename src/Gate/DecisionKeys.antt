-- ===== src/Gate/DecisionKeys.antt =====
-- The keys under which `request_filter` of lib.rs keeps the validator's decisions: the parts are
-- joined with colons, without escaping.
use object_storage_proxy.Base.{
  false, ℕ, ◌+◌, ◌*◌, ◌/◌, ◌^◌, ◌<◌, ◌≡◌, ◌≢◌, refl, sym, ap, ◌∙◌, Bool, none, some, Option, [],
  ◌∷◌, ◌++◌, append_assoc, arith, Bytes, Lacks,
}
use object_storage_proxy.Authorization.{
  LruCache, second, decided, fresh, get_or_validate, validate_locked,
}
use object_storage_proxy.Authorization.Decisions.{get_or_validate_again}
use object_storage_proxy.Gate.Validate.{decision_key}

some-Lacks : (c : ℕ) (s q t : Bytes) → Lacks c s → s ≢ q ++ (c ∷ t)
some-Lacks c [] [] t l e = cc
some-Lacks c [] (d ∷ q) t l e = cc
some-Lacks c (b ∷ s) [] t l e = ground arith
some-Lacks c (b ∷ s) (d ∷ q) t l e = ground (arith, some-Lacks c s q t l.1)

-- A text is cut in one way at the last separator.
append-injective_last :
    (c : ℕ) (p q s t : Bytes)
    → Lacks c s
    → Lacks c t
    → p ++ (c ∷ s) ≡ q ++ (c ∷ t)
    → (p ≡ q) × (s ≡ t)
append-injective_last c [] [] s t ls lt e = (refl, ground arith)
append-injective_last c [] (d ∷ q) s t ls lt e = ground (arith, some-Lacks c s q t ls)
append-injective_last c (d ∷ p) [] s t ls lt e = ground (arith, some-Lacks c t p s lt)
append-injective_last c (d ∷ p) (b ∷ q) s t ls lt e =
    ground (arith, append-injective_last c p q s t ls lt)

decision_key_cut :
    (access_key bucket method : Bytes)
    → decision_key access_key bucket method ≡ (access_key ++ (b':' ∷ bucket)) ++ (b':' ∷ method)
unfolding decision_key
decision_key_cut access_key bucket method =
    sym (append_assoc access_key (b':' ∷ bucket) (b':' ∷ method))

-- Where neither the bucket nor the method holds a colon, a decision belongs to one access key, one
-- bucket and one method, whatever the access keys.
pub decision_key-injective :
    (access_key bucket method access_key' bucket' method' : Bytes)
    → Lacks b':' bucket
    → Lacks b':' method
    → Lacks b':' bucket'
    → Lacks b':' method'
    → decision_key access_key bucket method ≡ decision_key access_key' bucket' method'
    → (access_key ≡ access_key') × (bucket ≡ bucket') × (method ≡ method')
decision_key-injective ak b m ak' b' m' lb lm lb' lm' e =
    let cut = sym (decision_key_cut ak b m) ∙ (e ∙ decision_key_cut ak' b' m') in
    let (front, same_method) = append-injective_last b':' _ _ m m' lm lm' cut in
    let (same_key, same_bucket) = append-injective_last b':' ak ak' b b' lb lb' front in
    (same_key, same_bucket, same_method)

-- The part of a bucket's name before a colon can as well stand at the end of an access key.
decision_key_shared :
    (access_key rest bucket method : Bytes)
    → decision_key (access_key ++ (b':' ∷ rest)) bucket method
      ≡ decision_key access_key (rest ++ (b':' ∷ bucket)) method
unfolding decision_key
decision_key_shared ak rest b m =
    append_assoc ak (b':' ∷ rest) (b':' ∷ (b ++ (b':' ∷ m)))
    ∙ ap (λ (s : Bytes). ak ++ (b':' ∷ s)) (sym (append_assoc rest (b':' ∷ b) (b':' ∷ m)))

module _ {C : Type 0} (lru : LruCache C) where
  -- A bucket with a colon in its name shares its decisions with another bucket and another access
  -- key: when the validator has answered for `access_key` and the bucket `rest:bucket`, and the next
  -- call is for the access key `access_key:rest` and `bucket`, before the time to live is over, that
  -- call ends with this answer, and the validator is not called.
  pub get_or_validate_shared :
      (access_key rest bucket method : Bytes) (ttl looked written later looked' written' : ℕ)
      (b : Bool) (decision' : Option Bool) (cache cache' : C)
      → fresh lru (decision_key access_key (rest ++ (b':' ∷ bucket)) method) looked cache ≡ none
      → written / second + ttl < 2 ^ 63
      → later < written + ttl * second
      → (get_or_validate lru
          (decision_key (access_key ++ (b':' ∷ rest)) bucket method)
          ttl
          later
          looked'
          written'
          decision'
          (validate_locked lru
            (decision_key access_key (rest ++ (b':' ∷ bucket)) method)
            ttl
            looked
            written
            (some b)
            cache).cache
          cache')
        ≡ record {
          verdict = decided b;
          cache =
              (validate_locked lru
                (decision_key access_key (rest ++ (b':' ∷ bucket)) method)
                ttl
                looked
                written
                (some b)
                cache).cache;
          called = false;
        }
  get_or_validate_shared ak rest bucket m ttl looked written later looked' written' b decision'
        cache cache' missed fits early =
      let key = decision_key ak (rest ++ (b':' ∷ bucket)) m in
      ap
        (λ (k : Bytes).
          get_or_validate lru k ttl later looked' written' decision'
            (validate_locked lru key ttl looked written (some b) cache).cache cache')
        (decision_key_shared ak rest bucket m)
      ∙ get_or_validate_again lru key ttl looked written later looked' written' b decision' cache
          cache' missed fits early
