-- ===== src/Signing/Key/Cache.antt =====
-- The cache of signing keys.
use object_storage_proxy.Base.{ap, sym, append_assoc, ℕ, ◌≢◌, ◌++◌}
use object_storage_proxy.Base.{
  ◌≡◌, inl, inr, refl, ◌∙◌, true, none, some, [], ◌∷◌, arith, if◌then◌else◌, Bytes, beq, beq_iff,
  starts_with, lookup, lookup-nil, insert, remove, starts_with-append, lookup-insert, All, Lacks,
  Option-cases, Bool-cases, append-injective,
}
use object_storage_proxy.External.{Crypto, Calendar, DateTime}
use object_storage_proxy.Signing.Key.{KeyCache, cache_key, retain, derive, signing_key}

lookup-retain :
    (date k : Bytes) (cache : KeyCache)
    → lookup k (retain date cache) ≡ (if starts_with date k then lookup k cache else none)
unfolding lookup retain
lookup-retain date k [] = ground arith
lookup-retain date k ((j, v) ∷ cache) = ground (arith, lookup-retain date k cache, beq_iff j k)

All-retain :
    (date : Bytes) (cache : KeyCache)
    → All (λ (e : Bytes × Bytes). starts_with date e.0 ≡ true) (retain date cache)
unfolding retain
All-retain date [] = tt
All-retain date ((k, v) ∷ cache) = ground (arith, All-retain date cache)

All-remove :
    (date j : Bytes) (cache : KeyCache)
    → All (λ (e : Bytes × Bytes). starts_with date e.0 ≡ true) cache
    → All (λ (e : Bytes × Bytes). starts_with date e.0 ≡ true) (remove j cache)
unfolding remove
All-remove date j [] h = tt
All-remove date j ((k, v) ∷ cache) h = ground (arith, All-remove date j cache h.1)

-- Parts that can be told apart in a cache key.
abbrev pub IsPlain : Bytes → Bytes → Bytes → Type 0
IsPlain date region service = Lacks b':' date × Lacks b':' region × Lacks b':' service

pub cache_key-injective :
    (d r s k d' r' s' k' : Bytes)
    → IsPlain d r s
    → IsPlain d' r' s'
    → cache_key d r s k ≡ cache_key d' r' s' k'
    → (d ≡ d') × (r ≡ r') × (s ≡ s') × (k ≡ k')
cache_key-injective d r s k d' r' s' k' (pd, pr, ps) (pd', pr', ps') e =
    let (ed, e₁) = append-injective b':' d d' _ _ pd pd' e in
    let (er, e₂) = append-injective b':' r r' _ _ pr pr' e₁ in
    let (es, ek) = append-injective b':' s s' _ _ ps ps' e₂ in (ed, er, es, ek)

-- Every entry of plain parts is the key derived from them.
pub record IsValid (crypto : Crypto) (cache : KeyCache) : Type 0 where
  pub entry :
      (date region service secret_key key : Bytes)
      → IsPlain date region service
      → lookup (cache_key date region service secret_key) cache ≡ some key
      → key ≡ derive crypto date secret_key region service

retain-IsValid :
    (crypto : Crypto) (date : Bytes) (cache : KeyCache)
    → IsValid crypto cache
    → IsValid crypto (retain date cache)
retain-IsValid crypto date cache v = record {
  entry = λ d r s k key plain found.
      v.entry d r s k key plain (ground (arith, lookup-retain date (cache_key d r s k) cache));
}

insert-IsValid :
    (crypto : Crypto) (d r s k : Bytes) (cache : KeyCache)
    → IsPlain d r s
    → IsValid crypto cache
    → IsValid crypto (insert (cache_key d r s k) (derive crypto d k r s) cache)
insert-IsValid crypto d r s k cache plain v = record {
  entry = λ d' r' s' k' key plain' found.
      elim (Bool-cases (beq (cache_key d r s k) (cache_key d' r' s' k'))) [
        | inl same ↦
            let (ed, er, es, ek) =
              cache_key-injective d r s k d' r' s' k' plain plain' ((beq_iff _ _).0 same) in
            let hit : key ≡ derive crypto d k r s = ground (
              arith,
              lookup-insert (cache_key d r s k) (cache_key d' r' s' k') (derive crypto d k r s)
                  cache,
            ) in
            hit ∙ (λ i. derive crypto (ed i) (ek i) (er i) (es i))
        | inr other ↦ v.entry d' r' s' k' key plain' (
            ground (
              arith,
              lookup-insert (cache_key d r s k) (cache_key d' r' s' k') (derive crypto d k r s)
                  cache,
            ))
      ];
}

module _ (crypto : Crypto) (calendar : Calendar) (datetime : DateTime)
    (secret_key region service : Bytes) (cache : KeyCache) where
  -- From a valid cache, for parts without a colon, the key returned is the one derived from the
  -- secret, hit or miss, and the cache stays valid.
  pub signing_key-IsValid :
      IsPlain (calendar.short_date datetime) region service
      → IsValid crypto cache
      → ((signing_key crypto calendar datetime secret_key region service cache).0
          ≡ derive crypto (calendar.short_date datetime) secret_key region service)
        × IsValid crypto (signing_key crypto calendar datetime secret_key region service cache).1
  unfolding signing_key
  signing_key-IsValid plain v =
      let date = calendar.short_date datetime in
      let key = cache_key date region service secret_key in
      elim (Option-cases (lookup key cache)) [
        | inl miss ↦
            rw (miss, signing_key)
              (
                refl,
                insert-IsValid crypto date region service secret_key (retain date cache) plain
                    (retain-IsValid crypto date cache v),
              )
        | inr (cached, hit) ↦
            rw (hit, signing_key) (v.entry date region service secret_key cached plain hit, v)
      ]

  -- A miss leaves no entry of another day: every key of the cache begins with the date.
  pub signing_key_evicts :
      lookup (cache_key (calendar.short_date datetime) region service secret_key) cache ≡ none
      → All
          (λ (e : Bytes × Bytes). starts_with (calendar.short_date datetime) e.0 ≡ true)
          (signing_key crypto calendar datetime secret_key region service cache).1
  unfolding signing_key insert
  signing_key_evicts miss =
      let date = calendar.short_date datetime in
      rw (miss, signing_key)
        (starts_with-append date _, All-remove date _ (retain date cache) (All-retain date cache))

append_longer : (p : Bytes) (c : ℕ) (s : Bytes) → p ++ (c ∷ s) ≢ p
append_longer [] c s e = cc
append_longer (d ∷ p) c s e = ground (arith, append_longer p c s)

-- A part of a region behind a colon can as well stand at the start of a service.
cache_key_shared :
    (date region rest service secret_key : Bytes)
    → cache_key date (region ++ (b':' ∷ rest)) service secret_key
      ≡ cache_key date region (rest ++ (b':' ∷ service)) secret_key
cache_key_shared date region rest service secret_key =
    ap (λ (k : Bytes). date ++ (b':' ∷ k))
      (append_assoc region (b':' ∷ rest) (b':' ∷ (service ++ (b':' ∷ secret_key)))
        ∙ ap (λ (k : Bytes). region ++ (b':' ∷ k))
            (sym (append_assoc rest (b':' ∷ service) (b':' ∷ secret_key))))

-- Two different scopes of one day share an entry: when the key for the region `region:rest` and
-- `service` has been derived, from an empty cache, then `region` and the service `rest:service` are
-- given this same key, for the same secret, although theirs is derived from other parts.
pub signing_key_collision :
    (crypto : Crypto) (calendar : Calendar) (datetime : DateTime)
    (secret_key region rest service : Bytes)
    → ((region ++ (b':' ∷ rest)) ≢ region)
      × ((signing_key crypto calendar datetime secret_key region
            (rest ++ (b':' ∷ service))
            (signing_key crypto calendar datetime secret_key
              (region ++ (b':' ∷ rest))
              service
              []).1).0
          ≡ derive crypto
              (calendar.short_date datetime)
              secret_key
              (region ++ (b':' ∷ rest))
              service)
unfolding signing_key
signing_key_collision crypto calendar datetime k r rest s =
    let date = calendar.short_date datetime in
    let longer = r ++ (b':' ∷ rest) in
    let derived = derive crypto date k longer s in
    let found =
      lookup-insert (cache_key date longer s k) (cache_key date r (rest ++ (b':' ∷ s)) k) derived
        (retain date []) in
    (
      append_longer r b':' rest,
      ground (
        arith,
        found,
        lookup-nil {V = Bytes} (cache_key date longer s k),
        (beq_iff (cache_key date longer s k) (cache_key date r (rest ++ (b':' ∷ s)) k)).1
            (cache_key_shared date r rest s k),
      ),
    )
