-- ===== src/Lifecycle/Shared.antt =====
-- What the steps of a request do to the cache of decisions, the store of keys and the mapping of
-- buckets, which all requests share (lib.rs).
use object_storage_proxy.Base.{
  ◌+◌, ◌*◌, ℕ, ◌≡◌, ◌≢◌, inl, inr, sym, ap, ◌∙◌, subst, subst₂, Bool, true, ◌||◌, Option, none,
  some, arith, Bytes, Lacks, Assoc, lookup, insert, beq, beq_iff, lookup-insert, lookup-insert_self,
  Option-cases, Bool-cases,
}
use object_storage_proxy.Message.{Request, Http}
use object_storage_proxy.External.{DateTime}
use object_storage_proxy.CosMap.{CosMapItem, has_hmac, has_api_key, ensure_credentials}
use object_storage_proxy.CosMap.Ensured.{ensure_credentials-has}
use object_storage_proxy.Authorization.{AuthEntry, second, fresh, remember, add_ttl}
use object_storage_proxy.Gate.World.{Callback, Settings, World, next}
use object_storage_proxy.Gate.Keys.{ensure_key}
use object_storage_proxy.Gate.Validate.{Instants, decision_key}
use object_storage_proxy.Gate.DecisionKeys.{decision_key-injective}
use object_storage_proxy.Gate.Filter.{Packages, fetcher_for, grant}
use object_storage_proxy.Lifecycle.Evidence.{HasCredentials, Grows, Approved, Honest, Known, Origin}

module _ {C J : Type 0} (p : Packages C J) (settings : Settings) (stored : Assoc Bytes)
    (Valid : Request → Bytes → Type 0) where
  fresh-entry :
      (key : Bytes) (now : ℕ) (b : Bool) (cache : C)
      → fresh p.lru key now cache ≡ some b
      → (entry : AuthEntry) × (p.lru.peek key cache ≡ some entry) × (entry.authorized ≡ b)
  unfolding fresh
  fresh-entry key now b cache h = elim (Option-cases (p.lru.peek key cache)) [
    | inl missing ↦ ground (arith, missing)
    | inr (entry, found) ↦ (entry, found, ground (arith, found))
  ]

  -- A yes that is read from the cache is the validator's for the same request.
  pub fresh-Approved :
      (callback : Callback) (access_key bucket method : Bytes) (now : ℕ) (b : Bool) (cache : C)
      → Honest p settings stored Valid callback cache
      → Lacks b':' bucket
      → Lacks b':' method
      → fresh p.lru (decision_key access_key bucket method) now cache ≡ some b
      → b ≡ true
      → Approved p settings stored Valid callback access_key bucket method
  fresh-Approved callback ak bucket method now b cache honest plain_bucket plain_method found
        yes_said =
      let (entry, there, answer) = fresh-entry (decision_key ak bucket method) now b cache found in
      let (ak', bucket', method', same, plain_bucket', plain_method', approved) =
        honest (decision_key ak bucket method) entry there (answer ∙ yes_said) in
      let (e₁, e₂, e₃) =
        decision_key-injective ak bucket method ak' bucket' method' plain_bucket plain_method
          plain_bucket' plain_method' same in
      let (req, query_dict, of_method, says) = approved in (req, query_dict, of_method ∙ sym e₃, cc)

  put-Honest :
      (callback : Callback) (access_key bucket method : Bytes) (entry : AuthEntry) (cache : C)
      → Honest p settings stored Valid callback cache
      → Lacks b':' bucket
      → Lacks b':' method
      → (entry.authorized ≡ true
          → Approved p settings stored Valid callback access_key bucket method)
      → Honest p settings stored Valid callback
          (p.lru.put (decision_key access_key bucket method) entry cache)
  put-Honest callback ak bucket method entry cache honest plain_bucket plain_method approved k e
        found yes_said =
      let key = decision_key ak bucket method in
      elim (Bool-cases (beq key k)) [
        | inl yes_same ↦
            let same : key ≡ k = (beq_iff key k).0 yes_same in
            let put_there : entry ≡ e =
              ground (arith, same, found, p.lru.peek-put_self key entry cache) in
            (
              ak,
              bucket,
              method,
              sym same,
              plain_bucket,
              plain_method,
              approved (ap (λ (x : AuthEntry). x.authorized) put_there ∙ yes_said),
            )
        | inr differs ↦
            let ne : key ≢ k = (λ q. ground (arith, differs, q, beq_iff key k)) in
            elim (p.lru.peek-put_ne key k entry cache ne) [
              | inl same ↦ honest k e (sym same ∙ found) yes_said
              | inr gone ↦ ground (arith, gone, found)
            ]
      ]

  -- A decision that is kept leaves the cache honest.
  pub remember-Honest :
      (callback : Callback) (access_key bucket method : Bytes) (written ttl : ℕ) (b : Bool)
      (cache cache' : C)
      → Honest p settings stored Valid callback cache
      → Lacks b':' bucket
      → Lacks b':' method
      → (b ≡ true → Approved p settings stored Valid callback access_key bucket method)
      → remember p.lru (decision_key access_key bucket method) written ttl b cache ≡ some cache'
      → Honest p settings stored Valid callback cache'
  unfolding remember add_ttl
  remember-Honest callback ak bucket method written ttl b cache cache' honest plain_bucket
        plain_method approved h =
      let entry : AuthEntry = record { authorized = b; expires_at = written + ttl * second } in
      let put : p.lru.put (decision_key ak bucket method) entry cache ≡ cache' = ground arith in
      subst (Honest p settings stored Valid callback) put
        (put-Honest callback ak bucket method entry cache honest plain_bucket plain_method approved)

  insert-Known :
      (access_key k : Bytes) (keystore : Assoc Bytes)
      → Known p settings stored Valid keystore
      → Origin p settings stored Valid access_key k
      → Known p settings stored Valid (insert access_key k keystore)
  insert-Known access_key k keystore known origin ak secret found =
      elim (Bool-cases (beq access_key ak)) [
        | inl yes_same ↦
            let same_key : access_key ≡ ak = (beq_iff access_key ak).0 yes_same in
            let same_secret : k ≡ secret =
              ground (arith, yes_same, found, lookup-insert access_key ak k keystore) in
            subst₂ (Origin p settings stored Valid) same_key same_secret origin
        | inr differs ↦
            known ak secret (ground (arith, differs, found, lookup-insert access_key ak k keystore))
      ]

  -- The store gets the fetcher's keys only, and the rest is as it was.
  pub ensure_key-Known :
      (http : Http) (msg access_key : Bytes) (w w' : World C)
      → Known p settings stored Valid w.hmac_keystore
      → ensure_key settings http msg access_key w ≡ next tt w'
      → Known p settings stored Valid w'.hmac_keystore
        × (w' ≡ record w { hmac_keystore = w'.hmac_keystore })
  unfolding ensure_key
  ensure_key-Known http msg access_key w w' known h =
      elim (Option-cases (lookup access_key w.hmac_keystore)) [
        | inr (k, there) ↦
            let same : w ≡ w' = ground (arith, there) in
            (subst (λ (v : World C). Known p settings stored Valid v.hmac_keystore) same known, cc)
        | inl missing ↦ elim (Option-cases settings.hmac_fetcher) [
          | inl without ↦ ground (arith, missing, without)
          | inr (fetch, with_fetch) ↦ elim (Option-cases (fetch access_key)) [
            | inl fails ↦ ground (arith, missing, with_fetch, fails)
            | inr (k, fetched) ↦
                let same : record w { hmac_keystore = insert access_key k w.hmac_keystore } ≡ w' =
                  ground (arith, missing, with_fetch, fetched) in
                let origin : Origin p settings stored Valid access_key k =
                  inr (ground (arith, with_fetch, fetched)) in
                (
                  subst (λ (v : World C). Known p settings stored Valid v.hmac_keystore) same
                      (insert-Known access_key k w.hmac_keystore known origin),
                  cc,
                )
          ]
        ]
      ]

  insert-Grows :
      (bucket : Bytes) (item : CosMapItem) (cos_mapping : Assoc CosMapItem)
      → (has_hmac item || has_api_key item) ≡ true
      → Grows cos_mapping (insert bucket item cos_mapping)
  insert-Grows bucket item cos_mapping has b (item', there, has') =
      elim (Bool-cases (beq bucket b)) [
        | inl same ↦ (item, ground (arith, same, lookup-insert bucket b item cos_mapping), has)
        | inr differs ↦
            (item', ground (arith, differs, there, lookup-insert bucket b item cos_mapping), has')
      ]

  -- The bucket that is granted has credentials, and no other loses them.
  pub grant-Grows :
      (now : DateTime) (times : Instants) (req : Request) (bucket : Bytes)
      (config : Option CosMapItem) (access_key : Bytes) (w w' : World C)
      → grant p settings now times req bucket config access_key w ≡ next tt w'
      → Grows w.ctx.cos_mapping w'.ctx.cos_mapping
        × HasCredentials bucket w'.ctx.cos_mapping
        × (w' ≡ record w { ctx = record w.ctx { cos_mapping = w'.ctx.cos_mapping } })
  unfolding grant
  grant-Grows now times req bucket none access_key w w' h = cc
  grant-Grows now times req bucket (some item) access_key w w' h =
      elim (Option-cases
        (ensure_credentials p.json item bucket
          (fetcher_for p settings now times req access_key)).0) [
            | inl fails ↦ ground (arith, fails)
            | inr (item', ensured) ↦
                let (has, _) = ensure_credentials-has p.json item item' bucket _ ensured in
                let same : insert bucket item' w.ctx.cos_mapping ≡ w'.ctx.cos_mapping =
                  ground (arith, ensured) in
                (
                  subst (Grows w.ctx.cos_mapping) same
                      (insert-Grows bucket item' w.ctx.cos_mapping has),
                  (
                    item',
                    ap (lookup bucket) (sym same)
                        ∙ lookup-insert_self bucket item' w.ctx.cos_mapping,
                    has,
                  ),
                  ground (arith, ensured),
                )
          ]
