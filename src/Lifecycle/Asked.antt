-- ===== src/Lifecycle/Asked.antt =====
-- The steps of a request at the validator (`request_filter` of lib.rs): a yes that is found in the
-- cache, or kept there, is the validator's.
use object_storage_proxy.Base.{
  ℕ, ◌≡◌, ◌⊎◌, inl, inr, refl, sym, ap, ◌∙◌, subst, subst₂, Bool, true, false, ◌&&◌, ◌||◌, Option,
  none, some, [], arith, unwrap_or, Bytes, is_empty, Lacks, Assoc, lookup, Option-cases, Bool-cases,
}
use object_storage_proxy.Base
use object_storage_proxy.Message.{Request}
use object_storage_proxy.External.{DateTime}
use object_storage_proxy.Path.Query.{parse_query}
use object_storage_proxy.CosMap.{CosMapItem}
use object_storage_proxy.Authorization.{fresh, remember}
use object_storage_proxy.Gate.World.{Callback, Settings, World, next}
use object_storage_proxy.Gate.Validate.{Instants, validate_request, details, effective_ttl}
use object_storage_proxy.Gate.Filter.{Packages}
use object_storage_proxy.Lifecycle.Phases.{
  Question, Phase, signing, missed, storing, judged, ask_whether, question_key, look, look_again,
  store_decision,
}
use object_storage_proxy.Lifecycle.Evidence.{
  Grows, IsPlain, Honest, Approved, Known, Sound, Identified, SignedBefore, Asked, Shown,
}
use object_storage_proxy.Lifecycle.Shared.{fresh-Approved, remember-Honest}
use object_storage_proxy.Lifecycle.Frames.{After, Stands, to_After}

module _ {C J : Type 0} (p : Packages C J) (settings : Settings) (stored : Assoc Bytes)
    (Valid : Request → Bytes → Type 0) (callback : Callback) (now : DateTime) (times : Instants)
    (req : Request) where
  module _ (set : settings.validator ≡ some callback)
      (plain : IsPlain p settings stored Valid req) where
    pub ask_whether-Shown :
        (bucket : Bytes) (config : Option CosMapItem) (access_key : Bytes) (w : World C)
        → Identified p settings stored Valid req bucket access_key
        → Stands p settings stored Valid callback now times req w
            (ask_whether p settings now times req bucket config access_key)
    unfolding Shown
    ask_whether-Shown bucket config access_key w identified =
        let asks : signing (record {
          callback = callback;
          bucket = bucket;
          config = config;
          access_key = access_key;
        })
            ≡ ask_whether p settings now times req bucket config access_key =
          ground (arith, set) in
        subst (Stands p settings stored Valid callback now times req w) asks (refl, identified)

    fresh-Shown :
        (q : Question) (instant : ℕ) (b : Bool) (w : World C)
        → Sound p settings stored Valid callback w
        → Asked p settings stored Valid callback req q
        → fresh p.lru (question_key p settings now times req q) instant w.auth_cache ≡ some b
        → b ≡ true
        → Approved p settings stored Valid callback q.access_key q.bucket req.method
    fresh-Shown q instant b w (honest, known) (same, ((rest, parses), keyed)) hits =
        fresh-Approved p settings stored Valid callback q.access_key q.bucket req.method instant b
          w.auth_cache honest (plain.1 q.bucket rest parses) plain.0 hits

    pub look-next :
        (q : Question) (phase : Phase) (w w' : World C)
        → look p settings now times req q w ≡ next phase w'
        → Sound p settings stored Valid callback w
        → Asked p settings stored Valid callback req q
        → SignedBefore p settings stored Valid req q.access_key
        → After p settings stored Valid callback now times req w phase w'
    unfolding look Shown
    look-next q phase w w' h sound asked signed =
        elim (Option-cases (parse_query p.nom p.decode_segment (unwrap_or req.uri.query []))) [
          | inl fails ↦ ground (arith, fails)
          | inr ((rest, query_dict), parsed) ↦
              elim (Option-cases
                (fresh p.lru (question_key p settings now times req q) times.first w.auth_cache)) [
                  | inl misses ↦
                      to_After p settings stored Valid callback now times req w w'
                        (missed query_dict q) phase sound
                        (
                          ground (arith, parsed, misses),
                          ground (arith, parsed, misses),
                          ground (arith, parsed, misses),
                        )
                        (ground (arith, parsed, misses)) (asked, signed)
                  | inr (b, hits) ↦
                      to_After p settings stored Valid callback now times req w w' (judged b q)
                        phase sound
                        (
                          ground (arith, parsed, hits),
                          ground (arith, parsed, hits),
                          ground (arith, parsed, hits),
                        )
                        (ground (arith, parsed, hits))
                        (asked, signed, fresh-Shown q times.first b w sound asked hits)
                ]
        ]

    pub look_again-next :
        (query_dict : Assoc Bytes) (q : Question) (phase : Phase) (w w' : World C)
        → look_again p settings now times req query_dict q w ≡ next phase w'
        → Sound p settings stored Valid callback w
        → Asked p settings stored Valid callback req q
        → SignedBefore p settings stored Valid req q.access_key
        → After p settings stored Valid callback now times req w phase w'
    unfolding look_again Shown
    look_again-next query_dict q phase w w' h sound asked signed =
        elim (Option-cases
          (fresh p.lru (question_key p settings now times req q) times.looked w.auth_cache)) [
            | inr (b, hits) ↦
                to_After p settings stored Valid callback now times req w w' (judged b q) phase
                  sound (ground (arith, hits), ground (arith, hits), ground (arith, hits))
                  (ground (arith, hits))
                  (asked, signed, fresh-Shown q times.looked b w sound asked hits)
            | inl misses ↦
                elim (Option-cases (
                  validate_request q.access_key q.bucket (details p.web req query_dict) q.callback
                    (unwrap_or settings.validator_takes_request false))) [
                      | inl fails ↦ ground (arith, misses, fails)
                      | inr (b, says) ↦
                          to_After p settings stored Valid callback now times req w w' (storing b q)
                            phase sound
                            (
                              ground (arith, misses, says),
                              ground (arith, misses, says),
                              ground (arith, misses, says),
                            )
                            (ground (arith, misses, says))
                            (
                              asked,
                              signed,
                              λ yes_said. (
                                req,
                                query_dict,
                                refl,
                                ap
                                      (λ c.
                                        validate_request q.access_key q.bucket
                                          (details p.web req query_dict) c
                                          (unwrap_or settings.validator_takes_request false))
                                      (sym asked.0)
                                    ∙ (says ∙ ap some yes_said),
                              ),
                            )
                    ]
          ]

    pub store_decision-next :
        (authorized : Bool) (q : Question) (phase : Phase) (w w' : World C)
        → store_decision p settings now times req authorized q w ≡ next phase w'
        → Sound p settings stored Valid callback w
        → Stands p settings stored Valid callback now times req w (storing authorized q)
        → After p settings stored Valid callback now times req w phase w'
    unfolding store_decision Shown
    store_decision-next authorized q phase w w' h (honest, known) (asked, signed, approved) =
        elim (Option-cases (
          remember p.lru (question_key p settings now times req q) times.written
            (effective_ttl (unwrap_or (Base.◌>>=◌ q.config (λ c. c.ttl)) 0)) authorized
            w.auth_cache)) [
              | inl overflows ↦ ground (arith, overflows)
              | inr (cache, kept) ↦
                  let e : judged authorized q ≡ phase = ground (arith, kept) in
                  let same_cache : cache ≡ w'.auth_cache = ground (arith, kept) in
                  let same_store : w'.hmac_keystore ≡ w.hmac_keystore = ground (arith, kept) in
                  let same_mapping : w.ctx.cos_mapping ≡ w'.ctx.cos_mapping =
                    ground (arith, kept) in
                  (
                    (
                      (
                        subst (Honest p settings stored Valid callback) same_cache (
                            remember-Honest p settings stored Valid callback q.access_key q.bucket
                              req.method times.written _ authorized w.auth_cache cache honest
                              (plain.1 q.bucket asked.1.0.0 asked.1.0.1) plain.0 approved kept),
                        subst (Known p settings stored Valid) (sym same_store) known,
                      ),
                      subst (Grows w.ctx.cos_mapping) same_mapping (λ bucket h. h),
                    ),
                    subst (Stands p settings stored Valid callback now times req w') e
                        (asked, signed, approved),
                  )
            ]
