-- ===== src/Lifecycle/Rest.antt =====
-- What is left of `request_filter` (lib.rs) where a request stands, and that a step agrees with it.
use object_storage_proxy.Base.{
  ◌≡◌, inl, inr, refl, sym, ap, ◌∙◌, Bool, ◌&&◌, Option, none, some, [], unwrap_or, Bytes, is_empty,
  Option-cases, Bool-cases, if◌then◌else◌, Assoc,
}
use object_storage_proxy.External.{DateTime}
use object_storage_proxy.Message.{Request}
use object_storage_proxy.Path.Query.{parse_query}
use object_storage_proxy.CosMap.{CosMapItem}
use object_storage_proxy.Authorization.{fresh, remember, Validated}
use object_storage_proxy.Gate.World.{
  Settings, World, panic, Stage, next, stop, M, ◌>>=◌, ◌>>◌, pure, then_do,
}
use object_storage_proxy.Gate.Usage.{is_presigned_url, usage_limit, expects_continue}
use object_storage_proxy.Gate.Keys.{
  skips_signature, ensure_key, stored_key, check_presigned, check_request, check_signature,
}
use object_storage_proxy.Gate.Validate.{Instants, after_decision, ask_validator}
use object_storage_proxy.Gate.Filter.{
  Packages, from_option, list_when_root, route, auth_header, access_key_of, deny_unless, grant,
  consult, is_authorized, guarded, request_filter,
}
use object_storage_proxy.Gate.Stages.{
  then_do_assoc, then_do_assoc₂, then_do_pure, then_do_unit, then_do_cong, then_do_if,
}
use object_storage_proxy.Lifecycle.Phases.{
  Signature, in_url, in_header, Question, Phase, arrived, counted, listing, routing, identifying,
  signing, ensuring, taking, checking, asking, missed, storing, judged, granting, granted, waved,
  ask_whether, check_how, check_with, no_key_found, question_key, look, look_again, store_decision,
  perform,
}
use object_storage_proxy.Lifecycle.Decision.{
  ask, ttl_of, answer_to, locked, keep, look_misses, look_hits, look_again_hits, look_again_fails,
  look_again_asks, first_hit, first_miss, second_hit, no_answer, an_answer, ask-parsed,
}

module _ {C J : Type 0} (p : Packages C J) (settings : Settings) (now : DateTime) (times : Instants)
    (req : Request) where
  -- What is left of `request_filter`.
  abbrev decide : Question → M C Bool → M C (Unit {0})
  decide q m = do
    authorized ← m
    deny_unless p settings now times req q.bucket authorized
    grant p settings now times req q.bucket q.config q.access_key

  unfoldable pub rest_of : Phase → M C (Unit {0})
  rest_of arrived = request_filter p settings now times req
  rest_of counted = if expects_continue p.web req then pure tt else guarded p settings now times req
  rest_of listing = guarded p settings now times req
  rest_of routing = do
    (bucket, config) ← route p settings now times req
    access_key ← from_option (access_key_of p settings now times req)
    authorized ← is_authorized p settings now times req bucket config access_key
    deny_unless p settings now times req bucket authorized
    grant p settings now times req bucket config access_key
  rest_of (identifying bucket config) = do
    access_key ← from_option (access_key_of p settings now times req)
    authorized ← is_authorized p settings now times req bucket config access_key
    deny_unless p settings now times req bucket authorized
    grant p settings now times req bucket config access_key
  rest_of (signing q) =
      decide q (consult p settings now times req q.callback q.bucket q.config q.access_key)
  rest_of (ensuring how q) = decide q (do
    ensure_key settings p.http (no_key_found how) q.access_key
    secret_key ← stored_key q.access_key
    check_with p settings now times req how secret_key
    ask p settings now times req q)
  rest_of (taking how q) = decide q (do
    secret_key ← stored_key q.access_key
    check_with p settings now times req how secret_key
    ask p settings now times req q)
  rest_of (checking how secret_key q) =
      decide q
        (do check_with p settings now times req how secret_key; ask p settings now times req q)
  rest_of (asking q) = decide q (ask p settings now times req q)
  rest_of (missed query_dict q) = decide q (locked p settings now times req query_dict q)
  rest_of (storing authorized q) = decide q (keep p settings now times req authorized q)
  rest_of (judged authorized q) = decide q (pure authorized)
  rest_of (granting bucket config access_key) =
      grant p settings now times req bucket config access_key
  rest_of (granted bucket) = pure tt
  rest_of waved = pure tt

  abbrev conclude : Question → Bool → M C (Unit {0})
  conclude q authorized = do
    deny_unless p settings now times req q.bucket authorized
    grant p settings now times req q.bucket q.config q.access_key

  rest-ask_whether :
      (bucket : Bytes) (config : Option CosMapItem) (access_key : Bytes) (w : World C)
      → then_do
          (is_authorized p settings now times req bucket config access_key w)
          (λ authorized w'.
            then_do
              (deny_unless p settings now times req bucket authorized w')
              (λ _. grant p settings now times req bucket config access_key))
        ≡ rest_of (ask_whether p settings now times req bucket config access_key) w
  rest-ask_whether bucket config access_key w = elim (Option-cases settings.validator) [
    | inl without ↦ unfold is_authorized rest_of then_do in rw (without) refl
    | inr (callback, set) ↦ unfold is_authorized rest_of then_do in rw (set) refl
  ]

  signature_assoc :
      (how : Signature) (q : Question) (w : World C)
      → then_do
          (then_do (ensure_key settings p.http (no_key_found how) q.access_key w) (λ _ w'.
            then_do (stored_key q.access_key w') (check_with p settings now times req how)))
          (λ _. ask p settings now times req q)
        ≡ then_do (ensure_key settings p.http (no_key_found how) q.access_key w) (λ _ w'.
          then_do (stored_key q.access_key w') (λ secret_key w''.
            then_do
              (check_with p settings now times req how secret_key w'')
              (λ _. ask p settings now times req q)))
  signature_assoc how q w =
      then_do_assoc₂ (ensure_key settings p.http (no_key_found how) q.access_key w)
        (λ _. stored_key q.access_key) (check_with p settings now times req how)
        (λ _. ask p settings now times req q)

  rest-signing :
      (q : Question) (w : World C)
      → rest_of (signing q) w ≡ then_do (check_how p settings now times req q w) rest_of
  unfolding rest_of consult check_signature check_presigned check_request then_do
  rest-signing q w = elim (Bool-cases (skips_signature settings req)) [
    | inl skips ↦ rw (skips, then_do) refl
    | inr checks ↦
        elim (Bool-cases
          (is_empty (auth_header p settings now times req) && is_presigned_url req)) [
            | inl url ↦
                rw (checks, url, then_do)
                  (ap (λ s. then_do s (conclude q)) (signature_assoc in_url q _))
            | inr header ↦
                rw (checks, header, then_do)
                  (ap (λ s. then_do s (conclude q)) (signature_assoc in_header q w))
          ]
  ]

  abbrev answered_by : Question → World C → Validated C → Stage C (Unit {0})
  answered_by q w v = then_do (after_decision p.lru v w) (conclude q)

  rest-asking :
      (q : Question) (w : World C)
      → rest_of (asking q) w ≡ then_do (look p settings now times req q w) rest_of
  unfolding look then_do rest_of
  rest-asking q w =
      elim (Option-cases (parse_query p.nom p.decode_segment (unwrap_or req.uri.query []))) [
        | inl fails ↦ unfold ask_validator in rw (fails, then_do) refl
        | inr ((rest, query_dict), parsed) ↦
            ap (λ s. then_do s (conclude q))
              (ask-parsed p settings now times req query_dict q w rest parsed)
            ∙ elim (Option-cases
                (fresh p.lru (question_key p settings now times req q) times.first w.auth_cache)) [
                  | inl misses ↦
                      ap (answered_by q w)
                        (first_miss p settings now times req query_dict q w misses)
                      ∙ sym (
                          ap (λ s. then_do s rest_of)
                            (look_misses p settings now times req rest query_dict q w parsed
                              misses))
                  | inr (authorized, hits) ↦
                      ap (answered_by q w)
                        (first_hit p settings now times req query_dict q w authorized hits)
                      ∙ sym (
                          ap (λ s. then_do s rest_of)
                            (look_hits p settings now times req rest query_dict q w authorized
                              parsed hits))
                ]
      ]

  rest-missed :
      (query_dict : Assoc Bytes) (q : Question) (w : World C)
      → rest_of (missed query_dict q) w
        ≡ then_do (look_again p settings now times req query_dict q w) rest_of
  unfolding then_do rest_of
  rest-missed query_dict q w =
      elim (Option-cases
        (fresh p.lru (question_key p settings now times req q) times.looked w.auth_cache)) [
          | inr (authorized, hits) ↦
              ap (answered_by q w)
                (second_hit p settings now times req query_dict q w authorized hits)
              ∙ sym (
                  ap (λ s. then_do s rest_of)
                    (look_again_hits p settings now times req query_dict q w authorized hits))
          | inl misses ↦ elim (Option-cases (answer_to p settings now times req query_dict q)) [
            | inl fails ↦
                ap (answered_by q w)
                  (no_answer p settings now times req query_dict q w misses fails)
                ∙ sym (
                    ap (λ s. then_do s rest_of)
                      (look_again_fails p settings now times req query_dict q w misses fails))
            | inr (authorized, says) ↦
                ap (λ s. then_do s (conclude q))
                  (an_answer p settings now times req query_dict q w authorized misses says)
                ∙ sym (
                    ap (λ s. then_do s rest_of)
                      (look_again_asks p settings now times req query_dict q w authorized misses
                        says))
          ]
        ]

  kept_or_not :
      (q : Question) (w : World C) (b : Bool) (cache : Option C)
      → then_do
          (elim cache as (λ _. Stage C Bool) [
            | none ↦ stop panic w
            | some c ↦ next b (record w { auth_cache = c })
          ])
          (conclude q)
        ≡ then_do
            (elim cache as (λ _. Stage C Phase) [
              | none ↦ stop panic w
              | some c ↦ next (judged b q) (record w { auth_cache = c })
            ])
            rest_of
  unfolding then_do rest_of
  kept_or_not q w b none = refl
  kept_or_not q w b (some c) = refl

  rest-storing :
      (authorized : Bool) (q : Question) (w : World C)
      → rest_of (storing authorized q) w
        ≡ then_do (store_decision p settings now times req authorized q w) rest_of
  unfolding rest_of store_decision
  rest-storing authorized q w = kept_or_not q w authorized (
      remember p.lru (question_key p settings now times req q) times.written
        (ttl_of p settings now times req q) authorized w.auth_cache)

  -- A step and what is left behind it are what is left.
  pub perform-rest_of :
      (phase : Phase) (w : World C)
      → rest_of phase w ≡ then_do (perform p settings now times req phase w) rest_of
  unfolding perform rest_of then_do
  perform-rest_of arrived w =
      unfold request_filter in
      sym (then_do_pure (usage_limit settings p.http req w) (λ _. counted) rest_of)
  perform-rest_of counted w =
      then_do_if (expects_continue p.web req) (pure waved) (pure listing) rest_of (pure tt)
        (guarded p settings now times req) w refl refl
  perform-rest_of listing w =
      unfold guarded in
      sym (then_do_pure (list_when_root p settings now times req w) (λ _. routing) rest_of)
  perform-rest_of routing w =
      sym (then_do_pure (route p settings now times req w) (λ r. identifying r.0 r.1) rest_of)
  perform-rest_of (identifying bucket config) w =
      then_do_cong (from_option (access_key_of p settings now times req) w) _ _
        (rest-ask_whether bucket config)
      ∙ sym (
          then_do_pure (from_option (access_key_of p settings now times req) w)
            (ask_whether p settings now times req bucket config) rest_of)
  perform-rest_of (signing q) w = rest-signing q w
  perform-rest_of (ensuring how q) w =
      then_do_assoc (ensure_key settings p.http (no_key_found how) q.access_key w) _ (conclude q)
      ∙ sym (
          then_do_pure (ensure_key settings p.http (no_key_found how) q.access_key w)
            (λ _. taking how q) rest_of)
  perform-rest_of (taking how q) w =
      then_do_assoc (stored_key q.access_key w) _ (conclude q)
      ∙ sym (
          then_do_pure (stored_key q.access_key w) (λ secret_key. checking how secret_key q)
            rest_of)
  perform-rest_of (checking how secret_key q) w =
      then_do_assoc (check_with p settings now times req how secret_key w) _ (conclude q)
      ∙ sym (
          then_do_pure (check_with p settings now times req how secret_key w) (λ _. asking q)
            rest_of)
  perform-rest_of (asking q) w = rest-asking q w
  perform-rest_of (missed query_dict q) w = rest-missed query_dict q w
  perform-rest_of (storing authorized q) w = rest-storing authorized q w
  perform-rest_of (judged authorized q) w = sym (
      then_do_pure (deny_unless p settings now times req q.bucket authorized w)
        (λ _. granting q.bucket q.config q.access_key) rest_of)
  perform-rest_of (granting bucket config access_key) w = sym (
      then_do_pure (grant p settings now times req bucket config access_key w) (λ _. granted bucket)
        rest_of
      ∙ then_do_unit _)
  perform-rest_of (granted bucket) w = refl
  perform-rest_of waved w = refl
