-- ===== src/Lifecycle/Alone.antt =====
-- A request that is served alone: its steps, one after the other, are `request_filter` (lib.rs).
use object_storage_proxy.Base.{
  ℕ, zero, suc, ◌-◌, ◌≤◌, ◌≡◌, refl, sym, ◌∙◌, Bool, true, false, [], arith, Bytes, subst,
  if◌then◌else◌, Option-cases, Bool-cases, inl, inr, Assoc, Option, unwrap_or, is_empty, ◌&&◌,
}
use object_storage_proxy.External.{DateTime}
use object_storage_proxy.Message.{Request}
use object_storage_proxy.CosMap.{CosMapItem}
use object_storage_proxy.Path.Query.{parse_query}
use object_storage_proxy.Authorization.{fresh}
use object_storage_proxy.Gate.World.{Settings, World, panic, next, M, ◌>>=◌, pure, refuse, then_do}
use object_storage_proxy.Gate.Stages.{then_do_assoc, then_do_cong_next, then_do_pure-next}
use object_storage_proxy.Gate.Usage.{is_presigned_url, expects_continue}
use object_storage_proxy.Gate.Keys.{skips_signature}
use object_storage_proxy.Gate.Validate.{Instants}
use object_storage_proxy.Gate.Filter.{Packages, auth_header, request_filter}
use object_storage_proxy.Lifecycle.Phases.{
  Question, Phase, arrived, counted, listing, routing, identifying, signing, ensuring, taking,
  checking, asking, missed, storing, judged, granting, granted, waved, ask_whether, check_how,
  question_key, look, look_again, store_decision, perform,
}
use object_storage_proxy.Lifecycle.Rest.{rest_of, perform-rest_of}

abbrev pub behind_filter : Phase → Bool
behind_filter (granted bucket) = true
behind_filter waved = true
behind_filter _ = false

-- The steps that are left, at most.
unfoldable rank : Phase → ℕ
rank arrived = 14
rank counted = 13
rank listing = 12
rank routing = 11
rank (identifying bucket config) = 10
rank (signing q) = 9
rank (ensuring how q) = 8
rank (taking how q) = 7
rank (checking how secret_key q) = 6
rank (asking q) = 5
rank (missed query_dict q) = 4
rank (storing authorized q) = 3
rank (judged authorized q) = 2
rank (granting bucket config access_key) = 1
rank (granted bucket) = 0
rank waved = 0

module _ {C J : Type 0} (p : Packages C J) (settings : Settings) (now : DateTime) (times : Instants)
    (req : Request) where
  -- Some steps, one after the other.
  unfoldable pub run : ℕ → Phase → M C Phase
  run zero phase = pure phase
  run (suc n) phase = do phase' ← perform p settings now times req phase; run n phase'

  -- The request has to be behind the filter.
  unfoldable pub done : Phase → M C (Unit {0})
  done phase = if behind_filter phase then pure tt else refuse panic

  stays :
      (phase : Phase) (w : World C)
      → rank phase ≤ 0
      → rest_of p settings now times req phase w ≡ done phase w
  unfolding rank rest_of done
  stays (granted bucket) w h = refl
  stays waved w h = refl
  stays arrived w h = ground arith
  stays counted w h = ground arith
  stays listing w h = ground arith
  stays routing w h = ground arith
  stays (identifying bucket config) w h = ground arith
  stays (signing q) w h = ground arith
  stays (ensuring how q) w h = ground arith
  stays (taking how q) w h = ground arith
  stays (checking how secret_key q) w h = ground arith
  stays (asking q) w h = ground arith
  stays (missed query_dict q) w h = ground arith
  stays (storing authorized q) w h = ground arith
  stays (judged authorized q) w h = ground arith
  stays (granting bucket config access_key) w h = ground arith

  rank-ask_whether :
      (bucket : Bytes) (config : Option CosMapItem) (access_key : Bytes)
      → rank (ask_whether p settings now times req bucket config access_key) ≤ 9
  unfolding rank
  rank-ask_whether bucket config access_key = elim (Option-cases settings.validator) [
    | inl without ↦ ground (arith, without)
    | inr (callback, set) ↦ ground (arith, set)
  ]

  rank-check_how :
      (q : Question) (phase : Phase) (w w' : World C)
      → check_how p settings now times req q w ≡ next phase w'
      → rank phase ≤ 8
  unfolding rank then_do
  rank-check_how q phase w w' h = elim (Bool-cases (skips_signature settings req)) [
    | inl skips ↦ ground (arith, skips)
    | inr checks ↦
        elim (Bool-cases
          (is_empty (auth_header p settings now times req) && is_presigned_url req)) [
            | inl url ↦ ground (arith, checks, url)
            | inr header ↦ ground (arith, checks, header)
          ]
  ]

  rank-look :
      (q : Question) (phase : Phase) (w w' : World C)
      → look p settings now times req q w ≡ next phase w'
      → rank phase ≤ 4
  unfolding rank look
  rank-look q phase w w' h =
      elim (Option-cases (parse_query p.nom p.decode_segment (unwrap_or req.uri.query []))) [
        | inl fails ↦ ground (arith, fails)
        | inr ((rest, query_dict), parsed) ↦
            elim (Option-cases
              (fresh p.lru (question_key p settings now times req q) times.first w.auth_cache)) [
                | inl misses ↦ ground (arith, parsed, misses)
                | inr (b, hits) ↦ ground (arith, parsed, hits)
              ]
      ]

  rank-look_again :
      (query_dict : Assoc Bytes) (q : Question) (phase : Phase) (w w' : World C)
      → look_again p settings now times req query_dict q w ≡ next phase w'
      → rank phase ≤ 3
  unfolding rank look_again
  rank-look_again query_dict q phase w w' h = ground arith

  rank-store_decision :
      (authorized : Bool) (q : Question) (phase : Phase) (w w' : World C)
      → store_decision p settings now times req authorized q w ≡ next phase w'
      → rank phase ≤ 2
  unfolding rank store_decision
  rank-store_decision authorized q phase w w' h = ground arith

  -- A step leaves fewer.
  perform-rank :
      (phase phase' : Phase) (w w' : World C)
      → perform p settings now times req phase w ≡ next phase' w'
      → rank phase' ≤ rank phase - 1
  unfolding rank perform
  perform-rank arrived ph w w' h =
      let (_, _, e) = then_do_pure-next _ (λ _. counted) ph w' h in
      subst (λ x. rank x ≤ 13) e (omega arith)
  perform-rank counted ph w w' h = elim (Bool-cases (expects_continue p.web req)) [
    | inl expects ↦ ground (arith, expects)
    | inr without ↦ ground (arith, without)
  ]
  perform-rank listing ph w w' h =
      let (_, _, e) = then_do_pure-next _ (λ _. routing) ph w' h in
      subst (λ x. rank x ≤ 11) e (omega arith)
  perform-rank routing ph w w' h =
      let (r, _, e) = then_do_pure-next _ (λ r. identifying r.0 r.1) ph w' h in
      subst (λ x. rank x ≤ 10) e (omega arith)
  perform-rank (identifying bucket config) ph w w' h =
      let (k, _, e) =
        then_do_pure-next _ (ask_whether p settings now times req bucket config) ph w' h in
      subst (λ x. rank x ≤ 9) e (rank-ask_whether bucket config k)
  perform-rank (signing q) ph w w' h = rank-check_how q ph w w' h
  perform-rank (ensuring how q) ph w w' h =
      let (_, _, e) = then_do_pure-next _ (λ _. taking how q) ph w' h in
      subst (λ x. rank x ≤ 7) e (omega arith)
  perform-rank (taking how q) ph w w' h =
      let (sk, _, e) = then_do_pure-next _ (λ sk. checking how sk q) ph w' h in
      subst (λ x. rank x ≤ 6) e (omega arith)
  perform-rank (checking how secret_key q) ph w w' h =
      let (_, _, e) = then_do_pure-next _ (λ _. asking q) ph w' h in
      subst (λ x. rank x ≤ 5) e (omega arith)
  perform-rank (asking q) ph w w' h = rank-look q ph w w' h
  perform-rank (missed query_dict q) ph w w' h = rank-look_again query_dict q ph w w' h
  perform-rank (storing authorized q) ph w w' h = rank-store_decision authorized q ph w w' h
  perform-rank (judged authorized q) ph w w' h =
      let (_, _, e) = then_do_pure-next _ (λ _. granting q.bucket q.config q.access_key) ph w' h in
      subst (λ x. rank x ≤ 1) e (omega arith)
  perform-rank (granting bucket config access_key) ph w w' h =
      let (_, _, e) = then_do_pure-next _ (λ _. granted bucket) ph w' h in
      subst (λ x. rank x ≤ 0) e (omega arith)
  perform-rank (granted bucket) ph w w' h = ground arith
  perform-rank waved ph w w' h = ground arith

  run-rest_of :
      (n : ℕ) (phase : Phase) (w : World C)
      → rank phase ≤ n
      → rest_of p settings now times req phase w ≡ then_do (run n phase w) done
  unfolding run then_do
  run-rest_of zero phase w h = stays phase w h
  run-rest_of (suc n) phase w h =
      perform-rest_of p settings now times req phase w
      ∙ (then_do_cong_next (perform p settings now times req phase w) _ _ (λ phase' w' e.
            run-rest_of n phase' w' (omega (arith, perform-rank phase phase' w w' e)))
          ∙ sym (then_do_assoc (perform p settings now times req phase w) (run n) done))

  -- A request that is served alone: the steps of a request, one after the other, are
  -- `request_filter`, in what they answer, what they change, and whether the request goes on; there
  -- are at most fourteen.
  pub run-request_filter :
      (w : World C) → request_filter p settings now times req w ≡ then_do (run 14 arrived w) done
  unfolding rank rest_of
  run-request_filter w = run-rest_of 14 arrived w (omega arith)
