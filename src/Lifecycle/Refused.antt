-- ===== src/Lifecycle/Refused.antt =====
-- A request that is refused in `request_filter` (lib.rs) leaves the cache of decisions, the store of
-- keys and the mapping of buckets as they were.
use object_storage_proxy.Base.{
  ◌≡◌, inl, inr, Bool, true, false, ◌&&◌, Option, none, some, [], arith, unwrap_or, Bytes, is_empty,
  Assoc, Option-cases, Bool-cases,
}
use object_storage_proxy.Message.{Request, Http}
use object_storage_proxy.External.{DateTime}
use object_storage_proxy.Path.{Parsed, ok, err, parse_path}
use object_storage_proxy.Path
use object_storage_proxy.CosMap.{CosMapItem}
use object_storage_proxy.Path.Query.{parse_query}
use object_storage_proxy.Authorization.{fresh}
use object_storage_proxy.Gate.World.{Settings, World, Refusal, stop, then_do}
use object_storage_proxy.Gate.Stages.{then_do_pure-stop}
use object_storage_proxy.Signing.Verify.{Checked, answered}
use object_storage_proxy.Signing.Verify
use object_storage_proxy.Signing.Presigned.{PresignedResult, checked, has_expired}
use object_storage_proxy.Gate.Usage.{is_presigned_url, usage_limit, expects_continue}
use object_storage_proxy.Gate.Keys.{
  skips_signature, ensure_key, stored_key, run_presigned, run_request, presigned_answer,
  request_answer,
}
use object_storage_proxy.Gate.Validate.{Instants}
use object_storage_proxy.Gate.Filter.{
  Packages, from_parsed, from_option, auth_header, list_when_root, enter_bucket, route, deny_unless,
  grant,
}
use object_storage_proxy.Lifecycle.Phases.{
  Signature, in_url, in_header, Question, Phase, arrived, counted, listing, routing, identifying,
  signing, ensuring, taking, checking, asking, missed, storing, judged, granting, granted, waved,
  ask_whether, check_how, check_with, question_key, look, look_again, store_decision, perform,
}
use object_storage_proxy.Lifecycle.Frames.{Frame}

module _ {C : Type 0} where
  -- The answers change nothing.
  presigned_answer-stop :
      (http : Http) (req : Request) (result : PresignedResult) (r : Refusal) (w w' : World C)
      → presigned_answer http req result w ≡ stop r w'
      → w' ≡ w
  presigned_answer-stop http req (checked (answered true)) r w w' h = cc
  presigned_answer-stop http req (checked (answered false)) r w w' h = cc
  presigned_answer-stop http req (checked Verify.error) r w w' h = cc
  presigned_answer-stop http req (checked Verify.panic) r w w' h = cc
  presigned_answer-stop http req has_expired r w w' h = cc

  request_answer-stop :
      (http : Http) (result : Checked) (r : Refusal) (w w' : World C)
      → request_answer http result w ≡ stop r w'
      → w' ≡ w
  request_answer-stop http (answered true) r w w' h = cc
  request_answer-stop http (answered false) r w w' h = cc
  request_answer-stop http Verify.error r w w' h = cc
  request_answer-stop http Verify.panic r w w' h = cc

  ensure_key-stop :
      (settings : Settings) (http : Http) (msg access_key : Bytes) (r : Refusal) (w w' : World C)
      → ensure_key settings http msg access_key w ≡ stop r w'
      → w' ≡ w
  unfolding ensure_key
  ensure_key-stop settings http msg access_key r w w' h = ground arith

  stored_key-stop :
      (access_key : Bytes) (r : Refusal) (w w' : World C)
      → stored_key access_key w ≡ stop r w'
      → w' ≡ w
  unfolding stored_key
  stored_key-stop access_key r w w' h = ground arith

  from_option-stop :
      {A : Type 0} (o : Option A) (r : Refusal) (w w' : World C)
      → from_option o w ≡ stop r w'
      → w' ≡ w
  from_option-stop none r w w' h = cc
  from_option-stop (some a) r w w' h = cc

  usage_limit-stop :
      (settings : Settings) (http : Http) (req : Request) (r : Refusal) (w w' : World C)
      → usage_limit settings http req w ≡ stop r w'
      → Frame w w'
  unfolding usage_limit
  usage_limit-stop settings http req r w w' h = (ground arith, ground arith, ground arith)

  same-Frame : (w w' : World C) → w' ≡ w → Frame w w'
  same-Frame w w' e = (cc, cc, cc)

module _ {C J : Type 0} (p : Packages C J) (settings : Settings) (now : DateTime) (times : Instants)
    (req : Request) where
  check_with-stop :
      (how : Signature) (secret_key : Bytes) (r : Refusal) (w w' : World C)
      → check_with p settings now times req how secret_key w ≡ stop r w'
      → Frame w w'
  unfolding run_presigned run_request then_do
  check_with-stop in_url secret_key r w w' h =
      let e = presigned_answer-stop p.http req _ r _ w' h in (cc, cc, cc)
  check_with-stop in_header secret_key r w w' h =
      let e = request_answer-stop p.http _ r _ w' h in (cc, cc, cc)

  enter_bucket-stop :
      (parsed : Parsed (Bytes × Bytes)) (r : Refusal) (w w' : World C)
      → then_do (from_parsed parsed w) (λ b. enter_bucket p settings now times req b.0) ≡ stop r w'
      → w' ≡ w
  unfolding then_do
  enter_bucket-stop (ok b) r w w' h = cc
  enter_bucket-stop err r w w' h = cc
  enter_bucket-stop Path.panic r w w' h = cc

  route-stop :
      (r : Refusal) (w w' : World C) → route p settings now times req w ≡ stop r w' → w' ≡ w
  unfolding route
  route-stop r w w' h = enter_bucket-stop (parse_path p.nom req.uri.path) r w w' h

  list_when_root-stop :
      (r : Refusal) (w w' : World C)
      → list_when_root p settings now times req w ≡ stop r w'
      → w' ≡ w
  unfolding list_when_root
  list_when_root-stop r w w' h = ground arith

  deny_unless-stop :
      (bucket : Bytes) (authorized : Bool) (r : Refusal) (w w' : World C)
      → deny_unless p settings now times req bucket authorized w ≡ stop r w'
      → w' ≡ w
  deny_unless-stop bucket true r w w' h = cc
  deny_unless-stop bucket false r w w' h = cc

  grant-stop :
      (bucket : Bytes) (config : Option CosMapItem) (access_key : Bytes) (r : Refusal)
      (w w' : World C)
      → grant p settings now times req bucket config access_key w ≡ stop r w'
      → w' ≡ w
  unfolding grant
  grant-stop bucket none access_key r w w' h = cc
  grant-stop bucket (some item) access_key r w w' h = ground arith

  check_how-stop :
      (q : Question) (r : Refusal) (w w' : World C)
      → check_how p settings now times req q w ≡ stop r w'
      → w' ≡ w
  unfolding then_do
  check_how-stop q r w w' h = elim (Bool-cases (skips_signature settings req)) [
    | inl skips ↦ ground (arith, skips)
    | inr checks ↦
        elim (Bool-cases
          (is_empty (auth_header p settings now times req) && is_presigned_url req)) [
            | inl url ↦ ground (arith, checks, url)
            | inr header ↦ ground (arith, checks, header)
          ]
  ]

  look-stop :
      (q : Question) (r : Refusal) (w w' : World C)
      → look p settings now times req q w ≡ stop r w'
      → w' ≡ w
  unfolding look
  look-stop q r w w' h =
      elim (Option-cases (parse_query p.nom p.decode_segment (unwrap_or req.uri.query []))) [
        | inl fails ↦ ground (arith, fails)
        | inr ((rest, query_dict), parsed) ↦
            elim (Option-cases
              (fresh p.lru (question_key p settings now times req q) times.first w.auth_cache)) [
                | inl misses ↦ ground (arith, parsed, misses)
                | inr (b, hits) ↦ ground (arith, parsed, hits)
              ]
      ]

  look_again-stop :
      (query_dict : Assoc Bytes) (q : Question) (r : Refusal) (w w' : World C)
      → look_again p settings now times req query_dict q w ≡ stop r w'
      → w' ≡ w
  unfolding look_again
  look_again-stop query_dict q r w w' h = ground arith

  store_decision-stop :
      (authorized : Bool) (q : Question) (r : Refusal) (w w' : World C)
      → store_decision p settings now times req authorized q w ≡ stop r w'
      → w' ≡ w
  unfolding store_decision
  store_decision-stop authorized q r w w' h = ground arith

  counted-stop :
      (r : Refusal) (w w' : World C)
      → perform p settings now times req counted w ≡ stop r w'
      → w' ≡ w
  unfolding perform
  counted-stop r w w' h = elim (Bool-cases (expects_continue p.web req)) [
    | inl expects ↦ ground (arith, expects)
    | inr without ↦ ground (arith, without)
  ]

  pub perform-stop :
      (phase : Phase) (r : Refusal) (w w' : World C)
      → perform p settings now times req phase w ≡ stop r w'
      → Frame w w'
  unfolding perform
  perform-stop arrived r w w' h =
      usage_limit-stop settings p.http req r w w' (then_do_pure-stop _ (λ _. counted) r w' h)
  perform-stop counted r w w' h = same-Frame w w' (counted-stop r w w' h)
  perform-stop listing r w w' h =
      same-Frame w w' (list_when_root-stop r w w' (then_do_pure-stop _ (λ _. routing) r w' h))
  perform-stop routing r w w' h =
      same-Frame w w' (route-stop r w w' (then_do_pure-stop _ (λ a. identifying a.0 a.1) r w' h))
  perform-stop (identifying bucket config) r w w' h = same-Frame w w' (
      from_option-stop _ r w w'
        (then_do_pure-stop _ (ask_whether p settings now times req bucket config) r w' h))
  perform-stop (signing q) r w w' h = same-Frame w w' (check_how-stop q r w w' h)
  perform-stop (ensuring how q) r w w' h =
      same-Frame w w' (
        ensure_key-stop settings p.http _ _ r w w' (then_do_pure-stop _ (λ _. taking how q) r w' h))
  perform-stop (taking how q) r w w' h =
      same-Frame w w'
        (stored_key-stop _ r w w' (then_do_pure-stop _ (λ sk. checking how sk q) r w' h))
  perform-stop (checking how secret_key q) r w w' h =
      check_with-stop how secret_key r w w' (then_do_pure-stop _ (λ _. asking q) r w' h)
  perform-stop (asking q) r w w' h = same-Frame w w' (look-stop q r w w' h)
  perform-stop (missed query_dict q) r w w' h =
      same-Frame w w' (look_again-stop query_dict q r w w' h)
  perform-stop (storing authorized q) r w w' h =
      same-Frame w w' (store_decision-stop authorized q r w w' h)
  perform-stop (judged authorized q) r w w' h = same-Frame w w' (
      deny_unless-stop _ authorized r w w'
        (then_do_pure-stop _ (λ _. granting q.bucket q.config q.access_key) r w' h))
  perform-stop (granting bucket config access_key) r w w' h = same-Frame w w' (
      grant-stop bucket config access_key r w w' (then_do_pure-stop _ (λ _. granted bucket) r w' h))
  perform-stop (granted bucket) r w w' h = same-Frame w w' (cc)
  perform-stop waved r w w' h = same-Frame w w' (cc)
