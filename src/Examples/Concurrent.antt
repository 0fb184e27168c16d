-- ===== src/Examples/Concurrent.antt =====
-- A server with one request.
use object_storage_proxy.Base.{insert, remove, split, join, second_part, trim}
use object_storage_proxy.External.{separated_from}
use object_storage_proxy.Path.Query.{
  parse_query, key_value_pair, key_with_value, bare_key, take_until_either,
}
use object_storage_proxy.Credentials.{parse_token_from_header, parse_credential_scope}
use object_storage_proxy.CosMap.{has_hmac, has_api_key, ensure_credentials}
use object_storage_proxy.Authorization.{fresh, remember, add_ttl, validate_locked, get_or_validate}
use object_storage_proxy.Signing.Order.{sort_by}
use object_storage_proxy.Signing.Key.{scope_string}
use object_storage_proxy.Signing.AwsSign.{new, collect, keep_header, sign}
use object_storage_proxy.Signing.Verify.{
  claimed, payload_of, full_url, signature_is_valid_core, signature_is_valid_for_request,
}
use object_storage_proxy.Tracker.{get, track}
use object_storage_proxy.Gate.Usage.{usage_limit, expects_continue}
use object_storage_proxy.Gate.Keys.{
  skips_signature, ensure_key, stored_key, run_request, check_request, check_signature,
}
use object_storage_proxy.Gate.Validate.{
  validate_request, decision_key, effective_ttl, ask_validator,
}
use object_storage_proxy.Gate.Filter.{
  list_when_root, route, access_key_of, consult, is_authorized, grant, guarded,
}
use object_storage_proxy.Lifecycle.Phases.{look, look_again, store_decision}
use object_storage_proxy.Lifecycle.System.{put, started, arrive, moved}
use object_storage_proxy.Lifecycle.Alive.{StandsAt, run-Reach}
use object_storage_proxy.Base.{lookup-nil}
use object_storage_proxy.Base.{
  ◌≡◌, refl, sym, subst, [], none, some, arith, Assoc, Bytes, codes, Lacks, lookup, until,
  starts_with,
}
use object_storage_proxy.External.{documented_nom, span}
use object_storage_proxy.Message.{Request}
use object_storage_proxy.Path.{ok, parse_path, path_parts, behind_bucket, recover_slash}
use object_storage_proxy.Authorization.{AuthEntry}
use object_storage_proxy.Gate.World.{next, then_do}
use object_storage_proxy.Gate.Uses.{world_of}
use object_storage_proxy.Gate.Filter.{request_filter}
use object_storage_proxy.Lifecycle.Phases.{arrived, granted, perform}
use object_storage_proxy.Lifecycle.Alone.{run, run-request_filter, done}
use object_storage_proxy.Lifecycle.Evidence.{HasCredentials, IsPlain}
use object_storage_proxy.Lifecycle.System.{
  Shared, System, shared_of, local_of, sent, serving, Reach, new_local,
}
use object_storage_proxy.Lifecycle.Admitted.{Reach-SentFor, Reach-granted}
use object_storage_proxy.Lifecycle.Invariant.{SentFor, IsCleared}
use object_storage_proxy.Lifecycle.Alive.{Reach_sent}
use object_storage_proxy.Examples.Sample.{get_cat}
use object_storage_proxy.Examples.Forwarding.{proxy, iam}
use object_storage_proxy.Examples.Forwarding
use object_storage_proxy.Examples.Gated.{
  packages, allow_all, settings, times, start, cat_passes, cat_is_sent_on, cat_expects_nothing,
}

serving_one_run :
    request_filter packages settings 50 times get_cat start
    ≡ then_do
        (run packages settings 50 times get_cat 14 arrived start)
        (done packages settings 50 times get_cat)
serving_one_run = run-request_filter packages settings 50 times get_cat start

abbrev Plain : Request → Type 0
Plain = IsPlain packages settings [] (λ req secret. Unit)

photos_parsed :
    (bucket rest : Bytes)
    → parse_path documented_nom (codes "/photos/cat") ≡ ok (bucket, rest)
    → bucket ≡ codes "photos"
unfolding parse_path path_parts behind_bucket recover_slash until starts_with span
photos_parsed bucket rest h = cc

photos-Lacks : Lacks b':' (codes "photos")
photos-Lacks = ground arith

cat-IsPlain : Plain get_cat
cat-IsPlain = (
  ground arith,
  λ bucket rest h. subst (Lacks b':') (sym (photos_parsed bucket rest h)) photos-Lacks,
)

abbrev initial : Shared (Assoc AuthEntry)
initial = shared_of start

Reach_sent_run :
    (s : System (Assoc AuthEntry)) × Reach packages settings proxy Plain initial s
    × (s.requests 0 ≡ some (record { req = get_cat; status = sent Forwarding.sent }))
Reach_sent_run =
    Reach_sent packages settings proxy Plain initial 50 times get_cat 7 100 (some iam)
      (world_of (request_filter packages settings 50 times get_cat start)) Forwarding.sent
      cat-IsPlain cat_passes cat_is_sent_on

abbrev served :
    (s : System (Assoc AuthEntry)) × Reach packages settings proxy Plain initial s
    × (s.requests 0 ≡ some (record { req = get_cat; status = sent Forwarding.sent }))
served =
    Reach_sent packages settings proxy Plain initial 50 times get_cat 7 100 (some iam)
      (world_of (request_filter packages settings 50 times get_cat start)) Forwarding.sent
      cat-IsPlain cat_passes cat_is_sent_on

Reach-SentFor_example : SentFor packages settings proxy allow_all initial get_cat Forwarding.sent
Reach-SentFor_example =
    Reach-SentFor packages settings proxy allow_all initial refl served.0 0 get_cat Forwarding.sent
      (λ key. lookup-nil key) served.1 served.2 cat_expects_nothing

cat_is_granted :
    run packages settings 50 times get_cat 14 arrived start
    ≡ next
        (granted (codes "photos"))
        (world_of (request_filter packages settings 50 times get_cat start))
unfolding request_filter then_do usage_limit expects_continue guarded list_when_root route
    parse_path path_parts behind_bucket recover_slash until starts_with span access_key_of
    parse_token_from_header lookup is_authorized consult check_signature skips_signature
    check_request ensure_key stored_key run_request signature_is_valid_for_request claimed
    payload_of full_url signature_is_valid_core parse_credential_scope split second_part new collect
    keep_header trim insert remove sign scope_string join sort_by ask_validator parse_query
    key_value_pair key_with_value bare_key take_until_either get_or_validate validate_locked fresh
    remember add_ttl validate_request decision_key effective_ttl grant ensure_credentials has_hmac
    has_api_key track get separated_from run perform look look_again store_decision
cat_is_granted = refl

abbrev waiting :
    (s : System (Assoc AuthEntry)) × StandsAt packages settings proxy Plain initial 50 times get_cat
      s 0
      (world_of (request_filter packages settings 50 times get_cat start))
      (granted (codes "photos"))
waiting =
    run-Reach packages settings proxy Plain initial 50 times get_cat 14
      (record {
        shared = initial;
        requests = put 0 (record { req = get_cat; status = serving new_local arrived }) (λ i. none);
      })
      0 arrived (granted (codes "photos")) start
      (world_of (request_filter packages settings 50 times get_cat start))
      (moved started (arrive 0 get_cat refl cat-IsPlain), refl, refl) cat_is_granted

Reach-granted_example :
    HasCredentials (codes "photos") waiting.0.shared.cos_mapping
    × ((access_key : Bytes) × IsCleared packages settings proxy allow_all initial get_cat
          (codes "photos")
          access_key)
Reach-granted_example =
    Reach-granted packages settings proxy allow_all initial refl waiting.0 0 get_cat
      (local_of (world_of (request_filter packages settings 50 times get_cat start)))
      (codes "photos") (λ key. lookup-nil key) waiting.1.0 waiting.1.2
