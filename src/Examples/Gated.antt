-- ===== src/Examples/Gated.antt =====
-- Requests at the filter.
use object_storage_proxy.Base.{
  ◌≡◌, refl, true, false, ◌||◌, [], ◌∷◌, Option, none, some, arith, Bytes, codes, Assoc, lookup,
  insert, remove, until, starts_with, split, join, second_part, trim, beq, if◌then◌else◌,
}
use object_storage_proxy.External.{documented_nom, span, separated_from}
use object_storage_proxy.Message.{Request}
use object_storage_proxy.Path.{ok, parse_path, path_parts, behind_bucket, recover_slash}
use object_storage_proxy.Path.Query.{
  parse_query, key_value_pair, key_with_value, bare_key, take_until_either,
}
use object_storage_proxy.Path.Query.Laws.{parse_query_total}
use object_storage_proxy.Credentials.Params.{parse_presigned_params}
use object_storage_proxy.Credentials.Params.Laws.{parse_presigned_params_without}
use object_storage_proxy.Credentials.{parse_token_from_header, parse_credential_scope}
use object_storage_proxy.CosMap.{CosMapItem, has_hmac, has_api_key, ensure_credentials}
use object_storage_proxy.Authorization.{
  AuthEntry, fresh, remember, add_ttl, validate_locked, get_or_validate,
}
use object_storage_proxy.Signing.Order.{sort_by}
use object_storage_proxy.Signing.Key.{scope_string}
use object_storage_proxy.Signing.AwsSign.{new, collect, keep_header, sign}
use object_storage_proxy.Signing.Verify.{
  claimed, payload_of, full_url, signature_is_valid_core, signature_is_valid_for_request,
}
use object_storage_proxy.Tracker.{get, track}
use object_storage_proxy.Gate.World.{Callback, Settings, World, next, then_do}
use object_storage_proxy.Gate.Usage.{usage_limit, expects_continue}
use object_storage_proxy.Gate.Keys.{
  skips_signature, ensure_key, stored_key, run_request, check_request, check_signature,
}
use object_storage_proxy.Gate.Validate.{
  Instants, validate_request, decision_key, effective_ttl, ask_validator,
}
use object_storage_proxy.Gate.Filter.{
  Packages, list_when_root, route, access_key_of, consult, is_authorized, grant, guarded,
  request_filter,
}
use object_storage_proxy.Gate.Passed.{Signed, Vouched}
use object_storage_proxy.Gate.Admission.{
  request_filter-authorized, request_filter-has_credentials, request_filter_expected,
}
use object_storage_proxy.Gate.Races.{
  Race, RaceStep, counted, pass, race_start, race_later, RaceReach-passed,
}
use object_storage_proxy.Tracker
use object_storage_proxy.Base.{◌≤◌}
use object_storage_proxy.Gate.Through.{upstream_request_filter-authorized}
use object_storage_proxy.Base.{to_text, subst}
use object_storage_proxy.Signing.Resign.Keys.{HasPlainRegion}
use object_storage_proxy.Message.{finished, insert_header}
use object_storage_proxy.Secrets.{is_expired, renew}
use object_storage_proxy.Secrets
use object_storage_proxy.Proxy.Target.{
  my_query, this_url, authority_of, keep, to_remove, remove_all,
}
use object_storage_proxy.Proxy.Rewrite.{
  unsigned, retarget, with_bearer, authenticate, send, upstream_request_filter,
}
use object_storage_proxy.Proxy.Authenticated.{AuthenticatedFor}
use object_storage_proxy.Examples.Forwarding.{proxy, iam, sent}
use object_storage_proxy.Gate.Uses.{world_of, min, passes, uses, passes_lem}
use object_storage_proxy.Examples.Sample.{sample_crypto, sample_calendar, sample_web, sample_http}
use object_storage_proxy.Examples.Sample.{get_cat}
use object_storage_proxy.Examples.Decided.{unbounded, sample_json}
use object_storage_proxy.Examples.Links.{urls}
use object_storage_proxy.Examples.Forwarding.{mapping, mapping-HasPlainRegion, cat_ctx}
use object_storage_proxy.Signing.Key.Cache.{IsValid, signing_key-IsValid}
use object_storage_proxy.Signing.Key.{signing_key, retain, derive}

abbrev pub packages : Packages (Assoc AuthEntry) Bytes
packages = record {
  lru = unbounded;
  json = sample_json;
  crypto = sample_crypto;
  calendar = sample_calendar;
  web = sample_web;
  nom = documented_nom;
  parse_datetime = λ d. some 7;
  http = sample_http;
  urls = urls;
  decode_segment = λ s. some s;
  percent_decode = λ s. s;
}

abbrev pub allow_all : Callback
allow_all = record {
  with_request = λ token bucket request. some (some true);
  plain = λ token bucket. some (some true);
}

abbrev pub settings : Settings
settings = record {
  max_presign_url_usage_attempts = some 2;
  skip_signature_validation = some false;
  validator_takes_request = some true;
  validator = some allow_all;
  hmac_fetcher = some (λ access_key. some (codes "SK"));
  bucket_creds_fetcher = none;
}

abbrev pub times : Instants
times = record { first = 5; looked = 6; written = 7 }

abbrev pub start : World (Assoc AuthEntry)
start = record {
  ctx = record cat_ctx { cached_bucket = none; cached_bucket_config = none };
  hmac_keystore = [];
  auth_cache = [];
  tracker = record { counts = [] };
  keys = [];
}

pub cat_passes :
    request_filter packages settings 50 times get_cat start
    ≡ next tt (world_of (request_filter packages settings 50 times get_cat start))
unfolding request_filter then_do usage_limit expects_continue guarded list_when_root route
    parse_path path_parts behind_bucket recover_slash until starts_with span access_key_of
    parse_token_from_header lookup is_authorized consult check_signature skips_signature
    check_request ensure_key stored_key run_request signature_is_valid_for_request claimed
    payload_of full_url signature_is_valid_core parse_credential_scope split second_part new collect
    keep_header trim insert remove sign scope_string join sort_by ask_validator parse_query
    key_value_pair key_with_value bare_key take_until_either get_or_validate validate_locked fresh
    remember add_ttl validate_request decision_key effective_ttl grant ensure_credentials has_hmac
    has_api_key track get separated_from
cat_passes = refl

pub cat_is_sent_on :
    (upstream_request_filter sample_crypto sample_calendar sample_web sample_http documented_nom
      to_text proxy 7 100
      (some iam)
      (world_of (request_filter packages settings 50 times get_cat start)).ctx
      get_cat
      (world_of (request_filter packages settings 50 times get_cat start)).keys).outcome
    ≡ finished sent
unfolding request_filter then_do usage_limit expects_continue guarded list_when_root route
    parse_path path_parts behind_bucket recover_slash until starts_with span access_key_of
    parse_token_from_header lookup is_authorized consult check_signature skips_signature
    check_request ensure_key stored_key run_request signature_is_valid_for_request claimed
    payload_of full_url signature_is_valid_core parse_credential_scope split second_part new collect
    keep_header trim insert remove sign scope_string join sort_by ask_validator parse_query
    key_value_pair key_with_value bare_key take_until_either get_or_validate validate_locked fresh
    remember add_ttl validate_request decision_key effective_ttl grant ensure_credentials has_hmac
    has_api_key track get separated_from upstream_request_filter unsigned send retarget authority_of
    this_url my_query to_remove remove_all keep authenticate with_bearer Secrets.get is_expired
    renew insert_header to_text
cat_is_sent_on = refl

pub cat_expects_nothing : expects_continue sample_web get_cat ≡ false
unfolding expects_continue lookup
cat_expects_nothing = refl

request_filter-authorized_run :
    (bucket rest access_key : Bytes) × (item : CosMapItem) × (parse_path documented_nom
        (codes "/photos/cat")
      ≡ ok (bucket, rest))
    × (lookup bucket mapping ≡ some item)
    × (access_key_of packages settings 50 times get_cat ≡ some access_key)
    × Signed packages settings 50 times get_cat access_key [] []
    × Vouched packages settings 50 times get_cat allow_all bucket access_key []
request_filter-authorized_run =
    request_filter-authorized packages settings 50 times get_cat allow_all start
      (world_of (request_filter packages settings 50 times get_cat start)) refl cat_expects_nothing
      cat_passes

request_filter-has_credentials_example :
    (bucket rest : Bytes) × (item item' : CosMapItem) × (parse_path documented_nom
        (codes "/photos/cat")
      ≡ ok (bucket, rest))
    × (lookup bucket mapping ≡ some item)
    × (lookup bucket
          (world_of (request_filter packages settings 50 times get_cat start)).ctx.cos_mapping
        ≡ some item')
    × ((has_hmac item' || has_api_key item') ≡ true)
request_filter-has_credentials_example =
    request_filter-has_credentials packages settings 50 times get_cat start
      (world_of (request_filter packages settings 50 times get_cat start)) cat_expects_nothing
      cat_passes

-- No bucket, no signature.
abbrev expecting : Request
expecting = record {
  method = codes "PUT";
  uri = record { origin = []; path = codes "/"; query = none };
  headers = (codes "expect", codes "100-Continue") ∷ [];
}

request_filter_expected_run :
    request_filter packages settings 50 times expecting start ≡ next tt start
request_filter_expected_run =
    request_filter_expected packages settings 50 times expecting start
      (unfold expects_continue lookup in refl) refl

abbrev link : Request
link = record {
  method = codes "GET";
  uri = record { origin = []; path = codes "/b/k"; query = some (codes "X-Amz-Signature=a0") };
  headers = (codes "host", codes "h") ∷ [];
}

passes_lem_run :
    passes settings sample_http
      (codes "/b/k?X-Amz-Signature=a0")
      (link ∷ get_cat ∷ link ∷ link ∷ [])
      start
    ≡ min (uses (codes "/b/k?X-Amz-Signature=a0") (link ∷ get_cat ∷ link ∷ link ∷ [])) 2
unfolding get lookup until starts_with
passes_lem_run =
    passes_lem settings sample_http (codes "/b/k?X-Amz-Signature=a0")
      (link ∷ get_cat ∷ link ∷ link ∷ []) start (omega arith)

passes_twice :
    passes settings sample_http
      (codes "/b/k?X-Amz-Signature=a0")
      (link ∷ get_cat ∷ link ∷ link ∷ [])
      start
    ≡ 2
unfolding usage_limit track get lookup insert until starts_with
passes_twice = refl

-- An escape that is not UTF-8 hides what follows it.
abbrev strict : Bytes → Option Bytes
strict s = if beq s (codes "%FF") then none else some s

parse_query_total_run :
    (rest : Bytes) × (m : Assoc Bytes) × (parse_query documented_nom strict (codes "a=1&b=%FF&c=3")
      ≡ some (rest, m))
parse_query_total_run = parse_query_total documented_nom strict (codes "a=1&b=%FF&c=3")

query_hidden :
    parse_query documented_nom strict (codes "a=1&b=%FF&c=3")
    ≡ some (codes "&b=%FF&c=3", (codes "a", codes "1") ∷ [])
unfolding parse_query key_value_pair key_with_value bare_key take_until_either separated_from until
    starts_with insert remove
query_hidden = refl

query_empty : parse_query documented_nom strict [] ≡ some ([], ([], []) ∷ [])
unfolding parse_query key_value_pair bare_key take_until_either separated_from until insert remove
query_empty = refl

parse_presigned_params_without_run :
    parse_presigned_params documented_nom (λ s. s) (codes "X-Amz-Date=d") ≡ none
parse_presigned_params_without_run =
    parse_presigned_params_without documented_nom (λ s. s) (codes "X-Amz-Date=d")
      (unfold until starts_with in refl)

mapping_kept :
    (world_of (request_filter packages settings 50 times get_cat start)).ctx.cos_mapping ≡ mapping
unfolding request_filter then_do usage_limit expects_continue guarded list_when_root route
    parse_path path_parts behind_bucket recover_slash until starts_with span access_key_of
    parse_token_from_header lookup is_authorized consult check_signature skips_signature
    check_request ensure_key stored_key run_request signature_is_valid_for_request claimed
    payload_of full_url signature_is_valid_core parse_credential_scope split second_part new collect
    keep_header trim insert remove sign scope_string join sort_by ask_validator parse_query
    key_value_pair key_with_value bare_key take_until_either get_or_validate validate_locked fresh
    remember add_ttl validate_request decision_key effective_ttl grant ensure_credentials has_hmac
    has_api_key track get separated_from upstream_request_filter unsigned send retarget authority_of
    this_url my_query to_remove remove_all keep authenticate with_bearer Secrets.get is_expired
    renew insert_header to_text
mapping_kept = refl

kept-HasPlainRegion :
    (b : Bytes) (cfg : CosMapItem)
    → lookup b (world_of (request_filter packages settings 50 times get_cat start)).ctx.cos_mapping
      ≡ some cfg
    → HasPlainRegion sample_crypto sample_calendar sample_web sample_http 7 cfg
kept-HasPlainRegion b cfg h =
    mapping-HasPlainRegion b cfg
      (subst (λ (m : Assoc CosMapItem). lookup b m ≡ some cfg) mapping_kept h)

keys-IsValid :
    IsValid sample_crypto (world_of (request_filter packages settings 50 times get_cat start)).keys
unfolding request_filter then_do usage_limit expects_continue guarded list_when_root route
    parse_path path_parts behind_bucket recover_slash until starts_with span access_key_of
    parse_token_from_header lookup is_authorized consult check_signature skips_signature
    check_request ensure_key stored_key run_request signature_is_valid_for_request claimed
    payload_of full_url signature_is_valid_core parse_credential_scope split second_part new collect
    keep_header trim insert remove sign scope_string join sort_by ask_validator parse_query
    key_value_pair key_with_value bare_key take_until_either get_or_validate validate_locked fresh
    remember add_ttl validate_request decision_key effective_ttl grant ensure_credentials has_hmac
    has_api_key track get separated_from upstream_request_filter unsigned send retarget authority_of
    this_url my_query to_remove remove_all keep authenticate with_bearer Secrets.get is_expired
    renew insert_header to_text signing_key retain derive
keys-IsValid =
    (signing_key-IsValid sample_crypto sample_calendar 7 (codes "SK") (codes "eu") (codes "s3") []
      (ground arith) (record { entry = λ date region service secret_key key plain found. cc })).1

upstream_request_filter-authorized_example :
    (bucket rest access_key : Bytes) × (parse_path documented_nom (codes "/photos/cat")
      ≡ ok (bucket, rest))
    × (access_key_of packages settings 50 times get_cat ≡ some access_key)
    × Signed packages settings 50 times get_cat access_key [] []
    × Vouched packages settings 50 times get_cat allow_all bucket access_key []
    × AuthenticatedFor sample_crypto sample_calendar sample_web sample_http documented_nom to_text 7
        100
        (some iam)
        bucket
        (world_of (request_filter packages settings 50 times get_cat start)).ctx
        sent
upstream_request_filter-authorized_example =
    upstream_request_filter-authorized packages settings 50 times get_cat allow_all start
      (world_of (request_filter packages settings 50 times get_cat start)) proxy 7 100 (some iam)
      sent refl cat_expects_nothing kept-HasPlainRegion keys-IsValid (λ u e. cc) cat_passes
      cat_is_sent_on

-- One use that is counted and passes.
abbrev raced : Race
raced = record {
  tracker = track Tracker.new (codes "/b/k?X-Amz-Signature=a0");
  pending = 0;
  passed = 1;
}

link_counted :
    RaceStep settings
      (codes "/b/k?X-Amz-Signature=a0")
      (record { tracker = Tracker.new; pending = 0; passed = 0 })
      (record {
        tracker = track Tracker.new (codes "/b/k?X-Amz-Signature=a0");
        pending = 1;
        passed = 0;
      })
unfolding get lookup until starts_with
link_counted = counted link refl (omega arith)

link_passes :
    RaceStep settings
      (codes "/b/k?X-Amz-Signature=a0")
      (record {
        tracker = track Tracker.new (codes "/b/k?X-Amz-Signature=a0");
        pending = 1;
        passed = 0;
      })
      raced
unfolding track get lookup insert remove
link_passes = pass (omega arith) refl

RaceReach-passed_example : 1 ≤ 2
unfolding get lookup
RaceReach-passed_example =
    RaceReach-passed settings (codes "/b/k?X-Amz-Signature=a0") Tracker.new raced
      (race_later (race_later race_start link_counted) link_passes)
