-- ===== src/Examples/Checks.antt =====
-- A request whose signature is checked.
use object_storage_proxy.Base.{
  ◌≡◌, ◌≢◌, ◌↔◌, refl, Bool, true, [], ◌∷◌, none, some, arith, Bytes, codes, lookup, insert, remove,
  until, starts_with, split, join, second_part, trim,
}
use object_storage_proxy.External.{documented_nom, span}
use object_storage_proxy.Signing.Order.{sort, sort_by}
use object_storage_proxy.Signing.Key.{scope_string}
use object_storage_proxy.Signing.Key.Cache.{IsValid}
use object_storage_proxy.Signing.AwsSign.{
  AwsSign, new, collect, keep_header, signed_header_string, sign,
}
use object_storage_proxy.Signing.Verify.{
  answered, Claimed, payload_of, full_url, signature_is_valid_core, claimed,
  signature_is_valid_for_request,
}
use object_storage_proxy.Signing.Specification
use object_storage_proxy.Signing.Verify.Correct.{
  signature_is_valid_core_iff, signature_is_valid_for_request_sound,
}
use object_storage_proxy.Credentials.{parse_token_from_header, parse_credential_scope}
use object_storage_proxy.Examples.Sample.{sample_crypto, sample_calendar, sample_web}
use object_storage_proxy.Examples.Sample.{auth_header, get_cat}

cat_is_valid :
    (signature_is_valid_for_request sample_crypto sample_calendar sample_web documented_nom
      (λ d. some 7)
      auth_header
      get_cat
      (codes "SK")
      []).0
    ≡ answered true
unfolding signature_is_valid_for_request claimed payload_of full_url signature_is_valid_core
    parse_token_from_header parse_credential_scope until starts_with span split second_part lookup
    new collect keep_header trim insert remove sign scope_string join sort_by
cat_is_valid = refl

signature_is_valid_for_request_sound_run :
    (access_key rest : Bytes) × (c : Claimed) × (parse_token_from_header documented_nom auth_header
      ≡ some (rest, access_key))
    × (access_key ≢ [])
    × (claimed sample_crypto sample_calendar sample_web documented_nom
          (λ d. some 7)
          auth_header
          get_cat
        ≡ some c)
    × ((signature_is_valid_core sample_crypto sample_calendar sample_web documented_nom
          (λ d. some 7)
          (codes "GET")
          c
          get_cat.headers
          access_key
          (codes "SK")
          []).0
        ≡ answered true)
signature_is_valid_for_request_sound_run =
    signature_is_valid_for_request_sound sample_crypto sample_calendar sample_web documented_nom
      (λ d. some 7) auth_header get_cat (codes "SK") [] cat_is_valid

abbrev cat_claim : Claimed
cat_claim = record {
  signature = codes "a0";
  region = codes "eu";
  service = codes "s3";
  datetime = 7;
  url = codes "https://h/photos/cat";
  signed_headers = codes "host" ∷ [];
  body = codes "UNSIGNED-PAYLOAD";
  payload_override = none;
}

abbrev cat_signer : AwsSign
cat_signer = record {
  method = codes "GET";
  url = record { path = codes "https://h/photos/cat"; query_pairs = [] };
  datetime = 7;
  region = codes "eu";
  access_key = codes "AK";
  secret_key = codes "SK";
  headers = (codes "host", codes "h") ∷ [];
  payload_override = none;
  service = codes "s3";
  body = codes "UNSIGNED-PAYLOAD";
}

cat_built :
    new sample_web
      (codes "GET")
      cat_claim.url
      7
      get_cat.headers
      (codes "eu")
      (codes "AK")
      (codes "SK")
      (codes "s3")
      cat_claim.body
      (some (codes "host" ∷ []))
    ≡ some cat_signer
unfolding new collect keep_header trim insert remove
cat_built = refl

cat_signature :
    second_part (codes "Signature=") (Specification.header sample_crypto sample_calendar cat_signer)
    ≡ some (Specification.signature sample_crypto sample_calendar cat_signer)
unfolding second_part until starts_with scope_string signed_header_string join sort
cat_signature = refl

no_keys-IsValid : IsValid sample_crypto []
unfolding lookup
no_keys-IsValid = record { entry = λ date region service secret_key key plain found. cc }

signature_is_valid_core_iff_example :
    (b : Bool) × ((signature_is_valid_core sample_crypto sample_calendar sample_web documented_nom
        (λ d. some 7)
        (codes "GET")
        cat_claim
        get_cat.headers
        (codes "AK")
        (codes "SK")
        []).0
      ≡ answered b)
    × ((b ≡ true) ↔ (Specification.signature sample_crypto sample_calendar cat_signer ≡ codes "a0"))
    × IsValid sample_crypto
        (signature_is_valid_core sample_crypto sample_calendar sample_web documented_nom
          (λ d. some 7)
          (codes "GET")
          cat_claim
          get_cat.headers
          (codes "AK")
          (codes "SK")
          []).1
signature_is_valid_core_iff_example =
    signature_is_valid_core_iff sample_crypto sample_calendar sample_web documented_nom
      (λ d. some 7) (codes "GET") cat_claim get_cat.headers (codes "AK") (codes "SK") [] cat_signer
      cat_built (ground arith) no_keys-IsValid cat_signature
