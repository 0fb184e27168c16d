-- ===== src/Examples/Links.antt =====
-- A presigned URL, in time and late.
use object_storage_proxy.Base.{
  ◌≡◌, ◌+◌, ◌-◌, refl, true, List, [], ◌∷◌, Option, some, arith, Bytes, codes, lookup, insert,
  remove, split, join, second_part, starts_with, until, trim,
}
use object_storage_proxy.External.{DateTime, documented_nom}
use object_storage_proxy.Message.{Request}
use object_storage_proxy.Signing.Order.{sort_by}
use object_storage_proxy.Signing.Key.{scope_string}
use object_storage_proxy.Signing.AwsSign.{new, collect, keep_header, sign}
use object_storage_proxy.Signing.Verify.{answered, full_url, signature_is_valid_core}
use object_storage_proxy.Signing.Presigned.{
  Seconds, forward, backward, UrlText, parse_i64, Presented, expiry_of, take_signature, sort_pairs,
  credential_parts, host_header, copy_headers, checked, has_expired, presented, signed_part,
  core_presigned, signature_is_valid_for_presigned,
}
use object_storage_proxy.Signing.Presigned.Unexpired.{
  InTime, signature_is_valid_for_presigned_sound, signature_is_valid_for_presigned_late,
}
use object_storage_proxy.Examples.Sample.{sample_crypto, sample_calendar, sample_web, sample_http}

abbrev params : List (Bytes × Bytes)
params =
    (codes "X-Amz-Credential", codes "AK/20250501/eu/s3/aws4_request")
    ∷ (codes "X-Amz-Date", codes "d")
    ∷ (codes "X-Amz-Expires", codes "60")
    ∷ (codes "X-Amz-SignedHeaders", codes "host")
    ∷ (codes "X-Amz-Signature", codes "a0")
    ∷ []

abbrev later : DateTime → Seconds → Option DateTime
later t (forward n) = some (t + n)
later t (backward n) = some (t - n)

-- Every URL has the same query.
abbrev pub urls : UrlText
urls = record {
  parse = λ u. some u;
  query_pairs = λ u. params;
  set_query = λ u q. u;
  host_str = λ u. some (codes "h");
  port_or_known_default = λ u. some 443;
  to_text = λ n. codes "443";
  add_seconds = later;
}

abbrev link : Request
link = record {
  method = codes "GET";
  uri = record { origin = []; path = codes "/b/k"; query = some (codes "q") };
  headers = (codes "host", codes "h") ∷ [];
}

abbrev link_claim : Presented
link_claim = record {
  url = codes "https://h/b/k?q";
  signature = codes "a0";
  params =
      (codes "X-Amz-SignedHeaders", codes "host")
      ∷ (codes "X-Amz-Expires", codes "60")
      ∷ (codes "X-Amz-Date", codes "d")
      ∷ (codes "X-Amz-Credential", codes "AK/20250501/eu/s3/aws4_request")
      ∷ [];
  access_key = codes "AK";
  region = codes "eu";
  service = codes "s3";
  datetime = 7;
}

link-presented :
    presented sample_crypto sample_calendar sample_web documented_nom
      (λ d. some 7)
      sample_http
      urls
      link
    ≡ some link_claim
unfolding presented full_url starts_with lookup take_signature sort_pairs sort_by insert remove
    credential_parts split join
link-presented = refl

link_in_time :
    (signature_is_valid_for_presigned sample_crypto sample_calendar sample_web documented_nom
      (λ d. some 7)
      sample_http
      urls
      50
      link
      (codes "SK")
      []).0
    ≡ checked (answered true)
unfolding signature_is_valid_for_presigned presented full_url starts_with lookup take_signature
    sort_pairs sort_by insert remove credential_parts split join expiry_of parse_i64 core_presigned
    signed_part host_header copy_headers signature_is_valid_core new collect keep_header trim sign
    second_part until scope_string
link_in_time = refl

signature_is_valid_for_presigned_sound_example :
    (p : Presented) × (presented sample_crypto sample_calendar sample_web documented_nom
        (λ d. some 7)
        sample_http
        urls
        link
      ≡ some p)
    × InTime urls 50 p
    × ((core_presigned sample_crypto sample_calendar sample_web documented_nom
          (λ d. some 7)
          sample_http
          urls
          p
          link
          (codes "SK")
          []).0
        ≡ checked (answered true))
signature_is_valid_for_presigned_sound_example =
    signature_is_valid_for_presigned_sound sample_crypto sample_calendar sample_web documented_nom
      (λ d. some 7) sample_http urls 50 link (codes "SK") [] link_in_time

signature_is_valid_for_presigned_late_run :
    signature_is_valid_for_presigned sample_crypto sample_calendar sample_web documented_nom
      (λ d. some 7)
      sample_http
      urls
      68
      link
      (codes "SK")
      []
    ≡ (has_expired, [])
signature_is_valid_for_presigned_late_run =
    signature_is_valid_for_presigned_late sample_crypto sample_calendar sample_web documented_nom
      (λ d. some 7) sample_http urls 68 link (codes "SK") [] link_claim (codes "60") (forward 60) 67
      link-presented (unfold lookup in refl) (unfold parse_i64 in refl) refl (omega arith)
