-- ===== src/Examples/Forwarding.antt =====
-- A request on its way upstream.
use object_storage_proxy.Base.{
  ◌≡◌, arith, refl, true, not, ◌&&◌, ◌||◌, ◌==◌, if◌then◌else◌, [], ◌∷◌, none, some, is_some, Bytes,
  codes, beq, Assoc, lookup, remove, All, until, starts_with, split, join,
}
use object_storage_proxy.External.{documented_nom}
use object_storage_proxy.Base.{second_part}
use object_storage_proxy.Message.{Request, Http}
use object_storage_proxy.CosMap.{CosMapItem}
use object_storage_proxy.Secrets.{IamResponse}
use object_storage_proxy.Secrets
use object_storage_proxy.Proxy.Upstream.{Config, Ctx, HttpPeer, upstream_peer}
use object_storage_proxy.Proxy.Target.{
  authority_of, keep, to_remove, remove_all, presigned_target, cleaned_query, response_filter,
}
use object_storage_proxy.Proxy.Rewrite.{unsigned}
use object_storage_proxy.Proxy.Routing.{
  with_port, authority_of-upstream_peer, split-cleaned_query, HasNoSignature, unsigned-AllUnsigned,
}
use object_storage_proxy.Proxy.Forwarded.{lookup-forwarded, lookup-response_filter}
use object_storage_proxy.Examples.Sample.{sample_crypto, sample_calendar, sample_web, sample_http}
use object_storage_proxy.Examples.Sample.{get_cat}
use object_storage_proxy.Signing.Resign.Keys.{HasPlainRegion}

abbrev pub proxy : Config
proxy = record { cos_endpoint = codes "cos"; verify = none }

abbrev pub backend : CosMapItem
backend = record {
  host = codes "s3";
  port = 8443;
  region = none;
  api_key = some (codes "api");
  access_key = none;
  secret_key = none;
  ttl = none;
  tls = none;
  addressing_style = some (codes "path");
}

abbrev pub mapping : Assoc CosMapItem
mapping = (codes "photos", backend) ∷ []

abbrev pub cat_ctx : Ctx
cat_ctx = record {
  cos_mapping = mapping;
  secrets_cache = [];
  is_presigned = none;
  stream_state = none;
  cached_bucket = some (codes "photos");
  cached_bucket_config = some backend;
}

abbrev peer : HttpPeer
peer = record {
  host = codes "s3";
  port = 8443;
  tls = true;
  sni = codes "s3";
  max_h2_streams = 128;
  h2_ping_interval = 30;
  verify_cert = true;
  verify_hostname = none;
}

authority_of-upstream_peer_example :
    authority_of
      (λ n. codes "8443")
      (codes "cos")
      (codes "photos")
      (lookup (codes "photos") mapping)
    ≡ with_port (λ n. codes "8443") (codes "s3") 8443
authority_of-upstream_peer_example =
    authority_of-upstream_peer documented_nom (λ n. codes "8443") proxy cat_ctx get_cat
      (codes "photos") peer refl (unfold lookup in refl) (unfold upstream_peer lookup in refl)

split-cleaned_query_run :
    All
      (λ kv. not (starts_with (codes "X-Amz-") kv) ≡ true)
      (split b'&' (cleaned_query (codes "X-Amz-Date=d&versionId=1&X-Amz-Signature=s")))
split-cleaned_query_run = split-cleaned_query (codes "X-Amz-Date=d&versionId=1&X-Amz-Signature=s")

cleaned : cleaned_query (codes "X-Amz-Date=d&versionId=1&X-Amz-Signature=s") ≡ codes "versionId=1"
unfolding cleaned_query split join starts_with
cleaned = refl

lookup-forwarded_run :
    lookup (codes "authorization") (remove_all (to_remove get_cat.headers) get_cat.headers) ≡ (
      if keep (codes "authorization") then lookup (codes "authorization") get_cat.headers else none)
lookup-forwarded_run = lookup-forwarded (codes "authorization") get_cat.headers

abbrev no_headers : Assoc Bytes
no_headers = []

lookup-response_filter_run :
    lookup (codes "content-type") (response_filter 200 (codes "osp") no_headers) ≡ (
      if beq (codes "server") (codes "content-type")
      then some (codes "osp")
      else if beq (codes "content-type") (codes "content-type")
          && (not (is_some (lookup (codes "content-type") no_headers))
              && (200 == 200 || 200 == 206))
      then some (codes "application/octet-stream")
      else lookup (codes "content-type") no_headers)
lookup-response_filter_run =
    lookup-response_filter 200 (codes "osp") (codes "content-type") no_headers

abbrev pub iam : IamResponse
iam = record { access_token = codes "tok"; expires_in = 3600; expiration = 9000 }

abbrev pub sent : Request
sent = record {
  method = codes "GET";
  uri = record { origin = codes "https://s3:8443"; path = codes "/photos/cat"; query = none };
  headers =
      (codes "authorization", codes "Bearer tok")
      ∷ (codes "host", codes "s3:8443")
      ∷ (codes "x-amz-date", codes "d")
      ∷ (codes "x-amz-content-sha256", codes "UNSIGNED-PAYLOAD")
      ∷ [];
}

mapping-IsBackend : (b : Bytes) (cfg : CosMapItem) → lookup b mapping ≡ some cfg → cfg ≡ backend
unfolding lookup
mapping-IsBackend b cfg h = ground arith

pub mapping-HasPlainRegion :
    (b : Bytes) (cfg : CosMapItem)
    → lookup b mapping ≡ some cfg
    → HasPlainRegion sample_crypto sample_calendar sample_web sample_http 7 cfg
mapping-HasPlainRegion b cfg h = rw (mapping-IsBackend b cfg h) (ground arith)

-- A parser that splits at the question mark.
abbrev splitting_http : Http
splitting_http = record sample_http {
  parse_uri = λ t.
      some (record { origin = []; path = codes "/photos/cat"; query = second_part (codes "?") t });
}

abbrev presigned_cat : Request
presigned_cat = record get_cat {
  uri = record get_cat.uri { query = some (codes "X-Amz-Date=d&versionId=1&X-Amz-Signature=s") };
}

abbrev presigned_ctx : Ctx
presigned_ctx = record cat_ctx { is_presigned = some true }

abbrev stripped_cat : Request
stripped_cat = record {
  method = codes "GET";
  uri = record { origin = []; path = codes "/photos/cat"; query = some (codes "versionId=1") };
  headers =
      (codes "host", codes "h")
      ∷ (codes "x-amz-date", codes "d")
      ∷ (codes "x-amz-content-sha256", codes "UNSIGNED-PAYLOAD")
      ∷ [];
}

unsigned-AllUnsigned_example : HasNoSignature stripped_cat
unfolding unsigned presigned_target cleaned_query split join starts_with second_part until remove
unsigned-AllUnsigned_example =
    unsigned-AllUnsigned sample_crypto sample_calendar sample_web splitting_http documented_nom
      (λ n. codes "8443") presigned_ctx presigned_cat stripped_cat refl (λ u e. ground arith)
      (λ u e. ground arith) refl
