-- ===== src/Examples/Sample.antt =====
-- Concrete functions for what comes from other packages.
use object_storage_proxy.Base.{Bytes, ◌∷◌, true, none, some, [], ◌++◌, codes}
use object_storage_proxy.Message.{Request, Http}
use object_storage_proxy.External.{Crypto, Calendar, Web}

-- A digest that keeps all its input.
abbrev pub sample_crypto : Crypto
sample_crypto = record {
  hmac_sign = λ key message. key ++ message;
  digest_hex = λ s. codes "d1" ++ s;
  sha256 = λ s. s;
  hex_encode = λ s. codes "a0";
}

abbrev pub sample_calendar : Calendar
sample_calendar = record {
  short_date = λ t. codes "20250501";
  long_datetime = λ t. codes "20250501T120000Z";
}

abbrev pub sample_web : Web
sample_web = record {
  to_str = λ v. some v;
  parse_url = λ u. some (record { path = u; query_pairs = [] });
}

abbrev pub sample_http : Http
sample_http = record {
  parse_uri = λ u. none;
  parse_target = λ t. some (t, none);
  is_authority = λ a. true;
  is_header_value = λ v. true;
}

abbrev pub auth_header : Bytes
auth_header =
    codes
      "AWS4-HMAC-SHA256 Credential=AK/20250501/eu/s3/aws4_request,SignedHeaders=host,Signature=a0"

-- A request that is signed by the client.
abbrev pub get_cat : Request
get_cat = record {
  method = codes "GET";
  uri = record { origin = []; path = codes "/photos/cat"; query = none };
  headers =
      (codes "host", codes "h")
      ∷ (codes "authorization", auth_header)
      ∷ (codes "x-amz-date", codes "d")
      ∷ (codes "x-amz-content-sha256", codes "UNSIGNED-PAYLOAD")
      ∷ [];
}
