-- ===== src/Signing/AwsSign.antt =====
-- `AwsSign`: the canonical request, the string to sign and the `Authorization` header.
pub mod Equivalence
use object_storage_proxy.Base.{
  ℕ, ◌+◌, Bool, true, false, ◌&&◌, ◌||◌, Option, none, some, List, [], ◌∷◌, ◌++◌, map, ltb, leb,
  if◌then◌else◌, ◌>>=◌, Bytes, codes, beq, starts_with, join, trim, within, Assoc, insert,
}
use object_storage_proxy.External.{Crypto, Calendar, DateTime, Url, Web}
use object_storage_proxy.Signing.Order.{sort, sort_by}
use object_storage_proxy.Signing.Encode.{canonical_query_string}
use object_storage_proxy.Signing.Key.{KeyCache, scope_string, signing_key}

-- What `HeaderMap::iter` yields.
abbrev pub Headers : Type 0
Headers = List (Bytes × Bytes)

pub record AwsSign : Type 0 where
  pub method : Bytes
  pub url : Url
  pub datetime : DateTime
  pub region : Bytes
  pub access_key : Bytes
  pub secret_key : Bytes
  pub headers : Assoc Bytes
  pub payload_override : Option Bytes
  pub service : Bytes
  pub body : Bytes

abbrev pub any_of : List Bytes → Bytes → Bool
any_of [] name = false
any_of (x ∷ xs) name = beq x name || any_of xs name

-- The headers that are signed again for the upstream.
abbrev pub resigned_names : List Bytes
resigned_names =
    codes "content-length"
    ∷ codes "content-encoding"
    ∷ codes "transfer-encoding"
    ∷ codes "range"
    ∷ codes "expect"
    ∷ codes "x-amz-decoded-content-length"
    ∷ []

unfoldable pub keep_header : Option (List Bytes) → Bytes → Bool
keep_header (some signed) name = any_of signed name
keep_header none name =
    beq name (codes "host") || (starts_with (codes "x-amz-") name || any_of resigned_names name)

-- str::to_lowercase, of a header's name, which is ASCII
abbrev pub to_lowercase : Bytes → Bytes
to_lowercase [] = []
to_lowercase (c ∷ s) = (if within b'A' b'Z' c then c + 32 else c) ∷ to_lowercase s

-- A later value of a name replaces an earlier one.
unfoldable pub collect : Web → Option (List Bytes) → Headers → Assoc Bytes → Assoc Bytes
collect web allow [] kept = kept
collect web allow ((key, value) ∷ headers) kept =
    let name = to_lowercase key in
    collect web allow headers (
      if keep_header allow name
      then elim (web.to_str value) [ none ↦ kept | some v ↦ insert name (trim v) kept ]
      else kept)

-- `none` is the panic on an invalid URL.
unfoldable pub new :
    Web
    → Bytes
    → Bytes
    → DateTime
    → Headers
    → Bytes
    → Bytes
    → Bytes
    → Bytes
    → Bytes
    → Option (List Bytes)
    → Option AwsSign
new web method url datetime headers region access_key secret_key service body signed_headers = do
  parsed ← web.parse_url url
  some (record {
    method = method;
    url = parsed;
    datetime = datetime;
    region = region;
    access_key = access_key;
    secret_key = secret_key;
    headers = collect web signed_headers headers [];
    payload_override = none;
    service = service;
    body = body;
  })

unfoldable pub set_payload_override : AwsSign → Bytes → AwsSign
set_payload_override s h = record s { payload_override = some h }

abbrev pub header_line : Bytes × Bytes → Bytes
header_line (key, value) = key ++ (codes ":" ++ trim value)

abbrev pub name_of : Bytes × Bytes → Bytes
name_of (key, value) = key

unfoldable pub canonical_header_string : AwsSign → Bytes
canonical_header_string s = join (codes "\n") (map header_line (sort_by name_of s.headers))

unfoldable pub signed_header_string : AwsSign → Bytes
signed_header_string s = join (codes ";") (sort (map name_of s.headers))

-- `{method}\n{uri}\n{query_string}\n{headers}\n\n{signed}\n{payload}`
unfoldable pub canonical_request : Crypto → AwsSign → Bytes
canonical_request crypto s =
    let query_string = canonical_query_string s.url.query_pairs in
    let canonical_headers = canonical_header_string s in
    let signed_headers = signed_header_string s in
    let payload_line : Bytes = elim s.payload_override [
      | some ov ↦ ov
      | none ↦
          if beq s.body (codes "UNSIGNED-PAYLOAD")
          then codes "UNSIGNED-PAYLOAD"
          else if beq s.body (codes "STREAMING-AWS4-HMAC-SHA256-PAYLOAD")
          then codes "STREAMING-AWS4-HMAC-SHA256-PAYLOAD"
          else crypto.digest_hex s.body
    ] in
    s.method
    ++ (codes "\n"
        ++ (s.url.path
            ++ (codes "\n"
                ++ (query_string
                    ++ (codes "\n"
                        ++ (canonical_headers
                            ++ (codes "\n\n"
                                ++ (signed_headers ++ (codes "\n" ++ payload_line)))))))))

-- `AWS4-HMAC-SHA256\n{timestamp}\n{scope}\n{hash}`
unfoldable pub string_to_sign : Crypto → Calendar → DateTime → Bytes → Bytes → Bytes → Bytes
string_to_sign crypto calendar datetime region canonical_req service =
    codes "AWS4-HMAC-SHA256\n"
    ++ (calendar.long_datetime datetime
        ++ (codes "\n"
            ++ (scope_string calendar datetime region service
                ++ (codes "\n" ++ crypto.hex_encode (crypto.sha256 canonical_req)))))

-- `AWS4-HMAC-SHA256 Credential={}/{},SignedHeaders={},Signature={}`
abbrev pub authorization : Bytes → Bytes → Bytes → Bytes → Bytes
authorization access_key scope signed_headers signature =
    codes "AWS4-HMAC-SHA256 Credential="
    ++ (access_key
        ++ (codes "/"
            ++ (scope
                ++ (codes ",SignedHeaders="
                    ++ (signed_headers ++ (codes ",Signature=" ++ signature))))))

-- The header value, and the cache of signing keys afterwards. The pairs are sorted once.
unfoldable pub sign : Crypto → Calendar → AwsSign → KeyCache → Bytes × KeyCache
sign crypto calendar s cache =
    let scope = scope_string calendar s.datetime s.region s.service in
    let kv = sort_by name_of s.headers in
    let canonical_headers = join (codes "\n") (map header_line kv) in
    let signed_headers = join (codes ";") (map name_of kv) in
    let query_string = canonical_query_string s.url.query_pairs in
    let payload_line : Bytes = elim s.payload_override [
      | some ov ↦ ov
      | none ↦
          if beq s.body (codes "UNSIGNED-PAYLOAD")
          then codes "UNSIGNED-PAYLOAD"
          else if beq s.body (codes "STREAMING-AWS4-HMAC-SHA256-PAYLOAD")
          then codes "STREAMING-AWS4-HMAC-SHA256-PAYLOAD"
          else crypto.digest_hex s.body
    ] in
    let canonical =
      s.method
      ++ (codes "\n"
          ++ (s.url.path
              ++ (codes "\n"
                  ++ (query_string
                      ++ (codes "\n"
                          ++ (canonical_headers
                              ++ (codes "\n\n"
                                  ++ (signed_headers ++ (codes "\n" ++ payload_line))))))))) in
    let canonical_hash = crypto.hex_encode (crypto.sha256 canonical) in
    let sts =
      codes "AWS4-HMAC-SHA256\n"
      ++ (calendar.long_datetime s.datetime
          ++ (codes "\n" ++ (scope ++ (codes "\n" ++ canonical_hash)))) in
    let (key, cache') =
      signing_key crypto calendar s.datetime s.secret_key s.region s.service cache in
    let signature = crypto.hex_encode (crypto.hmac_sign key sts) in
    (authorization s.access_key scope signed_headers signature, cache')
