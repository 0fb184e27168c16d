-- ===== src/Signing/Specification.antt =====
-- What a request is signed with, written apart from the signer (signer.rs): the texts of AWS
-- Signature Version 4, over the signer's data. A query and a header's value are taken in the
-- signer's canonical form: encoded pairs sorted as texts, and a value without the spaces at its
-- ends.
use object_storage_proxy.Base.{
  Option, none, some, List, [], ◌∷◌, ◌++◌, map, if◌then◌else◌, Bytes, codes, beq, join, trim,
}
use object_storage_proxy.External.{Crypto, Calendar}
use object_storage_proxy.Signing.Order.{sort, sort_by}
use object_storage_proxy.Signing.Encode.{canonical_query_string}
use object_storage_proxy.Signing.AwsSign.{AwsSign}

abbrev pub header_lines : List (Bytes × Bytes) → Bytes
header_lines [] = []
header_lines ((name, value) ∷ hs) =
    name ++ (codes ":" ++ (trim value ++ (codes "\n" ++ header_lines hs)))

-- Every header on a line of its own; without headers, one empty line.
abbrev pub header_block : List (Bytes × Bytes) → Bytes
header_block [] = codes "\n"
header_block (h ∷ hs) = header_lines (h ∷ hs)

abbrev pub payload : Crypto → Option Bytes → Bytes → Bytes
payload crypto (some hash) body = hash
payload crypto none body =
    if beq body (codes "UNSIGNED-PAYLOAD")
    then body
    else if beq body (codes "STREAMING-AWS4-HMAC-SHA256-PAYLOAD")
    then body
    else crypto.digest_hex body

abbrev pub names : AwsSign → Bytes
names s = join (codes ";") (sort (map (λ (h : Bytes × Bytes). h.0) s.headers))

abbrev pub request : Crypto → AwsSign → Bytes
request crypto s = join (codes "\n") (
    s.method
    ∷ s.url.path
    ∷ canonical_query_string s.url.query_pairs
    ∷ header_block (sort_by (λ (h : Bytes × Bytes). h.0) s.headers)
    ∷ names s
    ∷ payload crypto s.payload_override s.body
    ∷ [])

abbrev pub scope : Calendar → AwsSign → Bytes
scope calendar s =
    join (codes "/")
      (calendar.short_date s.datetime ∷ s.region ∷ s.service ∷ codes "aws4_request" ∷ [])

abbrev pub text_to_sign : Crypto → Calendar → AwsSign → Bytes
text_to_sign crypto calendar s = join (codes "\n") (
    codes "AWS4-HMAC-SHA256"
    ∷ calendar.long_datetime s.datetime
    ∷ scope calendar s
    ∷ crypto.hex_encode (crypto.sha256 (request crypto s))
    ∷ [])

-- The digests of date, region, service and `aws4_request`, from the secret on.
abbrev pub key : Crypto → Calendar → AwsSign → Bytes
key crypto calendar s =
    crypto.hmac_sign
      (crypto.hmac_sign
        (crypto.hmac_sign
          (crypto.hmac_sign (codes "AWS4" ++ s.secret_key) (calendar.short_date s.datetime))
          s.region)
        s.service)
      (codes "aws4_request")

abbrev pub signature : Crypto → Calendar → AwsSign → Bytes
signature crypto calendar s =
    crypto.hex_encode (crypto.hmac_sign (key crypto calendar s) (text_to_sign crypto calendar s))

abbrev pub header : Crypto → Calendar → AwsSign → Bytes
header crypto calendar s =
    codes "AWS4-HMAC-SHA256 "
    ++ join (codes ",") (
        (codes "Credential=" ++ (s.access_key ++ (codes "/" ++ scope calendar s)))
        ∷ (codes "SignedHeaders=" ++ names s)
        ∷ (codes "Signature=" ++ signature crypto calendar s)
        ∷ [])
