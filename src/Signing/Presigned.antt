-- ===== src/Signing/Presigned.antt =====
-- Checks of presigned URLs: `signature_is_valid_for_presigned`.
pub mod Unexpired
use object_storage_proxy.Base.{
  ℕ, ◌+◌, ◌-◌, ◌*◌, ◌^◌, Bool, true, false, ◌&&◌, Option, none, some, List, [], ◌∷◌, ◌++◌, map,
  if◌then◌else◌, ◌==◌, ltb, leb, within, ◌>>=◌, Bytes, codes, beq, or_else, is_some, split, join,
  Assoc, lookup, insert,
}
use object_storage_proxy.External.{Crypto, Calendar, DateTime, Nom, Web}
use object_storage_proxy.Message.{Request, Http}
use object_storage_proxy.Signing.Order.{sort_by}
use object_storage_proxy.Signing.Key.{KeyCache}
use object_storage_proxy.Signing.AwsSign.{Headers, any_of}
use object_storage_proxy.Signing.Verify.{
  Checked, answered, error, panic, Claimed, full_url, signature_is_valid_core,
}

-- An i64: a number of seconds forward, or backward.
pub data Seconds : Type 0 where
  forward : ℕ → Seconds
  backward : ℕ → Seconds

-- `url::Url` on the text of a URL, the printing of a port, and `DateTime + Duration::seconds(_)` of
-- `chrono`, which panics out of its range.
pub record UrlText : Type 0 where
  pub parse : Bytes → Option Bytes
  pub query_pairs : Bytes → List (Bytes × Bytes)
  pub set_query : Bytes → Bytes → Bytes
  pub host_str : Bytes → Option Bytes
  pub port_or_known_default : Bytes → Option ℕ
  pub to_text : ℕ → Bytes
  pub add_seconds : DateTime → Seconds → Option DateTime

-- Decimal digits, of which there are any.
abbrev pub digits : ℕ → Bytes → Option ℕ
digits n [] = some n
digits n (c ∷ s) =
    let rest = digits (n * 10 + (c - b'0')) s in if within b'0' b'9' c then rest else none

abbrev pub decimal : Bytes → Option ℕ
decimal [] = none
decimal (c ∷ s) = digits 0 (c ∷ s)

abbrev up_to : ℕ → ℕ → Option ℕ
up_to bound n = if leb n bound then some n else none

-- str::parse::<i64>
unfoldable pub parse_i64 : Bytes → Option Seconds
parse_i64 [] = none
parse_i64 (c ∷ s) =
    let negative = (do n ← decimal s; m ← up_to (2 ^ 63) n; some (backward m)) in
    let positive = (do n ← decimal s; m ← up_to (2 ^ 63 - 1) n; some (forward m)) in
    let plain = (do n ← decimal (c ∷ s); m ← up_to (2 ^ 63 - 1) n; some (forward m)) in
    if c == b'-' then negative else if c == b'+' then positive else plain

-- The last value of `X-Amz-Signature`, and the other pairs in their order.
unfoldable pub take_signature : List (Bytes × Bytes) → Option Bytes × List (Bytes × Bytes)
take_signature [] = (none, [])
take_signature ((k, v) ∷ pairs) =
    let (later, others) = take_signature pairs in
    if beq k (codes "X-Amz-Signature")
    then (or_else later (some v), others)
    else (later, (k, v) ∷ others)

-- Pairs are sorted by key, then by value; the sort is stable.
unfoldable pub sort_pairs : List (Bytes × Bytes) → List (Bytes × Bytes)
sort_pairs pairs =
    sort_by (λ ((k, v) : Bytes × Bytes). k) (sort_by (λ ((k, v) : Bytes × Bytes). v) pairs)

abbrev pub pair_text : Bytes × Bytes → Bytes
pair_text (k, v) = k ++ (codes "=" ++ v)

-- `into_iter().collect::<HashMap<_, _>>()`
abbrev pub collect_map : List (Bytes × Bytes) → Assoc Bytes → Assoc Bytes
collect_map [] m = m
collect_map ((k, v) ∷ pairs) m = collect_map pairs (insert k v m)

-- What a presigned URL says of its signature.
pub record Presented : Type 0 where
  pub url : Bytes
  pub signature : Bytes
  pub params : Assoc Bytes
  pub access_key : Bytes
  pub region : Bytes
  pub service : Bytes
  pub datetime : DateTime

-- access key, date, region and service
unfoldable pub credential_parts : List Bytes → Option (Bytes × Bytes × Bytes)
credential_parts (access_key ∷ date ∷ region ∷ service ∷ rest) = some (access_key, region, service)
credential_parts _ = none

pub data Expiry : Type 0 where
  unexpired : Expiry
  expired : Expiry
  malformed : Expiry
  overflow : Expiry

-- The expiry that a URL states, if it states one.
unfoldable pub expiry_of : UrlText → DateTime → Presented → Expiry
expiry_of urls now p = elim (lookup (codes "X-Amz-Expires") p.params) [
  | none ↦ unexpired
  | some text ↦ elim (parse_i64 text) [
    | none ↦ malformed
    | some secs ↦ elim (urls.add_seconds p.datetime secs) [
      | none ↦ overflow
      | some expiry ↦ if ltb expiry now then expired else unexpired
    ]
  ]
]

-- A port is written out unless it is a usual one.
unfoldable pub host_header : UrlText → Bytes → Option ℕ → Bytes
host_header urls host none = host
host_header urls host (some p) =
    if p == 443 then host else if p == 80 then host else host ++ (codes ":" ++ urls.to_text p)

-- The further headers that a presigned request may have signed.
abbrev pub extra_names : List Bytes
extra_names =
    codes "x-amz-date"
    ∷ codes "x-amz-content-sha256"
    ∷ codes "range"
    ∷ codes "x-amz-security-token"
    ∷ []

unfoldable pub copy_headers : List Bytes → List Bytes → Request → Headers → Headers
copy_headers [] signed req hdrs = hdrs
copy_headers (h ∷ names) signed req hdrs = copy_headers names signed req (
    if any_of signed h
    then elim (lookup h req.headers) [ none ↦ hdrs | some v ↦ insert h v hdrs ]
    else hdrs)

-- The error whose text says that the URL has expired is told apart from the others.
pub data PresignedResult : Type 0 where
  checked : Checked → PresignedResult
  has_expired : PresignedResult

module _ (crypto : Crypto) (calendar : Calendar) (web : Web) (nom : Nom)
    (parse_datetime : Bytes → Option DateTime) (http : Http) (urls : UrlText) where
  -- Each of its steps may fail, with an error.
  unfoldable pub presented : Request → Option Presented
  presented req = do
    full_uri ← full_url web req
    url ← urls.parse full_uri
    let (found, others) = take_signature (urls.query_pairs url)
    signature ← found
    let qp = sort_pairs others
    let params = collect_map qp []
    credential ← lookup (codes "X-Amz-Credential") params
    (access_key, region, service) ← credential_parts (split b'/' credential)
    date_str ← lookup (codes "X-Amz-Date") params
    datetime ← parse_datetime date_str
    some (record {
      url = urls.set_query url (join (codes "&") (map pair_text qp));
      signature = signature;
      params = params;
      access_key = access_key;
      region = region;
      service = service;
      datetime = datetime;
    })

  -- The names of the signed headers, and the headers.
  unfoldable pub signed_part : Presented → Request → Option (List Bytes × Headers)
  signed_part p req = do
    names ← lookup (codes "X-Amz-SignedHeaders") p.params
    host ← urls.host_str p.url
    let header = host_header urls host (urls.port_or_known_default p.url)
    value ← if http.is_header_value header then some header else none
    let signed = split b';' names
    some (signed, copy_headers extra_names signed req ((codes "host", value) ∷ []))

  unfoldable pub core_presigned :
      Presented → Request → Bytes → KeyCache → PresignedResult × KeyCache
  core_presigned p req secret_key cache = elim (signed_part p req) [
    | none ↦ (checked error, cache)
    | some (signed, hdrs) ↦
        let (c, cache') =
          signature_is_valid_core crypto calendar web nom parse_datetime req.method
            (record {
              signature = p.signature;
              region = p.region;
              service = p.service;
              datetime = p.datetime;
              url = p.url;
              signed_headers = signed;
              body = codes "UNSIGNED-PAYLOAD";
              payload_override = none;
            })
            hdrs p.access_key secret_key cache in
        (checked c, cache')
  ]

  unfoldable pub signature_is_valid_for_presigned :
      DateTime → Request → Bytes → KeyCache → PresignedResult × KeyCache
  signature_is_valid_for_presigned now req secret_key cache = elim (presented req) [
    | none ↦ (checked error, cache)
    | some p ↦ elim (expiry_of urls now p) [
      | unexpired ↦ core_presigned p req secret_key cache
      | expired ↦ (has_expired, cache)
      | malformed ↦ (checked error, cache)
      | overflow ↦ (checked panic, cache)
    ]
  ]
