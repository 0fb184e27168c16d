-- ===== src/Proxy/Target.antt =====
-- The parts of `upstream_request_filter` of lib.rs that rewrite the target and the headers, and
-- `response_filter`.
use object_storage_proxy.Base.{
  ℕ, Bool, not, ◌&&◌, ◌||◌, Option, none, some, is_some, List, [], ◌∷◌, ◌++◌, if◌then◌else◌,
  unwrap_or, ◌==◌, Bytes, codes, beq, is_empty, starts_with, split, join, Assoc, lookup, insert,
  remove,
}
use object_storage_proxy.Message.{Uri}
use object_storage_proxy.CosMap.{CosMapItem}
use object_storage_proxy.Signing.AwsSign.{any_of}
use object_storage_proxy.Proxy.Upstream.{style_of}

-- `iter().filter(p)`
abbrev pub filter : (Bytes → Bool) → List Bytes → List Bytes
filter p [] = []
filter p (x ∷ xs) = if p x then x ∷ filter p xs else filter p xs

-- The query without the parameters of the signature.
unfoldable pub cleaned_query : Bytes → Bytes
cleaned_query q =
    join (codes "&") (filter (λ kv. not (starts_with (codes "X-Amz-") kv)) (split b'&' q))

-- The target of a presigned request, without its signature.
unfoldable pub presigned_target : Uri → Bytes
presigned_target u =
    let cleaned_q = cleaned_query (unwrap_or u.query []) in
    if is_empty cleaned_q then u.path else u.path ++ (codes "?" ++ cleaned_q)

-- A query of the upstream request, with its question mark.
unfoldable pub my_query : Uri → Bytes
my_query u = elim u.query [ none ↦ [] | some q ↦ if is_empty q then [] else codes "?" ++ q ]

-- The path at the upstream, from the bucket and the path behind it.
unfoldable pub this_url : Bytes → Bytes → Bytes → Bytes
this_url addressing_style bucket my_updated_url =
    if beq addressing_style (codes "virtual")
    then my_updated_url
    else if beq my_updated_url (codes "/")
    then codes "/" ++ bucket
    else codes "/" ++ (bucket ++ my_updated_url)

-- The authority at the upstream. `to_text` prints a port in decimal.
unfoldable pub authority_of : (ℕ → Bytes) → Bytes → Bytes → Option CosMapItem → Bytes
authority_of to_text cos_endpoint bucket none = bucket ++ (codes "." ++ cos_endpoint)
authority_of to_text cos_endpoint bucket (some cfg) =
    let this_host =
      if beq (style_of (some cfg)) (codes "path")
      then cfg.host
      else bucket ++ (codes "." ++ cfg.host) in
    if cfg.port == 443 then this_host else this_host ++ (codes ":" ++ to_text cfg.port)

-- The header names that are passed on.
abbrev pub allowed : List Bytes
allowed =
    codes "host"
    ∷ codes "content-length"
    ∷ codes "content-type"
    ∷ codes "content-md5"
    ∷ codes "x-amz-date"
    ∷ codes "x-amz-content-sha256"
    ∷ codes "x-amz-security-token"
    ∷ codes "transfer-encoding"
    ∷ codes "content-encoding"
    ∷ codes "x-amz-decoded-content-length"
    ∷ codes "x-amz-trailer"
    ∷ codes "x-amz-sdk-checksum-algorithm"
    ∷ codes "x-amz-copy-source"
    ∷ codes "x-amz-metadata-directive"
    ∷ codes "x-amz-copy-source-if-match"
    ∷ codes "x-amz-copy-source-if-none-match"
    ∷ codes "x-amz-copy-source-if-modified-since"
    ∷ codes "x-amz-copy-source-if-unmodified-since"
    ∷ codes "x-amz-copy-source-range"
    ∷ codes "if-match"
    ∷ codes "if-none-match"
    ∷ codes "if-modified-since"
    ∷ codes "if-unmodified-since"
    ∷ codes "cache-control"
    ∷ codes "content-disposition"
    ∷ codes "x-amz-tagging"
    ∷ codes "x-amz-tagging-directive"
    ∷ codes "range"
    ∷ codes "expect"
    ∷ []

unfoldable pub keep : Bytes → Bool
keep n =
    any_of allowed n
    || (starts_with (codes "x-amz-checksum-") n || starts_with (codes "x-amz-meta-") n)

-- The names that are removed are collected first.
unfoldable pub to_remove : Assoc Bytes → List Bytes
to_remove [] = []
to_remove ((n, v) ∷ headers) = let rest = to_remove headers in if keep n then rest else n ∷ rest

unfoldable pub remove_all : List Bytes → Assoc Bytes → Assoc Bytes
remove_all [] headers = headers
remove_all (n ∷ names) headers = remove_all names (remove n headers)

-- `response_filter`: a status, and the headers.
unfoldable pub response_filter : ℕ → Bytes → Assoc Bytes → Assoc Bytes
response_filter status server_name headers =
    let named = insert (codes "server") server_name (remove (codes "server") headers) in
    if not (is_some (lookup (codes "content-type") named)) && (status == 200 || status == 206)
    then insert (codes "content-type") (codes "application/octet-stream") named
    else named
