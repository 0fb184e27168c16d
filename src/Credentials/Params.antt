-- ===== src/Credentials/Params.antt =====
-- The parameters of a presigned URL: `parse_presigned_params` of parsers/credentials.rs. The text of
-- a query is ASCII.
pub mod Laws
use object_storage_proxy.Base.{
  ℕ, ◌+◌, Bool, true, false, not, ◌||◌, Option, none, some, List, [], ◌∷◌, map, if◌then◌else◌, ◌==◌,
  within, ◌>>=◌, unwrap_or, Bytes, codes, find, drop, split, Assoc, lookup, remove,
}
use object_storage_proxy.External.{Nom}
use object_storage_proxy.Path.Query.{from_pairs}

pub record PresignedParams : Type 0 where
  pub algorithm : Bytes
  pub access_key : Bytes
  pub credential_date : Bytes
  pub region : Bytes
  pub service : Bytes
  pub amz_date : Bytes
  pub expires : Bytes
  pub signed_headers : Bytes
  pub signature : Bytes

-- Letters, digits, dash and dot.
unfoldable pub is_key_char : ℕ → Bool
is_key_char c =
    within b'a' b'z' c || (within b'A' b'Z' c || (within b'0' b'9' c || (c == b'-' || c == b'.')))

unfoldable pub is_val_char : ℕ → Bool
is_val_char c = not (c == b'&')

-- `m.remove(k).ok_or_else(…)?`
abbrev pub remove_required : Bytes → Assoc Bytes → Option (Bytes × Assoc Bytes)
remove_required k m = do v ← lookup k m; some (v, remove k m)

-- `parts.next().unwrap_or("")`, with the parts that are left
abbrev pub next_part : List Bytes → Bytes × List Bytes
next_part [] = ([], [])
next_part (p ∷ ps) = (p, ps)

-- `percent_decode_str(_).decode_utf8_lossy()` of `percent-encoding` is an argument.
module _ (nom : Nom) (percent_decode : Bytes → Bytes) where
  -- `separated_pair(take_while1(is_key_char), char('='), take_while1(is_val_char))`
  unfoldable pub key_value : Bytes → Option (Bytes × (Bytes × Bytes))
  key_value input = do
    (s₁, key) ← nom.take_while1 is_key_char input
    (s₂, _) ← nom.char b'=' s₁
    (s₃, value) ← nom.take_while1 is_val_char s₂
    some (s₃, (key, value))

  -- Where there is no `?`, the text to parse is empty.
  unfoldable pub query_pairs : Bytes → Option (Bytes × List (Bytes × Bytes))
  query_pairs input =
      let text = unwrap_or (do i ← find (codes "?") input; some (drop (i + 1) input)) [] in
      nom.separated_list1 (nom.char b'&') key_value text

  abbrev pub decoded : Bytes × Bytes → Bytes × Bytes
  decoded (k, v) = (k, percent_decode v)

  unfoldable pub parse_presigned_params : Bytes → Option (Bytes × PresignedParams)
  parse_presigned_params input = do
    (rest, pairs) ← query_pairs input
    let m = from_pairs (map decoded pairs) []
    (algorithm, m₁) ← remove_required (codes "X-Amz-Algorithm") m
    (credential_raw, m₂) ← remove_required (codes "X-Amz-Credential") m₁
    (amz_date, m₃) ← remove_required (codes "X-Amz-Date") m₂
    (expires, m₄) ← remove_required (codes "X-Amz-Expires") m₃
    (signed_headers, m₅) ← remove_required (codes "X-Amz-SignedHeaders") m₄
    (signature, _) ← remove_required (codes "X-Amz-Signature") m₅
    let (access_key, parts₁) = next_part (split b'/' credential_raw)
    let (credential_date, parts₂) = next_part parts₁
    let (region, parts₃) = next_part parts₂
    let (service, _) = next_part parts₃
    some (
      rest,
      record {
        algorithm = algorithm;
        access_key = access_key;
        credential_date = credential_date;
        region = region;
        service = service;
        amz_date = amz_date;
        expires = expires;
        signed_headers = signed_headers;
        signature = signature;
      },
    )
