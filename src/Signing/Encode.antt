-- ===== src/Signing/Encode.antt =====
-- `uri_encode` and `canonical_query_string`.
pub mod Laws
use object_storage_proxy.Base.{
  ℕ, ◌+◌, ◌-◌, ◌/◌, ◌%◌, Bool, true, false, not, ◌&&◌, ◌||◌, List, [], ◌∷◌, ◌++◌, map, ltb, leb,
  ◌==◌, if◌then◌else◌, Bytes, codes, within, join,
}
use object_storage_proxy.Signing.Order.{sort}

unfoldable pub is_unreserved : ℕ → Bool
is_unreserved c =
    within b'a' b'z' c
    || (within b'A' b'Z' c
        || (within b'0' b'9' c || (c == b'_' || (c == b'-' || (c == b'~' || c == b'.')))))

unfoldable pub upper_digit : ℕ → ℕ
upper_digit d = if ltb d 10 then b'0' + d else b'A' + (d - 10)

-- A character outside ASCII is written as its bytes are, so the encoding goes byte by byte.
unfoldable pub uri_encode_byte : Bool → ℕ → Bytes
unfolding is_unreserved upper_digit
uri_encode_byte encode_slash c =
    if is_unreserved c
    then c ∷ []
    else if c == b'/' && encode_slash
    then codes "%2F"
    else if c == b'/' && not encode_slash
    then codes "/"
    else b'%' ∷ upper_digit (c / 16) ∷ upper_digit (c % 16) ∷ []

unfoldable pub uri_encode : Bytes → Bool → Bytes
unfolding uri_encode_byte
uri_encode [] encode_slash = []
uri_encode (c ∷ s) encode_slash = uri_encode_byte encode_slash c ++ uri_encode s encode_slash

-- The pairs are those of `Url::query_pairs`, percent-decoded.
unfoldable pub canonical_query_string : List (Bytes × Bytes) → Bytes
canonical_query_string query_pairs = join (codes "&") (
    sort (
      map
        (λ ((key, value) : Bytes × Bytes).
          uri_encode key true ++ (codes "=" ++ uri_encode value true))
        query_pairs))
