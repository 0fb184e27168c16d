-- ===== src/Signing/AwsSign/Equivalence.antt =====
-- `sign` against the specification of the header.
use object_storage_proxy.Base.{
  ◌≡◌, ap, sym, refl, ◌∙◌, append_assoc, Option, none, some, List, [], ◌∷◌, ◌++◌, map, arith, Bytes,
  codes, if◌then◌else◌, beq, beq_iff, join,
}
use object_storage_proxy.External.{Crypto, Calendar}
use object_storage_proxy.Signing.Order.{sort_by, map-sort_by}
use object_storage_proxy.Signing.Key.{KeyCache, scope_string, derive, signing_key}
use object_storage_proxy.Signing.Key.Cache.{IsPlain, IsValid, signing_key-IsValid}
use object_storage_proxy.Signing.AwsSign.{
  AwsSign, header_line, name_of, canonical_header_string, signed_header_string, canonical_request,
  string_to_sign, authorization, sign,
}
use object_storage_proxy.Signing.Specification.{header_lines, header_block}
use object_storage_proxy.Signing.Specification

join-map :
    (sep : Bytes) (g h : Bytes × Bytes) (hs : List (Bytes × Bytes))
    → join sep (map header_line (h ∷ (g ∷ hs)))
      ≡ header_line h ++ (sep ++ join sep (map header_line (g ∷ hs)))
unfolding join
join-map sep g h hs = refl

join-one : (sep s : Bytes) → join sep (s ∷ []) ≡ s
unfolding join
join-one sep s = refl

join-header_lines :
    (hs : List (Bytes × Bytes)) (h : Bytes × Bytes) (rest : Bytes)
    → join (codes "\n") (map header_line (h ∷ hs)) ++ (codes "\n" ++ rest)
      ≡ header_lines (h ∷ hs) ++ rest
join-header_lines [] (name, value) rest = simp (join-one, append_assoc)
join-header_lines (g ∷ hs) (name, value) rest =
    rw (join-map (codes "\n") g (name, value) hs) (simp (append_assoc, join-header_lines hs g rest))

join-header_block :
    (hs : List (Bytes × Bytes)) (rest : Bytes)
    → join (codes "\n") (map header_line hs) ++ (codes "\n\n" ++ rest)
      ≡ header_block hs ++ (codes "\n" ++ rest)
unfolding join
join-header_block [] rest = refl
join-header_block (h ∷ hs) rest = join-header_lines hs h (codes "\n" ++ rest)

payload_lem :
    (crypto : Crypto) (o : Option Bytes) (body : Bytes)
    → (elim o as (λ (x : Option Bytes). Bytes) [
      | some ov ↦ ov
      | none ↦
          if beq body (codes "UNSIGNED-PAYLOAD")
          then codes "UNSIGNED-PAYLOAD"
          else if beq body (codes "STREAMING-AWS4-HMAC-SHA256-PAYLOAD")
          then codes "STREAMING-AWS4-HMAC-SHA256-PAYLOAD"
          else crypto.digest_hex body
    ])
      ≡ Specification.payload crypto o body
payload_lem crypto (some ov) body = refl
payload_lem crypto none body = ground (
  arith,
  beq_iff body (codes "UNSIGNED-PAYLOAD"),
  beq_iff body (codes "STREAMING-AWS4-HMAC-SHA256-PAYLOAD"),
)

scope_string-scope :
    (calendar : Calendar) (s : AwsSign)
    → scope_string calendar s.datetime s.region s.service ≡ Specification.scope calendar s
unfolding scope_string join
scope_string-scope calendar s = refl

signing_lines :
    (timestamp scope hash : Bytes)
    → codes "AWS4-HMAC-SHA256\n" ++ (timestamp ++ (codes "\n" ++ (scope ++ (codes "\n" ++ hash))))
      ≡ join (codes "\n") (codes "AWS4-HMAC-SHA256" ∷ timestamp ∷ scope ∷ hash ∷ [])
unfolding join
signing_lines timestamp scope hash = refl

canonical_request-request :
    (crypto : Crypto) (s : AwsSign) → canonical_request crypto s ≡ Specification.request crypto s
unfolding canonical_request canonical_header_string signed_header_string join
canonical_request-request crypto s =
    rw (payload_lem crypto s.payload_override s.body, join-header_block (sort_by name_of s.headers))
      refl

string_to_sign-text_to_sign :
    (crypto : Crypto) (calendar : Calendar) (s : AwsSign)
    → string_to_sign crypto calendar s.datetime s.region (canonical_request crypto s) s.service
      ≡ Specification.text_to_sign crypto calendar s
unfolding string_to_sign
string_to_sign-text_to_sign crypto calendar s =
    rw (canonical_request-request crypto s, scope_string-scope calendar s) (signing_lines _ _ _)

derive-key :
    (crypto : Crypto) (calendar : Calendar) (s : AwsSign)
    → derive crypto (calendar.short_date s.datetime) s.secret_key s.region s.service
      ≡ Specification.key crypto calendar s
unfolding derive
derive-key crypto calendar s = refl

signed_once :
    (s : AwsSign)
    → join (codes ";") (map name_of (sort_by name_of s.headers)) ≡ signed_header_string s
unfolding signed_header_string
signed_once s = ap (join (codes ";")) (map-sort_by name_of s.headers)

sign_inlines :
    (crypto : Crypto) (calendar : Calendar) (s : AwsSign) (cache : KeyCache)
    → (sign crypto calendar s cache).0
      ≡ authorization s.access_key
          (scope_string calendar s.datetime s.region s.service)
          (signed_header_string s)
          (crypto.hex_encode (
            crypto.hmac_sign
              (signing_key crypto calendar s.datetime s.secret_key s.region s.service cache).0
              (string_to_sign crypto calendar s.datetime s.region
                (canonical_request crypto s)
                s.service)))
unfolding sign canonical_request string_to_sign canonical_header_string
sign_inlines crypto calendar s cache = rw (signed_once s)

authorization_fields :
    (access_key scope names signature : Bytes)
    → authorization access_key scope names signature
      ≡ codes "AWS4-HMAC-SHA256 "
        ++ join (codes ",") (
            (codes "Credential=" ++ (access_key ++ (codes "/" ++ scope)))
            ∷ (codes "SignedHeaders=" ++ names)
            ∷ (codes "Signature=" ++ signature)
            ∷ [])
unfolding join
authorization_fields access_key scope names signature =
    ap (λ (t : Bytes). codes "AWS4-HMAC-SHA256 Credential=" ++ t)
      (sym (append_assoc access_key (codes "/" ++ scope) _))

signed_header_string-names : (s : AwsSign) → signed_header_string s ≡ Specification.names s
unfolding signed_header_string
signed_header_string-names s = refl

sign-header :
    (crypto : Crypto) (calendar : Calendar) (s : AwsSign) (cache : KeyCache)
    → (signing_key crypto calendar s.datetime s.secret_key s.region s.service cache).0
      ≡ Specification.key crypto calendar s
    → (sign crypto calendar s cache).0 ≡ Specification.header crypto calendar s
sign-header crypto calendar s cache e =
    sign_inlines crypto calendar s cache
    ∙ (λ i.
        authorization s.access_key (scope_string-scope calendar s i)
          (signed_header_string-names s i)
          (crypto.hex_encode
            (crypto.hmac_sign (e i) (string_to_sign-text_to_sign crypto calendar s i))))
    ∙ authorization_fields s.access_key (Specification.scope calendar s) (Specification.names s)
        (Specification.signature crypto calendar s)

-- From a valid cache, for a region and a service without a colon, the optimised `sign` gives the
-- header of the specification, with its own key, text to sign, request and lists of headers; it
-- leaves a valid cache; and `canonical_request` and `string_to_sign`, which `sign` does not call,
-- give the texts of the specification too. The specification takes the query and the headers'
-- values in the signer's canonical form.
pub sign-specified :
    (crypto : Crypto) (calendar : Calendar) (s : AwsSign) (cache : KeyCache)
    → IsPlain (calendar.short_date s.datetime) s.region s.service
    → IsValid crypto cache
    → ((sign crypto calendar s cache).0 ≡ Specification.header crypto calendar s)
      × IsValid crypto (sign crypto calendar s cache).1
      × (canonical_request crypto s ≡ Specification.request crypto s)
      × (string_to_sign crypto calendar s.datetime s.region (canonical_request crypto s) s.service
          ≡ Specification.text_to_sign crypto calendar s)
sign-specified crypto calendar s cache plain v =
    let (key, valid) =
      signing_key-IsValid crypto calendar s.datetime s.secret_key s.region s.service cache plain
        v in
    (
      sign-header crypto calendar s cache (key ∙ derive-key crypto calendar s),
      unfold sign in valid,
      canonical_request-request crypto s,
      string_to_sign-text_to_sign crypto calendar s,
    )
