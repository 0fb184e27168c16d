-- ===== src/Signing/Verify/Correct.antt =====
-- What a client's signature has to be.
use object_storage_proxy.Base.{
  ◌≡◌, ◌≢◌, ◌∷◌, inl, inr, Option-cases, ◌↔◌, refl, Bool, true, Option, some, [], arith, unwrap_or,
  Bytes, codes, beq, beq_iff, second_part,
}
use object_storage_proxy.External.{Crypto, Calendar, DateTime, Nom, Web}
use object_storage_proxy.Message.{Request}
use object_storage_proxy.Signing.Key.{KeyCache}
use object_storage_proxy.Signing.Key.Cache.{IsPlain, IsValid}
use object_storage_proxy.Signing.AwsSign.{AwsSign, Headers, new, sign}
use object_storage_proxy.Signing.AwsSign.Equivalence.{sign-specified}
use object_storage_proxy.Signing.Verify.{
  answered, overridden, Claimed, signature_is_valid_core, claimed, signature_is_valid_for_request,
}
use object_storage_proxy.Signing.Specification
use object_storage_proxy.Credentials.{parse_token_from_header}

module _ (crypto : Crypto) (calendar : Calendar) (web : Web) (nom : Nom)
    (parse_datetime : Bytes → Option DateTime) where
  -- From a valid cache, for a region and a service without a colon: the check of a request
  -- answers, and it answers yes exactly where the client's signature is that of the specification
  -- for what the client says it has signed, under the secret; the cache stays valid. The
  -- specification takes the query and the headers' values in the signer's canonical form. The text behind the first
  -- `Signature=` of the header that is signed for comparison is its signature, so no header name
  -- or key imitates that field.
  pub signature_is_valid_core_iff :
      (method : Bytes) (c : Claimed) (headers : Headers) (access_key secret_key : Bytes)
      (cache : KeyCache) (s : AwsSign)
      → new web method c.url c.datetime headers c.region access_key secret_key c.service c.body
          (some c.signed_headers)
        ≡ some s
      → IsPlain
          (calendar.short_date (overridden c.payload_override s).datetime)
          (overridden c.payload_override s).region
          (overridden c.payload_override s).service
      → IsValid crypto cache
      → second_part
          (codes "Signature=")
          (Specification.header crypto calendar (overridden c.payload_override s))
        ≡ some (Specification.signature crypto calendar (overridden c.payload_override s))
      → (b : Bool) × ((signature_is_valid_core crypto calendar web nom parse_datetime method c
            headers access_key secret_key cache).0
          ≡ answered b)
        × ((b ≡ true) ↔ (
            Specification.signature crypto calendar (overridden c.payload_override s)
            ≡ c.signature))
        × IsValid crypto
            (signature_is_valid_core crypto calendar web nom parse_datetime method c headers
              access_key secret_key cache).1
  unfolding signature_is_valid_core
  signature_is_valid_core_iff method c headers ak sk cache s built plain v found =
      let signer = overridden c.payload_override s in
      let (header, valid, request, text) = sign-specified crypto calendar signer cache plain v in
      let computed : unwrap_or
            (second_part (codes "Signature=") (sign crypto calendar signer cache).0) []
          ≡ Specification.signature crypto calendar signer =
        rw (header, found) refl in
      rw (built, signature_is_valid_core, computed)
        (
          beq (Specification.signature crypto calendar signer) c.signature,
          refl,
          beq_iff (Specification.signature crypto calendar signer) c.signature,
          valid,
        )

  -- Only a header with an access key that is not empty, in a request of which `claimed` can read
  -- what is signed, is answered with yes, and only by the check above.
  pub signature_is_valid_for_request_sound :
      (auth_header : Bytes) (req : Request) (secret_key : Bytes) (cache : KeyCache)
      → (signature_is_valid_for_request crypto calendar web nom parse_datetime auth_header req
          secret_key cache).0
        ≡ answered true
      → (access_key rest : Bytes) × (c : Claimed) × (parse_token_from_header nom auth_header
          ≡ some (rest, access_key))
        × (access_key ≢ [])
        × (claimed crypto calendar web nom parse_datetime auth_header req ≡ some c)
        × ((signature_is_valid_core crypto calendar web nom parse_datetime req.method c req.headers
              access_key secret_key cache).0
            ≡ answered true)
  unfolding signature_is_valid_for_request
  signature_is_valid_for_request_sound auth_header req secret_key cache h =
      elim (Option-cases (parse_token_from_header nom auth_header)) [
        | inl bad ↦ ground arith
        | inr ((rest, []), good) ↦ ground arith
        | inr ((rest, a ∷ ak), good) ↦
            elim (Option-cases (claimed crypto calendar web nom parse_datetime auth_header req)) [
              | inl bad ↦ ground arith
              | inr (c, found) ↦ (a ∷ ak, rest, c, good, (λ e. cc), found, ground arith)
            ]
      ]
