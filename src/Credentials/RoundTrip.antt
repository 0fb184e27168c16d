-- ===== src/Credentials/RoundTrip.antt =====
-- The parsers read back what `AwsSign::sign` writes.
use object_storage_proxy.Base.{
  ◌≡◌, refl, ap, ◌∙◌, some, [], ◌∷◌, ◌++◌, append_assoc, arith, Bytes, codes, Lacks, until,
  starts_with, until-append,
}
use object_storage_proxy.External.{Nom, Calendar, DateTime}
use object_storage_proxy.Signing.Key.{scope_string}
use object_storage_proxy.Signing.AwsSign.{authorization}
use object_storage_proxy.Credentials.{parse_token_from_header, parse_credential_scope}

module _ (nom : Nom) where
  -- The access key of a header that `sign` has written is read back, if it holds no slash.
  pub parse_token-authorization :
      (access_key scope signed_headers signature : Bytes)
      → Lacks b'/' access_key
      → parse_token_from_header nom (authorization access_key scope signed_headers signature)
        ≡ some ([], access_key)
  unfolding parse_token_from_header
  parse_token-authorization ak scope sh sig l = ground (
    arith,
    nom.tag_lem (codes "AWS4-HMAC-SHA256 Credential=") (authorization ak scope sh sig),
    nom.take_until_lem (codes "/") (
        ak
        ++ (codes "/"
            ++ (scope ++ (codes ",SignedHeaders=" ++ (sh ++ (codes ",Signature=" ++ sig)))))),
    until-append b'/' [] ak
        (scope ++ (codes ",SignedHeaders=" ++ (sh ++ (codes ",Signature=" ++ sig)))) l,
  )

  until_slash :
      (p s : Bytes)
      → Lacks b'/' p
      → nom.take_until (codes "/") (p ++ (b'/' ∷ s)) ≡ some (b'/' ∷ s, p)
  until_slash p s l =
      ground (arith, nom.take_until_lem (codes "/") (p ++ (b'/' ∷ s)), until-append b'/' [] p s l)

  tag_slash : (s : Bytes) → nom.tag (codes "/") (b'/' ∷ s) ≡ some (s, codes "/")
  tag_slash s = ground (arith, nom.tag_lem (codes "/") (b'/' ∷ s))

  until_request :
      (p s : Bytes)
      → Lacks b'/' p
      → nom.take_until (codes "/aws4_request") (p ++ (codes "/aws4_request" ++ s))
        ≡ some (codes "/aws4_request" ++ s, p)
  until_request p s l = ground (
    arith,
    nom.take_until_lem (codes "/aws4_request") (p ++ (codes "/aws4_request" ++ s)),
    until-append b'/' (codes "aws4_request") p s l,
  )

  tag_request :
      (s : Bytes)
      → nom.tag (codes "/aws4_request") (codes "/aws4_request" ++ s)
        ≡ some (s, codes "/aws4_request")
  tag_request s = ground (arith, nom.tag_lem (codes "/aws4_request") (codes "/aws4_request" ++ s))

  until_credential :
      (s : Bytes)
      → nom.take_until (codes "Credential=") (codes "AWS4-HMAC-SHA256 Credential=" ++ s)
        ≡ some (codes "Credential=" ++ s, codes "AWS4-HMAC-SHA256 ")
  unfolding until starts_with
  until_credential s =
      nom.take_until_lem (codes "Credential=") (codes "AWS4-HMAC-SHA256 Credential=" ++ s)

  tag_credential :
      (s : Bytes)
      → nom.tag (codes "Credential=") (codes "Credential=" ++ s) ≡ some (s, codes "Credential=")
  tag_credential s = ground (arith, nom.tag_lem (codes "Credential=") (codes "Credential=" ++ s))

  abbrev scope_text : Bytes → Bytes → Bytes → Bytes → Bytes → Bytes
  scope_text ak date region service rest =
      codes "AWS4-HMAC-SHA256 Credential="
      ++ (ak
          ++ (b'/'
              ∷ (date
                  ++ (b'/' ∷ (region ++ (b'/' ∷ (service ++ (codes "/aws4_request" ++ rest))))))))

  scope_of_text :
      (ak date region service rest : Bytes)
      → Lacks b'/' ak
      → Lacks b'/' date
      → Lacks b'/' region
      → Lacks b'/' service
      → parse_credential_scope nom (scope_text ak date region service rest)
        ≡ some (rest, (region, service))
  unfolding parse_credential_scope
  scope_of_text ak date region service rest la ld lr ls =
      let t₃ = service ++ (codes "/aws4_request" ++ rest) in
      let t₂ = region ++ (b'/' ∷ t₃) in
      let t₁ = date ++ (b'/' ∷ t₂) in
      let t₀ = ak ++ (b'/' ∷ t₁) in
      rw
        (
          until_credential t₀,
          tag_credential t₀,
          until_slash ak t₁ la,
          tag_slash t₁,
          until_slash date t₂ ld,
          tag_slash t₂,
          until_slash region t₃ lr,
          tag_slash t₃,
          until_request service rest ls,
          tag_request rest,
        )
        refl

  authorization_scope :
      (calendar : Calendar) (datetime : DateTime) (ak region service sh sig : Bytes)
      → authorization ak (scope_string calendar datetime region service) sh sig
        ≡ scope_text ak
            (calendar.short_date datetime)
            region
            service
            (codes ",SignedHeaders=" ++ (sh ++ (codes ",Signature=" ++ sig)))
  unfolding scope_string
  authorization_scope calendar datetime ak region service sh sig = simp append_assoc

  -- Region and service of a header that `sign` has written are read back, if no part of its scope
  -- and not the access key holds a slash; the text behind the scope remains.
  pub parse_credential_scope-authorization :
      (calendar : Calendar) (datetime : DateTime)
      (access_key region service signed_headers signature : Bytes)
      → Lacks b'/' access_key
      → Lacks b'/' (calendar.short_date datetime)
      → Lacks b'/' region
      → Lacks b'/' service
      → parse_credential_scope nom (
          authorization access_key
            (scope_string calendar datetime region service)
            signed_headers
            signature)
        ≡ some (
          codes ",SignedHeaders=" ++ (signed_headers ++ (codes ",Signature=" ++ signature)),
          (region, service),
        )
  parse_credential_scope-authorization calendar datetime ak region service sh sig la ld lr ls =
      ap (parse_credential_scope nom)
        (authorization_scope calendar datetime ak region service sh sig)
      ∙ scope_of_text ak (calendar.short_date datetime) region service _ la ld lr ls
