-- ===== src/Examples/Requests.antt =====
-- Paths, headers and encoded texts.
use object_storage_proxy.Base.{
  ◌≡◌, ◌≢◌, ◌⊎◌, true, refl, [], ◌∷◌, ◌++◌, some, arith, Bytes, codes, until, starts_with, All,
  Lacks,
}
use object_storage_proxy.External.{documented_nom, span}
use object_storage_proxy.Path.{ok, slash, recover_slash, behind_bucket, path_parts, parse_path}
use object_storage_proxy.Path.Laws.{
  parse_path-bucket, parse_path_root, parse_path_first, parse_path_repeated,
}
use object_storage_proxy.Signing.Encode.{is_unreserved, upper_digit, uri_encode_byte, uri_encode}
use object_storage_proxy.Signing.Encode.Laws.{
  decode, decode-uri_encode, IsUriByte, uri_encode-IsUriByte,
}
use object_storage_proxy.Signing.Key.{scope_string}
use object_storage_proxy.Signing.AwsSign.{authorization}
use object_storage_proxy.Credentials.{parse_token_from_header, parse_credential_scope}
use object_storage_proxy.Credentials.RoundTrip.{
  parse_token-authorization, parse_credential_scope-authorization,
}
use object_storage_proxy.Examples.Sample.{sample_calendar}

photos-ne_nil : codes "photos" ≢ []
photos-ne_nil e = cc

cat-ne_nil : codes "cat" ≢ []
cat-ne_nil e = cc

photos-Lacks : Lacks slash (codes "photos")
photos-Lacks = ground arith

photos_path : parse_path documented_nom (codes "/photos/cat") ≡ ok (codes "photos", codes "/cat")
unfolding parse_path path_parts behind_bucket recover_slash until starts_with span
photos_path = refl

parse_path-bucket_example :
    (codes "photos" ≢ [])
    × Lacks slash (codes "photos")
    × ((codes "/photos/cat" ≡ slash ∷ codes "photos")
        ⊎ ((rest : Bytes) × (codes "/photos/cat" ≡ slash ∷ (codes "photos" ++ (slash ∷ rest)))))
parse_path-bucket_example =
    parse_path-bucket documented_nom (codes "/photos/cat") (codes "photos") (codes "/cat")
      photos_path

parse_path_root_run :
    (parse_path documented_nom (slash ∷ codes "photos") ≡ ok (codes "photos", codes "/"))
    × (parse_path documented_nom (slash ∷ (codes "photos" ++ codes "/"))
        ≡ ok (codes "photos", codes "/"))
parse_path_root_run = parse_path_root documented_nom (codes "photos") photos-ne_nil photos-Lacks

parse_path_first_run :
    parse_path documented_nom (slash ∷ (codes "photos" ++ (slash ∷ codes "cat")))
    ≡ ok (codes "photos", slash ∷ codes "cat")
parse_path_first_run =
    parse_path_first documented_nom (codes "photos") (codes "cat") photos-ne_nil photos-Lacks
      cat-ne_nil (unfold until starts_with in refl)

-- The key `hot` is found inside the bucket's name.
parse_path_repeated_example :
    parse_path documented_nom (slash ∷ (codes "photos" ++ (slash ∷ codes "hot")))
    ≢ ok (codes "photos", slash ∷ codes "hot")
parse_path_repeated_example =
    parse_path_repeated documented_nom (codes "photos") (codes "hot") photos-ne_nil photos-Lacks
      (λ e. cc) (unfold until starts_with in refl)

hot_path : parse_path documented_nom (codes "/photos/hot") ≡ ok (codes "photos", codes "photos/hot")
unfolding parse_path path_parts behind_bucket recover_slash until starts_with span
hot_path = refl

decode-uri_encode_example : decode (uri_encode (codes "a b/c%") true) ≡ codes "a b/c%"
decode-uri_encode_example = decode-uri_encode (codes "a b/c%") true (ground arith)

escapes : uri_encode (codes "a b/c%") true ≡ codes "a%20b%2Fc%25"
unfolding uri_encode uri_encode_byte is_unreserved upper_digit
escapes = refl

uri_encode-IsUriByte_run : All IsUriByte (uri_encode (codes "a b/c%") true)
uri_encode-IsUriByte_run = uri_encode-IsUriByte (codes "a b/c%") (ground arith)

parse_token-authorization_run :
    parse_token_from_header documented_nom (
      authorization (codes "AKIA") (codes "20250501/r/s3/aws4_request") (codes "host") (codes "ab"))
    ≡ some ([], codes "AKIA")
parse_token-authorization_run =
    parse_token-authorization documented_nom (codes "AKIA") (codes "20250501/r/s3/aws4_request")
      (codes "host") (codes "ab") (ground arith)

parse_credential_scope-authorization_example :
    parse_credential_scope documented_nom (
      authorization
        (codes "AKIA")
        (scope_string sample_calendar 0 (codes "eu") (codes "s3"))
        (codes "host")
        (codes "ab"))
    ≡ some (
      codes ",SignedHeaders=" ++ (codes "host" ++ (codes ",Signature=" ++ codes "ab")),
      (codes "eu", codes "s3"),
    )
parse_credential_scope-authorization_example =
    parse_credential_scope-authorization documented_nom sample_calendar 0 (codes "AKIA")
      (codes "eu") (codes "s3") (codes "host") (codes "ab") (ground arith) (ground arith)
      (ground arith) (ground arith)
