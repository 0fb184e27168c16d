-- ===== src/Gate/Keys.antt =====
-- The check of a client's signature in `request_filter`.
use object_storage_proxy.Base.{
  Bool, true, false, ◌&&◌, ◌||◌, Option, none, some, [], ◌∷◌, ◌++◌, if◌then◌else◌, is_some, Bytes,
  codes, is_empty, lookup, insert,
}
use object_storage_proxy.External.{Crypto, Calendar, DateTime, Nom, Web}
use object_storage_proxy.Message.{Request, Http}
use object_storage_proxy.Signing.Verify.{Checked, answered, signature_is_valid_for_request}
use object_storage_proxy.Signing.Verify
use object_storage_proxy.Signing.Presigned.{
  UrlText, PresignedResult, checked, has_expired, signature_is_valid_for_presigned,
}
use object_storage_proxy.Gate.World.{
  Settings, error_response, respond, failed, panic, next, stop, M, ◌>>=◌, ◌>>◌, pure, refuse,
}
use object_storage_proxy.Gate.Replies.{write_error_response_with_header}
use object_storage_proxy.Gate.Usage.{query_contains, is_presigned_url}

-- Whether a signature is checked at all: not without the setting, not with it, and not for a
-- part of an upload.
unfoldable pub skips_signature : Settings → Request → Bool
skips_signature settings req = elim settings.skip_signature_validation [
  | none ↦ true
  | some skip ↦ skip || query_contains (codes "uploadId=") req
]

module _ {C : Type 0} where
  -- A key that the store lacks is fetched and put there.
  unfoldable pub ensure_key : Settings → Http → Bytes → Bytes → M C (Unit {0})
  ensure_key settings http msg access_key w =
      if is_some (lookup access_key w.hmac_keystore)
      then next tt w
      else elim settings.hmac_fetcher [
        | none ↦ stop (write_error_response_with_header http 401 msg) w
        | some fetch ↦ elim (fetch access_key) [
          | none ↦ stop (write_error_response_with_header http 401 msg) w
          | some secret_key ↦
              next tt (record w { hmac_keystore = insert access_key secret_key w.hmac_keystore })
        ]
      ]

  -- `get(&access_key).expect("key was just inserted")`
  unfoldable pub stored_key : Bytes → M C Bytes
  stored_key access_key w = elim (lookup access_key w.hmac_keystore) [
    | none ↦ stop panic w
    | some secret_key ↦ next secret_key w
  ]

  abbrev pub mark_presigned : M C (Unit {0})
  mark_presigned w = next tt (record w { ctx = record w.ctx { is_presigned = some true } })

  -- The answers to a checked presigned URL.
  abbrev pub presigned_answer : Http → Request → PresignedResult → M C (Unit {0})
  presigned_answer http req (checked (answered true)) = pure tt
  presigned_answer http req (checked (answered false)) = refuse (
      respond
        (error_response 401 (codes "Signature invalid for presigned URL: " ++ req.uri.path) ∷ []))
  presigned_answer http req (checked Verify.error) = refuse failed
  presigned_answer http req (checked Verify.panic) = refuse panic
  presigned_answer http req has_expired = refuse (
      write_error_response_with_header http 403
        (codes "Presigned URL has expired: " ++ req.uri.path))

  abbrev pub request_answer : Http → Checked → M C (Unit {0})
  request_answer http (answered true) = pure tt
  request_answer http (answered false) =
      refuse (write_error_response_with_header http 401 (codes "Signature invalid"))
  request_answer http Verify.error =
      refuse (write_error_response_with_header http 401 (codes "Signature invalid"))
  request_answer http Verify.panic = refuse panic

  module _ (crypto : Crypto) (calendar : Calendar) (web : Web) (nom : Nom)
      (parse_datetime : Bytes → Option DateTime) (http : Http) (urls : UrlText) where
    unfoldable pub run_presigned : DateTime → Request → Bytes → M C PresignedResult
    run_presigned now req secret_key w =
        let (result, keys) =
          signature_is_valid_for_presigned crypto calendar web nom parse_datetime http urls now req
            secret_key w.keys in
        next result (record w { keys = keys })

    unfoldable pub run_request : Bytes → Request → Bytes → M C Checked
    run_request auth_header req secret_key w =
        let (result, keys) =
          signature_is_valid_for_request crypto calendar web nom parse_datetime auth_header req
            secret_key w.keys in
        next result (record w { keys = keys })

    unfoldable pub check_presigned : Settings → DateTime → Request → Bytes → M C (Unit {0})
    check_presigned settings now req access_key = do
      mark_presigned
      ensure_key settings http (codes "No key found for presigned URL") access_key
      sk ← stored_key access_key
      result ← run_presigned now req sk
      presigned_answer http req result

    unfoldable pub check_request : Settings → Bytes → Request → Bytes → M C (Unit {0})
    check_request settings auth_header req access_key = do
      ensure_key settings http (codes "No key found for request") access_key
      secret_key ← stored_key access_key
      result ← run_request auth_header req secret_key
      request_answer http result

    unfoldable pub check_signature : Settings → DateTime → Bytes → Request → Bytes → M C (Unit {0})
    check_signature settings now auth_header req access_key =
        if skips_signature settings req
        then pure tt
        else if is_empty auth_header && is_presigned_url req
        then check_presigned settings now req access_key
        else check_request settings auth_header req access_key
