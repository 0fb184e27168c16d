-- ===== src/Lifecycle/Phases.antt =====
-- `request_filter` of lib.rs cut into the steps of one request: where it stands is data, so that
-- other requests can run between two steps. A step uses the shared objects as one locked access
-- does, with two exceptions: a presigned URL is counted and its count looked at in one step, and
-- the store of keys is searched and a fetched key put there in one step. The lock of a decision's
-- key, which only takes orders away, is left out.
use object_storage_proxy.Base.{
  ℕ, Bool, false, ◌&&◌, Option, none, some, [], ◌++◌, if◌then◌else◌, unwrap_or, Bytes, codes,
  is_empty, Assoc,
}
use object_storage_proxy.Base
use object_storage_proxy.External.{DateTime}
use object_storage_proxy.Message.{Request}
use object_storage_proxy.Path.Query.{parse_query}
use object_storage_proxy.CosMap.{CosMapItem}
use object_storage_proxy.Authorization.{fresh, remember}
use object_storage_proxy.Gate.World.{
  Callback, Settings, failed, panic, next, stop, M, ◌>>=◌, ◌>>◌, pure,
}
use object_storage_proxy.Gate.Usage.{is_presigned_url, usage_limit, expects_continue}
use object_storage_proxy.Gate.Keys.{
  skips_signature, ensure_key, stored_key, mark_presigned, run_presigned, run_request,
  presigned_answer, request_answer,
}
use object_storage_proxy.Gate.Validate.{
  Instants, validate_request, details, decision_key, effective_ttl,
}
use object_storage_proxy.Gate.Filter.{
  Packages, from_option, list_when_root, route, auth_header, access_key_of, deny_unless, grant,
}

-- How the client has signed.
pub data Signature : Type 0 where
  in_url in_header : Signature

-- What the validator is asked about.
pub record Question : Type 0 where
  pub callback : Callback
  pub bucket : Bytes
  pub config : Option CosMapItem
  pub access_key : Bytes

-- What a request does next.
pub data Phase : Type 0 where
  -- usage_limit, the `expect` header, the list of buckets, the path, the access key
  arrived counted listing routing : Phase
  identifying : Bytes → Option CosMapItem → Phase
  -- the signature: whether it is checked, the store of keys (twice), the check
  signing : Question → Phase
  ensuring : Signature → Question → Phase
  taking : Signature → Question → Phase
  checking : Signature → Bytes → Question → Phase
  -- the validator: the first look at the cache, the second, the write, the answer
  asking : Question → Phase
  missed : Assoc Bytes → Question → Phase
  storing : Bool → Question → Phase
  judged : Bool → Question → Phase
  -- the credentials of the bucket
  granting : Bytes → Option CosMapItem → Bytes → Phase
  -- behind the filter: with the checks, or without them
  granted : Bytes → Phase
  waved : Phase

abbrev pub no_key_found : Signature → Bytes
no_key_found in_url = codes "No key found for presigned URL"
no_key_found in_header = codes "No key found for request"

module _ {C J : Type 0} (p : Packages C J) (settings : Settings) (now : DateTime) (times : Instants)
    (req : Request) where
  -- Without a validator nothing is asked.
  abbrev pub ask_whether : Bytes → Option CosMapItem → Bytes → Phase
  ask_whether bucket config access_key = elim settings.validator [
    | none ↦ granting bucket config access_key
    | some callback ↦
        signing (record {
          callback = callback;
          bucket = bucket;
          config = config;
          access_key = access_key;
        })
  ]

  abbrev pub check_how : Question → M C Phase
  check_how q =
      if skips_signature settings req
      then pure (asking q)
      else if is_empty (auth_header p settings now times req) && is_presigned_url req
      then (do mark_presigned; pure (ensuring in_url q))
      else pure (ensuring in_header q)

  abbrev pub check_with : Signature → Bytes → M C (Unit {0})
  check_with in_url secret_key = do
    result ←
        run_presigned p.crypto p.calendar p.web p.nom p.parse_datetime p.http p.urls now req
          secret_key
    presigned_answer p.http req result
  check_with in_header secret_key = do
    result ←
        run_request p.crypto p.calendar p.web p.nom p.parse_datetime p.http p.urls
          (auth_header p settings now times req) req secret_key
    request_answer p.http result

  abbrev pub question_key : Question → Bytes
  question_key q = decision_key q.access_key q.bucket req.method

  -- The first look, without the lock of the key.
  unfoldable pub look : Question → M C Phase
  look q w = elim (parse_query p.nom p.decode_segment (unwrap_or req.uri.query [])) [
    | none ↦ stop failed w
    | some (rest, query_dict) ↦ elim (fresh p.lru (question_key q) times.first w.auth_cache) [
      | some authorized ↦ next (judged authorized q) w
      | none ↦ next (missed query_dict q) w
    ]
  ]

  -- The second look and, where it finds nothing, the validator.
  unfoldable pub look_again : Assoc Bytes → Question → M C Phase
  look_again query_dict q w = elim (fresh p.lru (question_key q) times.looked w.auth_cache) [
    | some authorized ↦ next (judged authorized q) w
    | none ↦
        elim (validate_request q.access_key q.bucket (details p.web req query_dict) q.callback
          (unwrap_or settings.validator_takes_request false)) [
            | none ↦ stop failed w
            | some authorized ↦ next (storing authorized q) w
          ]
  ]

  -- The decision is kept.
  unfoldable pub store_decision : Bool → Question → M C Phase
  store_decision authorized q w =
      elim (remember p.lru (question_key q) times.written
        (effective_ttl (unwrap_or (Base.◌>>=◌ q.config (λ c. c.ttl)) 0)) authorized w.auth_cache) [
          | none ↦ stop panic w
          | some cache ↦ next (judged authorized q) (record w { auth_cache = cache })
        ]

  -- One step of a request. A request behind the filter stays there.
  unfoldable pub perform : Phase → M C Phase
  perform arrived = do usage_limit settings p.http req; pure counted
  perform counted = if expects_continue p.web req then pure waved else pure listing
  perform listing = do list_when_root p settings now times req; pure routing
  perform routing = do
    (bucket, config) ← route p settings now times req
    pure (identifying bucket config)
  perform (identifying bucket config) = do
    access_key ← from_option (access_key_of p settings now times req)
    pure (ask_whether bucket config access_key)
  perform (signing q) = check_how q
  perform (ensuring how q) = do
    ensure_key settings p.http (no_key_found how) q.access_key
    pure (taking how q)
  perform (taking how q) = do secret_key ← stored_key q.access_key; pure (checking how secret_key q)
  perform (checking how secret_key q) = do check_with how secret_key; pure (asking q)
  perform (asking q) = look q
  perform (missed query_dict q) = look_again query_dict q
  perform (storing authorized q) = store_decision authorized q
  perform (judged authorized q) = do
    deny_unless p settings now times req q.bucket authorized
    pure (granting q.bucket q.config q.access_key)
  perform (granting bucket config access_key) = do
    grant p settings now times req bucket config access_key
    pure (granted bucket)
  perform (granted bucket) = pure (granted bucket)
  perform waved = pure waved
