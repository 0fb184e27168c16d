-- ===== src/Gate/Validate.antt =====
-- The validator in `request_filter`: `validate_request` of utils/validator.rs, behind the cache of
-- decisions.
use object_storage_proxy.Base.{
  ℕ, Bool, false, Option, none, some, [], ◌++◌, if◌then◌else◌, ◌==◌, unwrap_or, Bytes, codes, Assoc,
  insert,
}
use object_storage_proxy.External.{Nom, Web}
use object_storage_proxy.Message.{Request}
use object_storage_proxy.Path.Query.{parse_query}
use object_storage_proxy.Authorization.{LruCache, Verdict, decided, Validated, get_or_validate}
use object_storage_proxy.Authorization
use object_storage_proxy.Gate.World.{Callback, Settings, failed, panic, next, stop, M}
use object_storage_proxy.Gate.Usage.{header_text}

abbrev pub or_fail : Option (Option Bool) → Option Bool
or_fail none = none
or_fail (some extracted) = extracted

-- The request's details are passed on to a callable that takes them.
unfoldable pub validate_request : Bytes → Bytes → Assoc Bytes → Callback → Bool → Option Bool
validate_request token bucket request callback takes_request = or_fail (
    if takes_request
    then callback.with_request token bucket request
    else callback.plain token bucket)

-- The parameters of the query, with the method, the path and the source.
unfoldable pub details : Web → Request → Assoc Bytes → Assoc Bytes
details web req query_dict =
    insert (codes "source") (unwrap_or (header_text web (codes "x-forwarded-for") req) [])
      (insert (codes "path") req.uri.path (insert (codes "method") req.method query_dict))

unfoldable pub decision_key : Bytes → Bytes → Bytes → Bytes
decision_key access_key bucket method =
    access_key ++ (codes ":" ++ (bucket ++ (codes ":" ++ method)))

-- In seconds; 0 stands for the default.
unfoldable pub effective_ttl : ℕ → ℕ
effective_ttl ttl = if ttl == 0 then 300 else ttl

-- The readings of the monotonic clock.
pub record Instants : Type 0 where
  pub first : ℕ
  pub looked : ℕ
  pub written : ℕ

module _ {C : Type 0} (lru : LruCache C) where
  abbrev pub after_decision : Validated C → M C Bool
  after_decision v w =
      let w' = record w { auth_cache = v.cache } in
      elim v.verdict [
        | decided authorized ↦ next authorized w'
        | Authorization.failed ↦ stop failed w'
        | Authorization.panic ↦ stop panic w'
      ]

  module _ (nom : Nom) (decode_segment : Bytes → Option Bytes) (web : Web) where
    -- A request is checked by itself, so the cache is the same at both looks.
    unfoldable pub ask_validator :
        Settings → Instants → Callback → ℕ → Bytes → Bytes → Request → M C Bool
    ask_validator settings times callback ttl access_key bucket req w =
        elim (parse_query nom decode_segment (unwrap_or req.uri.query [])) [
          | none ↦ stop failed w
          | some (rest, query_dict) ↦
              after_decision
                (get_or_validate lru (decision_key access_key bucket req.method) (effective_ttl ttl)
                  times.first times.looked times.written
                  (validate_request access_key bucket (details web req query_dict) callback
                    (unwrap_or settings.validator_takes_request false))
                  w.auth_cache w.auth_cache)
                w
        ]
