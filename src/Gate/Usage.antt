-- ===== src/Gate/Usage.antt =====
-- The first steps of `request_filter`: how often a presigned URL is used, and what is read of the
-- request.
use object_storage_proxy.Base.{
  ℕ, Bool, false, ◌&&◌, Option, none, some, [], ◌++◌, if◌then◌else◌, ltb, ◌>>=◌, unwrap_or, Bytes,
  codes, beq, contains, to_text, lookup,
}
use object_storage_proxy.External.{Web}
use object_storage_proxy.Message.{uri_text, Request, Http}
use object_storage_proxy.Signing.AwsSign.{to_lowercase}
use object_storage_proxy.Tracker.{UrlTracker, track}
use object_storage_proxy.Tracker
use object_storage_proxy.Gate.World.{Settings, next, stop, M}
use object_storage_proxy.Gate.Replies.{write_error_response_with_header}

-- uri.query().is_some_and(|q| q.contains(text))
abbrev pub query_contains : Bytes → Request → Bool
query_contains text req = elim req.uri.query [ none ↦ false | some q ↦ contains text q ]

-- headers.get(name).and_then(|h| h.to_str().ok())
abbrev pub header_text : Web → Bytes → Request → Option Bytes
header_text web name req = do v ← lookup name req.headers; web.to_str v

abbrev pub is_presigned_url : Request → Bool
is_presigned_url = query_contains (codes "X-Amz-Signature")

abbrev pub max_uses : Settings → ℕ
max_uses settings = unwrap_or settings.max_presign_url_usage_attempts 3

abbrev pub too_many : Bytes → ℕ → ℕ → Bytes
too_many path tracked_count max =
    codes "URL ("
    ++ (path
        ++ (codes ") has been tracked too many times: "
            ++ (to_text tracked_count
                ++ (codes " (max=" ++ (to_text max ++ codes ").  Access Denied!")))))

unfoldable pub usage_limit : {C : Type 0} → Settings → Http → Request → M C (Unit {0})
usage_limit settings http req w =
    let url = uri_text req.uri in
    let tracker = if is_presigned_url req then track w.tracker url else w.tracker in
    let tracked_count = unwrap_or (Tracker.get tracker url) 0 in
    let w' = record w { tracker = tracker } in
    if is_presigned_url req && ltb (max_uses settings) tracked_count
    then stop
        (write_error_response_with_header http 403
          (too_many req.uri.path tracked_count (max_uses settings)))
        w'
    else next tt w'

-- `expect: 100-continue`, in any case
unfoldable pub expects_continue : Web → Request → Bool
expects_continue web req = elim (lookup (codes "expect") req.headers) [
  | none ↦ false
  | some v ↦ beq (to_lowercase (unwrap_or (web.to_str v) [])) (codes "100-continue")
]
