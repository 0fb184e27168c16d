-- ===== src/Lifecycle/System.antt =====
-- `MyProxy` and its requests (lib.rs): the objects that all share, the part of `MyCtx` that is a
-- request's own, and the steps of the requests in any order.
use object_storage_proxy.Base.{
  ℕ, ◌≡◌, Bool, true, Option, none, some, if◌then◌else◌, ◌==◌, Bytes, Assoc, to_text,
}
use object_storage_proxy.External.{DateTime}
use object_storage_proxy.Message.{Request, Handled, finished, error, panic}
use object_storage_proxy.CosMap.{CosMapItem}
use object_storage_proxy.Secrets.{SecretsCache, IamResponse}
use object_storage_proxy.Tracker.{UrlTracker}
use object_storage_proxy.Signing.Key.{KeyCache}
use object_storage_proxy.Streaming.State.{StreamingState}
use object_storage_proxy.Gate.World.{Settings, World, Refusal, next, stop}
use object_storage_proxy.Gate.Validate.{Instants}
use object_storage_proxy.Gate.Filter.{Packages}
use object_storage_proxy.Proxy.Upstream.{Config}
use object_storage_proxy.Proxy.Rewrite.{Step, upstream_request_filter}
use object_storage_proxy.Proxy.Rewrite
use object_storage_proxy.Lifecycle.Phases.{Phase, arrived, perform}
use object_storage_proxy.Lifecycle.Alone.{behind_filter}

-- What is behind an `Arc`, of the server or of the process.
pub record Shared (C : Type 0) : Type 0 where
  pub cos_mapping : Assoc CosMapItem
  pub secrets_cache : SecretsCache
  pub hmac_keystore : Assoc Bytes
  pub auth_cache : C
  pub tracker : UrlTracker
  pub keys : KeyCache

-- The rest of `MyCtx`.
pub record Local : Type 0 where
  pub is_presigned : Option Bool
  pub stream_state : Option StreamingState
  pub cached_bucket : Option Bytes
  pub cached_bucket_config : Option CosMapItem

abbrev pub new_local : Local
new_local = record {
  is_presigned = none;
  stream_state = none;
  cached_bucket = none;
  cached_bucket_config = none;
}

-- What the handlers of one request see.
abbrev pub view : {C : Type 0} → Shared C → Local → World C
view shared local = record {
  ctx = record {
    cos_mapping = shared.cos_mapping;
    secrets_cache = shared.secrets_cache;
    is_presigned = local.is_presigned;
    stream_state = local.stream_state;
    cached_bucket = local.cached_bucket;
    cached_bucket_config = local.cached_bucket_config;
  };
  hmac_keystore = shared.hmac_keystore;
  auth_cache = shared.auth_cache;
  tracker = shared.tracker;
  keys = shared.keys;
}

abbrev pub shared_of : {C : Type 0} → World C → Shared C
shared_of w = record {
  cos_mapping = w.ctx.cos_mapping;
  secrets_cache = w.ctx.secrets_cache;
  hmac_keystore = w.hmac_keystore;
  auth_cache = w.auth_cache;
  tracker = w.tracker;
  keys = w.keys;
}

abbrev pub local_of : {C : Type 0} → World C → Local
local_of w = record {
  is_presigned = w.ctx.is_presigned;
  stream_state = w.ctx.stream_state;
  cached_bucket = w.ctx.cached_bucket;
  cached_bucket_config = w.ctx.cached_bucket_config;
}

-- A request is in `request_filter` or behind it, has been sent upstream, or has ended here: it has
-- been answered, or there was an error or a panic.
pub data Status : Type 0 where
  serving : Local → Phase → Status
  sent : Request → Status
  ended : Status

pub record Served : Type 0 where
  pub req : Request
  pub status : Status

pub record System (C : Type 0) : Type 0 where
  pub shared : Shared C
  pub requests : ℕ → Option Served

abbrev pub put : ℕ → Served → (ℕ → Option Served) → ℕ → Option Served
put i served requests j = if i == j then some served else requests j

-- What `upstream_request_filter` makes of a request.
abbrev pub status_of : Handled Request → Status
status_of (finished r) = sent r
status_of error = ended
status_of panic = ended

module _ {C J : Type 0} (p : Packages C J) (settings : Settings) (proxy : Config)
    (IsPlain : Request → Type 0) where
  -- The handler behind the filter. It reads the mapping, and writes the cache of tokens and the
  -- cache of signing keys.
  abbrev pub forwarded :
      DateTime → ℕ → Option IamResponse → Shared C → Local → Request → Rewrite.Step
  forwarded now now_secs bearer shared local req =
      let w = view shared local in
      upstream_request_filter p.crypto p.calendar p.web p.http p.nom to_text proxy now now_secs
        bearer w.ctx req w.keys

  -- One step of one request, at the clocks' readings of that moment.
  pub data Move (s : System C) : System C → Type 0 where
    arrive :
        (i : ℕ) (req : Request)
        → s.requests i ≡ none
        → IsPlain req
        → Move s (record s {
          requests = put i (record { req = req; status = serving new_local arrived }) s.requests;
        })
    advance :
        (i : ℕ) (now : DateTime) (times : Instants) {req : Request} {local : Local}
        {phase phase' : Phase} {w : World C}
        → s.requests i ≡ some (record { req = req; status = serving local phase })
        → perform p settings now times req phase (view s.shared local) ≡ next phase' w
        → Move s (record {
          shared = shared_of w;
          requests = put i (record { req = req; status = serving (local_of w) phase' }) s.requests;
        })
    refuse :
        (i : ℕ) (now : DateTime) (times : Instants) {req : Request} {local : Local} {phase : Phase}
        {r : Refusal} {w : World C}
        → s.requests i ≡ some (record { req = req; status = serving local phase })
        → perform p settings now times req phase (view s.shared local) ≡ stop r w
        → Move s (record {
          shared = shared_of w;
          requests = put i (record { req = req; status = ended }) s.requests;
        })
    forward :
        (i : ℕ) (now : DateTime) (now_secs : ℕ) (bearer : Option IamResponse) {req : Request}
        {local : Local} {phase : Phase}
        → s.requests i ≡ some (record { req = req; status = serving local phase })
        → behind_filter phase ≡ true
        → Move s (record {
          shared = record s.shared {
            secrets_cache = (forwarded now now_secs bearer s.shared local req).ctx.secrets_cache;
            keys = (forwarded now now_secs bearer s.shared local req).keys;
          };
          requests =
              put i
                (record {
                  req = req;
                  status = status_of (forwarded now now_secs bearer s.shared local req).outcome;
                })
                s.requests;
        })

  -- What a server comes to that starts with these shared objects, and no requests.
  pub data Reach (initial : Shared C) : System C → Type 0 where
    started : Reach initial (record { shared = initial; requests = λ i. none })
    moved : {s t : System C} → Reach initial s → Move s t → Reach initial t
