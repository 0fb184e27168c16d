-- ===== src/Lifecycle/Admitted.antt =====
-- Requests that run at once (lib.rs): what has been shown for those that have passed.
use object_storage_proxy.Base.{ℕ, ◌≡◌, inl, inr, false, none, some, arith, Bytes}
use object_storage_proxy.Message.{Request}
use object_storage_proxy.Gate.World.{Callback, Settings}
use object_storage_proxy.Gate.Usage.{expects_continue}
use object_storage_proxy.Gate.Filter.{Packages}
use object_storage_proxy.Proxy.Upstream.{Config}
use object_storage_proxy.Lifecycle.Phases.{granted}
use object_storage_proxy.Lifecycle.Evidence.{HasCredentials, Shown}
use object_storage_proxy.Lifecycle.System.{
  Shared, Local, serving, sent, System, Reach, started, moved,
}
use object_storage_proxy.Lifecycle.Invariant.{
  Plain, IsCleared, SentFor, Good, Invariant, Move-Invariant,
}

module _ {C J : Type 0} (p : Packages C J) (settings : Settings) (proxy : Config)
    (callback : Callback) (initial : Shared C) where
  module _ (set : settings.validator ≡ some callback) where
    Reach-Invariant :
        ((key : Bytes) → p.lru.peek key initial.auth_cache ≡ none)
        → (s : System C)
        → Reach p settings proxy (Plain p settings proxy callback initial) initial s
        → Invariant p settings proxy callback initial s
    Reach-Invariant nothing s started = (
      (λ key entry found. ground (arith, nothing key, found), λ access_key secret found. inl found),
      λ j x found. cc,
    )
    Reach-Invariant nothing s (moved {s = before} reach move) =
        Move-Invariant p settings proxy callback initial set before s reach move
          (Reach-Invariant nothing before reach)

    -- Whatever other requests do meanwhile, what reaches the upstream was allowed: on a server that
    -- starts with an empty cache of decisions and has a validator, a request without
    -- `expect: 100-continue` that is sent names a bucket and an access key; the validator itself
    -- answers true for this access key, this bucket and this method; unless the settings or an
    -- `uploadId=` skip it, the request's signature was valid, in a state that the server came
    -- through, under a secret key that the store had at the start or the fetcher gives for this
    -- access key; and what is sent is what `upstream_request_filter` makes of the request in a state
    -- that the server came through, in which the bucket has a key pair or an API key. Methods and
    -- buckets of the requests are taken to hold no colon.
    pub Reach-SentFor :
        (s : System C) (i : ℕ) (req r : Request)
        → ((key : Bytes) → p.lru.peek key initial.auth_cache ≡ none)
        → Reach p settings proxy (Plain p settings proxy callback initial) initial s
        → s.requests i ≡ some (record { req = req; status = sent r })
        → expects_continue p.web req ≡ false
        → SentFor p settings proxy callback initial req r
    unfolding Good
    Reach-SentFor s i req r nothing reach there without =
        elim ((Reach-Invariant nothing s reach).1 i _ there) [
          | inl expects ↦ ground (arith, expects, without)
          | inr sent_for ↦ sent_for
        ]

    -- A bucket that a request has been granted has its credentials from then on, whatever other
    -- requests write into the mapping that they share: in every state in which a request stands
    -- behind the checks, its bucket is configured with a key pair or an API key, and the request has
    -- been cleared for it, as the validator and the signature have it in `Reach-SentFor`. The server
    -- has a validator and starts with an empty cache of decisions, and methods and buckets of the
    -- requests hold no colon.
    pub Reach-granted :
        (s : System C) (i : ℕ) (req : Request) (local : Local) (bucket : Bytes)
        → ((key : Bytes) → p.lru.peek key initial.auth_cache ≡ none)
        → Reach p settings proxy (Plain p settings proxy callback initial) initial s
        → s.requests i ≡ some (record { req = req; status = serving local (granted bucket) })
        → HasCredentials bucket s.shared.cos_mapping
          × ((access_key : Bytes) × IsCleared p settings proxy callback initial req bucket
                access_key)
    unfolding Good Shown
    Reach-granted s i req local bucket nothing reach there =
        let (plain, (cleared, has)) = (Reach-Invariant nothing s reach).1 i _ there in
        (has, cleared)
