-- ===== src/Lifecycle/Invariant.antt =====
-- What holds in every state of a server with many requests (lib.rs).
use object_storage_proxy.Base.{
  ℕ, ◌≡◌, ◌⊎◌, inl, inr, refl, subst, true, Option, some, arith, Bytes, Assoc, ◌==◌, Bool-cases,
}
use object_storage_proxy.External.{DateTime}
use object_storage_proxy.Message.{Request, Handled, finished, error, panic}
use object_storage_proxy.CosMap.{CosMapItem}
use object_storage_proxy.Secrets.{IamResponse}
use object_storage_proxy.Gate.World.{Callback, Settings}
use object_storage_proxy.Gate.Usage.{expects_continue}
use object_storage_proxy.Gate.Validate.{Instants}
use object_storage_proxy.Gate.Filter.{Packages}
use object_storage_proxy.Gate.Passed.{SignatureValid}
use object_storage_proxy.Proxy.Upstream.{Config}
use object_storage_proxy.Lifecycle.Phases.{
  Phase, arrived, counted, listing, routing, identifying, signing, ensuring, taking, checking,
  asking, missed, storing, judged, granting, granted, waved,
}
use object_storage_proxy.Lifecycle.Alone.{behind_filter}
use object_storage_proxy.Lifecycle.Evidence.{
  HasCredentials, Grows, IsPlain, Sound, Cleared, Shown, Shown-Grows,
}
use object_storage_proxy.Lifecycle.Steps.{perform-next}
use object_storage_proxy.Lifecycle.Refused.{perform-stop}
use object_storage_proxy.Lifecycle.Frames.{Frame-Kept}
use object_storage_proxy.Lifecycle.System.{
  Shared, Local, new_local, view, Status, serving, sent, ended, Served, System, put, status_of,
  forwarded, Move, arrive, advance, refuse, forward, Reach,
}

module _ {C J : Type 0} (p : Packages C J) (settings : Settings) (proxy : Config)
    (callback : Callback) (initial : Shared C) where
  abbrev pub Plain : Request → Type 0
  Plain = IsPlain p settings initial.hmac_keystore (λ req secret. Unit)

  -- In a state that the server came through before, and with the cache of signing keys as it was
  -- then, the request's signature was valid under the secret key.
  abbrev pub WasValid : Request → Bytes → Type 0
  WasValid req secret_key =
      (s : System C) × Reach p settings proxy Plain initial s
      × (now : DateTime) × (times : Instants) × SignatureValid p settings now times req secret_key
          s.shared.keys

  abbrev pub IsCleared : Request → Bytes → Bytes → Type 0
  IsCleared = Cleared p settings initial.hmac_keystore WasValid callback

  -- A request that was sent was cleared for its bucket; and what was sent is what
  -- `upstream_request_filter` makes of it in a state in which the bucket has its credentials.
  abbrev pub SentFor : Request → Request → Type 0
  SentFor req r =
      (bucket access_key : Bytes) × (s : System C) × (local : Local) × (now : DateTime)
      × (now_secs : ℕ) × (bearer : Option IamResponse) × Reach p settings proxy Plain initial s
      × IsCleared req bucket access_key
      × HasCredentials bucket s.shared.cos_mapping
      × ((forwarded p settings proxy Plain now now_secs bearer s.shared local req).outcome
          ≡ finished r)

  unfoldable pub Good : Assoc CosMapItem → Request → Status → Type 0
  Good cos_mapping req (serving local phase) =
      Plain req × Shown p settings initial.hmac_keystore WasValid callback req cos_mapping phase
  Good cos_mapping req (sent r) = (expects_continue p.web req ≡ true) ⊎ SentFor req r
  Good cos_mapping req ended = Unit

  Good-Grows :
      (req : Request) (before after : Assoc CosMapItem) (status : Status)
      → Grows before after
      → Good before req status
      → Good after req status
  unfolding Good
  Good-Grows req before after (serving local phase) grows (plain, shown) = (
    plain,
    Shown-Grows p settings initial.hmac_keystore WasValid callback req before after phase grows
        shown,
  )
  Good-Grows req before after (sent r) grows h = h
  Good-Grows req before after ended grows h = tt

  -- Every yes in the cache is the validator's, every key in the store its client's, and every
  -- request has shown what it must.
  abbrev pub AllGood : Assoc CosMapItem → (ℕ → Option Served) → Type 0
  AllGood cos_mapping requests =
      (j : ℕ) (x : Served) → requests j ≡ some x → Good cos_mapping x.req x.status

  abbrev pub Invariant : System C → Type 0
  Invariant s =
      Sound p settings initial.hmac_keystore WasValid callback (view s.shared new_local)
      × AllGood s.shared.cos_mapping s.requests

  put-AllGood :
      (i : ℕ) (x : Served) (before after : Assoc CosMapItem) (requests : ℕ → Option Served)
      → Grows before after
      → AllGood before requests
      → Good after x.req x.status
      → AllGood after (put i x requests)
  put-AllGood i x before after requests grows all good j y found = elim (Bool-cases (i == j)) [
    | inl same ↦
        let e : x ≡ y = ground (arith, same, found) in
        subst (λ (z : Served). Good after z.req z.status) e good
    | inr differs ↦
        Good-Grows y.req before after y.status grows (all j y (ground (arith, differs, found)))
  ]

  module _ (set : settings.validator ≡ some callback) where
    forwarded-Good :
        (s : System C) (now : DateTime) (now_secs : ℕ) (bearer : Option IamResponse)
        (req r : Request) (local : Local) (phase : Phase)
        → Reach p settings proxy Plain initial s
        → behind_filter phase ≡ true
        → Shown p settings initial.hmac_keystore WasValid callback req s.shared.cos_mapping phase
        → (forwarded p settings proxy Plain now now_secs bearer s.shared local req).outcome
          ≡ finished r
        → Good s.shared.cos_mapping req (sent r)
    unfolding Good Shown
    forwarded-Good s now now_secs bearer req r local waved reach behind expects sends = inl expects
    forwarded-Good s now now_secs bearer req r local (granted bucket) reach behind
          ((access_key, cleared), has) sends =
        inr (bucket, access_key, s, local, now, now_secs, bearer, reach, cleared, has, sends)
    forwarded-Good s now now_secs bearer req r local arrived reach behind shown sends = cc
    forwarded-Good s now now_secs bearer req r local counted reach behind shown sends = cc
    forwarded-Good s now now_secs bearer req r local listing reach behind shown sends = cc
    forwarded-Good s now now_secs bearer req r local routing reach behind shown sends = cc
    forwarded-Good s now now_secs bearer req r local (identifying bucket config) reach behind shown
          sends =
        cc
    forwarded-Good s now now_secs bearer req r local (signing q) reach behind shown sends = cc
    forwarded-Good s now now_secs bearer req r local (ensuring how q) reach behind shown sends = cc
    forwarded-Good s now now_secs bearer req r local (taking how q) reach behind shown sends = cc
    forwarded-Good s now now_secs bearer req r local (checking how secret_key q) reach behind shown
          sends =
        cc
    forwarded-Good s now now_secs bearer req r local (asking q) reach behind shown sends = cc
    forwarded-Good s now now_secs bearer req r local (missed query_dict q) reach behind shown
          sends =
        cc
    forwarded-Good s now now_secs bearer req r local (storing authorized q) reach behind shown
          sends =
        cc
    forwarded-Good s now now_secs bearer req r local (judged authorized q) reach behind shown
          sends =
        cc
    forwarded-Good s now now_secs bearer req r local (granting bucket config access_key) reach
          behind shown sends =
        cc

    status_of-Good :
        (s : System C) (now : DateTime) (now_secs : ℕ) (bearer : Option IamResponse) (req : Request)
        (local : Local) (phase : Phase)
        → Reach p settings proxy Plain initial s
        → behind_filter phase ≡ true
        → Shown p settings initial.hmac_keystore WasValid callback req s.shared.cos_mapping phase
        → (o : Handled Request)
        → (forwarded p settings proxy Plain now now_secs bearer s.shared local req).outcome ≡ o
        → Good s.shared.cos_mapping req (status_of o)
    unfolding Good
    status_of-Good s now now_secs bearer req local phase reach behind shown (finished r) sends =
        forwarded-Good s now now_secs bearer req r local phase reach behind shown sends
    status_of-Good s now now_secs bearer req local phase reach behind shown error sends = tt
    status_of-Good s now now_secs bearer req local phase reach behind shown panic sends = tt

    pub Move-Invariant :
        (s t : System C)
        → Reach p settings proxy Plain initial s
        → Move p settings proxy Plain s t
        → Invariant s
        → Invariant t
    unfolding Good Shown
    Move-Invariant s t reach (arrive i req free plain) (sound, all) = (
      sound,
      put-AllGood i _ s.shared.cos_mapping s.shared.cos_mapping s.requests (λ b h. h) all
          (plain, tt),
    )
    Move-Invariant s t reach (advance i now times {req} {local} {phase} {phase'} {w} there steps)
          (sound, all) =
        let (plain, shown) = all i _ there in
        let ((sound', grows), shown') =
          perform-next p settings initial.hmac_keystore WasValid callback now times req set plain
            phase phase' (view s.shared local) w (λ secret_key valid. (s, reach, now, times, valid))
            sound shown steps in
        (
          sound',
          put-AllGood i _ s.shared.cos_mapping w.ctx.cos_mapping s.requests grows all
              (plain, shown'),
        )
    Move-Invariant s t reach (refuse i now times {req} {local} {phase} {r} {w} there stops)
          (sound, all) =
        let frame = perform-stop p settings now times req phase r (view s.shared local) w stops in
        let (sound', grows) =
          Frame-Kept p settings initial.hmac_keystore WasValid callback now times req
            (view s.shared local) w sound frame in
        (sound', put-AllGood i _ s.shared.cos_mapping w.ctx.cos_mapping s.requests grows all tt)
    Move-Invariant s t reach (forward i now now_secs bearer {req} {local} {phase} there behind)
          (sound, all) =
        (
          sound,
          put-AllGood i _ s.shared.cos_mapping s.shared.cos_mapping s.requests (λ b h. h) all
              (status_of-Good s now now_secs bearer req local phase reach behind (all i _ there).1 _
                refl),
        )
