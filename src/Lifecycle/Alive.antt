-- ===== src/Lifecycle/Alive.antt =====
-- The steps of requests (lib.rs) lead to where the handlers lead: a request that nothing disturbs is
-- sent where `request_filter` and `upstream_request_filter` let it through.
use object_storage_proxy.Base.{
  ℕ, zero, suc, ◌≡◌, inl, inr, refl, sym, subst, subst₂, ◌∙◌, true, Option, none, some, arith,
  Bool-cases, to_text, ap,
}
use object_storage_proxy.External.{DateTime}
use object_storage_proxy.Message.{Request, finished}
use object_storage_proxy.Secrets.{IamResponse}
use object_storage_proxy.Gate.World.{Settings, World, next, then_do-next}
use object_storage_proxy.Gate.Validate.{Instants}
use object_storage_proxy.Gate.Filter.{Packages, request_filter}
use object_storage_proxy.Proxy.Upstream.{Config}
use object_storage_proxy.Proxy.Rewrite.{upstream_request_filter}
use object_storage_proxy.Lifecycle.Phases.{Phase, arrived, perform}
use object_storage_proxy.Lifecycle.Alone.{behind_filter, run, done, run-request_filter}
use object_storage_proxy.Lifecycle.System.{
  Shared, new_local, view, shared_of, local_of, serving, sent, Served, System, put, status_of,
  forwarded, Reach, arrive, advance, forward, started, moved,
}

pub put_there : (i : ℕ) (x : Served) (requests : ℕ → Option Served) → put i x requests i ≡ some x
put_there i x requests = ground arith

module _ {C J : Type 0} (p : Packages C J) (settings : Settings) (proxy : Config)
    (IsPlain : Request → Type 0) (initial : Shared C) (now : DateTime) (times : Instants)
    (req : Request) where
  -- Where a request stands.
  abbrev pub StandsAt : System C → ℕ → World C → Phase → Type 0
  StandsAt s i w phase =
      Reach p settings proxy IsPlain initial s
      × (s.shared ≡ shared_of w)
      × (s.requests i ≡ some (record { req = req; status = serving (local_of w) phase }))

  pub run-Reach :
      (n : ℕ) (s : System C) (i : ℕ) (phase phase' : Phase) (w w' : World C)
      → StandsAt s i w phase
      → run p settings now times req n phase w ≡ next phase' w'
      → (t : System C) × StandsAt t i w' phase'
  unfolding run
  run-Reach zero s i phase phase' w w' (reach, same, there) h =
      let e : w ≡ w' = cc in
      let same_phase : phase ≡ phase' = cc in
      (s, subst₂ (λ f v. StandsAt s i v f) same_phase e (reach, same, there))
  run-Reach (suc n) s i phase phase' w w' (reach, same, there) h =
      then_do-next h (λ phase1 w1 steps h1.
        run-Reach n _ i phase1 phase' w1 w'
          (
            moved reach (
                advance i now times there (
                  subst
                    (λ shared.
                      perform p settings now times req phase (view shared (local_of w))
                      ≡ next phase1 w1)
                    (sym same) steps)),
            refl,
            put_there i _ s.requests,
          )
          h1)

  done-next :
      (phase : Phase) (w w' : World C)
      → done p settings now times req phase w ≡ next tt w'
      → (behind_filter phase ≡ true) × (w ≡ w')
  unfolding done
  done-next phase w w' h = elim (Bool-cases (behind_filter phase)) [
    | inl behind ↦ (behind, ground (arith, behind))
    | inr before ↦ ground (arith, before)
  ]

  send_from :
      (now' : DateTime) (now_secs : ℕ) (bearer : Option IamResponse) (t : System C) (w : World C)
      (phase : Phase) (r : Request)
      → StandsAt t 0 w phase
      → behind_filter phase ≡ true
      → (upstream_request_filter p.crypto p.calendar p.web p.http p.nom to_text proxy now' now_secs
          bearer w.ctx req w.keys).outcome
        ≡ finished r
      → (s : System C) × Reach p settings proxy IsPlain initial s
        × (s.requests 0 ≡ some (record { req = req; status = sent r }))
  send_from now' now_secs bearer t w phase r (reach, shared, there) behind sends =
      let sends_on : (forwarded p settings proxy IsPlain now' now_secs bearer t.shared (local_of w)
            req).outcome
          ≡ finished r =
        subst
          (λ s.
            (forwarded p settings proxy IsPlain now' now_secs bearer s (local_of w) req).outcome
            ≡ finished r)
          (sym shared) sends in
      (
        _,
        moved reach (forward 0 now' now_secs bearer there behind),
        put_there 0 _ t.requests
            ∙ ap (λ o. some (record { req = req; status = status_of o })) sends_on,
      )

  -- A request that comes to a server without requests, which `request_filter` lets through and
  -- `upstream_request_filter` sends on, is sent on by the server.
  pub Reach_sent :
      (now' : DateTime) (now_secs : ℕ) (bearer : Option IamResponse) (w : World C) (r : Request)
      → IsPlain req
      → request_filter p settings now times req (view initial new_local) ≡ next tt w
      → (upstream_request_filter p.crypto p.calendar p.web p.http p.nom to_text proxy now' now_secs
          bearer w.ctx req w.keys).outcome
        ≡ finished r
      → (s : System C) × Reach p settings proxy IsPlain initial s
        × (s.requests 0 ≡ some (record { req = req; status = sent r }))
  Reach_sent now' now_secs bearer w r plain passes sends =
      then_do-next
        (sym (run-request_filter p settings now times req (view initial new_local)) ∙ passes)
        (λ phase w1 runs finishes.
          let (behind, same) = done-next phase w1 w finishes in
          let s0 : System C = record {
            shared = initial;
            requests = put 0 (record { req = req; status = serving new_local arrived }) (λ i. none);
          } in
          let (t, (reach, shared, there)) =
            run-Reach 14 s0 0 arrived phase (view initial new_local) w1
              (moved started (arrive 0 req refl plain), refl, refl) runs in
          send_from now' now_secs bearer t w1 phase r (reach, shared, there) behind
            (subst
              (λ (v : World C).
                (upstream_request_filter p.crypto p.calendar p.web p.http p.nom to_text proxy now'
                  now_secs bearer v.ctx req v.keys).outcome
                ≡ finished r)
              (sym same) sends))
