-- ===== src/Lifecycle/Frames.antt =====
-- What the parts of a step of `request_filter` (lib.rs) keep.
use object_storage_proxy.Base.{
  ◌≡◌, inl, inr, sym, subst, subst₂, ◌&&◌, Option, some, arith, Bytes, is_empty, Assoc, Bool-cases,
}
use object_storage_proxy.Message.{Request}
use object_storage_proxy.External.{DateTime}
use object_storage_proxy.Path.{ok, parse_path}
use object_storage_proxy.CosMap.{CosMapItem}
use object_storage_proxy.Gate.World.{Callback, Settings, World, next, then_do, then_do-next}
use object_storage_proxy.Gate.Usage.{is_presigned_url}
use object_storage_proxy.Gate.Keys.{skips_signature, ensure_key, run_presigned, run_request}
use object_storage_proxy.Gate.Steps.{presigned_answer-next, request_answer-next}
use object_storage_proxy.Gate.Validate.{Instants}
use object_storage_proxy.Gate.Filter.{Packages, auth_header, access_key_of, route, grant}
use object_storage_proxy.Gate.Passed.{SignatureValid, from_parsed-next}
use object_storage_proxy.Lifecycle.Phases.{
  Signature, in_url, in_header, Question, Phase, ensuring, asking, check_how, check_with,
}
use object_storage_proxy.Lifecycle.Evidence.{
  HasCredentials, Grows, Honest, Known, Sound, Asked, Shown,
}
use object_storage_proxy.Lifecycle.Shared.{ensure_key-Known, grant-Grows}

-- The cache, the store and the mapping are as they were.
abbrev pub Frame : {C : Type 0} → World C → World C → Type 0
Frame w w' =
    (w'.auth_cache ≡ w.auth_cache)
    × (w'.hmac_keystore ≡ w.hmac_keystore)
    × (w'.ctx.cos_mapping ≡ w.ctx.cos_mapping)

module _ {C J : Type 0} (p : Packages C J) (settings : Settings) (stored : Assoc Bytes)
    (Valid : Request → Bytes → Type 0) (callback : Callback) (now : DateTime) (times : Instants)
    (req : Request) where
  abbrev pub Kept : World C → World C → Type 0
  Kept w w' = Sound p settings stored Valid callback w' × Grows w.ctx.cos_mapping w'.ctx.cos_mapping

  abbrev pub Stands : World C → Phase → Type 0
  Stands w phase = Shown p settings stored Valid callback req w.ctx.cos_mapping phase

  pub Frame-Kept :
      (w w' : World C) → Sound p settings stored Valid callback w → Frame w w' → Kept w w'
  Frame-Kept w w' (honest, known) (same_cache, same_store, same_mapping) = (
    (
      subst (Honest p settings stored Valid callback) (sym same_cache) honest,
      subst (Known p settings stored Valid) (sym same_store) known,
    ),
    subst (Grows w.ctx.cos_mapping) (sym same_mapping) (λ bucket h. h),
  )

  pub same_access_key :
      (access_key : Bytes) (now' : DateTime) (times' : Instants)
      → access_key_of p settings now times req ≡ some access_key
      → access_key_of p settings now' times' req ≡ some access_key
  unfolding access_key_of
  same_access_key access_key now' times' h = h

  pub route-frame :
      (bucket : Bytes) (config : Option CosMapItem) (w w' : World C)
      → route p settings now times req w ≡ next (bucket, config) w'
      → ((rest : Bytes) × (parse_path p.nom req.uri.path ≡ ok (bucket, rest))) × Frame w w'
  unfolding route
  route-frame bucket config w w' h = then_do-next h (λ parsed w1 parses enters.
      let (parses_ok, same) = from_parsed-next p settings now times req _ parsed w w1 parses in
      ((parsed.1, cc), (cc, cc, cc)))

  pub check_how-next :
      (q : Question) (phase : Phase) (w w' : World C)
      → check_how p settings now times req q w ≡ next phase w'
      → Asked p settings stored Valid callback req q
      → Frame w w' × Stands w' phase
  unfolding then_do Shown
  check_how-next q phase w w' h asked = elim (Bool-cases (skips_signature settings req)) [
    | inl skips ↦
        let e : asking q ≡ phase = ground (arith, skips) in
        (
          (ground (arith, skips), ground (arith, skips), ground (arith, skips)),
          subst (Stands w') e (asked, inl skips),
        )
    | inr checks ↦
        elim (Bool-cases
          (is_empty (auth_header p settings now times req) && is_presigned_url req)) [
            | inl url ↦
                let e : ensuring in_url q ≡ phase = ground (arith, checks, url) in
                (
                  (
                    ground (arith, checks, url),
                    ground (arith, checks, url),
                    ground (arith, checks, url),
                  ),
                  subst (Stands w') e asked,
                )
            | inr header ↦
                let e : ensuring in_header q ≡ phase = ground (arith, checks, header) in
                (
                  (
                    ground (arith, checks, header),
                    ground (arith, checks, header),
                    ground (arith, checks, header),
                  ),
                  subst (Stands w') e asked,
                )
          ]
  ]

  pub check_with-next :
      (how : Signature) (secret_key : Bytes) (w w' : World C)
      → check_with p settings now times req how secret_key w ≡ next tt w'
      → SignatureValid p settings now times req secret_key w.keys × Frame w w'
  unfolding run_presigned run_request
  check_with-next in_url secret_key w w' h = then_do-next h (λ result w1 ran answers.
      let (valid, last) = presigned_answer-next p.http req result w1 w' answers in
      (inl (cc), (cc, cc, cc)))
  check_with-next in_header secret_key w w' h = then_do-next h (λ result w1 ran answers.
      let (valid, last) = request_answer-next p.http result w1 w' answers in
      (inr (cc), (cc, cc, cc)))

  -- What is behind a step.
  abbrev pub After : World C → Phase → World C → Type 0
  After w phase' w' = Kept w w' × Stands w' phase'

  pub to_After :
      (w w' : World C) (phase phase' : Phase)
      → Sound p settings stored Valid callback w
      → Frame w w'
      → phase ≡ phase'
      → Stands w' phase
      → After w phase' w'
  to_After w w' phase phase' sound frame e shown =
      (Frame-Kept w w' sound frame, subst (Stands w') e shown)

  pub from_Kept :
      (w w1 w' : World C) (phase phase' : Phase)
      → next phase w1 ≡ next phase' w'
      → Kept w w1
      → Stands w1 phase
      → After w phase' w'
  from_Kept w w1 w' phase phase' e kept shown =
      let same : w1 ≡ w' = cc in
      let same_phase : phase ≡ phase' = cc in
      subst₂ (λ f v. After w f v) same_phase same (kept, shown)

  pub ensure_key-Kept :
      (msg access_key : Bytes) (w w' : World C)
      → Honest p settings stored Valid callback w.auth_cache
      → Known p settings stored Valid w.hmac_keystore
      → ensure_key settings p.http msg access_key w ≡ next tt w'
      → Kept w w'
  ensure_key-Kept msg access_key w w' honest known h =
      let (known', frame) =
        ensure_key-Known p settings stored Valid p.http msg access_key w w' known h in
      (
        (subst (Honest p settings stored Valid callback) (cc) honest, known'),
        subst (Grows w.ctx.cos_mapping) (cc) (λ bucket has. has),
      )

  pub grant-Kept :
      (bucket : Bytes) (config : Option CosMapItem) (access_key : Bytes) (w w' : World C)
      → Honest p settings stored Valid callback w.auth_cache
      → Known p settings stored Valid w.hmac_keystore
      → grant p settings now times req bucket config access_key w ≡ next tt w'
      → Kept w w' × HasCredentials bucket w'.ctx.cos_mapping
  grant-Kept bucket config access_key w w' honest known h =
      let (grows, has, frame) =
        grant-Grows p settings stored Valid now times req bucket config access_key w w' h in
      (
        (
          (
            subst (Honest p settings stored Valid callback) (cc) honest,
            subst (Known p settings stored Valid) (cc) known,
          ),
          grows,
        ),
        has,
      )
