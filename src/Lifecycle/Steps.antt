-- ===== src/Lifecycle/Steps.antt =====
-- A step of a request (`request_filter` of lib.rs) keeps what the shared objects hold, and what the
-- request has shown.
use object_storage_proxy.Base.{◌≡◌, inl, inr, subst, some, arith, Bytes, Assoc, Bool-cases}
use object_storage_proxy.Message.{Request}
use object_storage_proxy.External.{DateTime}
use object_storage_proxy.Gate.World.{Callback, Settings, World, next, then_do, then_do-next}
use object_storage_proxy.Gate.Usage.{expects_continue}
use object_storage_proxy.Gate.Steps.{stored_key-next}
use object_storage_proxy.Gate.Validate.{Instants}
use object_storage_proxy.Gate.Filter.{Packages}
use object_storage_proxy.Gate.Passed.{
  SignatureValid, list_when_root-next, access_key-next, deny_unless-next,
}
use object_storage_proxy.Gate.Admission.{usage_limit-next}
use object_storage_proxy.Lifecycle.Phases.{
  Phase, arrived, counted, listing, routing, identifying, signing, ensuring, taking, checking,
  asking, missed, storing, judged, granting, granted, waved, ask_whether, perform, no_key_found,
}
use object_storage_proxy.Lifecycle.Evidence.{HasCredentials, IsPlain, Sound, Shown}
use object_storage_proxy.Lifecycle.Frames.{
  After, Stands, route-frame, check_how-next, check_with-next, Frame-Kept, same_access_key,
  to_After, from_Kept, ensure_key-Kept, grant-Kept,
}
use object_storage_proxy.Lifecycle.Asked.{
  ask_whether-Shown, look-next, look_again-next, store_decision-next,
}

module _ {C J : Type 0} (p : Packages C J) (settings : Settings) (stored : Assoc Bytes)
    (Valid : Request → Bytes → Type 0) (callback : Callback) (now : DateTime) (times : Instants)
    (req : Request) where
  module _ (set : settings.validator ≡ some callback)
      (plain : IsPlain p settings stored Valid req) where
    -- A step leaves every yes in the cache the validator's, every key in the store the client's and
    -- every bucket its credentials, and the request stands where it has shown what it must.
    pub perform-next :
        (phase phase' : Phase) (w w' : World C)
        → ((secret_key : Bytes)
            → SignatureValid p settings now times req secret_key w.keys
            → Valid req secret_key)
        → Sound p settings stored Valid callback w
        → Stands p settings stored Valid callback now times req w phase
        → perform p settings now times req phase w ≡ next phase' w'
        → After p settings stored Valid callback now times req w phase' w'
    unfolding perform Shown then_do
    perform-next arrived phase' w w' valid sound shown h = then_do-next h (λ _ w1 counts e.
        let (ctx, store, cache, keys) = usage_limit-next settings p.http req w w1 counts in
        to_After p settings stored Valid callback now times req w w' counted phase' sound
          (cc, cc, cc) (cc) tt)
    perform-next counted phase' w w' valid sound shown h =
        elim (Bool-cases (expects_continue p.web req)) [
          | inl expects ↦
              to_After p settings stored Valid callback now times req w w' waved phase' sound
                (ground (arith, expects), ground (arith, expects), ground (arith, expects))
                (ground (arith, expects)) expects
          | inr without ↦
              to_After p settings stored Valid callback now times req w w' listing phase' sound
                (ground (arith, without), ground (arith, without), ground (arith, without))
                (ground (arith, without)) tt
        ]
    perform-next listing phase' w w' valid sound shown h = then_do-next h (λ _ w1 lists e.
        let same = list_when_root-next p settings now times req w w1 lists in
        to_After p settings stored Valid callback now times req w w' routing phase' sound
          (cc, cc, cc) (cc) tt)
    perform-next routing phase' w w' valid sound shown h = then_do-next h (λ routed w1 routes e.
        let (parses, (cache, store, mapping)) =
          route-frame p settings stored Valid callback now times req routed.0 routed.1 w w1
            routes in
        to_After p settings stored Valid callback now times req w w' (identifying routed.0 routed.1)
          phase' sound (cc, cc, cc) (cc) parses)
    perform-next (identifying bucket config) phase' w w' valid sound shown h =
        then_do-next h (λ access_key w1 keys e.
          let (keyed, same) = access_key-next p settings now times req access_key w w1 keys in
          to_After p settings stored Valid callback now times req w w'
            (ask_whether p settings now times req bucket config access_key) phase' sound
            (cc, cc, cc) (cc)
            (ask_whether-Shown p settings stored Valid callback now times req set plain bucket
              config access_key w'
              (
                shown,
                λ now' times'.
                    same_access_key p settings stored Valid callback now times req access_key now'
                      times' keyed,
              )))
    perform-next (signing q) phase' w w' valid sound shown h =
        let (frame, stands) =
          check_how-next p settings stored Valid callback now times req q phase' w w' h shown in
        (Frame-Kept p settings stored Valid callback now times req w w' sound frame, stands)
    perform-next (ensuring how q) phase' w w' valid (honest, known) shown h =
        then_do-next h (λ _ w1 ensures e.
          from_Kept p settings stored Valid callback now times req w w1 w' (taking how q) phase' e
            (ensure_key-Kept p settings stored Valid callback now times req (no_key_found how)
              q.access_key w w1 honest known ensures)
            shown)
    perform-next (taking how q) phase' w w' valid sound shown h =
        then_do-next h (λ secret_key w1 takes e.
          let (found, same) = stored_key-next q.access_key secret_key w w1 takes in
          to_After p settings stored Valid callback now times req w w' (checking how secret_key q)
            phase' sound (cc, cc, cc) (cc) (shown, sound.1 q.access_key secret_key found))
    perform-next (checking how secret_key q) phase' w w' valid sound (asked, origin) h =
        then_do-next h (λ _ w1 checks e.
          let (is_valid, (cache, store, mapping)) =
            check_with-next p settings stored Valid callback now times req how secret_key w w1
              checks in
          to_After p settings stored Valid callback now times req w w' (asking q) phase' sound
            (cc, cc, cc) (cc) (asked, inr (secret_key, origin, valid secret_key is_valid)))
    perform-next (asking q) phase' w w' valid sound (asked, signed) h =
        look-next p settings stored Valid callback now times req set plain q phase' w w' h sound
          asked signed
    perform-next (missed query_dict q) phase' w w' valid sound (asked, signed) h =
        look_again-next p settings stored Valid callback now times req set plain query_dict q phase'
          w w' h sound asked signed
    perform-next (storing authorized q) phase' w w' valid sound shown h =
        store_decision-next p settings stored Valid callback now times req set plain authorized q
          phase' w w' h sound shown
    perform-next (judged authorized q) phase' w w' valid sound (asked, signed, approved) h =
        then_do-next h (λ _ w1 allows e.
          let (yes_said, same) =
            deny_unless-next p settings now times req q.bucket authorized w w1 allows in
          to_After p settings stored Valid callback now times req w w'
            (granting q.bucket q.config q.access_key) phase' sound (cc, cc, cc) (cc)
            (asked.1, signed, approved yes_said))
    perform-next (granting bucket config access_key) phase' w w' valid (honest, known) shown h =
        then_do-next h (λ _ w1 grants e.
          let (kept, has) =
            grant-Kept p settings stored Valid callback now times req bucket config access_key w w1
              honest known grants in
          from_Kept p settings stored Valid callback now times req w w1 w' (granted bucket) phase' e
            kept ((access_key, shown), has))
    perform-next (granted bucket) phase' w w' valid sound shown h =
        to_After p settings stored Valid callback now times req w w' (granted bucket) phase' sound
          (cc, cc, cc) (cc) (shown.0, subst (HasCredentials bucket) (cc) shown.1)
    perform-next waved phase' w w' valid sound shown h =
        to_After p settings stored Valid callback now times req w w' waved phase' sound (cc, cc, cc)
          (cc) shown
