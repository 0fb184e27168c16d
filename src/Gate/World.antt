-- ===== src/Gate/World.antt =====
-- What `request_filter` of lib.rs reads and changes, and how its steps follow one another.
use object_storage_proxy.Base.{ℕ, ◌≡◌, refl, Bool, Option, List, Bytes, Assoc}
use object_storage_proxy.Tracker.{UrlTracker}
use object_storage_proxy.Signing.Key.{KeyCache}
use object_storage_proxy.Proxy.Upstream.{Ctx}

-- A Python callable, with three arguments and with two. The outer `none` is an exception, or a
-- task that does not join; the inner one a result that is not a Boolean.
pub record Callback : Type 0 where
  pub with_request : Bytes → Bytes → Assoc Bytes → Option (Option Bool)
  pub plain : Bytes → Bytes → Option (Option Bool)

-- What the filter reads of `MyProxy`. The two fetchers are Python callables that give a text.
pub record Settings : Type 0 where
  pub max_presign_url_usage_attempts : Option ℕ
  pub skip_signature_validation : Option Bool
  pub validator_takes_request : Option Bool
  pub validator : Option Callback
  pub hmac_fetcher : Option (Bytes → Option Bytes)
  pub bucket_creds_fetcher : Option (Bytes → Bytes → Option Bytes)

-- The context of the request, and what all requests share.
pub record World (C : Type 0) : Type 0 where
  pub ctx : Ctx
  pub hmac_keystore : Assoc Bytes
  pub auth_cache : C
  pub tracker : UrlTracker
  pub keys : KeyCache

-- What is written to the client: a header, a part of the body (each with whether it is the last),
-- or a whole error response.
pub data Write : Type 0 where
  response_header : ℕ → Assoc Bytes → Bool → Write
  response_body : Bytes → Bool → Write
  error_response : ℕ → Bytes → Write

-- How a request ends that does not pass: it has been answered (`Ok(true)`), there is an error, or
-- a panic. Writing itself does not fail.
pub data Refusal : Type 0 where
  respond : List Write → Refusal
  failed : Refusal
  panic : Refusal

pub data Stage (C A : Type 0) : Type 0 where
  next : A → World C → Stage C A
  stop : Refusal → World C → Stage C A

-- A step of the filter.
abbrev pub M : Type 0 → Type 0 → Type 0
M C A = World C → Stage C A

unfoldable pub then_do : {C A B : Type 0} → Stage C A → (A → M C B) → Stage C B
then_do (next a w) f = f a w
then_do (stop r w) f = stop r w

infixl 5 ◌>>=◌ ◌>>◌
abbrev pub ◌>>=◌ : {C A B : Type 0} → M C A → (A → M C B) → M C B
◌>>=◌ m f w = then_do (m w) f

abbrev pub ◌>>◌ : {C B : Type 0} → M C (Unit {0}) → M C B → M C B
◌>>◌ m k w = then_do (m w) (λ _. k)

abbrev pub pure : {C A : Type 0} → A → M C A
pure a w = next a w

abbrev pub refuse : {C A : Type 0} → Refusal → M C A
refuse r w = stop r w

-- A sequence of steps that comes to its end has come to the end of each.
pub then_do-next :
    {C A B : Type 0} {P : Type 0} {s : Stage C A} {f : A → M C B} {b : B} {w : World C}
    → then_do s f ≡ next b w
    → ((a : A) (w' : World C) → s ≡ next a w' → f a w' ≡ next b w → P)
    → P
unfolding then_do
then_do-next {s = next a w'} h k = k a w' refl h
then_do-next {s = stop r w'} h k = cc
