-- ===== src/Metrics/Connections.antt =====
-- The gauge `ACTIVE_CONNECTIONS`: `upstream_peer` of lib.rs adds one to it, and `logging` takes one
-- away at the end of every request.
use object_storage_proxy.Base.{ℕ, zero, suc, ◌+◌, ◌-◌, ◌<◌, ◌≡◌, refl, ap, ◌∙◌, arith}

-- The gauge's integers; it holds an i64, which is large enough.
pub data ℤ : Type 0 where
  pos : ℕ → ℤ
  negsuc : ℕ → ℤ

unfoldable pub inc : ℤ → ℤ
inc (pos n) = pos (suc n)
inc (negsuc zero) = pos 0
inc (negsuc (suc n)) = negsuc n

unfoldable pub dec : ℤ → ℤ
dec (pos zero) = negsuc 0
dec (pos (suc n)) = pos n
dec (negsuc n) = negsuc (suc n)

-- `m - n`
unfoldable pub minus : ℕ → ℕ → ℤ
minus m zero = pos m
minus zero (suc n) = negsuc n
minus (suc m) (suc n) = minus m n

inc-minus : (m n : ℕ) → inc (minus m n) ≡ minus (suc m) n
unfolding inc minus
inc-minus m zero = refl
inc-minus zero (suc zero) = refl
inc-minus zero (suc (suc n)) = refl
inc-minus (suc m) (suc n) = inc-minus m n

dec-minus : (m n : ℕ) → dec (minus m n) ≡ minus m (suc n)
unfolding dec minus
dec-minus zero zero = refl
dec-minus (suc m) zero = refl
dec-minus zero (suc n) = refl
dec-minus (suc m) (suc n) = dec-minus m n

minus-suc : (m n : ℕ) → minus (suc m) (suc n) ≡ minus m n
unfolding minus
minus-suc m n = refl

-- The requests that have come and have no upstream yet, those that have one, and those that have
-- ended without one; and the calls of `upstream_peer` for a request that had one, which a retry
-- makes.
pub record Requests : Type 0 where
  pub gauge : ℤ
  pub waiting : ℕ
  pub active : ℕ
  pub ended_early : ℕ
  pub retries : ℕ

-- pingora calls `logging` once for every request, when it has been answered or has failed.
pub data Change (s : Requests) : Requests → Type 0 where
  come : Change s (record s { waiting = s.waiting + 1 })
  peer_asked :
      0 < s.waiting
      → Change s (record s { gauge = inc s.gauge; waiting = s.waiting - 1; active = s.active + 1 })
  peer_asked_again :
      0 < s.active → Change s (record s { gauge = inc s.gauge; retries = s.retries + 1 })
  logged : 0 < s.active → Change s (record s { gauge = dec s.gauge; active = s.active - 1 })
  logged_early :
      0 < s.waiting
      → Change s (record s {
        gauge = dec s.gauge;
        waiting = s.waiting - 1;
        ended_early = s.ended_early + 1;
      })

pub data Changes : Requests → Type 0 where
  none_yet :
      Changes (record { gauge = pos 0; waiting = 0; active = 0; ended_early = 0; retries = 0 })
  after : {s t : Requests} → Changes s → Change s t → Changes t

ended-minus :
    (g : ℤ) (active rest early : ℕ)
    → 0 < active
    → g ≡ minus (active + rest) early
    → dec g ≡ minus (active - 1 + rest) early
ended-minus g active rest early some_active e =
    ap dec e
    ∙ (dec-minus (active + rest) early
        ∙ (ap (λ n. minus n (suc early)) (omega arith) ∙ minus-suc (active - 1 + rest) early))

-- The gauge is not the number of active requests: every request that ends without an upstream,
-- because it is answered or refused by the filter, is taken away though it was never added, and
-- every retry is added though only one is taken away. So the gauge is the number of active requests
-- and of retries, less the number of those that ended early, and with neither it is the number of
-- active requests.
pub Changes-gauge :
    (s : Requests) → Changes s → s.gauge ≡ minus (s.active + s.retries) s.ended_early
Changes-gauge s none_yet = unfold minus in refl
Changes-gauge s (after {s = u} before come) = Changes-gauge u before
Changes-gauge s (after {s = u} before (peer_asked waits)) =
    ap inc (Changes-gauge u before)
    ∙ (inc-minus (u.active + u.retries) u.ended_early
        ∙ ap (λ n. minus n u.ended_early) (omega arith))
Changes-gauge s (after {s = u} before (peer_asked_again runs)) =
    ap inc (Changes-gauge u before)
    ∙ (inc-minus (u.active + u.retries) u.ended_early
        ∙ ap (λ n. minus n u.ended_early) (omega arith))
Changes-gauge s (after {s = u} before (logged runs)) =
    ended-minus u.gauge u.active u.retries u.ended_early runs (Changes-gauge u before)
Changes-gauge s (after {s = u} before (logged_early waits)) =
    ap dec (Changes-gauge u before)
    ∙ (dec-minus (u.active + u.retries) u.ended_early
        ∙ ap (minus (u.active + u.retries)) (omega arith))
