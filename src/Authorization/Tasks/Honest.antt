-- ===== src/Authorization/Tasks/Honest.antt =====
-- Where the decisions of tasks come from: the tasks implement a service that only repeats what it
-- has been told.
use object_storage_proxy.Base.{◌≤◌, ◌⊎◌, Option}
use object_storage_proxy.Authorization.Tasks.{
  idle, called, waiting, locked, asking, deciding, finished,
}
use object_storage_proxy.Base.{
  ℕ, ◌+◌, ◌*◌, ◌<◌, ◌≡◌, ◌≢◌, inl, inr, refl, sym, subst, ◌∙◌, Bool, none, some, List, [], ◌∷◌,
  arith, Bytes, beq, beq_iff, Bool-cases, Option-cases,
}
use mathlib.Core.List.{Memᴰ}
use mathlib.Core.List.Memᴰ.{head, tail}
use object_storage_proxy.Authorization.{LruCache, AuthEntry, fresh, remember, add_ttl, second}
use object_storage_proxy.Authorization
use object_storage_proxy.Authorization.Tasks.{
  Event, learned, served, answered, Pc, Shared, Move, call, hit, miss, poison, lock, hit_locked,
  ask, poison_locked, fail, answer, write, overflow, poison_deciding, System, pick, tick, told,
  forgotten, Reach, start, later,
}

-- The service: it learns decisions, serves one that it has learned and that still holds, and
-- replies with one that it has learned.
pub data Allowed : List Event → Type 0 where
  none_yet : Allowed []
  teach :
      (key : Bytes) (b : Bool) (e : ℕ) {h : List Event} → Allowed h → Allowed (learned key b e ∷ h)
  serve :
      {key : Bytes} {b : Bool} (now e : ℕ) {h : List Event}
      → Memᴰ (learned key b e) h
      → now < e
      → Allowed h
      → Allowed (served key b now ∷ h)
  reply :
      {key : Bytes} {b : Bool} (e : ℕ) {h : List Event}
      → Memᴰ (learned key b e) h
      → Allowed h
      → Allowed (answered key b ∷ h)

-- The key that a task has been called for.
abbrev pub asked_key : Pc → Option Bytes
asked_key idle = none
asked_key (called key ttl) = some key
asked_key (waiting key ttl) = some key
asked_key (locked key ttl) = some key
asked_key (asking key ttl) = some key
asked_key (deciding key ttl b) = some key
asked_key (finished v) = none

module _ {C : Type 0} (lru : LruCache C) where
  -- An entry of the cache has been learned.
  abbrev pub Cached : C → List Event → Type 0
  Cached cache events =
      (key : Bytes) (entry : AuthEntry)
      → lru.peek key cache ≡ some entry
      → Memᴰ (learned key entry.authorized entry.expires_at) events

  fresh-learned :
      (key : Bytes) (now : ℕ) (b : Bool) (cache : C) (events : List Event)
      → Cached cache events
      → fresh lru key now cache ≡ some b
      → (e : ℕ) × Memᴰ (learned key b e) events × (now < e)
  unfolding fresh
  fresh-learned key now b cache events cached h = elim (Option-cases (lru.peek key cache)) [
    | inl missing ↦ ground (arith, missing)
    | inr (entry, found) ↦ (
      entry.expires_at,
      subst (λ a. Memᴰ (learned key a entry.expires_at) events) (ground (arith, found))
          (cached key entry found),
      ground (arith, found),
    )
  ]

  put-Cached :
      (key : Bytes) (entry : AuthEntry) (cache : C) (events : List Event)
      → Cached cache events
      → Cached (lru.put key entry cache) (learned key entry.authorized entry.expires_at ∷ events)
  put-Cached key entry cache events cached k found_entry found = elim (Bool-cases (beq key k)) [
    | inl yes_same ↦
        let same : key ≡ k = (beq_iff key k).0 yes_same in
        let put_there : entry ≡ found_entry =
          ground (arith, same, found, lru.peek-put_self key entry cache) in
        head (cc)
    | inr differs ↦
        let ne : key ≢ k = (λ e. ground (arith, differs, e, beq_iff key k)) in
        elim (lru.peek-put_ne key k entry cache ne) [
          | inl same ↦ tail (cached k found_entry (sym same ∙ found))
          | inr gone ↦ ground (arith, gone, found)
        ]
  ]

  remember-Cached :
      (key : Bytes) (now ttl : ℕ) (b : Bool) (cache cache' : C) (events : List Event)
      → Cached cache events
      → remember lru key now ttl b cache ≡ some cache'
      → Cached cache' (learned key b (now + ttl * second) ∷ events)
  unfolding remember add_ttl
  remember-Cached key now ttl b cache cache' events cached h =
      let entry : AuthEntry = record { authorized = b; expires_at = now + ttl * second } in
      let put : lru.put key entry cache ≡ cache' = ground arith in
      subst (λ c. Cached c (learned key b (now + ttl * second) ∷ events)) put
        (put-Cached key entry cache events cached)

  invalidate-Cached :
      (key : Bytes) (cache : C) (events : List Event)
      → Cached cache events
      → Cached (Authorization.invalidate lru key cache) events
  unfolding Authorization.invalidate
  invalidate-Cached key cache events cached k entry found = elim (Bool-cases (beq key k)) [
    | inl yes_same ↦ ground (arith, found, beq_iff key k, yes_same, lru.peek-pop_self key cache)
    | inr differs ↦
        let ne : key ≢ k = (λ e. ground (arith, differs, e, beq_iff key k)) in
        cached k entry (sym (lru.peek-pop_ne key k cache ne) ∙ found)
  ]

  -- More events take nothing away.
  Cached-cons :
      (cache : C) (e : Event) (events : List Event)
      → Cached cache events
      → Cached cache (e ∷ events)
  Cached-cons cache e events cached k entry found = tail (cached k entry found)

  abbrev pub Honest : Shared C → Type 0
  Honest m = Allowed m.events × Cached m.cache m.events

  served-Honest :
      (key : Bytes) (now : ℕ) (b : Bool) (m : Shared C)
      → fresh lru key now m.cache ≡ some b
      → Honest m
      → Honest (record m { events = served key b now ∷ m.events })
  served-Honest key now b m found (allowed, cached) =
      let (e, there, early) = fresh-learned key now b m.cache m.events cached found in
      (serve now e there early allowed, Cached-cons m.cache _ m.events cached)

  Move-Honest : (i : ℕ) (m m' : Shared C) (p p' : Pc) → Move lru i m p m' p' → Honest m → Honest m'
  Move-Honest i m m' p p' call h = h
  Move-Honest i m m' p p' (hit {key} {ttl} {now} {b} a c found) h =
      served-Honest key now b m found h
  Move-Honest i m m' p p' (miss a b c) h = h
  Move-Honest i m m' p p' (poison a) h = h
  Move-Honest i m m' p p' (lock free) h = h
  Move-Honest i m m' p p' (hit_locked {key} {ttl} {now} {b} a c found) h =
      served-Honest key now b m found h
  Move-Honest i m m' p p' (ask a b c) h = h
  Move-Honest i m m' p p' (poison_locked a) h = h
  Move-Honest i m m' p p' fail h = h
  Move-Honest i m m' p p' answer h = h
  Move-Honest i m m' p p' (write {key} {ttl} {b} {cache} a put) (allowed, cached) = (
    reply (m.clock + ttl * second) (head refl) (teach key b (m.clock + ttl * second) allowed),
    Cached-cons cache _ _ (remember-Cached key m.clock ttl b m.cache cache m.events cached put),
  )
  Move-Honest i m m' p p' (overflow a b) h = h
  Move-Honest i m m' p p' (poison_deciding a) h = h

  Reach-Honest :
      (empty : C) (clock : ℕ) (s : System lru)
      → ((key : Bytes) → lru.peek key empty ≡ none)
      → Reach lru empty clock s
      → Honest s.shared
  Reach-Honest empty clock s nothing start =
      (none_yet, λ key entry found. ground (arith, nothing key, found))
  Reach-Honest empty clock s nothing (later {s = t} r (pick i {m} {p} move)) =
      Move-Honest i t.shared m (t.pc i) p move (Reach-Honest empty clock t nothing r)
  Reach-Honest empty clock s nothing (later {s = t} r (tick now h)) =
      Reach-Honest empty clock t nothing r
  Reach-Honest empty clock s nothing (later {s = t} r (told key ttl b {cache} h put)) =
      let (allowed, cached) = Reach-Honest empty clock t nothing r in
      (
        teach key b _ allowed,
        remember-Cached key t.shared.clock ttl b t.shared.cache cache t.shared.events cached
            (unfold Authorization.insert in put),
      )
  Reach-Honest empty clock s nothing (later {s = t} r (forgotten key h)) =
      let (allowed, cached) = Reach-Honest empty clock t nothing r in
      (allowed, invalidate-Cached key t.shared.cache t.shared.events cached)

  -- What the service has answered, in any state.
  pub Reach-Allowed :
      (empty : C) (clock : ℕ) (s : System lru)
      → ((key : Bytes) → lru.peek key empty ≡ none)
      → Reach lru empty clock s
      → Allowed s.shared.events
  Reach-Allowed empty clock s nothing r = (Reach-Honest empty clock s nothing r).0

  -- A task that stands at `p` returns `b` for `key`: it has been learned for this key; and it is the
  -- validator's answer to the task's own call, or it still holds at a reading of the clock that is
  -- not before the time of the step.
  abbrev pub Returned : Bytes → Bool → Shared C → Pc → Shared C → Type 0
  Returned key b m p m' =
      (e : ℕ) × Memᴰ (learned key b e) m'.events
      × (((ttl : ℕ) × (p ≡ deciding key ttl b)) ⊎ ((now : ℕ) × (m.clock ≤ now) × (now < e)))
