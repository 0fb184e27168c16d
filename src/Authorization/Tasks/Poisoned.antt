-- ===== src/Authorization/Tasks/Poisoned.antt =====
-- A panic while the cache is written.
use object_storage_proxy.Base.{ℕ, ◌-◌, ◌^◌, ◌≡◌, refl, Bool, true, arith, Bytes}
use object_storage_proxy.Authorization.{LruCache, panic, remember, add_ttl}
use object_storage_proxy.Authorization.Tasks.{
  Pc, called, deciding, finished, Shared, Move, call, hit, miss, poison, lock, hit_locked, ask,
  poison_locked, fail, answer, write, overflow, poison_deciding, System, Step, pick, tick, told,
  forgotten,
}

module _ {C : Type 0} (lru : LruCache C) where
  -- Any number of steps.
  pub data Steps (s : System lru) : System lru → Type 0 where
    done : Steps s s
    more : {t u : System lru} → Steps s t → Step lru t u → Steps s u

  Move-poisoned :
      (i : ℕ) (m m' : Shared C) (p p' : Pc)
      → Move lru i m p m' p'
      → m.poisoned ≡ true
      → m'.poisoned ≡ true
  Move-poisoned i m m' p p' call h = h
  Move-poisoned i m m' p p' (hit a b c) h = h
  Move-poisoned i m m' p p' (miss a b c) h = h
  Move-poisoned i m m' p p' (poison a) h = h
  Move-poisoned i m m' p p' (lock free) h = h
  Move-poisoned i m m' p p' (hit_locked a b c) h = h
  Move-poisoned i m m' p p' (ask a b c) h = h
  Move-poisoned i m m' p p' (poison_locked a) h = h
  Move-poisoned i m m' p p' fail h = h
  Move-poisoned i m m' p p' answer h = h
  Move-poisoned i m m' p p' (write a b) h = h
  Move-poisoned i m m' p p' (overflow a b) h = refl
  Move-poisoned i m m' p p' (poison_deciding a) h = h

  Steps-poisoned :
      (s t : System lru) → Steps s t → s.shared.poisoned ≡ true → t.shared.poisoned ≡ true
  Steps-poisoned s t done h = h
  Steps-poisoned s t (more {t = u} before (pick i {m} {p} move)) h =
      Move-poisoned i u.shared m (u.pc i) p move (Steps-poisoned s u before h)
  Steps-poisoned s t (more {t = u} before (tick later c)) h = Steps-poisoned s u before h
  Steps-poisoned s t (more {t = u} before (told key ttl b c put)) h = Steps-poisoned s u before h
  Steps-poisoned s t (more {t = u} before (forgotten key c)) h = Steps-poisoned s u before h

  -- The write of a decision without an expiry fails.
  deciding-overflow :
      (i : ℕ) (key : Bytes) (b : Bool) (m m' : Shared C) (p' : Pc)
      → Move lru i m (deciding key (2 ^ 64 - 1) b) m' p'
      → (m'.poisoned ≡ true) × (p' ≡ finished panic)
  unfolding remember add_ttl
  deciding-overflow i key b m m' p' (write sound put) = ground (arith, put)
  deciding-overflow i key b m m' p' (overflow sound put) = (refl, refl)
  deciding-overflow i key b m m' p' (poison_deciding a) = (a, refl)

  called-poisoned :
      (i : ℕ) (m m' : Shared C) (p' : Pc) (key : Bytes) (ttl : ℕ)
      → m.poisoned ≡ true
      → Move lru i m (called key ttl) m' p'
      → p' ≡ finished panic
  called-poisoned i m m' p' key ttl h (hit sound b c) = cc
  called-poisoned i m m' p' key ttl h (miss sound b c) = cc
  called-poisoned i m m' p' key ttl h (poison a) = refl

  -- One bucket whose time to live is the largest u64, which stands for "no expiry" in the
  -- documentation, takes the cache down: a task that has the validator's answer for it can only
  -- end in a panic, and after that every call for any key, in any later state, ends in a panic.
  pub never_expires-poisoned :
      (i j : ℕ) (s t : System lru) (m m' : Shared C) (p p' : Pc) (key other : Bytes) (ttl : ℕ)
      (b : Bool)
      → Move lru i m (deciding key (2 ^ 64 - 1) b) s.shared p
      → Steps s t
      → Move lru j t.shared (called other ttl) m' p'
      → (p ≡ finished panic) × (p' ≡ finished panic)
  never_expires-poisoned i j s t m m' p p' key other ttl b written steps call' =
      let (broken, panics) = deciding-overflow i key b m s.shared p written in
      (panics, called-poisoned j t.shared m' p' other ttl (Steps-poisoned s t steps broken) call')
