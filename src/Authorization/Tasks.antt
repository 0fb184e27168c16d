-- ===== src/Authorization/Tasks.antt =====
-- `AuthCache::get_or_validate` of utils/validator.rs as tasks that run at once: a lock for each key,
-- and a lock of the cache that a panic poisons.
pub mod Locking
pub mod Honest
pub mod Progress
pub mod Poisoned
use object_storage_proxy.Base.{
  ℕ, ◌+◌, ◌*◌, ◌≤◌, ◌<◌, ◌≡◌, Bool, true, false, Option, none, some, List, [], ◌∷◌, if◌then◌else◌,
  ◌==◌, Bytes, beq,
}
use object_storage_proxy.Authorization.{
  LruCache, Verdict, decided, failed, panic, fresh, remember, second,
}
use object_storage_proxy.Authorization

-- A decision that the cache has been told, and until when it holds; one that a task takes from the
-- cache, and when; and one that a task has from its own call of the validator.
pub data Event : Type 0 where
  learned : Bytes → Bool → ℕ → Event
  served : Bytes → Bool → ℕ → Event
  answered : Bytes → Bool → Event

-- What the tasks share. `holder` says which task has the lock of a key. The events are those so
-- far, the last first.
pub record Shared (C : Type 0) : Type 0 where
  pub cache : C
  pub poisoned : Bool
  pub holder : Bytes → Option ℕ
  pub clock : ℕ
  pub events : List Event

-- Where a task stands, with its key and its time to live.
pub data Pc : Type 0 where
  idle : Pc
  called : Bytes → ℕ → Pc
  waiting : Bytes → ℕ → Pc
  locked : Bytes → ℕ → Pc
  asking : Bytes → ℕ → Pc
  deciding : Bytes → ℕ → Bool → Pc
  finished : Verdict → Pc

-- The lock of one key.
abbrev pub hold : Bytes → Option ℕ → (Bytes → Option ℕ) → Bytes → Option ℕ
hold key owner holder k = if beq key k then owner else holder k

abbrev pub update : ℕ → Pc → (ℕ → Pc) → ℕ → Pc
update i p pc j = if i == j then p else pc j

module _ {C : Type 0} (lru : LruCache C) where
  -- A task that ends gives the lock of its key back.
  abbrev pub release : Bytes → Shared C → Shared C
  release key m = record m { holder = hold key none m.holder }

  -- One step of the task `i`. The cache is read before the clock, so that the time may be later
  -- than that of the read.
  pub data Move (i : ℕ) (m : Shared C) : Pc → Shared C → Pc → Type 0 where
    call : {key : Bytes} {ttl : ℕ} → Move i m idle m (called key ttl)
    hit :
        {key : Bytes} {ttl now : ℕ} {b : Bool}
        → m.poisoned ≡ false
        → m.clock ≤ now
        → fresh lru key now m.cache ≡ some b
        → Move i m
            (called key ttl)
            (record m { events = served key b now ∷ m.events })
            (finished (decided b))
    miss :
        {key : Bytes} {ttl now : ℕ}
        → m.poisoned ≡ false
        → m.clock ≤ now
        → fresh lru key now m.cache ≡ none
        → Move i m (called key ttl) m (waiting key ttl)
    poison :
        {key : Bytes} {ttl : ℕ} → m.poisoned ≡ true → Move i m (called key ttl) m (finished panic)
    lock :
        {key : Bytes} {ttl : ℕ}
        → m.holder key ≡ none
        → Move i m
            (waiting key ttl)
            (record m { holder = hold key (some i) m.holder })
            (locked key ttl)
    hit_locked :
        {key : Bytes} {ttl now : ℕ} {b : Bool}
        → m.poisoned ≡ false
        → m.clock ≤ now
        → fresh lru key now m.cache ≡ some b
        → Move i m
            (locked key ttl)
            (release key (record m { events = served key b now ∷ m.events }))
            (finished (decided b))
    ask :
        {key : Bytes} {ttl now : ℕ}
        → m.poisoned ≡ false
        → m.clock ≤ now
        → fresh lru key now m.cache ≡ none
        → Move i m (locked key ttl) m (asking key ttl)
    poison_locked :
        {key : Bytes} {ttl : ℕ}
        → m.poisoned ≡ true
        → Move i m (locked key ttl) (release key m) (finished panic)
    fail : {key : Bytes} {ttl : ℕ} → Move i m (asking key ttl) (release key m) (finished failed)
    answer : {key : Bytes} {ttl : ℕ} {b : Bool} → Move i m (asking key ttl) m (deciding key ttl b)
    write :
        {key : Bytes} {ttl : ℕ} {b : Bool} {cache : C}
        → m.poisoned ≡ false
        → remember lru key m.clock ttl b m.cache ≡ some cache
        → Move i m
            (deciding key ttl b)
            (release key (record m {
              cache = cache;
              events = answered key b ∷ learned key b (m.clock + ttl * second) ∷ m.events;
            }))
            (finished (decided b))
    overflow :
        {key : Bytes} {ttl : ℕ} {b : Bool}
        → m.poisoned ≡ false
        → remember lru key m.clock ttl b m.cache ≡ none
        → Move i m
            (deciding key ttl b)
            (release key (record m { poisoned = true }))
            (finished panic)
    poison_deciding :
        {key : Bytes} {ttl : ℕ} {b : Bool}
        → m.poisoned ≡ true
        → Move i m (deciding key ttl b) (release key m) (finished panic)

  pub record System : Type 0 where
    pub shared : Shared C
    pub pc : ℕ → Pc

  -- A task moves, time passes, or another part of the program tells the cache a decision, or takes
  -- one from it.
  pub data Step (s : System) : System → Type 0 where
    pick :
        (i : ℕ) {m : Shared C} {p : Pc}
        → Move i s.shared (s.pc i) m p
        → Step s (record { shared = m; pc = update i p s.pc })
    tick :
        (later : ℕ)
        → s.shared.clock ≤ later
        → Step s (record s { shared = record s.shared { clock = later } })
    told :
        (key : Bytes) (ttl : ℕ) (b : Bool) {cache : C}
        → s.shared.poisoned ≡ false
        → Authorization.insert lru key b ttl s.shared.clock s.shared.cache ≡ some cache
        → Step s (record s {
          shared = record s.shared {
            cache = cache;
            events = learned key b (s.shared.clock + ttl * second) ∷ s.shared.events;
          };
        })
    forgotten :
        (key : Bytes)
        → s.shared.poisoned ≡ false
        → Step s (record s {
          shared = record s.shared { cache = Authorization.invalidate lru key s.shared.cache };
        })

  -- Before any call, with an empty cache.
  abbrev pub init : C → ℕ → System
  init empty clock = record {
    shared = record {
      cache = empty;
      poisoned = false;
      holder = λ k. none;
      clock = clock;
      events = [];
    };
    pc = λ i. idle;
  }

  pub data Reach (empty : C) (clock : ℕ) : System → Type 0 where
    start : Reach empty clock (init empty clock)
    later : {s t : System} → Reach empty clock s → Step s t → Reach empty clock t
