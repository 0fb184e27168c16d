-- ===== src/Authorization/Tasks/Locking.antt =====
-- The lock of a key, in every state that the tasks can reach.
use object_storage_proxy.Base.{
  ℕ, ◌≡◌, refl, sym, ap, ◌∙◌, Option, none, some, arith, Bytes, beq_iff,
}
use object_storage_proxy.Authorization.{LruCache}
use object_storage_proxy.Authorization.Tasks.{
  Pc, idle, called, waiting, locked, asking, deciding, finished, Shared, hold, update, Move, call,
  hit, miss, poison, lock, hit_locked, ask, poison_locked, fail, answer, write, overflow,
  poison_deciding, System, pick, tick, told, forgotten, Reach, start, later,
}

-- The key whose lock a task has.
abbrev pub held_key : Pc → Option Bytes
held_key idle = none
held_key (called key ttl) = none
held_key (waiting key ttl) = none
held_key (locked key ttl) = some key
held_key (asking key ttl) = some key
held_key (deciding key ttl b) = some key
held_key (finished v) = none

-- A lock has the owner that holds it.
abbrev pub LocksAgree : (Bytes → Option ℕ) → (ℕ → Pc) → Type 0
LocksAgree holder pc =
    ((i : ℕ) (key : Bytes) → held_key (pc i) ≡ some key → holder key ≡ some i)
    × ((i : ℕ) (key : Bytes) → holder key ≡ some i → held_key (pc i) ≡ some key)

-- What a move does to the locks: nothing, or it takes one, or it gives one back.
pub data Locking (i : ℕ) (holder holder' : Bytes → Option ℕ) (p p' : Pc) : Type 0 where
  kept : held_key p' ≡ held_key p → holder' ≡ holder → Locking i holder holder' p p'
  taken :
      (key : Bytes)
      → held_key p ≡ none
      → held_key p' ≡ some key
      → holder key ≡ none
      → holder' ≡ hold key (some i) holder
      → Locking i holder holder' p p'
  freed :
      (key : Bytes)
      → held_key p ≡ some key
      → held_key p' ≡ none
      → holder' ≡ hold key none holder
      → Locking i holder holder' p p'

Locking-LocksAgree :
    (i : ℕ) (holder holder' : Bytes → Option ℕ) (pc : ℕ → Pc) (p' : Pc)
    → Locking i holder holder' (pc i) p'
    → LocksAgree holder pc
    → LocksAgree holder' (update i p' pc)
Locking-LocksAgree i holder holder' pc p' (kept same same') (owns, held) = (
  λ j key h. ground (arith, ap (λ f. f key) same', owns j key, owns i key, held j key),
  λ j key h. ground (arith, ap (λ f. f key) same', owns j key, held j key, held i key),
)
Locking-LocksAgree i holder holder' pc p' (taken k before after free same) (owns, held) = (
  λ j key h. ground (arith, ap (λ f. f key) same, owns j key, owns j k, beq_iff k key),
  λ j key h. ground (arith, ap (λ f. f key) same, held j key, held i key, beq_iff k key),
)
Locking-LocksAgree i holder holder' pc p' (freed k before after same) (owns, held) = (
  λ j key h. ground (arith, ap (λ f. f key) same, owns j key, owns i k, beq_iff k key),
  λ j key h. ground (arith, ap (λ f. f key) same, held j key, held i key, beq_iff k key),
)

module _ {C : Type 0} (lru : LruCache C) where
  Move-Locking :
      (i : ℕ) (m m' : Shared C) (p p' : Pc)
      → Move lru i m p m' p'
      → Locking i m.holder m'.holder p p'
  Move-Locking i m m' p p' call = kept refl refl
  Move-Locking i m m' p p' (hit a b c) = kept refl refl
  Move-Locking i m m' p p' (miss a b c) = kept refl refl
  Move-Locking i m m' p p' (poison a) = kept refl refl
  Move-Locking i m m' p p' (lock {key} free) = taken key refl refl free refl
  Move-Locking i m m' p p' (hit_locked {key} a b c) = freed key refl refl refl
  Move-Locking i m m' p p' (ask a b c) = kept refl refl
  Move-Locking i m m' p p' (poison_locked {key} a) = freed key refl refl refl
  Move-Locking i m m' p p' (fail {key}) = freed key refl refl refl
  Move-Locking i m m' p p' answer = kept refl refl
  Move-Locking i m m' p p' (write {key} a b) = freed key refl refl refl
  Move-Locking i m m' p p' (overflow {key} a b) = freed key refl refl refl
  Move-Locking i m m' p p' (poison_deciding {key} a) = freed key refl refl refl

  pub Reach-LocksAgree :
      (empty : C) (clock : ℕ) (s : System lru)
      → Reach lru empty clock s
      → LocksAgree s.shared.holder s.pc
  Reach-LocksAgree empty clock s start = ((λ i key h. cc), (λ i key h. cc))
  Reach-LocksAgree empty clock s (later {s = t} r (pick i {m} {p} move)) =
      Locking-LocksAgree i t.shared.holder m.holder t.pc p
        (Move-Locking i t.shared m (t.pc i) p move) (Reach-LocksAgree empty clock t r)
  Reach-LocksAgree empty clock s (later r (tick now h)) = Reach-LocksAgree empty clock _ r
  Reach-LocksAgree empty clock s (later r (told key ttl b h h')) = Reach-LocksAgree empty clock _ r
  Reach-LocksAgree empty clock s (later r (forgotten key h)) = Reach-LocksAgree empty clock _ r

  -- At most one task at a time has the lock of a key: only one call of the validator for a key is
  -- under way, however many tasks ask for it at once.
  pub held_key_unique :
      (empty : C) (clock : ℕ) (s : System lru) (i j : ℕ) (key : Bytes)
      → Reach lru empty clock s
      → held_key (s.pc i) ≡ some key
      → held_key (s.pc j) ≡ some key
      → i ≡ j
  held_key_unique empty clock s i j key r hi hj =
      let (owns, _) = Reach-LocksAgree empty clock s r in
      let e : some i ≡ some j = sym (owns i key hi) ∙ owns j key hj in cc
