-- ===== src/Authorization/Tasks/Progress.antt =====
-- A call of `get_or_validate` comes to its end.
use object_storage_proxy.Base.{
  ℕ, ◌<◌, ◌≡◌, ◌⊎◌, inl, inr, refl, some, [], arith, Bytes, Bool-cases, Option-cases,
}
use object_storage_proxy.Authorization.{LruCache, fresh, remember}
use object_storage_proxy.Authorization.Tasks.{
  Pc, idle, called, waiting, locked, asking, deciding, finished, Shared, Move, call, hit, miss,
  poison, lock, hit_locked, ask, poison_locked, fail, answer, write, overflow, poison_deciding,
  System, Reach,
}
use object_storage_proxy.Authorization.Tasks.Locking.{held_key, Reach-LocksAgree}

-- The moves that a task has left, at most.
abbrev pub moves_left : Pc → ℕ
moves_left idle = 6
moves_left (called key ttl) = 5
moves_left (waiting key ttl) = 4
moves_left (locked key ttl) = 3
moves_left (asking key ttl) = 2
moves_left (deciding key ttl b) = 1
moves_left (finished v) = 0

none_below : 0 < 0 → ⊥
none_below h = omega arith

module _ {C : Type 0} (lru : LruCache C) where
  Move-moves_left :
      (i : ℕ) (m m' : Shared C) (p p' : Pc) → Move lru i m p m' p' → moves_left p' < moves_left p
  Move-moves_left i m m' p p' call = omega arith
  Move-moves_left i m m' p p' (hit a b c) = omega arith
  Move-moves_left i m m' p p' (miss a b c) = omega arith
  Move-moves_left i m m' p p' (poison a) = omega arith
  Move-moves_left i m m' p p' (lock free) = omega arith
  Move-moves_left i m m' p p' (hit_locked a b c) = omega arith
  Move-moves_left i m m' p p' (ask a b c) = omega arith
  Move-moves_left i m m' p p' (poison_locked a) = omega arith
  Move-moves_left i m m' p p' fail = omega arith
  Move-moves_left i m m' p p' answer = omega arith
  Move-moves_left i m m' p p' (write a b) = omega arith
  Move-moves_left i m m' p p' (overflow a b) = omega arith
  Move-moves_left i m m' p p' (poison_deciding a) = omega arith

  -- Some move of the task.
  abbrev pub CanMove : ℕ → Shared C → Pc → Type 0
  CanMove i m p = (m' : Shared C) × (p' : Pc) × Move lru i m p m' p'

  -- A task with a lock can always move.
  holder-CanMove :
      (i : ℕ) (m : Shared C) (p : Pc) (key : Bytes) → held_key p ≡ some key → CanMove i m p
  holder-CanMove i m idle key h = cc
  holder-CanMove i m (called k ttl) key h = cc
  holder-CanMove i m (waiting k ttl) key h = cc
  holder-CanMove i m (locked k ttl) key h = elim (Bool-cases m.poisoned) [
    | inl poisoned ↦ (_, _, poison_locked poisoned)
    | inr sound ↦ elim (Option-cases (fresh lru k m.clock m.cache)) [
      | inl missed ↦ (_, _, ask {now = m.clock} sound (omega arith) missed)
      | inr (b, found) ↦ (_, _, hit_locked {now = m.clock} sound (omega arith) found)
    ]
  ]
  holder-CanMove i m (asking k ttl) key h = (_, _, fail)
  holder-CanMove i m (deciding k ttl b) key h = elim (Bool-cases m.poisoned) [
    | inl poisoned ↦ (_, _, poison_deciding poisoned)
    | inr sound ↦ elim (Option-cases (remember lru k m.clock ttl b m.cache)) [
      | inl missed ↦ (_, _, overflow sound missed)
      | inr (cache, put) ↦ (_, _, write sound put)
    ]
  ]
  holder-CanMove i m (finished v) key h = cc

  -- Any other task that has not ended can move, unless it waits for a lock that is taken.
  task-CanMove :
      (i : ℕ) (m : Shared C) (p : Pc)
      → 0 < moves_left p
      → CanMove i m p
        ⊎ ((key : Bytes) × (ttl j : ℕ) × (p ≡ waiting key ttl) × (m.holder key ≡ some j))
  task-CanMove i m idle h = inl (_, _, call {key = []} {ttl = 0})
  task-CanMove i m (called k ttl) h = elim (Bool-cases m.poisoned) [
    | inl poisoned ↦ inl (_, _, poison poisoned)
    | inr sound ↦ elim (Option-cases (fresh lru k m.clock m.cache)) [
      | inl missed ↦ inl (_, _, miss {now = m.clock} sound (omega arith) missed)
      | inr (b, found) ↦ inl (_, _, hit {now = m.clock} sound (omega arith) found)
    ]
  ]
  task-CanMove i m (waiting k ttl) h = elim (Option-cases (m.holder k)) [
    | inl free ↦ inl (_, _, lock free)
    | inr (j, taken) ↦ inr (k, ttl, j, refl, taken)
  ]
  task-CanMove i m (locked k ttl) h = inl (holder-CanMove i m (locked k ttl) k refl)
  task-CanMove i m (asking k ttl) h = inl (holder-CanMove i m (asking k ttl) k refl)
  task-CanMove i m (deciding k ttl b) h = inl (holder-CanMove i m (deciding k ttl b) k refl)
  task-CanMove i m (finished v) h = absurd (none_below h)

  -- The tasks cannot block one another: in every state that they reach, a task that has not ended
  -- can move, or it waits for the lock of a key and the task that has this lock can move; and with
  -- that move a task has fewer left, of the six that it has before its call. The validator is taken
  -- to return or to fail.
  pub Reach-CanMove :
      (empty : C) (clock : ℕ) (s : System lru) (i : ℕ)
      → Reach lru empty clock s
      → 0 < moves_left (s.pc i)
      → (j : ℕ) × (m : Shared C) × (p : Pc) × Move lru j s.shared (s.pc j) m p
        × (moves_left p < moves_left (s.pc j))
        × ((j ≡ i)
            ⊎ ((key : Bytes) × (ttl : ℕ) × (s.pc i ≡ waiting key ttl)
                × (held_key (s.pc j) ≡ some key)))
  Reach-CanMove empty clock s i r unfinished = elim (task-CanMove i s.shared (s.pc i) unfinished) [
    | inl (m, p, move) ↦ (i, m, p, move, Move-moves_left i s.shared m (s.pc i) p move, inl refl)
    | inr (key, ttl, j, waits, taken) ↦
        let (_, held) = Reach-LocksAgree lru empty clock s r in
        let (m, p, move) = holder-CanMove j s.shared (s.pc j) key (held j key taken) in
        (
          j,
          m,
          p,
          move,
          Move-moves_left j s.shared m (s.pc j) p move,
          inr (key, ttl, waits, held j key taken),
        )
  ]
