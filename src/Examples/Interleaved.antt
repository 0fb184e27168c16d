-- ===== src/Examples/Interleaved.antt =====
-- Two tasks that ask for one decision at once.
use object_storage_proxy.Base.{
  ℕ, ◌+◌, ◌*◌, ◌<◌, ◌≡◌, ◌⊎◌, refl, true, none, some, [], ◌∷◌, arith, Bytes, codes, Assoc, lookup,
  insert, remove,
}
use object_storage_proxy.Authorization.{AuthEntry, decided, fresh, remember, add_ttl, second, panic}
use object_storage_proxy.Authorization.Tasks.{
  learned, served, answered, Pc, called, waiting, locked, asking, deciding, finished, Shared, hold,
  update, Move, call, miss, lock, hit_locked, ask, answer, write, System, pick, init, Reach, start,
  later,
}
use object_storage_proxy.Authorization.Tasks.Locking.{held_key, held_key_unique}
use object_storage_proxy.Authorization.Tasks.Honest.{Allowed, Reach-Allowed}
use object_storage_proxy.Authorization.Tasks.Progress.{moves_left, Reach-CanMove}
use object_storage_proxy.Base.{false, ◌^◌, ◌-◌}
use object_storage_proxy.Authorization.Tasks.{overflow, poison}
use object_storage_proxy.Authorization.Tasks.Poisoned.{done, never_expires-poisoned}
use object_storage_proxy.Examples.Decided.{unbounded}

abbrev k : Bytes
k = codes "AK:b:GET"

abbrev told_cache : Assoc AuthEntry
told_cache = (k, record { authorized = true; expires_at = 5 + 60 * second }) ∷ []

nothing : (now : ℕ) → fresh unbounded k now [] ≡ none
unfolding fresh lookup
nothing now = refl

told_stored : remember unbounded k 5 60 true [] ≡ some told_cache
unfolding remember add_ttl insert remove
told_stored = refl

told_fresh : fresh unbounded k 9 told_cache ≡ some true
unfolding fresh lookup
told_fresh = refl

abbrev s0 : System unbounded
s0 = init unbounded [] 5

r0 : Reach unbounded [] 5 s0
r0 = start

abbrev s1 : System unbounded
s1 = record { shared = s0.shared; pc = update 0 (called k 60) s0.pc }

r1 : Reach unbounded [] 5 s1
r1 = later r0 (pick 0 (call))

abbrev s2 : System unbounded
s2 = record { shared = s1.shared; pc = update 1 (called k 60) s1.pc }

r2 : Reach unbounded [] 5 s2
r2 = later r1 (pick 1 (call))

abbrev s3 : System unbounded
s3 = record { shared = s2.shared; pc = update 0 (waiting k 60) s2.pc }

r3 : Reach unbounded [] 5 s3
r3 = later r2 (pick 0 (miss {now = 5} refl (omega arith) (nothing 5)))

abbrev s4 : System unbounded
s4 = record { shared = s3.shared; pc = update 1 (waiting k 60) s3.pc }

r4 : Reach unbounded [] 5 s4
r4 = later r3 (pick 1 (miss {now = 6} refl (omega arith) (nothing 6)))

abbrev s5 : System unbounded
s5 = record {
  shared = record s4.shared { holder = hold k (some 0) s4.shared.holder };
  pc = update 0 (locked k 60) s4.pc;
}

r5 : Reach unbounded [] 5 s5
r5 = later r4 (pick 0 (lock refl))

abbrev s6 : System unbounded
s6 = record { shared = s5.shared; pc = update 0 (asking k 60) s5.pc }

r6 : Reach unbounded [] 5 s6
r6 = later r5 (pick 0 (ask {now = 7} refl (omega arith) (nothing 7)))

abbrev s7 : System unbounded
s7 = record { shared = s6.shared; pc = update 0 (deciding k 60 true) s6.pc }

r7 : Reach unbounded [] 5 s7
r7 = later r6 (pick 0 (answer))

abbrev s8 : System unbounded
s8 = record {
  shared = record s7.shared {
    cache = told_cache;
    holder = hold k none s7.shared.holder;
    events = answered k true ∷ learned k true (5 + 60 * second) ∷ [];
  };
  pc = update 0 (finished (decided true)) s7.pc;
}

r8 : Reach unbounded [] 5 s8
r8 = later r7 (pick 0 (write refl told_stored))

abbrev s9 : System unbounded
s9 = record {
  shared = record s8.shared { holder = hold k (some 1) s8.shared.holder };
  pc = update 1 (locked k 60) s8.pc;
}

r9 : Reach unbounded [] 5 s9
r9 = later r8 (pick 1 (lock refl))

abbrev s10 : System unbounded
s10 = record {
  shared = record s9.shared {
    holder = hold k none s9.shared.holder;
    events = served k true 9 ∷ s9.shared.events;
  };
  pc = update 1 (finished (decided true)) s9.pc;
}

r10 : Reach unbounded [] 5 s10
r10 = later r9 (pick 1 (hit_locked {now = 9} refl (omega arith) told_fresh))

held_key_unique_example : ◌≡◌ {A = ℕ} 0 0
held_key_unique_example = held_key_unique unbounded [] 5 s6 0 0 k r6 refl refl

Reach-CanMove_example :
    (j : ℕ) × (m : Shared (Assoc AuthEntry)) × (p : Pc) × Move unbounded j s6.shared (s6.pc j) m p
    × (moves_left p < moves_left (s6.pc j))
    × ((j ≡ 1)
        ⊎ ((key : Bytes) × (ttl : ℕ) × (waiting k 60 ≡ waiting key ttl)
            × (held_key (s6.pc j) ≡ some key)))
Reach-CanMove_example = Reach-CanMove unbounded [] 5 s6 1 r6 (omega arith)

Reach-Allowed_run :
    Allowed (served k true 9 ∷ answered k true ∷ learned k true (5 + 60 * second) ∷ [])
Reach-Allowed_run = Reach-Allowed unbounded [] 5 s10 (λ key. unfold lookup in refl) r10

abbrev answered_forever : Shared (Assoc AuthEntry)
answered_forever = record {
  cache = [];
  poisoned = false;
  holder = hold k (some 0) (λ j. none);
  clock = 5;
  events = [];
}

abbrev broken : System unbounded
broken = record {
  shared = record answered_forever {
    poisoned = true;
    holder = hold k none answered_forever.holder;
  };
  pc = update 0 (finished panic) (update 1 (called (codes "other") 60) (λ j. Pc.idle));
}

forever_panics : remember unbounded k 5 (2 ^ 64 - 1) true [] ≡ none
unfolding remember add_ttl
forever_panics = refl

never_expires-poisoned_example :
    (finished panic ≡ finished panic) × (finished panic ≡ finished panic)
never_expires-poisoned_example =
    never_expires-poisoned unbounded 0 1 broken broken answered_forever broken.shared
      (finished panic) (finished panic) k (codes "other") 60 true (overflow refl forever_panics)
      done (poison refl)
