-- ===== src/MutexFile/Serial.antt =====
-- Threads on one object of src/util/mutex_file.cc: what they leave is what their operations leave one
-- after the other.
use cbb.Prelude.{ℕ, Bool, true, false, ◌≡◌, refl, List, [], ◌∷◌, Option, none, some, ◌==◌, arith}
use cbb.Posix.{Posix}
use cbb.MutexFile.{
  Operation, Value, Shared, Phase, outside, waiting, locked, running, ended, Run, start, Step, call,
  lock, begin, finish, unlock, Reach, here, next, perform,
}

module _ (P : Posix) where
  -- The operations, from the last one back to the first, lead one after the other from `x` to `y`,
  -- each returning its value.
  pub Replays : List (ℕ × Operation × Value) → Shared P → Shared P → Type 0
  Replays [] x y = y ≡ x
  Replays ((t, op, v) ∷ log) x y =
      (mid : Shared P) × Replays log x mid × (perform P op mid ≡ some (v, y))

  -- Between Lock and Unlock.
  abbrev pub is_inside : Phase P → Bool
  is_inside outside = false
  is_inside (waiting op) = false
  is_inside (locked op) = true
  is_inside (running op x) = true
  is_inside (ended v) = true

  -- Whether the mutex is held by a thread.
  abbrev pub is_owner : ℕ → Option ℕ → Bool
  is_owner t none = false
  is_owner t (some k) = t == k

  record Good (x : Shared P) (r : Run P) : Type 0 where
    inside : (t : ℕ) → is_inside (r.phase t) ≡ is_owner t r.owner
    current : (t : ℕ) (op : Operation) (y : Shared P) → r.phase t ≡ running op y → y ≡ r.shared
    replays : Replays r.log x r.shared

  Step-Good : {x : Shared P} {r u : Run P} → Step P r u → Good x r → Good x u
  unfolding Replays
  Step-Good (call r t op h) g = record {
    inside = λ k. ground (arith, g.inside k, g.inside t);
    current = λ k o y i. ground (arith, g.current k o y);
    replays = g.replays;
  }
  Step-Good (lock r t op h free) g = record {
    inside = λ k. ground (arith, g.inside k, g.inside t);
    current = λ k o y i. ground (arith, g.current k o y);
    replays = g.replays;
  }
  Step-Good (begin r t op h) g = record {
    inside = λ k. ground (arith, g.inside k, g.inside t);
    current = λ k o y i. ground (arith, g.current k o y);
    replays = g.replays;
  }
  Step-Good {x} (finish r t op z y v h e) g = record {
    inside = λ k. ground (arith, g.inside k, g.inside t);
    current = λ k o w i. ground (arith, g.inside k, g.inside t);
    replays = (z, rw (g.current t op z h) g.replays, e);
  }
  Step-Good (unlock r t v h) g = record {
    inside = λ k. ground (arith, g.inside k, g.inside t);
    current = λ k o y i. ground (arith, g.current k o y);
    replays = g.replays;
  }

  Reach-Good : {x : Shared P} {r : Run P} → Reach P (start P x) r → Good x r
  unfolding Replays
  Reach-Good here = record { inside = λ t. refl; current = λ t op y e. cc; replays = refl }
  Reach-Good (next more st) = Step-Good st (Reach-Good more)

  -- However the threads come between one another, a thread is between Lock and Unlock exactly when it
  -- holds the mutex, and the object and the storages are what the operations that have ended leave
  -- when they are done one after the other, in the order of their ends, each returning what it
  -- returned.
  pub serial :
      (x : Shared P) (r : Run P) (t : ℕ)
      → Reach P (start P x) r
      → (is_inside (r.phase t) ≡ is_owner t r.owner) × Replays r.log x r.shared
  serial x r t reach = let good = Reach-Good reach in (good.inside t, good.replays)
