-- ===== src/ThreadLoop.antt =====
-- src/util/thread.cc: Thread::Create starts the thread before it sets `is_loop`, which the loop of
-- the new thread tests first. The two threads are interleaved, one access of `is_loop` at a time.
pub mod Interval
use cbb.Prelude.{◌∙◌, ◌≢◌, ℕ, ◌+◌, ◌≡◌, refl, Bool, true, false, arith}

-- Where the caller of Create stands: after Release, after pthread_create, after the assignments.
pub data Creator : Type 0 where
  released spawned finished : Creator

-- Where Thread::Threading stands: not started, before a test of the loop, in its body, returned.
pub data Worker : Type 0 where
  absent testing calling returned : Worker

pub record Threads : Type 0 where
  pub creator : Creator
  pub worker : Worker
  pub is_loop : Bool
  pub calls : ℕ

-- Release has cleared `is_loop`, and Init has left it so.
abbrev pub start : Threads
start = record { creator = released; worker = absent; is_loop = false; calls = 0 }

-- The loop goes on while ThreadCall returns true.
abbrev pub after : Bool → Worker
after true = testing
after false = returned

-- `r` is what ThreadCall returns.
pub data Step : Threads → Threads → Type 0 where
  spawn :
      (t : Threads)
      → t.creator ≡ released
      → Step t (record t { creator = spawned; worker = testing })
  set_loop :
      (t : Threads) → t.creator ≡ spawned → Step t (record t { creator = finished; is_loop = true })
  enter :
      (t : Threads) → t.worker ≡ testing → t.is_loop ≡ true → Step t (record t { worker = calling })
  leave :
      (t : Threads)
      → t.worker ≡ testing
      → t.is_loop ≡ false
      → Step t (record t { worker = returned })
  call :
      (t : Threads) (r : Bool)
      → t.worker ≡ calling
      → Step t (record t { calls = t.calls + 1; worker = after r })

pub data Reach (s : Threads) : Threads → Type 0 where
  here : Reach s s
  next : {t u : Threads} → Reach s t → Step t u → Reach s u

not_absent : (t : Threads) → t.worker ≡ returned → t.worker ≡ absent → ⊥
not_absent t w a = ground arith

abbrev IsQuiet : Threads → Type 0
IsQuiet t = t.is_loop ≡ false → (t.calls ≡ 0) × (t.worker ≢ calling)

Step-IsQuiet : {t u : Threads} → Step t u → IsQuiet t → IsQuiet u
Step-IsQuiet (spawn t h) q e = ((q e).0, ground arith)
Step-IsQuiet (set_loop t h) q e = ground arith
Step-IsQuiet (enter t h l) q e = ground arith
Step-IsQuiet (leave t h l) q e = ((q e).0, ground arith)
Step-IsQuiet (call t r h) q e = absurd ((q e).1 h)

Reach-IsQuiet : {t : Threads} → Reach start t → IsQuiet t
Reach-IsQuiet here e = (refl, ground arith)
Reach-IsQuiet (next r st) e = Step-IsQuiet st (Reach-IsQuiet r) e

abbrev IsOver : Threads → Type 0
IsOver t = (t.worker ≡ returned) × (t.creator ≢ released)

Step-IsOver : {t u : Threads} → Step t u → IsOver t → IsOver u × (u.calls ≡ t.calls)
Step-IsOver (spawn t h) o = absurd (o.1 h)
Step-IsOver (set_loop t h) o = ground arith
Step-IsOver (enter t h l) o = ground arith
Step-IsOver (leave t h l) o = ground arith
Step-IsOver (call t r h) o = ground arith

Reach-IsOver : {t u : Threads} → IsOver t → Reach t u → IsOver u × (u.calls ≡ t.calls)
Reach-IsOver o here = (o, refl)
Reach-IsOver o (next r st) =
    let (over, same) = Reach-IsOver o r in
    let (over', same') = Step-IsOver st over in (over', same' ∙ same)

abbrev IsSpawned : Threads → Type 0
IsSpawned t = (t.creator ≡ released) → (t.worker ≡ absent)

Step-IsSpawned : {t u : Threads} → Step t u → IsSpawned t → IsSpawned u
Step-IsSpawned (spawn t h) s = ground arith
Step-IsSpawned (set_loop t h) s = ground arith
Step-IsSpawned (enter t h l) s = ground arith
Step-IsSpawned (leave t h l) s = ground arith
Step-IsSpawned (call t r h) s = ground arith

Reach-IsSpawned : {t : Threads} → Reach start t → IsSpawned t
Reach-IsSpawned here = ground arith
Reach-IsSpawned (next r st) = Step-IsSpawned st (Reach-IsSpawned r)

-- A worker that has returned while `is_loop` was not yet set, because it tested it before the creator
-- came to set it, never calls ThreadCall: not before that, and not in any later state, also when the
-- creator has set `is_loop`.
pub lost_thread :
    {t u : Threads}
    → Reach start t
    → t.is_loop ≡ false
    → t.worker ≡ returned
    → Reach t u
    → (u.calls ≡ 0) × (u.worker ≡ returned)
lost_thread {t} r e w more =
    let quiet = Reach-IsQuiet r e in
    let begun = Reach-IsSpawned r in
    let (over, same) = Reach-IsOver (w, λ c. not_absent t w (begun c)) more in
    (same ∙ quiet.0, over.0)
