-- ===== src/ThreadLoop/Interval.antt =====
-- The loop of Thread::Threading in src/util/thread.cc, over what it reads in each round.
use cbb.Prelude.{
  ◌-◌, negsuc, pos, ℤ, Bool-cases, inl, inr, ℕ, ◌+◌, ◌%◌, ◌^◌, ◌<◌, ◌≤◌, ◌≡◌, Bool, true, ◌&&◌,
  List, [], ◌∷◌, ◌*◌, ◌/◌, if◌then◌else◌, leb, arith, All,
}
use cbb.Posix.{TimeVal}

-- The conversion of a long to a uint64_t.
abbrev to_uint64 : ℤ → ℕ
to_uint64 (pos n) = n % 2 ^ 64
to_uint64 (negsuc n) = 2 ^ 64 - 1 - n % 2 ^ 64

-- get_time_msec in src/common/common.h, of what gettimeofday gives; the sum is a uint64_t.
unfoldable pub get_time_msec : TimeVal → ℕ
get_time_msec tv = (to_uint64 tv.tv_sec * 1000 + to_uint64 tv.tv_usec / 1000) % 2 ^ 64

-- A round: `is_loop`, the time of day, and what ThreadCall returns if it is called.
pub record Round : Type 0 where
  pub is_loop : Bool
  pub now : TimeVal
  pub answer : Bool

-- The times at which ThreadCall is called, from the rounds to come, `next_time` and `result`. The sum
-- is a uint64_t.
unfoldable pub threading : ℕ → List Round → ℕ → Bool → List ℕ
unfolding get_time_msec
threading interval_time [] next_time result = []
threading interval_time (r ∷ rounds) next_time result =
    let called =
      threading interval_time rounds ((get_time_msec r.now + interval_time) % 2 ^ 64) r.answer in
    let slept = threading interval_time rounds next_time result in
    if r.is_loop && result
    then (if leb next_time (get_time_msec r.now) then get_time_msec r.now ∷ called else slept)
    else []

-- Each time is at least so much after the one before it, and the first one after `from`.
abbrev pub IsSpaced : ℕ → ℕ → List ℕ → Type 0
IsSpaced interval from [] = Unit {0}
IsSpaced interval from (t ∷ times) = (from ≤ t) × IsSpaced interval (t + interval) times

leb→le : (a b : ℕ) → leb a b ≡ true → a ≤ b
leb→le a b h = ground arith

-- When no sum of a time and the interval overflows, the calls that the loop makes, whatever it reads
-- and whatever they return, are at least the interval apart, and the first is not before `next_time`.
pub threading-IsSpaced :
    (interval_time : ℕ) (rounds : List Round) (next_time : ℕ) (result : Bool)
    → All (λ r. get_time_msec r.now + interval_time < 2 ^ 64) rounds
    → IsSpaced interval_time next_time (threading interval_time rounds next_time result)
unfolding threading
threading-IsSpaced interval_time [] next_time result h = tt
threading-IsSpaced interval_time (r ∷ rounds) next_time result h =
    let rest = threading-IsSpaced interval_time rounds in
    let sum : (get_time_msec r.now + interval_time) % 2 ^ 64 ≡ get_time_msec r.now + interval_time =
      omega (arith, h.0) in
    let called = rw sum at (rest ((get_time_msec r.now + interval_time) % 2 ^ 64) r.answer h.1) in
    elim (Bool-cases (r.is_loop && result)) [
      | inr ends ↦ rw ends tt
      | inl goes ↦ elim (Bool-cases (leb next_time (get_time_msec r.now))) [
        | inl due ↦ rw (goes, due, sum) (leb→le next_time (get_time_msec r.now) due, called)
        | inr early ↦ rw (goes, early) (rest next_time result h.1)
      ]
    ]
