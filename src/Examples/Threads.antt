-- ===== src/Examples/Threads.antt =====
-- Two threads on one object with a mutex, and the loop of a thread with an interval.
use cbb.Prelude.{◌≤◌, List, ◌≡◌, pos, true, false, [], ◌∷◌, none, some, arith, refl}
use cbb.Common.{bytes}
use cbb.Posix.Memory.{memory, Disk}
use cbb.MutexFile.{
  Operation, opening, flushing, Value, Shared, Phase, Run, waiting, locked, ended, running, start,
  set_phase, Step, call, lock, begin, finish, unlock, Reach, here, next,
}
use cbb.MutexFile.Serial.{serial, is_inside, is_owner, Replays}
use cbb.ThreadLoop.Interval.{Round, threading, threading-IsSpaced}

abbrev disk : Disk
disk = record {
  files = (bytes "f", record { text = bytes "new"; time = 5 }) ∷ [];
  clock = 7;
  next = 3;
  full = false;
  opened = [];
}

abbrev closed : Shared memory
closed = record { fd = none; fs = disk }

abbrev opened : Shared memory
opened = record { fd = some 3; fs = record disk { next = 4; opened = (3, bytes "f") ∷ [] } }

abbrev op : Operation
op = opening (bytes "f") 0

-- The first thread opens the file, and the second one asks for the mutex while it does.
abbrev asked : Run memory
asked = set_phase memory 1 (waiting op) (start memory closed)

abbrev owned : Run memory
owned = record (set_phase memory 1 (locked op) asked) { owner = some 1 }

abbrev begun : Run memory
begun = set_phase memory 1 (running op closed) owned

abbrev crowded : Run memory
crowded = set_phase memory 2 (waiting flushing) begun

abbrev done : Run memory
done = record (set_phase memory 1 (ended (record { ret = pos 3; buf = [] })) crowded) {
  shared = opened;
  log = (1, op, record { ret = pos 3; buf = [] }) ∷ [];
}

serial_example :
    (is_inside memory (done.phase 2) ≡ is_owner memory 2 done.owner)
    × Replays memory done.log closed opened
unfolding cbb.MutexFile.perform cbb.StdMap.lookup cbb.Text.eqb
serial_example = serial memory closed done 2 (
    next
      (next
        (next (next (next here (call (start memory closed) 1 op refl)) (lock asked 1 op refl refl))
          (begin owned 1 op refl))
        (call begun 2 flushing refl))
      (finish crowded 1 op closed opened (record { ret = pos 3; buf = [] }) refl refl))

abbrev rounds : List Round
rounds =
    record { is_loop = true; now = record { tv_sec = pos 0; tv_usec = pos 100500 }; answer = true }
    ∷ record {
      is_loop = true;
      now = record { tv_sec = pos 0; tv_usec = pos 105500 };
      answer = true;
    }
    ∷ record {
      is_loop = true;
      now = record { tv_sec = pos 0; tv_usec = pos 112500 };
      answer = true;
    }
    ∷ record {
      is_loop = false;
      now = record { tv_sec = pos 0; tv_usec = pos 130500 };
      answer = true;
    }
    ∷ []

threading-IsSpaced_example : (0 ≤ 100) × ((110 ≤ 112) × Unit {0})
unfolding threading
threading-IsSpaced_example =
    threading-IsSpaced 10 rounds 0 true
      (omega arith, (omega arith, (omega arith, (omega arith, tt))))
