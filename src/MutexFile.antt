-- ===== src/MutexFile.antt =====
-- src/util/mutex_file.cc: the operations of FileControl on one object, each under the object's mutex,
-- called by several threads. An operation reads the object and the storages at its start and writes
-- them at its end, so that other threads may come between.
pub mod Serial
use cbb.Prelude.{
  ℕ, Bool, true, false, ℤ, pos, neg, List, [], ◌∷◌, Option, none, some, ◌≡◌, ◌==◌, if◌then◌else◌,
}
use cbb.Text.{Bytes}
use cbb.Common.{SysResult, ok, fail, raw_result}
use cbb.Posix.{Posix}
use cbb.FileControl

-- A call of the object.
pub data Operation : Type 0 where
  creating : Bytes → ℕ → ℕ → Operation
  opening : Bytes → ℕ → Operation
  reading : ℕ → ℤ → Operation
  writing : Bytes → ℤ → Operation
  syncing : Bool → Operation
  flushing closing : Operation

-- What a call returns, and what is in the buffer of Read.
pub record Value : Type 0 where
  pub ret : ℤ
  pub buf : Bytes

abbrev number : ℤ → Value
number n = record { ret = n; buf = [] }

-- `fd_` is -1 where there is none.
pub record Shared (P : Posix) : Type 0 where
  pub fd : Option ℕ
  pub fs : P.State

module _ (P : Posix) where
  -- The end of Create and Open.
  abbrev opened : SysResult ℕ × P.State → Value × Shared P
  opened (ok fd, s) = (number (pos fd), record { fd = some fd; fs = s })
  opened (fail e, s) = (number (neg 1), record { fd = none; fs = s })

  -- Create and Open assert that there is no descriptor: `none` is a failed assertion.
  abbrev if_closed : Shared P → (P.State → SysResult ℕ × P.State) → Option (Value × Shared P)
  if_closed x f = elim x.fd [ none ↦ some (opened (f x.fs)) | some fd ↦ none ]

  -- The other operations assert that there is one.
  abbrev if_open : Shared P → (ℕ → P.State → ℤ × P.State) → Option (Value × Shared P)
  if_open x f = elim x.fd [
    | none ↦ none
    | some fd ↦ let (r, s) = f fd x.fs in some (number r, record x { fs = s })
  ]

  -- The operation of FileControl that a call stands for.
  unfoldable pub perform : Operation → Shared P → Option (Value × Shared P)
  unfolding FileControl.create FileControl.open_file FileControl.read FileControl.write
      FileControl.fsync FileControl.flush FileControl.close
  perform (creating path flags mode) x = if_closed x (FileControl.create P path flags mode)
  perform (opening path flags) x = if_closed x (FileControl.open_file P path flags)
  perform (reading size offset) x = elim x.fd [
    | none ↦ none
    | some fd ↦
        let (r, bs) = FileControl.read P fd size offset x.fs in
        some (record { ret = r; buf = bs }, x)
  ]
  perform (writing bs offset) x = if_open x (λ fd. FileControl.write P fd bs offset)
  perform (syncing is_data) x = if_open x (λ fd. FileControl.fsync P fd is_data)
  perform flushing x = if_open x (FileControl.flush P)
  perform closing x = elim x.fd [
    | none ↦ none
    | some fd ↦
        let (r, s) = FileControl.close P fd x.fs in some (number r, record { fd = none; fs = s })
  ]

  -- Where a thread stands in MUTEX_LOCKED: outside, waiting in Lock, before the operation, in it with
  -- what it has read, and before Unlock.
  pub data Phase : Type 0 where
    outside : Phase
    waiting : Operation → Phase
    locked : Operation → Phase
    running : Operation → Shared P → Phase
    ended : Value → Phase

  -- The threads by number, the owner of the mutex, the object, and the operations that have ended,
  -- the last one first.
  pub record Run : Type 0 where
    pub phase : ℕ → Phase
    pub owner : Option ℕ
    pub shared : Shared P
    pub log : List (ℕ × Operation × Value)

  abbrev pub set_phase : ℕ → Phase → Run → Run
  set_phase t p r = record r { phase = λ k. if k == t then p else r.phase k }

  abbrev pub start : Shared P → Run
  start x = record { phase = λ k. outside; owner = none; shared = x; log = [] }

  pub data Step : Run → Run → Type 0 where
    call :
        (r : Run) (t : ℕ) (op : Operation)
        → r.phase t ≡ outside
        → Step r (set_phase t (waiting op) r)
    lock :
        (r : Run) (t : ℕ) (op : Operation)
        → r.phase t ≡ waiting op
        → r.owner ≡ none
        → Step r (record (set_phase t (locked op) r) { owner = some t })
    begin :
        (r : Run) (t : ℕ) (op : Operation)
        → r.phase t ≡ locked op
        → Step r (set_phase t (running op r.shared) r)
    finish :
        (r : Run) (t : ℕ) (op : Operation) (x y : Shared P) (v : Value)
        → r.phase t ≡ running op x
        → perform op x ≡ some (v, y)
        → Step r (record (set_phase t (ended v) r) { shared = y; log = (t, op, v) ∷ r.log })
    unlock :
        (r : Run) (t : ℕ) (v : Value)
        → r.phase t ≡ ended v
        → Step r (record (set_phase t outside r) { owner = none })

  pub data Reach (r : Run) : Run → Type 0 where
    here : Reach r r
    next : {u w : Run} → Reach r u → Step u w → Reach r w
