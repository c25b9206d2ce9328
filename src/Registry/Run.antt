-- ===== src/Registry/Run.antt =====
-- How a callback of the event thread, or a step of a camera's thread, ends.
use box_rtsp.Prelude.{Option, none, some}
use box_rtsp.Rtsp.Exec.{Halt, Exec, ok, halt}

-- The state after it, or the way in which the process fails, or a wait for `rwlockMyLock` that its
-- holder never gives back: the callbacks of the event thread run one after the other.
pub data Run (A : Type 0) : Type 0 where
  returns : A → Run A
  fails : Halt → Run A
  blocks : Run A

infixl 5 ◌>>=◌
abbrev pub ◌>>=◌ : {A B : Type 0} → Run A → (A → Run B) → Run B
returns a >>= f = f a
fails h >>= f = fails h
blocks >>= f = blocks

-- A computation that touches no shared state.
abbrev pub alone : {A : Type 0} → Exec A → Run A
alone (ok a) = returns a
alone (halt h) = fails h

-- A read through a pointer: NULL, or what was freed, is a fault.
abbrev pub through : {A : Type 0} → Option A → Run A
through none = fails Halt.faults
through (some a) = returns a
