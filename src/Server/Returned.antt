-- ===== src/Server/Returned.antt =====
-- What holds of the value of a call, where it returns one.
use box_rtsp.Prelude.{◌≡◌}
use box_rtsp.Rtsp.Exec.{Exec, ok, halt, ◌>>=◌}

-- A call that returned has returned what follows.
abbrev pub Yields : {A : Type 0} → (A → Type 0) → Exec A → Type 0
Yields P (ok a) = P a
Yields P (halt h) = Unit {0}

pub Yields-after :
    {A B : Type 0} (P : B → Type 0) (m : Exec A) (f : A → Exec B)
    → ((a : A) → Yields P (f a))
    → Yields P (m >>= f)
Yields-after P (ok a) f h = h a
Yields-after P (halt q) f h = tt

pub Yields-ok : {A : Type 0} (P : A → Type 0) (m : Exec A) (a : A) → Yields P m → m ≡ ok a → P a
Yields-ok P m a h e = rw e at h
