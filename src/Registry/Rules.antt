-- ===== src/Registry/Rules.antt =====
-- What holds of the state after a step, where the step returns.
use box_rtsp.Prelude.{ap, ℕ, ◌≡◌, refl, Bool, true, false, Option, none, some, if◌then◌else◌}
use box_rtsp.Rtsp.Exec.{Exec, ok, halt}
use box_rtsp.Server.Returned.{Yields}
use box_rtsp.Registry.Run.{Run, returns, fails, blocks, ◌>>=◌, alone, through}
use box_rtsp.Registry.World.{Bev, World, lock, change_bev, free_bev}

abbrev pub Then : {A : Type 0} → (A → Type 0) → Run A → Type 0
Then P (returns a) = P a
Then P (fails h) = Unit {0}
Then P blocks = Unit {0}

pub Then-bind :
    {A C : Type 0} (P : A → Type 0) (Q : C → Type 0) (m : Run A) (f : A → Run C)
    → Then P m
    → ((a : A) → P a → Then Q (f a))
    → Then Q (m >>= f)
Then-bind P Q (returns a) f h k = k a h
Then-bind P Q (fails q) f h k = tt
Then-bind P Q blocks f h k = tt

pub Then-after :
    {A C : Type 0} (Q : C → Type 0) (m : Run A) (f : A → Run C)
    → ((a : A) → Then Q (f a))
    → Then Q (m >>= f)
Then-after Q (returns a) f k = k a
Then-after Q (fails q) f k = tt
Then-after Q blocks f k = tt

-- What was read through a pointer stands there.
pub Then-through :
    {A C : Type 0} (Q : C → Type 0) (p : Option A) (f : A → Run C)
    → ((a : A) → p ≡ some a → Then Q (f a))
    → Then Q (through p >>= f)
Then-through Q none f k = tt
Then-through Q (some a) f k = k a refl

pub Then-if :
    {A : Type 0} (Q : A → Type 0) (b : Bool) (m n : Run A)
    → (b ≡ true → Then Q m)
    → (b ≡ false → Then Q n)
    → Then Q (if b then m else n)
Then-if Q true m n h k = h refl
Then-if Q false m n h k = k refl

pub Then-elim :
    {A C : Type 0} (Q : C → Type 0) (p : Option A) (m : Run C) (f : A → Run C)
    → (p ≡ none → Then Q m)
    → ((a : A) → p ≡ some a → Then Q (f a))
    → Then Q (elim p [ none ↦ m | some a ↦ f a ])
Then-elim Q none m f h k = h refl
Then-elim Q (some a) m f h k = k a refl

pub Then-returns :
    {A : Type 0} (Q : A → Type 0) (m : Run A) (a : A) → Then Q m → m ≡ returns a → Q a
Then-returns Q m a h e = rw e at h

-- The lock is free before it is taken.
pub Then-lock :
    {B L C : Type 0} (Q : C → Type 0) (w : World B L) (f : World B L → Run C)
    → (w.locked ≡ false → Then Q (f (record w { locked = true })))
    → Then Q (lock w >>= f)
Then-lock {B} {L} {C} Q w f k = by_lock w.locked refl
  where
    by_lock :
        (b : Bool)
        → w.locked ≡ b
        → Then Q ((if b then blocks else returns (record w { locked = true })) >>= f)
    by_lock true e = tt
    by_lock false e = k e

pub Then-alone :
    {A C : Type 0} (P : A → Type 0) (Q : C → Type 0) (m : Exec A) (f : A → Run C)
    → Yields P m
    → ((a : A) → P a → Then Q (f a))
    → Then Q (alone m >>= f)
Then-alone P Q (ok a) f h k = k a h
Then-alone P Q (halt q) f h k = tt

-- A property that stands whatever becomes of the bufferevents.
pub Then-change_bev :
    {B L : Type 0} (P : World B L → Type 0) (w : World B L) (b : ℕ) (f : Bev B → Bev B)
    → ((m : ℕ → Option (Bev B)) → P (record w { bevs = m }))
    → Then P (change_bev w b f)
Then-change_bev P w b f k = Then-after P (through (w.bevs b)) _ (λ v. k _)

pub Then-free_bev :
    {B L : Type 0} (P : World B L → Type 0) (w : World B L) (b : ℕ)
    → ((m : ℕ → Option (Bev B)) → P (record w { bevs = m }))
    → Then P (free_bev w b)
Then-free_bev P w b k = Then-after P (through (w.bevs b)) _ (λ v. k _)

-- A lock that is free is taken.
pub lock_then :
    {B L C : Type 0} (w : World B L) (f : World B L → Run C)
    → w.locked ≡ false
    → (lock w >>= f) ≡ f (record w { locked = true })
lock_then w f e = rw e refl

pub bind_same :
    {A C : Type 0} (m : Run A) (f g : A → Run C) → ((a : A) → f a ≡ g a) → (m >>= f) ≡ (m >>= g)
bind_same (returns a) f g h = h a
bind_same (fails q) f g h = refl
bind_same blocks f g h = refl

-- The object at an address is one.
pub same_some : {A : Type 0} (x y : A) → some x ≡ some y → x ≡ y
same_some x y e = ap (λ o. elim o [ none ↦ x | some z ↦ z ]) e
