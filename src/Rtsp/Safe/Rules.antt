-- ===== src/Rtsp/Safe/Rules.antt =====
-- src/common/rtsp-parser.c: postconditions of calls, and the rule for the parsers' loop.
use box_rtsp.Prelude.{
  ℕ, zero, suc, ◌<◌, ◌≡◌, refl, inl, inr, Bool, true, false, arith, ltb, ltb→lt, Bool-cases, length,
  get_or, set, ℤ, pos, lt→ltb,
}
use box_rtsp.Rtsp.Parser.{Parser}
use box_rtsp.Rtsp.Exec.{
  aborts, faults, spins, Exec, ok, halt, ◌>>=◌, assert, peek, poke, Step, next, leave, loop,
}

-- The call returns a value with `P`, or a failed assertion ends the process; it makes no access
-- outside the buffer and does not run for ever.
abbrev pub Ensures : {A : Type 0} → (A → Type 0) → Exec A → Type 0
Ensures P (ok a) = P a
Ensures P (halt aborts) = Unit
Ensures P (halt faults) = ⊥
Ensures P (halt spins) = ⊥

-- A turn goes on with `P` and less to do than `m`, or returns with `Q`.
abbrev pub Turn : (Parser → Type 0) → (ℤ → Parser → Type 0) → (Parser → ℕ) → ℕ → Step → Type 0
Turn P Q measure m (next q) = P q × (measure q < m)
Turn P Q measure m (leave r q) = Q r q

pub Ensures-bind :
    {A B : Type 0} (P : A → Type 0) (Q : B → Type 0) (m : Exec A) (f : A → Exec B)
    → Ensures P m
    → ((a : A) → P a → Ensures Q (f a))
    → Ensures Q (m >>= f)
Ensures-bind P Q (ok a) f h k = k a h
Ensures-bind P Q (halt aborts) f h k = tt
Ensures-bind P Q (halt faults) f h k = h
Ensures-bind P Q (halt spins) f h k = h

pub Ensures-map :
    {A : Type 0} (P Q : A → Type 0) (m : Exec A) → ((a : A) → P a → Q a) → Ensures P m → Ensures Q m
Ensures-map P Q (ok a) k h = k a h
Ensures-map P Q (halt aborts) k h = tt
Ensures-map P Q (halt faults) k h = h
Ensures-map P Q (halt spins) k h = h

pub Ensures-assert :
    {B : Type 0} (Q : B → Type 0) (b : Bool) (m : Exec B)
    → (b ≡ true → Ensures Q m)
    → Ensures Q (assert b >>= λ _. m)
Ensures-assert Q true m k = k refl
Ensures-assert Q false m k = tt

pub poke_lem :
    (p : Parser) (i v : ℕ) → i < length p.raw → poke p i v ≡ ok (record p { raw = set p.raw i v })
poke_lem p i v h = rw (lt→ltb i (length p.raw) h)

pub peek_lem : (p : Parser) (i : ℕ) → i < length p.raw → peek p i ≡ ok (get_or p.raw i 0)
peek_lem p i h = rw (lt→ltb i (length p.raw) h)

pub Ensures-poke :
    {B : Type 0} (Q : B → Type 0) (p : Parser) (i v : ℕ) (f : Parser → Exec B)
    → i < length p.raw
    → Ensures Q (f (record p { raw = set p.raw i v }))
    → Ensures Q (poke p i v >>= f)
Ensures-poke Q p i v f h k = rw (poke_lem p i v h) k

module _ (P : Parser → Type 0) (Q : ℤ → Parser → Type 0) (measure : Parser → ℕ) (at : Parser → ℕ)
    (step : Parser → ℕ → Exec Step)
    (inside : (p : Parser) → P p → at p < p.raw_size → at p < length p.raw)
    (turn : (p : Parser) (c : ℕ)
      → P p
      → at p < p.raw_size
      → Ensures (Turn P Q measure (measure p)) (step p c))
    (stop : (p : Parser) → P p → Q (pos 0) p) where
  abbrev Result : ℤ × Parser → Type 0
  Result (r, p) = Q r p

  pub loop_rule :
      (fuel : ℕ) (p : Parser) → measure p < fuel → P p → Ensures Result (loop at step fuel p)
  unfolding loop
  loop_rule zero p m h = elim m [ ]
  loop_rule (suc fuel) p m h = elim (Bool-cases (ltb (at p) p.raw_size)) [
    | inr off ↦ rw (off, loop) (stop p h)
    | inl on ↦
        rw (on, loop, peek_lem p (at p) (inside p h (ltb→lt (at p) p.raw_size on)))
          (Ensures-bind (Turn P Q measure (measure p)) Result (step p (get_or p.raw (at p) 0))
            (elim [ next q ↦ loop at step fuel q | leave r q ↦ ok (r, q) ])
            (turn p (get_or p.raw (at p) 0) h (ltb→lt (at p) p.raw_size on))
            (elim [ next q ↦ λ t. loop_rule fuel q (omega arith) t.0 | leave r q ↦ λ t. t ]))
  ]
