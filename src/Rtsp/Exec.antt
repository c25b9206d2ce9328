-- ===== src/Rtsp/Exec.antt =====
-- How a call of src/common/rtsp-parser.c ends. The Makefile sets no NDEBUG, so a failed `assert`
-- ends the process, `assert(0); return -1;` included. A read or write outside the buffer is a fault.
use box_rtsp.Prelude.{
  ℕ, zero, suc, Bool, true, false, ltb, if◌then◌else◌, length, get_or, set, ℤ, pos,
}
use box_rtsp.Rtsp.Parser.{Parser}

pub data Halt : Type 0 where
  -- `abort`, by an assertion
  aborts : Halt
  -- an access outside the buffer
  faults : Halt
  -- a loop of the model has used up its fuel
  spins : Halt

pub data Exec (A : Type 0) : Type 0 where
  ok : A → Exec A
  halt : Halt → Exec A

infixl 5 ◌>>=◌ ◌>>◌
abbrev pub ◌>>=◌ : {A B : Type 0} → Exec A → (A → Exec B) → Exec B
ok a >>= f = f a
halt h >>= f = halt h

abbrev pub ◌>>◌ : {B : Type 0} → Exec (Unit {0}) → Exec B → Exec B
m >> k = m >>= λ _. k

abbrev pub assert : Bool → Exec (Unit {0})
assert true = ok tt
assert false = halt aborts

-- `rtsp->raw[i]`
abbrev pub peek : Parser → ℕ → Exec ℕ
peek p i = if ltb i (length p.raw) then ok (get_or p.raw i 0) else halt faults

-- `rtsp->raw[i] = v`
abbrev pub poke : Parser → ℕ → ℕ → Exec Parser
poke p i v = if ltb i (length p.raw) then ok (record p { raw = set p.raw i v }) else halt faults

-- What a turn of a parser's loop does: go on, or return.
pub data Step : Type 0 where
  next : Parser → Step
  leave : ℤ → Parser → Step

abbrev pub go : Parser → Exec Step
go p = ok (next p)

-- `for (; at < raw_size; ++at) { c = raw[at]; … } return 0;`, the increment being the turn's.
unfoldable pub loop : (Parser → ℕ) → (Parser → ℕ → Exec Step) → ℕ → Parser → Exec (ℤ × Parser)
loop at step zero p = halt spins
loop at step (suc fuel) p = elim (ltb (at p) p.raw_size) [
  | false ↦ ok (pos 0, p)
  | true ↦ peek p (at p) >>= λ c.
      step p c >>= elim [ next q ↦ loop at step fuel q | leave r q ↦ ok (r, q) ]
]
