-- ===== src/Rtsp/Safe/Bounds.antt =====
-- src/common/rtsp-parser.c: the bounds of the buffer and of the slices that point into it.
use box_rtsp.Prelude.{
  ℕ, zero, suc, ◌+◌, ◌-◌, ◌≤◌, ◌<◌, ◌≡◌, refl, ◌∙◌, List, [], ◌∷◌, arith, length, get_or, set,
  length-set,
}
use native.Mathlib.Decide.{dec_lt}
use box_rtsp.Rtsp.Parser.{Slice, Header, size_mod, sub_size, set_len}

-- `n` bytes were received, and a NUL stands behind them.
pub record IsBuffer (raw : List ℕ) (n : ℕ) : Type 0 where
  pub room : n < length raw
  pub nul : get_or raw n 0 ≡ 0
  pub small : n < size_mod

-- The slice ends at or before `b`.
abbrev pub EndsBy : ℕ → Slice → Type 0
EndsBy b s = s.pos + s.len ≤ b

-- The stored headers end at or before `b`.
abbrev pub AllEndBy : ℕ → List Header → Type 0
AllEndBy b [] = Unit {0}
AllEndBy b (h ∷ hs) = EndsBy b h.name × EndsBy b h.value × AllEndBy b hs

pub AllEndBy-mono : (a b : ℕ) (hs : List Header) → a ≤ b → AllEndBy a hs → AllEndBy b hs
AllEndBy-mono a b [] h s = tt
AllEndBy-mono a b (x ∷ hs) h s = (omega arith, omega arith, AllEndBy-mono a b hs h s.2)

pub sub_size_lem : (a b : ℕ) → b ≤ a → a < size_mod → sub_size a b ≡ a - b
unfolding sub_size
sub_size_lem a b h l = omega arith

pub set_len-EndsBy :
    (s : Slice) (off : ℕ) → s.pos ≤ off → off < size_mod → EndsBy off (set_len s off)
set_len-EndsBy s off h l = omega (arith, sub_size_lem off s.pos h l)

pub get_or-set_self : (xs : List ℕ) (i v : ℕ) → i < length xs → get_or (set xs i v) i 0 ≡ v
get_or-set_self [] i v h = elim h [ ]
get_or-set_self (x ∷ xs) zero v h = refl
get_or-set_self (x ∷ xs) (suc i) v h = get_or-set_self xs i v (omega arith)

get_or-set_lt : (xs : List ℕ) (i j v : ℕ) → i < j → get_or (set xs i v) j 0 ≡ get_or xs j 0
get_or-set_lt [] i j v h = refl
get_or-set_lt (x ∷ xs) i zero v h = elim h [ ]
get_or-set_lt (x ∷ xs) zero (suc j) v h = refl
get_or-set_lt (x ∷ xs) (suc i) (suc j) v h = get_or-set_lt xs i j v (omega arith)

-- A write in front of the NUL keeps the buffer.
pub set-IsBuffer : (raw : List ℕ) (n i v : ℕ) → IsBuffer raw n → i < n → IsBuffer (set raw i v) n
set-IsBuffer raw n i v b h = record {
  room = omega (arith, length-set raw i v);
  nul = get_or-set_lt raw i n v h ∙ b.nul;
  small = b.small;
}

-- So does a NUL written there or on the NUL itself.
pub set_nul-IsBuffer : (raw : List ℕ) (n i : ℕ) → IsBuffer raw n → i ≤ n → IsBuffer (set raw i 0) n
set_nul-IsBuffer raw n i b h = elim (dec_lt i n) [
  | yes l ↦ set-IsBuffer raw n i 0 b l
  | no g ↦
      let e : i ≡ n = omega arith in
      record {
        room = omega (arith, length-set raw i 0);
        nul = rw e (get_or-set_self raw n 0 b.room);
        small = b.small;
      }
]
