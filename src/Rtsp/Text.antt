-- ===== src/Rtsp/Text.antt =====
-- The C library's functions that src/common/rtsp-parser.c calls on strings: a string is a list of
-- bytes, read up to the first 0 or to the end of the list.
use box_rtsp.Prelude.{
  ℕ, zero, suc, ◌+◌, ◌-◌, ◌*◌, ◌^◌, Bool, true, false, ◌&&◌, ◌||◌, List, [], ◌∷◌, Option, none,
  some, leb, within, ◌==◌, if◌then◌else◌, ℤ, pos, drop,
}
use box_rtsp.Prelude.Int.{neg}
use box_rtsp.UrlCode.{tolower}

-- The C string that begins at `raw + i`.
unfoldable pub c_string : List ℕ → List ℕ
c_string [] = []
c_string (c ∷ cs) = if c == 0 then [] else c ∷ c_string cs

unfoldable pub string_at : List ℕ → ℕ → List ℕ
unfolding c_string
string_at raw i = c_string (drop i raw)

-- `0 == strcasecmp(a, b)`
unfoldable pub strcasecmp : List ℕ → List ℕ → Bool
unfolding tolower
strcasecmp [] [] = true
strcasecmp (a ∷ as') (b ∷ bs) = tolower a == tolower b && strcasecmp as' bs
strcasecmp _ _ = false

-- `0 == strncasecmp(a, b, n)`
unfoldable pub strncasecmp : List ℕ → List ℕ → ℕ → Bool
unfolding tolower
strncasecmp as' bs zero = true
strncasecmp [] [] (suc n) = true
strncasecmp (a ∷ as') (b ∷ bs) (suc n) = tolower a == tolower b && strncasecmp as' bs n
strncasecmp _ _ (suc n) = false

unfoldable pub isdigit : ℕ → Bool
isdigit c = within b'0' b'9' c

unfoldable pub skip_space : List ℕ → List ℕ
skip_space [] = []
skip_space (c ∷ cs) = if c == 32 || within 9 13 c then skip_space cs else c ∷ cs

-- The value of the digits in front, and what follows them.
unfoldable pub scan_digits : ℕ → List ℕ → ℕ × List ℕ
unfolding isdigit
scan_digits acc [] = (acc, [])
scan_digits acc (c ∷ cs) =
    let rest = scan_digits (acc * 10 + (c - b'0')) cs in if isdigit c then rest else (acc, c ∷ cs)

-- A 32-bit `long`: `strtol` stops at its ends.
unfoldable pub clamp : Bool → ℕ → ℤ
clamp true n = if leb (2 ^ 31) n then neg (2 ^ 31) else neg n
clamp false n = if leb (2 ^ 31) n then pos (2 ^ 31 - 1) else pos n

-- Digits, with at least one.
unfoldable pub scan_number : Bool → List ℕ → Option (ℤ × List ℕ)
unfolding scan_digits clamp isdigit
scan_number minus [] = none
scan_number minus (c ∷ cs) =
    let (n, rest) = scan_digits 0 (c ∷ cs) in if isdigit c then some (clamp minus n, rest) else none

unfoldable pub scan_sign : List ℕ → Option (ℤ × List ℕ)
unfolding scan_number
scan_sign [] = none
scan_sign (c ∷ cs) =
    if c == b'-'
    then scan_number true cs
    else if c == b'+'
    then scan_number false cs
    else scan_number false (c ∷ cs)

-- `%d` of `sscanf`: white space, a sign, digits.
unfoldable pub scan_int : List ℕ → Option (ℤ × List ℕ)
unfolding scan_sign skip_space
scan_int s = scan_sign (skip_space s)

unfoldable pub atoi : List ℕ → ℤ
unfolding scan_int
atoi s = elim (scan_int s) [ none ↦ pos 0 | some (n, rest) ↦ n ]

-- What is behind a literal of the format.
unfoldable pub scan_literal : List ℕ → List ℕ → Option (List ℕ)
scan_literal [] s = some s
scan_literal (x ∷ xs) [] = none
scan_literal (x ∷ xs) (c ∷ cs) = let rest = scan_literal xs cs in if c == x then rest else none

infixl 5 ◌>>=◌
abbrev ◌>>=◌ : {A B : Type 0} → Option A → (A → Option B) → Option B
none >>= f = none
some a >>= f = f a

-- `sscanf(s, "RTSP/%d.%d", &major, &minor)`, where it answers 2
unfoldable pub scan_version : List ℕ → Option (ℤ × ℤ)
unfolding scan_literal scan_int
scan_version s = do
  s₁ ← scan_literal (b'R' ∷ b'T' ∷ b'S' ∷ b'P' ∷ b'/' ∷ []) s
  major ← scan_int s₁
  s₂ ← scan_literal (b'.' ∷ []) major.1
  minor ← scan_int s₂
  some (major.0, minor.0)
