-- ===== src/Start/Digits.antt =====
-- The digits that src/dev_opt.c, get_sys_sn, prints and reads: of the hexadecimal text and of the
-- decimal one.
use box_rtsp.Prelude.{
  ℕ, zero, suc, ◌+◌, ◌*◌, ◌/◌, ◌%◌, ◌^◌, ◌≤◌, ◌<◌, ◌≡◌, refl, ap, ◌∙◌, ◌⊎◌, inl, inr, Bool, true,
  false, and_both, List, [], ◌∷◌, ◌++◌, Option, none, some, arith, ltb, lt→ltb, ltb→lt, Bool-cases,
  leb, ◌==◌, ◌&&◌, length, get_or,
}
use box_rtsp.UrlCode.{char_ishex}
use box_rtsp.Rtsp.Text.{scan_digits, skip_space}
use box_rtsp.Rtsp.Numbers.{scan_digits-digit}
use box_rtsp.Rtsp.Headers.{codes}
use box_rtsp.Rtsp.Chunked.{hex_value}
use box_rtsp.Server.Device.{digits}
use box_rtsp.Server.Digest.{int2hex, hex_chars}
use box_rtsp.Start.Serial.{hex_byte, hex_bytes, scan_hex, skip_prefix, strtoull_hex}

abbrev pub AreBytes : List ℕ → Type 0
AreBytes [] = Unit {0}
AreBytes (c ∷ cs) = (c < 256) × AreBytes cs

-- The number whose bytes, the highest first, stand behind those of `n`.
abbrev pub big_endian : ℕ → List ℕ → ℕ
big_endian n [] = n
big_endian n (c ∷ cs) = big_endian (n * 256 + c) cs

abbrev all_below : (ℕ → Bool) → ℕ → Bool
all_below f zero = true
all_below f (suc n) = f n && all_below f n

pub all_below→ : (f : ℕ → Bool) (n : ℕ) → all_below f n ≡ true → (d : ℕ) → d < n → f d ≡ true
all_below→ f zero h d l = ground arith
all_below→ f (suc n) h d l = elim (eq_or_below d n l) [
  | inl e ↦ ap f e ∙ (and_both (f n) (all_below f n) h).0
  | inr m ↦ all_below→ f n (and_both (f n) (all_below f n) h).1 d m
]
  where
    eq_or_below : (d n : ℕ) → d < suc n → (d ≡ n) ⊎ (d < n)
    eq_or_below d n l = ground arith

-- What a character is worth, 16 where it is no digit.
abbrev worth : ℕ → ℕ
worth c = elim (hex_value c) [ none ↦ 16 | some d ↦ d ]

worth→ : (c d : ℕ) → worth c ≡ d → d < 16 → hex_value c ≡ some d
worth→ c d e h = by_value (hex_value c) e
  where
    by_value : (o : Option ℕ) → elim o [ none ↦ 16 | some v ↦ v ] ≡ d → o ≡ some d
    by_value none x = ground arith
    by_value (some v) x = ap some x

digit_holds :
    (d : ℕ)
    → d < 16
    → ((worth (get_or hex_chars d 0) == d) && char_ishex (get_or hex_chars d 0)) ≡ true
unfolding hex_value char_ishex
digit_holds =
    all_below→ (λ d. (worth (get_or hex_chars d 0) == d) && char_ishex (get_or hex_chars d 0)) 16
      refl

pub ==→≡ : (a b : ℕ) → (a == b) ≡ true → a ≡ b
==→≡ a b h = ground arith

hex_value-hex_chars : (d : ℕ) → d < 16 → hex_value (get_or hex_chars d 0) ≡ some d
hex_value-hex_chars d h =
    let c = get_or hex_chars d 0 in
    worth→ c d (==→≡ (worth c) d (and_both (worth c == d) (char_ishex c) (digit_holds d h)).0) h

char_ishex-hex_chars : (d : ℕ) → d < 16 → char_ishex (get_or hex_chars d 0) ≡ true
char_ishex-hex_chars d h =
    let c = get_or hex_chars d 0 in (and_both (worth c == d) (char_ishex c) (digit_holds d h)).1

scan_hex-digit :
    (acc c d : ℕ) (rest : List ℕ)
    → hex_value c ≡ some d
    → scan_hex acc (c ∷ rest) ≡ scan_hex (acc * 16 + d) rest
unfolding scan_hex
scan_hex-digit acc c d rest h = rw (scan_hex, h) refl

scan_hex-hex_byte :
    (acc c : ℕ) (rest : List ℕ)
    → c < 256
    → scan_hex acc (hex_byte c ++ rest) ≡ scan_hex (acc * 256 + c) rest
unfolding hex_byte int2hex
scan_hex-hex_byte acc c rest h =
    let hi = hex_value-hex_chars (c % 256 / 16 % 16) (omega arith) in
    let lo = hex_value-hex_chars (c % 256 % 16) (omega arith) in
    let g : (acc * 16 + c % 256 / 16 % 16) * 16 + c % 256 % 16 ≡ acc * 256 + c = omega arith in
    scan_hex-digit acc (int2hex (c % 256 / 16)) (c % 256 / 16 % 16) (int2hex (c % 256) ∷ rest) hi
    ∙ scan_hex-digit (acc * 16 + c % 256 / 16 % 16) (int2hex (c % 256)) (c % 256 % 16) rest lo
    ∙ ap (λ n. scan_hex n rest) g

scan_hex-hex_bytes :
    (acc : ℕ) (cs : List ℕ) → AreBytes cs → scan_hex acc (hex_bytes cs) ≡ big_endian acc cs
unfolding hex_bytes scan_hex
scan_hex-hex_bytes acc [] h = refl
scan_hex-hex_bytes acc (c ∷ cs) h =
    rw (scan_hex-hex_byte acc c (hex_bytes cs) h.0) (scan_hex-hex_bytes (acc * 256 + c) cs h.1)

first_digit : (n : ℕ) (ds : List ℕ) → n < 10 → scan_digits 0 ((48 + n) ∷ ds) ≡ scan_digits n ds
first_digit n ds h =
    let e : 0 * 10 + n ≡ n = omega arith in
    scan_digits-digit 0 n ds h ∙ ap (λ m. scan_digits m ds) e

pub scan_digits-digits :
    (fuel n : ℕ) (ds : List ℕ)
    → n < 10 ^ suc fuel
    → scan_digits 0 (digits (suc fuel) n ds) ≡ scan_digits n ds
scan_digits-digits zero n ds h = rw (lt→ltb n 10 h) (first_digit n ds h)
scan_digits-digits (suc fuel) n ds h = elim (Bool-cases (ltb n 10)) [
  | inl y ↦ rw y (first_digit n ds (ltb→lt n 10 y))
  | inr y ↦
      let g : n / 10 * 10 + n % 10 ≡ n = omega arith in
      rw y (
        scan_digits-digits fuel (n / 10) ((48 + n % 10) ∷ ds) (omega arith)
        ∙ scan_digits-digit (n / 10) (n % 10) ds (omega arith)
        ∙ ap (λ m. scan_digits m ds) g)
]

-- A number below a power of ten has no more digits than that power says.
pub length-digits :
    (k fuel n : ℕ) (ds : List ℕ)
    → n < 10 ^ suc k
    → k ≤ fuel
    → length (digits (suc fuel) n ds) ≤ suc k + length ds
length-digits zero fuel n ds h p = rw (lt→ltb n 10 h) (omega arith)
length-digits (suc k) zero n ds h p = omega arith
length-digits (suc k) (suc fuel) n ds h p = elim (Bool-cases (ltb n 10)) [
  | inl y ↦ rw y (omega arith)
  | inr y ↦ rw y (
      omega (arith, length-digits k fuel (n / 10) ((48 + n % 10) ∷ ds) (omega arith) (omega arith)))
]

pub big_endian-lt :
    (j n : ℕ) (cs : List ℕ) → n < 256 ^ j → AreBytes cs → big_endian n cs < 256 ^ (j + length cs)
big_endian-lt j n [] h b = let e : j + 0 ≡ j = omega arith in rw e h
big_endian-lt j n (c ∷ cs) h b =
    let e : j + suc (length cs) ≡ suc j + length cs = omega arith in
    let x = b.0 in rw e (big_endian-lt (suc j) (n * 256 + c) cs (omega arith) b.1)

skip_prefix-hex_bytes :
    (c : ℕ) (cs : List ℕ)
    → skip_prefix (skip_space (codes "0x" ++ hex_bytes (c ∷ cs))) ≡ hex_bytes (c ∷ cs)
unfolding skip_prefix skip_space hex_bytes hex_byte int2hex
skip_prefix-hex_bytes c cs =
    let e = char_ishex-hex_chars (c % 256 / 16 % 16) (omega arith) in rw e refl

pub strtoull_hex-print :
    (cs : List ℕ)
    → 0 < length cs
    → AreBytes cs
    → big_endian 0 cs < 2 ^ 64
    → strtoull_hex (codes "0x" ++ hex_bytes cs) ≡ big_endian 0 cs
unfolding strtoull_hex
strtoull_hex-print [] l b h = ground arith
strtoull_hex-print (c ∷ cs) l b h =
    let e = skip_prefix-hex_bytes c cs in
    let g = scan_hex-hex_bytes 0 (c ∷ cs) b in
    let f : leb (2 ^ 64) (big_endian 0 (c ∷ cs)) ≡ false = ground arith in
    rw (strtoull_hex, e, g, f) refl
