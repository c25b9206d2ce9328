-- ===== src/Rtsp/Numbers.antt =====
-- src/common/rtsp-parser.c: what atoi and sscanf read of digits.
use box_rtsp.Prelude.{
  ℕ, ◌+◌, ◌-◌, ◌*◌, ◌^◌, ◌<◌, ◌≡◌, refl, ap, ◌∙◌, true, false, List, ◌∷◌, arith, ◌==◌, ◌||◌, leb,
  within, none, some, pos,
}
use box_rtsp.Rtsp.Text.{
  isdigit, skip_space, scan_digits, clamp, scan_number, scan_sign, scan_int, atoi,
}

pub scan_digits-digit :
    (acc k : ℕ) (ds : List ℕ)
    → k < 10
    → scan_digits acc ((48 + k) ∷ ds) ≡ scan_digits (acc * 10 + k) ds
unfolding scan_digits isdigit
scan_digits-digit acc k ds h =
    let e : within b'0' b'9' (48 + k) ≡ true = ground arith in
    let g : 48 + k - b'0' ≡ k = omega arith in rw (scan_digits, e, g) refl

skip_space-digit : (k : ℕ) (ds : List ℕ) → k < 10 → skip_space ((48 + k) ∷ ds) ≡ (48 + k) ∷ ds
unfolding skip_space
skip_space-digit k ds h =
    let e : (48 + k == 32 || within 9 13 (48 + k)) ≡ false = ground arith in rw (skip_space, e) refl

scan_sign-digit :
    (k : ℕ) (ds : List ℕ) → k < 10 → scan_sign ((48 + k) ∷ ds) ≡ scan_number false ((48 + k) ∷ ds)
unfolding scan_sign
scan_sign-digit k ds h =
    let e : (48 + k == b'-') ≡ false = ground arith in
    let f : (48 + k == b'+') ≡ false = ground arith in rw (scan_sign, e, f) refl

scan_number-digit :
    (k n : ℕ) (ds rest : List ℕ)
    → k < 10
    → scan_digits k ds ≡ (n, rest)
    → n < 2 ^ 31
    → scan_number false ((48 + k) ∷ ds) ≡ some (pos n, rest)
unfolding scan_number isdigit clamp
scan_number-digit k n ds rest h e l =
    let d : within b'0' b'9' (48 + k) ≡ true = ground arith in
    let f : leb (2 ^ 31) n ≡ false = ground arith in
    let g : 0 * 10 + k ≡ k = omega arith in
    let s : scan_digits 0 ((48 + k) ∷ ds) ≡ (n, rest) =
      scan_digits-digit 0 k ds h ∙ ap (λ m. scan_digits m ds) g ∙ e in
    rw (scan_number, s, d, f) refl

-- A text that begins with a digit is read as the number that its digits make.
pub atoi-digit :
    (k n : ℕ) (ds rest : List ℕ)
    → k < 10
    → scan_digits k ds ≡ (n, rest)
    → n < 2 ^ 31
    → atoi ((48 + k) ∷ ds) ≡ pos n
unfolding atoi scan_int
atoi-digit k n ds rest h e l =
    ap (λ s. elim s [ none ↦ pos 0 | some (m, r) ↦ m ])
      (ap scan_sign (skip_space-digit k ds h)
        ∙ scan_sign-digit k ds h
        ∙ scan_number-digit k n ds rest h e l)
