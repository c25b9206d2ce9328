-- ===== src/Rtsp/Trail.antt =====
-- src/common/rtsp-parser.c: the text at the end of a line, a header's value or an answer's reason, whose
-- blanks at the end are left out. Both machines read it alike, in two places.
use box_rtsp.Prelude.{
  and_both, ℕ, suc, ◌+◌, ◌<◌, ◌≡◌, inl, inr, Bool, true, false, List, [], ◌∷◌, arith, length,
  get_or, Bool-cases,
}
use mathlib.Core.Path.{subst}
use box_rtsp.Rtsp.Parser.{is_blank, ends_word}
use box_rtsp.Rtsp.Bytes.{HasAt}
use box_rtsp.Rtsp.Fields.Grammar.{is_value_byte, is_value}

-- In the text, behind a blank of it, at the last byte of the line.
pub data Spot : Type 0 where
  word behind lf : Spot

abbrev pub spot : Bool → Spot
spot false = Spot.word
spot true = Spot.behind

abbrev pub crlf : List ℕ
crlf = b'\r' ∷ b'\n' ∷ []

-- What a machine does in these places: `E s o x` says that from the offset `o` at the place `s` it
-- ends as it is to end, where `x` is what it has read, and `measured x z` has the end of the text.
pub record Trail {X : Type 0} (raw : List ℕ) (size : ℕ) (measured : X → ℕ → X)
    (E : Spot → ℕ → X → Type 0) : Type 0 where
  pub again : (x : X) (o z : ℕ) → measured (measured x o) z ≡ measured x z
  pub solid :
      (b : Bool) (o c : ℕ) (x : X)
      → o < size
      → get_or raw o 0 ≡ c
      → is_value_byte c ≡ true
      → is_blank c ≡ false
      → E Spot.word (suc o) x
      → E (spot b) o x
  pub ended :
      (o c : ℕ) (x : X)
      → o < size
      → get_or raw o 0 ≡ c
      → ends_word c ≡ true
      → E Spot.behind o (measured x o)
      → E Spot.word o x
  pub blank :
      (o c : ℕ) (x : X)
      → o < size
      → get_or raw o 0 ≡ c
      → is_blank c ≡ true
      → E Spot.behind (suc o) x
      → E Spot.behind o x
  pub line_end :
      (z : ℕ) (x : X) → HasAt raw z crlf → suc z < size → E Spot.lf (suc z) x → E Spot.behind z x

blank_ends : (c : ℕ) → is_blank c ≡ true → ends_word c ≡ true
blank_ends c h = ground arith

-- The machine goes over a text without blanks at its end, and the text's end is the one measured.
module _ {X : Type 0} (raw : List ℕ) (size : ℕ) (measured : X → ℕ → X) (E : Spot → ℕ → X → Type 0)
    (t : Trail raw size measured E) where
  pub Trail-text :
      (b : Bool) (cs : List ℕ) (o z : ℕ) (x : X)
      → is_value b cs ≡ true
      → HasAt raw o cs
      → HasAt raw z crlf
      → z ≡ o + length cs
      → suc z < size
      → E Spot.lf (suc z) (measured x z)
      → E (spot b) o x
  Trail-text true [] o z x v a e q n l = let f : false ≡ true = v in cc
  Trail-text false [] o z x v a e q n l =
      let d : z ≡ o = omega arith in
      t.ended o b'\r' x (omega arith) (rw d at e.1) (ground arith)
        (subst (λ i. E Spot.behind i (measured x i)) d (t.line_end z (measured x z) e n l))
  Trail-text b (c ∷ cs) o z x v a e q n l =
      let (s, w) = and_both (is_value_byte c) (is_value (is_blank c) cs) v in
      elim (Bool-cases (is_blank c)) [
        | inr u ↦
            t.solid b o c x (omega arith) a.1 s u
              (Trail-text false cs (suc o) z x (rw u at w) a.2 e (omega arith) n l)
        | inl u ↦
            by_place b u (λ y. Trail-text true cs (suc o) z y (rw u at w) a.2 e (omega arith) n)
      ]
    where
      by_place :
          (b : Bool)
          → is_blank c ≡ true
          → ((y : X) → E Spot.lf (suc z) (measured y z) → E Spot.behind (suc o) y)
          → E (spot b) o x
      by_place true u f = t.blank o c x (omega arith) a.1 u (f x l)
      by_place false u f =
          t.ended o c x (omega arith) a.1 (blank_ends c u) (
            t.blank o c (measured x o) (omega arith) a.1 u
              (f (measured x o) (rw (t.again x o z) l)))
