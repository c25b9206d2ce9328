-- ===== src/Rtsp/Fields/Value.antt =====
-- src/common/rtsp-parser.c, rtsp_parse_header_line: the turns over a value and the end of its line.
use box_rtsp.Prelude.{
  ℕ, suc, ◌+◌, ◌≤◌, ◌<◌, ◌≡◌, refl, Bool, true, false, List, [], ◌∷◌, arith, length, ℤ,
}
use box_rtsp.Rtsp.Parser.{Field, Header, Parser, Env, is_blank, ends_word, set_len}
use box_rtsp.Rtsp.Exec.{ok, next}
use box_rtsp.Rtsp.RequestLine.{trailing_blanks}
use box_rtsp.Rtsp.HeaderLine.{header_in}
use box_rtsp.Rtsp.Bytes.{HasAt}
use box_rtsp.Rtsp.Trail.{Spot, spot, Trail, Trail-text}
use box_rtsp.Rtsp.Fields.Grammar.{is_value_byte, is_value}
use box_rtsp.Rtsp.Fields.Turns.{place, Ends, Ends-byte, Ends-again}

module _ (env : Env) (p : Parser) (r : ℤ × Parser) (raw : List ℕ)
    (room : p.raw_size ≤ length raw) where
  abbrev measured : Header → ℕ → Header
  measured h z = record h { value = set_len h.value z }

  abbrev field_at : Spot → Field
  field_at Spot.word = Field.value
  field_at Spot.behind = Field.sp3
  field_at Spot.lf = Field.lf

  abbrev at_value : Bool → Field
  at_value b = field_at (spot b)

  solid_step :
      (b : Bool) (o c : ℕ) (h : Header)
      → is_value_byte c ≡ true
      → is_blank c ≡ false
      → header_in env (at_value b) (place p raw o (at_value b) h) c
        ≡ ok (next (place p raw (o + 1) Field.value h))
  unfolding header_in trailing_blanks
  solid_step true o c h v t = ground arith
  solid_step false o c h v t = ground arith

  ended_step :
      (o c : ℕ) (h : Header)
      → ends_word c ≡ true
      → header_in env Field.value (place p raw o Field.value h) c
        ≡ ok (next (place p raw o Field.sp3 (measured h o)))
  unfolding header_in
  ended_step o c h t = ground arith

  blank_step :
      (o c : ℕ) (h : Header)
      → is_blank c ≡ true
      → header_in env Field.sp3 (place p raw o Field.sp3 h) c
        ≡ ok (next (place p raw (o + 1) Field.sp3 h))
  unfolding header_in trailing_blanks
  blank_step o c h t = ground arith

  cr_step :
      (o : ℕ) (h : Header)
      → header_in env Field.sp3 (place p raw o Field.sp3 h) b'\r'
        ≡ ok (next (place p raw (o + 1) Field.cr h))
  unfolding header_in trailing_blanks
  cr_step o h = refl

  lf_step :
      (o : ℕ) (h : Header)
      → header_in env Field.cr (place p raw o Field.cr h) b'\n'
        ≡ ok (next (place p raw o Field.lf h))
  unfolding header_in
  lf_step o h = refl

  EndsAt : Spot → ℕ → Header → Type 0
  EndsAt s o h = Ends env (place p raw o (field_at s) h) r

  value_trail : Trail raw p.raw_size measured EndsAt
  unfolding EndsAt
  value_trail = record {
    again = λ h o z. refl;
    solid = λ b o c h n e v u.
        Ends-byte env p r raw room o c (at_value b) Field.value h h n e (solid_step b o c h v u);
    ended = λ o c h n e u.
        Ends-again env p r raw room o c Field.value Field.sp3 h (measured h o) n e
          (ended_step o c h u) (omega arith);
    blank = λ o c h n e u.
        Ends-byte env p r raw room o c Field.sp3 Field.sp3 h h n e (blank_step o c h u);
    line_end = λ z h a n x.
        Ends-byte env p r raw room z b'\r' Field.sp3 Field.cr h h (omega arith) a.1 (cr_step z h) (
          Ends-again env p r raw room (suc z) b'\n' Field.cr Field.lf h h n a.2.1
            (lf_step (suc z) h) (omega arith) x);
  }

  pub Ends-value :
      (cs : List ℕ) (o z : ℕ) (h : Header)
      → is_value false cs ≡ true
      → HasAt raw o cs
      → HasAt raw z (b'\r' ∷ b'\n' ∷ [])
      → z ≡ o + length cs
      → suc z < p.raw_size
      → Ends env (place p raw (suc z) Field.lf (measured h z)) r
      → Ends env (place p raw o Field.value h) r
  unfolding EndsAt
  Ends-value = Trail-text raw p.raw_size measured EndsAt value_trail false
