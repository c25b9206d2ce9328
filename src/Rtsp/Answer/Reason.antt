-- ===== src/Rtsp/Answer/Reason.antt =====
-- src/common/rtsp-parser.c, rtsp_parse_status_line: the turns over the reason and the end of the line.
use box_rtsp.Prelude.{
  ℕ, suc, ◌+◌, ◌≤◌, ◌<◌, ◌≡◌, refl, Bool, true, false, List, [], ◌∷◌, arith, length, ℤ,
}
use box_rtsp.Rtsp.Parser.{Line, Slice, Header, Parser, is_blank, ends_word, set_len}
use box_rtsp.Rtsp.Exec.{ok, next}
use box_rtsp.Rtsp.RequestLine.{trailing_blanks}
use box_rtsp.Rtsp.StatusLine.{status_in}
use box_rtsp.Rtsp.Bytes.{HasAt}
use box_rtsp.Rtsp.Trail.{Spot, spot, Trail, Trail-text}
use box_rtsp.Rtsp.Fields.Grammar.{is_value_byte, is_value}
use box_rtsp.Rtsp.Answer.Turns.{place, Ends, Ends-byte, Ends-again}

module _ (p : Parser) (r : ℤ × Parser) (raw : List ℕ) (room : p.raw_size ≤ length raw) where
  abbrev line_at : Spot → Line
  line_at Spot.word = Line.third
  line_at Spot.behind = Line.sp3
  line_at Spot.lf = Line.lf

  abbrev at_reason : Bool → Line
  at_reason b = line_at (spot b)

  solid_step :
      (b : Bool) (o c : ℕ) (h : Header) (s : Slice)
      → is_value_byte c ≡ true
      → is_blank c ≡ false
      → status_in (at_reason b) (place p raw o (at_reason b) h s) c
        ≡ ok (next (place p raw (o + 1) Line.third h s))
  unfolding status_in trailing_blanks
  solid_step true o c h s v t = ground arith
  solid_step false o c h s v t = ground arith

  ended_step :
      (o c : ℕ) (h : Header) (s : Slice)
      → ends_word c ≡ true
      → status_in Line.third (place p raw o Line.third h s) c
        ≡ ok (next (place p raw o Line.sp3 h (set_len s o)))
  unfolding status_in
  ended_step o c h s t = ground arith

  blank_step :
      (o c : ℕ) (h : Header) (s : Slice)
      → is_blank c ≡ true
      → status_in Line.sp3 (place p raw o Line.sp3 h s) c
        ≡ ok (next (place p raw (o + 1) Line.sp3 h s))
  unfolding status_in trailing_blanks
  blank_step o c h s t = ground arith

  cr_step :
      (o : ℕ) (h : Header) (s : Slice)
      → status_in Line.sp3 (place p raw o Line.sp3 h s) b'\r'
        ≡ ok (next (place p raw (o + 1) Line.cr h s))
  unfolding status_in trailing_blanks
  cr_step o h s = refl

  lf_step :
      (o : ℕ) (h : Header) (s : Slice)
      → status_in Line.cr (place p raw o Line.cr h s) b'\n' ≡ ok (next (place p raw o Line.lf h s))
  unfolding status_in
  lf_step o h s = refl

  module _ (h : Header) where
    EndsAt : Spot → ℕ → Slice → Type 0
    EndsAt m o s = Ends (place p raw o (line_at m) h s) r

    reason_trail : Trail raw p.raw_size set_len EndsAt
    unfolding EndsAt
    reason_trail = record {
      again = λ s o z. refl;
      solid = λ b o c s n e v u.
          Ends-byte p r raw room o c (at_reason b) Line.third h h s s n e
            (solid_step b o c h s v u);
      ended = λ o c s n e u.
          Ends-again p r raw room o c Line.third Line.sp3 h h s (set_len s o) n e
            (ended_step o c h s u) (omega arith);
      blank = λ o c s n e u.
          Ends-byte p r raw room o c Line.sp3 Line.sp3 h h s s n e (blank_step o c h s u);
      line_end = λ z s a n x.
          Ends-byte p r raw room z b'\r' Line.sp3 Line.cr h h s s (omega arith) a.1 (cr_step z h s)
            (Ends-again p r raw room (suc z) b'\n' Line.cr Line.lf h h s s n a.2.1
              (lf_step (suc z) h s) (omega arith) x);
    }

    pub Ends-reason :
        (cs : List ℕ) (o z : ℕ) (s : Slice)
        → is_value false cs ≡ true
        → HasAt raw o cs
        → HasAt raw z (b'\r' ∷ b'\n' ∷ [])
        → z ≡ o + length cs
        → suc z < p.raw_size
        → Ends (place p raw (suc z) Line.lf h (set_len s z)) r
        → Ends (place p raw o Line.third h s) r
    unfolding EndsAt
    Ends-reason = Trail-text raw p.raw_size set_len EndsAt reason_trail false
