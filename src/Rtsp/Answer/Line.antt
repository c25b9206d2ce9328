-- ===== src/Rtsp/Answer/Line.antt =====
-- src/common/rtsp-parser.c, rtsp_parse_status_line: the whole first line of an answer.
use box_rtsp.Prelude.{
  ℕ, suc, ◌+◌, ◌^◌, ◌≤◌, ◌<◌, ◌≡◌, refl, sym, ap, ◌∙◌, true, false, List, [], ◌∷◌, ◌++◌, arith,
  length, length-append, get_or, ℤ, pos,
}
use mathlib.Core.Path.{subst}
use box_rtsp.Rtsp.Parser.{Line, StateM, Slice, Header, Parser, sub_size, is_blank, set_pos, set_len}
use box_rtsp.Rtsp.Exec.{ok}
use box_rtsp.Rtsp.RequestLine.{line_fuel}
use box_rtsp.Rtsp.StatusLine.{status_step, rtsp_parse_status_line}
use box_rtsp.Rtsp.Safe.Place.{line_measure}
use box_rtsp.Rtsp.Safe.Bounds.{sub_size_lem}
use box_rtsp.Rtsp.Bytes.{HasAt, HasAt-left, HasAt-right}
use box_rtsp.Rtsp.Runs.{Runs-leave}
use box_rtsp.Rtsp.Fields.Grammar.{starts_solid}
use box_rtsp.Rtsp.Answer.Grammar.{Answer, IsAnswer, all_word, version, code_text, status_line}
use box_rtsp.Rtsp.Answer.Turns.{place, Ends, Ends-version, Ends-code}
use box_rtsp.Rtsp.Answer.Reason.{Ends-reason}
use box_rtsp.Rtsp.Answer.Read.{
  code_at, reason_at, words, reason_slice, answered, Parts, status_lf_lem,
}

pub length-status_line : (a : Answer) → length (status_line a) ≡ length a.reason + 15
length-status_line a = omega (arith, length-append a.reason (b'\r' ∷ b'\n' ∷ []))

pub status_line-Parts :
    (raw : List ℕ) (a : Answer) (o : ℕ) → HasAt raw o (status_line a) → Parts raw a o
status_line-Parts raw a o h =
    let end : List ℕ = b'\r' ∷ b'\n' ∷ [] in
    let tail : List ℕ = b' ' ∷ (a.reason ++ end) in
    let b = HasAt-right raw o version (b' ' ∷ (code_text a.code ++ tail)) h in
    let c = HasAt-right raw (suc (o + 8)) (code_text a.code) tail b.2 in
    record {
      version_in = HasAt-left raw o version (b' ' ∷ (code_text a.code ++ tail)) h;
      first_gap = b.1;
      code_in = HasAt-left raw (suc (o + 8)) (code_text a.code) tail b.2;
      second_gap = c.1;
      reason_in = HasAt-left raw (reason_at o) a.reason end c.2;
      end = HasAt-right raw (reason_at o) a.reason end c.2;
    }

code_word : (n : ℕ) → n < 1000 → all_word (code_text n) ≡ true
code_word n h = ground arith

module _ (p : Parser) (a : Answer) (good : IsAnswer a) (o : ℕ) (at : Parts p.raw a o)
    (room : p.raw_size ≤ length p.raw) (small : length p.raw < 2 ^ 31)
    (fits : reason_at o + length a.reason + 2 ≤ p.raw_size) where
  first_solid :
      (cs : List ℕ) (i : ℕ)
      → 0 < length cs
      → starts_solid cs ≡ true
      → HasAt p.raw i cs
      → is_blank (get_or p.raw i 0) ≡ false
  first_solid [] i n s h = elim n [ ]
  first_solid (c ∷ cs) i n s h = rw h.1 (ground arith)

  abbrev read : Header → Header
  read h = record h {
    name = set_len (set_pos h.name o) (o + 8);
    value = set_len (set_pos h.value (code_at o)) (code_at o + 3);
  }

  read_lem : (h : Header) → read h ≡ words o
  read_lem h =
      let x : sub_size (o + 8) o ≡ 8 =
        sub_size_lem (o + 8) o (omega arith) (omega arith) ∙ omega arith in
      let y : sub_size (code_at o + 3) (code_at o) ≡ 3 =
        sub_size_lem (code_at o + 3) (code_at o) (omega arith) (omega arith) ∙ omega arith in
      rw (x, y) refl

  slice_lem :
      (s : Slice)
      → set_len (set_pos s (reason_at o)) (reason_at o + length a.reason) ≡ reason_slice a o
  slice_lem s =
      let x : sub_size (reason_at o + length a.reason) (reason_at o) ≡ length a.reason =
        sub_size_lem (reason_at o + length a.reason) (reason_at o) (omega arith) (omega arith)
        ∙ omega arith in
      rw x refl

  Ends-line_end :
      Ends
        (place p p.raw (suc (reason_at o + length a.reason)) Line.lf (words o) (reason_slice a o))
        (pos 0, answered p a o)
  unfolding status_step
  Ends-line_end =
      let z = suc (reason_at o + length a.reason) in
      Runs-leave (λ q. q.offset) status_step line_measure
        (place p p.raw z Line.lf (words o) (reason_slice a o)) (answered p a o) b'\n' (pos 0)
        (omega (arith, fits)) room at.end.2.1 (status_lf_lem p a good o at (omega (arith, fits)))

  Ends-status_line :
      (h : Header) (s : Slice) → Ends (place p p.raw o Line.start h s) (pos 0, answered p a o)
  Ends-status_line h s =
      let r : ℤ × Parser = (pos 0, answered p a o) in
      let k = record h {
        name = set_len (set_pos h.name o) (o + 8);
        value = set_pos h.value (code_at o);
      } in
      let z = reason_at o + length a.reason in
      Ends-version p r p.raw room version o (o + 8) h s refl (rw (at.version_in.1) refl)
        at.version_in refl at.first_gap (omega arith)
        (first_solid (code_text a.code) (code_at o) (omega arith) (ground arith) at.code_in)
        (Ends-code p r p.raw room (code_text a.code) (code_at o) (code_at o + 3) k s
          (code_word a.code good.small) at.code_in refl at.second_gap (omega (arith, good.given))
          (first_solid a.reason (reason_at o) good.given good.solid at.reason_in)
          (Ends-reason p r p.raw room (read h) a.reason (reason_at o) z (set_pos s (reason_at o))
            good.text at.reason_in at.end refl (omega (arith, fits))
            (rw (read_lem h, slice_lem s) Ends-line_end)))

pub rtsp_parse_status_line_lem :
    (p : Parser) (a : Answer)
    → IsAnswer a
    → p.raw_size ≤ length p.raw
    → length p.raw < 2 ^ 31
    → p.state_m ≡ StateM.start_line Line.start
    → HasAt p.raw p.offset (status_line a)
    → p.offset + length (status_line a) ≤ p.raw_size
    → rtsp_parse_status_line p ≡ ok (pos 0, answered p a p.offset)
unfolding rtsp_parse_status_line
rtsp_parse_status_line_lem p a good room small s h n =
    let at = status_line-Parts p.raw a p.offset h in
    let e =
      Ends-status_line p a good p.offset at room small (omega (arith, n, length-status_line a))
        p.header p.reply.reason in
    let same : place p p.raw p.offset Line.start p.header p.reply.reason ≡ p =
      ap (λ m. record p { state_m = m }) (sym s) in
    subst (λ x. Ends x (pos 0, answered p a p.offset)) same e (line_fuel p) (omega arith)
