-- ===== src/Rtsp/Answer/Turns.antt =====
-- src/common/rtsp-parser.c, rtsp_parse_status_line: turns of the loop, up to the end of the line.
use box_rtsp.Prelude.{
  and_both, ℕ, suc, ◌+◌, ◌≤◌, ◌<◌, ◌≡◌, refl, true, false, not, List, [], ◌∷◌, arith, length,
  get_or, ℤ,
}
use box_rtsp.Rtsp.Parser.{
  Line, StateM, Slice, Header, Parser, is_blank, ends_word, set_pos, set_len,
}
use box_rtsp.Rtsp.Exec.{ok, next}
use box_rtsp.Rtsp.StatusLine.{status_in, status_step}
use box_rtsp.Rtsp.Safe.Place.{line_rank, line_measure}
use box_rtsp.Rtsp.Bytes.{HasAt}
use box_rtsp.Rtsp.Runs.{Runs, Runs-step}
use box_rtsp.Rtsp.Answer.Grammar.{all_word}

-- The parser inside the line: the buffer, the offset, the place, the words that are read.
abbrev pub place : Parser → List ℕ → ℕ → Line → Header → Slice → Parser
place p raw o l h s = record p {
  raw = raw;
  offset = o;
  state_m = StateM.start_line l;
  header = h;
  reply = record p.reply { reason = s };
}

-- With the fuel of the loop it ends as `r`.
abbrev pub Ends : Parser → ℤ × Parser → Type 0
Ends = Runs (λ q. q.offset) status_step line_measure

rank_bound : (l : Line) → line_rank l ≤ 8
rank_bound l = ground arith

module _ (p : Parser) (r : ℤ × Parser) (raw : List ℕ) (room : p.raw_size ≤ length raw) where
  -- A turn that goes on by one byte.
  pub Ends-byte :
      (o c : ℕ) (l m : Line) (h k : Header) (s t : Slice)
      → o < p.raw_size
      → get_or raw o 0 ≡ c
      → status_in l (place p raw o l h s) c ≡ ok (next (place p raw (o + 1) m k t))
      → Ends (place p raw (suc o) m k t) r
      → Ends (place p raw o l h s) r
  unfolding status_step
  Ends-byte o c l m h k s t n e d x =
      let a : o + 1 ≡ suc o = omega arith in
      Runs-step (λ q. q.offset) status_step line_measure (place p raw o l h s)
        (place p raw (suc o) m k t) c r n room e (rw a at d) (omega (arith, rank_bound l)) x

  -- A turn that stays, at a later place.
  pub Ends-again :
      (o c : ℕ) (l m : Line) (h k : Header) (s t : Slice)
      → o < p.raw_size
      → get_or raw o 0 ≡ c
      → status_in l (place p raw o l h s) c ≡ ok (next (place p raw o m k t))
      → line_rank l < line_rank m
      → Ends (place p raw o m k t) r
      → Ends (place p raw o l h s) r
  unfolding status_step
  Ends-again o c l m h k s t n e d g x =
      Runs-step (λ q. q.offset) status_step line_measure (place p raw o l h s) (place p raw o m k t)
        c r n room e d (omega (arith, rank_bound m)) x

  -- The bytes of a word, in a place that goes on over them.
  Ends-word :
      (l : Line) (h : Header) (s : Slice)
      → ((o c : ℕ)
          → ends_word c ≡ false
          → status_in l (place p raw o l h s) c ≡ ok (next (place p raw (o + 1) l h s)))
      → (cs : List ℕ) (o z : ℕ) → all_word cs ≡ true
      → HasAt raw o cs
      → z ≡ o + length cs
      → z < p.raw_size
      → Ends (place p raw z l h s) r
      → Ends (place p raw o l h s) r
  Ends-word l h s f [] o z w a q n x = let e : o ≡ z = omega arith in rw e x
  Ends-word l h s f (c ∷ cs) o z w a q n x =
      let (b, d) = and_both (not (ends_word c)) (all_word cs) w in
      let e : ends_word c ≡ false = ground arith in
      Ends-byte o c l l h h s s (omega arith) a.1 (f o c e)
        (Ends-word l h s f cs (suc o) z d a.2 (omega arith) n x)

  first_step :
      (h : Header) (s : Slice) (o c : ℕ)
      → ends_word c ≡ false
      → status_in Line.first (place p raw o Line.first h s) c
        ≡ ok (next (place p raw (o + 1) Line.first h s))
  unfolding status_in
  first_step h s o c e = ground arith

  second_step :
      (h : Header) (s : Slice) (o c : ℕ)
      → ends_word c ≡ false
      → status_in Line.second (place p raw o Line.second h s) c
        ≡ ok (next (place p raw (o + 1) Line.second h s))
  unfolding status_in
  second_step h s o c e = ground arith

  start_step :
      (o c : ℕ) (h : Header) (s : Slice)
      → is_blank c ≡ false
      → status_in Line.start (place p raw o Line.start h s) c
        ≡ ok (next (place p raw o Line.first (record h { name = set_pos h.name o }) s))
  unfolding status_in
  start_step o c h s e = ground arith

  version_ended :
      (o : ℕ) (h : Header) (s : Slice)
      → status_in Line.first (place p raw o Line.first h s) b' '
        ≡ ok (next (place p raw o Line.sp1 (record h { name = set_len h.name o }) s))
  unfolding status_in
  version_ended o h s = refl

  gap_step :
      (o : ℕ) (h : Header) (s : Slice)
      → status_in Line.sp1 (place p raw o Line.sp1 h s) b' '
        ≡ ok (next (place p raw (o + 1) Line.sp1 h s))
  unfolding status_in
  gap_step o h s = refl

  code_start :
      (o c : ℕ) (h : Header) (s : Slice)
      → is_blank c ≡ false
      → status_in Line.sp1 (place p raw o Line.sp1 h s) c
        ≡ ok (next (place p raw o Line.second (record h { value = set_pos h.value o }) s))
  unfolding status_in
  code_start o c h s e = ground arith

  code_ended :
      (o : ℕ) (h : Header) (s : Slice)
      → status_in Line.second (place p raw o Line.second h s) b' '
        ≡ ok (next (place p raw o Line.sp2 (record h { value = set_len h.value o }) s))
  unfolding status_in
  code_ended o h s = refl

  second_gap_step :
      (o : ℕ) (h : Header) (s : Slice)
      → status_in Line.sp2 (place p raw o Line.sp2 h s) b' '
        ≡ ok (next (place p raw (o + 1) Line.sp2 h s))
  unfolding status_in
  second_gap_step o h s = refl

  reason_start :
      (o c : ℕ) (h : Header) (s : Slice)
      → is_blank c ≡ false
      → status_in Line.sp2 (place p raw o Line.sp2 h s) c
        ≡ ok (next (place p raw o Line.third h (set_pos s o)))
  unfolding status_in
  reason_start o c h s e = ground arith

  -- From the first byte of a word to the first byte of the next.
  pub Ends-version :
      (cs : List ℕ) (o z : ℕ) (h : Header) (s : Slice)
      → all_word cs ≡ true
      → is_blank (get_or raw o 0) ≡ false
      → HasAt raw o cs
      → z ≡ o + length cs
      → get_or raw z 0 ≡ b' '
      → suc z < p.raw_size
      → is_blank (get_or raw (suc z) 0) ≡ false
      → (let k = record h {
        name = set_len (set_pos h.name o) z;
        value = set_pos h.value (suc z);
      } in
          Ends (place p raw (suc z) Line.second k s) r)
      → Ends (place p raw o Line.start h s) r
  Ends-version cs o z h s w b a q e n d x =
      let k = record h { name = set_pos h.name o } in
      let m = record h { name = set_len (set_pos h.name o) z } in
      let v = record m { value = set_pos h.value (suc z) } in
      Ends-again o (get_or raw o 0) Line.start Line.first h k s s (omega arith) refl
        (start_step o (get_or raw o 0) h s b) (omega arith)
        (Ends-word Line.first k s (first_step k s) cs o z w a q (omega arith) (
          Ends-again z b' ' Line.first Line.sp1 k m s s (omega arith) e (version_ended z k s)
            (omega arith)
            (Ends-byte z b' ' Line.sp1 Line.sp1 m m s s (omega arith) e (gap_step z m s) (
              Ends-again (suc z) (get_or raw (suc z) 0) Line.sp1 Line.second m v s s n refl
                (code_start (suc z) (get_or raw (suc z) 0) m s d) (omega arith) x))))

  pub Ends-code :
      (cs : List ℕ) (o z : ℕ) (h : Header) (s : Slice)
      → all_word cs ≡ true
      → HasAt raw o cs
      → z ≡ o + length cs
      → get_or raw z 0 ≡ b' '
      → suc z < p.raw_size
      → is_blank (get_or raw (suc z) 0) ≡ false
      → (let k = record h { value = set_len h.value z } in
          Ends (place p raw (suc z) Line.third k (set_pos s (suc z))) r)
      → Ends (place p raw o Line.second h s) r
  Ends-code cs o z h s w a q e n d x =
      let k = record h { value = set_len h.value z } in
      Ends-word Line.second h s (second_step h s) cs o z w a q (omega arith) (
        Ends-again z b' ' Line.second Line.sp2 h k s s (omega arith) e (code_ended z h s)
          (omega arith)
          (Ends-byte z b' ' Line.sp2 Line.sp2 k k s s (omega arith) e (second_gap_step z k s) (
            Ends-again (suc z) (get_or raw (suc z) 0) Line.sp2 Line.third k k s (set_pos s (suc z))
              n refl (reason_start (suc z) (get_or raw (suc z) 0) k s d) (omega arith) x)))
