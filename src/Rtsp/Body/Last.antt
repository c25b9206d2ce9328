-- ===== src/Rtsp/Body/Last.antt =====
-- src/common/rtsp-parser.c, rtsp_parse_chunked: the chunk of size 0 and the empty line behind it.
use box_rtsp.Prelude.{ℕ, suc, ◌+◌, ◌≤◌, ◌≡◌, refl, List, [], ◌∷◌, some, arith, length, ℤ, pos}
use box_rtsp.Rtsp.Parser.{Body, StateM, Parser}
use box_rtsp.Rtsp.Exec.{ok, next, leave}
use box_rtsp.Rtsp.Chunked.{hex_value, chunk_in, chunk_step}
use box_rtsp.Rtsp.Body.Grammar.{hex_from, crlf, encode}
use box_rtsp.Rtsp.Bytes.{HasAt, HasAt-eq, HasAt-left, HasAt-right}
use box_rtsp.Rtsp.Body.Turns.{place, Ends, Ends-step, Ends-leave}
use box_rtsp.Rtsp.Body.SizeLine.{Ends-size_line}

zero_digit : hex_from 0 (b'0' ∷ []) ≡ some 0
unfolding hex_value
zero_digit = refl

module _ (p : Parser) where
  -- The parser behind the empty line.
  abbrev pub last : List ℕ → ℕ → ℕ → ℕ → Parser
  last raw k o i = record p {
    raw = raw;
    content_length = pos k;
    chunk = record { offset = o; len = 0; pos = i };
    state_m = StateM.done;
  }

  cr_step :
      (raw : List ℕ) (k o i : ℕ)
      → chunk_step (place p raw k o 0 i Body.trailer_start) b'\r'
        ≡ ok (next (place p raw k (suc o) 0 i Body.end_cr))
  unfolding chunk_step chunk_in
  cr_step raw k o i = ground arith

  lf_step :
      (raw : List ℕ) (k o i : ℕ)
      → chunk_step (place p raw k o 0 i Body.end_cr) b'\n'
        ≡ ok (leave (pos 0) (last raw k (suc o) i))
  unfolding chunk_step chunk_in
  lf_step raw k o i = ground arith

  pub Ends-last :
      (raw : List ℕ) (k o : ℕ)
      → p.raw_size ≤ length raw
      → HasAt raw o (encode [])
      → o + 5 ≤ p.raw_size
      → Ends (place p raw k o 0 0 Body.start) (pos 0, last raw k (o + 5) (o + 3))
  Ends-last raw k o room h l =
      let r : ℤ × Parser = (pos 0, last raw k (o + 5) (o + 3)) in
      let t : HasAt raw (o + 3) crlf =
        HasAt-eq raw crlf _ _ (omega arith) (HasAt-right raw o (b'0' ∷ crlf) crlf h) in
      let e : suc (suc (o + 3)) ≡ o + 5 = omega arith in
      Ends-size_line p r raw k room b'0' [] [] o 0 0 (o + 3) zero_digit (omega arith) refl
        (HasAt-left raw o (b'0' ∷ crlf) crlf h) (omega arith) (omega arith)
        (Ends-step (place p raw k (o + 3) 0 (o + 3) Body.trailer_start)
          (place p raw k (suc (o + 3)) 0 (o + 3) Body.end_cr) b'\r' r (omega arith) room t.1
          (cr_step raw k (o + 3) (o + 3)) (omega arith)
          (rw e at (
            Ends-leave (place p raw k (suc (o + 3)) 0 (o + 3) Body.end_cr)
              (last raw k (suc (suc (o + 3))) (o + 3)) b'\n' (omega arith) room t.2.1
              (lf_step raw k (suc (o + 3)) (o + 3)))))
