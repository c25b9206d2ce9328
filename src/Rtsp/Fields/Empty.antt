-- ===== src/Rtsp/Fields/Empty.antt =====
-- src/common/rtsp-parser.c, rtsp_parse_header_line: the empty line behind the headers.
use box_rtsp.Prelude.{ℕ, suc, ◌+◌, ◌≤◌, ◌≡◌, refl, [], arith, length, ℤ, pos}
use box_rtsp.Rtsp.Parser.{Field, Body, StateM, Header, Parser, Env, set_pos}
use box_rtsp.Rtsp.Exec.{ok, next, leave}
use box_rtsp.Rtsp.HeaderLine.{header_start, header_lf, header_in, header_step}
use box_rtsp.Rtsp.Safe.Place.{line_measure}
use box_rtsp.Rtsp.Bytes.{HasAt}
use box_rtsp.Rtsp.Runs.{Runs-leave}
use box_rtsp.Rtsp.Fields.Grammar.{block}
use box_rtsp.Rtsp.Fields.Turns.{place, Ends, Ends-byte, Ends-again}

-- The header at the empty line, and the parser behind it.
abbrev pub ends_at : Header → Header
ends_at h = record h { value = set_pos h.value 0 }

abbrev pub behind : Parser → ℕ → Header → Parser
behind p o h = record p { offset = o; header = h; state_m = StateM.body Body.start }

module _ (env : Env) where
  -- The empty line.
  module _ (p : Parser) (room : p.raw_size ≤ length p.raw) where
    cr_step :
        (o : ℕ) (h : Header)
        → header_in env Field.start (place p p.raw o Field.start h) b'\r'
          ≡ ok (next (place p p.raw (o + 1) Field.cr (ends_at h)))
    unfolding header_in header_start
    cr_step o h = refl

    lf_step :
        (o : ℕ) (h : Header)
        → header_in env Field.cr (place p p.raw o Field.cr h) b'\n'
          ≡ ok (next (place p p.raw o Field.lf h))
    unfolding header_in
    lf_step o h = refl

    leave_step :
        (o : ℕ) (h : Header)
        → header_step env (place p p.raw o Field.lf (ends_at h)) b'\n'
          ≡ ok (leave (pos 0) (behind p (o + 1) (ends_at h)))
    unfolding header_step header_in header_lf
    leave_step o h = refl

    pub Ends-empty :
        (o : ℕ) (h : Header)
        → HasAt p.raw o (block [])
        → o + 2 ≤ p.raw_size
        → Ends env (place p p.raw o Field.start h) (pos 0, behind p (o + 2) (ends_at h))
    Ends-empty o h a n =
        let k = ends_at h in
        let e : suc o + 1 ≡ o + 2 = omega arith in
        let r : ℤ × Parser = (pos 0, behind p (o + 2) k) in
        Ends-byte env p r p.raw room o b'\r' Field.start Field.cr h k (omega arith) a.1
          (cr_step o h)
          (Ends-again env p r p.raw room (suc o) b'\n' Field.cr Field.lf k k (omega arith) a.2.1
            (lf_step (suc o) k) (omega arith)
            (rw e at (
              Runs-leave (λ q. q.offset) (header_step env) line_measure
                (place p p.raw (suc o) Field.lf k) (behind p (suc o + 1) k) b'\n' (pos 0)
                (omega arith) room a.2.1 (leave_step (suc o) h))))
