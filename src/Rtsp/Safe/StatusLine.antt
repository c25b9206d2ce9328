-- ===== src/Rtsp/Safe/StatusLine.antt =====
-- src/common/rtsp-parser.c: rtsp_parse_status_line stays in bounds and ends.
use box_rtsp.Rtsp.Text.{string_at, atoi}
use box_rtsp.Prelude.{set, ℕ, ◌+◌, ◌<◌, ◌≡◌, refl, arith, leb, ◌==◌}
use box_rtsp.Rtsp.Parser.{Mode, Line, StateM, Parser}
use box_rtsp.Rtsp.Exec.{Halt, halt}
use box_rtsp.Rtsp.RequestLine.{trailing_blanks, line_fuel}
use box_rtsp.Rtsp.StatusLine.{status_lf, status_in, status_step, rtsp_parse_status_line}
use box_rtsp.Rtsp.Safe.Rules.{Ensures, Ensures-assert, Ensures-poke, loop_rule}
use box_rtsp.Rtsp.Safe.Bounds.{EndsBy, AllEndBy-mono, set_len-EndsBy}
use box_rtsp.Rtsp.Safe.Place.{IsValid, line_measure}
use box_rtsp.Rtsp.Safe.StartLine.{
  known_version-Turn, Going, Left, LineTurn, read_version_rule, two_nuls,
}

status_lf-Turn :
    (p : Parser) (c : ℕ)
    → IsValid p
    → p.server_mode ≡ Mode.client
    → p.offset < p.raw_size
    → EndsBy p.offset p.header.name
    → EndsBy p.offset p.header.value
    → EndsBy p.offset p.reply.reason
    → LineTurn Mode.client p (status_lf p c)
unfolding status_lf
status_lf-Turn p c v m o n a b = Ensures-assert _ (c == b'\n') _ λ _.
    Ensures-assert _ (leb 8 p.header.name.len) _ λ _. read_version_rule _ p _ λ x y.
      Ensures-assert _ (p.header.value.len == 3) _ λ _.
        Ensures-assert _ (leb 1 p.reply.reason.len) _ λ _.
          let i = p.reply.reason.pos + p.reply.reason.len in
          let j = p.header.value.pos + p.header.value.len in
          let w = two_nuls p.raw p.raw_size i j v.buffer (omega arith) (omega arith) in
          let raw = set (set p.raw i 0) j 0 in
          let q = record p {
            raw = raw;
            vermajor = x;
            verminor = y;
            reply = record p.reply { code = atoi (string_at raw p.header.value.pos) };
          } in
          Ensures-poke _ _ i 0 _ w.0 (
            Ensures-poke _ _ j 0 _ w.1
              (known_version-Turn _ (line_measure p) q w.2 o v.held v.stored n m))

status_in-Turn :
    (l : Line) (p : Parser) (c : ℕ)
    → IsValid p
    → p.server_mode ≡ Mode.client
    → p.state_m ≡ StateM.start_line l
    → p.offset < p.raw_size
    → LineTurn Mode.client p (status_in l p c)
unfolding status_in trailing_blanks
status_in-Turn Line.lf p c v m s o =
    status_lf-Turn p c v m o (ground arith) (ground arith) (ground arith)
status_in-Turn l p c v m s o = ground (
  arith,
  AllEndBy-mono p.offset (p.offset + 1) p.headers,
  set_len-EndsBy p.header.value p.offset,
  set_len-EndsBy p.reply.reason p.offset,
  set_len-EndsBy p.header.name p.offset,
)

status_step-Turn :
    (p : Parser) (c : ℕ)
    → Going Mode.client p
    → p.offset < p.raw_size
    → LineTurn Mode.client p (status_step p c)
unfolding status_step
status_step-Turn p c g o = by_state p.state_m refl
  where
    by_state :
        (s : StateM)
        → p.state_m ≡ s
        → LineTurn Mode.client p
            (elim s [ StateM.start_line l ↦ status_in l p c | _ ↦ halt Halt.aborts ])
    by_state (StateM.start_line l) e = status_in-Turn l p c g.0 g.1 e o
    by_state (StateM.header f) e = tt
    by_state (StateM.body b) e = tt
    by_state StateM.done e = tt

-- From a valid client parser inside a start line, the status line's loop ends within its fuel and
-- makes no access outside the buffer. Where no assertion fails, its result is 0 and it leaves a
-- valid parser.
pub rtsp_parse_status_line-Left :
    (p : Parser)
    → Going Mode.client p
    → Ensures (λ r. Left Mode.client r.0 r.1) (rtsp_parse_status_line p)
unfolding rtsp_parse_status_line
rtsp_parse_status_line-Left p g =
    loop_rule (Going Mode.client) (Left Mode.client) line_measure (λ q. q.offset) status_step
      (λ q h o. omega (arith, h.0.buffer.room)) status_step-Turn (λ q h. (refl, h.0, h.1))
      (line_fuel p) p (omega arith) g
