-- ===== src/Rtsp/Safe/RequestLine.antt =====
-- src/common/rtsp-parser.c: rtsp_parse_request_line stays in bounds and ends.
use box_rtsp.Prelude.{set, ℕ, ◌+◌, ◌<◌, ◌≡◌, refl, arith, leb, ◌==◌}
use box_rtsp.Rtsp.Parser.{Mode, Line, StateM, Parser}
use box_rtsp.Rtsp.Exec.{Halt, halt}
use box_rtsp.Rtsp.RequestLine.{
  trailing_blanks, request_lf, request_in, request_step, rtsp_parse_request_line, line_fuel,
}
use box_rtsp.Rtsp.Safe.Rules.{Ensures, Ensures-assert, Ensures-poke, loop_rule}
use box_rtsp.Rtsp.Safe.Bounds.{EndsBy, AllEndBy-mono, set_len-EndsBy}
use box_rtsp.Rtsp.Safe.Place.{IsValid, line_measure}
use box_rtsp.Rtsp.Safe.StartLine.{
  known_version-Turn, Going, Left, LineTurn, read_version_rule, two_nuls,
}

request_lf-Turn :
    (p : Parser) (c : ℕ)
    → IsValid p
    → p.server_mode ≡ Mode.server
    → p.offset < p.raw_size
    → EndsBy p.offset p.req.method
    → EndsBy p.offset p.req.uri
    → EndsBy p.offset p.header.name
    → LineTurn Mode.server p (request_lf p c)
unfolding request_lf
request_lf-Turn p c v m o a b n = Ensures-assert _ (c == b'\n') _ λ _.
    Ensures-assert _ (leb 1 p.req.method.len) _ λ _. Ensures-assert _ (leb 1 p.req.uri.len) _ λ _.
      Ensures-assert _ (leb 8 p.header.name.len) _ λ _. read_version_rule _ p _ λ x y.
        let i = p.req.method.pos + p.req.method.len in
        let j = p.req.uri.pos + p.req.uri.len in
        let w = two_nuls p.raw p.raw_size i j v.buffer (omega arith) (omega arith) in
        let raw = set (set p.raw i 0) j 0 in
        let q = record p { raw = raw; vermajor = x; verminor = y } in
        Ensures-poke _ _ i 0 _ w.0 (
          Ensures-poke _ _ j 0 _ w.1
            (known_version-Turn _ (line_measure p) q w.2 o v.held v.stored n m))

request_in-Turn :
    (l : Line) (p : Parser) (c : ℕ)
    → IsValid p
    → p.server_mode ≡ Mode.server
    → p.state_m ≡ StateM.start_line l
    → p.offset < p.raw_size
    → LineTurn Mode.server p (request_in l p c)
unfolding request_in trailing_blanks
request_in-Turn Line.lf p c v m s o =
    request_lf-Turn p c v m o (ground arith) (ground arith) (ground arith)
request_in-Turn l p c v m s o = ground (
  arith,
  AllEndBy-mono p.offset (p.offset + 1) p.headers,
  set_len-EndsBy p.req.method p.offset,
  set_len-EndsBy p.req.uri p.offset,
  set_len-EndsBy p.header.name p.offset,
)

request_step-Turn :
    (p : Parser) (c : ℕ)
    → Going Mode.server p
    → p.offset < p.raw_size
    → LineTurn Mode.server p (request_step p c)
unfolding request_step
request_step-Turn p c g o = by_state p.state_m refl
  where
    by_state :
        (s : StateM)
        → p.state_m ≡ s
        → LineTurn Mode.server p
            (elim s [ StateM.start_line l ↦ request_in l p c | _ ↦ halt Halt.aborts ])
    by_state (StateM.start_line l) e = request_in-Turn l p c g.0 g.1 e o
    by_state (StateM.header f) e = tt
    by_state (StateM.body b) e = tt
    by_state StateM.done e = tt

-- From a valid server parser inside a start line, the request line's loop ends within its fuel and
-- makes no access outside the buffer. Where no assertion fails, its result is 0 and it leaves a
-- valid parser.
pub rtsp_parse_request_line-Left :
    (p : Parser)
    → Going Mode.server p
    → Ensures (λ r. Left Mode.server r.0 r.1) (rtsp_parse_request_line p)
unfolding rtsp_parse_request_line
rtsp_parse_request_line-Left p g =
    loop_rule (Going Mode.server) (Left Mode.server) line_measure (λ q. q.offset) request_step
      (λ q h o. omega (arith, h.0.buffer.room)) request_step-Turn (λ q h. (refl, h.0, h.1))
      (line_fuel p) p (omega arith) g
