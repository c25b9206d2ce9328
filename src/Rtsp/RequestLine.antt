-- ===== src/Rtsp/RequestLine.antt =====
-- src/common/rtsp-parser.c: rtsp_parse_request_line.
use box_rtsp.Prelude.{
  ℕ, suc, ◌+◌, ◌-◌, ◌*◌, Bool, false, ◌||◌, none, some, leb, ◌==◌, if◌then◌else◌, ℤ, pos,
}
use box_rtsp.Prelude.Int.{eq_int}
use box_rtsp.Rtsp.Text.{string_at, scan_version}
use box_rtsp.Rtsp.Parser.{
  Line, StateM, Field, Parser, set_pos, set_len, advance, goto, is_blank, ends_word,
}
use box_rtsp.Rtsp.Exec.{Halt, Exec, ok, halt, ◌>>=◌, ◌>>◌, assert, poke, Step, leave, go, loop}

-- The numbers that `sscanf` reads from the version, or the failed assertion.
unfoldable pub read_version : Parser → Exec Parser
read_version p = elim (scan_version (string_at p.raw p.header.name.pos)) [
  | none ↦ halt Halt.aborts
  | some (major, minor) ↦ ok (record p { vermajor = major; verminor = minor })
]

-- `assert(1 == vermajor || 2 == vermajor); assert(1 == verminor || 0 == verminor)`
unfoldable pub known_version : Parser → Bool
known_version p =
    if eq_int p.vermajor (pos 1) || eq_int p.vermajor (pos 2)
    then eq_int p.verminor (pos 1) || eq_int p.verminor (pos 0)
    else false

-- The end of the start line: to the headers, behind the '\n'.
abbrev pub to_headers : Parser → Step
to_headers p = leave (pos 0) (advance (goto (StateM.header Field.start) p))

-- `case SM_REQUEST_LF`
unfoldable pub request_lf : Parser → ℕ → Exec Step
unfolding read_version known_version
request_lf p c = do
  assert (c == b'\n')
  assert (leb 1 p.req.method.len)
  assert (leb 1 p.req.uri.len)
  assert (leb 8 p.header.name.len)
  q ← read_version p
  q₁ ← poke q (q.req.method.pos + q.req.method.len) 0
  q₂ ← poke q₁ (q.req.uri.pos + q.req.uri.len) 0
  assert (known_version q₂)
  ok (to_headers q₂)

-- `case SM_REQUEST_SP3`, with the state of the word in front of the blanks
unfoldable pub trailing_blanks : StateM → StateM → StateM → Parser → ℕ → Step
trailing_blanks word at_cr at_lf p c =
    if is_blank c
    then Step.next (advance p)
    else if c == b'\r'
    then Step.next (advance (goto at_cr p))
    else if c == b'\n'
    then Step.next (goto at_lf p)
    else Step.next (advance (goto word p))

unfoldable pub request_in : Line → Parser → ℕ → Exec Step
unfolding trailing_blanks request_lf
request_in Line.start p c =
    if is_blank c
    then go (advance p)
    else go (
        goto (StateM.start_line Line.first)
          (record p { req = record p.req { method = set_pos p.req.method p.offset } }))
request_in Line.first p c =
    if ends_word c
    then go (
        goto (StateM.start_line Line.sp1)
          (record p { req = record p.req { method = set_len p.req.method p.offset } }))
    else go (advance p)
request_in Line.sp1 p c =
    if is_blank c
    then go (advance p)
    else go (
        goto (StateM.start_line Line.second)
          (record p { req = record p.req { uri = set_pos p.req.uri p.offset } }))
request_in Line.second p c =
    if ends_word c
    then go (
        goto (StateM.start_line Line.sp2)
          (record p { req = record p.req { uri = set_len p.req.uri p.offset } }))
    else go (advance p)
request_in Line.sp2 p c =
    if is_blank c
    then go (advance p)
    else go (
        goto (StateM.start_line Line.third)
          (record p { header = record p.header { name = set_pos p.header.name p.offset } }))
request_in Line.third p c =
    if ends_word c
    then go (
        goto (StateM.start_line Line.sp3)
          (record p { header = record p.header { name = set_len p.header.name p.offset } }))
    else go (advance p)
request_in Line.sp3 p c = ok (
    trailing_blanks (StateM.start_line Line.third) (StateM.start_line Line.cr)
      (StateM.start_line Line.lf) p c)
request_in Line.cr p c = do assert (c == b'\n'); go (goto (StateM.start_line Line.lf) p)
request_in Line.lf p c = request_lf p c

-- The switch; a number of another machine is the default case.
unfoldable pub request_step : Parser → ℕ → Exec Step
unfolding request_in
request_step p c = elim p.state_m [ StateM.start_line l ↦ request_in l p c | _ ↦ halt Halt.aborts ]

-- At most nine turns for each byte.
abbrev pub line_fuel : Parser → ℕ
line_fuel p = suc (9 * (p.raw_size - p.offset) + 9)

unfoldable pub rtsp_parse_request_line : Parser → Exec (ℤ × Parser)
unfolding loop request_step
rtsp_parse_request_line p = loop (λ q. q.offset) request_step (line_fuel p) p
