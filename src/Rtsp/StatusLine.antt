-- ===== src/Rtsp/StatusLine.antt =====
-- src/common/rtsp-parser.c: rtsp_parse_status_line.
use box_rtsp.Prelude.{ℕ, ◌+◌, leb, ◌==◌, if◌then◌else◌, ℤ}
use box_rtsp.Rtsp.Text.{string_at, atoi}
use box_rtsp.Rtsp.Parser.{
  Line, StateM, Parser, set_pos, set_len, advance, goto, is_blank, ends_word,
}
use box_rtsp.Rtsp.Exec.{Halt, Exec, ok, halt, ◌>>=◌, ◌>>◌, assert, poke, Step, go, loop}
use box_rtsp.Rtsp.RequestLine.{read_version, known_version, to_headers, trailing_blanks, line_fuel}

-- `case SM_STATUS_LF`
unfoldable pub status_lf : Parser → ℕ → Exec Step
unfolding read_version known_version atoi string_at
status_lf p c = do
  assert (c == b'\n')
  assert (leb 8 p.header.name.len)
  q ← read_version p
  assert (q.header.value.len == 3)
  assert (leb 1 q.reply.reason.len)
  q₁ ← poke q (q.reply.reason.pos + q.reply.reason.len) 0
  q₂ ← poke q₁ (q.header.value.pos + q.header.value.len) 0
  let q₃ = record q₂ {
    reply = record q₂.reply { code = atoi (string_at q₂.raw q.header.value.pos) };
  }
  assert (known_version q₃)
  ok (to_headers q₃)

unfoldable pub status_in : Line → Parser → ℕ → Exec Step
unfolding trailing_blanks status_lf
status_in Line.start p c =
    if is_blank c
    then go (advance p)
    else go (
        goto (StateM.start_line Line.first)
          (record p { header = record p.header { name = set_pos p.header.name p.offset } }))
status_in Line.first p c =
    if ends_word c
    then go (
        goto (StateM.start_line Line.sp1)
          (record p { header = record p.header { name = set_len p.header.name p.offset } }))
    else go (advance p)
status_in Line.sp1 p c =
    if is_blank c
    then go (advance p)
    else go (
        goto (StateM.start_line Line.second)
          (record p { header = record p.header { value = set_pos p.header.value p.offset } }))
status_in Line.second p c =
    if ends_word c
    then go (
        goto (StateM.start_line Line.sp2)
          (record p { header = record p.header { value = set_len p.header.value p.offset } }))
    else go (advance p)
status_in Line.sp2 p c =
    if is_blank c
    then go (advance p)
    else go (
        goto (StateM.start_line Line.third)
          (record p { reply = record p.reply { reason = set_pos p.reply.reason p.offset } }))
status_in Line.third p c =
    if ends_word c
    then go (
        goto (StateM.start_line Line.sp3)
          (record p { reply = record p.reply { reason = set_len p.reply.reason p.offset } }))
    else go (advance p)
status_in Line.sp3 p c = ok (
    trailing_blanks (StateM.start_line Line.third) (StateM.start_line Line.cr)
      (StateM.start_line Line.lf) p c)
status_in Line.cr p c = do assert (c == b'\n'); go (goto (StateM.start_line Line.lf) p)
status_in Line.lf p c = status_lf p c

-- The switch; a number of another machine is the default case.
unfoldable pub status_step : Parser → ℕ → Exec Step
unfolding status_in
status_step p c = elim p.state_m [ StateM.start_line l ↦ status_in l p c | _ ↦ halt Halt.aborts ]

unfoldable pub rtsp_parse_status_line : Parser → Exec (ℤ × Parser)
unfolding loop status_step
rtsp_parse_status_line p = loop (λ q. q.offset) status_step (line_fuel p) p
