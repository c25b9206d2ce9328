-- ===== src/Rtsp/HeaderLine.antt =====
-- src/common/rtsp-parser.c: rtsp_parse_header_line.
use box_rtsp.Prelude.{
  ℕ, zero, suc, ◌+◌, ◌-◌, ◌||◌, List, [], ◌∷◌, Option, none, some, leb, ◌==◌, if◌then◌else◌, ℤ, pos,
  negsuc,
}
use box_rtsp.Prelude.Int.{eq_int}
use box_rtsp.Rtsp.Parser.{
  Field, Body, StateM, Parser, Header, Env, sub_size, add_size, set_pos, set_len, advance, goto,
  is_blank, ends_word,
}
use box_rtsp.Rtsp.Exec.{Halt, Exec, ok, halt, ◌>>=◌, ◌>>◌, assert, poke, Step, leave, go, loop}
use box_rtsp.Rtsp.RequestLine.{trailing_blanks, line_fuel}
use box_rtsp.Rtsp.Headers.{rtsp_header_add, rtsp_header_handler}

-- `for (i = from; i < from + n; i++) rtsp->raw[i] = ' ';`
unfoldable pub fill_blanks : ℕ → ℕ → Parser → Exec Parser
fill_blanks zero i p = ok p
fill_blanks (suc n) i p = poke p i b' ' >>= fill_blanks n (i + 1)

-- `headers[header_size - 1]`, and a write to it
unfoldable pub last_header : List Header → Option Header
last_header [] = none
last_header (h ∷ hs) = elim (last_header hs) [ none ↦ some h | some l ↦ some l ]

unfoldable pub set_last : List Header → Header → List Header
set_last [] l = []
set_last (h ∷ []) l = l ∷ []
set_last (h ∷ (x ∷ hs)) l = h ∷ set_last (x ∷ hs) l

-- A line that continues the header `h`, the last one stored. The blanks start at index
-- `h->value.len`, as in the source.
unfoldable pub fold_line : Env → Parser → Header → Exec Parser
fold_line env p h = do
  q ← fill_blanks (p.header.value.pos - h.value.len) h.value.len p
  let n = add_size (sub_size q.header.value.pos h.value.pos) q.header.value.len
  let l = record h { value = record h.value { len = n } }
  q₁ ← poke (record q { headers = set_last q.headers l }) (l.value.pos + n) 0
  rtsp_header_handler env q₁ l.name.pos l.value.pos

-- A line with a name: store it and act on it. The number is not 0 where there is no memory.
unfoldable pub name_line : Env → Parser → Exec (ℤ × Parser)
name_line env p = do
  assert (leb 1 p.header.name.len)
  added ← rtsp_header_add env p p.header
  if eq_int added.0 (pos 0)
      then (do
        q ← rtsp_header_handler env added.1 p.header.name.pos p.header.value.pos
        ok (pos 0, q))
      else ok added

-- `rtsp->stateM = SM_HEADER;`, and the loop's increment
abbrev pub next_line : Parser → Exec Step
next_line p = go (advance (goto (StateM.header Field.start) p))

-- `case SM_HEADER_LF`
unfoldable pub header_lf : Env → Parser → ℕ → Exec Step
header_lf env p c = do
  assert (c == b'\n')
  if p.header.value.pos == 0
      then ok (leave (pos 0) (advance (goto (StateM.body Body.start) p)))
      else if p.header.name.pos == 0
      then elim (last_header p.headers) [
        | none ↦ halt Halt.aborts
        | some h ↦ fold_line env p h >>= next_line
      ]
      else name_line env p >>= λ added.
          if eq_int added.0 (pos 0) then next_line added.1 else ok (leave (negsuc 0) added.1)

-- `case SM_HEADER_START`
unfoldable pub header_start : Parser → ℕ → Step
header_start p c =
    if is_blank c
    then Step.next (
        advance (
          goto (StateM.header Field.sp2)
            (record p { header = record p.header { name = set_pos p.header.name 0 } })))
    else if c == b'\r'
    then Step.next (
        advance (
          goto (StateM.header Field.cr)
            (record p { header = record p.header { value = set_pos p.header.value 0 } })))
    else if c == b'\n'
    then Step.next (
        goto (StateM.header Field.lf)
          (record p { header = record p.header { value = set_pos p.header.value 0 } }))
    else Step.next (
        goto (StateM.header Field.name)
          (record p { header = record p.header { name = set_pos p.header.name p.offset } }))

unfoldable pub header_in : Env → Field → Parser → ℕ → Exec Step
header_in env Field.start p c = ok (header_start p c)
header_in env Field.name p c =
    if ends_word c || c == b':'
    then go (
        goto (StateM.header Field.sp1)
          (record p { header = record p.header { name = set_len p.header.name p.offset } }))
    else go (advance p)
header_in env Field.sp1 p c =
    if is_blank c then go (advance p) else go (goto (StateM.header Field.separator) p)
header_in env Field.separator p c = do
  assert (c == b':')
  go (advance (goto (StateM.header Field.sp2) p))
header_in env Field.sp2 p c =
    if is_blank c
    then go (advance p)
    else go (
        goto (StateM.header Field.value)
          (record p { header = record p.header { value = set_pos p.header.value p.offset } }))
header_in env Field.value p c =
    if ends_word c
    then go (
        goto (StateM.header Field.sp3)
          (record p { header = record p.header { value = set_len p.header.value p.offset } }))
    else go (advance p)
header_in env Field.sp3 p c = ok (
    trailing_blanks (StateM.header Field.value) (StateM.header Field.cr) (StateM.header Field.lf) p
      c)
header_in env Field.cr p c = do assert (c == b'\n'); go (goto (StateM.header Field.lf) p)
header_in env Field.lf p c = header_lf env p c

unfoldable pub header_step : Env → Parser → ℕ → Exec Step
unfolding header_in
header_step env p c = elim p.state_m [
  | StateM.header f ↦ header_in env f p c
  | _ ↦ halt Halt.aborts
]

unfoldable pub rtsp_parse_header_line : Env → Parser → Exec (ℤ × Parser)
unfolding loop header_step header_in header_lf header_start trailing_blanks fold_line fill_blanks
    last_header set_last name_line
rtsp_parse_header_line env p = loop (λ q. q.offset) (header_step env) (line_fuel p) p
