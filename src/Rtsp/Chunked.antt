-- ===== src/Rtsp/Chunked.antt =====
-- src/common/rtsp-parser.c: rtsp_parse_chunked, which moves the data of the chunks together.
use box_rtsp.Prelude.{
  ℕ, suc, ◌+◌, ◌-◌, ◌*◌, ◌%◌, ◌&&◌, ◌||◌, not, ◌++◌, Option, none, some, ltb, leb, within, ◌==◌,
  if◌then◌else◌, length, take, drop, ℤ, pos, negsuc,
}
use box_rtsp.Prelude.Int.{eq_int}
use box_rtsp.Rtsp.Parser.{Body, StateM, Parser, size_mod, add_size, to_size, to_int, goto}
use box_rtsp.Rtsp.Exec.{
  Halt, Exec, ok, halt, ◌>>=◌, ◌>>◌, assert, peek, poke, Step, leave, go, loop,
}
use box_rtsp.Rtsp.Headers.{is_transfer_encoding_chunked}

-- The three ranges of digits, and their values.
unfoldable pub hex_value : ℕ → Option ℕ
hex_value c =
    if within b'0' b'9' c
    then some (c - b'0')
    else if within b'a' b'f' c
    then some (c - b'a' + 10)
    else if within b'A' b'F' c
    then some (c - b'A' + 10)
    else none

-- `++rtsp->chunk.offset`
abbrev pub chunk_advance : Parser → Parser
chunk_advance p = record p { chunk = record p.chunk { offset = p.chunk.offset + 1 } }

-- The end of the line with the size: `0==rtsp->chunk.len ? CHUNK_TRAILER_START : CHUNK_DATA`.
unfoldable pub size_end : Parser → Parser
size_end p =
    goto (if p.chunk.len == 0 then StateM.body Body.trailer_start else StateM.body Body.chunk_data)
      (record p { chunk = record p.chunk { pos = p.chunk.offset + 1 } })

-- `memmove(rtsp->raw + to, rtsp->raw + from, n)`, inside the bytes that exist.
unfoldable pub move_bytes : Parser → ℕ → ℕ → ℕ → Exec Parser
move_bytes p to from n =
    if leb (from + n) (length p.raw) && leb (to + n) (length p.raw)
    then ok (record p { raw = take to p.raw ++ (take n (drop from p.raw) ++ drop (to + n) p.raw) })
    else halt Halt.faults

-- The data has arrived with the two bytes behind it: check these, move the data, forget the chunk.
unfoldable pub take_chunk : Parser → Exec Step
unfolding move_bytes
take_chunk p =
    let end = add_size p.chunk.pos p.chunk.len in
    let to = add_size p.offset (to_size p.content_length) in
    let n = p.chunk.len in
    do
      c ← peek p end
      d ← peek p (add_size end 1)
      assert (c == b'\r' && d == b'\n')
      q ← move_bytes p to p.chunk.pos n
      q₁ ← poke q (add_size to n) 0
      go (
          goto (StateM.body Body.start) (record q₁ {
            content_length = to_int (add_size (to_size q₁.content_length) n);
            chunk = record {
              offset = add_size (add_size q₁.chunk.offset (add_size n 1)) 1;
              len = 0;
              pos = 0;
            };
          }))

-- `case CHUNK_DATA`
unfoldable pub chunk_data_in : Parser → Exec Step
unfolding take_chunk
chunk_data_in p = do
  assert (ltb 0 p.chunk.len)
  assert (not (p.chunk.pos == 0))
  if ltb p.raw_size (add_size (add_size p.chunk.pos p.chunk.len) 2)
      then ok (leave (pos 0) p)
      else take_chunk p

-- The end of the body: `++rtsp->chunk.offset; rtsp->stateM = SM_DONE; return 0;`
abbrev pub finish : Parser → Exec Step
finish p = ok (leave (pos 0) (chunk_advance (goto StateM.done p)))

unfoldable pub chunk_size_in : Parser → ℕ → Exec Step
unfolding hex_value size_end
chunk_size_in p c = elim (hex_value c) [
  | some d ↦ go (
      chunk_advance
        (record p { chunk = record p.chunk { len = (p.chunk.len * 16 + d) % size_mod } }))
  | none ↦
      if c == b'\t' || c == b' ' || c == b';'
      then go (chunk_advance (goto (StateM.body Body.extension) p))
      else if c == b'\r'
      then go (chunk_advance (goto (StateM.body Body.extension_cr) p))
      else if c == b'\n'
      then go (chunk_advance (size_end p))
      else halt Halt.aborts
]

unfoldable pub chunk_in : Body → Parser → ℕ → Exec Step
unfolding hex_value size_end chunk_data_in chunk_size_in
chunk_in Body.start p c = do
  assert (p.chunk.len == 0)
  elim (hex_value c) [
    | some d ↦ go (
        chunk_advance
          (goto (StateM.body Body.size) (record p { chunk = record p.chunk { len = d } })))
    | none ↦ halt Halt.aborts
  ]
chunk_in Body.size p c = chunk_size_in p c
chunk_in Body.extension p c =
    if c == b'\r'
    then go (chunk_advance (goto (StateM.body Body.extension_cr) p))
    else if c == b'\n'
    then go (chunk_advance (size_end p))
    else go (chunk_advance p)
chunk_in Body.extension_cr p c = do assert (c == b'\n'); go (chunk_advance (size_end p))
chunk_in Body.chunk_data p c = chunk_data_in p
chunk_in Body.trailer_start p c =
    if c == b'\r'
    then go (chunk_advance (goto (StateM.body Body.end_cr) p))
    else if c == b'\n'
    then finish p
    else go (chunk_advance (goto (StateM.body Body.trailer) p))
chunk_in Body.trailer p c =
    if c == b'\r'
    then go (chunk_advance (goto (StateM.body Body.trailer_cr) p))
    else if c == b'\n'
    then go (chunk_advance (goto (StateM.body Body.trailer_start) p))
    else go (chunk_advance p)
chunk_in Body.trailer_cr p c = do
  assert (c == b'\n')
  go (chunk_advance (goto (StateM.body Body.trailer_start) p))
chunk_in Body.end p c =
    if c == b'\r'
    then go (chunk_advance (goto (StateM.body Body.end_cr) p))
    else if c == b'\n'
    then finish p
    else halt Halt.aborts
chunk_in Body.end_cr p c = do assert (c == b'\n'); finish p

-- The switch, which has no default: another number leaves the parser as it is.
unfoldable pub chunk_step : Parser → ℕ → Exec Step
unfolding chunk_in
chunk_step p c = elim p.state_m [ StateM.body b ↦ chunk_in b p c | _ ↦ go (chunk_advance p) ]

-- The first call for a body: `0 == rtsp->chunk.offset`.
unfoldable pub chunk_begin : Parser → Exec Parser
chunk_begin p =
    if p.chunk.offset == 0
    then (do
      assert (eq_int p.content_length (negsuc 0))
      ok (record p { chunk = record p.chunk { offset = p.offset }; content_length = pos 0 }))
    else ok p

unfoldable pub rtsp_parse_chunked : Parser → Exec (ℤ × Parser)
unfolding is_transfer_encoding_chunked chunk_begin chunk_step loop
rtsp_parse_chunked p = do
  assert (is_transfer_encoding_chunked p)
  q ← chunk_begin p
  loop (λ r. r.chunk.offset) chunk_step (suc (q.raw_size - q.chunk.offset)) q
