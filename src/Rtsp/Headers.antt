-- ===== src/Rtsp/Headers.antt =====
-- src/common/rtsp-parser.c: rtsp_header_handler, which keeps what the known headers say, and
-- rtsp_header_add, which stores a header.
use Prim.Native.String.{String}
use Prim.Native.Char.{code}
use box_rtsp.Prelude.{
  ℕ, zero, suc, ◌+◌, ◌*◌, ◌/◌, Bool, true, false, not, ◌&&◌, ◌||◌, List, [], ◌∷◌, ◌++◌, ltb, leb,
  ◌==◌, if◌then◌else◌, length, ℤ, pos, negsuc,
}
use box_rtsp.Prelude.Int.{eq_int}
use box_rtsp.Rtsp.Text.{string_at, strcasecmp, strncasecmp, atoi}
use box_rtsp.Rtsp.Parser.{Header, Parser, Env, to_int}
use box_rtsp.Rtsp.Exec.{Halt, Exec, ok, halt, ◌>>=◌, ◌>>◌, assert, poke}
use box_rtsp.Rtsp.Buffer.{enomem}

-- The bytes of a literal of the source, all ASCII.
abbrev pub codes : String → List ℕ
codes String.[] = []
codes (String.◌∷◌ c s) = code c ∷ codes s

-- RFC 2616 H2.2: no control byte and no separator.
unfoldable pub is_token_byte : ℕ → Bool
is_token_byte c = not (
    leb c 31
    || leb 127 c
    || c == b'('
    || c == b')'
    || c == b'<'
    || c == b'>'
    || c == b'@'
    || c == b','
    || c == b';'
    || c == b':'
    || c == b'\\'
    || c == b'"'
    || c == b'/'
    || c == b'['
    || c == b']'
    || c == b'?'
    || c == b'='
    || c == b'{'
    || c == b'}'
    || c == b' ')

-- On the string at `s`: its first `len` bytes exist and are token bytes.
unfoldable pub is_valid_token : List ℕ → ℕ → Bool
unfolding is_token_byte
is_valid_token s zero = true
is_valid_token [] (suc len) = false
is_valid_token (c ∷ cs) (suc len) = is_token_byte c && is_valid_token cs len

abbrev pub chunked_text : List ℕ
chunked_text = codes "chunked"

unfoldable pub is_transfer_encoding_chunked : Parser → Bool
unfolding strncasecmp string_at
is_transfer_encoding_chunked p =
    ltb 0 p.transfer_encoding && strncasecmp chunked_text (string_at p.raw p.transfer_encoding) 7

-- `content_length >= 0 && (0 == s_body_max_size || content_length < (int)s_body_max_size)`
unfoldable pub length_allowed : Env → ℤ → Bool
unfolding to_int
length_allowed env (negsuc n) = false
length_allowed env (pos n) =
    env.body_max_size == 0 || elim (to_int env.body_max_size) [ pos m ↦ ltb n m | negsuc m ↦ false ]

-- The branch of Content-Length.
unfoldable pub handle_length : Env → Parser → List ℕ → Exec Parser
handle_length env p value =
    let n = if is_transfer_encoding_chunked p then negsuc 0 else atoi value in
    do assert (length_allowed env n); ok (record p { content_length = n })

-- The branch of Transfer-Encoding.
unfoldable pub handle_transfer : Parser → ℕ → List ℕ → Exec Parser
handle_transfer p vpos value =
    let q = record p { transfer_encoding = vpos } in
    if strncasecmp chunked_text value 7
    then (do assert (eq_int q.content_length (negsuc 0)); poke q (q.transfer_encoding + 7) 0)
    else ok q

unfoldable pub rtsp_header_handler : Env → Parser → ℕ → ℕ → Exec Parser
rtsp_header_handler env p npos vpos =
    let name = string_at p.raw npos in
    let value = string_at p.raw vpos in
    if strcasecmp (codes "Content-Length") name
    then handle_length env p value
    else if strcasecmp (codes "Connection") name
    then ok
        (record p { connection_close = if strcasecmp (codes "close") value then pos 1 else pos 0 })
    else if strcasecmp (codes "Content-Encoding") name
    then ok (record p { content_encoding = vpos })
    else if strcasecmp (codes "Transfer-Encoding") name
    then handle_transfer p vpos value
    else if strcasecmp (codes "Set-Cookie") name
    then ok (record p { cookie = vpos })
    else if strcasecmp (codes "Location") name
    then ok (record p { location = vpos })
    else ok p

-- `sizeof(struct rtsp_header_t)`: four words
abbrev pub header_bytes : ℕ
header_bytes = 16

unfoldable pub header_growth : Parser → ℕ
header_growth p = if ltb p.header_capacity 16 then 16 else length p.headers * 3 / 2

-- The part of rtsp_header_add behind the allocation. The copy goes to entry `header_size`.
unfoldable pub store_header : Parser → Header → Exec (ℤ × Parser)
store_header p h = do
  assert (ltb 0 h.name.pos)
  assert (ltb 0 h.name.len)
  assert (ltb 0 h.value.pos)
  assert (is_valid_token (string_at p.raw h.name.pos) h.name.len)
  q ← poke p (h.name.pos + h.name.len) 0
  q₁ ← poke q (h.value.pos + h.value.len) 0
  if ltb (length q₁.headers) q₁.header_capacity
      then ok (pos 0, record q₁ { headers = q₁.headers ++ h ∷ [] })
      else halt Halt.faults

unfoldable pub rtsp_header_add : Env → Parser → Header → Exec (ℤ × Parser)
rtsp_header_add env p h =
    if leb p.header_capacity (length p.headers + 1)
    then if env.grants (header_bytes * header_growth p)
      then store_header (record p { header_capacity = header_growth p }) h
      else ok (enomem, p)
    else store_header p h

-- Opening this opens all that the handling of a header calls.
unfoldable pub header_calls : Unit {0}
unfolding rtsp_header_add store_header header_growth is_valid_token rtsp_header_handler
    handle_length handle_transfer is_transfer_encoding_chunked length_allowed strcasecmp strncasecmp
    string_at atoi
header_calls = tt
