-- ===== src/Rtsp/Input.antt =====
-- src/common/rtsp-parser.c: rtsp_parser_create, rtsp_parser_clear, rtsp_parser_destroy and
-- rtsp_parser_input.
use box_rtsp.Prelude.{
  ℕ, Bool, true, false, ◌||◌, not, List, [], Option, none, some, ltb, leb, ◌==◌, if◌then◌else◌,
  length, ℤ, pos, negsuc,
}
use box_rtsp.Prelude.Int.{eq_int, is_neg}
use box_rtsp.Rtsp.Parser.{
  Mode, Line, StateM, Parser, Env, slice0, header0, sub_size, add_size, to_size, goto,
}
use box_rtsp.Rtsp.Exec.{Exec, ok, ◌>>=◌, ◌>>◌, assert}
use box_rtsp.Rtsp.Buffer.{rtsp_rawdata, growth, copy_data, append_data}
use box_rtsp.Rtsp.RequestLine.{rtsp_parse_request_line}
use box_rtsp.Rtsp.StatusLine.{rtsp_parse_status_line}
use box_rtsp.Rtsp.Text.{scan_version}
use box_rtsp.Rtsp.Headers.{header_calls, is_transfer_encoding_chunked}
use box_rtsp.Rtsp.HeaderLine.{rtsp_parse_header_line}
use box_rtsp.Rtsp.Chunked.{rtsp_parse_chunked}

unfoldable pub rtsp_parser_clear : Parser → Parser
rtsp_parser_clear p = record p {
  req = record { method = slice0; uri = slice0 };
  reply = record { code = pos 0; reason = slice0 };
  chunk = record { offset = 0; len = 0; pos = 0 };
  state_m = StateM.start_line Line.start;
  offset = 0;
  raw_size = 0;
  headers = [];
  content_length = negsuc 0;
  connection_close = negsuc 0;
  content_encoding = 0;
  transfer_encoding = 0;
  cookie = 0;
  location = 0;
}

-- What `memset` leaves, with the mode.
abbrev pub zeroed : Mode → Parser
zeroed mode = record {
  raw = [];
  raw_size = 0;
  raw_capacity = 0;
  server_mode = mode;
  state_m = StateM.start_line Line.start;
  offset = 0;
  header = header0;
  chunk = record { offset = 0; len = 0; pos = 0 };
  vermajor = pos 0;
  verminor = pos 0;
  req = record { method = slice0; uri = slice0 };
  reply = record { code = pos 0; reason = slice0 };
  headers = [];
  header_capacity = 0;
  content_length = pos 0;
  connection_close = pos 0;
  content_encoding = 0;
  transfer_encoding = 0;
  cookie = 0;
  location = 0;
}

-- The flag says whether `malloc` grants the structure.
unfoldable pub rtsp_parser_create : Bool → Mode → Option Parser
unfolding rtsp_parser_clear
rtsp_parser_create granted mode = if granted then some (rtsp_parser_clear (zeroed mode)) else none

-- The result of the call; the structure is gone after it. `raw` is NULL while nothing was written,
-- and `headers` while the capacity is 0.
unfoldable pub rtsp_parser_destroy : Parser → Exec ℤ
rtsp_parser_destroy p = do
  assert (if length p.raw == 0 then true else ltb 0 p.raw_capacity)
  ok (pos 0)

unfoldable pub in_start_line : Parser → Bool
in_start_line p = elim p.state_m [ StateM.start_line l ↦ true | _ ↦ false ]

unfoldable pub in_header : Parser → Bool
in_header p = elim p.state_m [ StateM.header f ↦ true | _ ↦ false ]

unfoldable pub in_body : Parser → Bool
in_body p = elim p.state_m [ StateM.body b ↦ true | _ ↦ false ]

unfoldable pub is_done : Parser → Bool
is_done p = elim p.state_m [ StateM.done ↦ true | _ ↦ false ]

unfoldable pub start_line_part : ℤ × Parser → Exec (ℤ × Parser)
unfolding in_start_line
start_line_part (r, p) =
    if in_start_line p
    then elim p.server_mode [
      | Mode.server ↦ rtsp_parse_request_line p
      | Mode.client ↦ rtsp_parse_status_line p
    ]
    else ok (r, p)

unfoldable pub header_part : Env → ℤ × Parser → Exec (ℤ × Parser)
unfolding in_header
header_part env (r, p) = if in_header p then rtsp_parse_header_line env p else ok (r, p)

-- A body of a stated length, or of none.
unfoldable pub plain_body : Parser → Exec Parser
plain_body p =
    if eq_int p.content_length (negsuc 0)
    then ok (goto StateM.done (record p { content_length = pos 0 }))
    else (do
      assert (leb p.raw_size (add_size p.offset (to_size p.content_length)))
      ok (
          if leb (add_size p.offset (to_size p.content_length)) p.raw_size
          then goto StateM.done p
          else p))

unfoldable pub body_part : ℤ × Parser → Exec (ℤ × Parser)
unfolding in_body is_transfer_encoding_chunked rtsp_parse_chunked plain_body
body_part (r, p) =
    if in_body p
    then if is_transfer_encoding_chunked p
      then rtsp_parse_chunked p
      else (do q ← plain_body p; ok (r, q))
    else ok (r, p)

-- `*bytes` of a message that is complete.
unfoldable pub remain : Parser → ℕ
remain p =
    sub_size (sub_size p.raw_size p.offset)
      (if is_neg p.content_length then 0 else to_size p.content_length)

-- The end of the call: the result, `*bytes`, and the parser.
unfoldable pub finish_input : ℕ → ℤ × Parser → Exec (ℤ × ℕ × Parser)
unfolding is_done remain
finish_input bytes (r, p) =
    if is_neg r
    then ok (r, bytes, p)
    else if is_done p
    then (do
      assert
          (is_neg p.content_length || leb (to_size p.content_length) (sub_size p.raw_size p.offset))
      ok (pos 0, remain p, p))
    else ok (pos 1, 0, p)

-- The start line, then the headers.
unfoldable pub read_head : Env → ℤ × Parser → Exec (ℤ × Parser)
read_head env r = start_line_part r >>= header_part env

unfoldable pub rtsp_parser_input : Env → Parser → List ℕ → Exec (ℤ × ℕ × Parser)
rtsp_parser_input env p bytes = do
  raw ← rtsp_rawdata env p bytes
  if not (eq_int raw.0 (pos 0))
      then (do assert (is_neg raw.0); ok (raw.0, length bytes, raw.1))
      else (do
        b ← read_head env raw
        assert (is_neg b.0 || eq_int b.0 (pos 0))
        c ← body_part b
        finish_input (length bytes) c)

-- Opening this opens all that a call of the parser comes to.
unfoldable pub parser_calls : Unit {0}
unfolding rtsp_rawdata growth copy_data append_data read_head rtsp_parse_request_line
    rtsp_parse_status_line rtsp_parse_header_line start_line_part header_part body_part finish_input
    header_calls sub_size add_size to_size scan_version rtsp_parser_input
parser_calls = tt
