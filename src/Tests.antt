-- ===== src/Tests.antt =====
-- Runs of the model on inputs, and the theorems at concrete inputs.
mod Relays
mod Commands
mod Answers
mod Registered
mod Orders
mod Bodies
mod Headers
mod Messages
mod Starting
use box_rtsp.Prelude.{
  ℕ, zero, suc, ap, ◌⊎◌, ◌+◌, ◌*◌, ◌≤◌, ◌<◌, ◌≡◌, refl, inl, inr, Bool, true, false, List, [], ◌∷◌,
  ◌++◌, Option, none, some, arith, length, ℤ, pos, negsuc,
}
use box_rtsp.UrlCode.{is_plain, encode_byte, url_encode, url_decode}
use box_rtsp.UrlCode.Bounds.{IsText, url_code-le, url_decode-IsText}
use box_rtsp.UrlCode.RoundTrip.{url_decode-url_encode}
use box_rtsp.Rtsp.Parser.{Mode, Parser, Env}
use box_rtsp.Rtsp.Exec.{Halt, Exec, ok, halt, ◌>>=◌}
use box_rtsp.Rtsp.Headers.{codes}
use box_rtsp.Rtsp.RequestLine.{rtsp_parse_request_line}
use box_rtsp.Rtsp.StatusLine.{rtsp_parse_status_line}
use box_rtsp.Rtsp.HeaderLine.{rtsp_parse_header_line}
use box_rtsp.Rtsp.Buffer.{rtsp_rawdata, kb}
use box_rtsp.Rtsp.Input.{parser_calls, rtsp_parser_input, rtsp_parser_clear, zeroed, read_head}
use box_rtsp.Rtsp.Getters.{rtsp_get_status_code, rtsp_get_header_by_name, rtsp_get_content_length}
use box_rtsp.Rtsp.Safe.Call.{Finished, rtsp_parser_input-Finished}
use box_rtsp.Prelude.{sym, ◌∙◌}
use box_rtsp.Rtsp.Headers.{is_transfer_encoding_chunked}
use box_rtsp.Rtsp.Safe.Rules.{Ensures}
use box_rtsp.Rtsp.Safe.Place.{IsValid}
use box_rtsp.Rtsp.Safe.StartLine.{Going, Left}
use box_rtsp.Rtsp.Safe.RequestLine.{rtsp_parse_request_line-Left}
use box_rtsp.Rtsp.Safe.HeaderLine.{rtsp_parse_header_line-Left}
use box_rtsp.Rtsp.Safe.Buffer.{IsSized, IsReady, Appended, rtsp_rawdata-Appended}
use box_rtsp.Rtsp.Safe.Input.{Parsed, read_head-Parsed, rtsp_parser_input_large}
use box_rtsp.Rtsp.Buffer.{append_data, e2big, enomem}
use box_rtsp.Rtsp.Parser.{Field, StateM}
use box_rtsp.Rtsp.Safe.StatusLine.{rtsp_parse_status_line-Left}

abbrev pub env : Env
env = record { body_max_size = 0; grants = λ n. true }

abbrev pub fresh : Mode → Parser
unfolding rtsp_parser_clear
fresh mode = rtsp_parser_clear (zeroed mode)

abbrev answer : List ℕ
answer = codes "RTSP/1.0 200 OK\r\nCSeq: 3\r\nContent-Length: 5\r\n\r\nhello"

code_of : Exec (ℤ × ℕ × Parser) → Exec (ℤ × ℕ × ℤ × Option ℕ × ℤ)
unfolding rtsp_get_status_code rtsp_get_header_by_name rtsp_get_content_length
code_of m = do
  r ← m
  c ← rtsp_get_status_code r.2
  h ← rtsp_get_header_by_name r.2 (codes "cseq")
  l ← rtsp_get_content_length r.2
  ok (r.0, r.1, c, h, l)

answer_read :
    code_of (rtsp_parser_input env (fresh Mode.client) answer)
    ≡ ok (pos 0, 0, pos 200, some 23, pos 5)
unfolding code_of rtsp_parser_input parser_calls fresh
answer_read = refl

-- A parser that has received `s` and read nothing of it.
abbrev pub received_by : Mode → List ℕ → Parser
received_by mode s = record (fresh mode) {
  raw = s ++ (0 ∷ []);
  raw_size = length s;
  raw_capacity = 8 * kb;
}

abbrev request : Parser
request = received_by Mode.server (codes "OPTIONS * RTSP/1.0\r\n")

request-IsValid : IsValid request
unfolding fresh
request-IsValid = record {
  buffer = record { room = omega arith; nul = refl; small = omega arith };
  reached = omega arith;
  held = omega arith;
  stored = tt;
  place = tt;
}

rtsp_parse_request_line-Left_example :
    Ensures (λ r. Left Mode.server r.0 r.1) (rtsp_parse_request_line request)
unfolding fresh
rtsp_parse_request_line-Left_example =
    rtsp_parse_request_line-Left request (request-IsValid, refl, refl)

abbrev reply_line : Parser
reply_line = received_by Mode.client (codes "RTSP/1.0 200 OK\r\n")

reply_line-IsValid : IsValid reply_line
unfolding fresh
reply_line-IsValid = record {
  buffer = record { room = omega arith; nul = refl; small = omega arith };
  reached = omega arith;
  held = omega arith;
  stored = tt;
  place = tt;
}

rtsp_parse_status_line-Left_example :
    Ensures (λ r. Left Mode.client r.0 r.1) (rtsp_parse_status_line reply_line)
unfolding fresh
rtsp_parse_status_line-Left_example =
    rtsp_parse_status_line-Left reply_line (reply_line-IsValid, refl, refl)

abbrev fields : Parser
fields = record (received_by Mode.client (codes "CSeq: 1\r\nB: c\r\n\r\n")) {
  state_m = StateM.header Field.start;
}

fields-IsValid : IsValid fields
unfolding fresh
fields-IsValid = record {
  buffer = record { room = omega arith; nul = refl; small = omega arith };
  reached = omega arith;
  held = omega arith;
  stored = tt;
  place = omega arith;
}

rtsp_parse_header_line-Left_example :
    Ensures
      (λ r. box_rtsp.Rtsp.Safe.HeaderLine.Left Mode.client r.0 r.1)
      (rtsp_parse_header_line env fields)
unfolding fresh
rtsp_parse_header_line-Left_example =
    rtsp_parse_header_line-Left env Mode.client fields (fields-IsValid, refl, refl)

fresh-IsReady : IsReady (fresh Mode.client)
unfolding fresh
fresh-IsReady = record {
  sized = record { holds = omega arith; fits = omega arith; small = omega arith };
  inside = omega arith;
  reached = omega arith;
  held = omega arith;
  stored = tt;
  place = tt;
}

rtsp_rawdata-Appended_example :
    Ensures
      (λ r.
        ((r.0 ≡ pos 0) × Appended (fresh Mode.client) answer r.1)
        ⊎ (((r.0 ≡ e2big) ⊎ (r.0 ≡ enomem)) × (r.1 ≡ fresh Mode.client)))
      (rtsp_rawdata env (fresh Mode.client) answer)
rtsp_rawdata-Appended_example = rtsp_rawdata-Appended env (fresh Mode.client) answer fresh-IsReady

abbrev given_answer : Parser
unfolding append_data fresh
given_answer = append_data (record (fresh Mode.client) { raw_capacity = 8 * kb }) answer

answer_taken : rtsp_rawdata env (fresh Mode.client) answer ≡ ok (pos 0, given_answer)
unfolding parser_calls fresh
answer_taken = refl

read_head-Parsed_example : Ensures (Parsed Mode.client) (read_head env (pos 0, given_answer))
unfolding fresh
read_head-Parsed_example =
    read_head-Parsed env (fresh Mode.client) given_answer answer fresh-IsReady answer_taken

zeros : ℕ → List ℕ
zeros zero = []
zeros (suc n) = 0 ∷ zeros n

length-zeros : (n : ℕ) → length (zeros n) ≡ n
unfolding zeros
length-zeros zero = refl
length-zeros (suc n) = ap suc (length-zeros n)

rtsp_parser_input_large_example :
    rtsp_parser_input env (rtsp_parser_clear (zeroed Mode.client)) (zeros 8191) ≡ halt Halt.aborts
rtsp_parser_input_large_example =
    rtsp_parser_input_large env Mode.client (zeros 8191) (omega (arith, length-zeros 8191))

url_code-le_example :
    (length (url_encode (codes "a%20b") (negsuc 0) 4).target ≤ 4)
    × (length (url_decode (codes "a%20b") (negsuc 0) 4).target ≤ 4)
url_code-le_example = url_code-le (codes "a%20b") (negsuc 0) 4

url_decode-IsText_example : IsText 5 (url_decode (codes "a%20b") (negsuc 0) 6).target
url_decode-IsText_example = url_decode-IsText (codes "a%20b") (negsuc 0) 6 (omega arith)

url_decode-url_encode_example :
    (url_encode (codes "a b") (negsuc 0) 10 ≡ record { ret = pos 0; target = codes "a+b\0" })
    × (url_decode (codes "a+b") (pos 3) 4 ≡ record { ret = pos 0; target = codes "a b\0" })
unfolding encode_byte is_plain
url_decode-url_encode_example =
    url_decode-url_encode (codes "a b") 10 4 (pos 3)
      ((omega arith, omega arith), ((omega arith, omega arith), ((omega arith, omega arith), tt)))
      (omega arith) (omega arith) (inr refl)

chunked_after : Exec (ℤ × Parser) → Bool
chunked_after (ok r) = is_transfer_encoding_chunked r.1
chunked_after (halt h) = false

answer_not_chunked :
    chunked_after (rtsp_rawdata env (fresh Mode.client) answer >>= read_head env) ≡ false
unfolding chunked_after is_transfer_encoding_chunked parser_calls fresh
answer_not_chunked = refl

answer_headed :
    (q : Parser) (r : ℤ × Parser)
    → rtsp_rawdata env (fresh Mode.client) answer ≡ ok (pos 0, q)
    → read_head env (pos 0, q) ≡ ok r
    → is_transfer_encoding_chunked r.1 ≡ false
unfolding chunked_after
answer_headed q r e h =
    sym (ap chunked_after h)
    ∙ sym (ap (λ m. chunked_after (m >>= read_head env)) e)
    ∙ answer_not_chunked

rtsp_parser_input-Finished_example :
    Ensures (Finished Mode.client) (rtsp_parser_input env (fresh Mode.client) answer)
unfolding fresh
rtsp_parser_input-Finished_example =
    rtsp_parser_input-Finished env (fresh Mode.client) answer fresh-IsReady answer_headed
