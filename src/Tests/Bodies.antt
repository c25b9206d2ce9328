-- ===== src/Tests/Bodies.antt =====
-- src/common/rtsp-parser.c: chunked bodies and the lookup of headers, run and at concrete inputs.
use box_rtsp.Prelude.{
  ℕ, zero, suc, ◌-◌, ◌^◌, ◌<◌, ◌≡◌, refl, sym, false, some, List, [], ◌∷◌, ◌++◌, arith, ℤ, pos,
  negsuc,
}
use box_rtsp.Rtsp.Parser.{Mode, Body, StateM, Parser}
use box_rtsp.Rtsp.Exec.{Halt, Exec, ok, halt, ◌>>=◌}
use box_rtsp.Rtsp.Text.{strcasecmp, string_at}
use box_rtsp.Rtsp.Headers.{codes, is_transfer_encoding_chunked}
use box_rtsp.Rtsp.Chunked.{hex_value, rtsp_parse_chunked}
use box_rtsp.Rtsp.Input.{parser_calls, rtsp_parser_input}
use box_rtsp.Rtsp.Getters.{headers_read, get_header?, rtsp_get_header, rtsp_get_header_by_name}
use box_rtsp.Rtsp.Found.{rtsp_get_header_by_name-rtsp_get_header}
use box_rtsp.Rtsp.Body.Grammar.{Piece, IsPiece, AllPieces}
use box_rtsp.Rtsp.Body.Decoded.{Decoded, rtsp_parse_chunked-encode}
use box_rtsp.Rtsp.Safe.Chunked.{Ends, Left, rtsp_parse_chunked-Left}
use box_rtsp.Rtsp.Safe.Overrun.{rtsp_parse_chunked_overrun}
use box_rtsp.Tests.{env, fresh, received_by}

abbrev chunked_answer : List ℕ
chunked_answer =
    codes "RTSP/1.0 200 OK\r\nTransfer-Encoding: chunked\r\n\r\n3\r\nabc\r\n2;x\nde\r\n0\r\n\r\n"

-- The result, the bytes that are left, and the length of the body.
body_of : Exec (ℤ × ℕ × Parser) → Exec (ℤ × ℕ × ℤ × StateM)
body_of m = m >>= λ r. ok (r.0, r.1, r.2.content_length, r.2.state_m)

chunks_read :
    body_of (rtsp_parser_input env (fresh Mode.client) chunked_answer)
    ≡ ok (pos 0, 16, pos 5, StateM.done)
unfolding body_of rtsp_parser_input parser_calls fresh
chunks_read = refl

-- The size leads back to the end of the line behind the headers.
abbrev wrapping_answer : List ℕ
wrapping_answer = codes "RTSP/1.0 200 OK\r\nTransfer-Encoding: chunked\r\n\r\nFFFFFFF4\r\nx"

wrapping_fails : rtsp_parser_input env (fresh Mode.client) wrapping_answer ≡ halt Halt.faults
unfolding rtsp_parser_input parser_calls fresh
wrapping_fails = refl

abbrev in_body : ℕ → List ℕ → Body → ℕ → ℕ → Parser
in_body transfer s b offset len = record (received_by Mode.client s) {
  state_m = StateM.body b;
  offset = 47;
  transfer_encoding = transfer;
  content_length = pos 0;
  chunk = record { offset = offset; len = len; pos = offset };
}

rtsp_parse_chunked-Left_example :
    Ends
      (λ r. Left (in_body 36 chunked_answer Body.start 47 0) r.0 r.1)
      (rtsp_parse_chunked (in_body 36 chunked_answer Body.start 47 0))
unfolding fresh
rtsp_parse_chunked-Left_example =
    rtsp_parse_chunked-Left (in_body 36 chunked_answer Body.start 47 0) (omega arith, omega arith)

rtsp_parse_chunked_overrun_example :
    rtsp_parse_chunked (in_body 36 wrapping_answer Body.chunk_data 57 (2 ^ 32 - 12))
    ≡ halt Halt.faults
unfolding fresh is_transfer_encoding_chunked parser_calls
rtsp_parse_chunked_overrun_example =
    rtsp_parse_chunked_overrun (in_body 36 wrapping_answer Body.chunk_data 57 (2 ^ 32 - 12))
      (omega arith, omega arith) refl
      (record {
        waits = refl;
        begun = omega arith;
        reached = omega arith;
        sized = omega arith;
        placed = omega arith;
        wraps = omega arith;
        once = omega arith;
        cr = refl;
        lf = refl;
      })

abbrev strict_answer : List ℕ
strict_answer =
    codes "RTSP/1.0 200 OK\r\nTransfer-Encoding: chunked\r\n\r\n3\r\nabc\r\n2;x\r\nde\r\n0\r\n\r\n"

-- The chunks of that answer, the second with an extension.
abbrev two_chunks : List Piece
two_chunks =
    record { first = b'3'; digits = []; ext = []; content = codes "abc" }
    ∷ record { first = b'2'; digits = []; ext = codes ";x"; content = codes "de" }
    ∷ []

two_chunks-AllPieces : AllPieces two_chunks
unfolding hex_value
two_chunks-AllPieces =
    let a : IsPiece (record { first = b'3'; digits = []; ext = []; content = codes "abc" }) =
      record { size = refl; filled = omega arith; extension = refl } in
    let b : IsPiece (record { first = b'2'; digits = []; ext = codes ";x"; content = codes "de" }) =
      record { size = refl; filled = omega arith; extension = refl } in
    (a, (b, tt))

abbrev before_body : Parser
before_body = record (in_body 36 strict_answer Body.start 0 0) { content_length = negsuc 0 }

rtsp_parse_chunked-encode_example :
    (q : Parser) × (rtsp_parse_chunked before_body ≡ ok (pos 0, q))
    × Decoded before_body q (codes "abcde") 69
unfolding fresh is_transfer_encoding_chunked parser_calls
rtsp_parse_chunked-encode_example =
    rtsp_parse_chunked-encode before_body two_chunks two_chunks-AllPieces (omega arith, omega arith)
      refl (record { waits = refl; offset = refl; len = refl; start = refl; unknown = refl })
      (omega arith) (omega arith)

-- Two headers of which the second has the name.
abbrev named : Parser
named = record (received_by Mode.client (codes "CSeq: 3\r\nDate: now\r\n")) {
  state_m = StateM.done;
  raw =
      codes "CSeq"
      ++ (0 ∷ 32 ∷ codes "3"
          ++ (0 ∷ 0 ∷ codes "Date" ++ (0 ∷ 32 ∷ codes "now" ++ (0 ∷ 0 ∷ 0 ∷ []))));
  headers =
      record { name = record { pos = 0; len = 4 }; value = record { pos = 6; len = 1 } }
      ∷ record { name = record { pos = 9; len = 4 }; value = record { pos = 15; len = 3 } }
      ∷ [];
}

only_second :
    (j m u : ℕ)
    → j < 1
    → rtsp_get_header named (pos j) ≡ ok (some (m, u))
    → strcasecmp (string_at named.raw m) (codes "date") ≡ false
unfolding fresh rtsp_get_header get_header? headers_read strcasecmp string_at parser_calls
only_second zero m u l e = let k : 0 ≡ m = ground arith in rw (sym k) refl
only_second (suc j) m u l e = let f : j < 0 = omega (arith, l) in elim f [ ]

rtsp_get_header_by_name-rtsp_get_header_example :
    rtsp_get_header_by_name named (codes "date") ≡ ok (some 15)
unfolding fresh rtsp_get_header get_header? headers_read strcasecmp string_at
rtsp_get_header_by_name-rtsp_get_header_example =
    rtsp_get_header_by_name-rtsp_get_header named (codes "date") 1 9 15 refl refl refl only_second
