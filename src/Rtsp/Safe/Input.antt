-- ===== src/Rtsp/Safe/Input.antt =====
-- src/common/rtsp-parser.c: rtsp_parser_input up to the body, the end of a body with a stated
-- length, and the inputs that end the process.
use box_rtsp.Prelude.{
  ℕ, ◌+◌, ◌*◌, ◌≤◌, ◌≡◌, refl, sym, ◌∙◌, ◌⊎◌, inl, inr, true, List, arith, Bool-cases, length, ℤ,
  pos, negsuc,
}
use box_rtsp.Rtsp.Parser.{Mode, Parser, Env, sub_size}
use box_rtsp.Rtsp.Exec.{Halt, ok, halt}
use box_rtsp.Rtsp.Buffer.{e2big, enomem, kb, growth, copy_data, rtsp_rawdata}
use box_rtsp.Rtsp.RequestLine.{rtsp_parse_request_line}
use box_rtsp.Rtsp.StatusLine.{rtsp_parse_status_line}
use box_rtsp.Rtsp.Input.{
  zeroed, rtsp_parser_clear, in_start_line, in_header, start_line_part, header_part, read_head,
  rtsp_parser_input,
}
use box_rtsp.Rtsp.Safe.Rules.{Ensures, Ensures-map, Ensures-bind}
use box_rtsp.Rtsp.Safe.Place.{IsValid}
use box_rtsp.Rtsp.Safe.StartLine.{in_line}
use box_rtsp.Rtsp.Safe.RequestLine.{rtsp_parse_request_line-Left}
use box_rtsp.Rtsp.Safe.StatusLine.{rtsp_parse_status_line-Left}
use box_rtsp.Rtsp.Safe.HeaderLine.{rtsp_parse_header_line-Left}
use box_rtsp.Rtsp.Safe.Buffer.{IsReady, Appended, rtsp_rawdata-Appended}

-- The result is 0 or -1, and the parser is valid and of the mode that it had.
abbrev pub Parsed : Mode → ℤ × Parser → Type 0
Parsed m r = ((r.0 ≡ pos 0) ⊎ (r.0 ≡ negsuc 0)) × IsValid r.1 × (r.1.server_mode ≡ m)

start_line-in_line : (p : Parser) → in_start_line p ≡ true → in_line p.state_m ≡ true
unfolding in_start_line
start_line-in_line p h = ground arith

start_line_part-Parsed :
    (m : Mode) (r : ℤ) (p : Parser) → Parsed m (r, p) → Ensures (Parsed m) (start_line_part (r, p))
unfolding start_line_part
start_line_part-Parsed m r p h = elim (Bool-cases (in_start_line p)) [
  | inr past ↦ rw past h
  | inl on ↦ rw on (by_mode on p.server_mode refl)
]
  where
    by_mode :
        in_start_line p ≡ true
        → (k : Mode) → p.server_mode ≡ k
        → Ensures (Parsed m) (elim k [
          | Mode.server ↦ rtsp_parse_request_line p
          | Mode.client ↦ rtsp_parse_status_line p
        ])
    by_mode on Mode.server e =
        Ensures-map _ _ (rtsp_parse_request_line p) (λ r x. (inl x.0, x.1, x.2 ∙ sym e ∙ h.2))
          (rtsp_parse_request_line-Left p (h.1, e, start_line-in_line p on))
    by_mode on Mode.client e =
        Ensures-map _ _ (rtsp_parse_status_line p) (λ r x. (inl x.0, x.1, x.2 ∙ sym e ∙ h.2))
          (rtsp_parse_status_line-Left p (h.1, e, start_line-in_line p on))

header_part-Parsed :
    (env : Env) (m : Mode) (r : ℤ × Parser) → Parsed m r → Ensures (Parsed m) (header_part env r)
unfolding header_part
header_part-Parsed env m r h = elim (Bool-cases (in_header r.1)) [
  | inr past ↦ rw (past, header_part) h
  | inl on ↦
      rw (on, header_part)
        (rtsp_parse_header_line-Left env m r.1 (h.1, h.2, unfold in_header in ground arith))
]

-- Where rtsp_rawdata has appended bytes to a parser between two inputs, reading the start line and the
-- headers that have arrived ends and makes no access outside the buffer or the array of headers.
-- Where no assertion fails, the result is 0 or -1 and the parser is valid and of the same mode.
pub read_head-Parsed :
    (env : Env) (p q : Parser) (bytes : List ℕ)
    → IsReady p
    → rtsp_rawdata env p bytes ≡ ok (pos 0, q)
    → Ensures (Parsed p.server_mode) (read_head env (pos 0, q))
unfolding read_head
read_head-Parsed env p q bytes v e =
    Ensures-bind (Parsed p.server_mode) (Parsed p.server_mode) (start_line_part (pos 0, q))
      (header_part env)
      (start_line_part-Parsed p.server_mode (pos 0) q
        (appended (rw e at (rtsp_rawdata-Appended env p bytes v))))
      (header_part-Parsed env p.server_mode)
  where
    appended :
        ((◌≡◌ {A = ℤ} (pos 0) (pos 0)) × Appended p bytes q)
          ⊎ (((◌≡◌ {A = ℤ} (pos 0) e2big) ⊎ (◌≡◌ {A = ℤ} (pos 0) enomem)) × (q ≡ p))
        → Parsed p.server_mode (pos 0, q)
    appended (inl (z, a)) = (inl refl, a.valid, a.mode_same)
    appended (inr (n, k)) = ground arith

-- A new parser cannot take 8191 bytes or more at once: an assertion ends the process, with memory
-- and without.
pub rtsp_parser_input_large :
    (env : Env) (m : Mode) (bytes : List ℕ)
    → 8 * kb ≤ length bytes + 1
    → rtsp_parser_input env (rtsp_parser_clear (zeroed m)) bytes ≡ halt Halt.aborts
unfolding rtsp_parser_input rtsp_parser_clear rtsp_rawdata growth copy_data sub_size
rtsp_parser_input_large env m bytes h = ground arith
