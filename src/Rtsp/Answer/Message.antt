-- ===== src/Rtsp/Answer/Message.antt =====
-- src/common/rtsp-parser.c, rtsp_parser_input: a whole answer without a body.
use box_rtsp.Prelude.{
  ℕ, ◌+◌, ◌≤◌, ◌<◌, ◌≡◌, refl, sym, inl, true, false, List, [], ◌∷◌, ◌++◌, arith, length,
  length-append, pos,
}
use mathlib.Core.Path.{subst}
use box_rtsp.Rtsp.Parser.{Parser, Env}
use box_rtsp.Rtsp.Exec.{ok}
use box_rtsp.Rtsp.Text.{string_at}
use box_rtsp.Rtsp.HeaderLine.{rtsp_parse_header_line}
use box_rtsp.Rtsp.Input.{read_head, start_line_part, header_part, in_header, rtsp_parser_input}
use box_rtsp.Rtsp.Getters.{
  rtsp_get_status_code, rtsp_get_status_reason, headers_read, is_server_mode,
}
use box_rtsp.Rtsp.Bytes.{HasAt, HasAt-left, HasAt-right, HasAt-eq, HasAt-moved}
use box_rtsp.Rtsp.Fields.Grammar.{Written, AllWritten, block}
use box_rtsp.Rtsp.Fields.Stores.{string_at-HasAt}
use box_rtsp.Rtsp.Fields.Kept.{value-no_nul}
use box_rtsp.Rtsp.Fields.Block.{AllRead, Taken, IsRoomy, rtsp_parse_header_line-block}
use box_rtsp.Rtsp.Answer.Grammar.{Answer, IsAnswer, status_line}
use box_rtsp.Rtsp.Answer.Read.{reason_at, answered, Parts, length-cut, cut_same, cut-HasAt_reason}
use box_rtsp.Rtsp.Answer.Line.{length-status_line, status_line-Parts, rtsp_parse_status_line_lem}
use box_rtsp.Rtsp.Answer.Call.{
  new_parser, filled, rtsp_rawdata_new, HasAt-self, ended, IsBodiless, body_part_none,
  finish_input_none,
}

-- An answer with its headers.
abbrev pub message : Answer → List Written → List ℕ
message a ws = status_line a ++ block ws

module _ (env : Env) (a : Answer) (ws : List Written) (grants : (n : ℕ) → env.grants n ≡ true)
    (good : IsAnswer a) (goods : AllWritten ws) (small : length (message a ws) < 8191) where
  abbrev given : Parser
  given = filled (message a ws)

  abbrev behind_line : Parser
  behind_line = answered given a 0

  length-raw : length given.raw ≡ length (message a ws) + 1
  length-raw = length-append (message a ws) (0 ∷ [])

  length-message : length (message a ws) ≡ length a.reason + 15 + length (block ws)
  length-message = omega (arith, length-append (status_line a) (block ws), length-status_line a)

  message_there : HasAt given.raw 0 (message a ws)
  message_there = HasAt-self (message a ws) (0 ∷ [])

  line_there : HasAt given.raw 0 (status_line a)
  line_there = HasAt-left given.raw 0 (status_line a) (block ws) message_there

  parts : Parts given.raw a 0
  parts = status_line-Parts given.raw a 0 line_there

  fits : reason_at 0 + length a.reason + 2 ≤ length given.raw
  fits = omega (arith, length-raw, length-message)

  line_read : start_line_part (pos 0, given) ≡ ok (pos 0, behind_line)
  unfolding start_line_part new_parser
  line_read =
      rtsp_parse_status_line_lem given a good (omega (arith, length-raw))
        (omega (arith, length-raw, small)) refl line_there
        (omega (arith, length-message, length-status_line a))

  block_there : HasAt behind_line.raw behind_line.offset (block ws)
  block_there =
      let z = behind_line.offset in
      let new = behind_line.raw in
      HasAt-moved given.raw new z z (block ws)
        (omega (arith, length-raw, length-message, length-cut given a good 0 parts fits))
        (λ j m. cut_same given a good 0 parts fits (z + j) (inl (omega arith)) (inl (omega arith)))
        (HasAt-eq given.raw (block ws) (0 + length (status_line a)) z
          (omega (arith, length-status_line a))
          (HasAt-right given.raw 0 (status_line a) (block ws) message_there))

  behind-IsRoomy : IsRoomy behind_line
  unfolding new_parser
  behind-IsRoomy = record {
    room = omega (arith, length-raw, length-cut given a good 0 parts fits);
    small = omega (arith, small, length-raw, length-cut given a good 0 parts fits);
    fits = omega arith;
  }

  headers_read_lem :
      (q : Parser) × (rtsp_parse_header_line env behind_line ≡ ok (pos 0, q))
      × (t : Taken behind_line q ws behind_line.offset (behind_line.offset + length (block ws)))
      × AllRead q.raw t.news ws
  headers_read_lem =
      rtsp_parse_header_line-block env behind_line ws grants goods behind-IsRoomy refl (omega arith)
        block_there (omega (arith, length-message))

  read_head_lem :
      (q : Parser)
      → rtsp_parse_header_line env behind_line ≡ ok (pos 0, q)
      → read_head env (pos 0, given) ≡ ok (pos 0, q)
  unfolding read_head header_part in_header
  read_head_lem q e = rw line_read e

  IsBodiless-read :
      (q : Parser)
      → Taken behind_line q ws behind_line.offset (behind_line.offset + length (block ws))
      → IsBodiless q
  unfolding new_parser
  IsBodiless-read q t = record {
    state = t.finished;
    encoding = t.encoding_same;
    content = t.content_same;
    all_read = omega (arith, t.offset_moved, t.raw_size_same, length-message);
    small = omega (arith, t.raw_size_same, small);
  }

  reason_read :
      (q : Parser)
      → Taken behind_line q ws behind_line.offset (behind_line.offset + length (block ws))
      → string_at q.raw (reason_at 0) ≡ a.reason
  reason_read q t =
      let r = reason_at 0 in
      let l : length (a.reason ++ 0 ∷ []) ≡ length a.reason + 1 = length-append a.reason (0 ∷ []) in
      string_at-HasAt q.raw r a.reason (value-no_nul false a.reason good.text) (
        HasAt-moved behind_line.raw q.raw r r (a.reason ++ 0 ∷ [])
          (omega (arith, l, t.length_same, fits, length-cut given a good 0 parts fits))
          (λ j m. t.before_same (r + j) (omega (arith, l)))
          (cut-HasAt_reason given a good 0 parts fits))

-- An answer without a body that arrives whole at a new parser, of less than 8191 bytes and with
-- headers that rtsp_header_handler does not know, is parsed where memory is granted: the call ends with
-- 0 and leaves no byte over, and the getters read the code, the reason, and the names and values of
-- the headers, in their order, that were written.
pub rtsp_parser_input-message :
    (env : Env) (a : Answer) (ws : List Written)
    → ((n : ℕ) → env.grants n ≡ true)
    → IsAnswer a
    → AllWritten ws
    → length (message a ws) < 8191
    → (q : Parser) × (rtsp_parser_input env new_parser (message a ws) ≡ ok (pos 0, 0, q))
      × (rtsp_get_status_code q ≡ ok (pos a.code))
      × (rtsp_get_status_reason q ≡ ok (reason_at 0))
      × (string_at q.raw (reason_at 0) ≡ a.reason)
      × AllRead q.raw q.headers ws
unfolding rtsp_parser_input rtsp_get_status_code rtsp_get_status_reason headers_read is_server_mode
    new_parser
rtsp_parser_input-message env a ws g good goods small =
    let (q, e, t, r) = headers_read_lem env a ws g good goods small in
    let b = IsBodiless-read env a ws g good goods small q t in
    (
      ended q,
      rw
          (
            rtsp_rawdata_new env (message a ws) g small,
            read_head_lem env a ws g good goods small q e,
            body_part_none q b,
            finish_input_none (length (message a ws)) q b,
          )
          refl,
      rw (t.mode_same, t.reply_same) refl,
      rw (t.mode_same, t.reply_same) refl,
      reason_read env a ws g good goods small q t,
      subst (λ hs. AllRead q.raw hs ws) (sym t.appended) r,
    )
