-- ===== src/Rtsp/Answer/Call.antt =====
-- src/common/rtsp-parser.c, rtsp_parser_input on a new parser: the bytes in the buffer, and the end of
-- a call on a message without a body.
use box_rtsp.Prelude.{
  ℕ, zero, suc, ◌+◌, ◌*◌, ◌^◌, ◌<◌, ◌≡◌, refl, true, false, List, [], ◌∷◌, ◌++◌, arith, ltb, length,
  drop, pos, negsuc,
}
use box_rtsp.Rtsp.Parser.{Mode, Body, StateM, Parser, Env, sub_size, to_size, goto}
use box_rtsp.Rtsp.Exec.{ok}
use box_rtsp.Rtsp.Buffer.{kb, mb, growth, append_data, copy_data, rtsp_rawdata}
use box_rtsp.Rtsp.Headers.{is_transfer_encoding_chunked}
use box_rtsp.Rtsp.Input.{
  zeroed, rtsp_parser_clear, body_part, plain_body, finish_input, remain, in_body, is_done,
}
use box_rtsp.Rtsp.Bytes.{HasAt}

-- A new parser of answers, and what it is with the bytes of one input.
unfoldable pub new_parser : Parser
unfolding rtsp_parser_clear
new_parser = rtsp_parser_clear (zeroed Mode.client)

abbrev pub filled : List ℕ → Parser
filled bytes = record new_parser {
  raw = bytes ++ 0 ∷ [];
  raw_size = length bytes;
  raw_capacity = 8 * kb;
}

drop_none : (n : ℕ) → drop {A = ℕ} n [] ≡ []
drop_none zero = refl
drop_none (suc n) = refl

pub rtsp_rawdata_new :
    (env : Env) (bytes : List ℕ)
    → ((n : ℕ) → env.grants n ≡ true)
    → length bytes < 8191
    → rtsp_rawdata env new_parser bytes ≡ ok (pos 0, filled bytes)
unfolding rtsp_rawdata growth copy_data append_data new_parser sub_size
rtsp_rawdata_new env bytes g h =
    let a : ltb 0 (length bytes + 1) ≡ true = ground arith in
    let b : ltb (64 * mb) (0 + length bytes) ≡ false = ground arith in
    let c : ltb (8 * kb) (length bytes + 1) ≡ false = ground arith in
    let d : ltb (length bytes + 1) (8 * kb) ≡ true = ground arith in
    let e : 0 + length bytes ≡ length bytes = omega arith in
    rw (a, b, c, g (0 + 8 * kb), d, drop_none (0 + length bytes + 1), e) refl

HasAt-behind :
    (x : ℕ) (raw : List ℕ) (o : ℕ) (cs : List ℕ) → HasAt raw o cs → HasAt (x ∷ raw) (suc o) cs
HasAt-behind x raw o [] h = tt
HasAt-behind x raw o (c ∷ cs) h = (omega (arith, h.0), h.1, HasAt-behind x raw (suc o) cs h.2)

pub HasAt-self : (xs ys : List ℕ) → HasAt (xs ++ ys) 0 xs
HasAt-self [] ys = tt
HasAt-self (x ∷ xs) ys = (omega arith, refl, HasAt-behind x (xs ++ ys) 0 xs (HasAt-self xs ys))

-- The parser of a complete message without a body.
abbrev pub ended : Parser → Parser
ended q = goto StateM.done (record q { content_length = pos 0 })

-- A parser that has read all of its bytes and is in front of a body without a length.
pub record IsBodiless (q : Parser) : Type 0 where
  pub state : q.state_m ≡ StateM.body Body.start
  pub encoding : q.transfer_encoding ≡ 0
  pub content : q.content_length ≡ negsuc 0
  pub all_read : q.offset ≡ q.raw_size
  pub small : q.raw_size < 2 ^ 31

sub_size_self : (n : ℕ) → n < 2 ^ 31 → sub_size n n ≡ 0
unfolding sub_size
sub_size_self n h = omega arith

pub body_part_none : (q : Parser) → IsBodiless q → body_part (pos 0, q) ≡ ok (pos 0, ended q)
unfolding body_part in_body is_transfer_encoding_chunked plain_body
body_part_none q h = rw (h.state, h.encoding, h.content) refl

pub finish_input_none :
    (n : ℕ) (q : Parser) → IsBodiless q → finish_input n (pos 0, ended q) ≡ ok (pos 0, 0, ended q)
unfolding finish_input is_done remain to_size sub_size
finish_input_none n q h = rw (h.all_read, sub_size_self q.raw_size h.small) refl
