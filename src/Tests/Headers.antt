-- ===== src/Tests/Headers.antt =====
-- src/common/rtsp-parser.c: the headers of a message, at a concrete input.
use box_rtsp.Prelude.{◌≡◌, refl, List, [], ◌∷◌, ◌++◌, arith, pos}
use box_rtsp.Rtsp.Parser.{Mode, Field, StateM, Parser}
use box_rtsp.Rtsp.Exec.{ok}
use box_rtsp.Rtsp.Text.{strcasecmp}
use box_rtsp.Rtsp.Headers.{codes, is_token_byte}
use box_rtsp.Rtsp.HeaderLine.{rtsp_parse_header_line}
use box_rtsp.Rtsp.Fields.Grammar.{Written, IsWritten, AllWritten, block}
use box_rtsp.Rtsp.Fields.Block.{AllRead, Taken, rtsp_parse_header_line-block}
use box_rtsp.Tests.{env, fresh, received_by}

abbrev sequence : Written
sequence = record { name = codes "CSeq"; gap = codes " "; value = codes "3" }

abbrev agent : Written
agent = record { name = codes "Server"; gap = []; value = codes "a camera/2.0" }

abbrev nothing : Written
nothing = record { name = codes "Public"; gap = codes " \t"; value = [] }

abbrev pub three : List Written
three = sequence ∷ agent ∷ nothing ∷ []

sequence-IsWritten : IsWritten sequence
unfolding is_token_byte strcasecmp
sequence-IsWritten = record {
  named = omega arith;
  token = refl;
  blank = refl;
  text = refl;
  solid = refl;
  plain = refl;
}

agent-IsWritten : IsWritten agent
unfolding is_token_byte strcasecmp
agent-IsWritten = record {
  named = omega arith;
  token = refl;
  blank = refl;
  text = refl;
  solid = refl;
  plain = refl;
}

nothing-IsWritten : IsWritten nothing
unfolding is_token_byte strcasecmp
nothing-IsWritten = record {
  named = omega arith;
  token = refl;
  blank = refl;
  text = refl;
  solid = refl;
  plain = refl;
}

pub three-AllWritten : AllWritten three
three-AllWritten = (sequence-IsWritten, (agent-IsWritten, (nothing-IsWritten, tt)))

abbrev answered : Parser
answered = record (received_by Mode.client (codes "RTSP/1.0 200 OK\r\n" ++ block three)) {
  state_m = StateM.header Field.start;
  offset = 17;
}

rtsp_parse_header_line-block_example :
    (q : Parser) × (rtsp_parse_header_line env answered ≡ ok (pos 0, q))
    × (t : Taken answered q three 17 60) × AllRead q.raw t.news three
unfolding fresh
rtsp_parse_header_line-block_example =
    rtsp_parse_header_line-block env answered three (λ n. refl) three-AllWritten
      (record { room = omega arith; small = omega arith; fits = omega arith }) refl (omega arith)
      (omega arith) (omega arith)
