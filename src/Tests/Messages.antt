-- ===== src/Tests/Messages.antt =====
-- src/common/rtsp-parser.c: a whole answer, at a concrete input.
use box_rtsp.Prelude.{◌≡◌, refl, [], arith, pos}
use box_rtsp.Rtsp.Parser.{Parser}
use box_rtsp.Rtsp.Exec.{ok}
use box_rtsp.Rtsp.Text.{string_at}
use box_rtsp.Rtsp.Headers.{codes}
use box_rtsp.Rtsp.Input.{rtsp_parser_input}
use box_rtsp.Rtsp.Getters.{rtsp_get_status_code, rtsp_get_status_reason}
use box_rtsp.Rtsp.Fields.Block.{AllRead}
use box_rtsp.Rtsp.Answer.Grammar.{Answer, IsAnswer}
use box_rtsp.Rtsp.Answer.Call.{new_parser}
use box_rtsp.Rtsp.Answer.Message.{message, rtsp_parser_input-message}
use box_rtsp.Tests.{env}
use box_rtsp.Tests.Headers.{three, three-AllWritten}

abbrev refused : Answer
refused = record { code = 401; reason = codes "Not  authorized" }

refused-IsAnswer : IsAnswer refused
refused-IsAnswer = record { small = omega arith; given = omega arith; text = refl; solid = refl }

message_spelled : message refused [] ≡ codes "RTSP/1.0 401 Not  authorized\r\n\r\n"
message_spelled = refl

rtsp_parser_input-message_example :
    (q : Parser) × (rtsp_parser_input env new_parser (message refused three) ≡ ok (pos 0, 0, q))
    × (rtsp_get_status_code q ≡ ok (pos 401))
    × (rtsp_get_status_reason q ≡ ok 13)
    × (string_at q.raw 13 ≡ codes "Not  authorized")
    × AllRead q.raw q.headers three
rtsp_parser_input-message_example =
    rtsp_parser_input-message env refused three (λ n. refl) refused-IsAnswer three-AllWritten
      (omega arith)
