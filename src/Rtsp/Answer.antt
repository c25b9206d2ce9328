-- ===== src/Rtsp/Answer.antt =====
-- src/common/rtsp-parser.c, rtsp_parse_status_line: the first line of an answer. `Grammar` writes
-- it, `Turns` and `Reason` follow the machine through it, `Read` has what is read at its end, and
-- `Line` puts these together. `Call` and `Message` are about rtsp_parser_input on a whole answer.
pub mod Grammar
pub mod Turns
pub mod Reason
pub mod Read
pub mod Line
pub mod Call
pub mod Message
