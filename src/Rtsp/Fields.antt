-- ===== src/Rtsp/Fields.antt =====
-- src/common/rtsp-parser.c, rtsp_parse_header_line: headers as they are written, and what is kept of them.
-- `Grammar` is the form of a header, `Turns`, `Value` and `Empty` are turns of the loop, `Stores` is what
-- stores a header, `Line` one line, `Kept` the bytes behind it, `Block` all the headers of a message.
pub mod Grammar
pub mod Turns
pub mod Value
pub mod Stores
pub mod Line
pub mod Kept
pub mod Empty
pub mod Block
