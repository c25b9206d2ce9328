-- ===== src/Rtsp/Body.antt =====
-- src/common/rtsp-parser.c, rtsp_parse_chunked: the bodies that it is to take apart, and what becomes of
-- them. `Grammar` is the form of a chunked body, `Turns` the loop,
-- `SizeLine`, `Pieces` and `Last` its turns on the parts of a body, and `Decoded` the whole body.
pub mod Grammar
pub mod Turns
pub mod SizeLine
pub mod Pieces
pub mod Last
pub mod Decoded
