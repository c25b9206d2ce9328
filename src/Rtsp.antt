-- ===== src/Rtsp.antt =====
-- src/common/rtsp-parser.c: the parser of RTSP answers and requests.
-- `Text` has the C library's string functions, `Parser` the structures, `Exec` the ways in which a
-- call ends and the loop, `Buffer` rtsp_rawdata, `RequestLine`, `StatusLine`, `Headers`,
-- `HeaderLine` and `Chunked` the state machines, `Input` rtsp_parser_input and `Getters` the rest of
-- the interface, with `Found`. `Bytes` and `Runs` have the lemmas with which `Body` follows the
-- machine of chunked bodies, `Fields` the one of headers and `Answer` the one of an answer's first
-- line, and the whole call, through an input that is written out. `Trail` is what the latter two
-- share, and `Numbers` what is read of digits.
pub mod Text
pub mod Parser
pub mod Exec
pub mod Buffer
pub mod RequestLine
pub mod StatusLine
pub mod Headers
pub mod HeaderLine
pub mod Chunked
pub mod Input
pub mod Bytes
pub mod Runs
pub mod Trail
pub mod Numbers
pub mod Body
pub mod Fields
pub mod Answer
pub mod Getters
pub mod Found
pub mod Safe
