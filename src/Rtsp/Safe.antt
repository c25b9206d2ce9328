-- ===== src/Rtsp/Safe.antt =====
-- src/common/rtsp-parser.c: what the state machines keep, with no endless loop and, but for chunked
-- bodies, with no access outside the buffer. `Rules` has the rule for the loop, `Bounds` the
-- predicates on the buffer and its slices, `Place` the invariant, `StartLine`, `RequestLine`,
-- `StatusLine`, `Handler`, `HeaderLine` and `Chunked` the machines, `Overrun` a chunk whose length
-- wraps around, `Input` and `Call` the whole call.
pub mod Rules
pub mod Bounds
pub mod Place
pub mod Buffer
pub mod StartLine
pub mod RequestLine
pub mod StatusLine
pub mod Handler
pub mod Stores
pub mod HeaderLine
pub mod Chunked
pub mod Overrun
pub mod Input
pub mod Call
