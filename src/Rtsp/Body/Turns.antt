-- ===== src/Rtsp/Body/Turns.antt =====
-- src/common/rtsp-parser.c, rtsp_parse_chunked: turns of the loop in a chunked body.
use box_rtsp.Prelude.{ℕ, ◌-◌, ◌≤◌, ◌<◌, ◌≡◌, List, length, get_or, ℤ, pos}
use box_rtsp.Rtsp.Parser.{Body, StateM, Parser}
use box_rtsp.Rtsp.Exec.{ok, next, leave}
use box_rtsp.Rtsp.Chunked.{chunk_step}
use box_rtsp.Rtsp.Runs.{Runs, Runs-step, Runs-leave}

-- With a turn for each byte that is left, and one more, the loop ends as `r`.
abbrev pub Ends : Parser → ℤ × Parser → Type 0
Ends = Runs (λ q. q.chunk.offset) chunk_step (λ q. q.raw_size - q.chunk.offset)

pub Ends-step :
    (q s : Parser) (c : ℕ) (r : ℤ × Parser)
    → q.chunk.offset < q.raw_size
    → q.raw_size ≤ length q.raw
    → get_or q.raw q.chunk.offset 0 ≡ c
    → chunk_step q c ≡ ok (next s)
    → s.raw_size - s.chunk.offset < q.raw_size - q.chunk.offset
    → Ends s r
    → Ends q r
Ends-step = Runs-step (λ q. q.chunk.offset) chunk_step (λ q. q.raw_size - q.chunk.offset)

pub Ends-leave :
    (q s : Parser) (c : ℕ)
    → q.chunk.offset < q.raw_size
    → q.raw_size ≤ length q.raw
    → get_or q.raw q.chunk.offset 0 ≡ c
    → chunk_step q c ≡ ok (leave (pos 0) s)
    → Ends q (pos 0, s)
Ends-leave q s c =
    Runs-leave (λ q. q.chunk.offset) chunk_step (λ q. q.raw_size - q.chunk.offset) q s c (pos 0)

-- The parser inside a chunked body: the buffer, the bytes of the body so far, the chunk, the place.
abbrev pub place : Parser → List ℕ → ℕ → ℕ → ℕ → ℕ → Body → Parser
place p raw k o l i b = record p {
  raw = raw;
  content_length = pos k;
  chunk = record { offset = o; len = l; pos = i };
  state_m = StateM.body b;
}
