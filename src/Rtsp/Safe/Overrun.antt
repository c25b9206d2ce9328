-- ===== src/Rtsp/Safe/Overrun.antt =====
-- src/common/rtsp-parser.c: rtsp_parse_chunked on a chunk whose length wraps around.
use box_rtsp.Prelude.{
  ℕ, ◌+◌, ◌-◌, ◌≤◌, ◌<◌, ◌≡◌, refl, sym, true, false, arith, ltb, leb, lt→ltb, length, get_or, ◌==◌,
}
use mathlib.Core.Path.{subst}
use box_rtsp.Rtsp.Parser.{Body, StateM, Parser, size_mod, add_size}
use box_rtsp.Rtsp.Exec.{Halt, halt, go, loop}
use box_rtsp.Rtsp.Headers.{is_transfer_encoding_chunked}
use box_rtsp.Rtsp.Chunked.{
  move_bytes, take_chunk, chunk_data_in, chunk_in, chunk_step, chunk_begin, rtsp_parse_chunked,
}
use box_rtsp.Rtsp.Safe.Rules.{peek_lem}
use box_rtsp.Rtsp.Safe.Chunked.{IsSmall}

-- A chunk of a length that wraps around: `CR LF` are looked for in front of its data.
pub record IsWrapped (p : Parser) : Type 0 where
  pub waits : p.state_m ≡ StateM.body Body.chunk_data
  pub begun : 0 < p.chunk.offset
  pub reached : p.chunk.offset < p.raw_size
  pub sized : 0 < p.chunk.len
  pub placed : 0 < p.chunk.pos
  pub wraps : size_mod ≤ p.chunk.pos + p.chunk.len
  pub once : p.chunk.pos + p.chunk.len + 2 ≤ size_mod + p.raw_size
  pub cr : get_or p.raw (p.chunk.pos + p.chunk.len - size_mod) 0 ≡ b'\r'
  pub lf : get_or p.raw (p.chunk.pos + p.chunk.len - size_mod + 1) 0 ≡ b'\n'

end_lem :
    (p : Parser)
    → IsSmall p
    → IsWrapped p
    → add_size p.chunk.pos p.chunk.len ≡ p.chunk.pos + p.chunk.len - size_mod
unfolding add_size
end_lem p small w = omega (arith, w.wraps, w.once, small.0, small.1)

last_lem :
    (p : Parser) (n : ℕ)
    → IsSmall p
    → IsWrapped p
    → n ≤ 2
    → add_size (p.chunk.pos + p.chunk.len - size_mod) n ≡ p.chunk.pos + p.chunk.len - size_mod + n
unfolding add_size
last_lem p n small w h = omega (arith, w.wraps, w.once, small.0, small.1)

take_chunk-IsWrapped : (p : Parser) → IsSmall p → IsWrapped p → take_chunk p ≡ halt Halt.faults
unfolding take_chunk move_bytes
take_chunk-IsWrapped p small w =
    let i = p.chunk.pos + p.chunk.len - size_mod in
    let e : add_size p.chunk.pos p.chunk.len ≡ i = end_lem p small w in
    let l : add_size i 1 ≡ i + 1 = last_lem p 1 small w (omega arith) in
    let far : leb (p.chunk.pos + p.chunk.len) (length p.raw) ≡ false =
      ground (arith, w.wraps, small.1) in
    rw
      (
        e,
        l,
        peek_lem p i (omega (arith, w.once, small.0)),
        peek_lem p (i + 1) (omega (arith, w.once, small.0, w.wraps)),
        w.cr,
        w.lf,
        far,
      )
      refl

chunk_data_in-IsWrapped :
    (p : Parser) → IsSmall p → IsWrapped p → chunk_data_in p ≡ halt Halt.faults
unfolding chunk_data_in
chunk_data_in-IsWrapped p small w =
    let i = p.chunk.pos + p.chunk.len - size_mod in
    let e : add_size p.chunk.pos p.chunk.len ≡ i = end_lem p small w in
    let l : add_size i 2 ≡ i + 2 = last_lem p 2 small w (omega arith) in
    let there : ltb p.raw_size (i + 2) ≡ false = ground (arith, w.once, w.wraps) in
    let placed : (p.chunk.pos == 0) ≡ false = ground (arith, w.placed) in
    rw (lt→ltb 0 p.chunk.len w.sized, placed, take_chunk-IsWrapped p small w, e, l, there) refl

chunk_step-IsWrapped :
    (p : Parser) (c : ℕ) → IsSmall p → IsWrapped p → chunk_step p c ≡ halt Halt.faults
unfolding chunk_step chunk_in
chunk_step-IsWrapped p c small w =
    subst
      (λ m.
        elim m [
          | StateM.body b ↦ chunk_in b p c
          | _ ↦ go (record p { chunk = record p.chunk { offset = p.chunk.offset + 1 } })
        ]
        ≡ halt Halt.faults)
      (sym w.waits) (chunk_data_in-IsWrapped p small w)

-- A parser of a chunked body whose chunk wraps around the 32 bits of a `size_t`, so that the two bytes
-- behind the chunk are found in front of it, moves bytes from outside its buffer.
pub rtsp_parse_chunked_overrun :
    (p : Parser)
    → IsSmall p
    → is_transfer_encoding_chunked p ≡ true
    → IsWrapped p
    → rtsp_parse_chunked p ≡ halt Halt.faults
unfolding rtsp_parse_chunked chunk_begin loop
rtsp_parse_chunked_overrun p small chunked w =
    let begun : (p.chunk.offset == 0) ≡ false = ground (arith, w.begun) in
    let there : p.chunk.offset < length p.raw = omega (arith, w.reached, small.0) in
    rw
      (
        chunked,
        begun,
        loop,
        lt→ltb p.chunk.offset p.raw_size w.reached,
        peek_lem p p.chunk.offset there,
        chunk_step-IsWrapped p _ small w,
      )
      refl
