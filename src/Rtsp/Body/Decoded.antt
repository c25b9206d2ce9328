-- ===== src/Rtsp/Body/Decoded.antt =====
-- src/common/rtsp-parser.c, rtsp_parse_chunked: a whole body.
use box_rtsp.Prelude.{
  ℕ, suc, ◌+◌, ◌-◌, ◌^◌, ◌≤◌, ◌<◌, ◌≡◌, refl, true, false, List, [], ◌∷◌, ◌++◌, arith, ◌==◌, length,
  length-append, ℤ, pos, negsuc,
}
use mathlib.Core.List.{append_assoc, append-nil}
use box_rtsp.Rtsp.Parser.{Body, StateM, Parser}
use box_rtsp.Rtsp.Exec.{ok}
use box_rtsp.Rtsp.Headers.{is_transfer_encoding_chunked}
use box_rtsp.Rtsp.Chunked.{chunk_begin, rtsp_parse_chunked}
use box_rtsp.Rtsp.Safe.Chunked.{IsSmall}
use box_rtsp.Rtsp.Body.Grammar.{
  Piece, IsPiece, AllPieces, crlf, size_line, encode_piece, encode, contents,
}
use box_rtsp.Rtsp.Bytes.{HasAt, HasAt-eq, HasAt-left, HasAt-right}
use box_rtsp.Rtsp.Body.Turns.{place, Ends}
use box_rtsp.Rtsp.Body.SizeLine.{Ends-size_line}
use box_rtsp.Rtsp.Body.Last.{last, Ends-last}
use box_rtsp.Rtsp.Body.Pieces.{taken, length-taken, taken-HasAt, taken-HasAt_behind, Ends-content}

-- The parser `q` that `p` becomes: the body stands at its start, and the chunks end at `z`.
pub record Decoded (p q : Parser) (body : List ℕ) (z : ℕ) : Type 0 where
  pub finished : q.state_m ≡ StateM.done
  pub counted : q.content_length ≡ pos (length body)
  pub start_same : q.offset ≡ p.offset
  pub raw_size_same : q.raw_size ≡ p.raw_size
  pub stands : HasAt q.raw q.offset body
  pub read : q.chunk.offset ≡ z

module _ (p : Parser) where
  abbrev Result : List ℕ → List ℕ → ℕ → ℕ → List ℕ → Type 0
  Result raw body o z all =
      (q : Parser) × Ends (place p raw (length body) o 0 0 Body.start) (pos 0, q)
      × Decoded p q all z

  decode_last :
      (raw body : List ℕ) (o : ℕ)
      → p.raw_size ≤ length raw
      → HasAt raw p.offset body
      → HasAt raw o (encode [])
      → o + length (encode []) ≤ p.raw_size
      → Result raw body o (o + length (encode [])) body
  decode_last raw body o room b h l = (
    last p raw (length body) (o + 5) (o + 3),
    Ends-last p raw (length body) o room h l,
    record {
      finished = refl;
      counted = refl;
      start_same = refl;
      raw_size_same = refl;
      stands = b;
      read = refl;
    },
  )

  abbrev line_end : Piece → ℕ → ℕ
  line_end c o = o + length (size_line c)

  length-encode_piece :
      (c : Piece) → length (encode_piece c) ≡ length (size_line c) + length c.content + 2
  length-encode_piece c =
      omega (arith, length-append (size_line c) (c.content ++ crlf), length-append c.content crlf)

  length-size_line : (c : Piece) → length (size_line c) ≡ length c.digits + length c.ext + 3
  length-size_line c =
      omega (arith, length-append c.digits (c.ext ++ crlf), length-append c.ext crlf)

  decode_one :
      (c : Piece) (raw body rest : List ℕ) (o : ℕ) (r : ℤ × Parser)
      → IsPiece c
      → p.raw_size ≤ length raw
      → length raw < 2 ^ 31
      → p.offset + length body ≤ o
      → HasAt raw o (encode_piece c ++ rest)
      → o + length (encode_piece c) ≤ p.raw_size
      → (let z = line_end c o in
          let n = length c.content in
          Ends
            (place p
              (taken raw (p.offset + length body) z n)
              (length body + n)
              (z + n + 2)
              0
              0
              Body.start)
            r)
      → Ends (place p raw (length body) o 0 0 Body.start) r
  decode_one c raw body rest o r v room small b h l e =
      let z = line_end c o in
      let n = length c.content in
      let whole = HasAt-left raw o (encode_piece c) rest h in
      let line = HasAt-left raw o (size_line c) (c.content ++ crlf) whole in
      let more = HasAt-right raw o (size_line c) (c.content ++ crlf) whole in
      let filled : (n == 0) ≡ false = ground (arith, v.filled) in
      let f : z ≡ o + length c.digits + length c.ext + 3 = omega (arith, length-size_line c) in
      Ends-size_line p r raw (length body) room c.first c.digits c.ext o 0 n z v.size
        (omega (arith, length-encode_piece c)) v.extension line f
        (omega (arith, length-encode_piece c))
        (rw filled (
          Ends-content p raw (length body) z n room small (omega (arith, length-size_line c))
            v.filled (omega (arith, length-encode_piece c)) (HasAt-right raw z c.content crlf more)
            r e))

  Result-change :
      (raw new body more all whole : List ℕ) (o i z e : ℕ)
      → z ≡ e
      → all ≡ whole
      → ((q : Parser)
          → Ends (place p new (length more) i 0 0 Body.start) (pos 0, q)
          → Ends (place p raw (length body) o 0 0 Body.start) (pos 0, q))
      → Result new more i z all
      → Result raw body o e whole
  Result-change raw new body more all whole o i z e a b f (q, g, d) = (q, f q g, rw (a, b) at d)

  decode_all :
      (cs : List Piece) (raw body : List ℕ) (o : ℕ)
      → AllPieces cs
      → p.raw_size ≤ length raw
      → length raw < 2 ^ 31
      → HasAt raw p.offset body
      → p.offset + length body ≤ o
      → HasAt raw o (encode cs)
      → o + length (encode cs) ≤ p.raw_size
      → Result raw body o (o + length (encode cs)) (body ++ contents cs)
  decode_all [] raw body o v room small b k h l = rw append-nil (decode_last raw body o room b h l)
  decode_all (c ∷ cs) raw body o v room small b k h l =
      let z = line_end c o in
      let n = length c.content in
      let to = p.offset + length body in
      let new = taken raw to z n in
      let x : length (encode (c ∷ cs)) ≡ length (encode_piece c) + length (encode cs) =
        length-append (encode_piece c) (encode cs) in
      let y = length-encode_piece c in
      let more =
        HasAt-right raw o (size_line c) (c.content ++ crlf)
          (HasAt-left raw o (encode_piece c) (encode cs) h) in
      let rest =
        HasAt-eq raw (encode cs) _ (z + n + 2) (omega (arith, y))
          (HasAt-right raw o (encode_piece c) (encode cs) h) in
      let behind : to < z = omega (arith, length-size_line c) in
      let ends = HasAt-right raw z c.content crlf more in
      let arrived : z + n + 2 ≤ p.raw_size = omega (arith, x, y) in
      let same = length-taken p raw (length body) z n room small behind v.0.filled arrived ends in
      let w : z + n + 2 + length (encode cs) ≡ o + length (encode (c ∷ cs)) = omega (arith, x, y) in
      Result-change raw new body (body ++ c.content) ((body ++ c.content) ++ contents cs)
        (body ++ (c.content ++ contents cs)) o (z + n + 2) _ _ w
        (append_assoc body c.content (contents cs))
        (λ q e.
          decode_one c raw body (encode cs) o (pos 0, q) v.0 room small k h (omega (arith, x))
            (rw (length-append body c.content) at e))
        (decode_all cs new (body ++ c.content) (z + n + 2) v.1 (omega (arith, same))
          (omega (arith, same))
          (taken-HasAt p raw (length body) z n room small behind v.0.filled arrived ends body
            c.content refl refl b (HasAt-left raw z c.content crlf more))
          (omega (arith, length-append body c.content))
          (taken-HasAt_behind p raw (length body) z n room small behind v.0.filled arrived ends
            (encode cs) rest (omega (arith, x, y)))
          (omega (arith, x, y)))

-- In front of a chunked body of which nothing was read.
pub record IsFresh (p : Parser) : Type 0 where
  pub waits : p.state_m ≡ StateM.body Body.start
  pub offset : p.chunk.offset ≡ 0
  pub len : p.chunk.len ≡ 0
  pub start : p.chunk.pos ≡ 0
  pub unknown : p.content_length ≡ negsuc 0

chunk_begin_lem :
    (p : Parser) → IsFresh p → chunk_begin p ≡ ok (place p p.raw 0 p.offset 0 0 Body.start)
unfolding chunk_begin
chunk_begin_lem p f = ground arith

-- A chunked body that stands whole in the buffer behind the headers is put together: from the first
-- call for the body the machine ends with 0 in the state of a finished message, at the end of the
-- body's text; the content length is the number of bytes of the chunks' data, and these stand in their
-- order at the start of the body. The sizes are written in hexadecimal digits of either case, with or
-- without an extension.
pub rtsp_parse_chunked-encode :
    (p : Parser) (cs : List Piece)
    → AllPieces cs
    → IsSmall p
    → is_transfer_encoding_chunked p ≡ true
    → IsFresh p
    → HasAt p.raw p.offset (encode cs)
    → p.offset + length (encode cs) ≤ p.raw_size
    → (q : Parser) × (rtsp_parse_chunked p ≡ ok (pos 0, q))
      × Decoded p q (contents cs) (p.offset + length (encode cs))
unfolding rtsp_parse_chunked
rtsp_parse_chunked-encode p cs v small chunked fresh h l =
    let (q, e, d) = decode_all p cs p.raw [] p.offset v small.0 small.1 tt (omega arith) h l in
    (q, rw (chunked, chunk_begin_lem p fresh) (e (suc (p.raw_size - p.offset)) (omega arith)), d)
