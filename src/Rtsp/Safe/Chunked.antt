-- ===== src/Rtsp/Safe/Chunked.antt =====
-- src/common/rtsp-parser.c: rtsp_parse_chunked ends, whatever sizes the chunks announce.
use box_rtsp.Prelude.{
  ℕ, zero, suc, ◌+◌, ◌-◌, ◌≤◌, ◌<◌, ◌^◌, ◌≡◌, refl, inl, inr, Bool, true, false, ◌&&◌, arith, ltb,
  leb, ltb→lt, Bool-cases, if◌then◌else◌, length, length-set, get_or, set, ◌==◌, not, ℤ, pos,
}
use box_rtsp.Rtsp.Parser.{Body, StateM, Parser, add_size, to_size}
use box_rtsp.Rtsp.Exec.{
  aborts, faults, spins, Exec, ok, halt, ◌>>=◌, assert, Step, next, leave, go, loop,
}
use box_rtsp.Rtsp.Headers.{is_transfer_encoding_chunked}
use box_rtsp.Rtsp.Chunked.{
  hex_value, size_end, move_bytes, take_chunk, chunk_data_in, chunk_size_in, chunk_in, chunk_step,
  chunk_begin, rtsp_parse_chunked,
}
use box_rtsp.Rtsp.Safe.Rules.{Turn}
use box_rtsp.Rtsp.Bytes.{moved, length-moved}

-- The call returns a value with `P`, or ends the process; it does not run for ever.
abbrev pub Ends : {A : Type 0} → (A → Type 0) → Exec A → Type 0
Ends P (ok a) = P a
Ends P (halt spins) = ⊥
Ends P (halt _) = Unit

Ends-bind :
    {A B : Type 0} (P : A → Type 0) (Q : B → Type 0) (m : Exec A) (f : A → Exec B)
    → Ends P m
    → ((a : A) → P a → Ends Q (f a))
    → Ends Q (m >>= f)
Ends-bind P Q (ok a) f h k = k a h
Ends-bind P Q (halt aborts) f h k = tt
Ends-bind P Q (halt faults) f h k = tt
Ends-bind P Q (halt spins) f h k = h

Ends-assert :
    {B : Type 0} (Q : B → Type 0) (b : Bool) (m : Exec B) → Ends Q m → Ends Q (assert b >>= λ _. m)
Ends-assert Q true m k = k
Ends-assert Q false m k = tt

-- An access behind its test.
Ends-access :
    {A B : Type 0} (Q : B → Type 0) (b : Bool) (a : A) (f : A → Exec B)
    → (b ≡ true → Ends Q (f a))
    → Ends Q ((if b then ok a else halt faults) >>= f)
Ends-access Q true a f k = k refl
Ends-access Q false a f k = tt

-- What the loop keeps of the parser `p` that it begins with.
abbrev pub Same : Parser → Parser → Type 0
Same p q = (q.raw_size ≡ p.raw_size) × (length q.raw ≡ length p.raw) × (q.offset ≡ p.offset)

abbrev pub Left : Parser → ℤ → Parser → Type 0
Left p r q = (r ≡ pos 0) × Same p q

abbrev to_do : Parser → ℕ
to_do q = q.raw_size - q.chunk.offset

abbrev ChunkTurn : Parser → Parser → Exec Step → Type 0
ChunkTurn p q = Ends (Turn (Same p) (Left p) to_do (to_do q))

-- The bytes that were received are in the buffer, which holds less than half of the memory.
abbrev pub IsSmall : Parser → Type 0
IsSmall p = (p.raw_size ≤ length p.raw) × (length p.raw < 2 ^ 31)

module _ (p : Parser) (small : IsSmall p) where
  shrinks :
      (q : Parser)
      → Same p q
      → q.chunk.offset < q.raw_size
      → q.chunk.pos + q.chunk.len ≤ length q.raw
      → q.raw_size - add_size (add_size q.chunk.offset (add_size q.chunk.len 1)) 1
        < q.raw_size - q.chunk.offset
  unfolding add_size
  shrinks q s o h = omega arith

  take_chunk-Turn :
      (q : Parser) → Same p q → q.chunk.offset < q.raw_size → ChunkTurn p q (take_chunk q)
  unfolding take_chunk move_bytes
  take_chunk-Turn q s o =
      let T = Turn (Same p) (Left p) to_do (to_do q) in
      let end = add_size q.chunk.pos q.chunk.len in
      let to = add_size q.offset (to_size q.content_length) in
      let n = q.chunk.len in
      let raw = moved q.raw to q.chunk.pos n in
      let last = add_size end 1 in
      let c = get_or q.raw end 0 in
      let d = get_or q.raw last 0 in
      Ends-access T (ltb end (length q.raw)) c _ λ _.
        Ends-access T (ltb last (length q.raw)) d _ λ _.
          Ends-assert T (c == b'\r' && d == b'\n') _ (
            Ends-access T (leb (q.chunk.pos + n) (length q.raw) && leb (to + n) (length q.raw))
              (record q { raw = raw }) _
              λ fits.
                Ends-access T (ltb (add_size to n) (length raw))
                  (record q { raw = set raw (add_size to n) 0 }) _
                  λ _.
                    let h : (q.chunk.pos + n ≤ length q.raw) × (to + n ≤ length q.raw) =
                      ground arith in
                    (
                      (
                        s.0,
                        omega (
                          arith,
                          s.1,
                          length-moved q.raw to q.chunk.pos n h.1 h.0,
                          length-set raw (add_size to n) 0,
                        ),
                        s.2,
                      ),
                      shrinks q s o h.0,
                    ))

  chunk_data_in-Turn :
      (q : Parser) → Same p q → q.chunk.offset < q.raw_size → ChunkTurn p q (chunk_data_in q)
  unfolding chunk_data_in
  chunk_data_in-Turn q s o =
      let T = Turn (Same p) (Left p) to_do (to_do q) in
      Ends-assert T (ltb 0 q.chunk.len) _ (
        Ends-assert T (not (q.chunk.pos == 0)) _
          (elim (Bool-cases (ltb q.raw_size (add_size (add_size q.chunk.pos q.chunk.len) 2))) [
            | inl waits ↦ rw waits (refl, s)
            | inr there ↦ rw there (take_chunk-Turn q s o)
          ]))

  chunk_in-Turn :
      (b : Body) (q : Parser) (c : ℕ)
      → Same p q
      → q.chunk.offset < q.raw_size
      → ChunkTurn p q (chunk_in b q c)
  unfolding chunk_in chunk_size_in hex_value size_end
  chunk_in-Turn Body.chunk_data q c s o = chunk_data_in-Turn q s o
  chunk_in-Turn b q c s o = ground arith

  chunk_step-Turn :
      (q : Parser) (c : ℕ) → Same p q → q.chunk.offset < q.raw_size → ChunkTurn p q (chunk_step q c)
  unfolding chunk_step
  chunk_step-Turn q c s o = by_state q.state_m
    where
      by_state :
          (m : StateM)
          → ChunkTurn p q (elim m [
            | StateM.body b ↦ chunk_in b q c
            | _ ↦ go (record q { chunk = record q.chunk { offset = q.chunk.offset + 1 } })
          ])
      by_state (StateM.body b) = chunk_in-Turn b q c s o
      by_state _ = (s, omega arith)

  abbrev Result : ℤ × Parser → Type 0
  Result (r, q) = Left p r q

  chunk_loop :
      (fuel : ℕ) (q : Parser)
      → to_do q < fuel
      → Same p q
      → Ends Result (loop (λ r. r.chunk.offset) chunk_step fuel q)
  unfolding loop
  chunk_loop zero q m s = elim m [ ]
  chunk_loop (suc fuel) q m s = elim (Bool-cases (ltb q.chunk.offset q.raw_size)) [
    | inr off ↦ rw (off, loop) (refl, s)
    | inl on ↦
        rw (on, loop)
          (Ends-access Result (ltb q.chunk.offset (length q.raw)) (get_or q.raw q.chunk.offset 0) _
            λ _.
              Ends-bind (Turn (Same p) (Left p) to_do (to_do q)) Result
                (chunk_step q (get_or q.raw q.chunk.offset 0))
                (elim [
                  | next r ↦ loop (λ r. r.chunk.offset) chunk_step fuel r
                  | leave r t ↦ ok (r, t)
                ])
                (chunk_step-Turn q _ s (ltb→lt q.chunk.offset q.raw_size on))
                (elim [ next r ↦ λ t. chunk_loop fuel r (omega arith) t.0 | leave r q₁ ↦ λ t. t ]))
  ]

chunk_begin-Same : (p : Parser) → Ends (Same p) (chunk_begin p)
unfolding chunk_begin
chunk_begin-Same p = ground arith

-- From a parser whose buffer holds less than 2^31 bytes, the loop over a chunked body ends within its
-- fuel, whatever sizes the chunks announce. Where it returns, its result is 0, and the parser has as
-- many bytes in its buffer and the same start of the body as before.
pub rtsp_parse_chunked-Left :
    (p : Parser) → IsSmall p → Ends (λ r. Left p r.0 r.1) (rtsp_parse_chunked p)
unfolding rtsp_parse_chunked
rtsp_parse_chunked-Left p small =
    let R : ℤ × Parser → Type 0 = λ r. Left p r.0 r.1 in
    Ends-assert R (is_transfer_encoding_chunked p) _ (
      Ends-bind (Same p) R (chunk_begin p) _ (chunk_begin-Same p)
        λ q s. chunk_loop p small (suc (to_do q)) q (omega arith) s)
