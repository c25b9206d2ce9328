-- ===== src/Rtsp/Body/Pieces.antt =====
-- src/common/rtsp-parser.c, rtsp_parse_chunked: one chunk, from its size line to the next.
use box_rtsp.Prelude.{
  ℕ, suc, ◌+◌, ◌-◌, ◌^◌, ◌≤◌, ◌<◌, ◌≡◌, refl, ap, ◌∙◌, ◌⊎◌, inl, inr, true, false, List, ◌++◌,
  arith, ltb, leb, lt→ltb, le→ltb, ◌==◌, length, get_or, set, length-set, ℤ, pos,
}
use box_rtsp.Rtsp.Parser.{Body, Parser, size_mod, add_size, to_size, to_int}
use box_rtsp.Rtsp.Exec.{ok, next}
use box_rtsp.Rtsp.Chunked.{move_bytes, take_chunk, chunk_data_in, chunk_in, chunk_step}
use box_rtsp.Rtsp.Safe.Rules.{peek_lem}
use box_rtsp.Rtsp.Body.Grammar.{crlf}
use box_rtsp.Rtsp.Bytes.{
  HasAt, HasAt-eq, HasAt-append, HasAt-moved, get_or-set_ne, moved, length-moved, moved_before,
  moved_to, moved_behind,
}
use box_rtsp.Rtsp.Body.Turns.{place, Ends, Ends-step}

add_size_lem : (a b : ℕ) → a + b < size_mod → add_size a b ≡ a + b
unfolding add_size
add_size_lem a b h = omega arith

to_int_lem : (k n : ℕ) → k + n < 2 ^ 31 → to_int (add_size (to_size (pos k)) n) ≡ pos (k + n)
unfolding to_int add_size to_size
to_int_lem k n h = ground arith

-- The buffer behind a chunk of `n` bytes at `z`, whose data goes to `to`.
abbrev pub taken : List ℕ → ℕ → ℕ → ℕ → List ℕ
taken raw to z n = set (moved raw to z n) (to + n) 0

module _ (p : Parser) (raw : List ℕ) (k z n : ℕ) (room : p.raw_size ≤ length raw)
    (small : length raw < 2 ^ 31) (behind : p.offset + k < z) (filled : 0 < n)
    (arrived : z + n + 2 ≤ p.raw_size) (ends : HasAt raw (z + n) crlf) where
  to_lem : add_size p.offset (to_size (pos k)) ≡ p.offset + k
  unfolding add_size to_size
  to_lem = omega arith

  next_lem : add_size (add_size z (add_size n 1)) 1 ≡ z + n + 2
  unfolding add_size
  next_lem = omega arith

  take_chunk_lem :
      take_chunk (place p raw k z n z Body.chunk_data)
      ≡ ok (next (place p (taken raw (p.offset + k) z n) (k + n) (z + n + 2) 0 0 Body.start))
  unfolding take_chunk move_bytes
  take_chunk_lem =
      let to = p.offset + k in
      let a : add_size z n ≡ z + n = add_size_lem z n (omega arith) in
      let b : add_size (z + n) 1 ≡ z + n + 1 = add_size_lem (z + n) 1 (omega arith) in
      let c : add_size p.offset (to_size (pos k)) ≡ to = to_lem in
      let d : add_size to n ≡ to + n = add_size_lem to n (omega arith) in
      let e : add_size (add_size z (add_size n 1)) 1 ≡ z + n + 2 = next_lem in
      let f : to_int (add_size (to_size (pos k)) n) ≡ pos (k + n) = to_int_lem k n (omega arith) in
      let g : leb (z + n) (length raw) ≡ true = ground (arith) in
      let h : leb (to + n) (length raw) ≡ true = ground (arith) in
      let w : ltb (to + n) (length (moved raw to z n)) ≡ true =
        lt→ltb _ _ (omega (arith, length-moved raw to z n)) in
      let u : suc (z + n) ≡ z + n + 1 = omega arith in
      rw
        (
          a,
          b,
          c,
          d,
          peek_lem (place p raw k z n z Body.chunk_data) (z + n) (omega arith),
          peek_lem (place p raw k z n z Body.chunk_data) (z + n + 1) (omega arith),
          ends.1,
          rw u at ends.2.1,
          g,
          h,
          w,
          e,
          f,
        )
        refl

  data_step :
      (c : ℕ)
      → chunk_step (place p raw k z n z Body.chunk_data) c
        ≡ ok (next (place p (taken raw (p.offset + k) z n) (k + n) (z + n + 2) 0 0 Body.start))
  unfolding chunk_step chunk_in chunk_data_in
  data_step c =
      let e : add_size (add_size z n) 2 ≡ z + n + 2 =
        ap (λ m. add_size m 2) (add_size_lem z n (omega arith))
        ∙ add_size_lem (z + n) 2 (omega arith) in
      let zero_not : (z == 0) ≡ false = ground (arith, behind) in
      rw (lt→ltb 0 n filled, zero_not, take_chunk_lem, e, le→ltb p.raw_size (z + n + 2) arrived)
        refl

  taken_same :
      (j : ℕ)
      → (j < p.offset + k) ⊎ (p.offset + k + n < j)
      → get_or (taken raw (p.offset + k) z n) j 0 ≡ get_or raw j 0
  taken_same j (inl h) =
      get_or-set_ne (moved raw (p.offset + k) z n) (p.offset + k + n) j 0 (inr (omega arith))
      ∙ moved_before raw (p.offset + k) z n (omega arith) (omega arith) j h
  taken_same j (inr h) =
      let i = j - (p.offset + k + n) in
      let e : p.offset + k + (n + i) ≡ j = omega arith in
      let f : p.offset + k + n + i ≡ j = omega arith in
      get_or-set_ne (moved raw (p.offset + k) z n) (p.offset + k + n) j 0 (inl h)
      ∙ (rw (e, f) at (moved_behind raw (p.offset + k) z n (omega arith) (omega arith) i))

  pub length-taken : length (taken raw (p.offset + k) z n) ≡ length raw
  length-taken =
      length-set (moved raw (p.offset + k) z n) (p.offset + k + n) 0
      ∙ length-moved raw (p.offset + k) z n (omega arith) (omega arith)

  -- The body that was there before, and what follows the chunk, stay.
  taken-HasAt_before :
      (cs : List ℕ)
      → length cs ≡ k
      → HasAt raw p.offset cs
      → HasAt (taken raw (p.offset + k) z n) p.offset cs
  taken-HasAt_before cs l h =
      HasAt-moved raw (taken raw (p.offset + k) z n) p.offset p.offset cs
        (omega (arith, length-taken)) (λ j m. taken_same (p.offset + j) (inl (omega arith))) h

  pub taken-HasAt_behind :
      (cs : List ℕ)
      → HasAt raw (z + n + 2) cs
      → z + n + 2 + length cs ≤ p.raw_size
      → HasAt (taken raw (p.offset + k) z n) (z + n + 2) cs
  taken-HasAt_behind cs h l =
      HasAt-moved raw (taken raw (p.offset + k) z n) (z + n + 2) (z + n + 2) cs
        (omega (arith, length-taken)) (λ j m. taken_same (z + n + 2 + j) (inr (omega arith))) h

  taken-HasAt_content :
      (cs : List ℕ)
      → length cs ≡ n
      → HasAt raw z cs
      → HasAt (taken raw (p.offset + k) z n) (p.offset + k) cs
  taken-HasAt_content cs l h =
      HasAt-moved raw (taken raw (p.offset + k) z n) z (p.offset + k) cs
        (omega (arith, length-taken))
        (λ j m.
          get_or-set_ne (moved raw (p.offset + k) z n) (p.offset + k + n) (p.offset + k + j) 0
            (inr (omega arith))
          ∙ moved_to raw (p.offset + k) z n (omega arith) (omega arith) j (omega arith))
        h

  -- The data of the chunk follows the body that was there.
  pub taken-HasAt :
      (body cs : List ℕ)
      → length body ≡ k
      → length cs ≡ n
      → HasAt raw p.offset body
      → HasAt raw z cs
      → HasAt (taken raw (p.offset + k) z n) p.offset (body ++ cs)
  taken-HasAt body cs l m h i =
      HasAt-append (taken raw (p.offset + k) z n) p.offset body cs (taken-HasAt_before body l h) (
        HasAt-eq (taken raw (p.offset + k) z n) cs _ _ (omega (arith, l))
          (taken-HasAt_content cs m i))

  pub Ends-content :
      (r : ℤ × Parser)
      → Ends (place p (taken raw (p.offset + k) z n) (k + n) (z + n + 2) 0 0 Body.start) r
      → Ends (place p raw k z n z Body.chunk_data) r
  Ends-content r e =
      Ends-step (place p raw k z n z Body.chunk_data)
        (place p (taken raw (p.offset + k) z n) (k + n) (z + n + 2) 0 0 Body.start) (get_or raw z 0)
        r (omega arith) room refl (data_step (get_or raw z 0)) (omega arith) e
