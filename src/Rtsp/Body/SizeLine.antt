-- ===== src/Rtsp/Body/SizeLine.antt =====
-- src/common/rtsp-parser.c, rtsp_parse_chunked: the line with a chunk's size.
use box_rtsp.Prelude.{
  and_both, ℕ, suc, ◌+◌, ◌*◌, ◌%◌, ◌≤◌, ◌<◌, ◌≡◌, refl, ◌⊎◌, inl, inr, true, ◌||◌, List, [], ◌∷◌,
  ◌++◌, Option, none, some, arith, ◌==◌, if◌then◌else◌, length, get_or, ℤ,
}
use box_rtsp.Rtsp.Parser.{Body, Parser, size_mod}
use box_rtsp.Rtsp.Exec.{ok, next}
use box_rtsp.Rtsp.Chunked.{hex_value, size_end, chunk_size_in, chunk_in, chunk_step}
use box_rtsp.Rtsp.Body.Grammar.{hex_from, in_line, all_in_line, is_ext, crlf}
use box_rtsp.Rtsp.Bytes.{HasAt, HasAt-left, HasAt-right}
use box_rtsp.Rtsp.Body.Turns.{Ends, Ends-step, place}

hex_from-le : (n : ℕ) (cs : List ℕ) (v : ℕ) → hex_from n cs ≡ some v → n ≤ v
hex_from-le n [] v h = ground arith
hex_from-le n (c ∷ cs) v h =
    by_digit (hex_value c) (λ d e. omega (arith, hex_from-le (n * 16 + d) cs v e)) h
  where
    by_digit :
        (o : Option ℕ)
        → ((d : ℕ) → hex_from (n * 16 + d) cs ≡ some v → n ≤ v)
        → elim o [ none ↦ none | some d ↦ hex_from (n * 16 + d) cs ] ≡ some v
        → n ≤ v
    by_digit none f e = cc
    by_digit (some d) f e = f d e

module _ (p : Parser) (r : ℤ × Parser) (raw : List ℕ) (k : ℕ) (room : p.raw_size ≤ length raw) where
  digit_step :
      (c o l i d : ℕ)
      → hex_value c ≡ some d
      → l * 16 + d < size_mod
      → chunk_step (place p raw k o l i Body.size) c
        ≡ ok (next (place p raw k (suc o) (l * 16 + d) i Body.size))
  unfolding chunk_step chunk_in chunk_size_in
  digit_step c o l i d y h =
      let e : (l * 16 + d) % size_mod ≡ l * 16 + d = omega arith in
      let a : o + 1 ≡ suc o = omega arith in rw (chunk_size_in, y, e, a) refl

  pub Ends-digits :
      (cs : List ℕ) (o l i v z : ℕ)
      → HasAt raw o cs
      → z ≡ o + length cs
      → z ≤ p.raw_size
      → hex_from l cs ≡ some v
      → v < size_mod
      → Ends (place p raw k z v i Body.size) r
      → Ends (place p raw k o l i Body.size) r
  Ends-digits [] o l i v z h q n x s e =
      let a : o ≡ z = omega arith in let b : l ≡ v = ground arith in rw (a, b) e
  Ends-digits (c ∷ cs) o l i v z h q n x s e =
      by_digit (hex_value c) refl
        (λ d x'. Ends-digits cs (suc o) (l * 16 + d) i v z h.2 (omega arith) n x' s e) x
    where
      by_digit :
          (m : Option ℕ)
          → hex_value c ≡ m
          → ((d : ℕ)
              → hex_from (l * 16 + d) cs ≡ some v
              → Ends (place p raw k (suc o) (l * 16 + d) i Body.size) r)
          → elim m [ none ↦ none | some d ↦ hex_from (l * 16 + d) cs ] ≡ some v
          → Ends (place p raw k o l i Body.size) r
      by_digit none y f g = cc
      by_digit (some d) y f g =
          Ends-step (place p raw k o l i Body.size) (place p raw k (suc o) (l * 16 + d) i Body.size)
            c r (omega arith) room h.1
            (digit_step c o l i d y (omega (arith, hex_from-le (l * 16 + d) cs v g))) (omega arith)
            (f d g)

  first_step :
      (c o i d : ℕ)
      → hex_value c ≡ some d
      → chunk_step (place p raw k o 0 i Body.start) c
        ≡ ok (next (place p raw k (suc o) d i Body.size))
  unfolding chunk_step chunk_in hex_value
  first_step c o i d x = ground arith

  ext_step :
      (c o l i : ℕ)
      → in_line c ≡ true
      → chunk_step (place p raw k o l i Body.extension) c
        ≡ ok (next (place p raw k (suc o) l i Body.extension))
  unfolding chunk_step chunk_in
  ext_step c o l i h = ground arith

  cr_step :
      (b : Body) (o l i : ℕ)
      → (b ≡ Body.size) ⊎ (b ≡ Body.extension)
      → chunk_step (place p raw k o l i b) b'\r'
        ≡ ok (next (place p raw k (suc o) l i Body.extension_cr))
  unfolding chunk_step chunk_in chunk_size_in hex_value
  cr_step b o l i h = ground arith

  -- What follows the line with the size.
  abbrev pub behind_size : ℕ → Body
  behind_size l = if l == 0 then Body.trailer_start else Body.chunk_data

  lf_step :
      (o l i : ℕ)
      → chunk_step (place p raw k o l i Body.extension_cr) b'\n'
        ≡ ok (next (place p raw k (suc o) l (suc o) (behind_size l)))
  unfolding chunk_step chunk_in size_end
  lf_step o l i = ground arith

  ext_begins :
      (c o l i : ℕ)
      → (c == b'\t' || c == b' ' || c == b';') ≡ true
      → chunk_step (place p raw k o l i Body.size) c
        ≡ ok (next (place p raw k (suc o) l i Body.extension))
  unfolding chunk_step chunk_in chunk_size_in hex_value
  ext_begins c o l i h = ground arith

  -- A turn that goes on by one byte.
  Ends-byte :
      (o l i m j c : ℕ) (a b : Body)
      → o < p.raw_size
      → get_or raw o 0 ≡ c
      → chunk_step (place p raw k o l i a) c ≡ ok (next (place p raw k (suc o) m j b))
      → Ends (place p raw k (suc o) m j b) r
      → Ends (place p raw k o l i a) r
  Ends-byte o l i m j c a b n g t e =
      Ends-step (place p raw k o l i a) (place p raw k (suc o) m j b) c r n room g t (omega arith) e

  -- The end of the line, from `o` on.
  Ends-crlf :
      (o l i : ℕ) (b : Body)
      → (b ≡ Body.size) ⊎ (b ≡ Body.extension)
      → HasAt raw o crlf
      → suc (suc o) ≤ p.raw_size
      → Ends (place p raw k (suc (suc o)) l (suc (suc o)) (behind_size l)) r
      → Ends (place p raw k o l i b) r
  Ends-crlf o l i b x h n e =
      Ends-byte o l i l i b'\r' b Body.extension_cr (omega arith) h.1 (cr_step b o l i x) (
        Ends-byte (suc o) l i l (suc (suc o)) b'\n' Body.extension_cr (behind_size l) (omega arith)
          h.2.1 (lf_step (suc o) l i) e)

  Ends-extension :
      (cs : List ℕ) (o l i z : ℕ)
      → all_in_line cs ≡ true
      → HasAt raw o (cs ++ crlf)
      → z ≡ o + length cs + 2
      → z ≤ p.raw_size
      → Ends (place p raw k z l z (behind_size l)) r
      → Ends (place p raw k o l i Body.extension) r
  Ends-extension [] o l i z x h q n e =
      let a : z ≡ suc (suc o) = omega arith in
      Ends-crlf o l i Body.extension (inr refl) h (omega arith) (rw a at e)
  Ends-extension (c ∷ cs) o l i z x h q n e =
      let (a, b) = and_both (in_line c) (all_in_line cs) x in
      Ends-byte o l i l i c Body.extension Body.extension (omega arith) h.1 (ext_step c o l i a)
        (Ends-extension cs (suc o) l i z b h.2 (omega arith) n e)

  Ends-line_end :
      (cs : List ℕ) (o l i z : ℕ)
      → is_ext cs ≡ true
      → HasAt raw o (cs ++ crlf)
      → z ≡ o + length cs + 2
      → z ≤ p.raw_size
      → Ends (place p raw k z l z (behind_size l)) r
      → Ends (place p raw k o l i Body.size) r
  Ends-line_end [] o l i z x h q n e =
      let a : z ≡ suc (suc o) = omega arith in
      Ends-crlf o l i Body.size (inl refl) h (omega arith) (rw a at e)
  Ends-line_end (c ∷ cs) o l i z x h q n e =
      let (a, b) = and_both (c == b'\t' || c == b' ' || c == b';') (all_in_line cs) x in
      Ends-byte o l i l i c Body.size Body.extension (omega arith) h.1 (ext_begins c o l i a)
        (Ends-extension cs (suc o) l i z b h.2 (omega arith) n e)

  -- A whole line with the size `v`.
  pub Ends-size_line :
      (c : ℕ) (digits ext : List ℕ) (o i v z : ℕ)
      → hex_from 0 (c ∷ digits) ≡ some v
      → v < size_mod
      → is_ext ext ≡ true
      → HasAt raw o (c ∷ (digits ++ (ext ++ crlf)))
      → z ≡ o + length digits + length ext + 3
      → z ≤ p.raw_size
      → Ends (place p raw k z v z (behind_size v)) r
      → Ends (place p raw k o 0 i Body.start) r
  Ends-size_line c digits ext o i v z x s y h q n e = by_digit (hex_value c) refl x
    where
      by_digit :
          (m : Option ℕ)
          → hex_value c ≡ m
          → elim m [ none ↦ none | some d ↦ hex_from (0 * 16 + d) digits ] ≡ some v
          → Ends (place p raw k o 0 i Body.start) r
      by_digit none w g = cc
      by_digit (some d) w g =
          let from : ℕ = suc o + length digits in
          let u : 0 * 16 + d ≡ d = omega arith in
          Ends-byte o 0 i d i c Body.start Body.size (omega arith) h.1 (first_step c o i d w) (
            Ends-digits digits (suc o) d i v from (HasAt-left raw (suc o) digits (ext ++ crlf) h.2)
              refl (omega arith) (rw u at g) s
              (Ends-line_end ext from v i z y (HasAt-right raw (suc o) digits (ext ++ crlf) h.2)
                (omega arith) n e))
