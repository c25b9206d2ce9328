-- ===== src/Rtsp/Fields/Turns.antt =====
-- src/common/rtsp-parser.c, rtsp_parse_header_line: turns of the loop, up to the end of a line.
use box_rtsp.Prelude.{
  and_both, ℕ, suc, ◌+◌, ◌≤◌, ◌<◌, ◌≡◌, refl, true, false, List, [], ◌∷◌, arith, length, get_or, ℤ,
}
use box_rtsp.Rtsp.Parser.{Field, StateM, Header, Parser, Env, is_blank, set_pos, set_len}
use box_rtsp.Rtsp.Exec.{ok, next}
use box_rtsp.Rtsp.Headers.{is_token_byte}
use box_rtsp.Rtsp.HeaderLine.{header_start, header_in, header_step}
use box_rtsp.Rtsp.Safe.Place.{field_rank, line_measure}
use box_rtsp.Rtsp.Bytes.{HasAt}
use box_rtsp.Rtsp.Runs.{Runs, Runs-step}
use box_rtsp.Rtsp.Fields.Grammar.{all_token, all_blank}

-- The parser inside a header: the buffer, the offset, the place and the header that is read.
abbrev pub place : Parser → List ℕ → ℕ → Field → Header → Parser
place p raw o f h = record p { raw = raw; offset = o; state_m = StateM.header f; header = h }

-- With the fuel of the loop it ends as `r`.
abbrev pub Ends : Env → Parser → ℤ × Parser → Type 0
Ends env = Runs (λ q. q.offset) (header_step env) line_measure

rank_bound : (f : Field) → field_rank f ≤ 8
rank_bound f = ground arith

module _ (env : Env) (p : Parser) (r : ℤ × Parser) (raw : List ℕ)
    (room : p.raw_size ≤ length raw) where
  -- A turn that goes on by one byte.
  pub Ends-byte :
      (o c : ℕ) (f g : Field) (h k : Header)
      → o < p.raw_size
      → get_or raw o 0 ≡ c
      → header_in env f (place p raw o f h) c ≡ ok (next (place p raw (o + 1) g k))
      → Ends env (place p raw (suc o) g k) r
      → Ends env (place p raw o f h) r
  unfolding header_step
  Ends-byte o c f g h k n e t x =
      let s : o + 1 ≡ suc o = omega arith in
      Runs-step (λ q. q.offset) (header_step env) line_measure (place p raw o f h)
        (place p raw (suc o) g k) c r n room e (rw s at t) (omega (arith, rank_bound f)) x

  -- A turn that stays, at a later place.
  pub Ends-again :
      (o c : ℕ) (f g : Field) (h k : Header)
      → o < p.raw_size
      → get_or raw o 0 ≡ c
      → header_in env f (place p raw o f h) c ≡ ok (next (place p raw o g k))
      → field_rank f < field_rank g
      → Ends env (place p raw o g k) r
      → Ends env (place p raw o f h) r
  unfolding header_step
  Ends-again o c f g h k n e t l x =
      Runs-step (λ q. q.offset) (header_step env) line_measure (place p raw o f h)
        (place p raw o g k) c r n room e t (omega (arith, rank_bound g)) x

  start_step :
      (o c : ℕ) (h : Header)
      → is_token_byte c ≡ true
      → header_in env Field.start (place p raw o Field.start h) c
        ≡ ok (next (place p raw o Field.name (record h { name = set_pos h.name o })))
  unfolding header_in header_start is_token_byte
  start_step o c h t = ground arith

  pub Ends-name_start :
      (o c : ℕ) (h : Header)
      → o < p.raw_size
      → get_or raw o 0 ≡ c
      → is_token_byte c ≡ true
      → Ends env (place p raw o Field.name (record h { name = set_pos h.name o })) r
      → Ends env (place p raw o Field.start h) r
  Ends-name_start o c h n e b x =
      Ends-again o c Field.start Field.name h (record h { name = set_pos h.name o }) n e
        (start_step o c h b) (omega arith) x

  name_step :
      (o c : ℕ) (h : Header)
      → is_token_byte c ≡ true
      → header_in env Field.name (place p raw o Field.name h) c
        ≡ ok (next (place p raw (o + 1) Field.name h))
  unfolding header_in is_token_byte
  name_step o c h t = ground arith

  pub Ends-name :
      (cs : List ℕ) (o z : ℕ) (h : Header)
      → all_token cs ≡ true
      → HasAt raw o cs
      → z ≡ o + length cs
      → z < p.raw_size
      → Ends env (place p raw z Field.name h) r
      → Ends env (place p raw o Field.name h) r
  Ends-name [] o z h t a q n x = let e : o ≡ z = omega arith in rw e x
  Ends-name (c ∷ cs) o z h t a q n x =
      let (b, d) = and_both (is_token_byte c) (all_token cs) t in
      Ends-byte o c Field.name Field.name h h (omega arith) a.1 (name_step o c h b)
        (Ends-name cs (suc o) z h d a.2 (omega arith) n x)

  colon_name :
      (o : ℕ) (h : Header)
      → header_in env Field.name (place p raw o Field.name h) b':'
        ≡ ok (next (place p raw o Field.sp1 (record h { name = set_len h.name o })))
  unfolding header_in
  colon_name o h = refl

  colon_sp1 :
      (o : ℕ) (h : Header)
      → header_in env Field.sp1 (place p raw o Field.sp1 h) b':'
        ≡ ok (next (place p raw o Field.separator h))
  unfolding header_in
  colon_sp1 o h = refl

  colon_separator :
      (o : ℕ) (h : Header)
      → header_in env Field.separator (place p raw o Field.separator h) b':'
        ≡ ok (next (place p raw (o + 1) Field.sp2 h))
  unfolding header_in
  colon_separator o h = refl

  pub Ends-colon :
      (o : ℕ) (h : Header)
      → o < p.raw_size
      → get_or raw o 0 ≡ b':'
      → Ends env (place p raw (suc o) Field.sp2 (record h { name = set_len h.name o })) r
      → Ends env (place p raw o Field.name h) r
  Ends-colon o h n c x =
      let k = record h { name = set_len h.name o } in
      Ends-again o b':' Field.name Field.sp1 h k n c (colon_name o h) (omega arith) (
        Ends-again o b':' Field.sp1 Field.separator k k n c (colon_sp1 o k) (omega arith)
          (Ends-byte o b':' Field.separator Field.sp2 k k n c (colon_separator o k) x))

  blank_step :
      (o c : ℕ) (h : Header)
      → is_blank c ≡ true
      → header_in env Field.sp2 (place p raw o Field.sp2 h) c
        ≡ ok (next (place p raw (o + 1) Field.sp2 h))
  unfolding header_in
  blank_step o c h t = ground arith

  pub Ends-gap :
      (cs : List ℕ) (o z : ℕ) (h : Header)
      → all_blank cs ≡ true
      → HasAt raw o cs
      → z ≡ o + length cs
      → z < p.raw_size
      → Ends env (place p raw z Field.sp2 h) r
      → Ends env (place p raw o Field.sp2 h) r
  Ends-gap [] o z h t a q n x = let e : o ≡ z = omega arith in rw e x
  Ends-gap (c ∷ cs) o z h t a q n x =
      let (b, d) = and_both (is_blank c) (all_blank cs) t in
      Ends-byte o c Field.sp2 Field.sp2 h h (omega arith) a.1 (blank_step o c h b)
        (Ends-gap cs (suc o) z h d a.2 (omega arith) n x)

  value_start :
      (o c : ℕ) (h : Header)
      → is_blank c ≡ false
      → header_in env Field.sp2 (place p raw o Field.sp2 h) c
        ≡ ok (next (place p raw o Field.value (record h { value = set_pos h.value o })))
  unfolding header_in
  value_start o c h t = ground arith

  pub Ends-value_start :
      (o c : ℕ) (h : Header)
      → o < p.raw_size
      → get_or raw o 0 ≡ c
      → is_blank c ≡ false
      → Ends env (place p raw o Field.value (record h { value = set_pos h.value o })) r
      → Ends env (place p raw o Field.sp2 h) r
  Ends-value_start o c h n e b x =
      Ends-again o c Field.sp2 Field.value h (record h { value = set_pos h.value o }) n e
        (value_start o c h b) (omega arith) x
