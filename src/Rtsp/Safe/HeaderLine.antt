-- ===== src/Rtsp/Safe/HeaderLine.antt =====
-- src/common/rtsp-parser.c: rtsp_parse_header_line stays in bounds and ends.
use box_rtsp.Prelude.{
  ℕ, ◌+◌, ◌≤◌, ◌<◌, ◌≡◌, refl, ◌∙◌, ◌⊎◌, inl, inr, Bool, true, false, [], ◌∷◌, ◌++◌, Option, none,
  some, arith, leb, ◌==◌, if◌then◌else◌, Bool-cases, length, ℤ, pos, negsuc,
}
use box_rtsp.Prelude.Int.{eq_int}
use box_rtsp.Rtsp.Parser.{Mode, Field, Body, StateM, Header, Parser, Env, advance, goto}
use box_rtsp.Rtsp.Exec.{Halt, Exec, ok, halt, ◌>>=◌, Step, leave}
use box_rtsp.Rtsp.Buffer.{enomem}
use box_rtsp.Rtsp.RequestLine.{trailing_blanks, line_fuel}
use box_rtsp.Rtsp.Headers.{rtsp_header_add, rtsp_header_handler}
use box_rtsp.Rtsp.HeaderLine.{
  last_header, fold_line, name_line, next_line, header_lf, header_start, header_in, header_step,
  rtsp_parse_header_line,
}
use box_rtsp.Rtsp.Safe.Rules.{Ensures, Turn, Ensures-bind, Ensures-assert, loop_rule}
use box_rtsp.Rtsp.Safe.Bounds.{IsBuffer, EndsBy, AllEndBy, AllEndBy-mono, set_len-EndsBy}
use box_rtsp.Rtsp.Safe.Place.{FieldInv, IsValid, line_measure}
use box_rtsp.Rtsp.Safe.Handler.{Kept, rtsp_header_handler-Kept}
use box_rtsp.Rtsp.Safe.Stores.{
  Added, Folded, AllEndBy-concat, rtsp_header_add-Added, fold_line-Folded,
}

abbrev pub in_field : StateM → Bool
in_field (StateM.header f) = true
in_field _ = false

-- In the headers, in mode `m`.
abbrev pub Going : Mode → Parser → Type 0
Going m p = IsValid p × (p.server_mode ≡ m) × (in_field p.state_m ≡ true)

-- What the header's machine leaves: a valid parser of the same mode; the result is -1 where there
-- was no memory for a header.
abbrev pub Left : Mode → ℤ → Parser → Type 0
Left m r p = ((r ≡ pos 0) ⊎ (r ≡ negsuc 0)) × IsValid p × (p.server_mode ≡ m)

abbrev FieldTurn : Mode → Parser → Exec Step → Type 0
FieldTurn m p = Ensures (Turn (Going m) (Left m) line_measure (line_measure p))

-- The next line begins behind this one.
next_line-Turn :
    (m : Mode) (p q : Parser)
    → p.server_mode ≡ m
    → p.offset < p.raw_size
    → EndsBy p.offset p.header.name
    → IsBuffer q.raw q.raw_size
    → q.raw_size ≡ p.raw_size
    → q.offset ≡ p.offset
    → q.server_mode ≡ p.server_mode
    → q.header ≡ p.header
    → AllEndBy p.offset q.headers
    → length q.headers ≤ q.header_capacity
    → FieldTurn m p (next_line q)
next_line-Turn m p q e o n b r f s h a c =
    ground (arith, AllEndBy-mono p.offset (p.offset + 1) q.headers)

-- What a line with a name leaves for the next line.
record Named (p q : Parser) : Type 0 where
  buffer : IsBuffer q.raw q.raw_size
  raw_size_same : q.raw_size ≡ p.raw_size
  offset_same : q.offset ≡ p.offset
  mode_same : q.server_mode ≡ p.server_mode
  header_same : q.header ≡ p.header
  stored : AllEndBy p.offset q.headers
  fits : length q.headers ≤ q.header_capacity

abbrev Outcome : Parser → ℤ × Parser → Type 0
Outcome p r = ((r.0 ≡ pos 0) × Named p r.1) ⊎ ((r.0 ≡ enomem) × (r.1 ≡ p))

Kept-Named :
    (p q r : Parser)
    → AllEndBy p.offset (p.headers ++ p.header ∷ [])
    → Added p p.header q
    → Kept q r
    → Named p r
Kept-Named p q r s a k = record {
  buffer = k.buffer;
  raw_size_same = k.raw_size_same ∙ a.raw_size_same;
  offset_same = k.offset_same ∙ a.offset_same;
  mode_same = k.mode_same ∙ a.mode_same;
  header_same = k.header_same ∙ a.header_same;
  stored = rw (k.headers_same, a.appended) s;
  fits = rw (k.headers_same, k.capacity_same) a.fits;
}

handled :
    (env : Env) (p : Parser)
    → IsValid p
    → EndsBy p.offset p.header.name
    → EndsBy p.offset p.header.value
    → (q : Parser) → Added p p.header q
    → Ensures
        (Outcome p)
        (rtsp_header_handler env q p.header.name.pos p.header.value.pos >>= λ r. ok (pos 0, r))
handled env p v n w q a =
    Ensures-bind (Kept q) (Outcome p)
      (rtsp_header_handler env q p.header.name.pos p.header.value.pos) (λ r. ok (pos 0, r))
      (rtsp_header_handler-Kept env q p.header.name.pos p.header.value.pos a.buffer
        (omega (arith, a.raw_size_same, v.reached)))
      λ r k.
        inl (refl, Kept-Named p q r (AllEndBy-concat p.offset p.headers p.header v.stored n w) a k)

name_line-Outcome :
    (env : Env) (p : Parser)
    → IsValid p
    → EndsBy p.offset p.header.name
    → EndsBy p.offset p.header.value
    → Ensures (Outcome p) (name_line env p)
unfolding name_line
name_line-Outcome env p v n w = Ensures-assert (Outcome p) (leb 1 p.header.name.len) _ λ _.
    Ensures-bind _ (Outcome p) (rtsp_header_add env p p.header) _
      (rtsp_header_add-Added env p p.header v.buffer (omega (arith, v.reached))
        (omega (arith, v.reached)) v.held)
      λ r h. elim h [
        | inl (e, a) ↦ rw e (handled env p v n w r.1 a)
        | inr (e, k) ↦ rw e (inr (refl, k))
      ]

name_line-Turn :
    (env : Env) (m : Mode) (p : Parser)
    → IsValid p
    → p.server_mode ≡ m
    → p.offset < p.raw_size
    → EndsBy p.offset p.header.name
    → EndsBy p.offset p.header.value
    → FieldTurn m p (
        name_line env p >>= λ added.
        if eq_int added.0 (pos 0) then next_line added.1 else ok (leave (negsuc 0) added.1))
name_line-Turn env m p v e o n w =
    Ensures-bind (Outcome p) (Turn (Going m) (Left m) line_measure (line_measure p))
      (name_line env p) _ (name_line-Outcome env p v n w)
      λ r h. elim h [
        | inl (z, g) ↦ rw z (
            next_line-Turn m p r.1 e o n g.buffer g.raw_size_same g.offset_same g.mode_same
              g.header_same g.stored g.fits)
        | inr (z, k) ↦ rw (z, k) (inr refl, v, e)
      ]

fold-Turn :
    (env : Env) (m : Mode) (p : Parser) (h : Header)
    → IsValid p
    → p.server_mode ≡ m
    → p.offset < p.raw_size
    → EndsBy p.offset p.header.name
    → EndsBy p.offset p.header.value
    → AllEndBy p.header.value.pos p.headers
    → last_header p.headers ≡ some h
    → FieldTurn m p (fold_line env p h >>= λ q. next_line q)
fold-Turn env m p h v e o n w s l =
    Ensures-bind (Folded p) (Turn (Going m) (Left m) line_measure (line_measure p))
      (fold_line env p h) (λ q. next_line q) (fold_line-Folded env p h v.buffer v.reached w s l)
      λ q f.
        next_line-Turn m p q e o n f.buffer f.raw_size_same f.offset_same f.mode_same f.header_same
          f.stored (omega (arith, f.count_same, f.capacity_same, v.held))

folding-Turn :
    (env : Env) (m : Mode) (p : Parser)
    → IsValid p
    → p.server_mode ≡ m
    → p.offset < p.raw_size
    → EndsBy p.offset p.header.name
    → EndsBy p.offset p.header.value
    → AllEndBy p.header.value.pos p.headers
    → (l : Option Header) → last_header p.headers ≡ l
    → FieldTurn m p
        (elim l [ none ↦ halt Halt.aborts | some h ↦ fold_line env p h >>= λ q. next_line q ])
folding-Turn env m p v e o n w s none k = tt
folding-Turn env m p v e o n w s (some h) k = fold-Turn env m p h v e o n w s k

value_read :
    (p : Parser)
    → FieldInv Field.lf p.offset p.header p.headers
    → (p.header.value.pos == 0) ≡ false
    → EndsBy p.offset p.header.value × AllEndBy p.header.value.pos p.headers
value_read p i h = ground arith

finished-IsValid :
    (p : Parser)
    → IsValid p
    → p.offset < p.raw_size
    → IsValid (advance (goto (StateM.body Body.start) p))
finished-IsValid p v o = ground (arith, AllEndBy-mono p.offset (p.offset + 1) p.headers)

header_lf-Turn :
    (env : Env) (m : Mode) (p : Parser) (c : ℕ)
    → IsValid p
    → p.server_mode ≡ m
    → p.offset < p.raw_size
    → FieldInv Field.lf p.offset p.header p.headers
    → FieldTurn m p (header_lf env p c)
unfolding header_lf
header_lf-Turn env m p c v e o i = Ensures-assert _ (c == b'\n') _ λ _.
    elim (Bool-cases (p.header.value.pos == 0)) [
      | inl end ↦ rw end (inl refl, finished-IsValid p v o, e)
      | inr more ↦
          let w = value_read p i more in
          elim (Bool-cases (p.header.name.pos == 0)) [
            | inr named ↦ rw (more, named) (name_line-Turn env m p v e o i.0 w.0)
            | inl folds ↦
                rw (more, folds)
                  (folding-Turn env m p v e o i.0 w.0 w.1 (last_header p.headers) refl)
          ]
    ]

header_in-Turn :
    (env : Env) (m : Mode) (f : Field) (p : Parser) (c : ℕ)
    → IsValid p
    → p.server_mode ≡ m
    → p.state_m ≡ StateM.header f
    → p.offset < p.raw_size
    → FieldTurn m p (header_in env f p c)
unfolding header_in trailing_blanks header_start
header_in-Turn env m Field.lf p c v e s o = header_lf-Turn env m p c v e o (ground arith)
header_in-Turn env m f p c v e s o = ground (
  arith,
  AllEndBy-mono p.offset (p.offset + 1) p.headers,
  set_len-EndsBy p.header.name p.offset,
  set_len-EndsBy p.header.value p.offset,
)

header_step-Turn :
    (env : Env) (m : Mode) (p : Parser) (c : ℕ)
    → Going m p
    → p.offset < p.raw_size
    → FieldTurn m p (header_step env p c)
unfolding header_step
header_step-Turn env m p c g o = by_state p.state_m refl
  where
    by_state :
        (s : StateM)
        → p.state_m ≡ s
        → FieldTurn m p (elim s [ StateM.header f ↦ header_in env f p c | _ ↦ halt Halt.aborts ])
    by_state (StateM.header f) e = header_in-Turn env m f p c g.0 g.1 e o
    by_state (StateM.start_line l) e = tt
    by_state (StateM.body b) e = tt
    by_state StateM.done e = tt

-- From a valid parser inside the headers, of either mode, the loop over the header lines ends
-- within its fuel and makes no access outside the buffer or the array of headers. Where no
-- assertion fails, its result is 0 or -1 and it leaves a valid parser.
pub rtsp_parse_header_line-Left :
    (env : Env) (m : Mode) (p : Parser)
    → Going m p
    → Ensures (λ r. Left m r.0 r.1) (rtsp_parse_header_line env p)
unfolding rtsp_parse_header_line
rtsp_parse_header_line-Left env m p g =
    loop_rule (Going m) (Left m) line_measure (λ q. q.offset) (header_step env)
      (λ q h o. omega (arith, h.0.buffer.room)) (header_step-Turn env m)
      (λ q h. (inl refl, h.0, h.1)) (line_fuel p) p (omega arith) g
