-- ===== src/Rtsp/Safe/Call.antt =====
-- src/common/rtsp-parser.c: a whole call of rtsp_parser_input on a message whose body is not chunked.
use box_rtsp.Prelude.{
  ℕ, ◌≡◌, refl, ◌⊎◌, inl, inr, false, not, ◌||◌, List, leb, length, if◌then◌else◌, Bool-cases, ℤ,
  pos, negsuc,
}
use box_rtsp.Prelude.Int.{eq_int, is_neg}
use box_rtsp.Rtsp.Parser.{Mode, StateM, Parser, Env, goto, add_size, to_size, sub_size}
use box_rtsp.Rtsp.Exec.{aborts, faults, spins, Exec, ok, halt, ◌>>=◌, assert}
use box_rtsp.Rtsp.Buffer.{e2big, enomem, rtsp_rawdata}
use box_rtsp.Rtsp.Headers.{is_transfer_encoding_chunked}
use box_rtsp.Rtsp.Input.{
  in_body, is_done, plain_body, body_part, remain, finish_input, read_head, rtsp_parser_input,
}
use box_rtsp.Rtsp.Safe.Rules.{Ensures, Ensures-bind, Ensures-assert}
use box_rtsp.Rtsp.Safe.Place.{Place, IsValid}
use box_rtsp.Rtsp.Safe.Input.{Parsed, read_head-Parsed}
use box_rtsp.Rtsp.Safe.Buffer.{IsReady, Appended, rtsp_rawdata-Appended}

done-IsValid :
    (p : Parser) (n : ℤ) → IsValid p → IsValid (goto StateM.done (record p { content_length = n }))
done-IsValid p n v = record {
  buffer = v.buffer;
  reached = v.reached;
  held = v.held;
  stored = v.stored;
  place = no_place p.server_mode;
}
  where
    no_place : (m : Mode) → Place m StateM.done (goto StateM.done (record p { content_length = n }))
    no_place Mode.server = tt
    no_place Mode.client = tt

-- A valid parser of mode `m`.
abbrev Holds : Mode → Parser → Type 0
Holds m p = IsValid p × (p.server_mode ≡ m)

plain_body-Holds : (m : Mode) (p : Parser) → Holds m p → Ensures (Holds m) (plain_body p)
unfolding plain_body
plain_body-Holds m p h = elim (Bool-cases (eq_int p.content_length (negsuc 0))) [
  | inl n ↦ rw n (done-IsValid p (pos 0) h.0, h.1)
  | inr n ↦
      rw n (elim (Bool-cases (leb p.raw_size (add_size p.offset (to_size p.content_length)))) [
        | inr b ↦ rw b tt
        | inl b ↦
            rw b
              (elim (Bool-cases (leb (add_size p.offset (to_size p.content_length)) p.raw_size)) [
                | inl c ↦ rw c (done-IsValid p p.content_length h.0, h.1)
                | inr c ↦ rw c h
              ])
      ])
]

body_part-Parsed :
    (m : Mode) (r : ℤ) (p : Parser)
    → is_transfer_encoding_chunked p ≡ false
    → Parsed m (r, p)
    → Ensures (Parsed m) (body_part (r, p))
unfolding body_part
body_part-Parsed m r p c h = elim (Bool-cases (in_body p)) [
  | inr i ↦ rw i h
  | inl i ↦
      rw (i, c)
        (Ensures-bind (Holds m) (Parsed m) (plain_body p) _ (plain_body-Holds m p (h.1, h.2))
          (λ q k. (h.0, k.0, k.1)))
]

-- The result is 0, 1 or -1, and the parser is valid and of the mode that it had.
abbrev pub Finished : Mode → ℤ × ℕ × Parser → Type 0
Finished m r =
    ((r.0 ≡ pos 0) ⊎ ((r.0 ≡ pos 1) ⊎ (r.0 ≡ negsuc 0))) × IsValid r.2 × (r.2.server_mode ≡ m)

finish_input-Finished :
    (m : Mode) (n : ℕ) (r : ℤ × Parser) → Parsed m r → Ensures (Finished m) (finish_input n r)
unfolding finish_input
finish_input-Finished m n r ((inr e), v, s) = rw e (inr (inr refl), v, s)
finish_input-Finished m n r ((inl e), v, s) = rw e (elim (Bool-cases (is_done r.1)) [
  | inl d ↦ rw d (
      Ensures-assert (Finished m)
        (is_neg r.1.content_length
          || leb (to_size r.1.content_length) (sub_size r.1.raw_size r.1.offset))
        (ok (pos 0, remain r.1, r.1)) (λ x. (inl refl, v, s)))
  | inr d ↦ rw d (inr (inl refl), v, s)
])

Ensures-known :
    {A : Type 0} (P : A → Type 0) (m : Exec A) → Ensures P m → Ensures (λ a. P a × (m ≡ ok a)) m
Ensures-known P (ok a) h = (h, refl)
Ensures-known P (halt aborts) h = tt
Ensures-known P (halt faults) h = h
Ensures-known P (halt spins) h = h

-- A call of rtsp_parser_input on a parser between two inputs, where the message that is read is not
-- chunked: the call ends and makes no access outside the buffer or the array of headers. Where no
-- assertion fails, the result is 0, 1 or -1 and the parser is valid and of the mode that it had.
pub rtsp_parser_input-Finished :
    (env : Env) (p : Parser) (bytes : List ℕ)
    → IsReady p
    → ((q : Parser) (r : ℤ × Parser)
        → rtsp_rawdata env p bytes ≡ ok (pos 0, q)
        → read_head env (pos 0, q) ≡ ok r
        → is_transfer_encoding_chunked r.1 ≡ false)
    → Ensures (Finished p.server_mode) (rtsp_parser_input env p bytes)
unfolding rtsp_parser_input
rtsp_parser_input-Finished env p bytes v plain =
    Ensures-bind _ (Finished p.server_mode) (rtsp_rawdata env p bytes) _
      (Ensures-known _ (rtsp_rawdata env p bytes) (rtsp_rawdata-Appended env p bytes v)) after_data
  where
    after_head :
        (q : Parser)
        → rtsp_rawdata env p bytes ≡ ok (pos 0, q)
        → (b : ℤ × Parser) → Parsed p.server_mode b × (read_head env (pos 0, q) ≡ ok b)
        → Ensures (Finished p.server_mode) (
            assert (is_neg b.0 || eq_int b.0 (pos 0)) >>= λ _.
            (body_part b >>= λ c. finish_input (length bytes) c))
    after_head q e b (h, k) = Ensures-assert (Finished p.server_mode) _ _ (λ x.
        Ensures-bind (Parsed p.server_mode) (Finished p.server_mode) (body_part b) _
          (body_part-Parsed p.server_mode b.0 b.1 (plain q b e k) h)
          (finish_input-Finished p.server_mode (length bytes)))

    after_data :
        (r : ℤ × Parser)
        → (((r.0 ≡ pos 0) × Appended p bytes r.1) ⊎ (((r.0 ≡ e2big) ⊎ (r.0 ≡ enomem)) × (r.1 ≡ p)))
          × (rtsp_rawdata env p bytes ≡ ok r)
        → Ensures (Finished p.server_mode) (
            if not (eq_int r.0 (pos 0))
            then (assert (is_neg r.0) >>= λ _. ok (r.0, length bytes, r.1))
            else (read_head env r >>= λ b. assert (is_neg b.0 || eq_int b.0 (pos 0)) >>= λ _.
                (body_part b >>= λ c. finish_input (length bytes) c)))
    after_data (k, q) ((inl (z, a)), e) = rw z (
        Ensures-bind _ (Finished p.server_mode) (read_head env (pos 0, q)) _
          (Ensures-known (Parsed p.server_mode) (read_head env (pos 0, q))
            (read_head-Parsed env p q bytes v (rw z at e)))
          (after_head q (rw z at e)))
    after_data (k, q) ((inr ((inl z), s)), e) = rw z tt
    after_data (k, q) ((inr ((inr z), s)), e) = rw z tt
