-- ===== src/Rtsp/Answer/Read.antt =====
-- src/common/rtsp-parser.c, rtsp_parse_status_line: what is read of the line.
use box_rtsp.Prelude.{
  ℕ, suc, ◌+◌, ◌*◌, ◌/◌, ◌%◌, ◌≤◌, ◌<◌, ◌≡◌, refl, ap, ◌∙◌, ◌⊎◌, inl, inr, true, List, [], ◌∷◌,
  ◌++◌, some, arith, leb, length, length-set, get_or, set, pos,
}
use box_rtsp.Rtsp.Parser.{Line, Field, StateM, Slice, Header, Parser}
use box_rtsp.Rtsp.Exec.{ok, leave}
use box_rtsp.Rtsp.Text.{string_at, atoi, scan_digits, scan_version}
use box_rtsp.Rtsp.Numbers.{scan_digits-digit, atoi-digit}
use box_rtsp.Rtsp.RequestLine.{read_version, known_version}
use box_rtsp.Rtsp.StatusLine.{status_lf, status_in}
use box_rtsp.Rtsp.Safe.Rules.{poke_lem}
use box_rtsp.Rtsp.Safe.Bounds.{get_or-set_self}
use box_rtsp.Rtsp.Bytes.{HasAt, HasAt-append, HasAt-moved, get_or-set_ne}
use box_rtsp.Rtsp.Fields.Stores.{no_nul, string_at-front, string_at-HasAt}
use box_rtsp.Rtsp.Answer.Grammar.{Answer, IsAnswer, version, code_text}
use box_rtsp.Rtsp.Answer.Turns.{place}

-- Where the words of a line that stands at `o` are.
abbrev pub code_at : ℕ → ℕ
code_at o = suc (o + 8)

abbrev pub reason_at : ℕ → ℕ
reason_at o = suc (code_at o + 3)

abbrev pub words : ℕ → Header
words o = record { name = record { pos = o; len = 8 }; value = record { pos = code_at o; len = 3 } }

abbrev pub reason_slice : Answer → ℕ → Slice
reason_slice a o = record { pos = reason_at o; len = length a.reason }

-- The buffer with a NUL behind the reason and the code.
abbrev pub cut : List ℕ → Answer → ℕ → List ℕ
cut raw a o = set (set raw (reason_at o + length a.reason) 0) (code_at o + 3) 0

scan_digits-code_text :
    (n : ℕ) → n < 1000 → scan_digits (n / 100) ((48 + n / 10 % 10) ∷ ((48 + n % 10) ∷ [])) ≡ (n, [])
unfolding scan_digits
scan_digits-code_text n h =
    let e : (n / 100 * 10 + n / 10 % 10) * 10 + n % 10 ≡ n = omega arith in
    scan_digits-digit (n / 100) (n / 10 % 10) ((48 + n % 10) ∷ []) (omega arith)
    ∙ scan_digits-digit (n / 100 * 10 + n / 10 % 10) (n % 10) [] (omega arith)
    ∙ ap (λ m. (m, [])) e

atoi-code_text : (n : ℕ) → n < 1000 → atoi (code_text n) ≡ pos n
atoi-code_text n h =
    atoi-digit (n / 100) n ((48 + n / 10 % 10) ∷ ((48 + n % 10) ∷ [])) [] (omega arith)
      (scan_digits-code_text n h) (omega arith)

code_text-no_nul : (n : ℕ) → no_nul (code_text n) ≡ true
code_text-no_nul n = ground arith

scan_version-version :
    (rest : List ℕ) → scan_version (version ++ (b' ' ∷ rest)) ≡ some (pos 1, pos 0)
unfolding scan_version
scan_version-version rest = refl

-- The parser behind the line.
abbrev pub answered : Parser → Answer → ℕ → Parser
answered p a o = record p {
  raw = cut p.raw a o;
  offset = suc (reason_at o + length a.reason) + 1;
  state_m = StateM.header Field.start;
  header = words o;
  vermajor = pos 1;
  verminor = pos 0;
  reply = record { code = pos a.code; reason = reason_slice a o };
}

-- What stands where in a line.
pub record Parts (raw : List ℕ) (a : Answer) (o : ℕ) : Type 0 where
  pub version_in : HasAt raw o version
  pub first_gap : get_or raw (o + 8) 0 ≡ b' '
  pub code_in : HasAt raw (code_at o) (code_text a.code)
  pub second_gap : get_or raw (code_at o + 3) 0 ≡ b' '
  pub reason_in : HasAt raw (reason_at o) a.reason
  pub end : HasAt raw (reason_at o + length a.reason) (b'\r' ∷ b'\n' ∷ [])

module _ (p : Parser) (a : Answer) (good : IsAnswer a) (o : ℕ) (at : Parts p.raw a o)
    (fits : reason_at o + length a.reason + 2 ≤ length p.raw) where
  version_lem : scan_version (string_at p.raw o) ≡ some (pos 1, pos 0)
  version_lem =
      ap scan_version (
        string_at-front p.raw o (version ++ (b' ' ∷ [])) refl
          (HasAt-append p.raw o version (b' ' ∷ []) at.version_in (omega arith, at.first_gap, tt)))
      ∙ scan_version-version (string_at p.raw (o + 9))

  pub cut_same :
      (j : ℕ)
      → (code_at o + 3 < j) ⊎ (j < code_at o + 3)
      → (reason_at o + length a.reason < j) ⊎ (j < reason_at o + length a.reason)
      → get_or (cut p.raw a o) j 0 ≡ get_or p.raw j 0
  cut_same j u v =
      get_or-set_ne (set p.raw (reason_at o + length a.reason) 0) (code_at o + 3) j 0 u
      ∙ get_or-set_ne p.raw (reason_at o + length a.reason) j 0 v

  pub length-cut : length (cut p.raw a o) ≡ length p.raw
  length-cut =
      length-set (set p.raw (reason_at o + length a.reason) 0) (code_at o + 3) 0
      ∙ length-set p.raw (reason_at o + length a.reason) 0

  code_lem : atoi (string_at (cut p.raw a o) (code_at o)) ≡ pos a.code
  code_lem =
      let new = cut p.raw a o in
      let nul : get_or new (code_at o + 3) 0 ≡ 0 =
        get_or-set_self (set p.raw (reason_at o + length a.reason) 0) (code_at o + 3) 0
          (omega (arith, fits, length-set p.raw (reason_at o + length a.reason) 0)) in
      ap atoi (
        string_at-HasAt new (code_at o) (code_text a.code) (code_text-no_nul a.code) (
          HasAt-append new (code_at o) (code_text a.code) (0 ∷ [])
            (HasAt-moved p.raw new (code_at o) (code_at o) (code_text a.code)
              (omega (arith, length-cut, fits))
              (λ j m. cut_same (code_at o + j) (inr (omega arith)) (inr (omega arith))) at.code_in)
            (omega (arith, length-cut, fits), nul, tt)))
      ∙ atoi-code_text a.code good.small

  pub cut-HasAt_reason : HasAt (cut p.raw a o) (reason_at o) (a.reason ++ 0 ∷ [])
  cut-HasAt_reason =
      let new = cut p.raw a o in
      let r = reason_at o in
      let nul : get_or new (r + length a.reason) 0 ≡ 0 =
        get_or-set_ne (set p.raw (r + length a.reason) 0) (code_at o + 3) (r + length a.reason) 0
          (inl (omega arith))
        ∙ get_or-set_self p.raw (r + length a.reason) 0 (omega (arith, fits)) in
      HasAt-append new r a.reason (0 ∷ [])
        (HasAt-moved p.raw new r r a.reason (omega (arith, length-cut, fits))
          (λ j m. cut_same (r + j) (inl (omega arith)) (inr (omega arith))) at.reason_in)
        (omega (arith, length-cut, fits), nul, tt)

  pub status_lf_lem :
      status_in Line.lf
        (place p p.raw (suc (reason_at o + length a.reason)) Line.lf (words o) (reason_slice a o))
        b'\n'
      ≡ ok (leave (pos 0) (answered p a o))
  unfolding status_in status_lf read_version known_version scan_version
  status_lf_lem =
      let P =
        place p p.raw (suc (reason_at o + length a.reason)) Line.lf (words o) (reason_slice a o) in
      let Q = record P { vermajor = pos 1; verminor = pos 0 } in
      let R = record Q { raw = set p.raw (reason_at o + length a.reason) 0 } in
      let given : leb 1 (length a.reason) ≡ true = ground (arith, good.given) in
      rw
        (
          version_lem,
          given,
          poke_lem Q (reason_at o + length a.reason) 0 (omega (arith, fits)),
          poke_lem R (code_at o + 3) 0
              (omega (arith, fits, length-set p.raw (reason_at o + length a.reason) 0)),
          code_lem,
        )
        refl
