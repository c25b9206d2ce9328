-- ===== src/Rtsp/Fields/Line.antt =====
-- src/common/rtsp-parser.c, rtsp_parse_header_line: the line of one header.
use box_rtsp.Prelude.{
  and_both, ℕ, suc, ◌+◌, ◌^◌, ◌≤◌, ◌<◌, ◌≡◌, refl, ◌∙◌, true, false, List, [], ◌∷◌, ◌++◌, arith,
  ◌==◌, leb, length, length-append, get_or, ℤ, pos,
}
use box_rtsp.Rtsp.Parser.{Field, Header, Parser, Env, sub_size, is_blank, set_len, set_pos}
use box_rtsp.Rtsp.Exec.{ok, next}
use box_rtsp.Rtsp.Text.{string_at}
use box_rtsp.Rtsp.Headers.{is_token_byte, header_growth}
use box_rtsp.Rtsp.HeaderLine.{name_line, header_lf, header_in}
use box_rtsp.Rtsp.Safe.Bounds.{sub_size_lem}
use box_rtsp.Rtsp.Bytes.{HasAt, HasAt-left, HasAt-right}
use box_rtsp.Rtsp.Fields.Grammar.{Written, IsWritten, all_token, is_known, starts_solid, line}
use box_rtsp.Rtsp.Fields.Turns.{
  place, Ends, Ends-name_start, Ends-name, Ends-colon, Ends-gap, Ends-value_start,
}
use box_rtsp.Rtsp.Fields.Value.{Ends-value}
use box_rtsp.Rtsp.Fields.Stores.{handler_plain, IsReady, ended, kept, rtsp_header_add_lem}

module _ (env : Env) (p : Parser) (k : Header) (name : List ℕ) (h : IsReady p k name)
    (grants : (n : ℕ) → env.grants n ≡ true)
    (plain : is_known (string_at (ended p.raw k) k.name.pos) ≡ false) where
  name_line_lem :
      (o : ℕ)
      → name_line env (place p p.raw o Field.lf k)
        ≡ ok (pos 0, place (kept p k) (ended p.raw k) o Field.lf k)
  unfolding name_line header_growth
  name_line_lem o =
      let P = place p p.raw o Field.lf k in
      let ready : IsReady P k name = record {
        name_there = h.name_there;
        value_there = h.value_there;
        named = h.named;
        measured = h.measured;
        token = h.token;
        text = h.text;
        name_ends = h.name_ends;
        value_ends = h.value_ends;
        held = h.held;
      } in
      let named : leb 1 k.name.len ≡ true = ground (arith, h.named, h.measured) in
      rw
        (
          named,
          rtsp_header_add_lem env P k name ready grants,
          handler_plain env (kept P k) k.name.pos k.value.pos plain,
        )
        refl

  pub header_lf_lem :
      (o : ℕ)
      → header_in env Field.lf (place p p.raw o Field.lf k) b'\n'
        ≡ ok (next (place (kept p k) (ended p.raw k) (o + 1) Field.start k))
  unfolding header_in header_lf
  header_lf_lem o =
      let a : (k.name.pos == 0) ≡ false = ground (arith, h.name_there) in
      let b : (k.value.pos == 0) ≡ false = ground (arith, h.value_there) in
      rw (a, b, name_line_lem o) refl

-- The slices of a header that stands at `o`.
abbrev pub value_at : Written → ℕ → ℕ
value_at w o = suc (o + length w.name) + length w.gap

abbrev pub found : Written → ℕ → Header
found w o = record {
  name = record { pos = o; len = length w.name };
  value = record { pos = value_at w o; len = length w.value };
}

pub length-line :
    (w : Written) → length (line w) ≡ length w.name + length w.gap + length w.value + 3
length-line w = omega (
  arith,
  length-append w.name (b':' ∷ (w.gap ++ (w.value ++ (b'\r' ∷ b'\n' ∷ [])))),
  length-append w.gap (w.value ++ (b'\r' ∷ b'\n' ∷ [])),
  length-append w.value (b'\r' ∷ b'\n' ∷ []),
)

-- What stands where in a line.
pub record Parts (raw : List ℕ) (w : Written) (o : ℕ) : Type 0 where
  pub name : HasAt raw o w.name
  pub colon : get_or raw (o + length w.name) 0 ≡ b':'
  pub gap : HasAt raw (suc (o + length w.name)) w.gap
  pub value : HasAt raw (value_at w o) w.value
  pub end : HasAt raw (value_at w o + length w.value) (b'\r' ∷ b'\n' ∷ [])

pub line-Parts : (raw : List ℕ) (w : Written) (o : ℕ) → HasAt raw o (line w) → Parts raw w o
line-Parts raw w o h =
    let end : List ℕ = b'\r' ∷ b'\n' ∷ [] in
    let rest = HasAt-right raw o w.name (b':' ∷ (w.gap ++ (w.value ++ end))) h in
    let more = HasAt-right raw (suc (o + length w.name)) w.gap (w.value ++ end) rest.2 in
    record {
      name = HasAt-left raw o w.name (b':' ∷ (w.gap ++ (w.value ++ end))) h;
      colon = rest.1;
      gap = HasAt-left raw (suc (o + length w.name)) w.gap (w.value ++ end) rest.2;
      value = HasAt-left raw (value_at w o) w.value end more;
      end = HasAt-right raw (value_at w o) w.value end more;
    }

-- The line up to its last byte.
module _ (env : Env) (p : Parser) (r : ℤ × Parser) (raw : List ℕ) (room : p.raw_size ≤ length raw)
    (small : length raw < 2 ^ 31) (w : Written) (good : IsWritten w) (o : ℕ) (at : Parts raw w o)
    (fits : o + length (line w) ≤ p.raw_size) where
  abbrev named : Header → Header
  named h = record h { name = set_len (set_pos h.name o) (o + length w.name) }

  Ends-to_name :
      (cs : List ℕ) (h : Header)
      → all_token cs ≡ true
      → 0 < length cs
      → HasAt raw o cs
      → Ends env (place p raw o Field.name (record h { name = set_pos h.name o })) r
      → Ends env (place p raw o Field.start h) r
  Ends-to_name [] h t n a x = elim n [ ]
  Ends-to_name (c ∷ cs) h t n a x =
      Ends-name_start env p r raw room o c h (omega (arith, fits, length-line w)) a.1
        (and_both (is_token_byte c) (all_token cs) t).0 x

  Ends-to_gap :
      (h : Header)
      → Ends env (place p raw (suc (o + length w.name)) Field.sp2 (named h)) r
      → Ends env (place p raw o Field.start h) r
  Ends-to_gap h x =
      let k = record h { name = set_pos h.name o } in
      let n : o + length w.name < p.raw_size = omega (arith, fits, length-line w) in
      Ends-to_name w.name h good.token good.named at.name (
        Ends-name env p r raw room w.name o (o + length w.name) k good.token at.name refl n
          (Ends-colon env p r raw room (o + length w.name) k n at.colon x))

  -- The byte at which the value begins, or where it is empty the line ends.
  value_solid :
      (cs : List ℕ)
      → starts_solid cs ≡ true
      → HasAt raw (value_at w o) cs
      → HasAt raw (value_at w o + length cs) (b'\r' ∷ b'\n' ∷ [])
      → is_blank (get_or raw (value_at w o) 0) ≡ false
  value_solid [] s a e =
      let q : value_at w o + 0 ≡ value_at w o = omega arith in rw (rw q at e.1) refl
  value_solid (c ∷ cs) s a e = rw a.1 (ground arith)

  abbrev read : Header → Header
  read h =
      let k = named h in
      record k { value = set_len (set_pos k.value (value_at w o)) (value_at w o + length w.value) }

  read_lem : (h : Header) → read h ≡ found w o
  read_lem h =
      let a : sub_size (o + length w.name) o ≡ length w.name =
        sub_size_lem (o + length w.name) o (omega arith) (omega (arith, fits, length-line w))
        ∙ omega arith in
      let b : sub_size (value_at w o + length w.value) (value_at w o) ≡ length w.value =
        sub_size_lem (value_at w o + length w.value) (value_at w o) (omega arith)
          (omega (arith, fits, length-line w))
        ∙ omega arith in
      rw (a, b) refl

  pub Ends-text :
      (h : Header)
      → Ends env (place p raw (suc (value_at w o + length w.value)) Field.lf (found w o)) r
      → Ends env (place p raw o Field.start h) r
  Ends-text h x =
      let v = value_at w o in
      let n : suc (v + length w.value) < p.raw_size = omega (arith, fits, length-line w) in
      Ends-to_gap h (
        Ends-gap env p r raw room w.gap (suc (o + length w.name)) v (named h) good.blank at.gap refl
          (omega arith)
          (Ends-value_start env p r raw room v (get_or raw v 0) (named h) (omega arith) refl
            (value_solid w.value good.solid at.value at.end)
            (Ends-value env p r raw room w.value v (v + length w.value)
              (record (named h) { value = set_pos (named h).value v }) good.text at.value at.end
              refl n (rw (read_lem h) x))))
