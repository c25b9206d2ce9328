-- ===== src/Rtsp/Fields/Kept.antt =====
-- src/common/rtsp-parser.c: the bytes behind the storing of a header, which ends its name and its value.
use box_rtsp.Prelude.{
  and_both, ℕ, ◌+◌, ◌≤◌, ◌<◌, ◌≡◌, refl, ◌∙◌, ◌⊎◌, inl, inr, Bool, true, false, List, [], ◌∷◌, ◌++◌,
  arith, ◌==◌, length, length-append, get_or, set, length-set,
}
use box_rtsp.Rtsp.Parser.{Header, is_blank}
use box_rtsp.Rtsp.Text.{string_at}
use box_rtsp.Rtsp.Headers.{is_token_byte}
use box_rtsp.Rtsp.Safe.Bounds.{get_or-set_self}
use box_rtsp.Rtsp.Bytes.{HasAt, HasAt-append, HasAt-moved, get_or-set_ne}
use box_rtsp.Rtsp.Fields.Grammar.{Written, IsWritten, all_token, is_value_byte, is_value, line}
use box_rtsp.Rtsp.Fields.Stores.{no_nul, token_solid, string_at-HasAt, ended}
use box_rtsp.Rtsp.Fields.Line.{value_at, found, length-line, Parts}

-- The header `k` holds the name and the value of `w`, each as a string.
pub record Holds (raw : List ℕ) (k : Header) (w : Written) : Type 0 where
  pub name : HasAt raw k.name.pos (w.name ++ 0 ∷ [])
  pub name_len : k.name.len ≡ length w.name
  pub value : HasAt raw k.value.pos (w.value ++ 0 ∷ [])
  pub value_len : k.value.len ≡ length w.value

module _ (raw : List ℕ) (w : Written) (o : ℕ) (at : Parts raw w o)
    (fits : o + length (line w) ≤ length raw) where
  abbrev name_end : ℕ
  name_end = o + length w.name

  abbrev value_end : ℕ
  value_end = value_at w o + length w.value

  pub length-ended : length (ended raw (found w o)) ≡ length raw
  length-ended = length-set (set raw name_end 0) value_end 0 ∙ length-set raw name_end 0

  ended_same :
      (j : ℕ)
      → (j < name_end) ⊎ (name_end < j)
      → (j < value_end) ⊎ (value_end < j)
      → get_or (ended raw (found w o)) j 0 ≡ get_or raw j 0
  ended_same j a b =
      get_or-set_ne (set raw name_end 0) value_end j 0 (swapped b)
      ∙ get_or-set_ne raw name_end j 0 (swapped a)
    where
      swapped : {a b : ℕ} → (a < b) ⊎ (b < a) → (b < a) ⊎ (a < b)
      swapped (inl x) = inr x
      swapped (inr x) = inl x

  pub ended_before : (j : ℕ) → j < o → get_or (ended raw (found w o)) j 0 ≡ get_or raw j 0
  ended_before j h = ended_same j (inl (omega arith)) (inl (omega arith))

  pub ended-HasAt_behind :
      (cs : List ℕ)
      → o + length (line w) + length cs ≤ length raw
      → HasAt raw (o + length (line w)) cs
      → HasAt (ended raw (found w o)) (o + length (line w)) cs
  ended-HasAt_behind cs n h =
      HasAt-moved raw (ended raw (found w o)) (o + length (line w)) (o + length (line w)) cs
        (omega (arith, length-ended, n))
        (λ j m.
          ended_same (o + length (line w) + j) (inr (omega (arith, length-line w)))
            (inr (omega (arith, length-line w))))
        h

  name_nul : get_or (ended raw (found w o)) name_end 0 ≡ 0
  name_nul =
      get_or-set_ne (set raw name_end 0) value_end name_end 0 (inr (omega arith))
      ∙ get_or-set_self raw name_end 0 (omega (arith, length-line w))

  value_nul : get_or (ended raw (found w o)) value_end 0 ≡ 0
  value_nul =
      get_or-set_self (set raw name_end 0) value_end 0
        (omega (arith, length-line w, length-set raw name_end 0))

  pub ended-Holds : Holds (ended raw (found w o)) (found w o) w
  ended-Holds =
      let new = ended raw (found w o) in
      let v = value_at w o in
      record {
        name =
            HasAt-append new o w.name (0 ∷ [])
              (HasAt-moved raw new o o w.name (omega (arith, length-ended, length-line w))
                (λ j m. ended_same (o + j) (inl (omega arith)) (inl (omega arith))) at.name)
              (omega (arith, length-ended, length-line w), name_nul, tt);
        name_len = refl;
        value =
            HasAt-append new v w.value (0 ∷ [])
              (HasAt-moved raw new v v w.value (omega (arith, length-ended, length-line w))
                (λ j m. ended_same (v + j) (inr (omega arith)) (inl (omega arith))) at.value)
              (omega (arith, length-ended, length-line w), value_nul, tt);
        value_len = refl;
      }

  -- The strings stay where later writes leave the bytes of the line.
  pub Holds-kept :
      (new : List ℕ)
      → length new ≡ length raw
      → ((j : ℕ) → j < o + length (line w) → get_or new j 0 ≡ get_or (ended raw (found w o)) j 0)
      → Holds new (found w o) w
  Holds-kept new l same =
      let old = ended raw (found w o) in
      let h = ended-Holds in
      let v = value_at w o in
      let a : length (w.name ++ 0 ∷ []) ≡ length w.name + 1 = length-append w.name (0 ∷ []) in
      let b : length (w.value ++ 0 ∷ []) ≡ length w.value + 1 = length-append w.value (0 ∷ []) in
      record {
        name =
            HasAt-moved old new o o (w.name ++ 0 ∷ []) (omega (arith, l, a, length-line w))
              (λ j m. same (o + j) (omega (arith, a, length-line w))) h.name;
        name_len = refl;
        value =
            HasAt-moved old new v v (w.value ++ 0 ∷ []) (omega (arith, l, b, length-line w))
              (λ j m. same (v + j) (omega (arith, b, length-line w))) h.value;
        value_len = refl;
      }

token-no_nul : (cs : List ℕ) → all_token cs ≡ true → no_nul cs ≡ true
token-no_nul [] h = refl
token-no_nul (c ∷ cs) h =
    let (a, b) = and_both (is_token_byte c) (all_token cs) h in
    rw (token_solid c a, token-no_nul cs b) refl

pub value-no_nul : (b : Bool) (cs : List ℕ) → is_value b cs ≡ true → no_nul cs ≡ true
value-no_nul b [] h = refl
value-no_nul b (c ∷ cs) h =
    let (s, t) = and_both (is_value_byte c) (is_value (is_blank c) cs) h in
    let e : (c == 0) ≡ false = ground arith in rw (e, value-no_nul (is_blank c) cs t) refl

-- What a getter reads of the header.
pub Holds-strings :
    (raw : List ℕ) (k : Header) (w : Written)
    → IsWritten w
    → Holds raw k w
    → (string_at raw k.name.pos ≡ w.name) × (string_at raw k.value.pos ≡ w.value)
Holds-strings raw k w g h = (
  string_at-HasAt raw k.name.pos w.name (token-no_nul w.name g.token) h.name,
  string_at-HasAt raw k.value.pos w.value (value-no_nul false w.value g.text) h.value,
)
