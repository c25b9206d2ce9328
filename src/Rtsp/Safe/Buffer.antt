-- ===== src/Rtsp/Safe/Buffer.antt =====
-- src/common/rtsp-parser.c: what rtsp_rawdata keeps, and when it ends the process.
use mathlib.Core.List.{append_assoc}
use box_rtsp.Prelude.{
  ℕ, suc, ◌+◌, ◌-◌, ◌*◌, ◌≤◌, ◌<◌, ◌≡◌, refl, ap, ◌∙◌, ◌⊎◌, inl, inr, false, List, [], ◌∷◌, ◌++◌,
  arith, ltb, Bool-cases, length, length-append, length-take, length-drop, get_or, take, drop, pos,
}
use box_rtsp.Rtsp.Parser.{Parser, Env, size_mod, sub_size}
use box_rtsp.Rtsp.Buffer.{mb, e2big, enomem, growth, append_data, copy_data, rtsp_rawdata}
use box_rtsp.Rtsp.Safe.Rules.{Ensures, Ensures-map, Ensures-assert}
use box_rtsp.Rtsp.Safe.Bounds.{IsBuffer, AllEndBy, sub_size_lem}
use box_rtsp.Rtsp.Safe.Place.{Place, Place-buffer, IsValid}

-- The allocated buffer holds what was written, and has a size that the code allows.
pub record IsSized (p : Parser) : Type 0 where
  pub holds : length p.raw ≤ p.raw_capacity
  pub fits : p.raw_size ≤ p.raw_capacity
  pub small : p.raw_capacity ≤ 128 * mb

-- A parser that may be given bytes: a new one, a cleared one, or one between two inputs.
pub record IsReady (p : Parser) : Type 0 where
  pub sized : IsSized p
  pub inside : p.raw_size ≤ length p.raw
  pub reached : p.offset ≤ p.raw_size
  pub held : length p.headers ≤ p.header_capacity
  pub stored : AllEndBy p.offset p.headers
  pub place : Place p.server_mode p.state_m p

get_or-append : (xs ys : List ℕ) (i : ℕ) → get_or (xs ++ ys) (length xs + i) 0 ≡ get_or ys i 0
get_or-append [] ys i = ap (λ k. get_or ys k 0) (let e : 0 + i ≡ i = omega arith in e)
get_or-append (x ∷ xs) ys i =
    ap (λ k. get_or (x ∷ (xs ++ ys)) k 0)
      (let e : suc (length xs) + i ≡ suc (length xs + i) = omega arith in e)
    ∙ get_or-append xs ys i

take-append : (xs ys : List ℕ) → take (length xs) (xs ++ ys) ≡ xs
take-append [] ys = refl
take-append (x ∷ xs) ys = ap (◌∷◌ x) (take-append xs ys)

take_appended :
    (xs ys zs : List ℕ) (n : ℕ) → n ≡ length xs + length ys → take n (xs ++ (ys ++ zs)) ≡ xs ++ ys
take_appended xs ys zs n e =
    rw (← append_assoc xs ys zs, e, ← length-append xs ys) (take-append (xs ++ ys) zs)

nul_behind :
    (xs ys zs : List ℕ) (n : ℕ)
    → n ≡ length xs + length ys
    → get_or (xs ++ (ys ++ (0 ∷ zs))) n 0 ≡ 0
nul_behind xs ys zs n e =
    let k : length xs + (length ys + 0) ≡ length xs + length ys = omega arith in
    rw (e, ← k) (get_or-append xs (ys ++ (0 ∷ zs)) (length ys + 0) ∙ get_or-append ys (0 ∷ zs) 0)

length_data :
    (p : Parser) (bytes : List ℕ)
    → p.raw_size ≤ length p.raw
    → length (append_data p bytes).raw
      ≡ p.raw_size + length bytes + 1 + (length p.raw - (p.raw_size + length bytes + 1))
unfolding append_data
length_data p bytes h =
    let rest = drop (p.raw_size + length bytes + 1) p.raw in
    omega (
      arith,
      length-append (take p.raw_size p.raw) (bytes ++ (0 ∷ rest)),
      length-append bytes (0 ∷ rest),
      length-take p.raw_size p.raw h,
      length-drop (p.raw_size + length bytes + 1) p.raw,
    )

append_data-IsBuffer :
    (p : Parser) (bytes : List ℕ)
    → p.raw_size ≤ length p.raw
    → p.raw_size + length bytes < size_mod
    → IsBuffer (append_data p bytes).raw (append_data p bytes).raw_size
unfolding append_data
append_data-IsBuffer p bytes inside h = record {
  room = omega (arith, length_data p bytes inside);
  nul =
      nul_behind (take p.raw_size p.raw) bytes (drop (p.raw_size + length bytes + 1) p.raw)
        (p.raw_size + length bytes) (omega (arith, length-take p.raw_size p.raw inside));
  small = h;
}

-- The received bytes: those in front of `raw_size`.
abbrev pub received : Parser → List ℕ
received p = take p.raw_size p.raw

-- The bytes are behind those of before, and the parser is where it was.
pub record Appended (p : Parser) (bytes : List ℕ) (q : Parser) : Type 0 where
  pub valid : IsValid q
  pub sized : IsSized q
  pub all_there : received q ≡ received p ++ bytes
  pub mode_same : q.server_mode ≡ p.server_mode
  pub state_same : q.state_m ≡ p.state_m
  pub offset_same : q.offset ≡ p.offset

append_data-Appended :
    (p : Parser) (bytes : List ℕ)
    → IsReady p
    → p.raw_size + length bytes + 1 < p.raw_capacity
    → Appended p bytes (append_data p bytes)
unfolding append_data
append_data-Appended p bytes v h =
    let cap = v.sized.small in
    record {
      valid = record {
        buffer = unfold append_data in append_data-IsBuffer p bytes v.inside (omega arith);
        reached = omega (arith, v.reached);
        held = v.held;
        stored = v.stored;
        place =
            Place-buffer p.server_mode p.state_m p (append_data p bytes).raw
              (p.raw_size + length bytes) p.raw_capacity v.place;
      };
      sized = record {
        holds = omega (arith, length_data p bytes v.inside, v.sized.holds);
        fits = omega arith;
        small = cap;
      };
      all_there =
          take_appended (take p.raw_size p.raw) bytes
            (0 ∷ drop (p.raw_size + length bytes + 1) p.raw) (p.raw_size + length bytes)
            (omega (arith, length-take p.raw_size p.raw v.inside));
      mode_same = refl;
      state_same = refl;
      offset_same = refl;
    }

copy_data-Appended :
    (p : Parser) (bytes : List ℕ)
    → IsReady p
    → Ensures (λ r. (r.0 ≡ pos 0) × Appended p bytes r.1) (copy_data p bytes)
unfolding copy_data
copy_data-Appended p bytes v =
    Ensures-assert _ (ltb (length bytes + 1) (sub_size p.raw_capacity p.raw_size)) _ λ h. (
      refl,
      append_data-Appended p bytes v
          (ground (arith, sub_size_lem p.raw_capacity p.raw_size, v.sized.fits, v.sized.small)),
    )

grown :
    (p : Parser) (bytes : List ℕ)
    → IsReady p
    → ltb (64 * mb) (p.raw_capacity + length bytes) ≡ false
    → IsReady (record p { raw_capacity = p.raw_capacity + growth p.raw_capacity (length bytes) })
unfolding growth
grown p bytes v h = record {
  sized = ground (arith, v.sized.holds, v.sized.fits);
  inside = v.inside;
  reached = v.reached;
  held = v.held;
  stored = v.stored;
  place =
      Place-buffer p.server_mode p.state_m p p.raw p.raw_size
        (p.raw_capacity + growth p.raw_capacity (length bytes)) v.place;
}

regrown :
    (p : Parser) (bytes : List ℕ) (q : Parser) (capacity : ℕ)
    → Appended (record p { raw_capacity = capacity }) bytes q
    → Appended p bytes q
regrown p bytes q capacity a = record {
  valid = a.valid;
  sized = a.sized;
  all_there = a.all_there;
  mode_same = a.mode_same;
  state_same = a.state_same;
  offset_same = a.offset_same;
}

-- Where the call returns, it either has appended all bytes, with result 0 and a valid parser whose
-- machine is where it was, or it answers E2BIG or ENOMEM and has changed nothing.
pub rtsp_rawdata-Appended :
    (env : Env) (p : Parser) (bytes : List ℕ)
    → IsReady p
    → Ensures
        (λ r.
          ((r.0 ≡ pos 0) × Appended p bytes r.1) ⊎ (((r.0 ≡ e2big) ⊎ (r.0 ≡ enomem)) × (r.1 ≡ p)))
        (rtsp_rawdata env p bytes)
unfolding rtsp_rawdata
rtsp_rawdata-Appended env p bytes v =
    let capacity = p.raw_capacity + growth p.raw_capacity (length bytes) in
    elim (Bool-cases (ltb (sub_size p.raw_capacity p.raw_size) (length bytes + 1))) [
      | inr room ↦
          rw (room, rtsp_rawdata)
            (Ensures-map _ _ (copy_data p bytes) (λ r x. inl x) (copy_data-Appended p bytes v))
      | inl full ↦ elim (Bool-cases (ltb (64 * mb) (p.raw_capacity + length bytes))) [
        | inl big ↦ rw (full, big, rtsp_rawdata) (inr (inl refl, refl))
        | inr fits ↦ elim (Bool-cases (env.grants capacity)) [
          | inr none_left ↦ rw (full, fits, none_left, rtsp_rawdata) (inr (inr refl, refl))
          | inl granted ↦
              let q = record p { raw_capacity = capacity } in
              rw (full, fits, granted, rtsp_rawdata)
                (Ensures-map _ _ (copy_data q bytes)
                  (λ r x. inl (x.0, regrown p bytes r.1 capacity x.1))
                  (copy_data-Appended q bytes (grown p bytes v fits)))
        ]
      ]
    ]
