-- ===== src/Rtsp/Fields/Stores.antt =====
-- src/common/rtsp-parser.c: rtsp_header_add and rtsp_header_handler on a header that was read.
use box_rtsp.Prelude.{
  and_both, ℕ, zero, suc, ◌+◌, ◌*◌, ◌≤◌, ◌<◌, ◌≡◌, refl, ap, inl, inr, Bool, true, false, not, ◌&&◌,
  List, [], ◌∷◌, ◌++◌, arith, ◌==◌, if◌then◌else◌, leb, lt→ltb, length, get_or, set, drop,
  length-set, pos, Bool-cases,
}
use box_rtsp.Rtsp.Parser.{Header, Parser, Env}
use box_rtsp.Rtsp.Exec.{ok}
use box_rtsp.Rtsp.Text.{c_string, string_at}
use box_rtsp.Rtsp.Headers.{
  is_token_byte, is_valid_token, rtsp_header_handler, header_bytes, header_growth, store_header,
  rtsp_header_add,
}
use box_rtsp.Rtsp.Safe.Rules.{poke_lem}
use box_rtsp.Rtsp.Safe.Stores.{growth_room}
use box_rtsp.Rtsp.Bytes.{HasAt}
use box_rtsp.Rtsp.Fields.Grammar.{all_token, is_known}

abbrev pub no_nul : List ℕ → Bool
no_nul [] = true
no_nul (c ∷ cs) = not (c == 0) && no_nul cs

drop_at : (raw : List ℕ) (i : ℕ) → i < length raw → drop i raw ≡ get_or raw i 0 ∷ drop (suc i) raw
drop_at [] i h = elim h [ ]
drop_at (x ∷ xs) zero h = refl
drop_at (x ∷ xs) (suc i) h = drop_at xs i (omega arith)

-- A string begins with the bytes that stand in front.
pub string_at-front :
    (raw : List ℕ) (i : ℕ) (cs : List ℕ)
    → no_nul cs ≡ true
    → HasAt raw i cs
    → string_at raw i ≡ cs ++ string_at raw (i + length cs)
unfolding string_at c_string
string_at-front raw i [] n h = rw (let e : i + 0 ≡ i = omega arith in e) refl
string_at-front raw i (c ∷ cs) n h =
    let (a, b) = and_both (not (c == 0)) (no_nul cs) n in
    let e : (c == 0) ≡ false = ground arith in
    let f : i + suc (length cs) ≡ suc i + length cs = omega arith in
    rw (drop_at raw i h.0, h.1, e, f) (ap (◌∷◌ c) (string_at-front raw (suc i) cs b h.2))

-- A text with a NUL behind it is the string that begins there.
pub string_at-HasAt :
    (raw : List ℕ) (i : ℕ) (cs : List ℕ)
    → no_nul cs ≡ true
    → HasAt raw i (cs ++ 0 ∷ [])
    → string_at raw i ≡ cs
unfolding string_at c_string
string_at-HasAt raw i [] n h = rw (drop_at raw i h.0, h.1) refl
string_at-HasAt raw i (c ∷ cs) n h =
    let (a, b) = and_both (not (c == 0)) (no_nul cs) n in
    let e : (c == 0) ≡ false = ground arith in
    rw (drop_at raw i h.0, h.1, e) (ap (◌∷◌ c) (string_at-HasAt raw (suc i) cs b h.2))

pub token_solid : (c : ℕ) → is_token_byte c ≡ true → (c == 0) ≡ false
unfolding is_token_byte
token_solid c h = ground arith

is_valid_token-HasAt :
    (raw : List ℕ) (i : ℕ) (cs : List ℕ)
    → all_token cs ≡ true
    → HasAt raw i cs
    → is_valid_token (string_at raw i) (length cs) ≡ true
unfolding is_valid_token string_at c_string
is_valid_token-HasAt raw i [] t h = refl
is_valid_token-HasAt raw i (c ∷ cs) t h =
    let (a, b) = and_both (is_token_byte c) (all_token cs) t in
    rw (drop_at raw i h.0, h.1, token_solid c a, a) (is_valid_token-HasAt raw (suc i) cs b h.2)

pub handler_plain :
    (env : Env) (q : Parser) (n v : ℕ)
    → is_known (string_at q.raw n) ≡ false
    → rtsp_header_handler env q n v ≡ ok q
unfolding rtsp_header_handler
handler_plain env q n v h = ground arith

-- The capacity of the array that has room for one more header.
abbrev pub room_for : Parser → ℕ
room_for p =
    if leb p.header_capacity (length p.headers + 1) then header_growth p else p.header_capacity

pub room_for_lem :
    (p : Parser) → length p.headers ≤ p.header_capacity → length p.headers < room_for p
unfolding header_growth
room_for_lem p h = ground arith

-- The buffer with a NUL behind the name and the value.
abbrev pub ended : List ℕ → Header → List ℕ
ended raw k = set (set raw (k.name.pos + k.name.len) 0) (k.value.pos + k.value.len) 0

abbrev pub kept : Parser → Header → Parser
kept p k = record p {
  raw = ended p.raw k;
  headers = p.headers ++ k ∷ [];
  header_capacity = room_for p;
}

-- A header in the buffer, with a token for a name.
pub record IsReady (p : Parser) (k : Header) (name : List ℕ) : Type 0 where
  pub name_there : 0 < k.name.pos
  pub value_there : 0 < k.value.pos
  pub named : 0 < length name
  pub measured : k.name.len ≡ length name
  pub token : all_token name ≡ true
  pub text : HasAt p.raw k.name.pos name
  pub name_ends : k.name.pos + k.name.len < length p.raw
  pub value_ends : k.value.pos + k.value.len < length p.raw
  pub held : length p.headers ≤ p.header_capacity

module _ (env : Env) (p : Parser) (k : Header) (name : List ℕ) (h : IsReady p k name) where
  store_header_lem :
      (n : ℕ)
      → length p.headers < n
      → store_header (record p { header_capacity = n }) k
        ≡ ok (pos 0, record (kept p k) { header_capacity = n })
  unfolding store_header
  store_header_lem n room =
      let valid : is_valid_token (string_at p.raw k.name.pos) k.name.len ≡ true =
        rw (h.measured) (is_valid_token-HasAt p.raw k.name.pos name h.token h.text) in
      let one = record p { header_capacity = n } in
      let two = record one { raw = set p.raw (k.name.pos + k.name.len) 0 } in
      rw
        (
          lt→ltb 0 k.name.pos h.name_there,
          lt→ltb 0 k.name.len (omega (arith, h.named, h.measured)),
          lt→ltb 0 k.value.pos h.value_there,
          valid,
          poke_lem one (k.name.pos + k.name.len) 0 h.name_ends,
          poke_lem two (k.value.pos + k.value.len) 0
              (omega (arith, h.value_ends, length-set p.raw (k.name.pos + k.name.len) 0)),
          lt→ltb (length p.headers) n room,
        )
        refl

  pub rtsp_header_add_lem :
      ((n : ℕ) → env.grants n ≡ true) → rtsp_header_add env p k ≡ ok (pos 0, kept p k)
  unfolding rtsp_header_add
  rtsp_header_add_lem g = elim (Bool-cases (leb p.header_capacity (length p.headers + 1))) [
    | inr free ↦
        rw (free, rtsp_header_add) (store_header_lem p.header_capacity (ground (arith, h.held)))
    | inl full ↦
        rw (full, g (header_bytes * header_growth p), rtsp_header_add)
          (store_header_lem (header_growth p) (growth_room p h.held full))
  ]
