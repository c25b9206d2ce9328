-- ===== src/Rtsp/Safe/Stores.antt =====
-- src/common/rtsp-parser.c: rtsp_header_add and the continuation of a header stay in the buffer and
-- in the array of headers.
use box_rtsp.Prelude.{
  ℕ, zero, suc, ◌+◌, ◌-◌, ◌*◌, ◌≤◌, ◌<◌, ◌≡◌, refl, ap, ◌∙◌, ◌⊎◌, inl, inr, true, List, [], ◌∷◌,
  ◌++◌, some, arith, leb, ltb, Bool-cases, length, length-append, set, pos,
}
use box_rtsp.Rtsp.Text.{string_at}
use box_rtsp.Rtsp.Parser.{Slice, Header, Parser, Env, size_mod, sub_size, add_size}
use box_rtsp.Rtsp.Exec.{◌>>=◌, poke}
use box_rtsp.Rtsp.Buffer.{enomem}
use box_rtsp.Rtsp.Headers.{
  header_bytes, header_growth, is_valid_token, store_header, rtsp_header_add, rtsp_header_handler,
}
use box_rtsp.Rtsp.HeaderLine.{fill_blanks, last_header, set_last, fold_line}
use box_rtsp.Rtsp.Safe.Rules.{Ensures, Ensures-map, Ensures-bind, Ensures-assert, Ensures-poke}
use box_rtsp.Rtsp.Safe.Bounds.{
  IsBuffer, EndsBy, AllEndBy, AllEndBy-mono, sub_size_lem, set-IsBuffer, set_nul-IsBuffer,
}
use box_rtsp.Rtsp.Safe.StartLine.{two_nuls}
use box_rtsp.Rtsp.Safe.Handler.{Kept, rtsp_header_handler-Kept}

pub AllEndBy-concat :
    (b : ℕ) (hs : List Header) (h : Header)
    → AllEndBy b hs
    → EndsBy b h.name
    → EndsBy b h.value
    → AllEndBy b (hs ++ h ∷ [])
AllEndBy-concat b [] h s n v = (n, v, tt)
AllEndBy-concat b (x ∷ hs) h s n v = (s.0, s.1, AllEndBy-concat b hs h s.2 n v)

-- What storing a header changes: the array and its capacity, and two bytes of the buffer.
pub record Added (p : Parser) (h : Header) (q : Parser) : Type 0 where
  pub buffer : IsBuffer q.raw q.raw_size
  pub raw_size_same : q.raw_size ≡ p.raw_size
  pub offset_same : q.offset ≡ p.offset
  pub state_same : q.state_m ≡ p.state_m
  pub mode_same : q.server_mode ≡ p.server_mode
  pub header_same : q.header ≡ p.header
  pub appended : q.headers ≡ p.headers ++ h ∷ []
  pub fits : length q.headers ≤ q.header_capacity

store_header-Added :
    (p : Parser) (h : Header)
    → IsBuffer p.raw p.raw_size
    → EndsBy p.raw_size h.name
    → EndsBy p.raw_size h.value
    → length p.headers < p.header_capacity
    → Ensures (λ r. (r.0 ≡ pos 0) × Added p h r.1) (store_header p h)
unfolding store_header
store_header-Added p h b n v room = Ensures-assert _ (ltb 0 h.name.pos) _ λ _.
    Ensures-assert _ (ltb 0 h.name.len) _ λ _. Ensures-assert _ (ltb 0 h.value.pos) _ λ _.
      Ensures-assert _ (is_valid_token (string_at p.raw h.name.pos) h.name.len) _ λ _.
        let i = h.name.pos + h.name.len in
        let j = h.value.pos + h.value.len in
        let w = two_nuls p.raw p.raw_size i j b n v in
        Ensures-poke _ p i 0 _ w.0 (
          Ensures-poke _ (record p { raw = set p.raw i 0 }) j 0 _ w.1
            (ground (arith, length-append p.headers (h ∷ []), w.2)))

regrown :
    (p : Parser) (h : Header) (q : Parser)
    → Added (record p { header_capacity = header_growth p }) h q
    → Added p h q
regrown p h q a = record {
  buffer = a.buffer;
  raw_size_same = a.raw_size_same;
  offset_same = a.offset_same;
  state_same = a.state_same;
  mode_same = a.mode_same;
  header_same = a.header_same;
  appended = a.appended;
  fits = a.fits;
}

-- The array grows enough for one more header.
pub growth_room :
    (p : Parser)
    → length p.headers ≤ p.header_capacity
    → leb p.header_capacity (length p.headers + 1) ≡ true
    → length p.headers < header_growth p
unfolding header_growth
growth_room p h full = ground arith

-- The parser as it was, without memory for the header; or the header is stored.
pub rtsp_header_add-Added :
    (env : Env) (p : Parser) (h : Header)
    → IsBuffer p.raw p.raw_size
    → EndsBy p.raw_size h.name
    → EndsBy p.raw_size h.value
    → length p.headers ≤ p.header_capacity
    → Ensures
        (λ r. ((r.0 ≡ pos 0) × Added p h r.1) ⊎ ((r.0 ≡ enomem) × (r.1 ≡ p)))
        (rtsp_header_add env p h)
unfolding rtsp_header_add
rtsp_header_add-Added env p h b n v room =
    elim (Bool-cases (leb p.header_capacity (length p.headers + 1))) [
      | inr free ↦
          rw (free, rtsp_header_add)
            (Ensures-map _ _ (store_header p h) (λ r x. inl x)
              (store_header-Added p h b n v (ground arith)))
      | inl full ↦ elim (Bool-cases (env.grants (header_bytes * header_growth p))) [
        | inr none_left ↦ rw (full, none_left, rtsp_header_add) (inr (refl, refl))
        | inl granted ↦
            let q = record p { header_capacity = header_growth p } in
            rw (full, granted, rtsp_header_add)
              (Ensures-map _ _ (store_header q h) (λ r x. inl (x.0, regrown p h r.1 x.1))
                (store_header-Added q h b n v (growth_room p room full)))
      ]
    ]

-- The blanks stand in front of `i + n`, and nothing else changes.
fill_blanks-Kept :
    (n i : ℕ) (p : Parser)
    → IsBuffer p.raw p.raw_size
    → i + n ≤ p.raw_size
    → Ensures (Kept p) (fill_blanks n i p)
unfolding fill_blanks
fill_blanks-Kept zero i p b h = ground arith
fill_blanks-Kept (suc n) i p b h =
    let q = record p { raw = set p.raw i b' ' } in
    let c = set-IsBuffer p.raw p.raw_size i b' ' b (omega arith) in
    Ensures-poke (Kept p) p i b' ' (fill_blanks n (i + 1)) (omega (arith, b.room)) (
      Ensures-map (Kept q) (Kept p) (fill_blanks n (i + 1) q) (λ r k. ground arith)
        (fill_blanks-Kept n (i + 1) q c (omega arith)))

last_header-EndsBy :
    (b : ℕ) (hs : List Header) (h : Header)
    → AllEndBy b hs
    → last_header hs ≡ some h
    → EndsBy b h.name × EndsBy b h.value
unfolding last_header
last_header-EndsBy b [] h s e = cc
last_header-EndsBy b (x ∷ hs) h s e = ground (arith, last_header-EndsBy b hs h s.2)

set_last-AllEndBy :
    (b : ℕ) (hs : List Header) (l : Header)
    → AllEndBy b hs
    → EndsBy b l.name
    → EndsBy b l.value
    → AllEndBy b (set_last hs l) × (length (set_last hs l) ≡ length hs)
unfolding set_last
set_last-AllEndBy b [] l s n v = (tt, refl)
set_last-AllEndBy b (x ∷ []) l s n v = ((n, v, tt), refl)
set_last-AllEndBy b (x ∷ (y ∷ hs)) l s n v =
    let r = set_last-AllEndBy b (y ∷ hs) l s.2 n v in ((s.0, s.1, r.0), ap suc r.1)

-- What a continued header changes: its length, and bytes of the buffer.
pub record Folded (p q : Parser) : Type 0 where
  pub buffer : IsBuffer q.raw q.raw_size
  pub raw_size_same : q.raw_size ≡ p.raw_size
  pub offset_same : q.offset ≡ p.offset
  pub state_same : q.state_m ≡ p.state_m
  pub mode_same : q.server_mode ≡ p.server_mode
  pub header_same : q.header ≡ p.header
  pub stored : AllEndBy p.offset q.headers
  pub count_same : length q.headers ≡ length p.headers
  pub capacity_same : q.header_capacity ≡ p.header_capacity

folded_len :
    (s v : Slice) (off : ℕ)
    → off < size_mod
    → EndsBy off v
    → EndsBy v.pos s
    → add_size (sub_size v.pos s.pos) v.len ≡ v.pos - s.pos + v.len
unfolding add_size
folded_len s v off h e l = omega (arith, sub_size_lem v.pos s.pos)

-- The new length ends where the continuation ends.
folded_end :
    (p q : Parser) (h : Header)
    → Kept p q
    → p.offset ≤ p.raw_size
    → EndsBy p.offset p.header.value
    → EndsBy p.header.value.pos h.value
    → h.value.pos + add_size (sub_size q.header.value.pos h.value.pos) q.header.value.len ≤ p.offset
folded_end p q h k o v e =
    rw k.header_same
      (omega (arith, folded_len h.value p.header.value p.offset, k.buffer.small, k.raw_size_same))

after_fold :
    (p q r : Parser) (h l : Header) (raw : List ℕ)
    → Kept p q
    → AllEndBy p.offset (set_last p.headers l) × (length (set_last p.headers l) ≡ length p.headers)
    → Kept (record q { headers = set_last q.headers l; raw = raw }) r
    → Folded p r
after_fold p q r h l raw k s c = record {
  buffer = c.buffer;
  raw_size_same = c.raw_size_same ∙ k.raw_size_same;
  offset_same = c.offset_same ∙ k.offset_same;
  state_same = c.state_same ∙ k.state_same;
  mode_same = c.mode_same ∙ k.mode_same;
  header_same = c.header_same ∙ k.header_same;
  stored = rw (c.headers_same, k.headers_same) s.0;
  count_same = rw (c.headers_same, k.headers_same) s.1;
  capacity_same = c.capacity_same ∙ k.capacity_same;
}

fold_tail :
    (env : Env) (p q : Parser) (h : Header)
    → Kept p q
    → p.offset ≤ p.raw_size
    → EndsBy p.offset p.header.value
    → AllEndBy p.header.value.pos p.headers
    → last_header p.headers ≡ some h
    → let n = add_size (sub_size q.header.value.pos h.value.pos) q.header.value.len in
      let l = record h { value = record h.value { len = n } } in
      Ensures (Folded p) (
        poke (record q { headers = set_last q.headers l }) (l.value.pos + n) 0 >>= λ q₁.
        rtsp_header_handler env q₁ l.name.pos l.value.pos)
fold_tail env p q h k o v s e =
    let n = add_size (sub_size q.header.value.pos h.value.pos) q.header.value.len in
    let l = record h { value = record h.value { len = n } } in
    let i = l.value.pos + n in
    let raw = set q.raw i 0 in
    let q₁ = record q { headers = set_last q.headers l; raw = raw } in
    let old = last_header-EndsBy p.header.value.pos p.headers h s e in
    let end = folded_end p q h k o v old.1 in
    let b = set_nul-IsBuffer q.raw q.raw_size i k.buffer (omega (arith, k.raw_size_same)) in
    let kept =
      set_last-AllEndBy p.offset p.headers l
        (AllEndBy-mono p.header.value.pos p.offset p.headers (omega arith) s) (omega arith) end in
    Ensures-poke (Folded p) (record q { headers = set_last q.headers l }) i 0
      (λ r. rtsp_header_handler env r l.name.pos l.value.pos)
      (omega (arith, k.buffer.room, k.raw_size_same))
      (Ensures-map (Kept q₁) (Folded p) (rtsp_header_handler env q₁ l.name.pos l.value.pos)
        (λ r c. after_fold p q r h l raw k kept c)
        (rtsp_header_handler-Kept env q₁ l.name.pos l.value.pos b (omega (arith, k.raw_size_same))))

pub fold_line-Folded :
    (env : Env) (p : Parser) (h : Header)
    → IsBuffer p.raw p.raw_size
    → p.offset ≤ p.raw_size
    → EndsBy p.offset p.header.value
    → AllEndBy p.header.value.pos p.headers
    → last_header p.headers ≡ some h
    → Ensures (Folded p) (fold_line env p h)
unfolding fold_line
fold_line-Folded env p h b o v s e =
    Ensures-bind (Kept p) (Folded p) (fill_blanks (p.header.value.pos - h.value.len) h.value.len p)
      _
      (fill_blanks-Kept (p.header.value.pos - h.value.len) h.value.len p b
        (omega (arith, last_header-EndsBy p.header.value.pos p.headers h s e)))
      λ q k. fold_tail env p q h k o v s e
