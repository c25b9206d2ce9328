-- ===== src/Rtsp/Fields/Block.antt =====
-- src/common/rtsp-parser.c, rtsp_parse_header_line: all the headers of a message.
use box_rtsp.Prelude.{
  ℕ, suc, ◌+◌, ◌^◌, ◌≤◌, ◌<◌, ◌≡◌, refl, sym, ap, ◌∙◌, true, false, List, [], ◌∷◌, ◌++◌, arith,
  length, length-append, get_or, ℤ, pos,
}
use mathlib.Core.Path.{subst}
use mathlib.Core.List.{append_assoc, append-nil}
use box_rtsp.Rtsp.Parser.{Field, Body, StateM, Header, Parser, Env}
use box_rtsp.Rtsp.Exec.{ok}
use box_rtsp.Rtsp.Text.{string_at}
use box_rtsp.Rtsp.HeaderLine.{header_step, rtsp_parse_header_line}
use box_rtsp.Rtsp.RequestLine.{line_fuel}
use box_rtsp.Rtsp.Safe.Place.{line_measure}
use box_rtsp.Rtsp.Bytes.{HasAt, HasAt-left, HasAt-right}
use box_rtsp.Rtsp.Runs.{Runs-step}
use box_rtsp.Rtsp.Fields.Grammar.{Written, IsWritten, AllWritten, is_known, line, block}
use box_rtsp.Rtsp.Fields.Turns.{place, Ends}
use box_rtsp.Rtsp.Fields.Stores.{IsReady, ended, kept, room_for_lem}
use box_rtsp.Rtsp.Fields.Line.{
  found, value_at, length-line, Parts, line-Parts, header_lf_lem, Ends-text,
}
use box_rtsp.Rtsp.Fields.Empty.{ends_at, behind, Ends-empty}
use box_rtsp.Rtsp.Fields.Kept.{
  Holds, length-ended, ended_before, ended-HasAt_behind, ended-Holds, Holds-kept, Holds-strings,
}

abbrev pub AllHeld : List ℕ → List Header → List Written → Type 0
AllHeld raw [] [] = Unit {0}
AllHeld raw (k ∷ ks) (w ∷ ws) = Holds raw k w × AllHeld raw ks ws
AllHeld raw _ _ = ⊥

-- What the getters read of the headers: the names and the values, in their order.
abbrev pub AllRead : List ℕ → List Header → List Written → Type 0
AllRead raw [] [] = Unit {0}
AllRead raw (k ∷ ks) (w ∷ ws) =
    (string_at raw k.name.pos ≡ w.name) × (string_at raw k.value.pos ≡ w.value) × AllRead raw ks ws
AllRead raw _ _ = ⊥

AllHeld-AllRead :
    (raw : List ℕ) (ks : List Header) (ws : List Written)
    → AllWritten ws
    → AllHeld raw ks ws
    → AllRead raw ks ws
AllHeld-AllRead raw [] [] g h = tt
AllHeld-AllRead raw (k ∷ ks) (w ∷ ws) g h =
    let s = Holds-strings raw k w g.0 h.0 in (s.0, s.1, AllHeld-AllRead raw ks ws g.1 h.1)
AllHeld-AllRead raw [] (w ∷ ws) g h = elim h [ ]
AllHeld-AllRead raw (k ∷ ks) [] g h = elim h [ ]

-- The parser `q` that `p` becomes over the headers `ws`, which stand from `o` up to `z`.
pub record Taken (p q : Parser) (ws : List Written) (o z : ℕ) : Type 0 where
  pub finished : q.state_m ≡ StateM.body Body.start
  pub offset_moved : q.offset ≡ z
  pub raw_size_same : q.raw_size ≡ p.raw_size
  pub length_same : length q.raw ≡ length p.raw
  pub before_same : (j : ℕ) → j < o → get_or q.raw j 0 ≡ get_or p.raw j 0
  pub news : List Header
  pub appended : q.headers ≡ p.headers ++ news
  pub held : AllHeld q.raw news ws
  pub content_same : q.content_length ≡ p.content_length
  pub encoding_same : q.transfer_encoding ≡ p.transfer_encoding
  pub reply_same : q.reply ≡ p.reply
  pub mode_same : q.server_mode ≡ p.server_mode

-- A buffer with room for its bytes and for the headers that are stored.
pub record IsRoomy (p : Parser) : Type 0 where
  pub room : p.raw_size ≤ length p.raw
  pub small : length p.raw < 2 ^ 31
  pub fits : length p.headers ≤ p.header_capacity

module _ (env : Env) where
  module _ (grants : (n : ℕ) → env.grants n ≡ true) where
    module _ (p : Parser) (roomy : IsRoomy p) (w : Written) (good : IsWritten w) (o : ℕ)
        (begun : 0 < o) (at : Parts p.raw w o) (there : o + length (line w) ≤ p.raw_size) where
      in_buffer : o + length (line w) ≤ length p.raw
      in_buffer = omega (arith, roomy.room)

      found-IsReady : IsReady p (found w o) w.name
      found-IsReady = record {
        name_there = begun;
        value_there = omega arith;
        named = good.named;
        measured = refl;
        token = good.token;
        text = at.name;
        name_ends = omega (arith, in_buffer, length-line w);
        value_ends = omega (arith, in_buffer, length-line w);
        held = roomy.fits;
      }

      found_plain : is_known (string_at (ended p.raw (found w o)) o) ≡ false
      found_plain =
          let s =
            Holds-strings (ended p.raw (found w o)) (found w o) w good
              (ended-Holds p.raw w o at in_buffer) in
          rw s.0 good.plain

      -- A line whose header is stored.
      Ends-line :
          (h : Header) (r : ℤ × Parser)
          → Ends env
              (place
                (kept p (found w o))
                (ended p.raw (found w o))
                (o + length (line w))
                Field.start
                (found w o))
              r
          → Ends env (place p p.raw o Field.start h) r
      unfolding header_step
      Ends-line h r x =
          let k = found w o in
          let z = suc (value_at w o + length w.value) in
          let e : z + 1 ≡ o + length (line w) = omega (arith, length-line w) in
          Ends-text env p r p.raw roomy.room roomy.small w good o at there h (
            Runs-step (λ q. q.offset) (header_step env) line_measure (place p p.raw z Field.lf k)
              (place (kept p k) (ended p.raw k) (o + length (line w)) Field.start k) b'\n' r
              (omega (arith, there)) roomy.room at.end.2.1
              (rw e at (header_lf_lem env p k w.name found-IsReady grants found_plain z))
              (omega (arith, there)) x)

      kept-IsRoomy : IsRoomy (kept p (found w o))
      kept-IsRoomy = record {
        room = omega (arith, roomy.room, length-ended p.raw w o at in_buffer);
        small = omega (arith, roomy.small, length-ended p.raw w o at in_buffer);
        fits = omega (arith, length-append p.headers (found w o ∷ []), room_for_lem p roomy.fits);
      }

    abbrev Result : Parser → List Written → ℕ → Header → Type 0
    Result p ws o h =
        (q : Parser) × Ends env (place p p.raw o Field.start h) (pos 0, q)
        × Taken p q ws o (o + length (block ws))

    -- What the later lines leave of the first one.
    Taken-line :
        (p q : Parser) (roomy : IsRoomy p) (w : Written) (ws : List Written) (o : ℕ)
        (at : Parts p.raw w o) (there : o + length (line w) ≤ p.raw_size)
        → Taken
            (kept p (found w o))
            q
            ws
            (o + length (line w))
            (o + length (line w) + length (block ws))
        → Taken p q (w ∷ ws) o (o + length (block (w ∷ ws)))
    Taken-line p q roomy w ws o at there t =
        let fits : o + length (line w) ≤ length p.raw = omega (arith, roomy.room) in
        let e : o + length (line w) + length (block ws) ≡ o + length (block (w ∷ ws)) =
          omega (arith, length-append (line w) (block ws)) in
        let l = length-ended p.raw w o at fits in
        record {
          finished = t.finished;
          offset_moved = t.offset_moved ∙ e;
          raw_size_same = t.raw_size_same;
          length_same = t.length_same ∙ l;
          before_same = λ j h. t.before_same j (omega arith) ∙ ended_before p.raw w o at fits j h;
          news = found w o ∷ t.news;
          appended = t.appended ∙ append_assoc p.headers (found w o ∷ []) t.news;
          held = (Holds-kept p.raw w o at fits q.raw (t.length_same ∙ l) t.before_same, t.held);
          content_same = t.content_same;
          encoding_same = t.encoding_same;
          reply_same = t.reply_same;
          mode_same = t.mode_same;
        }

    read_all :
        (ws : List Written) (p : Parser) (o : ℕ) (h : Header)
        → AllWritten ws
        → IsRoomy p
        → 0 < o
        → HasAt p.raw o (block ws)
        → o + length (block ws) ≤ p.raw_size
        → Result p ws o h
    read_all [] p o h g roomy b a n = (
      behind p (o + 2) (ends_at h),
      Ends-empty env p roomy.room o h a n,
      record {
        finished = refl;
        offset_moved = refl;
        raw_size_same = refl;
        length_same = refl;
        before_same = λ j l. refl;
        news = [];
        appended = sym (append-nil p.headers);
        held = tt;
        content_same = refl;
        encoding_same = refl;
        reply_same = refl;
        mode_same = refl;
      },
    )
    read_all (w ∷ ws) p o h g roomy b a n =
        let l : length (block (w ∷ ws)) ≡ length (line w) + length (block ws) =
          length-append (line w) (block ws) in
        let at = line-Parts p.raw w o (HasAt-left p.raw o (line w) (block ws) a) in
        let there : o + length (line w) ≤ p.raw_size = omega (arith, l, n) in
        let k = found w o in
        let (q, x, t) =
          read_all ws (kept p k) (o + length (line w)) k g.1
            (kept-IsRoomy p roomy w g.0 o b at there) (omega arith)
            (ended-HasAt_behind p.raw w o at (omega (arith, roomy.room)) (block ws)
              (omega (arith, l, n, roomy.room)) (HasAt-right p.raw o (line w) (block ws) a))
            (omega (arith, l, n)) in
        (
          q,
          Ends-line p roomy w g.0 o b at there h (pos 0, q) x,
          Taken-line p q roomy w ws o at there t,
        )

-- The headers of a message that stand whole in the buffer behind its start line, of names that
-- rtsp_header_handler does not know, are stored in their order where memory is granted: the machine
-- ends with 0 in front of the body, behind the empty line, and the headers that it has added read as
-- the names and the values that were written, without the blanks around a value. The bytes in front of
-- the headers, the content length, the transfer encoding and what was read of the start line of an
-- answer stay.
pub rtsp_parse_header_line-block :
    (env : Env) (p : Parser) (ws : List Written)
    → ((n : ℕ) → env.grants n ≡ true)
    → AllWritten ws
    → IsRoomy p
    → p.state_m ≡ StateM.header Field.start
    → 0 < p.offset
    → HasAt p.raw p.offset (block ws)
    → p.offset + length (block ws) ≤ p.raw_size
    → (q : Parser) × (rtsp_parse_header_line env p ≡ ok (pos 0, q))
      × (t : Taken p q ws p.offset (p.offset + length (block ws))) × AllRead q.raw t.news ws
unfolding rtsp_parse_header_line
rtsp_parse_header_line-block env p ws grants g roomy s b a n =
    let (q, e, t) = read_all env grants ws p p.offset p.header g roomy b a n in
    let same : place p p.raw p.offset Field.start p.header ≡ p =
      ap (λ m. record p { state_m = m }) (sym s) in
    (
      q,
      subst (λ x. Ends env x (pos 0, q)) same e (line_fuel p) (omega arith),
      t,
      AllHeld-AllRead q.raw t.news ws g t.held,
    )
