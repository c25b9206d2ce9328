-- ===== src/Rtsp/Found.antt =====
-- src/common/rtsp-parser.c: rtsp_get_header_by_name finds the first header of a name.
use box_rtsp.Prelude.{
  ℕ, zero, suc, ◌<◌, ◌≡◌, refl, Bool, true, false, arith, List, [], ◌∷◌, Option, none, some, pos,
}
use box_rtsp.Rtsp.Parser.{Header, Parser}
use box_rtsp.Rtsp.Exec.{ok, assert, ◌>>◌}
use box_rtsp.Rtsp.Text.{string_at, strcasecmp}
use box_rtsp.Rtsp.Getters.{
  headers_read, get_header?, find_header, rtsp_get_header, rtsp_get_header_by_name,
}

find_header-get_header? :
    (raw name : List ℕ) (hs : List Header) (i : ℕ) (h : Header)
    → get_header? hs i ≡ some h
    → strcasecmp (string_at raw h.name.pos) name ≡ true
    → ((j : ℕ) (g : Header)
        → j < i
        → get_header? hs j ≡ some g
        → strcasecmp (string_at raw g.name.pos) name ≡ false)
    → find_header raw name hs ≡ some h
unfolding find_header get_header?
find_header-get_header? raw name [] i h e m f = ground arith
find_header-get_header? raw name (g ∷ hs) zero h e m f = ground arith
find_header-get_header? raw name (g ∷ hs) (suc i) h e m f =
    let n : strcasecmp (string_at raw g.name.pos) name ≡ false = f 0 g (omega arith) refl in
    rw n (find_header-get_header? raw name hs i h e m λ j k l. f (suc j) k (omega arith))

-- The header at a place that rtsp_get_header answers for.
header_at :
    (p : Parser) (i n v : ℕ)
    → rtsp_get_header p (pos i) ≡ ok (some (n, v))
    → (h : Header) × (get_header? p.headers i ≡ some h) × (h.name.pos ≡ n) × (h.value.pos ≡ v)
unfolding rtsp_get_header
header_at p i n v e = go (headers_read p) (get_header? p.headers i) refl e
  where
    go :
        (b : Bool) (o : Option Header)
        → get_header? p.headers i ≡ o
        → ◌>>◌ {B = Option (ℕ × ℕ)}
            (assert b)
            (ok (elim o [ none ↦ none | some h ↦ some (h.name.pos, h.value.pos) ]))
          ≡ ok (some (n, v))
        → (h : Header) × (get_header? p.headers i ≡ some h) × (h.name.pos ≡ n) × (h.value.pos ≡ v)
    go true (some h) k e = (h, k, ground arith, ground arith)
    go true none k e = ground arith
    go false o k e = ground arith

-- Of the headers that rtsp_get_header numbers, rtsp_get_header_by_name gives the value of the first one
-- whose name is the given name, in whatever case its letters are.
pub rtsp_get_header_by_name-rtsp_get_header :
    (p : Parser) (name : List ℕ) (i n v : ℕ)
    → headers_read p ≡ true
    → rtsp_get_header p (pos i) ≡ ok (some (n, v))
    → strcasecmp (string_at p.raw n) name ≡ true
    → ((j m u : ℕ)
        → j < i
        → rtsp_get_header p (pos j) ≡ ok (some (m, u))
        → strcasecmp (string_at p.raw m) name ≡ false)
    → rtsp_get_header_by_name p name ≡ ok (some v)
unfolding rtsp_get_header_by_name rtsp_get_header
rtsp_get_header_by_name-rtsp_get_header p name i n v r e m f =
    let (h, k, a, b) = header_at p i n v e in
    rw
      (
        r,
        find_header-get_header? p.raw name p.headers i h k (rw a m)
            (λ j g l c. f j g.name.pos g.value.pos l (rw (r, c) refl)),
        b,
      )
      refl
