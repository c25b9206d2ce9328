-- ===== src/Rtsp/Safe/StartLine.antt =====
-- src/common/rtsp-parser.c: what the two machines for the start line have in common.
use box_rtsp.Prelude.{
  ℕ, ◌+◌, ◌≤◌, ◌<◌, ◌≡◌, refl, Bool, true, false, List, arith, length, set, ℤ, pos,
}
use mathlib.Core.Option.{Option, none, some}
use box_rtsp.Rtsp.Text.{scan_version, string_at}
use box_rtsp.Rtsp.Parser.{Mode, Field, StateM, Parser, advance, goto}
use box_rtsp.Rtsp.Exec.{assert, Halt, Exec, ok, halt, ◌>>=◌, Step}
use box_rtsp.Rtsp.RequestLine.{read_version}
use box_rtsp.Rtsp.RequestLine.{known_version, to_headers}
use box_rtsp.Rtsp.Safe.Rules.{Ensures-assert, Ensures, Turn}
use box_rtsp.Rtsp.Safe.Bounds.{IsBuffer, EndsBy, AllEndBy, AllEndBy-mono, set_nul-IsBuffer}
use box_rtsp.Rtsp.Safe.Place.{IsValid, line_measure}

abbrev pub in_line : StateM → Bool
in_line (StateM.start_line l) = true
in_line _ = false

-- In a start line, in mode `m`.
abbrev pub Going : Mode → Parser → Type 0
Going m p = IsValid p × (p.server_mode ≡ m) × (in_line p.state_m ≡ true)

-- What a start line's machine leaves: a valid parser of the same mode, and the result 0.
abbrev pub Left : Mode → ℤ → Parser → Type 0
Left m r p = (r ≡ pos 0) × IsValid p × (p.server_mode ≡ m)

abbrev pub LineTurn : Mode → Parser → Exec Step → Type 0
LineTurn m p = Ensures (Turn (Going m) (Left m) line_measure (line_measure p))

pub read_version_rule :
    {B : Type 0} (Q : B → Type 0) (p : Parser) (f : Parser → Exec B)
    → ((a b : ℤ) → Ensures Q (f (record p { vermajor = a; verminor = b })))
    → Ensures Q (read_version p >>= f)
unfolding read_version
read_version_rule Q p f k = go (scan_version (string_at p.raw p.header.name.pos))
  where
    go :
        (o : Option (ℤ × ℤ))
        → Ensures Q (
            (elim o [
              | none ↦ halt Halt.aborts
              | some (major, minor) ↦ ok (record p { vermajor = major; verminor = minor })
            ])
            >>= f)
    go none = tt
    go (some (a, b)) = k a b

-- Behind the two NULs the parser goes on to the headers.
pub to_headers-IsValid :
    (p : Parser)
    → IsBuffer p.raw p.raw_size
    → p.offset < p.raw_size
    → length p.headers ≤ p.header_capacity
    → AllEndBy p.offset p.headers
    → EndsBy p.offset p.header.name
    → IsValid (advance (goto (StateM.header Field.start) p))
to_headers-IsValid p b o h s n = record {
  buffer = b;
  reached = omega arith;
  held = h;
  stored = AllEndBy-mono p.offset (p.offset + 1) p.headers (omega arith) s;
  place = ground arith;
}

-- The buffer after the two NULs.
pub two_nuls :
    (raw : List ℕ) (n i j : ℕ)
    → IsBuffer raw n
    → i ≤ n
    → j ≤ n
    → (i < length raw) × (j < length (set raw i 0)) × IsBuffer (set (set raw i 0) j 0) n
two_nuls raw n i j b h k =
    let c = set_nul-IsBuffer raw n i b h in
    let room : (i < length raw) × (j < length (set raw i 0)) =
      (omega (arith, b.room), omega (arith, c.room)) in
    (room.0, room.1, set_nul-IsBuffer (set raw i 0) n j c k)

-- The last assertion, and the return.
pub known_version-Turn :
    (m : Mode) (n : ℕ) (q : Parser)
    → IsBuffer q.raw q.raw_size
    → q.offset < q.raw_size
    → length q.headers ≤ q.header_capacity
    → AllEndBy q.offset q.headers
    → EndsBy q.offset q.header.name
    → q.server_mode ≡ m
    → Ensures
        (Turn (Going m) (Left m) line_measure n)
        (assert (known_version q) >>= λ _. ok (to_headers q))
known_version-Turn m n q b o h s e k =
    Ensures-assert (Turn (Going m) (Left m) line_measure n) (known_version q) (ok (to_headers q))
      λ _. (refl, to_headers-IsValid q b o h s e, k)
