-- ===== src/Rtsp/Safe/Place.antt =====
-- src/common/rtsp-parser.c: the invariant of a parser, state by state.
use box_rtsp.Prelude.{ℕ, ◌+◌, ◌-◌, ◌*◌, ◌≤◌, ◌≡◌, ◌⊎◌, List, length}
use box_rtsp.Rtsp.Parser.{Mode, Line, Field, StateM, Slice, Header, Parser}
use box_rtsp.Rtsp.Safe.Bounds.{IsBuffer, EndsBy, AllEndBy}

-- What a start line's state knows of its three words: those read so far end by the offset, and the
-- one that is being read begins there or before.
abbrev pub LineInv : Line → ℕ → Slice → Slice → Slice → Type 0
LineInv Line.start off a b c = Unit {0}
LineInv Line.first off a b c = a.pos ≤ off
LineInv Line.sp1 off a b c = EndsBy off a
LineInv Line.second off a b c = EndsBy off a × (b.pos ≤ off)
LineInv Line.sp2 off a b c = EndsBy off a × EndsBy off b
LineInv Line.third off a b c = EndsBy off a × EndsBy off b × (c.pos ≤ off)
LineInv _ off a b c = EndsBy off a × EndsBy off b × EndsBy off c

-- The same for a header's name and value; the stored headers end before the value that is read. A
-- value at 0 marks the end of the headers.
abbrev pub FieldInv : Field → ℕ → Header → List Header → Type 0
FieldInv Field.name off h hs = h.name.pos ≤ off
FieldInv Field.value off h hs = EndsBy off h.name × (h.value.pos ≤ off) × AllEndBy h.value.pos hs
FieldInv Field.sp3 off h hs = EndsBy off h.name × EndsBy off h.value × AllEndBy h.value.pos hs
FieldInv Field.cr off h hs =
    EndsBy off h.name × ((h.value.pos ≡ 0) ⊎ (EndsBy off h.value × AllEndBy h.value.pos hs))
FieldInv Field.lf off h hs =
    EndsBy off h.name × ((h.value.pos ≡ 0) ⊎ (EndsBy off h.value × AllEndBy h.value.pos hs))
FieldInv _ off h hs = EndsBy off h.name

abbrev pub Place : Mode → StateM → Parser → Type 0
Place Mode.server (StateM.start_line l) p = LineInv l p.offset p.req.method p.req.uri p.header.name
Place Mode.client (StateM.start_line l) p =
    LineInv l p.offset p.header.name p.header.value p.reply.reason
Place m (StateM.header f) p = FieldInv f p.offset p.header p.headers
Place m _ p = Unit {0}

pub record IsValid (p : Parser) : Type 0 where
  pub buffer : IsBuffer p.raw p.raw_size
  pub reached : p.offset ≤ p.raw_size
  pub held : length p.headers ≤ p.header_capacity
  pub stored : AllEndBy p.offset p.headers
  pub place : Place p.server_mode p.state_m p

-- How far a line has come. A turn that keeps the offset goes up.
abbrev pub line_rank : Line → ℕ
line_rank Line.start = 0
line_rank Line.first = 1
line_rank Line.sp1 = 2
line_rank Line.second = 3
line_rank Line.sp2 = 4
line_rank Line.third = 5
line_rank Line.sp3 = 6
line_rank Line.cr = 7
line_rank Line.lf = 8

abbrev pub field_rank : Field → ℕ
field_rank Field.start = 0
field_rank Field.name = 1
field_rank Field.sp1 = 2
field_rank Field.separator = 3
field_rank Field.sp2 = 4
field_rank Field.value = 5
field_rank Field.sp3 = 6
field_rank Field.cr = 7
field_rank Field.lf = 8

abbrev pub rank : StateM → ℕ
rank (StateM.start_line l) = line_rank l
rank (StateM.header f) = field_rank f
rank _ = 0

abbrev pub line_measure : Parser → ℕ
line_measure p = 9 * (p.raw_size - p.offset) + (9 - rank p.state_m)

-- The place says nothing of the buffer.
pub Place-buffer :
    (m : Mode) (s : StateM) (p : Parser) (raw : List ℕ) (raw_size raw_capacity : ℕ)
    → Place m s p
    → Place m s (record p { raw = raw; raw_size = raw_size; raw_capacity = raw_capacity })
Place-buffer Mode.server (StateM.start_line l) p raw n c h = h
Place-buffer Mode.client (StateM.start_line l) p raw n c h = h
Place-buffer Mode.server (StateM.header f) p raw n c h = h
Place-buffer Mode.client (StateM.header f) p raw n c h = h
Place-buffer Mode.server _ p raw n c h = tt
Place-buffer Mode.client _ p raw n c h = tt
