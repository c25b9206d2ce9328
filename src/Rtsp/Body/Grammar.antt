-- ===== src/Rtsp/Body/Grammar.antt =====
-- A chunked body as RFC 2616 3.6.1 writes it, without trailers.
use box_rtsp.Prelude.{
  ℕ, ◌+◌, ◌*◌, ◌<◌, ◌≡◌, Bool, true, not, ◌&&◌, ◌||◌, List, [], ◌∷◌, ◌++◌, Option, none, some, ◌==◌,
  length,
}
use box_rtsp.Rtsp.Chunked.{hex_value}

-- A chunk: the digits of its size, its extension, its data.
pub record Piece : Type 0 where
  pub first : ℕ
  pub digits : List ℕ
  pub ext : List ℕ
  pub content : List ℕ

-- The number that the digits `cs` make behind `n`.
abbrev pub hex_from : ℕ → List ℕ → Option ℕ
hex_from n [] = some n
hex_from n (c ∷ cs) = elim (hex_value c) [ none ↦ none | some d ↦ hex_from (n * 16 + d) cs ]

abbrev pub in_line : ℕ → Bool
in_line c = not (c == b'\r') && not (c == b'\n')

abbrev pub all_in_line : List ℕ → Bool
all_in_line [] = true
all_in_line (c ∷ cs) = in_line c && all_in_line cs

-- An extension is empty, or it is set off by a blank or a semicolon.
abbrev pub is_ext : List ℕ → Bool
is_ext [] = true
is_ext (c ∷ cs) = (c == b'\t' || c == b' ' || c == b';') && all_in_line cs

pub record IsPiece (c : Piece) : Type 0 where
  pub size : hex_from 0 (c.first ∷ c.digits) ≡ some (length c.content)
  pub filled : 0 < length c.content
  pub extension : is_ext c.ext ≡ true

abbrev pub AllPieces : List Piece → Type 0
AllPieces [] = Unit {0}
AllPieces (c ∷ cs) = IsPiece c × AllPieces cs

abbrev pub crlf : List ℕ
crlf = b'\r' ∷ b'\n' ∷ []

abbrev pub size_line : Piece → List ℕ
size_line c = c.first ∷ (c.digits ++ (c.ext ++ crlf))

abbrev pub encode_piece : Piece → List ℕ
encode_piece c = size_line c ++ (c.content ++ crlf)

-- The body as it is sent: the chunks, a chunk of size 0 and an empty line.
abbrev pub encode : List Piece → List ℕ
encode [] = b'0' ∷ (crlf ++ crlf)
encode (c ∷ cs) = encode_piece c ++ encode cs

-- The body that is meant.
abbrev pub contents : List Piece → List ℕ
contents [] = []
contents (c ∷ cs) = c.content ++ contents cs
