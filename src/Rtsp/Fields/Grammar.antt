-- ===== src/Rtsp/Fields/Grammar.antt =====
-- Headers as RFC 2616 4.2 writes them, each on one line: a name, a colon, blanks, a value, the end of
-- the line.
use box_rtsp.Prelude.{
  ℕ, ◌<◌, ◌≡◌, Bool, true, false, not, ◌&&◌, List, [], ◌∷◌, ◌++◌, ◌==◌, if◌then◌else◌, length,
}
use box_rtsp.Rtsp.Parser.{is_blank}
use box_rtsp.Rtsp.Text.{strcasecmp}
use box_rtsp.Rtsp.Headers.{codes, is_token_byte}

pub record Written : Type 0 where
  pub name : List ℕ
  pub gap : List ℕ
  pub value : List ℕ

abbrev pub all_token : List ℕ → Bool
all_token [] = true
all_token (c ∷ cs) = is_token_byte c && all_token cs

abbrev pub all_blank : List ℕ → Bool
all_blank [] = true
all_blank (c ∷ cs) = is_blank c && all_blank cs

-- A byte of a value: no NUL and no end of a line.
abbrev pub is_value_byte : ℕ → Bool
is_value_byte c = not (c == 0) && not (c == b'\r') && not (c == b'\n')

-- A value, or what follows some of it, has no blank at its end; `true` is behind a blank.
abbrev pub is_value : Bool → List ℕ → Bool
is_value behind [] = not behind
is_value behind (c ∷ cs) = is_value_byte c && is_value (is_blank c) cs

-- Nor at its front.
abbrev pub starts_solid : List ℕ → Bool
starts_solid [] = true
starts_solid (c ∷ cs) = not (is_blank c)

-- The names that rtsp_header_handler knows.
abbrev pub is_known : List ℕ → Bool
is_known name =
    if strcasecmp (codes "Content-Length") name
    then true
    else if strcasecmp (codes "Connection") name
    then true
    else if strcasecmp (codes "Content-Encoding") name
    then true
    else if strcasecmp (codes "Transfer-Encoding") name
    then true
    else if strcasecmp (codes "Set-Cookie") name
    then true
    else strcasecmp (codes "Location") name

pub record IsWritten (h : Written) : Type 0 where
  pub named : 0 < length h.name
  pub token : all_token h.name ≡ true
  pub blank : all_blank h.gap ≡ true
  pub text : is_value false h.value ≡ true
  pub solid : starts_solid h.value ≡ true
  pub plain : is_known h.name ≡ false

abbrev pub AllWritten : List Written → Type 0
AllWritten [] = Unit {0}
AllWritten (h ∷ hs) = IsWritten h × AllWritten hs

abbrev pub line : Written → List ℕ
line h = h.name ++ (b':' ∷ (h.gap ++ (h.value ++ (b'\r' ∷ b'\n' ∷ []))))

-- The headers of a message with the empty line behind them.
abbrev pub block : List Written → List ℕ
block [] = b'\r' ∷ b'\n' ∷ []
block (h ∷ hs) = line h ++ block hs
