-- ===== src/Rtsp/Answer/Grammar.antt =====
-- The status line of an answer of RTSP/1.0, as RFC 2326 7.1 writes it.
use box_rtsp.Prelude.{
  ℕ, ◌+◌, ◌/◌, ◌%◌, ◌<◌, ◌≡◌, Bool, true, false, not, ◌&&◌, List, [], ◌∷◌, ◌++◌, length,
}
use box_rtsp.Rtsp.Parser.{ends_word}
use box_rtsp.Rtsp.Headers.{codes}
use box_rtsp.Rtsp.Fields.Grammar.{is_value, starts_solid}

pub record Answer : Type 0 where
  pub code : ℕ
  pub reason : List ℕ

abbrev pub all_word : List ℕ → Bool
all_word [] = true
all_word (c ∷ cs) = not (ends_word c) && all_word cs

-- Three digits.
abbrev pub code_text : ℕ → List ℕ
code_text n = (48 + n / 100) ∷ ((48 + n / 10 % 10) ∷ ((48 + n % 10) ∷ []))

abbrev pub version : List ℕ
version = codes "RTSP/1.0"

pub record IsAnswer (a : Answer) : Type 0 where
  pub small : a.code < 1000
  pub given : 0 < length a.reason
  pub text : is_value false a.reason ≡ true
  pub solid : starts_solid a.reason ≡ true

abbrev pub status_line : Answer → List ℕ
status_line a =
    version ++ (b' ' ∷ (code_text a.code ++ (b' ' ∷ (a.reason ++ (b'\r' ∷ b'\n' ∷ [])))))
