-- ===== src/Server/Framing.antt =====
-- src/libevent_server.c, deal_client_cmd: which commands are read.
use mathlib.Core.List.{append_assoc}
use box_rtsp.Prelude.{
  ℕ, zero, suc, ◌+◌, ◌^◌, ◌≤◌, ◌<◌, ◌≡◌, refl, sym, ap, ◌∙◌, Bool, true, false, ◌&&◌, List, [], ◌∷◌,
  ◌++◌, arith, ◌==◌, length, length-append, length-take, get_or, take, drop, lt→ltb, le→ltb,
}
use box_rtsp.Rtsp.Parser.{add_size}
use box_rtsp.Rtsp.Exec.{Halt, ok, halt, ◌>>=◌}
use box_rtsp.Relay.Client.{cmd_size}
use box_rtsp.Server.Json.{Json}
use box_rtsp.Server.Command.{disable_read, run_cmd, deal_client_cmd}
use box_rtsp.Server.Frames.{
  cmd_max_len, magic, begins, body_length, text_of, over_zeros, Received, read_cmd,
}

-- A text without a NUL.
abbrev pub IsText : List ℕ → Type 0
IsText [] = Unit {0}
IsText (c ∷ cs) = ((c == 0) ≡ false) × IsText cs

get_or-append_lt : (xs ys : List ℕ) (i : ℕ) → i < length xs → get_or (xs ++ ys) i 0 ≡ get_or xs i 0
get_or-append_lt [] ys i h = ground arith
get_or-append_lt (x ∷ xs) ys zero h = refl
get_or-append_lt (x ∷ xs) ys (suc i) h = get_or-append_lt xs ys i (omega arith)

body_length-append :
    (head ys : List ℕ) → length head ≡ cmd_size → body_length (head ++ ys) ≡ body_length head
unfolding body_length
body_length-append head ys h = omega (
  arith,
  get_or-append_lt head ys 8 (omega arith),
  get_or-append_lt head ys 9 (omega arith),
  get_or-append_lt head ys 10 (omega arith),
  get_or-append_lt head ys 11 (omega arith),
)

take-append : (xs ys : List ℕ) → take (length xs) (xs ++ ys) ≡ xs
take-append [] ys = refl
take-append (x ∷ xs) ys = ap (◌∷◌ x) (take-append xs ys)

take_all : (xs ys : List ℕ) (n : ℕ) → n ≡ length xs → take n (xs ++ ys) ≡ xs
take_all xs ys n h = rw h (take-append xs ys)

drop-append : (xs ys : List ℕ) → drop (length xs) (xs ++ ys) ≡ ys
drop-append [] ys = refl
drop-append (x ∷ xs) ys = drop-append xs ys

drop_all : (xs ys : List ℕ) (n : ℕ) → n ≡ length xs → drop n (xs ++ ys) ≡ ys
drop_all xs ys n h = rw h (drop-append xs ys)

and_parts : (a b : Bool) → (a && b) ≡ true → (a ≡ true) × (b ≡ true)
and_parts a b h = ground arith

begins-append : (xs ys m : List ℕ) → begins xs m ≡ true → begins (xs ++ ys) m ≡ true
begins-append xs ys [] h = refl
begins-append [] ys (c ∷ m) h = ground arith
begins-append (x ∷ xs) ys (c ∷ m) h =
    let p = and_parts (x == c) (begins xs m) h in rw (p.0, begins-append xs ys m p.1) refl

text_of-over_zeros :
    (text : List ℕ) (n : ℕ) → IsText text → length text < n → text_of (over_zeros n text) ≡ ok text
unfolding text_of
text_of-over_zeros text zero t h = ground arith
text_of-over_zeros [] (suc n) t h = refl
text_of-over_zeros (c ∷ cs) (suc n) t h = rw (t.0, text_of-over_zeros cs n t.1 (omega arith)) refl

drop-over_zeros :
    (xs ys : List ℕ) (n m : ℕ)
    → m ≡ length xs + n
    → drop (length xs) (over_zeros m (xs ++ ys)) ≡ over_zeros n ys
drop-over_zeros [] ys n m h = rw (let e : m ≡ n = omega arith in e) refl
drop-over_zeros (x ∷ xs) ys n zero h = ground arith
drop-over_zeros (x ∷ xs) ys n (suc m) h = drop-over_zeros xs ys n m (omega arith)

whole_size : (n : ℕ) → n < 2 ^ 31 → add_size n cmd_size ≡ n + cmd_size
unfolding add_size
whole_size n h = omega arith

-- A command whose head announces the length of its text, of less than 480 bytes without a NUL, is
-- read when it has arrived as a whole: its head and its text, and what follows stays.
read_cmd-command :
    (head text behind : List ℕ)
    → begins head magic ≡ true
    → length head ≡ cmd_size
    → body_length head ≡ length text
    → length text < 480
    → IsText text
    → read_cmd (head ++ (text ++ behind)) ≡ ok (Received.command head text behind)
unfolding read_cmd
read_cmd-command head text behind m s b h t =
    let all = head ++ (text ++ behind) in
    let size : length all ≡ cmd_size + (length text + length behind) =
      omega (arith, length-append head (text ++ behind), length-append text behind) in
    let n : add_size (body_length all) cmd_size ≡ length text + cmd_size =
      rw (body_length-append head (text ++ behind) s, b) (whole_size (length text) (omega arith)) in
    rw
      (
        n,
        le→ltb (length all) cmd_size (omega (arith, size)),
        begins-append head (text ++ behind) magic m,
        le→ltb (length all) (length text + cmd_size) (omega (arith, size)),
        le→ltb cmd_max_len (length text + cmd_size) (omega arith),
        text_read,
        take_all head (text ++ behind) cmd_size (sym s),
        rest_read,
      )
      refl
  where
    both : length (head ++ text) ≡ length text + cmd_size
    both = omega (arith, length-append head text)

    text_read :
        text_of (
          drop cmd_size
            (over_zeros cmd_max_len (take (length text + cmd_size) (head ++ (text ++ behind)))))
        ≡ ok text
    text_read =
        rw
          (
            ← append_assoc head text behind,
            take_all (head ++ text) behind (length text + cmd_size) (sym both),
          )
          (ap (λ k. text_of (drop k (over_zeros cmd_max_len (head ++ text)))) (sym s)
            ∙ ap text_of (drop-over_zeros head text 480 cmd_max_len (omega arith))
            ∙ text_of-over_zeros text 480 t h)

    rest_read : drop (length text + cmd_size) (head ++ (text ++ behind)) ≡ behind
    rest_read =
        rw (← append_assoc head text behind)
          (drop_all (head ++ text) behind (length text + cmd_size) (sym both))

-- A command of more than 480 bytes of text that has arrived as a whole is written behind the end of
-- the array that receives it.
pub read_cmd_overrun :
    (head text behind : List ℕ)
    → begins head magic ≡ true
    → length head ≡ cmd_size
    → body_length head ≡ length text
    → 480 < length text
    → length text < 2 ^ 31
    → read_cmd (head ++ (text ++ behind)) ≡ halt Halt.faults
unfolding read_cmd
read_cmd_overrun head text behind m s b h k =
    let all = head ++ (text ++ behind) in
    let size : length all ≡ cmd_size + (length text + length behind) =
      omega (arith, length-append head (text ++ behind), length-append text behind) in
    let n : add_size (body_length all) cmd_size ≡ length text + cmd_size =
      rw (body_length-append head (text ++ behind) s, b) (whole_size (length text) k) in
    rw
      (
        n,
        le→ltb (length all) cmd_size (omega (arith, size)),
        begins-append head (text ++ behind) magic m,
        le→ltb (length all) (length text + cmd_size) (omega (arith, size)),
        lt→ltb cmd_max_len (length text + cmd_size) (omega arith),
      )
      refl

-- While less of a command has arrived than its head announces, nothing is taken and nothing is read.
read_cmd_waits :
    (input : List ℕ)
    → cmd_size ≤ length input
    → begins input magic ≡ true
    → body_length input < 2 ^ 31
    → length input < body_length input + cmd_size
    → read_cmd input ≡ ok Received.waits
unfolding read_cmd
read_cmd_waits input c m s h =
    rw
      (
        whole_size (body_length input) s,
        le→ltb (length input) cmd_size c,
        m,
        lt→ltb (length input) (body_length input + cmd_size) h,
      )
      refl

-- A command whose head announces the length of its text, of less than 480 bytes without a NUL, may
-- arrive in parts: while the text is not complete nothing is taken and nothing is read, and when it
-- has arrived as a whole its head and its text are read, and what follows stays.
pub read_cmd_arrives :
    (head text behind : List ℕ) (k : ℕ)
    → begins head magic ≡ true
    → length head ≡ cmd_size
    → body_length head ≡ length text
    → length text < 480
    → IsText text
    → k < length text
    → (read_cmd (head ++ take k text) ≡ ok Received.waits)
      × (read_cmd (head ++ (text ++ behind)) ≡ ok (Received.command head text behind))
read_cmd_arrives head text behind k m s b h t l =
    let n = body_length-append head (take k text) s ∙ b in
    let size : length (head ++ take k text) ≡ cmd_size + k =
      omega (arith, length-append head (take k text), length-take k text (omega arith)) in
    (
      read_cmd_waits (head ++ take k text) (omega (arith, size))
          (begins-append head (take k text) magic m) (omega (arith, n)) (omega (arith, n, size)),
      read_cmd-command head text behind m s b h t,
    )

module _ {J : Type 0} (j : Json J) where
  -- A command that has arrived as a whole, of less than 480 bytes of text without a NUL, is taken out
  -- of the buffer, no more is read from its client, and it is carried out by what its text says.
  pub deal_client_cmd-command :
      (head text behind : List ℕ)
      → begins head magic ≡ true
      → length head ≡ cmd_size
      → body_length head ≡ length text
      → length text < 480
      → IsText text
      → deal_client_cmd j (head ++ (text ++ behind))
        ≡ (run_cmd j head text >>= λ effects. ok (disable_read ∷ effects, behind))
  unfolding deal_client_cmd
  deal_client_cmd-command head text behind m s b h t =
      rw (read_cmd-command head text behind m s b h t) refl
