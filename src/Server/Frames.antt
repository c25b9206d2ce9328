-- ===== src/Server/Frames.antt =====
-- src/libevent_server.c, deal_client_cmd: how a command is taken out of the received bytes.
use box_rtsp.Prelude.{
  ℕ, zero, suc, ◌+◌, ◌*◌, ◌^◌, Bool, true, false, ◌&&◌, List, [], ◌∷◌, ltb, ◌==◌, if◌then◌else◌,
  length, get_or, take, drop,
}
use box_rtsp.Rtsp.Parser.{add_size}
use box_rtsp.Rtsp.Exec.{Halt, Exec, ok, halt, ◌>>=◌}
use box_rtsp.Rtsp.Headers.{codes}
use box_rtsp.Relay.Client.{cmd_size}

-- `CMD_MAX_LEN`, the size of `cRecvCmdBuf`
abbrev pub cmd_max_len : ℕ
cmd_max_len = 512

-- `"hBzHbox@"`
abbrev pub magic : List ℕ
magic = codes "hBzHbox@"

-- `strncmp(a, b, n) == 0` for a `b` of `n` bytes without a NUL.
abbrev pub begins : List ℕ → List ℕ → Bool
begins a [] = true
begins [] (c ∷ cs) = false
begins (a ∷ as_) (c ∷ cs) = (a == c) && begins as_ cs

-- `ntohl(stMsgHead.cmd_length)`, which stands behind the eight bytes of `header`
unfoldable pub body_length : List ℕ → ℕ
body_length input =
    get_or input 8 0 * 2 ^ 24
    + get_or input 9 0 * 2 ^ 16
    + get_or input 10 0 * 2 ^ 8
    + get_or input 11 0

-- A string that a function reads from here to its NUL; at the end of the array the read leaves it.
unfoldable pub text_of : List ℕ → Exec (List ℕ)
text_of [] = halt Halt.faults
text_of (c ∷ cs) = if c == 0 then ok [] else text_of cs >>= λ s. ok (c ∷ s)

-- `{0}` with the bytes read on top of it
abbrev pub over_zeros : ℕ → List ℕ → List ℕ
over_zeros zero xs = []
over_zeros (suc n) [] = 0 ∷ over_zeros n []
over_zeros (suc n) (x ∷ xs) = x ∷ over_zeros n xs

-- What has been received: less than a command, something else, or a command and the bytes behind it.
pub data Received : Type 0 where
  waits : Received
  not_ours : Received
  command : List ℕ → List ℕ → List ℕ → Received

-- The command is the head, the JSON text and what follows the command.
unfoldable pub read_cmd : List ℕ → Exec Received
unfolding text_of
read_cmd input =
    let n = add_size (body_length input) cmd_size in
    if ltb (length input) cmd_size
    then ok waits
    else if begins input magic
    then if ltb (length input) n
      then ok waits
      else if ltb cmd_max_len n
      then halt Halt.faults
      else (do
        text ← text_of (drop cmd_size (over_zeros cmd_max_len (take n input)))
        ok (command (take cmd_size input) text (drop n input)))
    else ok not_ours
