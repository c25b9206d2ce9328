-- ===== src/Server/Replies.antt =====
-- src/libevent_server.c, deal_client_cmd: the reply to a command.
use box_rtsp.Prelude.{
  ℕ, zero, suc, ◌+◌, ◌*◌, ◌^◌, ◌≡◌, ap, List, [], ◌∷◌, ◌++◌, arith, length, length-append,
  length-take, length-drop, get_or, take, drop,
}
use box_rtsp.Rtsp.Headers.{codes}
use box_rtsp.Relay.Client.{cmd_size}
use box_rtsp.Server.Frames.{body_length, over_zeros}
use box_rtsp.Server.Command.{reply_bytes}

get_or-append :
    (xs ys : List ℕ) (n i : ℕ) → n ≡ length xs + i → get_or (xs ++ ys) n 0 ≡ get_or ys i 0
get_or-append [] ys n i h = ap (λ k. get_or ys k 0) (let e : n ≡ i = omega arith in e)
get_or-append (x ∷ xs) ys zero i h = ground arith
get_or-append (x ∷ xs) ys (suc n) i h = get_or-append xs ys n i (omega arith)

body_length_behind :
    (xs ys : List ℕ)
    → length xs ≡ 8
    → body_length (xs ++ ys)
      ≡ get_or ys 0 0 * 2 ^ 24 + get_or ys 1 0 * 2 ^ 16 + get_or ys 2 0 * 2 ^ 8 + get_or ys 3 0
unfolding body_length
body_length_behind xs ys h = omega (
  arith,
  get_or-append xs ys 8 0 (omega arith),
  get_or-append xs ys 9 1 (omega arith),
  get_or-append xs ys 10 2 (omega arith),
  get_or-append xs ys 11 3 (omega arith),
)

-- A reply announces the ten bytes of its text and is sent with 32 bytes behind its head.
pub reply_bytes_lem :
    (head : List ℕ)
    → length head ≡ cmd_size
    → (body_length (reply_bytes head) ≡ 10) × (length (reply_bytes head) ≡ cmd_size + 32)
unfolding reply_bytes
reply_bytes_lem head h =
    let tail = drop 12 head ++ over_zeros 32 (codes "{\"code\":0}") in
    (
      body_length_behind (take 8 head) ((0 ∷ (0 ∷ (0 ∷ (10 ∷ [])))) ++ tail)
          (length-take 8 head (omega arith)),
      omega (
        arith,
        length-append (take 8 head) ((0 ∷ (0 ∷ (0 ∷ (10 ∷ [])))) ++ tail),
        length-append (drop 12 head) (over_zeros 32 (codes "{\"code\":0}")),
        length-take 8 head (omega arith),
        length-drop 12 head,
      ),
    )
