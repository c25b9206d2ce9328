-- ===== src/UrlCode/Bounds.antt =====
-- src/common/url_code.c: how much of the target the coders write.
use box_rtsp.Prelude.{
  ℕ, zero, suc, ◌+◌, ◌≤◌, ◌<◌, ◌≡◌, inl, inr, true, false, ◌&&◌, List, [], ◌∷◌, ◌++◌, arith, ◌==◌,
  if◌then◌else◌, Bool-cases, length, length-append, ℤ, pos, negsuc,
}
use box_rtsp.UrlCode.{
  goes_on, terminate, encode_byte, lacks_room, encode_loop, url_encode, bad_escape, decode_byte,
  decode_loop, url_decode,
}

length-terminate :
    (r : ℤ) (tgt_bytes : ℕ) (out : List ℕ)
    → length out ≤ tgt_bytes
    → length (terminate r tgt_bytes out).target ≤ tgt_bytes
unfolding terminate
length-terminate r tgt_bytes out h = ground (arith, length-append out (0 ∷ []))

goes_on-lt : (sb : ℤ) (tb c k i : ℕ) → goes_on sb tb c k i ≡ true → i < tb
unfolding goes_on
goes_on-lt sb tb c k i h = ground arith

encode_byte-fits :
    (tb c i : ℕ) → i < tb → lacks_room tb c i ≡ false → i + length (encode_byte c) ≤ tb
unfolding lacks_room encode_byte
encode_byte-fits tb c i h room = ground arith

encode_loop-le :
    (sb : ℤ) (tb : ℕ) (s : List ℕ) (k : ℕ) (out : List ℕ)
    → length out ≤ tb
    → length (encode_loop sb tb s k out).target ≤ tb
unfolding encode_loop
encode_loop-le sb tb [] k out h = length-terminate (pos 0) tb out h
encode_loop-le sb tb (c ∷ cs) k out h = elim (Bool-cases (goes_on sb tb c k (length out))) [
  | inr stop ↦ rw stop (length-terminate (pos 0) tb out h)
  | inl go ↦ elim (Bool-cases (lacks_room tb c (length out))) [
    | inl full ↦ rw (go, full) (length-terminate (negsuc 0) tb out h)
    | inr room ↦
        rw (go, room)
          (encode_loop-le sb tb cs (k + 1) (out ++ encode_byte c) (
            omega (
              arith,
              length-append out (encode_byte c),
              encode_byte-fits tb c (length out) (goes_on-lt sb tb c k (length out) go) room,
            )))
  ]
]

url_encode-le :
    (source : List ℕ) (src_bytes : ℤ) (tgt_bytes : ℕ)
    → length (url_encode source src_bytes tgt_bytes).target ≤ tgt_bytes
unfolding url_encode
url_encode-le source src_bytes tgt_bytes =
    encode_loop-le src_bytes tgt_bytes source 0 [] (omega arith)

decode_loop-le :
    (skip : ℕ) (sb : ℤ) (tb : ℕ) (s : List ℕ) (k : ℕ) (out : List ℕ)
    → length out ≤ tb
    → length (decode_loop skip sb tb s k out).target ≤ tb
unfolding decode_loop
decode_loop-le skip sb tb [] k out h = length-terminate (pos 0) tb out h
decode_loop-le (suc skip) sb tb (c ∷ cs) k out h = decode_loop-le skip sb tb cs (k + 1) out h
decode_loop-le zero sb tb (c ∷ cs) k out h = elim (Bool-cases (goes_on sb tb c k (length out))) [
  | inr stop ↦ rw stop (length-terminate (pos 0) tb out h)
  | inl go ↦ elim (Bool-cases (c == b'%' && bad_escape sb cs k)) [
    | inl bad ↦ rw (go, bad) (length-terminate (negsuc 0) tb out h)
    | inr good ↦
        rw (go, good)
          (decode_loop-le (if c == b'%' then 2 else 0) sb tb cs (k + 1)
            (out ++ decode_byte c cs ∷ [])
            (omega (
              arith,
              length-append out (decode_byte c cs ∷ []),
              goes_on-lt sb tb c k (length out) go,
            )))
  ]
]

-- The target is a terminated string of at most `n` bytes and the NUL.
pub record IsText (n : ℕ) (target : List ℕ) : Type 0 where
  pub body : List ℕ
  pub ends : target ≡ body ++ (0 ∷ [])
  pub short : length body ≤ n

terminate-IsText :
    (r : ℤ) (tb : ℕ) (out : List ℕ) (n : ℕ)
    → length out < tb
    → length out ≤ n
    → IsText n (terminate r tb out).target
unfolding terminate
terminate-IsText r tb out n h l = record { body = out; ends = ground arith; short = l }

decode_loop-IsText :
    (skip : ℕ) (sb : ℤ) (tb : ℕ) (s : List ℕ) (k : ℕ) (out : List ℕ) (n : ℕ)
    → n < tb
    → length out + length s ≤ n
    → IsText n (decode_loop skip sb tb s k out).target
unfolding decode_loop
decode_loop-IsText skip sb tb [] k out n h l =
    terminate-IsText (pos 0) tb out n (omega arith) (omega arith)
decode_loop-IsText (suc skip) sb tb (c ∷ cs) k out n h l =
    decode_loop-IsText skip sb tb cs (k + 1) out n h (omega arith)
decode_loop-IsText zero sb tb (c ∷ cs) k out n h l =
    elim (Bool-cases (goes_on sb tb c k (length out))) [
      | inr stop ↦ rw stop (terminate-IsText (pos 0) tb out n (omega arith) (omega arith))
      | inl go ↦ elim (Bool-cases (c == b'%' && bad_escape sb cs k)) [
        | inl bad ↦ rw (go, bad) (terminate-IsText (negsuc 0) tb out n (omega arith) (omega arith))
        | inr good ↦
            rw (go, good)
              (decode_loop-IsText (if c == b'%' then 2 else 0) sb tb cs (k + 1)
                (out ++ decode_byte c cs ∷ []) n h
                (omega (arith, length-append out (decode_byte c cs ∷ []))))
      ]
    ]

url_decode-le :
    (source : List ℕ) (src_bytes : ℤ) (tgt_bytes : ℕ)
    → length (url_decode source src_bytes tgt_bytes).target ≤ tgt_bytes
unfolding url_decode
url_decode-le source sb tb = decode_loop-le 0 sb tb source 0 [] (omega arith)

-- Neither the encoder nor the decoder writes a byte at or behind `target + tgtBytes`, on any input,
-- whether they succeed or refuse.
pub url_code-le :
    (source : List ℕ) (src_bytes : ℤ) (tgt_bytes : ℕ)
    → (length (url_encode source src_bytes tgt_bytes).target ≤ tgt_bytes)
      × (length (url_decode source src_bytes tgt_bytes).target ≤ tgt_bytes)
url_code-le source src_bytes tgt_bytes =
    (url_encode-le source src_bytes tgt_bytes, url_decode-le source src_bytes tgt_bytes)

-- Where the source is shorter than the target, the decoder leaves a terminated string that is no
-- longer than the source, also when it refuses an escape.
pub url_decode-IsText :
    (source : List ℕ) (src_bytes : ℤ) (tgt_bytes : ℕ)
    → length source < tgt_bytes
    → IsText (length source) (url_decode source src_bytes tgt_bytes).target
unfolding url_decode
url_decode-IsText source sb tb h =
    decode_loop-IsText 0 sb tb source 0 [] (length source) h (omega arith)
