-- ===== src/UrlCode/RoundTrip.antt =====
-- src/common/url_code.c: decoding what was encoded gives the source back.
use Prim.Native.Nat.{bit_or}
use mathlib.Core.List.{append_assoc, append-nil}
use box_rtsp.Prelude.{
  ℕ, zero, suc, ◌+◌, ◌*◌, ◌^◌, ◌/◌, ◌%◌, ◌≤◌, ◌<◌, ◌≡◌, ◌≢◌, refl, ◌∙◌, ◌⊎◌, inl, inr, Bool, true,
  false, ◌&&◌, List, [], ◌∷◌, ◌++◌, arith, ◌==◌, if◌then◌else◌, length, length-append, get_or, ℤ,
  pos, negsuc,
}
use box_rtsp.UrlCode.{
  char_ishex, to_hex, s_encode, is_plain, in_source, goes_on, terminate, encode_byte, lacks_room,
  encode_loop, url_encode, bad_escape, decode_byte, decode_loop, url_decode,
}

-- A byte of a string: not the NUL.
abbrev pub IsByte : ℕ → Type 0
IsByte c = (0 < c) × (c < 256)

abbrev pub AreBytes : List ℕ → Type 0
AreBytes [] = Unit {0}
AreBytes (c ∷ cs) = IsByte c × AreBytes cs

abbrev encoded : List ℕ → List ℕ
encoded [] = []
encoded (c ∷ cs) = encode_byte c ++ encoded cs

length-encode_byte : (c : ℕ) → length (encode_byte c) ≤ 3
unfolding encode_byte
length-encode_byte c = ground arith

byte_goes_on : (tb c k i : ℕ) → 0 < c → i < tb → goes_on (negsuc 0) tb c k i ≡ true
unfolding goes_on
byte_goes_on tb c k i h l = ground arith

has_room : (tb c i : ℕ) → i + 2 < tb → lacks_room tb c i ≡ false
unfolding lacks_room
has_room tb c i h = ground arith

encode_loop-encoded :
    (tb : ℕ) (s : List ℕ) (k : ℕ) (out : List ℕ)
    → AreBytes s
    → length out + 3 * length s < tb
    → encode_loop (negsuc 0) tb s k out
      ≡ record { ret = pos 0; target = (out ++ encoded s) ++ (0 ∷ []) }
unfolding encode_loop
encode_loop-encoded tb [] k out b h = unfold terminate in rw append-nil (ground arith)
encode_loop-encoded tb (c ∷ cs) k out b h =
    rw
      (
        byte_goes_on tb c k (length out) b.0.0 (omega arith),
        has_room tb c (length out) (omega arith),
      )
      (encode_loop-encoded tb cs (k + 1) (out ++ encode_byte c) b.1
          (omega (arith, length-append out (encode_byte c), length-encode_byte c))
        ∙ simp append_assoc)

-- The digits that the encoder writes for `c`, read back.
hex_digit : ℕ → ℕ
hex_digit d = get_or s_encode d 0

escape_reads : ℕ → Bool
escape_reads c =
    char_ishex (hex_digit ((c / 16) % 16))
    && char_ishex (hex_digit (c % 16))
    && (bit_or (to_hex (hex_digit ((c / 16) % 16)) * 16) (to_hex (hex_digit (c % 16))) % 256 == c)

-- Every byte below the limit is read back.
escapes_below : ℕ → Bool
escapes_below zero = true
escapes_below (suc byte) = escape_reads byte && escapes_below byte

escape_reads_below :
    (byte limit : ℕ) → byte < limit → escapes_below limit ≡ true → escape_reads byte ≡ true
unfolding escapes_below
escape_reads_below byte zero h every = ground arith
escape_reads_below byte (suc limit) h every = ground (arith, escape_reads_below byte limit)

escapes_table : escapes_below (2 ^ 8) ≡ true
unfolding escapes_below escape_reads hex_digit char_ishex to_hex
escapes_table = refl

escape_reads_lem : (c : ℕ) → c < 256 → escape_reads c ≡ true
escape_reads_lem c h = escape_reads_below c (2 ^ 8) h escapes_table

escape_facts :
    (c : ℕ)
    → c < 256
    → (char_ishex (hex_digit ((c / 16) % 16)) ≡ true)
      × (char_ishex (hex_digit (c % 16)) ≡ true)
      × (bit_or (to_hex (hex_digit ((c / 16) % 16)) * 16) (to_hex (hex_digit (c % 16))) % 256 ≡ c)
unfolding escape_reads
escape_facts c h = ground (arith, escape_reads_lem c h)

-- The source count reaches to byte `n`, or there is none.
abbrev Reaches : ℤ → ℕ → Type 0
Reaches sb n = (sb ≡ negsuc 0) ⊎ (sb ≡ pos n)

in_source-Reaches : (sb : ℤ) (n k : ℕ) → Reaches sb n → k < n → in_source sb k ≡ true
unfolding in_source
in_source-Reaches sb n k r h = ground arith

goes_on-Reaches :
    (sb : ℤ) (n tb c k i : ℕ) → Reaches sb n → 0 < c → k < n → i < tb → goes_on sb tb c k i ≡ true
unfolding goes_on
goes_on-Reaches sb n tb c k i r p h l = ground (arith, in_source-Reaches sb n k r h)

decode_step :
    (sb : ℤ) (tb c : ℕ) (cs : List ℕ) (k : ℕ) (out : List ℕ)
    → goes_on sb tb c k (length out) ≡ true
    → (c == b'%' && bad_escape sb cs k) ≡ false
    → decode_loop 0 sb tb (c ∷ cs) k out
      ≡ decode_loop (if c == b'%' then 2 else 0) sb tb cs (k + 1) (out ++ decode_byte c cs ∷ [])
unfolding decode_loop
decode_step sb tb c cs k out go good = rw (go, good)

plain_ne : (c : ℕ) → is_plain c ≡ true → (c ≢ b'%') × (c ≢ b'+')
unfolding is_plain
plain_ne c h = ground arith

escape : ℕ → List ℕ
unfolding hex_digit
escape c = b'%' ∷ hex_digit ((c / 16) % 16) ∷ hex_digit (c % 16) ∷ []

-- The three ways in which a byte is written.
encode_byte-cases :
    (c : ℕ)
    → ((is_plain c ≡ true) × (encode_byte c ≡ c ∷ []))
      ⊎ ((c ≡ b' ') × (encode_byte c ≡ b'+' ∷ []))
      ⊎ (encode_byte c ≡ escape c)
unfolding encode_byte escape hex_digit
encode_byte-cases c = ground arith

module _ (sb : ℤ) (n tb : ℕ) (r : Reaches sb n) where
  decode_plain :
      (c : ℕ) (rest : List ℕ) (k : ℕ) (out : List ℕ)
      → 0 < c
      → k + 1 ≤ n
      → length out < tb
      → (c ≢ b'%')
      → (c ≢ b'+')
      → decode_loop 0 sb tb (c ∷ rest) k out ≡ decode_loop 0 sb tb rest (k + 1) (out ++ c ∷ [])
  decode_plain c rest k out p h l ne ne' =
      decode_step sb tb c rest k out (goes_on-Reaches sb n tb c k (length out) r p (omega arith) l)
        (ground arith)
      ∙ unfold decode_byte in ground arith

  decode_space :
      (c : ℕ) (rest : List ℕ) (k : ℕ) (out : List ℕ)
      → c ≡ b' '
      → k + 1 ≤ n
      → length out < tb
      → decode_loop 0 sb tb (b'+' ∷ rest) k out ≡ decode_loop 0 sb tb rest (k + 1) (out ++ c ∷ [])
  decode_space c rest k out e h l =
      decode_step sb tb b'+' rest k out
        (goes_on-Reaches sb n tb b'+' k (length out) r (omega arith) (omega arith) l) refl
      ∙ unfold decode_byte in ground arith

  decode_escape :
      (c : ℕ) (rest : List ℕ) (k : ℕ) (out : List ℕ)
      → c < 256
      → k + 2 < n
      → length out < tb
      → decode_loop 0 sb tb (escape c ++ rest) k out
        ≡ decode_loop 0 sb tb rest (k + 3) (out ++ c ∷ [])
  unfolding escape
  decode_escape c rest k out b h l =
      decode_step sb tb b'%' (hex_digit ((c / 16) % 16) ∷ hex_digit (c % 16) ∷ rest) k out
        (goes_on-Reaches sb n tb b'%' k (length out) r (omega arith) (omega arith) l)
        (unfold bad_escape in ground (arith, escape_facts c b, in_source-Reaches sb n (k + 2) r h))
      ∙ unfold decode_loop decode_byte in ground (arith, escape_facts c b)

  decode_encoded_byte :
      (c : ℕ) (rest : List ℕ) (k : ℕ) (out : List ℕ)
      → IsByte c
      → k + length (encode_byte c) ≤ n
      → length out < tb
      → decode_loop 0 sb tb (encode_byte c ++ rest) k out
        ≡ decode_loop 0 sb tb rest (k + length (encode_byte c)) (out ++ c ∷ [])
  decode_encoded_byte c rest k out b h l = elim (encode_byte-cases c) [
    | inl (plain, e) ↦
        let ne = plain_ne c plain in rw e (decode_plain c rest k out b.0 (rw e at h) l ne.0 ne.1)
    | inr (inl (e, e')) ↦ rw e' (decode_space c rest k out e (rw e' at h) l)
    | inr (inr e) ↦ rw e (
        decode_escape c rest k out b.1 (unfold escape in (omega (arith, rw e at h))) l
        ∙ unfold escape in refl)
  ]

  decode_loop-encoded :
      (s : List ℕ) (k : ℕ) (out : List ℕ)
      → AreBytes s
      → k + length (encoded s) ≤ n
      → length out + length s < tb
      → decode_loop 0 sb tb (encoded s) k out
        ≡ record { ret = pos 0; target = (out ++ s) ++ (0 ∷ []) }
  decode_loop-encoded [] k out b h l = unfold decode_loop terminate in rw append-nil (ground arith)
  decode_loop-encoded (c ∷ cs) k out b h l =
      decode_encoded_byte c (encoded cs) k out b.0
        (omega (arith, length-append (encode_byte c) (encoded cs))) (omega arith)
      ∙ decode_loop-encoded cs (k + length (encode_byte c)) (out ++ c ∷ []) b.1
          (omega (arith, length-append (encode_byte c) (encoded cs)))
          (omega (arith, length-append out (c ∷ [])))
      ∙ simp append_assoc

-- A string of bytes other than NUL, given without a count and with a target of more than three times
-- its length, is encoded with result 0 into a terminated text; the decoder, given that text with no count or with its
-- exact length and a target longer than the string, answers 0 and leaves the string, terminated.
pub url_decode-url_encode :
    (source : List ℕ) (enc_bytes dec_bytes : ℕ) (src_bytes : ℤ)
    → AreBytes source
    → 3 * length source < enc_bytes
    → length source < dec_bytes
    → Reaches src_bytes (length (encoded source))
    → (url_encode source (negsuc 0) enc_bytes
        ≡ record { ret = pos 0; target = encoded source ++ (0 ∷ []) })
      × (url_decode (encoded source) src_bytes dec_bytes
          ≡ record { ret = pos 0; target = source ++ (0 ∷ []) })
unfolding url_encode url_decode
url_decode-url_encode source enc_bytes dec_bytes src_bytes b he hd r = (
  encode_loop-encoded enc_bytes source 0 [] b (omega arith),
  decode_loop-encoded src_bytes (length (encoded source)) dec_bytes r source 0 [] b (omega arith)
      (omega arith),
)
