-- ===== src/UrlCode.antt =====
-- src/common/url_code.c: percent coding of device ids. `Bounds` has the bounds of the writes and
-- `RoundTrip` the inverse.
--
-- A source is the list of the bytes in front of its terminating NUL; a byte 0 inside the list ends
-- it as well. `k` is `p - source`. The target is the list of bytes written so far, so `i` is its
-- length at the loop head. `srcBytes` is an `int` whose -1 means "up to the NUL"; `tgtBytes` is
-- taken as not negative (a negative one behaves as 0: nothing is written).
pub mod Bounds
pub mod RoundTrip
use Prim.Native.Nat.{bit_or}
use box_rtsp.Prelude.{
  ℕ, zero, suc, ◌+◌, ◌-◌, ◌*◌, ◌/◌, ◌%◌, ◌≡◌, Bool, true, false, not, ◌&&◌, ◌||◌, List, [], ◌∷◌,
  ◌++◌, ltb, leb, within, ◌==◌, if◌then◌else◌, length, get_or, ℤ, pos, negsuc,
}

-- What a call leaves: its result, and the bytes of the target that it has written.
pub record Coded : Type 0 where
  pub ret : ℤ
  pub target : List ℕ

unfoldable pub char_isnum : ℕ → Bool
char_isnum c = within b'0' b'9' c

unfoldable pub char_isalpha : ℕ → Bool
char_isalpha c = within b'a' b'z' c || within b'A' b'Z' c

unfoldable pub char_isalnum : ℕ → Bool
unfolding char_isnum char_isalpha
char_isalnum c = char_isnum c || char_isalpha c

unfoldable pub char_ishex : ℕ → Bool
unfolding char_isnum
char_ishex c = char_isnum c || within b'a' b'f' c || within b'A' b'F' c

-- `tolower` of the C locale
unfoldable pub tolower : ℕ → ℕ
tolower c = if within b'A' b'Z' c then c + 32 else c

-- The cast to `char` keeps 8 bits; the difference is negative for a byte below `'a' - 10`.
unfoldable pub to_hex : ℕ → ℕ
unfolding char_isnum tolower
to_hex c = if char_isnum c then c - b'0' else (tolower c + 256 + 10 - b'a') % 256

-- `s_encode`
abbrev pub s_encode : List ℕ
s_encode =
    b'0' ∷ b'1' ∷ b'2' ∷ b'3' ∷ b'4' ∷ b'5' ∷ b'6' ∷ b'7' ∷ b'8' ∷ b'9' ∷ b'A' ∷ b'B' ∷ b'C' ∷ b'D'
    ∷ b'E' ∷ b'F' ∷ []

-- The bytes that are copied as they are.
unfoldable pub is_plain : ℕ → Bool
unfolding char_isalnum
is_plain c = char_isalnum c || c == b'-' || c == b'_' || c == b'.' || c == b'~'

-- `-1==srcBytes || p<source+srcBytes`
unfoldable pub in_source : ℤ → ℕ → Bool
in_source (pos n) k = ltb k n
in_source (negsuc n) k = n == 0

-- The loop's condition, on the byte `c` at `p`.
unfoldable pub goes_on : ℤ → ℕ → ℕ → ℕ → ℕ → Bool
unfolding in_source
goes_on src_bytes tgt_bytes c k i = not (c == 0) && in_source src_bytes k && ltb i tgt_bytes

-- `if(i < tgtBytes) target[i] = '\0'; return r`
unfoldable pub terminate : ℤ → ℕ → List ℕ → Coded
terminate r tgt_bytes out = record {
  ret = r;
  target = if ltb (length out) tgt_bytes then out ++ (0 ∷ []) else out;
}

-- What one turn of the encoder writes for `c`.
unfoldable pub encode_byte : ℕ → List ℕ
encode_byte c =
    if is_plain c
    then c ∷ []
    else if c == b' '
    then b'+' ∷ []
    else b'%' ∷ get_or s_encode ((c / 16) % 16) 0 ∷ get_or s_encode (c % 16) 0 ∷ []

-- The byte is escaped and the three bytes have no room.
unfoldable pub lacks_room : ℕ → ℕ → ℕ → Bool
lacks_room tgt_bytes c i = not (is_plain c) && not (c == b' ') && leb tgt_bytes (i + 2)

pub encode_loop : ℤ → ℕ → List ℕ → ℕ → List ℕ → Coded
encode_loop src_bytes tgt_bytes [] k out = terminate (pos 0) tgt_bytes out
encode_loop src_bytes tgt_bytes (c ∷ cs) k out =
    let rest = encode_loop src_bytes tgt_bytes cs (k + 1) (out ++ encode_byte c) in
    if not (goes_on src_bytes tgt_bytes c k (length out))
    then terminate (pos 0) tgt_bytes out
    else if lacks_room tgt_bytes c (length out)
    then terminate (negsuc 0) tgt_bytes out
    else rest

unfoldable pub url_encode : List ℕ → ℤ → ℕ → Coded
unfolding encode_loop goes_on terminate encode_byte lacks_room is_plain
url_encode source src_bytes tgt_bytes = encode_loop src_bytes tgt_bytes source 0 []

-- `!char_ishex(p[1]) || !char_ishex(p[2]) || (-1!=srcBytes && p+2>=source+srcBytes)`, on the bytes
-- behind `p`; behind the list stands the NUL.
unfoldable pub bad_escape : ℤ → List ℕ → ℕ → Bool
bad_escape src_bytes cs k =
    not (char_ishex (get_or cs 0 0))
    || not (char_ishex (get_or cs 1 0))
    || not (in_source src_bytes (k + 2))

-- The byte that one turn of the decoder writes.
unfoldable pub decode_byte : ℕ → List ℕ → ℕ
decode_byte c cs =
    if c == b'+'
    then b' '
    else if c == b'%'
    then bit_or (to_hex (get_or cs 0 0) * 16) (to_hex (get_or cs 1 0)) % 256
    else c

-- The first argument counts the bytes that `p += 2` has passed over and that are still in the list.
pub decode_loop : ℕ → ℤ → ℕ → List ℕ → ℕ → List ℕ → Coded
decode_loop skip src_bytes tgt_bytes [] k out = terminate (pos 0) tgt_bytes out
decode_loop (suc skip) src_bytes tgt_bytes (c ∷ cs) k out =
    decode_loop skip src_bytes tgt_bytes cs (k + 1) out
decode_loop zero src_bytes tgt_bytes (c ∷ cs) k out =
    let skip = if c == b'%' then 2 else 0 in
    let rest = decode_loop skip src_bytes tgt_bytes cs (k + 1) (out ++ decode_byte c cs ∷ []) in
    if not (goes_on src_bytes tgt_bytes c k (length out))
    then terminate (pos 0) tgt_bytes out
    else if c == b'%' && bad_escape src_bytes cs k
    then terminate (negsuc 0) tgt_bytes out
    else rest

unfoldable pub url_decode : List ℕ → ℤ → ℕ → Coded
unfolding decode_loop goes_on terminate decode_byte bad_escape to_hex char_ishex in_source
url_decode source src_bytes tgt_bytes = decode_loop 0 src_bytes tgt_bytes source 0 []
