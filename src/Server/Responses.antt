-- ===== src/Server/Responses.antt =====
-- src/dev_opt.c, get_response: the response of the digest authentication.
use box_rtsp.Prelude.{
  ℕ, zero, suc, ◌+◌, ◌*◌, ◌/◌, ◌%◌, ◌-◌, ◌≤◌, ◌<◌, ◌≡◌, ◌==◌, refl, ap, Bool, true, false,
  Bool-cases, inl, inr, List, [], ◌∷◌, ◌++◌, Option, none, some, arith, ltb, length, length-append,
  take, get_or, if◌then◌else◌, ℤ, pos, negsuc,
}
use box_rtsp.Prelude.Int.{eq_int}
use box_rtsp.Server.Device.{Device, chosen_url}
use box_rtsp.Server.Digest.{
  int2hex, cvt_hex, hex_chars, Challenge, md5_packages_string, get_response,
}
use box_rtsp.Start.Digits.{AreBytes, all_below→, ==→≡}

take_short : (n : ℕ) (xs : List ℕ) → length xs ≤ n → take n xs ≡ xs
take_short zero [] h = refl
take_short zero (x ∷ xs) h = ground arith
take_short (suc n) [] h = refl
take_short (suc n) (x ∷ xs) h = ap (◌∷◌ x) (take_short n xs (omega arith))

length-cvt_hex : (bs : List ℕ) → length (cvt_hex bs) ≡ 2 * length bs
unfolding cvt_hex
length-cvt_hex [] = refl
length-cvt_hex (b ∷ bs) = omega (arith, length-cvt_hex bs)

-- RFC 2617, 3.2.3: LHEX, the value of a digit, and the bytes that a text of such digits writes.
abbrev pub lhex : ℕ → Option ℕ
lhex c =
    if ltb c 48
    then none
    else if ltb c 58
    then some (c - 48)
    else if ltb c 97
    then none
    else if ltb c 103
    then some (c - 87)
    else none

abbrev pub byte : Option ℕ → Option ℕ → Option (List ℕ) → Option (List ℕ)
byte (some high) (some low) (some rest) = some ((high * 16 + low) ∷ rest)
byte _ _ _ = none

abbrev pub from_lhex : List ℕ → Option (List ℕ)
from_lhex [] = some []
from_lhex (c ∷ []) = none
from_lhex (c ∷ (e ∷ cs)) = let rest = from_lhex cs in byte (lhex c) (lhex e) rest

-- The text `h` writes the hash of `s`.
abbrev pub IsDigest : (List ℕ → List ℕ) → List ℕ → List ℕ → Type 0
IsDigest md5 s h = from_lhex h ≡ some (md5 s)

abbrev is_digit : Option ℕ → ℕ → Bool
is_digit none d = false
is_digit (some v) d = v == d

is_digit→ : (o : Option ℕ) (d : ℕ) → is_digit o d ≡ true → o ≡ some d
is_digit→ none d h = ground arith
is_digit→ (some v) d h = ap some (==→≡ v d h)

all_digits : (d : ℕ) → d < 16 → is_digit (lhex (get_or hex_chars d 0)) d ≡ true
all_digits = all_below→ (λ d. is_digit (lhex (get_or hex_chars d 0)) d) 16 refl

lhex-int2hex : (c : ℕ) → lhex (int2hex c) ≡ some (c % 16)
unfolding int2hex
lhex-int2hex c =
    is_digit→ (lhex (get_or hex_chars (c % 16) 0)) (c % 16) (all_digits (c % 16) (omega arith))

from_lhex-cvt_hex : (bs : List ℕ) → AreBytes bs → from_lhex (cvt_hex bs) ≡ some bs
unfolding cvt_hex
from_lhex-cvt_hex [] h = refl
from_lhex-cvt_hex (b ∷ bs) h =
    let g : b / 16 % 16 * 16 + b % 16 ≡ b = omega arith in
    rw (lhex-int2hex (b / 16), lhex-int2hex b, from_lhex-cvt_hex bs h.1) (ap (λ n. some (n ∷ bs)) g)

-- The URL of the camera that is asked for: of the main stream, or of the other where it has one.
pub data IsAsked (d : Device) : List ℕ → Type 0 where
  main_stream : d.stream_type ≡ pos 0 → IsAsked d d.main_url
  no_sub_stream : d.sub_url ≡ [] → IsAsked d d.main_url
  sub_stream : ¬ (d.stream_type ≡ pos 0) → 0 < length d.sub_url → IsAsked d d.sub_url

eq_int-pos : (n : ℤ) → ¬ (n ≡ pos 0) → eq_int n (pos 0) ≡ false
eq_int-pos (pos n) h = elim (Bool-cases (n == 0)) [
  | inl q ↦ elim (h (ap pos (==→≡ n 0 q))) [ ]
  | inr q ↦ q
]
eq_int-pos (negsuc n) h = refl

chosen_url-IsAsked : (d : Device) (uri : List ℕ) → IsAsked d uri → chosen_url d ≡ uri
unfolding chosen_url
chosen_url-IsAsked d _ (main_stream e) = rw e refl
chosen_url-IsAsked d _ (no_sub_stream e) = elim (Bool-cases (eq_int d.stream_type (pos 0))) [
  | inl q ↦ rw q refl
  | inr q ↦ rw (q, e) refl
]
chosen_url-IsAsked d _ (sub_stream n h) =
    let z : (length d.sub_url == 0) ≡ false = ground arith in
    rw (eq_int-pos d.stream_type n, z) refl

-- Where the hash gives 16 bytes, and the texts fit the buffer of 512 bytes, the response is that of RFC
-- 2617, 3.2.2, without a quality of protection: it writes, in two digits of LHEX for each byte, the
-- high half first, the hash of H1:nonce:H2, where H1 writes the hash of user:realm:password and H2 that
-- of method:URL, for the URL that is asked for.
pub get_response_lem :
    (md5 : List ℕ → List ℕ) (method uri : List ℕ) (d : Device) (c : Challenge)
    → ((s : List ℕ) → (length (md5 s) ≡ 16) × AreBytes (md5 s))
    → IsAsked d uri
    → length d.user_name + length c.realm + length d.user_passwd < 510
    → length method + length uri < 511
    → length c.nonce < 128
    → (h₁ : List ℕ) × (h₂ : List ℕ) × IsDigest md5
        (d.user_name ++ (58 ∷ (c.realm ++ (58 ∷ d.user_passwd))))
        h₁
      × IsDigest md5 (method ++ (58 ∷ uri)) h₂
      × IsDigest md5 (h₁ ++ (58 ∷ (c.nonce ++ (58 ∷ h₂)))) (get_response md5 method d c)
unfolding get_response md5_packages_string
get_response_lem md5 method uri d c z u a b n =
    let secret = d.user_name ++ (58 ∷ (c.realm ++ (58 ∷ d.user_passwd))) in
    let asked = method ++ (58 ∷ uri) in
    let h₁ = cvt_hex (md5 secret) in
    let h₂ = cvt_hex (md5 asked) in
    let all = h₁ ++ (58 ∷ (c.nonce ++ (58 ∷ h₂))) in
    (
      h₁,
      h₂,
      from_lhex-cvt_hex (md5 secret) (z secret).1,
      from_lhex-cvt_hex (md5 asked) (z asked).1,
      rw
          (
            chosen_url-IsAsked d uri u,
            take_short 511 secret (
                omega (
                  arith,
                  length-append d.user_name (58 ∷ (c.realm ++ (58 ∷ d.user_passwd))),
                  length-append c.realm (58 ∷ d.user_passwd),
                )),
            take_short 511 asked (omega (arith, length-append method (58 ∷ uri))),
            take_short 511 all (
                omega (
                  arith,
                  length-append h₁ (58 ∷ (c.nonce ++ (58 ∷ h₂))),
                  length-append c.nonce (58 ∷ h₂),
                  length-cvt_hex (md5 secret),
                  (z secret).0,
                  length-cvt_hex (md5 asked),
                  (z asked).0,
                )),
          )
          (from_lhex-cvt_hex (md5 all) (z all).1),
    )
