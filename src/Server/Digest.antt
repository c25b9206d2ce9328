-- ===== src/Server/Digest.antt =====
-- src/dev_opt.c: get_realm_and_nonce and get_response; src/common/md5gen.c: md5_packages_string.
use box_rtsp.Prelude.{ℕ, ◌/◌, ◌%◌, List, [], ◌∷◌, ◌++◌, Option, none, some, get_or, ℤ, pos, negsuc}
use box_rtsp.Rtsp.Exec.{Halt, Exec, ok, halt, ◌>>=◌}
use box_rtsp.Rtsp.Headers.{codes}
use box_rtsp.Server.Sdp.{strstr, before}
use box_rtsp.Server.Device.{Device, copy_column, chosen_url, snprintf}

-- `hex_chars`
abbrev pub hex_chars : List ℕ
hex_chars = codes "0123456789abcdef"

-- int2hex
unfoldable pub int2hex : ℕ → ℕ
int2hex c = get_or hex_chars (c % 16) 0

-- CvtHex
unfoldable pub cvt_hex : List ℕ → List ℕ
cvt_hex [] = []
cvt_hex (b ∷ bs) = int2hex (b / 16) ∷ (int2hex b ∷ cvt_hex bs)

-- The members `realm` and `nonce` of `DEV_LIST_OBJ`.
pub record Challenge : Type 0 where
  pub realm : List ℕ
  pub nonce : List ℕ

-- The text from the first byte behind a quotation mark to the next mark that is not this byte. The
-- second mark is looked for from the second byte on.
unfoldable pub quoted : Option (List ℕ) → Exec (List ℕ)
quoted (some (mark ∷ (c ∷ rest))) = elim (before rest (codes "\"")) [
  | none ↦ halt Halt.faults
  | some s ↦ ok (c ∷ s)
]
quoted _ = halt Halt.faults

-- `start_pos = strchr(start_pos, '"')`, the end of the text, and the copy.
unfoldable pub copy_quoted : ℕ → List ℕ → List ℕ → Exec (List ℕ)
copy_quoted size old start =
    quoted (strstr start (codes "\"")) >>= λ s. copy_column size old (some s)

unfoldable pub get_nonce : Challenge → Option (List ℕ) → Exec (ℤ × Challenge)
get_nonce c none = ok (pos 0, c)
get_nonce c (some start) = copy_quoted 128 c.nonce start >>= λ s. ok (pos 0, record c { nonce = s })

unfoldable pub get_realm_and_nonce : List ℕ → Challenge → Exec (ℤ × Challenge)
get_realm_and_nonce msg c = elim (strstr msg (codes "realm")) [
  | none ↦ ok (negsuc 0, c)
  | some start ↦ copy_quoted 64 c.realm start >>= λ s.
      get_nonce (record c { realm = s }) (strstr msg (codes "nonce"))
]

-- The sum of MD5 is a parameter: MD5Init, MD5Update and MD5Final.
module _ (md5 : List ℕ → List ℕ) where
  unfoldable pub md5_packages_string : List ℕ → List ℕ
  md5_packages_string s = cvt_hex (md5 s)

  unfoldable pub get_response : List ℕ → Device → Challenge → List ℕ
  get_response method d c =
      let part1 =
        md5_packages_string
          (snprintf 512 (d.user_name ++ (58 ∷ (c.realm ++ (58 ∷ d.user_passwd))))) in
      let part3 = md5_packages_string (snprintf 512 (method ++ (58 ∷ chosen_url d))) in
      md5_packages_string (snprintf 512 (part1 ++ (58 ∷ (c.nonce ++ (58 ∷ part3)))))
