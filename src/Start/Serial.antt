-- ===== src/Start/Serial.antt =====
-- src/dev_opt.c: get_mac_dev and get_sys_sn, the box's serial number.
use box_rtsp.Prelude.{
  ℕ, zero, suc, ◌+◌, ◌-◌, ◌*◌, ◌/◌, ◌%◌, ◌^◌, List, [], ◌∷◌, ◌++◌, Option, none, some, leb, ◌==◌,
  ◌&&◌, ◌||◌, if◌then◌else◌, take, drop, ℤ, pos, negsuc,
}
use box_rtsp.UrlCode.{char_ishex}
use box_rtsp.Rtsp.Text.{c_string, skip_space}
use box_rtsp.Rtsp.Headers.{codes}
use box_rtsp.Rtsp.Chunked.{hex_value}
use box_rtsp.Server.Device.{digits, snprintf}
use box_rtsp.Server.Digest.{int2hex}

-- What the system answers: the descriptor that `socket` gives, none for -1, and the bytes of
-- `ifr_hwaddr.sa_data` that `ioctl` with SIOCGIFHWADDR writes for a name, none for a negative result.
pub record Net : Type 0 where
  pub socket : Option ℕ
  pub hwaddr : ℕ → List ℕ → Option (List ℕ)

-- What is left of what the process holds when `a` is given back.
unfoldable pub without : ℕ → List ℕ → List ℕ
without a [] = []
without a (x ∷ xs) = let rest = without a xs in if a == x then xs else x ∷ rest

-- What get_mac_dev leaves: its result, the 32 bytes of the array, the descriptors that are open.
pub record MacRead : Type 0 where
  pub ret : ℤ
  pub mac : List ℕ
  pub descriptors : List ℕ

-- `strncpy(tmp.ifr_name, dev, sizeof(tmp.ifr_name) - 1)`, into an array of 16 zeros.
unfoldable pub ifr_name : List ℕ → List ℕ
ifr_name dev = take 15 (c_string dev)

unfoldable pub get_mac_dev : Net → List ℕ → List ℕ → List ℕ → MacRead
unfolding without ifr_name
get_mac_dev net fds mac_sn dev = elim net.socket [
  | none ↦ record { ret = negsuc 0; mac = mac_sn; descriptors = fds }
  | some sock_mac ↦
      let closed = without sock_mac (sock_mac ∷ fds) in
      elim (net.hwaddr sock_mac (ifr_name dev)) [
        | none ↦ record { ret = negsuc 0; mac = mac_sn; descriptors = closed }
        | some sa_data ↦ record {
          ret = pos 0;
          mac = take 6 sa_data ++ drop 6 mac_sn;
          descriptors = closed;
        }
      ]
]

-- `%02x` of `(HB_U8) c`
unfoldable pub hex_byte : ℕ → List ℕ
hex_byte c = int2hex (c % 256 / 16) ∷ int2hex (c % 256) ∷ []

unfoldable pub hex_bytes : List ℕ → List ℕ
unfolding hex_byte
hex_bytes [] = []
hex_bytes (c ∷ cs) = hex_byte c ++ hex_bytes cs

-- `sprintf(sn_mac, "0x%02x%02x%02x%02x%02x%02x", …)` of the first six bytes
unfoldable pub print_mac : List ℕ → List ℕ
unfolding hex_bytes
print_mac mac = codes "0x" ++ hex_bytes (take 6 mac)

-- The value of the hexadecimal digits in front.
unfoldable pub scan_hex : ℕ → List ℕ → ℕ
scan_hex acc [] = acc
scan_hex acc (c ∷ cs) = elim (hex_value c) [ none ↦ acc | some d ↦ scan_hex (acc * 16 + d) cs ]

-- `0x` in front of a digit.
unfoldable pub skip_prefix : List ℕ → List ℕ
skip_prefix (z ∷ (x ∷ (c ∷ cs))) =
    if z == b'0' && (x == b'x' || x == b'X') && char_ishex c then c ∷ cs else z ∷ (x ∷ (c ∷ cs))
skip_prefix s = s

-- `strtoull(s, 0, 16)` of a text without a sign; it stops at ULLONG_MAX.
unfoldable pub strtoull_hex : List ℕ → ℕ
unfolding scan_hex skip_prefix
strtoull_hex s =
    let n = scan_hex 0 (skip_prefix (skip_space s)) in if leb (2 ^ 64) n then 2 ^ 64 - 1 else n

-- What get_sys_sn leaves: its result, the text of `sn` up to its NUL, the descriptors that are open.
pub record SysSn : Type 0 where
  pub ret : ℤ
  pub sn : List ℕ
  pub descriptors : List ℕ

abbrev pub zeros : ℕ → List ℕ
zeros zero = []
zeros (suc n) = 0 ∷ zeros n

-- `ETH_X`
abbrev pub eth_x : List ℕ
eth_x = codes "eth0"

-- 20 digits are enough for `%llu`.
unfoldable pub get_sys_sn : Net → List ℕ → ℕ → SysSn
unfolding get_mac_dev print_mac strtoull_hex
get_sys_sn net fds sn_size =
    let m = get_mac_dev net fds (zeros 32) eth_x in
    let sn_num = strtoull_hex (print_mac m.mac) in
    record { ret = pos 0; sn = snprintf sn_size (digits 20 sn_num []); descriptors = m.descriptors }
