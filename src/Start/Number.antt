-- ===== src/Start/Number.antt =====
-- src/dev_opt.c, get_sys_sn: which number the serial number is.
use mathlib.Core.Path.{subst}
use box_rtsp.Prelude.{
  ℕ, zero, suc, ◌-◌, ◌^◌, ◌≤◌, ◌<◌, ◌+◌, ◌≡◌, refl, ap, List, [], ◌∷◌, ◌++◌, Option, none, some,
  arith, length, length-take, take, drop,
}
use box_rtsp.Rtsp.Text.{c_string, scan_digits, skip_space}
use box_rtsp.UrlCode.{char_ishex}
use box_rtsp.Rtsp.Chunked.{hex_value}
use box_rtsp.Server.Digest.{int2hex}
use box_rtsp.Server.Device.{digits}
use box_rtsp.Start.Serial.{
  Net, without, ifr_name, get_mac_dev, hex_bytes, print_mac, scan_hex, skip_prefix, strtoull_hex,
  zeros, eth_x, get_sys_sn,
}
use box_rtsp.Start.Digits.{
  AreBytes, big_endian, scan_digits-digits, length-digits, big_endian-lt, strtoull_hex-print,
}

take_all : (n : ℕ) (xs : List ℕ) → length xs ≤ n → take n xs ≡ xs
take_all zero [] h = refl
take_all zero (x ∷ xs) h = ground arith
take_all (suc n) [] h = refl
take_all (suc n) (x ∷ xs) h = ap (λ ys. x ∷ ys) (take_all n xs (omega arith))

take-append : (n : ℕ) (xs ys : List ℕ) → n ≤ length xs → take n (take n xs ++ ys) ≡ take n xs
take-append zero xs ys h = refl
take-append (suc n) [] ys h = ground arith
take-append (suc n) (x ∷ xs) ys h = ap (λ zs. x ∷ zs) (take-append n xs ys (omega arith))

take-AreBytes : (n : ℕ) (xs : List ℕ) → AreBytes xs → AreBytes (take n xs)
take-AreBytes zero xs h = tt
take-AreBytes (suc n) [] h = tt
take-AreBytes (suc n) (x ∷ xs) h = (h.0, take-AreBytes n xs h.1)

-- The first six bytes of the network's address, as a number; 0 where it cannot be read.
abbrev pub box_number : Net → ℕ
box_number net = elim net.socket [
  | none ↦ 0
  | some sock ↦ elim (net.hwaddr sock eth_x) [
    | none ↦ 0
    | some sa_data ↦ big_endian 0 (take 6 sa_data)
  ]
]

-- What `ioctl` writes is an array of bytes of which at least six are the address.
pub record IsNet (net : Net) : Type 0 where
  pub long : (s : ℕ) (sa : List ℕ) → net.hwaddr s eth_x ≡ some sa → 6 ≤ length sa
  pub bytes : (s : ℕ) (sa : List ℕ) → net.hwaddr s eth_x ≡ some sa → AreBytes sa

without-head : (fd : ℕ) (fds : List ℕ) → without fd (fd ∷ fds) ≡ fds
unfolding without
without-head fd fds = ground arith

six_bytes : (sa : List ℕ) → 6 ≤ length sa → AreBytes sa → big_endian 0 (take 6 sa) < 2 ^ 48
six_bytes sa l b =
    let e = length-take 6 sa l in
    subst (λ n. big_endian 0 (take 6 sa) < 256 ^ (0 + n)) e
      (big_endian-lt 0 0 (take 6 sa) (omega arith) (take-AreBytes 6 sa b))

print_mac-read :
    (sa rest : List ℕ)
    → 6 ≤ length sa
    → AreBytes sa
    → strtoull_hex (print_mac (take 6 sa ++ rest)) ≡ big_endian 0 (take 6 sa)
unfolding print_mac
print_mac-read sa rest l b = rw (take-append 6 sa rest l) (
    strtoull_hex-print (take 6 sa) (omega (arith, length-take 6 sa l)) (take-AreBytes 6 sa b)
      (omega (arith, six_bytes sa l b)))

-- What the bytes that get_mac_dev leaves are worth, and which descriptors are open behind it.
abbrev IsRead : Net → List ℕ → Type 0
IsRead net fds =
    let m = get_mac_dev net fds (zeros 32) eth_x in
    (strtoull_hex (print_mac m.mac) ≡ box_number net)
    × (box_number net < 2 ^ 48)
    × (m.descriptors ≡ fds)

zeros-read : strtoull_hex (print_mac (zeros 32)) ≡ 0
unfolding strtoull_hex print_mac hex_bytes scan_hex skip_prefix skip_space char_ishex int2hex
    hex_value
zeros-read = refl

ifr_name-eth_x : ifr_name eth_x ≡ eth_x
unfolding ifr_name c_string
ifr_name-eth_x = refl

get_mac_dev-IsRead : (net : Net) → IsNet net → (fds : List ℕ) → IsRead net fds
unfolding get_mac_dev strtoull_hex
get_mac_dev-IsRead net w fds = by_socket net.socket refl
  where
    by_answer :
        (s : ℕ) (o : Option (List ℕ))
        → net.socket ≡ some s
        → net.hwaddr s eth_x ≡ o
        → IsRead net fds
    by_answer s none x y =
        rw (get_mac_dev, box_number, x, ifr_name-eth_x, y)
          (zeros-read, omega arith, without-head s fds)
    by_answer s (some sa) x y =
        rw (get_mac_dev, box_number, x, ifr_name-eth_x, y)
          (
            print_mac-read sa (drop 6 (zeros 32)) (w.long s sa y) (w.bytes s sa y),
            six_bytes sa (w.long s sa y) (w.bytes s sa y),
            without-head s fds,
          )

    by_socket : (o : Option ℕ) → net.socket ≡ o → IsRead net fds
    by_socket none x = rw (get_mac_dev, box_number, x) (zeros-read, omega arith, refl)
    by_socket (some s) x = by_answer s (net.hwaddr s eth_x) x refl

-- The serial number is the network's address, read as one number and written in decimal, or 0 where
-- the address cannot be read: from any array that it fits, the digits give the number back. It has 15
-- digits at most, and every descriptor that was opened is closed.
pub get_sys_sn-box_number :
    (net : Net) (fds : List ℕ) (sn_size : ℕ)
    → IsNet net
    → 16 ≤ sn_size
    → let r = get_sys_sn net fds sn_size in
      (scan_digits 0 r.sn ≡ (box_number net, [])) × (length r.sn ≤ 15) × (r.descriptors ≡ fds)
unfolding get_sys_sn scan_digits
get_sys_sn-box_number net fds sn_size w h =
    let (e, b, d) = get_mac_dev-IsRead net w fds in
    let l = length-digits 14 19 (box_number net) [] (omega (arith, b)) (omega arith) in
    let a = take_all (sn_size - 1) (digits 20 (box_number net) []) (omega (arith, l)) in
    rw (e, a) (scan_digits-digits 19 (box_number net) [] (omega (arith, b)), l, d)
