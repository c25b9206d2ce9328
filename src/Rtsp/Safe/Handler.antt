-- ===== src/Rtsp/Safe/Handler.antt =====
-- src/common/rtsp-parser.c: rtsp_header_handler writes one byte at most, inside the buffer.
use box_rtsp.Prelude.{
  ℕ, zero, suc, ◌+◌, ◌-◌, ◌≤◌, ◌<◌, ◌≡◌, ap, ◌∙◌, true, List, [], ◌∷◌, arith, length, get_or, drop,
}
use mathlib.Core.Bool.{false≢true}
use Prim.Native.Nat.add
use box_rtsp.Rtsp.Text.{c_string, string_at, strncasecmp}
use box_rtsp.Rtsp.Parser.{Parser, Env}
use box_rtsp.Rtsp.Headers.{chunked_text, handle_length, handle_transfer, rtsp_header_handler}
use box_rtsp.Rtsp.Safe.Rules.{Ensures}
use box_rtsp.Rtsp.Safe.Bounds.{IsBuffer, set_nul-IsBuffer}

strncasecmp-length : (a b : List ℕ) (n : ℕ) → strncasecmp a b n ≡ true → n ≤ length a → n ≤ length b
unfolding strncasecmp
strncasecmp-length a b zero h l = omega arith
strncasecmp-length [] b (suc n) h l = elim l [ ]
strncasecmp-length (x ∷ a) [] (suc n) h l = absurd (false≢true h)
strncasecmp-length (x ∷ a) (y ∷ b) (suc n) h l = ground (arith, strncasecmp-length a b n)

length-c_string : (s : List ℕ) (n : ℕ) → n < length s → get_or s n 0 ≡ 0 → length (c_string s) ≤ n
unfolding c_string
length-c_string [] n h e = elim h [ ]
length-c_string (x ∷ s) zero h e = ground arith
length-c_string (x ∷ s) (suc n) h e = ground (arith, length-c_string s n)

drop_facts :
    (xs : List ℕ) (k n : ℕ)
    → k + n < length xs
    → (n < length (drop k xs)) × (get_or (drop k xs) n 0 ≡ get_or xs (k + n) 0)
drop_facts xs zero n h = ground (arith, add.zero n)
drop_facts [] (suc k) n h = elim h [ ]
drop_facts (x ∷ xs) (suc k) n h =
    let r = drop_facts xs k n (omega arith) in
    (r.0, r.1 ∙ ap (λ i. get_or (x ∷ xs) i 0) (let e : suc (k + n) ≡ suc k + n = omega arith in e))

-- A string of the buffer ends at the NUL behind the received bytes, or before.
pub length-string_at :
    (raw : List ℕ) (n i : ℕ) → IsBuffer raw n → i ≤ n → length (string_at raw i) ≤ n - i
unfolding string_at
length-string_at raw n i b h =
    let e : i + (n - i) ≡ n = omega arith in
    let d = drop_facts raw i (n - i) (omega (arith, b.room)) in
    length-c_string (drop i raw) (n - i) d.0 (d.1 ∙ rw e b.nul)

-- What the handler leaves alone, and the buffer.
pub record Kept (p q : Parser) : Type 0 where
  pub buffer : IsBuffer q.raw q.raw_size
  pub raw_size_same : q.raw_size ≡ p.raw_size
  pub offset_same : q.offset ≡ p.offset
  pub state_same : q.state_m ≡ p.state_m
  pub mode_same : q.server_mode ≡ p.server_mode
  pub header_same : q.header ≡ p.header
  pub headers_same : q.headers ≡ p.headers
  pub capacity_same : q.header_capacity ≡ p.header_capacity

handle_length-Kept :
    (env : Env) (p : Parser) (value : List ℕ)
    → IsBuffer p.raw p.raw_size
    → Ensures (Kept p) (handle_length env p value)
unfolding handle_length
handle_length-Kept env p value b = ground arith

handle_transfer-Kept :
    (p : Parser) (vpos : ℕ)
    → IsBuffer p.raw p.raw_size
    → vpos ≤ p.raw_size
    → Ensures (Kept p) (handle_transfer p vpos (string_at p.raw vpos))
unfolding handle_transfer
handle_transfer-Kept p vpos b h = ground (
  arith,
  strncasecmp-length chunked_text (string_at p.raw vpos) 7,
  length-string_at p.raw p.raw_size vpos b h,
  set_nul-IsBuffer p.raw p.raw_size (vpos + 7) b,
)

pub rtsp_header_handler-Kept :
    (env : Env) (p : Parser) (npos vpos : ℕ)
    → IsBuffer p.raw p.raw_size
    → vpos ≤ p.raw_size
    → Ensures (Kept p) (rtsp_header_handler env p npos vpos)
unfolding rtsp_header_handler
rtsp_header_handler-Kept env p npos vpos b h =
    ground
      (arith, handle_length-Kept env p (string_at p.raw vpos) b, handle_transfer-Kept p vpos b h)
