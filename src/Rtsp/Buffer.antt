-- ===== src/Rtsp/Buffer.antt =====
-- src/common/rtsp-parser.c: rtsp_rawdata, which appends received bytes to the buffer.
use box_rtsp.Prelude.{
  ℕ, ◌+◌, ◌*◌, ◌^◌, List, ◌∷◌, ◌++◌, ltb, if◌then◌else◌, length, take, drop, ℤ, pos,
}
use box_rtsp.Rtsp.Parser.{Parser, Env, sub_size}
use box_rtsp.Rtsp.Exec.{Exec, ok, ◌>>◌, assert}

abbrev pub kb : ℕ
kb = 2 ^ 10

abbrev pub mb : ℕ
mb = 2 ^ 20

abbrev pub e2big : ℤ
e2big = pos 7

abbrev pub enomem : ℤ
enomem = pos 12

-- By how much the buffer grows.
unfoldable pub growth : ℕ → ℕ → ℕ
growth raw_capacity bytes =
    let capacity =
      if ltb (4 * mb) raw_capacity
      then 50 * mb
      else if ltb (16 * kb) raw_capacity
      then 2 * mb
      else 8 * kb in
    if ltb capacity (bytes + 1) then bytes + 1 else capacity

-- `memmove`, and the final NUL
unfoldable pub append_data : Parser → List ℕ → Parser
append_data p bytes = record p {
  raw = take p.raw_size p.raw ++ (bytes ++ (0 ∷ drop (p.raw_size + length bytes + 1) p.raw));
  raw_size = p.raw_size + length bytes;
}

-- The assertion in front of the copy.
unfoldable pub copy_data : Parser → List ℕ → Exec (ℤ × Parser)
copy_data p bytes = do
  assert (ltb (length bytes + 1) (sub_size p.raw_capacity p.raw_size))
  ok (pos 0, append_data p bytes)

unfoldable pub rtsp_rawdata : Env → Parser → List ℕ → Exec (ℤ × Parser)
rtsp_rawdata env p bytes =
    let capacity = p.raw_capacity + growth p.raw_capacity (length bytes) in
    if ltb (sub_size p.raw_capacity p.raw_size) (length bytes + 1)
    then if ltb (64 * mb) (p.raw_capacity + length bytes)
      then ok (e2big, p)
      else if env.grants capacity
      then copy_data (record p { raw_capacity = capacity }) bytes
      else ok (enomem, p)
    else copy_data p bytes
