-- ===== src/Relay/Packets.antt =====
-- src/dev_opt.c, read_video_data_from_dev_task: the streams of the camera, and which packets go on to
-- the clients.
use box_rtsp.Prelude.{
  ℕ, suc, Bool, true, false, not, List, [], ◌∷◌, ◌==◌, if◌then◌else◌, ltb, ℤ, pos, negsuc,
}
use box_rtsp.Prelude.Int.{eq_int}

-- `codec_type`
pub data MediaType : Type 0 where
  video audio other : MediaType

-- What av_read_frame fills in of an AVPacket; `size` is the number of bytes of `payload`.
pub record Packet : Type 0 where
  pub stream_index : ℤ
  pub flags : ℕ
  pub pts : ℤ
  pub payload : List ℕ

-- `videoindex_v` and `audioindex_a`: the last stream of each type, from stream `i` on.
pub choose_streams : List MediaType → ℕ → ℤ → ℤ → ℤ × ℤ
choose_streams [] i v a = (v, a)
choose_streams (MediaType.video ∷ ts) i v a = choose_streams ts (suc i) (pos i) a
choose_streams (MediaType.audio ∷ ts) i v a = choose_streams ts (suc i) v (pos i)
choose_streams (MediaType.other ∷ ts) i v a = choose_streams ts (suc i) v a

-- `p_pkt->pts > 0`
abbrev pub positive : ℤ → Bool
positive (pos n) = ltb 0 n
positive (negsuc n) = false

-- `1 == p_pkt->flags`
abbrev pub is_i_frame : Packet → Bool
is_i_frame k = k.flags == 1

-- Whether the packet goes on to the clients, and `iIFlag` after it.
unfoldable pub admit : ℤ → ℤ → Bool → Packet → Bool × Bool
admit videoindex audioindex i_flag k =
    if eq_int videoindex k.stream_index
    then if is_i_frame k
      then if not i_flag
        then if positive k.pts then (true, true) else (false, i_flag)
        else (true, i_flag)
      else if not i_flag
      then (false, i_flag)
      else (true, i_flag)
    else if eq_int audioindex k.stream_index
    then (false, i_flag)
    else (false, i_flag)
