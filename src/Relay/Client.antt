-- ===== src/Relay/Client.antt =====
-- src/dev_opt.c, read_video_data_from_dev_task: one client and one frame, and the headers that are
-- sent in front of a frame (inc/libevent_server.h).
use box_rtsp.Prelude.{
  ℕ, zero, suc, ◌-◌, ◌/◌, ◌%◌, ◌^◌, Bool, not, ◌&&◌, List, [], ◌∷◌, ◌++◌, Option, none, some, ◌==◌,
  if◌then◌else◌, ltb, length, ℤ, pos, negsuc,
}
use box_rtsp.Rtsp.Parser.{sub_size, add_size}
use box_rtsp.Rtsp.Exec.{Halt, Exec, ok, halt}
use box_rtsp.Rtsp.Headers.{codes}
use box_rtsp.Relay.Lists.{Evbuffer}
use box_rtsp.Relay.Packets.{Packet, is_i_frame}

-- `CLIENT_LIST_OBJ`: the three flags, `pts`, and the output buffer of `pSendVideoToServerEvent`,
-- which is NULL before the connection.
pub record Client (B : Type 0) : Type 0 where
  pub send_frame_flag : ℕ
  pub del_flag : ℕ
  pub miss_frame_flag : ℕ
  pub pts : ℤ
  pub send_video_to_server_event : Option B

-- `BOX_CTRL_CMD_OBJ`
pub record BoxCtrlCmd : Type 0 where
  pub header : List ℕ
  pub cmd_length : ℕ
  pub data_type : ℕ
  pub cmd_type : ℕ
  pub cmd_code : ℕ
  pub pts : ℤ

-- The bytes of a word of `n` bytes, the least first.
abbrev pub bytes_of : ℕ → ℕ → List ℕ
bytes_of zero x = []
bytes_of (suc n) x = (x % 2 ^ 8) ∷ bytes_of n (x / 2 ^ 8)

-- The two's complement of a `HB_S64`.
abbrev pub to_word64 : ℤ → ℕ
to_word64 (pos n) = n % 2 ^ 64
to_word64 (negsuc n) = (2 ^ 64) - 1 - n % 2 ^ 64

-- The structure in memory.
unfoldable pub cmd_bytes : BoxCtrlCmd → List ℕ
cmd_bytes c =
    c.header
    ++ (bytes_of 4 c.cmd_length
        ++ (bytes_of 4 c.data_type
            ++ (bytes_of 4 c.cmd_type ++ (bytes_of 4 c.cmd_code ++ bytes_of 8 (to_word64 c.pts)))))

-- `sizeof(BOX_CTRL_CMD_OBJ)`
abbrev pub cmd_size : ℕ
cmd_size = 32

-- `LIBEVENT_WRITE_BUF_SIZE`
abbrev pub write_buf_size : ℕ
write_buf_size = 2097152

-- `send_cmd` in front of a frame: BOX_VIDEO_DATA, with I_FRAME or BP_FRAME.
abbrev pub frame_cmd : Packet → BoxCtrlCmd
frame_cmd k = record {
  header = codes "hBzHbox@";
  cmd_length = length k.payload;
  data_type = if is_i_frame k then 1 else 2;
  cmd_type = 3;
  cmd_code = 0;
  pts = k.pts;
}

module _ {B : Type 0} (e : Evbuffer B) where
  -- `(LIBEVENT_WRITE_BUF_SIZE - iWriteBufLen) < (p_pkt->size + sizeof(BOX_CTRL_CMD_OBJ))`, where the
  -- right side is a `size_t`.
  unfoldable pub is_full : B → Packet → Bool
  is_full out k =
      ltb (sub_size write_buf_size (e.get_length out)) (add_size (length k.payload) cmd_size)

  -- A client that is to be sent frames, and its output buffer.
  unfoldable pub send_frame : Packet → Client B → B → Client B
  send_frame k c out =
      if is_full out k
      then record c {
        send_video_to_server_event = some (e.drain out (e.get_length out));
        miss_frame_flag = 1;
      }
      else if (c.miss_frame_flag == 1) && not (is_i_frame k)
      then c
      else record c {
        miss_frame_flag = 0;
        send_video_to_server_event =
            some (e.write (e.write out (cmd_bytes (frame_cmd k))) k.payload);
      }

  -- One turn over the clients: `none` where the client's bufferevent is freed and the client leaves the
  -- list.
  unfoldable pub visit : Packet → Client B → Exec (Option (Client B))
  visit k c =
      if c.del_flag == 1
      then elim c.send_video_to_server_event [ none ↦ ok (some c) | some out ↦ ok none ]
      else if c.send_frame_flag == 1
      then elim c.send_video_to_server_event [
        | none ↦ halt Halt.faults
        | some out ↦ ok (some (send_frame k c out))
      ]
      else ok (some c)
