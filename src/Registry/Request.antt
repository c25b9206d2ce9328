-- ===== src/Registry/Request.antt =====
-- src/libevent_server.c, push_stream and stop_stream: what they read of a command.
use box_rtsp.Prelude.{ℕ, List, Option, none, some, leb, if◌then◌else◌, length, take, drop, ℤ}
use box_rtsp.Rtsp.Exec.{Halt, Exec, ok, halt, ◌>>=◌}
use box_rtsp.Rtsp.Headers.{codes}
use box_rtsp.Server.Json.{Json}
use box_rtsp.Registry.Lookup.{DevInfo, max_dev_id_len, decoded}

module _ {J : Type 0} (j : Json J) where
  -- `item->valuestring` and `item->valueint` without a test of `item`.
  unfoldable pub needed_text : Option J → Exec (List ℕ)
  needed_text none = halt Halt.faults
  needed_text (some item) = elim (j.valuestring item) [ none ↦ halt Halt.faults | some s ↦ ok s ]

  unfoldable pub needed_number : Option J → Exec ℤ
  needed_number none = halt Halt.faults
  needed_number (some item) = ok (j.valueint item)

  -- `strncpy(arrDevIdTmp, pDevId->valuestring, sizeof(arrDevIdTmp))`, whose length is then taken: a
  -- text that fills the array has no NUL in it.
  unfoldable pub needed_id : Option J → Exec (List ℕ)
  needed_id item =
      needed_text item >>= λ s. if leb max_dev_id_len (length s) then halt Halt.faults else ok s

  -- The server's address and port, and the camera.
  unfoldable pub push_command : List ℕ → Exec (List ℕ × ℤ × DevInfo)
  push_command text = do
    protocol ← j.get_object_item (j.parse text) (codes "protocol")
    _ ← needed_text protocol
    server_ip ← j.get_object_item (j.parse text) (codes "serverIp")
    ip ← needed_text server_ip
    server_port ← j.get_object_item (j.parse text) (codes "serverPort")
    port ← needed_number server_port
    dev_id ← j.get_object_item (j.parse text) (codes "devId")
    name ← needed_id dev_id
    dev_chnl ← j.get_object_item (j.parse text) (codes "devChnl")
    chnl ← needed_number dev_chnl
    stream_type ← j.get_object_item (j.parse text) (codes "streamType")
    kind ← needed_number stream_type
    ok (take 16 ip, port, record { dev_id = decoded name; dev_chnl = chnl; dev_stream_type = kind })

  -- The name is taken from its seventeenth byte on.
  unfoldable pub stop_command : List ℕ → Exec DevInfo
  stop_command text = do
    protocol ← j.get_object_item (j.parse text) (codes "protocol")
    _ ← needed_text protocol
    dev_id ← j.get_object_item (j.parse text) (codes "devId")
    name ← needed_id dev_id
    dev_chnl ← j.get_object_item (j.parse text) (codes "devChnl")
    chnl ← needed_number dev_chnl
    stream_type ← j.get_object_item (j.parse text) (codes "streamType")
    kind ← needed_number stream_type
    ok record { dev_id = drop 16 (decoded name); dev_chnl = chnl; dev_stream_type = kind }
