-- ===== src/Server/Command.antt =====
-- src/libevent_server.c: deal_client_cmd.
use box_rtsp.Prelude.{
  ℕ, List, [], ◌∷◌, ◌++◌, Option, none, some, if◌then◌else◌, take, drop, ℤ, negsuc,
}
use box_rtsp.Rtsp.Exec.{Exec, ok, ◌>>=◌}
use box_rtsp.Rtsp.Headers.{codes}
use box_rtsp.Server.Json.{Json, item_text}
use box_rtsp.Server.Frames.{begins, over_zeros, waits, not_ours, command, read_cmd}

-- What the function does, in its order: bufferevent_free and bufferevent_disable of the client, a
-- write to it, the callback deal_write_ok, the connection to port 8103 to which the command is to
-- be passed, and the calls of the other handlers.
pub data Effect : Type 0 where
  free_client : Effect
  disable_read : Effect
  write_client : List ℕ → Effect
  close_when_written : Effect
  pass_on : Effect
  deal_open_video_cmd : List ℕ → Effect
  connect_to_rtsp_server : List ℕ → ℤ → Effect
  push_stream : List ℕ → Effect
  stop_stream : List ℕ → Effect

-- `cRetBuf`, as far as it is written: the head with the length of the body, and `cMsgBody`.
unfoldable pub reply_bytes : List ℕ → List ℕ
reply_bytes head =
    take 8 head
    ++ ((0 ∷ (0 ∷ (0 ∷ (10 ∷ [])))) ++ (drop 12 head ++ over_zeros 32 (codes "{\"code\":0}")))

module _ {J : Type 0} (j : Json J) where
  -- The commands that are answered.
  unfoldable pub answered : List ℕ → List ℕ → List ℕ → List ℕ → List Effect
  answered head text protocol cmd_type =
      write_client (reply_bytes head)
      ∷ (close_when_written
          ∷ (if begins protocol (codes "rtsp")
              then pass_on ∷ []
              else if begins protocol (codes "hls")
              then if begins cmd_type (codes "play")
                then push_stream text ∷ []
                else if begins cmd_type (codes "stop")
                then stop_stream text ∷ []
                else []
              else free_client ∷ []))

  -- `server_info`
  unfoldable pub server_info : Option J → Exec (List Effect)
  server_info root = do
    server_ip ← j.get_object_item root (codes "serverIp")
    ip ← item_text j 16 server_ip
    server_port ← j.get_object_item root (codes "serverPort")
    ok (
        free_client
        ∷ (connect_to_rtsp_server ip (elim server_port [ none ↦ negsuc 0 | some p ↦ j.valueint p ])
            ∷ []))

  unfoldable pub run_cmd : List ℕ → List ℕ → Exec (List Effect)
  run_cmd head text = do
    protocol_item ← j.get_object_item (j.parse text) (codes "protocol")
    protocol ← item_text j 8 protocol_item
    cmd_item ← j.get_object_item (j.parse text) (codes "cmdType")
    cmd_type ← item_text j 32 cmd_item
    if begins cmd_type (codes "open_video")
        then ok (deal_open_video_cmd text ∷ [])
        else if begins cmd_type (codes "server_info")
        then server_info (j.parse text)
        else ok (answered head text protocol cmd_type)

  -- The effects, and what stays in the input buffer.
  unfoldable pub deal_client_cmd : List ℕ → Exec (List Effect × List ℕ)
  deal_client_cmd input = read_cmd input >>= elim [
    | waits ↦ ok ([], input)
    | not_ours ↦ ok (free_client ∷ [], input)
    | command head text rest ↦ run_cmd head text >>= λ effects. ok (disable_read ∷ effects, rest)
  ]
