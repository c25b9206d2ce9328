-- ===== src/Registry/Push.antt =====
-- src/libevent_server.c: connect_to_rtsp_server, push_stream, stop_stream and send_msg_to_push_client.
use box_rtsp.Prelude.{ℕ, suc, true, false, Bool, List, Option, none, some, ℤ, pos}
use box_rtsp.Rtsp.Exec.{Halt}
use box_rtsp.Rtsp.Headers.{codes}
use box_rtsp.Relay.Client.{Client}
use box_rtsp.Server.Device.{Device}
use box_rtsp.Registry.Run.{Run, returns, fails, ◌>>=◌, through, alone}
use box_rtsp.Registry.World.{
  Dev, connect_to_rtsp_server_event_cb, send_msg_to_push_client, World, put, lock, unlock, new_bev,
  free_bev,
}
use box_rtsp.Registry.Database.{load_camera}
use box_rtsp.Registry.Lookup.{DevInfo, seek_device}
use box_rtsp.Registry.Request.{push_command, stop_command}
use box_rtsp.Registry.Outside.{Outside}
use box_rtsp.Registry.Open.{no_sdp, no_challenge, add_device}

module _ {B L J : Type 0} (o : Outside B L J) where
  -- A `CLIENT_LIST_OBJ` after `calloc`.
  abbrev pub no_client : Client B
  no_client = record {
    send_frame_flag = 0;
    del_flag = 0;
    miss_frame_flag = 0;
    pts = pos 0;
    send_video_to_server_event = none;
  }

  -- The client at `w.next` goes into the list of the device at `d`, and the arguments of the callback
  -- stand behind it.
  abbrev pub add_client : World B L → ℕ → Dev L → World B L
  add_client w d x = record w {
    devices =
        put w.devices d (record x { rtsp_clients = o.list.list_append x.rtsp_clients w.next });
    clients = put w.clients w.next no_client;
    args = put w.args (suc w.next) (record { dev_node = some d; client_node = some w.next });
    next = suc (suc w.next);
  }

  unfoldable pub connect_to_rtsp_server : List ℕ → ℤ → Option ℕ → World B L → Run (World B L)
  connect_to_rtsp_server ip port p w = do
    w₁ ← lock w
    d ← through p
    x ← through (w₁.devices d)
    returns (
        new_bev o.buffer (unlock (add_client w₁ d x)) (connect_to_rtsp_server_event_cb (suc w.next))
          true ip port)

  -- list_init is called on the list of clients only, and the status is not set.
  unfoldable pub pushed_device : DevInfo → Device → Dev L
  pushed_device i c = record {
    dev_id = i.dev_id;
    dev_chnl = i.dev_chnl;
    camera = record c { stream_type = i.dev_stream_type };
    sdp = no_sdp;
    challenge = no_challenge;
    start_thread_flag = 0;
    dev_connect_status = 0;
    rtsp_clients = o.list.list_init;
    wait_clients = o.list.zeroed;
  }

  -- The device is not in the list.
  unfoldable pub push_unknown : World B L → List ℕ → ℤ → DevInfo → Run (World B L)
  push_unknown w ip port i = alone (load_camera o.database i.dev_id i.dev_chnl) >>= elim [
    | none ↦ returns (unlock w)
    | some c ↦
        connect_to_rtsp_server ip port (some w.next) (unlock (add_device o w (pushed_device i c)))
  ]

  unfoldable pub push_stream : List ℕ → World B L → Run (World B L)
  push_stream text w = do
    r ← alone (push_command o.json text)
    w₁ ← lock w
    elim (seek_device o.list w₁ r.2) [
      | none ↦ push_unknown w₁ r.0 r.1 r.2
      | some d ↦ connect_to_rtsp_server r.0 r.1 (some d) (unlock w₁)
    ]

  -- The connection to port 8103 of this machine, whose callback is given an array of the function that
  -- opens it.
  abbrev pub connect_to_push_client : World B L → World B L
  connect_to_push_client w =
      new_bev o.buffer w send_msg_to_push_client false (codes "127.0.0.1") (pos 8103)

  unfoldable pub stop_stream : List ℕ → World B L → Run (World B L)
  stop_stream text w = alone (stop_command o.json text) >>= λ i. returns (connect_to_push_client w)

  -- The callback of that connection. Once it is connected it reads the array, which is gone.
  unfoldable pub run_send_msg_to_push_client : ℕ → Bool → World B L → Run (World B L)
  run_send_msg_to_push_client b true w = fails Halt.faults
  run_send_msg_to_push_client b false w = free_bev w b
