-- ===== src/Registry/Open.antt =====
-- src/libevent_server.c: deal_open_video_cmd; src/dev_opt.c: test_dev_connection; and the text that
-- says what a camera sends.
use box_rtsp.Prelude.{
  ℕ, suc, ◌+◌, ◌*◌, ◌/◌, ◌%◌, ◌^◌, true, List, [], ◌++◌, none, some, ◌==◌, if◌then◌else◌, length,
  pos, negsuc,
}
use box_rtsp.Rtsp.Headers.{codes}
use box_rtsp.Relay.Client.{cmd_bytes}
use box_rtsp.Server.Device.{Device, snprintf}
use box_rtsp.Server.Sdp.{Sdp}
use box_rtsp.Server.Digest.{Challenge}
use box_rtsp.Registry.Run.{Run, returns, ◌>>=◌, alone}
use box_rtsp.Registry.World.{
  Dev, connected, connecting, no_cb, deal_client_cmd, read_dev_sdp_basic_cb, World, put, lock,
  unlock, dev_at, put_dev, change_bev, new_bev,
}
use box_rtsp.Registry.Database.{load_camera}
use box_rtsp.Registry.Lookup.{DevInfo, analysis_json_dev_info, decoded, seek_device}
use box_rtsp.Registry.Outside.{Outside}

-- `htonl` on a little-endian machine.
abbrev pub htonl : ℕ → ℕ
htonl n =
    n % 2 ^ 8 * 2 ^ 24
    + n / 2 ^ 8 % 2 ^ 8 * 2 ^ 16
    + n / 2 ^ 16 % 2 ^ 8 * 2 ^ 8
    + n / 2 ^ 24 % 2 ^ 8

-- The text behind the head, in the 2016 bytes that are left of the array.
unfoldable pub sdp_text : Sdp → List ℕ
sdp_text s = snprintf 2016 (
    codes "{\"CmdType\":\"sdp_info\",\"m_video\":\""
    ++ (s.m_video
        ++ (codes "\",\"a_rtpmap_video\":\""
            ++ (s.rtpmap_video
                ++ (codes "\",\"a_fmtp_video\":\""
                    ++ (s.fmtp_video
                        ++ (codes "\",\"m_audio\":\""
                            ++ (s.m_audio
                                ++ (codes "\",\"a_rtpmap_audio\":\""
                                    ++ (s.rtpmap_audio ++ codes "\"}"))))))))))

-- What is written to a client that waits for a camera.
unfoldable pub sdp_message : Sdp → List ℕ
sdp_message s =
    cmd_bytes (record {
      header = codes "hBzHbox@";
      cmd_length = htonl (length (sdp_text s));
      data_type = 0;
      cmd_type = 0;
      cmd_code = 1;
      pts = pos 0;
    })
    ++ sdp_text s

abbrev pub no_sdp : Sdp
no_sdp = record {
  frame_rate = pos 0;
  m_video = [];
  rtpmap_video = [];
  fmtp_video = [];
  m_audio = [];
  rtpmap_audio = [];
}

abbrev pub no_challenge : Challenge
no_challenge = record { realm = []; nonce = [] }

module _ {B L J : Type 0} (o : Outside B L J) where
  -- `malloc` of a `DEV_LIST_OBJ` that is not freed again, and list_append to `listDevList`. One that is
  -- freed again, before any pointer to it is stored, leaves no trace.
  abbrev pub add_device : World B L → Dev L → World B L
  add_device w x = record w {
    devices = put w.devices w.next x;
    dev_list = o.list.list_append w.dev_list w.next;
    next = suc w.next;
  }

  unfoldable pub test_dev_connection : World B L → ℕ → Device → World B L
  test_dev_connection w d c = new_bev o.buffer w (read_dev_sdp_basic_cb d) true c.dev_ip c.rtsp_port

  -- A `WAIT_CLIENT_LIST_OBJ` stands for the bufferevent that it holds.
  unfoldable pub new_device : DevInfo → Device → ℕ → Dev L
  new_device i c b = record {
    dev_id = i.dev_id;
    dev_chnl = i.dev_chnl;
    camera = record c { stream_type = i.dev_stream_type };
    sdp = no_sdp;
    challenge = no_challenge;
    start_thread_flag = 0;
    dev_connect_status = connecting;
    rtsp_clients = o.list.list_init;
    wait_clients = o.list.list_append o.list.list_init b;
  }

  -- The device is in the list.
  unfoldable pub known_device : World B L → ℕ → Dev L → ℕ → Run (World B L)
  known_device w d x b =
      if x.dev_connect_status == connected
      then change_bev (unlock w) b (λ v. record v {
        output = o.buffer.write v.output (sdp_message x.sdp);
        callbacks = deal_client_cmd no_cb (some d);
        reads = true;
      })
      else if x.dev_connect_status == connecting
      then returns
          (unlock (put_dev w d (record x { wait_clients = o.list.list_append x.wait_clients b })))
      else returns w

  -- The device is not in the list.
  unfoldable pub unknown_device : World B L → DevInfo → ℕ → Run (World B L)
  unknown_device w i b = alone (load_camera o.database i.dev_id i.dev_chnl) >>= elim [
    | none ↦ returns (unlock w)
    | some c ↦ returns (test_dev_connection (unlock (add_device w (new_device i c b))) w.next c)
  ]

  -- What the command says about the camera; the result of analysis_json_dev_info is not used.
  abbrev pub unnamed : DevInfo
  unnamed = record { dev_id = []; dev_chnl = negsuc 0; dev_stream_type = negsuc 0 }

  unfoldable pub deal_open_video_cmd : List ℕ → ℕ → World B L → Run (World B L)
  deal_open_video_cmd text b w = do
    i ← alone (analysis_json_dev_info o.json text unnamed)
    w₁ ← lock w
    elim (seek_device o.list w₁ (record i.1 { dev_id = decoded i.1.dev_id })) [
      | none ↦ unknown_device w₁ i.1 b
      | some d ↦ dev_at w₁ (some d) >>= λ x. known_device w₁ d x b
    ]
