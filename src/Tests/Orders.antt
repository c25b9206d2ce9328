-- ===== src/Tests/Orders.antt =====
-- Orders of commands in the box with one camera.
use box_rtsp.Prelude.{
  ℕ, ◌≡◌, refl, sym, inl, inr, Bool-cases, ◌==◌, true, false, List, [], ◌∷◌, none, some,
  if◌then◌else◌, pos, negsuc, take, ◌++◌, arith,
}
use box_rtsp.Rtsp.Exec.{Halt, ok}
use box_rtsp.Rtsp.Headers.{codes}
use box_rtsp.Server.Json.{Json}
use box_rtsp.Server.Sdp.{Sdp, analysis_sdp_info, video_part, audio_part, strstr}
use box_rtsp.Relay.Members.{mem, eq_lem}
use box_rtsp.Registry.Sound.{Stands}
use box_rtsp.Registry.Text.{strcmp}
use box_rtsp.Registry.Run.{returns, fails, blocks}
use box_rtsp.Registry.World.{Dev, Bev, Thread, World, connected}
use box_rtsp.Registry.Outside.{Outside}
use box_rtsp.Server.Device.{Device}
use box_rtsp.Registry.Database.{no_camera, load_camera}
use box_rtsp.Registry.Lookup.{DevInfo}
use box_rtsp.Registry.Open.{deal_open_video_cmd, add_device, sdp_message, new_device}
use box_rtsp.Registry.Push.{connect_to_rtsp_server}
use box_rtsp.Registry.Session.{serve_client, run_connect_to_rtsp_server_event_cb}
use box_rtsp.Registry.Describe.{sdp_ready, answer_bev}
use box_rtsp.Registry.Reader.{end_thread}
use box_rtsp.Registry.Commands.{accept_client_connect_cb}
use box_rtsp.Registry.Steps.{Event, Action, act, start, step_calls}
use box_rtsp.Registry.Stuck.{deal_open_video_cmd_stuck, server_info_first, serve_client_twice}
use box_rtsp.Registry.Refusing.{server_refused_keeps}
use box_rtsp.Registry.Waiting.{sdp_ready_answers}
use box_rtsp.Tests.Relays.{addresses_laws}
use box_rtsp.Tests.Registered.{box, members, command, state_of, w₁, w₂, reached₂, dev, some_dev}

-- The same members with another type of command.
abbrev asking : List ℕ → Json (List ℕ)
asking kind = record members {
  valuestring = λ key. if strcmp key (codes "cmdType") then some kind else members.valuestring key;
}

abbrev opening : Outside (List ℕ) (List ℕ) (List ℕ)
opening = record box { json = asking (codes "open_video") }

abbrev naming : Outside (List ℕ) (List ℕ) (List ℕ)
naming = record box { json = asking (codes "server_info") }

abbrev cam : DevInfo
cam = record { dev_id = codes "cam"; dev_chnl = pos 0; dev_stream_type = pos 0 }

abbrev bev : ℕ → World (List ℕ) (List ℕ) → Bev (List ℕ)
bev b w = elim (w.bevs b) [
  | none ↦ record {
    callbacks = box_rtsp.Registry.World.deal_write_ok;
    reads = false;
    writes = false;
    output = [];
    peer_ip = [];
    peer_port = 0;
  }
  | some v ↦ v
]

-- The box after the server is connected, where a thread is about to begin.
abbrev pushed : World (List ℕ) (List ℕ)
pushed = state_of (serve_client box 4 2 5 w₂)

abbrev thread : Thread
thread = record {
  dev_node = 2;
  runs = false;
  videoindex = negsuc 0;
  audioindex = negsuc 0;
  i_flag = false;
}

deal_open_video_cmd_stuck_example :
    (deal_open_video_cmd opening [] 1 pushed ≡ returns (record pushed { locked = true }))
    × (connect_to_rtsp_server opening [] (pos 0) none (record pushed { locked = true }) ≡ blocks)
    × (deal_open_video_cmd opening [] 1 (record pushed { locked = true }) ≡ blocks)
    × (end_thread opening 6 (record pushed { locked = true }) ≡ blocks)
unfolding step_calls
deal_open_video_cmd_stuck_example =
    deal_open_video_cmd_stuck opening [] 1 2 (pos 0, cam) (dev pushed) pushed [] (pos 0) none [] 1
      (pos 0, cam) 6 thread refl refl refl refl (refl, refl) refl refl

server_info_first_example :
    act naming
      (Action.calls 1 (Event.arrives (take 32 command ++ (codes "{}" ++ []))))
      (accept_client_connect_cb naming (start naming))
    ≡ fails Halt.faults
unfolding step_calls
server_info_first_example =
    server_info_first naming (take 32 command) (codes "{}") [] (codes "10.0.0.2") (start naming)
      (record {
        protocol_item = some (codes "protocol");
        protocol = codes "hls";
        cmd_item = some (codes "cmdType");
        cmd_type = codes "server_info";
        ip_item = some (codes "serverIp");
        port_item = some (codes "serverPort");
        protocol_got = refl;
        protocol_text = refl;
        cmd_got = refl;
        cmd_text = refl;
        is_open_video = refl;
        is_server_info = refl;
        ip_got = refl;
        ip_text = refl;
        port_got = refl;
      })
      refl refl refl (omega arith) (refl, (refl, tt)) refl

-- Two clients push the camera's stream: the devices of the second command are those of the first. The
-- connections to the servers are at 6 and 9, their arguments at 5 and 8.
abbrev does : Action → World (List ℕ) (List ℕ) → World (List ℕ) (List ℕ)
does action w = state_of (act box action w)

abbrev two_pushed : World (List ℕ) (List ℕ)
two_pushed = does (Action.calls 2 (Event.arrives command)) (
    does (Action.calls 1 (Event.arrives command))
      (does Action.accepts (does Action.accepts (start box))))

abbrev pushed_twice : Dev (List ℕ)
pushed_twice = elim (two_pushed.devices 3) [ none ↦ some_dev | some x ↦ x ]

abbrev one_served : World (List ℕ) (List ℕ)
one_served = state_of (serve_client box 5 3 6 two_pushed)

abbrev two_served : World (List ℕ) (List ℕ)
two_served = state_of (serve_client box 8 3 9 one_served)

serve_client_twice_example :
    (w₃ : World (List ℕ) (List ℕ)) × (w₄ : World (List ℕ) (List ℕ)) × (act box
        (Action.begins 10 (pos 0) (pos 1))
        two_served
      ≡ returns w₃)
    × (act box (Action.ends 10) w₃ ≡ returns w₄)
    × (act box (Action.begins 11 (pos 0) (pos 1)) w₄ ≡ fails Halt.faults)
unfolding step_calls
serve_client_twice_example =
    serve_client_twice box 5 8 3 6 9 pushed_twice two_pushed one_served two_served refl refl refl
      refl (pos 0) (pos 1) (pos 0) (pos 1)

-- The camera that the data base has for `cam`.
abbrev camera : Device
camera = elim (load_camera opening.database (codes "cam") (pos 0)) [
  | ok (some c) ↦ c
  | _ ↦ no_camera opening.database
]

server_refused_keeps_example :
    (w : World (List ℕ) (List ℕ)) × (run_connect_to_rtsp_server_event_cb box 4 5 false w₂
      ≡ returns w)
    × (w.clients 3 ≡ none)
    × (w.devices 2 ≡ some (record (dev w₂) { rtsp_clients = [] }))
    × (w.dev_list ≡ w₂.dev_list)
unfolding step_calls
server_refused_keeps_example =
    server_refused_keeps box addresses_laws 4 5 2 3
      (record { dev_node = some 2; client_node = some 3 }) (dev w₂) (bev 5 w₂) w₂ reached₂ refl refl
      refl refl refl refl refl

-- The client at 1 waits for the device at 2.
abbrev waiting : World (List ℕ) (List ℕ)
waiting = add_device box w₁ some_dev

abbrev no_streams : Sdp
no_streams = record {
  frame_rate = pos 0;
  m_video = codes "NULL";
  rtpmap_video = codes "NULL";
  fmtp_video = codes "NULL";
  m_audio = codes "NULL";
  rtpmap_audio = codes "NULL";
}

waits_in_memory : (b : ℕ) → mem b (1 ∷ []) ≡ true → Stands waiting.bevs b
unfolding step_calls
waits_in_memory b m = elim (Bool-cases (1 == b)) [
  | inl q ↦ rw (sym (eq_lem 1 b q)) (bev 1 w₁, refl)
  | inr q ↦ let f : false ≡ true = rw (q, mem) at m in cc
]

sdp_ready_answers_example :
    (w : World (List ℕ) (List ℕ)) × (y : Dev (List ℕ)) × (sdp_ready box 2 (codes "v=0") waiting
      ≡ returns w)
    × (w.bevs 1 ≡ some (answer_bev box 2 (sdp_message no_streams) (bev 1 w₁)))
    × (w.bevs 5 ≡ waiting.bevs 5)
    × (w.devices 2 ≡ some y)
    × (y.sdp ≡ no_streams)
    × (y.dev_connect_status ≡ connected)
    × (w.locked ≡ false)
unfolding step_calls new_device analysis_sdp_info video_part audio_part strstr
sdp_ready_answers_example =
    sdp_ready_answers box addresses_laws 2 (codes "v=0") some_dev no_streams waiting 1 5 (bev 1 w₁)
      refl refl refl (tt, tt) waits_in_memory refl refl refl
