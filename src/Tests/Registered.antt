-- ===== src/Tests/Registered.antt =====
-- A box with one camera: a client pushes its stream, the server is connected, the thread begins.
use box_rtsp.Prelude.{
  ℕ, ◌≡◌, refl, true, false, List, [], ◌∷◌, ◌++◌, none, some, if◌then◌else◌, pos,
}
use box_rtsp.Rtsp.Exec.{ok}
use box_rtsp.Rtsp.Headers.{codes}
use box_rtsp.Server.Json.{Json}
use box_rtsp.Server.Device.{Row}
use box_rtsp.Registry.Text.{strcmp}
use box_rtsp.Registry.Run.{Run, returns, fails, blocks}
use box_rtsp.Registry.World.{World, Bev, Callbacks}
use box_rtsp.Registry.Outside.{Outside}
use box_rtsp.Registry.Steps.{Event, Action, act, start, Reached, at_start, after, step_calls}
use box_rtsp.Relay.Client.{Client, send_frame}
use box_rtsp.Relay.Members.{mem}
use box_rtsp.Registry.World.{Dev}
use box_rtsp.Registry.Database.{no_camera}
use box_rtsp.Registry.Open.{new_device, unnamed}
use box_rtsp.Registry.Push.{no_client}
use box_rtsp.Registry.Reader.{dispatch_frame}
use box_rtsp.Registry.Lock.{IsFreeIfSet}
use box_rtsp.Registry.Lock.Steps.{Reached-IsFreeIfSet}
use box_rtsp.Registry.Sound.{IsSound}
use box_rtsp.Registry.Sound.Steps.{Reached-IsSound}
use box_rtsp.Registry.Delivery.{dispatch_frame_returns, dispatch_frame_frees}
use box_rtsp.Registry.Sending.{dispatch_frame_sends}
use box_rtsp.Tests.Relays.{bytes, addresses, addresses_laws, packet}

-- An object is the member's name, whose text is the one given here.
abbrev texts : List ℕ → List ℕ
texts key =
    if strcmp key (codes "protocol")
    then codes "hls"
    else if strcmp key (codes "cmdType")
    then codes "play"
    else if strcmp key (codes "serverIp")
    then codes "10.0.0.2"
    else codes "cam"

abbrev pub members : Json (List ℕ)
members = record {
  parse = λ text. some text;
  get_object_item = λ o key. ok (some key);
  valuestring = λ key. some (texts key);
  valueint = λ key. pos 0;
}

abbrev camera_row : Row
camera_row = record {
  ip = some (codes "10.0.0.3");
  port = some (codes "554");
  user = some [];
  passwd = some [];
  authenticate = some [];
  main = some (codes "/1");
  sub = some (codes "/2");
}

abbrev pub box : Outside (List ℕ) (List ℕ) (List ℕ)
box = record {
  buffer = bytes;
  list = addresses;
  json = members;
  database = λ sql. record { opened = true; rows = camera_row ∷ []; errmsg = none };
  md5 = λ s. [];
  env = record { body_max_size = 0; grants = λ n. true };
  parser_granted = true;
}

abbrev pub command : List ℕ
command =
    codes "hBzHbox@" ++ (0 ∷ (0 ∷ (0 ∷ (2 ∷ codes "\0\0\0\0\0\0\0\0\0\0\0\0\0\0\0\0\0\0\0\0{}"))))

abbrev pub state_of : Run (World (List ℕ) (List ℕ)) → World (List ℕ) (List ℕ)
state_of (returns w) = w
state_of (fails h) = start box
state_of blocks = start box

-- The client has connected, and has sent its command: the device is at 2, the client of the server at 3,
-- with its arguments at 4 and its connection at 5.
abbrev pub w₁ : World (List ℕ) (List ℕ)
w₁ = state_of (act box Action.accepts (start box))

abbrev pub w₂ : World (List ℕ) (List ℕ)
w₂ = state_of (act box (Action.calls 1 (Event.arrives command)) w₁)

-- The server is connected, the thread begins, and the connection breaks.
abbrev w₃ : World (List ℕ) (List ℕ)
w₃ = state_of (act box (Action.calls 5 Event.connects) w₂)

abbrev w₄ : World (List ℕ) (List ℕ)
w₄ = state_of (act box (Action.begins 6 (pos 0) (pos 1)) w₃)

abbrev w₅ : World (List ℕ) (List ℕ)
w₅ = state_of (act box (Action.calls 5 Event.breaks) w₄)

pub reached₁ : Reached box w₁
unfolding step_calls
reached₁ = after {w₁ = w₁} Action.accepts at_start refl

pub reached₂ : Reached box w₂
unfolding step_calls
reached₂ = after {w₁ = w₂} (Action.calls 1 (Event.arrives command)) reached₁ refl

reached₃ : Reached box w₃
unfolding step_calls
reached₃ = after {w₁ = w₃} (Action.calls 5 Event.connects) reached₂ refl

reached₄ : Reached box w₄
unfolding step_calls
reached₄ = after {w₁ = w₄} (Action.begins 6 (pos 0) (pos 1)) reached₃ refl

reached₅ : Reached box w₅
unfolding step_calls
reached₅ = after {w₁ = w₅} (Action.calls 5 Event.breaks) reached₄ refl

Reached-IsFreeIfSet_example : IsFreeIfSet w₅
Reached-IsFreeIfSet_example = Reached-IsFreeIfSet box w₅ reached₅

Reached-IsSound_example : IsSound box addresses_laws w₅
Reached-IsSound_example = Reached-IsSound box addresses_laws w₅ reached₅

abbrev pub some_dev : Dev (List ℕ)
some_dev = new_device box (unnamed box) (no_camera box.database) 1

abbrev pub dev : World (List ℕ) (List ℕ) → Dev (List ℕ)
dev w = elim (w.devices 2) [ none ↦ some_dev | some x ↦ x ]

abbrev client : World (List ℕ) (List ℕ) → Client (List ℕ)
client w = elim (w.clients 3) [ none ↦ no_client box | some x ↦ x ]

dispatch_frame_returns_example :
    (w : World (List ℕ) (List ℕ)) × (dispatch_frame box 2 (packet (pos 0) 1 2) w₄ ≡ returns w)
    × (w.locked ≡ false)
unfolding step_calls
dispatch_frame_returns_example =
    dispatch_frame_returns box addresses_laws w₄ 2 (dev w₄) (packet (pos 0) 1 2) reached₄ refl refl

abbrev broken : Bev (List ℕ)
broken = record {
  callbacks = Callbacks.send_rtsp_to_server_event_error_cb 4;
  reads = false;
  writes = false;
  output = [];
  peer_ip = codes "10.0.0.2";
  peer_port = 0;
}

dispatch_frame_frees_example :
    (w : World (List ℕ) (List ℕ)) × (z : Dev (List ℕ)) × (dispatch_frame box 2
        (packet (pos 0) 1 2)
        w₅
      ≡ returns w)
    × (w.clients 3 ≡ some (record (client w₅) { send_video_to_server_event = none }))
    × (w.bevs 5 ≡ none)
    × (w.devices 2 ≡ some z)
    × (mem 3 z.rtsp_clients ≡ false)
unfolding step_calls
dispatch_frame_frees_example =
    dispatch_frame_frees box addresses_laws w₅ 2 3 5 (dev w₅) (client w₅) broken []
      (packet (pos 0) 1 2) reached₅ refl refl refl refl refl refl refl refl

dispatch_frame_sends_example :
    (w : World (List ℕ) (List ℕ)) × (z : Dev (List ℕ)) × (dispatch_frame box 2
        (packet (pos 0) 1 2)
        w₄
      ≡ returns w)
    × (w.clients 3 ≡ some (send_frame bytes (packet (pos 0) 1 2) (client w₄) []))
    × (w.devices 2 ≡ some z)
    × (mem 3 z.rtsp_clients ≡ true)
unfolding step_calls
dispatch_frame_sends_example =
    dispatch_frame_sends box addresses_laws w₄ 2 3 (dev w₄) (client w₄) [] (packet (pos 0) 1 2)
      reached₄ refl refl refl refl refl refl refl
