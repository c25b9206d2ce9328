-- ===== src/Registry/Steps.antt =====
-- src/libevent_server.c and src/dev_opt.c: the callbacks of the event thread and the steps of the
-- cameras' threads, in any order.
use box_rtsp.Prelude.{
  ℕ, ◌≡◌, Bool, true, false, not, ◌&&◌, ◌||◌, ◌==◌, List, none, some, if◌then◌else◌, ℤ,
}
use box_rtsp.Relay.Packets.{Packet}
use box_rtsp.UrlCode.{url_decode}
use box_rtsp.Rtsp.Parser.{add_size}
use box_rtsp.Rtsp.Text.{
  c_string, atoi, scan_int, scan_sign, scan_number, scan_digits, skip_space, isdigit, clamp,
}
use box_rtsp.Server.Frames.{read_cmd, body_length, text_of}
use box_rtsp.Server.Json.{item_text}
use box_rtsp.Server.Command.{deal_client_cmd, run_cmd, answered, server_info, reply_bytes}
use box_rtsp.Server.Device.{load_device_ip_port_cb, copy_column, column_int, stream_url, decimal}
use box_rtsp.Registry.Text.{strcmp}
use box_rtsp.Registry.Database.{load_camera, sql_operation, errcode, dev_sql}
use box_rtsp.Registry.Lookup.{
  decoded, seek_device, dev_seeker, analysis_json_dev_info, dev_command, dev_members, dev_text,
  strcpy, dev_number,
}
use box_rtsp.Registry.Request.{push_command, stop_command, needed_text, needed_number, needed_id}
use box_rtsp.Registry.Run.{Run, returns}
use box_rtsp.Registry.World.{Bev, Callbacks, ErrorCb, World}
use box_rtsp.Registry.Outside.{Outside}
use box_rtsp.Registry.Push.{
  run_send_msg_to_push_client, push_stream, push_unknown, pushed_device, connect_to_rtsp_server,
}
use box_rtsp.Registry.Session.{
  run_connect_to_rtsp_server_event_cb, run_send_rtsp_to_server_event_error_cb, serve_client,
  server_connected, mark_client, run_deal_client_cmd_error_cb1, run_deal_client_cmd_error_cb2,
  run_deal_write_ok,
}
use box_rtsp.Registry.Describe.{
  run_active_connect_eventcb, run_read_dev_sdp_basic_cb, run_read_dev_sdp_digest_cb,
}
use box_rtsp.Registry.Reader.{begin_thread, read_frame, end_thread}
use box_rtsp.Registry.Commands.{accept_client_connect_cb, run_deal_client_cmd, perform, perform_all}

-- What libevent reports of a bufferevent: BEV_EVENT_CONNECTED, another event, bytes in the input
-- buffer, or that many bytes of the output buffer sent.
pub data Event : Type 0 where
  connects breaks : Event
  arrives : List ℕ → Event
  sends : ℕ → Event

-- What happens next: a client connects, libevent calls back for a bufferevent, or a thread begins,
-- takes a packet, or ends because it got none.
pub data Action : Type 0 where
  accepts : Action
  calls : ℕ → Event → Action
  begins : ℕ → ℤ → ℤ → Action
  takes : ℕ → Packet → Action
  ends : ℕ → Action

module _ {B L J : Type 0} (o : Outside B L J) where
  unfoldable pub error_cb : ErrorCb → ℕ → World B L → Run (World B L)
  error_cb ErrorCb.no_cb b w = returns w
  error_cb ErrorCb.deal_client_cmd_error_cb1 b w = run_deal_client_cmd_error_cb1 o b w
  error_cb (ErrorCb.deal_client_cmd_error_cb2 p) b w = run_deal_client_cmd_error_cb2 o p b w

  -- An event for the callbacks that the bufferevent has, as their bufferevent_setcb sets them.
  unfoldable pub fire : Callbacks → ℕ → Event → World B L → Run (World B L)
  fire (Callbacks.deal_client_cmd cb p) b (Event.arrives input) w =
      run_deal_client_cmd o p b input w
  fire (Callbacks.deal_client_cmd cb p) b Event.breaks w = error_cb cb b w
  fire Callbacks.deal_write_ok b (Event.sends n) w = run_deal_write_ok o n b w
  fire (Callbacks.connect_to_rtsp_server_event_cb a) b Event.connects w =
      run_connect_to_rtsp_server_event_cb o a b true w
  fire (Callbacks.connect_to_rtsp_server_event_cb a) b Event.breaks w =
      run_connect_to_rtsp_server_event_cb o a b false w
  fire (Callbacks.send_rtsp_to_server_event_error_cb a) b Event.breaks w =
      run_send_rtsp_to_server_event_error_cb o a b w
  fire Callbacks.send_msg_to_push_client b Event.connects w = run_send_msg_to_push_client o b true w
  fire Callbacks.send_msg_to_push_client b Event.breaks w = run_send_msg_to_push_client o b false w
  fire (Callbacks.read_dev_sdp_basic_cb d) b (Event.arrives input) w =
      run_read_dev_sdp_basic_cb o d b input w
  fire (Callbacks.read_dev_sdp_basic_cb d) b Event.connects w =
      run_active_connect_eventcb o d b true w
  fire (Callbacks.read_dev_sdp_basic_cb d) b Event.breaks w =
      run_active_connect_eventcb o d b false w
  fire (Callbacks.read_dev_sdp_digest_cb d) b (Event.arrives input) w =
      run_read_dev_sdp_digest_cb o d b input w
  fire (Callbacks.read_dev_sdp_digest_cb d) b Event.connects w =
      run_active_connect_eventcb o d b true w
  fire (Callbacks.read_dev_sdp_digest_cb d) b Event.breaks w =
      run_active_connect_eventcb o d b false w
  fire cbs b event w = returns w

  -- Whether the bufferevent connects to this machine's port 8103.
  unfoldable pub is_connecting : Callbacks → Bool
  is_connecting Callbacks.send_msg_to_push_client = true
  is_connecting _ = false

  -- While EV_READ is disabled no bytes are read, and the end of the connection or a timeout is noticed
  -- only by a write or by the connection that is being made.
  unfoldable pub is_due : Bev B → Event → Bool
  is_due v (Event.arrives input) = v.reads
  is_due v Event.breaks =
      v.reads || (v.writes && not (o.buffer.get_length v.output == 0)) || is_connecting v.callbacks
  is_due v event = v.writes

  -- A bufferevent that is freed has no events.
  unfoldable pub call_back : ℕ → Event → World B L → Run (World B L)
  call_back b event w = elim (w.bevs b) [
    | none ↦ returns w
    | some v ↦ if is_due v event then fire v.callbacks b event w else returns w
  ]

  -- A step of a thread that is there, and runs or is about to.
  unfoldable pub at_thread : ℕ → Bool → (World B L → Run (World B L)) → World B L → Run (World B L)
  at_thread h runs step w = elim (w.threads h) [
    | none ↦ returns w
    | some g ↦
        if g.runs then if runs then step w else returns w else if runs then returns w else step w
  ]

  unfoldable pub act : Action → World B L → Run (World B L)
  act Action.accepts w = returns (accept_client_connect_cb o w)
  act (Action.calls b event) w = call_back b event w
  act (Action.begins h v a) w = at_thread h false (begin_thread o h v a) w
  act (Action.takes h k) w = at_thread h true (read_frame o h k) w
  act (Action.ends h) w = at_thread h true (end_thread o h) w

  -- Where the program has started: no device, no client and no thread.
  unfoldable pub start : World B L
  start = record {
    dev_list = o.list.list_init;
    devices = λ a. none;
    clients = λ a. none;
    args = λ a. none;
    bevs = λ a. none;
    threads = λ a. none;
    locked = false;
    next = 1;
  }

  -- The states that the program comes to while no call fails or waits for ever.
  pub data Reached : World B L → Type 0 where
    at_start : Reached start
    after :
        {w w₁ : World B L} (action : Action) → Reached w → act action w ≡ returns w₁ → Reached w₁

-- Opening this opens all that a step of a client's command comes to.
unfoldable pub step_calls : Unit {0}
unfolding act call_back fire is_due is_connecting at_thread error_cb start accept_client_connect_cb
    run_deal_client_cmd perform perform_all deal_client_cmd run_cmd answered server_info reply_bytes
    read_cmd body_length add_size text_of item_text strcmp push_command stop_command needed_text
    needed_number needed_id decoded c_string url_decode push_stream push_unknown pushed_device
    connect_to_rtsp_server seek_device dev_seeker load_camera sql_operation errcode dev_sql decimal
    load_device_ip_port_cb copy_column column_int stream_url atoi scan_int scan_sign scan_number
    scan_digits skip_space isdigit clamp run_connect_to_rtsp_server_event_cb server_connected
    serve_client begin_thread run_send_rtsp_to_server_event_error_cb mark_client
    analysis_json_dev_info dev_command dev_members dev_text strcpy dev_number
step_calls = tt
