-- ===== src/Registry/Induction.antt =====
-- src/libevent_server.c and src/dev_opt.c: how a property of the shared state is shown for every state
-- that the program reaches.
use box_rtsp.Prelude.{ℕ, Bool, true, false, List, Option, ℤ}
use box_rtsp.Relay.Packets.{Packet}
use box_rtsp.Registry.Run.{Run}
use box_rtsp.Registry.World.{
  Dev, Bev, Callbacks, ErrorCb, World, put, lock, unlock, put_dev, change_bev, disable_bev,
  free_bev,
}
use box_rtsp.Registry.Outside.{Outside}
use box_rtsp.Registry.Push.{run_send_msg_to_push_client}
use box_rtsp.Registry.Session.{
  run_connect_to_rtsp_server_event_cb, run_send_rtsp_to_server_event_error_cb, run_deal_write_ok,
}
use box_rtsp.Registry.Describe.{
  run_active_connect_eventcb, run_read_dev_sdp_basic_cb, run_read_dev_sdp_digest_cb,
}
use box_rtsp.Registry.Reader.{begin_thread, read_frame, end_thread}
use box_rtsp.Registry.Commands.{run_deal_client_cmd, accept_client_connect_cb}
use box_rtsp.Registry.Steps.{
  Event, Action, error_cb, fire, call_back, at_thread, act, start, Reached, at_start, after, is_due,
}
use box_rtsp.Registry.Rules.{Then, Then-if, Then-elim, Then-returns}

module _ {B L J : Type 0} (o : Outside B L J) where
  -- What each callback and each step of a thread keeps.
  pub record Kept (P : World B L → Type 0) : Type 0 where
    pub start : P (box_rtsp.Registry.Steps.start o)
    pub accept_client_connect_cb :
        (w : World B L) → P w → P (box_rtsp.Registry.Commands.accept_client_connect_cb o w)
    pub deal_client_cmd :
        (p : Option ℕ) (b : ℕ) (input : List ℕ) (w : World B L)
        → P w
        → Then P (run_deal_client_cmd o p b input w)
    pub error_cb :
        (cb : ErrorCb) (b : ℕ) (w : World B L)
        → P w
        → Then P (box_rtsp.Registry.Steps.error_cb o cb b w)
    pub deal_write_ok : (n b : ℕ) (w : World B L) → P w → Then P (run_deal_write_ok o n b w)
    pub connect_to_rtsp_server_event_cb :
        (a b : ℕ) (y : Bool) (w : World B L)
        → P w
        → Then P (run_connect_to_rtsp_server_event_cb o a b y w)
    pub send_rtsp_to_server_event_error_cb :
        (a b : ℕ) (w : World B L) → P w → Then P (run_send_rtsp_to_server_event_error_cb o a b w)
    pub free_bev : (b : ℕ) (w : World B L) → P w → Then P (box_rtsp.Registry.World.free_bev w b)
    pub active_connect_eventcb :
        (d b : ℕ) (y : Bool) (w : World B L) → P w → Then P (run_active_connect_eventcb o d b y w)
    pub read_dev_sdp_basic_cb :
        (d b : ℕ) (input : List ℕ) (w : World B L)
        → P w
        → Then P (run_read_dev_sdp_basic_cb o d b input w)
    pub read_dev_sdp_digest_cb :
        (d b : ℕ) (input : List ℕ) (w : World B L)
        → P w
        → Then P (run_read_dev_sdp_digest_cb o d b input w)
    pub begin_thread :
        (h : ℕ) (v a : ℤ) (w : World B L)
        → P w
        → Then P (box_rtsp.Registry.Reader.begin_thread o h v a w)
    pub read_frame :
        (h : ℕ) (k : Packet) (w : World B L)
        → P w
        → Then P (box_rtsp.Registry.Reader.read_frame o h k w)
    pub end_thread :
        (h : ℕ) (w : World B L) → P w → Then P (box_rtsp.Registry.Reader.end_thread o h w)

module _ {B L J : Type 0} (o : Outside B L J) (P : World B L → Type 0) (k : Kept o P) where
  fire-Then :
      (cbs : Callbacks) (b : ℕ) (event : Event) (w : World B L)
      → P w
      → Then P (fire o cbs b event w)
  unfolding fire run_send_msg_to_push_client
  fire-Then (Callbacks.deal_client_cmd cb p) b (Event.arrives input) w h =
      k.deal_client_cmd p b input w h
  fire-Then (Callbacks.deal_client_cmd cb p) b Event.breaks w h = k.error_cb cb b w h
  fire-Then (Callbacks.deal_client_cmd cb p) b Event.connects w h = h
  fire-Then (Callbacks.deal_client_cmd cb p) b (Event.sends n) w h = h
  fire-Then Callbacks.deal_write_ok b (Event.sends n) w h = k.deal_write_ok n b w h
  fire-Then Callbacks.deal_write_ok b (Event.arrives input) w h = h
  fire-Then Callbacks.deal_write_ok b Event.connects w h = h
  fire-Then Callbacks.deal_write_ok b Event.breaks w h = h
  fire-Then (Callbacks.connect_to_rtsp_server_event_cb a) b Event.connects w h =
      k.connect_to_rtsp_server_event_cb a b true w h
  fire-Then (Callbacks.connect_to_rtsp_server_event_cb a) b Event.breaks w h =
      k.connect_to_rtsp_server_event_cb a b false w h
  fire-Then (Callbacks.connect_to_rtsp_server_event_cb a) b (Event.arrives input) w h = h
  fire-Then (Callbacks.connect_to_rtsp_server_event_cb a) b (Event.sends n) w h = h
  fire-Then (Callbacks.send_rtsp_to_server_event_error_cb a) b Event.breaks w h =
      k.send_rtsp_to_server_event_error_cb a b w h
  fire-Then (Callbacks.send_rtsp_to_server_event_error_cb a) b Event.connects w h = h
  fire-Then (Callbacks.send_rtsp_to_server_event_error_cb a) b (Event.arrives input) w h = h
  fire-Then (Callbacks.send_rtsp_to_server_event_error_cb a) b (Event.sends n) w h = h
  fire-Then Callbacks.send_msg_to_push_client b Event.connects w h = tt
  fire-Then Callbacks.send_msg_to_push_client b Event.breaks w h = k.free_bev b w h
  fire-Then Callbacks.send_msg_to_push_client b (Event.arrives input) w h = h
  fire-Then Callbacks.send_msg_to_push_client b (Event.sends n) w h = h
  fire-Then (Callbacks.read_dev_sdp_basic_cb d) b (Event.arrives input) w h =
      k.read_dev_sdp_basic_cb d b input w h
  fire-Then (Callbacks.read_dev_sdp_basic_cb d) b Event.connects w h =
      k.active_connect_eventcb d b true w h
  fire-Then (Callbacks.read_dev_sdp_basic_cb d) b Event.breaks w h =
      k.active_connect_eventcb d b false w h
  fire-Then (Callbacks.read_dev_sdp_basic_cb d) b (Event.sends n) w h = h
  fire-Then (Callbacks.read_dev_sdp_digest_cb d) b (Event.arrives input) w h =
      k.read_dev_sdp_digest_cb d b input w h
  fire-Then (Callbacks.read_dev_sdp_digest_cb d) b Event.connects w h =
      k.active_connect_eventcb d b true w h
  fire-Then (Callbacks.read_dev_sdp_digest_cb d) b Event.breaks w h =
      k.active_connect_eventcb d b false w h
  fire-Then (Callbacks.read_dev_sdp_digest_cb d) b (Event.sends n) w h = h

  at_thread-Then :
      (h : ℕ) (y : Bool) (step : World B L → Run (World B L)) (w : World B L)
      → P w
      → Then P (step w)
      → Then P (at_thread o h y step w)
  unfolding at_thread
  at_thread-Then h y step w i j =
      Then-elim P (w.threads h) _ _ (λ e. i)
        (λ g e.
          Then-if P g.runs _ _ (λ r. Then-if P y _ _ (λ s. j) (λ s. i))
            (λ r. Then-if P y _ _ (λ s. i) (λ s. j)))

  act-Then : (action : Action) (w : World B L) → P w → Then P (act o action w)
  unfolding act call_back
  act-Then Action.accepts w h = k.accept_client_connect_cb w h
  act-Then (Action.calls b event) w h =
      Then-elim P (w.bevs b) _ _ (λ e. h)
        (λ v e. Then-if P (is_due o v event) _ _ (λ y. fire-Then v.callbacks b event w h) (λ y. h))
  act-Then (Action.begins t v a) w h = at_thread-Then t false _ w h (k.begin_thread t v a w h)
  act-Then (Action.takes t p) w h = at_thread-Then t true _ w h (k.read_frame t p w h)
  act-Then (Action.ends t) w h = at_thread-Then t true _ w h (k.end_thread t w h)

  pub Reached-rule : (w : World B L) → Reached o w → P w
  Reached-rule _ at_start = k.start
  Reached-rule _ (after {w} {w₁} action r e) =
      Then-returns P (act o action w) w₁ (act-Then action w (Reached-rule w r)) e
