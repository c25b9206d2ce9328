-- ===== src/Registry/Lock/Steps.antt =====
-- src/libevent_server.c and src/dev_opt.c: when `rwlockMyLock` is free between two steps.
use box_rtsp.Prelude.{ℕ, refl, inl, ltb, ℤ}
use box_rtsp.Relay.Packets.{Packet, admit}
use box_rtsp.Relay.Dispatch.{dispatch}
use box_rtsp.Registry.Run.{alone, through}
use box_rtsp.Registry.World.{World, lock}
use box_rtsp.Registry.Outside.{Outside}
use box_rtsp.Registry.Reader.{
  all_there, store, dispatch_frame, begin_thread, read_frame, end_thread,
}
use box_rtsp.Registry.Commands.{accept_client_connect_cb}
use box_rtsp.Registry.Steps.{start, Reached}
use box_rtsp.Registry.Induction.{Kept, Reached-rule}
use box_rtsp.Registry.Rules.{Then, Then-after, Then-through, Then-if}
use box_rtsp.Registry.Lock.Connections.{
  put_dev-IsFreeIfSet, connect_cb-IsFree, send_cb-IsFreeIfSet, error_cb-IsFreeIfSet,
  deal_write_ok-IsFreeIfSet,
}
use box_rtsp.Registry.Lock.Answers.{
  active_connect_eventcb-IsFreeIfSet, basic_cb-IsFreeIfSet, digest_cb-IsFreeIfSet,
}
use box_rtsp.Registry.Lock.{
  IsFree, IsFreeIfSet, weaken, free_bev-IsFreeIfSet, run_deal_client_cmd-IsFreeIfSet,
}

module _ {B L J : Type 0} (o : Outside B L J) where
  dispatch_frame-IsFree :
      (d : ℕ) (k : Packet) (w : World B L) → Then IsFree (dispatch_frame o d k w)
  unfolding dispatch_frame
  dispatch_frame-IsFree d k w = Then-after IsFree (lock w) _ (λ w₁.
      Then-after IsFree (through (w₁.devices d)) _ (λ x.
        Then-if IsFree (all_there o w₁ x.rtsp_clients) _ _
          (λ e.
            Then-after IsFree (alone (dispatch o.buffer o.list k x.rtsp_clients (store o w₁))) _
              (λ r. refl))
          (λ e. tt)))

  end_thread-IsFree : (h : ℕ) (w : World B L) → Then IsFree (end_thread o h w)
  unfolding end_thread
  end_thread-IsFree h w = Then-after IsFree (through (w.threads h)) _ (λ g.
      Then-after IsFree (lock w) _
        (λ w₁. Then-after IsFree (through (w₁.devices g.dev_node)) _ (λ x. refl)))

  begin_thread-IsFreeIfSet :
      (h : ℕ) (v a : ℤ) (w : World B L) → IsFreeIfSet w → Then IsFreeIfSet (begin_thread o h v a w)
  unfolding begin_thread
  begin_thread-IsFreeIfSet h v a w k = Then-after IsFreeIfSet (through (w.threads h)) _ (λ g.
      Then-through IsFreeIfSet (w.devices g.dev_node) _
        (λ x e. put_dev-IsFreeIfSet o w g.dev_node x (record x { start_thread_flag = 1 }) e refl k))

  read_frame-IsFreeIfSet :
      (h : ℕ) (k : Packet) (w : World B L) → IsFreeIfSet w → Then IsFreeIfSet (read_frame o h k w)
  unfolding read_frame
  read_frame-IsFreeIfSet h k w i = Then-after IsFreeIfSet (through (w.threads h)) _ (λ g.
      Then-after IsFreeIfSet (through (w.devices g.dev_node)) _ (λ x.
        Then-if IsFreeIfSet (ltb (o.list.list_size x.rtsp_clients) 1) _ _
          (λ e. weaken o _ (end_thread-IsFree h w))
          (λ e.
            Then-if IsFreeIfSet (admit g.videoindex g.audioindex g.i_flag k).0 _ _
              (λ p. weaken o _ (dispatch_frame-IsFree g.dev_node k _)) (λ p. i))))

  IsFreeIfSet-Kept : Kept o IsFreeIfSet
  unfolding accept_client_connect_cb start
  IsFreeIfSet-Kept = record {
    start = inl refl;
    accept_client_connect_cb = λ w h. h;
    deal_client_cmd = run_deal_client_cmd-IsFreeIfSet o;
    error_cb = error_cb-IsFreeIfSet o;
    deal_write_ok = deal_write_ok-IsFreeIfSet o;
    connect_to_rtsp_server_event_cb = λ a b y w h. weaken o _ (connect_cb-IsFree o a b y w);
    send_rtsp_to_server_event_error_cb = send_cb-IsFreeIfSet o;
    free_bev = λ b w h. free_bev-IsFreeIfSet w b h;
    active_connect_eventcb = active_connect_eventcb-IsFreeIfSet o;
    read_dev_sdp_basic_cb = basic_cb-IsFreeIfSet o;
    read_dev_sdp_digest_cb = λ d b input w h. digest_cb-IsFreeIfSet o d b input w;
    begin_thread = begin_thread-IsFreeIfSet;
    read_frame = read_frame-IsFreeIfSet;
    end_thread = λ h w k. weaken o _ (end_thread-IsFree h w);
  }

  -- In every state that the program reaches, `rwlockMyLock` is free, or a device is there whose status is
  -- neither CONNECTED nor CONNECTING.
  pub Reached-IsFreeIfSet : (w : World B L) → Reached o w → IsFreeIfSet w
  Reached-IsFreeIfSet = Reached-rule o IsFreeIfSet IsFreeIfSet-Kept
