-- ===== src/Registry/Sound/Steps.antt =====
-- src/libevent_server.c and src/dev_opt.c: what the lists hold in every state that the program reaches.
use box_rtsp.Prelude.{ℕ, ◌≡◌, refl, true, false, ltb, ℤ}
use box_rtsp.Relay.Lists.{ListLaws}
use box_rtsp.Relay.Members.{mem_removed}
use box_rtsp.Relay.Served.{Gives-Yields}
use box_rtsp.Relay.Sent.{Leaves}
use box_rtsp.Relay.Packets.{Packet, admit}
use box_rtsp.Relay.Dispatch.{Store, dispatch}
use box_rtsp.Registry.Run.{through}
use box_rtsp.Registry.World.{World, put}
use box_rtsp.Registry.Outside.{Outside}
use box_rtsp.Registry.Session.{list_delete_dev}
use box_rtsp.Registry.Commands.{accept_client_connect_cb}
use box_rtsp.Registry.Reader.{
  all_there, store, dispatch_frame, begin_thread, read_frame, end_thread,
}
use box_rtsp.Registry.Steps.{start, Reached}
use box_rtsp.Registry.Rules.{Then, Then-after, Then-through, Then-if, Then-lock, Then-alone}
use box_rtsp.Registry.Induction.{Kept, Reached-rule}
use box_rtsp.Registry.Sound.{IsSound, delete_dev-Owned}
use box_rtsp.Registry.Sound.Changes.{erase_dev-Owned}
use box_rtsp.Registry.Sound.Frame.{store-AreServed, dispatch-Leaves, served-IsSound}
use box_rtsp.Registry.Sound.Commands.{
  S, free_bev-IsSound, next-IsSound, put_dev-IsSound, run_deal_client_cmd-IsSound,
}
use box_rtsp.Registry.Sound.Servers.{connect_cb-IsSound}
use box_rtsp.Registry.Sound.Errors.{send_cb-IsSound, error_cb-IsSound, deal_write_ok-IsSound}
use box_rtsp.Registry.Sound.Answers.{
  active_connect_eventcb-IsSound, basic_cb-IsSound, digest_cb-IsSound,
}

module _ {B L J : Type 0} (o : Outside B L J) (laws : ListLaws o.list) where
  dispatch_frame-IsSound :
      (d : ℕ) (k : Packet) (w : World B L) → S o laws w → Then (S o laws) (dispatch_frame o d k w)
  unfolding dispatch_frame
  dispatch_frame-IsSound d k w (owner, h) = Then-lock (S o laws) w _ (λ f.
      Then-through (S o laws) (w.devices d) _ (λ x e.
        Then-if (S o laws) (all_there o w x.rtsp_clients) _ _
          (λ y.
            Then-alone
              (λ (r : L × Store B).
                Leaves o.buffer k (laws.elements x.rtsp_clients) (store o w) (laws.elements r.0)
                  r.1)
              (S o laws) (dispatch o.buffer o.list k x.rtsp_clients (store o w)) _
              (Gives-Yields _ (dispatch o.buffer o.list k x.rtsp_clients (store o w)) (
                dispatch-Leaves o laws k x.rtsp_clients (store o w) (h.2 d x e)
                  (store-AreServed o laws owner w h)))
              (λ r s. served-IsSound o laws owner w d x e h r.0 r.1 s.0 s.1))
          (λ y. tt)))

  end_thread-IsSound : (h : ℕ) (w : World B L) → S o laws w → Then (S o laws) (end_thread o h w)
  unfolding end_thread
  end_thread-IsSound t w (owner, h) = Then-after (S o laws) (through (w.threads t)) _ (λ g.
      Then-lock (S o laws) w _ (λ f. Then-after (S o laws) (through (w.devices g.dev_node)) _ (λ x.
        (
          owner,
          erase_dev-Owned o laws owner (list_delete_dev o w g.dev_node) g.dev_node
              (rw (laws.delete_lem w.dev_list g.dev_node)
                (mem_removed g.dev_node (laws.elements w.dev_list) h.0))
              (delete_dev-Owned o laws owner w g.dev_node h),
        ))))

  begin_thread-IsSound :
      (h : ℕ) (v a : ℤ) (w : World B L) → S o laws w → Then (S o laws) (begin_thread o h v a w)
  unfolding begin_thread
  begin_thread-IsSound t v a w h = Then-after (S o laws) (through (w.threads t)) _ (λ g.
      Then-through (S o laws) (w.devices g.dev_node) _ (λ x e.
        put_dev-IsSound o laws w g.dev_node x (record x { start_thread_flag = 1 }) e refl h))

  read_frame-IsSound :
      (h : ℕ) (k : Packet) (w : World B L) → S o laws w → Then (S o laws) (read_frame o h k w)
  unfolding read_frame
  read_frame-IsSound t k w h = Then-after (S o laws) (through (w.threads t)) _ (λ g.
      Then-after (S o laws) (through (w.devices g.dev_node)) _ (λ x.
        Then-if (S o laws) (ltb (o.list.list_size x.rtsp_clients) 1) _ _
          (λ e. end_thread-IsSound t w h)
          (λ e.
            Then-if (S o laws) (admit g.videoindex g.audioindex g.i_flag k).0 _ _
              (λ p.
                dispatch_frame-IsSound g.dev_node k
                  (record w {
                    threads =
                        put w.threads t
                          (record g { i_flag = (admit g.videoindex g.audioindex g.i_flag k).1 });
                  })
                  h)
              (λ p. h))))

  IsSound-Kept : Kept o (S o laws)
  unfolding accept_client_connect_cb start
  IsSound-Kept = record {
    start = (
      λ c. 0,
      (
        rw laws.init_lem tt,
        λ d i. let f : false ≡ true = rw laws.init_lem at i in cc,
        λ d x e. cc,
        λ d c x e i. cc,
        λ a d c g e f k. cc,
        λ a l. (refl, refl),
        λ c x e. cc,
      ),
    );
    accept_client_connect_cb = next-IsSound o laws;
    deal_client_cmd = run_deal_client_cmd-IsSound o laws;
    error_cb = error_cb-IsSound o laws;
    deal_write_ok = deal_write_ok-IsSound o laws;
    connect_to_rtsp_server_event_cb = connect_cb-IsSound o laws;
    send_rtsp_to_server_event_error_cb = send_cb-IsSound o laws;
    free_bev = λ b w h. free_bev-IsSound o laws w b h;
    active_connect_eventcb = active_connect_eventcb-IsSound o laws;
    read_dev_sdp_basic_cb = basic_cb-IsSound o laws;
    read_dev_sdp_digest_cb = digest_cb-IsSound o laws;
    begin_thread = begin_thread-IsSound;
    read_frame = read_frame-IsSound;
    end_thread = end_thread-IsSound;
  }

  -- In every state that the program reaches, no device is in the list of devices twice and each of them is
  -- in memory; no client is in a device's list twice and each of them is in memory; each client can
  -- be given one device such that it is in the list of no other, also the client that a callback is
  -- given, with the device that the callback is given; no address from `next` on holds a device or a
  -- client; and every client that is to be sent frames and is not marked for deletion has a connection.
  pub Reached-IsSound : (w : World B L) → Reached o w → IsSound o laws w
  Reached-IsSound = Reached-rule o (S o laws) IsSound-Kept
