-- ===== src/Registry/Sound/Commands.antt =====
-- src/libevent_server.c: what the commands of clients keep of the lists.
use box_rtsp.Prelude.{ℕ, suc, ◌≡◌, refl, arith, true, List, [], ◌∷◌, Option, some, ◌==◌, ℤ}
use box_rtsp.Relay.Lists.{ListLaws}
use box_rtsp.Server.Command.{Effect}
use box_rtsp.Registry.Run.{alone, through}
use box_rtsp.Registry.World.{
  Dev, connected, connecting, Bev, World, unlock, put_dev, change_bev, free_bev,
}
use box_rtsp.Registry.Outside.{Outside}
use box_rtsp.Registry.Database.{load_camera}
use box_rtsp.Registry.Lookup.{DevInfo, decoded, seek_device, analysis_json_dev_info}
use box_rtsp.Registry.Request.{push_command, stop_command}
use box_rtsp.Registry.Open.{
  unnamed, deal_open_video_cmd, known_device, unknown_device, test_dev_connection, new_device,
  add_device,
}
use box_rtsp.Registry.Push.{
  connect_to_rtsp_server, push_unknown, push_stream, pushed_device, stop_stream, add_client,
}
use box_rtsp.Registry.Commands.{perform, perform_all, run_deal_client_cmd}
use box_rtsp.Registry.Rules.{
  Then, Then-bind, Then-after, Then-through, Then-if, Then-elim, Then-lock,
}
use box_rtsp.Registry.Sound.{IsSound, grow-Owned, put_dev-Owned}
use box_rtsp.Registry.Sound.Enlisting.{add_device-Owned}
use box_rtsp.Registry.Sound.Joining.{add_client-IsSound}

module _ {B L J : Type 0} (o : Outside B L J) (laws : ListLaws o.list) where
  abbrev pub S : World B L → Type 0
  S = IsSound o laws

  pub change_bev-IsSound :
      (w : World B L) (b : ℕ) (f : Bev B → Bev B) → S w → Then S (change_bev w b f)
  change_bev-IsSound w b f h = Then-after S (through (w.bevs b)) _ (λ v. h)

  pub free_bev-IsSound : (w : World B L) (b : ℕ) → S w → Then S (free_bev w b)
  free_bev-IsSound w b h = Then-after S (through (w.bevs b)) _ (λ v. h)

  -- A new bufferevent takes the next address.
  pub next-IsSound : (w : World B L) → S w → S (record w { next = suc w.next })
  next-IsSound w (owner, h) = (owner, grow-Owned o laws owner w (suc w.next) (omega arith) h)

  pub put_dev-IsSound :
      (w : World B L) (d : ℕ) (x y : Dev L)
      → w.devices d ≡ some x
      → y.rtsp_clients ≡ x.rtsp_clients
      → S w
      → S (put_dev w d y)
  put_dev-IsSound w d x y e s (owner, h) = (owner, put_dev-Owned o laws owner w d x y e s h)

  known_device-IsSound :
      (w : World B L) (d : ℕ) (x : Dev L) (b : ℕ)
      → w.devices d ≡ some x
      → S w
      → Then S (known_device o w d x b)
  unfolding known_device
  known_device-IsSound w d x b e h =
      Then-if S (x.dev_connect_status == connected) _ _ (λ c. change_bev-IsSound (unlock w) b _ h)
        (λ n.
          Then-if S (x.dev_connect_status == connecting) _ _
            (λ c.
              put_dev-IsSound w d x
                (record x { wait_clients = o.list.list_append x.wait_clients b }) e refl h)
            (λ m. h))

  unknown_device-IsSound :
      (w : World B L) (i : DevInfo) (b : ℕ) → S w → Then S (unknown_device o w i b)
  unfolding unknown_device test_dev_connection new_device
  unknown_device-IsSound w i b (owner, h) =
      Then-after S (alone (load_camera o.database i.dev_id i.dev_chnl)) _ (λ r.
        Then-elim S r _ _ (λ e. (owner, h))
          (λ c e.
            next-IsSound (unlock (add_device o w (new_device o i c b)))
              (owner, add_device-Owned o laws owner w (new_device o i c b) laws.init_lem h)))

  deal_open_video_cmd-IsSound :
      (text : List ℕ) (b : ℕ) (w : World B L) → S w → Then S (deal_open_video_cmd o text b w)
  unfolding deal_open_video_cmd
  deal_open_video_cmd-IsSound text b w h =
      Then-after S (alone (analysis_json_dev_info o.json text (unnamed o))) _ (λ i.
        Then-lock S w _ (λ f.
          Then-elim S
            (seek_device o.list (record w { locked = true })
              (record i.1 { dev_id = decoded i.1.dev_id }))
            _ _ (λ e. unknown_device-IsSound (record w { locked = true }) i.1 b h)
            (λ d e.
              Then-through S (w.devices d) _
                (λ x g. known_device-IsSound (record w { locked = true }) d x b g h))))

  connect_to_rtsp_server-IsSound :
      (ip : List ℕ) (port : ℤ) (p : Option ℕ) (w : World B L)
      → S w
      → Then S (connect_to_rtsp_server o ip port p w)
  unfolding connect_to_rtsp_server
  connect_to_rtsp_server-IsSound ip port p w (owner, h) = Then-lock S w _ (λ f.
      Then-after S (through p) _ (λ d.
        Then-through S (w.devices d) _
          (λ x e. next-IsSound (add_client o w d x) (add_client-IsSound o laws owner w d x e h))))

  push_stream-IsSound : (text : List ℕ) (w : World B L) → S w → Then S (push_stream o text w)
  unfolding push_stream push_unknown pushed_device
  push_stream-IsSound text w (owner, h) = Then-after S (alone (push_command o.json text)) _ (λ r.
      Then-lock S w _ (λ f.
        Then-elim S (seek_device o.list (record w { locked = true }) r.2) _ _
          (λ e. Then-after S (alone (load_camera o.database r.2.dev_id r.2.dev_chnl)) _ (λ q.
            Then-elim S q _ _ (λ g. (owner, h))
              (λ c g.
                connect_to_rtsp_server-IsSound r.0 r.1 (some w.next)
                  (unlock (add_device o w (pushed_device o r.2 c)))
                  (
                    owner,
                    add_device-Owned o laws owner w (pushed_device o r.2 c) laws.init_lem h,
                  ))))
          (λ d e. connect_to_rtsp_server-IsSound r.0 r.1 (some d) (unlock w) (owner, h))))

  perform-IsSound :
      (p : Option ℕ) (b : ℕ) (f : Effect) (w : World B L) → S w → Then S (perform o p b f w)
  unfolding perform stop_stream
  perform-IsSound p b Effect.free_client w h = free_bev-IsSound w b h
  perform-IsSound p b Effect.disable_read w h = change_bev-IsSound w b _ h
  perform-IsSound p b (Effect.write_client bytes) w h = change_bev-IsSound w b _ h
  perform-IsSound p b Effect.close_when_written w h = change_bev-IsSound w b _ h
  perform-IsSound p b Effect.pass_on w h = next-IsSound w h
  perform-IsSound p b (Effect.deal_open_video_cmd text) w h = deal_open_video_cmd-IsSound text b w h
  perform-IsSound p b (Effect.connect_to_rtsp_server ip port) w h =
      connect_to_rtsp_server-IsSound ip port p w h
  perform-IsSound p b (Effect.push_stream text) w h = push_stream-IsSound text w h
  perform-IsSound p b (Effect.stop_stream text) w h =
      Then-after S (alone (stop_command o.json text)) _ (λ i. next-IsSound w h)

  perform_all-IsSound :
      (p : Option ℕ) (b : ℕ) (fs : List Effect) (w : World B L)
      → S w
      → Then S (perform_all o p b fs w)
  unfolding perform_all
  perform_all-IsSound p b [] w h = h
  perform_all-IsSound p b (f ∷ fs) w h =
      Then-bind S S (perform o p b f w) _ (perform-IsSound p b f w h)
        (λ w₁ k. perform_all-IsSound p b fs w₁ k)

  pub run_deal_client_cmd-IsSound :
      (p : Option ℕ) (b : ℕ) (input : List ℕ) (w : World B L)
      → S w
      → Then S (run_deal_client_cmd o p b input w)
  unfolding run_deal_client_cmd
  run_deal_client_cmd-IsSound p b input w h =
      Then-after S (alone (box_rtsp.Server.Command.deal_client_cmd o.json input)) _
        (λ r. perform_all-IsSound p b r.0 w h)
