-- ===== src/Registry/Lock.antt =====
-- src/libevent_server.c and src/dev_opt.c: who holds `rwlockMyLock` between two steps.
pub mod Connections
pub mod Answers
pub mod Steps
use box_rtsp.Prelude.{
  ℕ, ◌≡◌, refl, ◌⊎◌, inl, inr, Bool, true, false, List, [], ◌∷◌, Option, none, some, ◌==◌,
  if◌then◌else◌, ltb, ℤ, Bool-cases,
}
use box_rtsp.Relay.Packets.{Packet}
use box_rtsp.Server.Command.{Effect}
use box_rtsp.Registry.Run.{Run, returns, fails, blocks, ◌>>=◌, alone, through}
use box_rtsp.Registry.World.{
  Dev, connected, connecting, Bev, Callbacks, ErrorCb, World, put, lock, unlock, dev_at, put_dev,
  change_bev, disable_bev, free_bev,
}
use box_rtsp.Registry.Outside.{Outside}
use box_rtsp.Registry.Database.{load_camera}
use box_rtsp.Registry.Lookup.{DevInfo, seek_device, analysis_json_dev_info}
use box_rtsp.Registry.Request.{push_command, stop_command}
use box_rtsp.Registry.Open.{deal_open_video_cmd, known_device, unknown_device, test_dev_connection}
use box_rtsp.Registry.Push.{
  connect_to_rtsp_server, push_unknown, push_stream, stop_stream, run_send_msg_to_push_client,
}
use box_rtsp.Registry.Commands.{perform, perform_all, run_deal_client_cmd}
use box_rtsp.Registry.Rules.{
  Then, Then-bind, Then-after, Then-through, Then-if, Then-elim, Then-returns,
}

-- A status that is neither CONNECTED nor CONNECTING.
abbrev pub IsUnset : ℕ → Type 0
IsUnset s = ((s == connected) ≡ false) × ((s == connecting) ≡ false)

module _ {B L : Type 0} where
  abbrev pub IsFree : World B L → Type 0
  IsFree w = w.locked ≡ false

  -- The lock is free, or a device with such a status is there.
  abbrev pub IsFreeIfSet : World B L → Type 0
  IsFreeIfSet w =
      IsFree w ⊎ ((d : ℕ) × (x : Dev L) × (w.devices d ≡ some x) × IsUnset x.dev_connect_status)

  pub change_bev-IsFreeIfSet :
      (w : World B L) (b : ℕ) (f : Bev B → Bev B)
      → IsFreeIfSet w
      → Then IsFreeIfSet (change_bev w b f)
  change_bev-IsFreeIfSet w b f h = Then-after IsFreeIfSet (through (w.bevs b)) _ (λ v. h)

  pub free_bev-IsFreeIfSet :
      (w : World B L) (b : ℕ) → IsFreeIfSet w → Then IsFreeIfSet (free_bev w b)
  free_bev-IsFreeIfSet w b h = Then-after IsFreeIfSet (through (w.bevs b)) _ (λ v. h)

module _ {B L J : Type 0} (o : Outside B L J) where
  known_device-IsFreeIfSet :
      (w : World B L) (d : ℕ) (x : Dev L) (b : ℕ)
      → w.devices d ≡ some x
      → Then IsFreeIfSet (known_device o w d x b)
  unfolding known_device
  known_device-IsFreeIfSet w d x b e =
      Then-if IsFreeIfSet (x.dev_connect_status == connected) _ _
        (λ c. change_bev-IsFreeIfSet (unlock w) b _ (inl refl))
        (λ n.
          Then-if IsFreeIfSet (x.dev_connect_status == connecting) _ _ (λ c. inl refl)
            (λ m. inr (d, x, e, (n, m))))

  unknown_device-IsFree :
      (w : World B L) (i : DevInfo) (b : ℕ) → Then IsFree (unknown_device o w i b)
  unfolding unknown_device test_dev_connection
  unknown_device-IsFree w i b =
      Then-after IsFree (alone (load_camera o.database i.dev_id i.dev_chnl)) _
        (λ r. Then-elim IsFree r _ _ (λ e. refl) (λ c e. refl))

  pub weaken : (m : Run (World B L)) → Then IsFree m → Then IsFreeIfSet m
  weaken (returns w) h = inl h
  weaken (fails q) h = tt
  weaken blocks h = tt

  deal_open_video_cmd-IsFreeIfSet :
      (text : List ℕ) (b : ℕ) (w : World B L) → Then IsFreeIfSet (deal_open_video_cmd o text b w)
  unfolding deal_open_video_cmd
  deal_open_video_cmd-IsFreeIfSet text b w =
      Then-after IsFreeIfSet (alone (analysis_json_dev_info o.json text _)) _ (λ i.
        Then-after IsFreeIfSet (lock w) _ (λ w₁.
          Then-elim IsFreeIfSet (seek_device o.list w₁ _) _ _
            (λ e. weaken _ (unknown_device-IsFree w₁ i.1 b))
            (λ d e.
              Then-through IsFreeIfSet (w₁.devices d) _
                (λ x f. known_device-IsFreeIfSet w₁ d x b f))))

  pub connect_to_rtsp_server-IsFree :
      (ip : List ℕ) (port : ℤ) (p : Option ℕ) (w : World B L)
      → Then IsFree (connect_to_rtsp_server o ip port p w)
  unfolding connect_to_rtsp_server
  connect_to_rtsp_server-IsFree ip port p w = Then-after IsFree (lock w) _ (λ w₁.
      Then-after IsFree (through p) _
        (λ d. Then-after IsFree (through (w₁.devices d)) _ (λ x. refl)))

  push_stream-IsFree : (text : List ℕ) (w : World B L) → Then IsFree (push_stream o text w)
  unfolding push_stream push_unknown
  push_stream-IsFree text w = Then-after IsFree (alone (push_command o.json text)) _ (λ r.
      Then-after IsFree (lock w) _ (λ w₁.
        Then-elim IsFree (seek_device o.list w₁ r.2) _ _
          (λ e. Then-after IsFree (alone (load_camera o.database r.2.dev_id r.2.dev_chnl)) _ (λ q.
            Then-elim IsFree q _ _ (λ f. refl) (λ c f. connect_to_rtsp_server-IsFree r.0 r.1 _ _)))
          (λ d e. connect_to_rtsp_server-IsFree r.0 r.1 (some d) (unlock w₁))))

  perform-IsFreeIfSet :
      (p : Option ℕ) (b : ℕ) (f : Effect) (w : World B L)
      → IsFreeIfSet w
      → Then IsFreeIfSet (perform o p b f w)
  unfolding perform stop_stream
  perform-IsFreeIfSet p b Effect.free_client w h = free_bev-IsFreeIfSet w b h
  perform-IsFreeIfSet p b Effect.disable_read w h = change_bev-IsFreeIfSet w b _ h
  perform-IsFreeIfSet p b (Effect.write_client bytes) w h = change_bev-IsFreeIfSet w b _ h
  perform-IsFreeIfSet p b Effect.close_when_written w h = change_bev-IsFreeIfSet w b _ h
  perform-IsFreeIfSet p b Effect.pass_on w h = h
  perform-IsFreeIfSet p b (Effect.deal_open_video_cmd text) w h =
      deal_open_video_cmd-IsFreeIfSet text b w
  perform-IsFreeIfSet p b (Effect.connect_to_rtsp_server ip port) w h =
      weaken _ (connect_to_rtsp_server-IsFree ip port p w)
  perform-IsFreeIfSet p b (Effect.push_stream text) w h = weaken _ (push_stream-IsFree text w)
  perform-IsFreeIfSet p b (Effect.stop_stream text) w h =
      Then-after IsFreeIfSet (alone (stop_command o.json text)) _ (λ i. h)

  perform_all-IsFreeIfSet :
      (p : Option ℕ) (b : ℕ) (fs : List Effect) (w : World B L)
      → IsFreeIfSet w
      → Then IsFreeIfSet (perform_all o p b fs w)
  unfolding perform_all
  perform_all-IsFreeIfSet p b [] w h = h
  perform_all-IsFreeIfSet p b (f ∷ fs) w h =
      Then-bind IsFreeIfSet IsFreeIfSet (perform o p b f w) _ (perform-IsFreeIfSet p b f w h)
        (λ w₁ k. perform_all-IsFreeIfSet p b fs w₁ k)

  pub run_deal_client_cmd-IsFreeIfSet :
      (p : Option ℕ) (b : ℕ) (input : List ℕ) (w : World B L)
      → IsFreeIfSet w
      → Then IsFreeIfSet (run_deal_client_cmd o p b input w)
  unfolding run_deal_client_cmd
  run_deal_client_cmd-IsFreeIfSet p b input w h =
      Then-after IsFreeIfSet (alone (box_rtsp.Server.Command.deal_client_cmd o.json input)) _
        (λ r. perform_all-IsFreeIfSet p b r.0 w h)
