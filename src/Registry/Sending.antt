-- ===== src/Registry/Sending.antt =====
-- src/dev_opt.c, read_video_data_from_dev_task: a frame reaches the clients of its device.
use box_rtsp.Prelude.{ℕ, ◌≡◌, refl, ap, true, false, some, ◌==◌}
use box_rtsp.Rtsp.Exec.{Exec, ok, halt, ◌>>=◌}
use box_rtsp.Relay.Lists.{ListLaws}
use box_rtsp.Relay.Packets.{Packet}
use box_rtsp.Relay.Client.{Client, visit, send_frame}
use box_rtsp.Relay.Dispatch.{Store, dispatch}
use box_rtsp.Relay.Queue.{dispatch-visit_all}
use box_rtsp.Relay.Members.{mem, eq_self}
use box_rtsp.Relay.Served.{Gives, Gives-ok}
use box_rtsp.Relay.Sent.{Has, visit_all_one}
use box_rtsp.Registry.Run.{returns}
use box_rtsp.Registry.World.{Dev, World}
use box_rtsp.Registry.Outside.{Outside}
use box_rtsp.Registry.Reader.{store, dispatch_frame}
use box_rtsp.Registry.Steps.{Reached}
use box_rtsp.Registry.Sound.Frame.{holds-mem, store-AreServed}
use box_rtsp.Registry.Sound.Steps.{Reached-IsSound}
use box_rtsp.Registry.Delivery.{framed, dispatch_frame_lem}

module _ {B L J : Type 0} (o : Outside B L J) (laws : ListLaws o.list) where
  Has-view :
      (c : ℕ) (z : Client B) (m : Exec (L × Store B))
      → Gives (Has c z) (m >>= λ r. ok (laws.elements r.0, r.1))
      → Gives (λ (r : L × Store B). (mem c (laws.elements r.0) ≡ true) × (r.1 c ≡ z)) m
  Has-view c z (ok r) h = h
  Has-view c z (halt q) h = h

  visit-send_frame :
      (k : Packet) (y : Client B) (out : B)
      → (y.del_flag == 1) ≡ false
      → (y.send_frame_flag == 1) ≡ true
      → y.send_video_to_server_event ≡ some out
      → visit o.buffer k y ≡ ok (some (send_frame o.buffer k y out))
  unfolding visit
  visit-send_frame k y out del flag event = simp (del, flag, event)

  -- In every state that the program reaches in which the lock is free, a frame for a device keeps a client
  -- of the device that is connected, to be sent frames and not marked for deletion in the list, and does
  -- to it what send_frame says: it writes the frame, skips it, or empties a full buffer.
  pub dispatch_frame_sends :
      (w : World B L) (d c : ℕ) (x : Dev L) (y : Client B) (out : B) (k : Packet)
      → Reached o w
      → w.locked ≡ false
      → w.devices d ≡ some x
      → mem c (laws.elements x.rtsp_clients) ≡ true
      → w.clients c ≡ some y
      → (y.del_flag == 1) ≡ false
      → (y.send_frame_flag == 1) ≡ true
      → y.send_video_to_server_event ≡ some out
      → (w₁ : World B L) × (z : Dev L) × (dispatch_frame o d k w ≡ returns w₁)
        × (w₁.clients c ≡ some (send_frame o.buffer k y out))
        × (w₁.devices d ≡ some z)
        × (mem c (laws.elements z.rtsp_clients) ≡ true)
  dispatch_frame_sends w d c x y out k reached f e i g del flag event =
      let (owner, h) = Reached-IsSound o laws w reached in
      let y₁ = send_frame o.buffer k y out in
      let (r, m, s) = Gives-ok _ (dispatch o.buffer o.list k x.rtsp_clients (store o w)) (
        Has-view c y₁ (dispatch o.buffer o.list k x.rtsp_clients (store o w)) (
          rw (dispatch-visit_all o.buffer o.list laws k x.rtsp_clients (store o w) (h.2 d x e)) (
            visit_all_one o.buffer k (laws.elements x.rtsp_clients) (store o w) c y₁ (h.2 d x e)
              (store-AreServed o laws owner w h) i
              (rw (g, store) (visit-send_frame k y out del flag event))))) in
      (
        framed o laws w d x r,
        record x { rtsp_clients = r.0 },
        dispatch_frame_lem o laws owner w d x k r h f e m,
        rw (holds-mem o laws x.rtsp_clients c, i, holds-mem o laws r.0 c, s.0) (ap some s.1),
        rw (eq_self d) refl,
        s.0,
      )
