-- ===== src/Registry/Delivery.antt =====
-- src/dev_opt.c, read_video_data_from_dev_task: a frame in a state that the program has reached.
use box_rtsp.Prelude.{ℕ, ◌≡◌, refl, ◌∙◌, true, false, not, List, none, some, ◌==◌}
use box_rtsp.Rtsp.Exec.{Exec, ok, halt, ◌>>=◌}
use box_rtsp.Relay.Lists.{ListLaws}
use box_rtsp.Relay.Packets.{Packet}
use box_rtsp.Relay.Client.{Client}
use box_rtsp.Relay.Dispatch.{Store, dispatch}
use box_rtsp.Relay.Queue.{dispatch-visit_all}
use box_rtsp.Relay.Members.{mem, eq_self, find_all}
use box_rtsp.Relay.Served.{Gives, Gives-ok, visit_all_gone}
use box_rtsp.Registry.Run.{returns}
use box_rtsp.Registry.World.{Dev, Bev, World, unlock, put_dev}
use box_rtsp.Registry.Outside.{Outside}
use box_rtsp.Registry.Reader.{
  is_some, all_there, holds, client_of, store, clients_behind, freed_bevs, dispatch_frame,
}
use box_rtsp.Registry.Steps.{Reached}
use box_rtsp.Registry.Sound.{Owned}
use box_rtsp.Registry.Sound.Frame.{holds-mem, dispatch-Leaves, store-AreServed}
use box_rtsp.Registry.Sound.Steps.{Reached-IsSound}

module _ {B L J : Type 0} (o : Outside B L J) (laws : ListLaws o.list) where
  -- No client of a device in memory is freed.
  all_there_lem :
      (owner : ℕ → ℕ) (w : World B L) (d : ℕ) (x : Dev L)
      → w.devices d ≡ some x
      → Owned o laws owner w
      → all_there o w x.rtsp_clients ≡ true
  all_there_lem owner w d x e h =
      rw
        (
          laws.seek_lem x.rtsp_clients (λ c. not (is_some o (w.clients c))),
          find_all (λ c. not (is_some o (w.clients c))) (laws.elements x.rtsp_clients)
              (λ c i. let ((y, f), g) = h.3 d c x e i in rw f refl),
        )
        refl

  -- What the frame leaves.
  abbrev pub framed : World B L → ℕ → Dev L → L × Store B → World B L
  framed w d x r = unlock (record (put_dev w d (record x { rtsp_clients = r.0 })) {
    clients = clients_behind o w x.rtsp_clients r.0 r.1;
    bevs = freed_bevs o w x.rtsp_clients r.0;
  })

  pub dispatch_frame_lem :
      (owner : ℕ → ℕ) (w : World B L) (d : ℕ) (x : Dev L) (k : Packet) (r : L × Store B)
      → Owned o laws owner w
      → w.locked ≡ false
      → w.devices d ≡ some x
      → dispatch o.buffer o.list k x.rtsp_clients (store o w) ≡ ok r
      → dispatch_frame o d k w ≡ returns (framed w d x r)
  unfolding dispatch_frame
  dispatch_frame_lem owner w d x k r h f e m = rw (f, e, all_there_lem owner w d x e h, m) refl

  -- In every state that the program reaches in which the lock is free, a frame for a device in memory
  -- returns: it reads no client that was freed, writes to no client without a connection, and gives
  -- the lock back.
  pub dispatch_frame_returns :
      (w : World B L) (d : ℕ) (x : Dev L) (k : Packet)
      → Reached o w
      → w.locked ≡ false
      → w.devices d ≡ some x
      → (w₁ : World B L) × (dispatch_frame o d k w ≡ returns w₁) × (w₁.locked ≡ false)
  dispatch_frame_returns w d x k reached f e =
      let (owner, h) = Reached-IsSound o laws w reached in
      let (r, m, s) = Gives-ok _ (dispatch o.buffer o.list k x.rtsp_clients (store o w)) (
        dispatch-Leaves o laws k x.rtsp_clients (store o w) (h.2 d x e)
          (store-AreServed o laws owner w h)) in
      (framed w d x r, dispatch_frame_lem owner w d x k r h f e m, refl)

  gone_view :
      (c : ℕ) (m : Exec (L × Store B))
      → Gives (λ (r : List ℕ × Store B). mem c r.0 ≡ false) (m >>= λ r. ok (laws.elements r.0, r.1))
      → Gives (λ (r : L × Store B). mem c (laws.elements r.0) ≡ false) m
  gone_view c (ok r) h = h
  gone_view c (halt q) h = h

  -- What the frame leaves of the bufferevents of a client that has left.
  clients-bevs :
      (w : World B L) (c b : ℕ) (v : Bev B) (l r : L)
      → w.bevs b ≡ some v
      → client_of o w v ≡ some c
      → holds o l c ≡ true
      → holds o r c ≡ false
      → freed_bevs o w l r b ≡ none
  clients-bevs w c b v l r e f m n = rw (freed_bevs, e, f, m, n) refl

  -- In every state that the program reaches in which the lock is free, a frame for a device takes a client
  -- of the device that is marked for deletion and connected out of the list, frees the bufferevents of
  -- which it is the client, and sets its pointer to NULL. The client itself is not freed.
  pub dispatch_frame_frees :
      (w : World B L) (d c b : ℕ) (x : Dev L) (y : Client B) (v : Bev B) (out : B) (k : Packet)
      → Reached o w
      → w.locked ≡ false
      → w.devices d ≡ some x
      → mem c (laws.elements x.rtsp_clients) ≡ true
      → w.clients c ≡ some y
      → (y.del_flag == 1) ≡ true
      → y.send_video_to_server_event ≡ some out
      → w.bevs b ≡ some v
      → client_of o w v ≡ some c
      → (w₁ : World B L) × (z : Dev L) × (dispatch_frame o d k w ≡ returns w₁)
        × (w₁.clients c ≡ some (record y { send_video_to_server_event = none }))
        × (w₁.bevs b ≡ none)
        × (w₁.devices d ≡ some z)
        × (mem c (laws.elements z.rtsp_clients) ≡ false)
  dispatch_frame_frees w d c b x y v out k reached f e i g del event u q =
      let (owner, h) = Reached-IsSound o laws w reached in
      let (r, m, s) = Gives-ok _ (dispatch o.buffer o.list k x.rtsp_clients (store o w)) (
        gone_view c (dispatch o.buffer o.list k x.rtsp_clients (store o w)) (
          rw (dispatch-visit_all o.buffer o.list laws k x.rtsp_clients (store o w) (h.2 d x e)) (
            visit_all_gone o.buffer k (laws.elements x.rtsp_clients) (store o w) c out (h.2 d x e)
              (store-AreServed o laws owner w h) (rw (g, store) del) (rw (g, store) event)))) in
      let in_old = holds-mem o laws x.rtsp_clients c ∙ i in
      let in_new = holds-mem o laws r.0 c ∙ s in
      (
        framed w d x r,
        record x { rtsp_clients = r.0 },
        dispatch_frame_lem owner w d x k r h f e m,
        rw (in_old, in_new, store, g) refl,
        clients-bevs w c b v x.rtsp_clients r.0 u q in_old in_new,
        rw (eq_self d) refl,
        s,
      )
