-- ===== src/Registry/Refusing.antt =====
-- src/libevent_server.c, connect_to_rtsp_server_event_cb: a server that cannot be connected to.
use box_rtsp.Prelude.{
  ℕ, ◌≤◌, ◌≡◌, refl, true, false, List, [], ◌∷◌, none, some, arith, length, ltb, le→ltb,
}
use box_rtsp.Relay.Lists.{ListLaws}
use box_rtsp.Relay.Members.{mem, eq_self}
use box_rtsp.Registry.Run.{returns}
use box_rtsp.Registry.World.{Dev, Args, Bev, World, put, erase}
use box_rtsp.Registry.Outside.{Outside}
use box_rtsp.Registry.Session.{
  run_connect_to_rtsp_server_event_cb, server_refused, forget_client, list_delete_client,
}
use box_rtsp.Registry.Steps.{Reached}
use box_rtsp.Registry.Sound.Steps.{Reached-IsSound}

mem-length : (a : ℕ) (xs : List ℕ) → mem a xs ≡ true → 1 ≤ length xs
mem-length a [] h = cc
mem-length a (x ∷ xs) h = omega arith

module _ {B L J : Type 0} (o : Outside B L J) (laws : ListLaws o.list) where
  -- In every state that the program reaches in which the lock is free: where the server of a client that
  -- is in the list of its device cannot be connected to, the callback returns, the client is taken out of
  -- the list and freed, and the device stays in memory and in the list of devices, also where it has no
  -- other client: the branch that removes a device without clients is not taken.
  pub server_refused_keeps :
      (a b d c : ℕ) (g : Args) (x : Dev L) (v : Bev B) (w : World B L)
      → Reached o w
      → w.args a ≡ some g
      → g.dev_node ≡ some d
      → g.client_node ≡ some c
      → w.devices d ≡ some x
      → mem c (laws.elements x.rtsp_clients) ≡ true
      → w.bevs b ≡ some v
      → w.locked ≡ false
      → (w₁ : World B L) × (run_connect_to_rtsp_server_event_cb o a b false w ≡ returns w₁)
        × (w₁.clients c ≡ none)
        × (w₁.devices d ≡ some (record x { rtsp_clients = o.list.list_delete x.rtsp_clients c }))
        × (w₁.dev_list ≡ w.dev_list)
  unfolding run_connect_to_rtsp_server_event_cb server_refused forget_client
  server_refused_keeps a b d c g x v w reached e f k i m u l =
      let (owner, h) = Reached-IsSound o laws w reached in
      let ((y, p), q) = h.3 d c x i m in
      let size : ltb (o.list.list_size x.rtsp_clients) 1 ≡ false = le→ltb _ 1 (
        omega
          (arith, laws.size_lem x.rtsp_clients, mem-length c (laws.elements x.rtsp_clients) m)) in
      (
        record (list_delete_client o w d x c) {
          clients = erase w.clients c;
          args = erase w.args a;
          bevs = erase (put w.bevs b (record v { reads = false; writes = false })) b;
          locked = false;
        },
        rw (e, f, k, u, l, i, p, size, eq_self b) refl,
        rw (eq_self c) refl,
        rw (eq_self d) refl,
        refl,
      )
