-- ===== src/Registry/Sound/Servers.antt =====
-- src/libevent_server.c: what the callbacks of a server's connection keep of the lists.
use box_rtsp.Prelude.{
  ℕ, ◌<◌, ◌≡◌, refl, sym, ◌∙◌, inl, inr, Bool, true, false, List, [], ◌∷◌, some, arith, length,
  ◌==◌, ltb, ltb→lt, Bool-cases,
}
use box_rtsp.Relay.Lists.{ListLaws}
use box_rtsp.Relay.Members.{mem, mem_removed, eq_self}
use box_rtsp.Registry.Run.{through}
use box_rtsp.Registry.World.{
  Dev, World, erase, unlock, put_client, change_bev, disable_bev, free_bev,
}
use box_rtsp.Registry.Outside.{Outside}
use box_rtsp.Registry.Session.{
  create_thread, serve_client, server_connected, server_refused, forget_client, list_delete_dev,
  list_delete_client, run_connect_to_rtsp_server_event_cb,
}
use box_rtsp.Registry.Rules.{
  Then, Then-bind, Then-after, Then-through, Then-if, Then-lock, Then-change_bev,
}
use box_rtsp.Registry.Rules.{same_some}
use box_rtsp.Registry.Sound.{Owned, put_client-Owned, delete_dev-Owned}
use box_rtsp.Registry.Sound.Changes.{
  delete_client-Owned, erase_client-Owned, erase_dev-Owned, erase_args-Owned,
}
use box_rtsp.Registry.Sound.Commands.{S, change_bev-IsSound, free_bev-IsSound, next-IsSound}

mem_short : (a : ℕ) (xs : List ℕ) → length xs < 1 → mem a xs ≡ false
mem_short a [] h = refl
mem_short a (x ∷ xs) h = ground arith

module _ {B L J : Type 0} (o : Outside B L J) (laws : ListLaws o.list) where
  -- A client that is not in the list of its device is in no list.
  no_list :
      (owner : ℕ → ℕ) (w : World B L) (c d : ℕ)
      → Owned o laws owner w
      → owner c ≡ d
      → ((x : Dev L) → w.devices d ≡ some x → mem c (laws.elements x.rtsp_clients) ≡ false)
      → (b : ℕ) (x : Dev L) → w.devices b ≡ some x
      → mem c (laws.elements x.rtsp_clients) ≡ false
  no_list owner w c d h e k b x f = elim (Bool-cases (mem c (laws.elements x.rtsp_clients))) [
    | inr q ↦ q
    | inl q ↦ let d_b : d ≡ b = sym e ∙ (h.3 b c x f q).1 in k x (rw d_b f)
  ]

  alone_device :
      (owner : ℕ → ℕ) (w : World B L) (d c : ℕ) (x : Dev L)
      → w.devices d ≡ some x
      → o.list.list_size x.rtsp_clients < 1
      → owner c ≡ d
      → Owned o laws owner w
      → S o laws (record (list_delete_dev o w d) {
        clients = erase w.clients c;
        devices = erase w.devices d;
      })
  alone_device owner w d c x e s q h = (
    owner,
    erase_dev-Owned o laws owner (record (list_delete_dev o w d) { clients = erase w.clients c }) d
        (rw (laws.delete_lem w.dev_list d) (mem_removed d (laws.elements w.dev_list) h.0))
        (erase_client-Owned o laws owner (list_delete_dev o w d) c
          (no_list owner w c d h q (λ y f. rw (sym (same_some x y (sym e ∙ f))) (
            mem_short c (laws.elements x.rtsp_clients)
              (omega (arith, laws.size_lem x.rtsp_clients, s)))))
          (delete_dev-Owned o laws owner w d h)),
  )

  shared_device :
      (owner : ℕ → ℕ) (w : World B L) (d c : ℕ) (x : Dev L)
      → w.devices d ≡ some x
      → owner c ≡ d
      → Owned o laws owner w
      → S o laws (record (list_delete_client o w d x c) { clients = erase w.clients c })
  shared_device owner w d c x e q h =
      let k = delete_client-Owned o laws owner w d x c e h in
      (
        owner,
        erase_client-Owned o laws owner (list_delete_client o w d x c) c
            (no_list owner (list_delete_client o w d x c) c d k q (λ y f.
              let g : some (record x { rtsp_clients = o.list.list_delete x.rtsp_clients c })
                  ≡ some y =
                rw (eq_self d) at f in
              rw
                (
                  sym (
                      same_some (record x { rtsp_clients = o.list.list_delete x.rtsp_clients c }) y
                        g),
                  laws.delete_lem x.rtsp_clients c,
                )
                (mem_removed c (laws.elements x.rtsp_clients) (h.2 d x e))))
            k,
      )

  forget_client-IsSound :
      (owner : ℕ → ℕ) (d c : ℕ) (w : World B L)
      → owner c ≡ d
      → Owned o laws owner w
      → Then (S o laws) (forget_client o d c w)
  unfolding forget_client
  forget_client-IsSound owner d c w q h = Then-through (S o laws) (w.devices d) _ (λ x e.
      Then-after (S o laws) (through (w.clients c)) _ (λ z.
        elim (Bool-cases (ltb (o.list.list_size x.rtsp_clients) 1)) [
          | inl l ↦ rw l (alone_device owner w d c x e (ltb→lt _ 1 l) q h)
          | inr l ↦ rw l (shared_device owner w d c x e q h)
        ]))

  server_refused-IsSound :
      (owner : ℕ → ℕ) (a d c b : ℕ) (w : World B L)
      → owner c ≡ d
      → Owned o laws owner w
      → Then (S o laws) (server_refused o a d c b w)
  unfolding server_refused
  server_refused-IsSound owner a d c b w q h =
      Then-bind (Owned o laws owner) (S o laws) (disable_bev w b) _
        (Then-change_bev (Owned o laws owner) w b _ (λ m. h))
        (λ w₁ h₁. Then-lock (S o laws) w₁ _ (λ f.
          Then-bind (S o laws) (S o laws) (forget_client o d c (record w₁ { locked = true })) _
            (forget_client-IsSound owner d c (record w₁ { locked = true }) q h₁)
            (λ w₃ h₃.
              Then-bind (S o laws) (S o laws) (free_bev (unlock w₃) b) _
                (free_bev-IsSound o laws (unlock w₃) b h₃)
                (λ w₄ (p, h₄). (p, erase_args-Owned o laws p w₄ a h₄)))))

  serve_client-IsSound :
      (a d b : ℕ) (w : World B L) → S o laws w → Then (S o laws) (serve_client o a d b w)
  unfolding serve_client
  serve_client-IsSound a d b w h = Then-lock (S o laws) w _ (λ f.
      Then-after (S o laws) (through (w.devices d)) _ (λ y.
        elim (Bool-cases (y.start_thread_flag == 0)) [
          | inl l ↦ rw l (
              Then-bind (S o laws) (S o laws)
                (change_bev (create_thread o (record w { locked = true }) d) b _) _
                (change_bev-IsSound o laws (create_thread o (record w { locked = true }) d) b _
                  (next-IsSound o laws w h))
                (λ w₂ k. k))
          | inr l ↦ rw l (
              Then-bind (S o laws) (S o laws) (change_bev (record w { locked = true }) b _) _
                (change_bev-IsSound o laws (record w { locked = true }) b _ h) (λ w₂ k. k))
        ]))

  server_connected-IsSound :
      (a d c b : ℕ) (w : World B L) → S o laws w → Then (S o laws) (server_connected o a d c b w)
  unfolding server_connected
  server_connected-IsSound a d c b w (owner, h) = Then-through (S o laws) (w.clients c) _ (λ x e.
      Then-after (S o laws) (through (w.bevs b)) _ (λ v.
        serve_client-IsSound a d b
          (put_client w c
            (record x { send_video_to_server_event = some v.output; send_frame_flag = 1 }))
          (owner, put_client-Owned o laws owner w c x _ e tt h)))

  pub connect_cb-IsSound :
      (a b : ℕ) (y : Bool) (w : World B L)
      → S o laws w
      → Then (S o laws) (run_connect_to_rtsp_server_event_cb o a b y w)
  unfolding run_connect_to_rtsp_server_event_cb
  connect_cb-IsSound a b y w (owner, h) = Then-through (S o laws) (w.args a) _ (λ g e.
      Then-through (S o laws) g.dev_node _ (λ d f. Then-through (S o laws) g.client_node _ (λ c k.
        Then-if (S o laws) y _ _ (λ t. server_connected-IsSound a d c b w (owner, h))
          (λ t. server_refused-IsSound owner a d c b w (h.4 a d c g e f k).0 h))))
