-- ===== src/Registry/Lock/Connections.antt =====
-- src/libevent_server.c and src/dev_opt.c: when `rwlockMyLock` is free.
use box_rtsp.Prelude.{
  ℕ, ◌≡◌, refl, sym, ◌∙◌, inl, inr, Bool, ◌&&◌, Option, none, some, ◌==◌, if◌then◌else◌, ltb,
  Bool-cases,
}
use box_rtsp.Relay.Members.{eq_lem}
use box_rtsp.Registry.Run.{through}
use box_rtsp.Registry.World.{
  Dev, ErrorCb, World, lock, unlock, put_dev, change_bev, disable_bev, free_bev,
}
use box_rtsp.Registry.Outside.{Outside}
use box_rtsp.Registry.Session.{
  create_thread, serve_client, server_connected, server_refused, forget_client, mark_client,
  drop_client, drop_unwatched, run_connect_to_rtsp_server_event_cb,
  run_send_rtsp_to_server_event_error_cb, run_deal_client_cmd_error_cb1,
  run_deal_client_cmd_error_cb2, run_deal_write_ok,
}
use box_rtsp.Registry.Steps.{error_cb}
use box_rtsp.Registry.Rules.{same_some, Then, Then-bind, Then-after, Then-if}
use box_rtsp.Registry.Lock.{
  IsFree, IsFreeIfSet, weaken, change_bev-IsFreeIfSet, free_bev-IsFreeIfSet,
}

module _ {B L J : Type 0} (o : Outside B L J) where
  -- A device may change while its status stays.
  pub put_dev-IsFreeIfSet :
      (w : World B L) (d : ℕ) (x y : Dev L)
      → w.devices d ≡ some x
      → y.dev_connect_status ≡ x.dev_connect_status
      → IsFreeIfSet w
      → IsFreeIfSet (put_dev w d y)
  put_dev-IsFreeIfSet w d x y e s (inl f) = inl f
  put_dev-IsFreeIfSet w d x y e s (inr (c, z, g, u)) = elim (Bool-cases (c == d)) [
    | inl q ↦ inr (c, y, rw q refl, rw (s, same_some x z (sym e ∙ rw (eq_lem c d q) at g)) u)
    | inr q ↦ inr (c, z, rw q g, u)
  ]

  IsFree-at_last : (w : World B L) (b : ℕ) → IsFree w → Then IsFree (free_bev w b)
  IsFree-at_last w b h = Then-after IsFree (through (w.bevs b)) _ (λ v. h)

  serve_client-IsFree : (a d b : ℕ) (w : World B L) → Then IsFree (serve_client o a d b w)
  unfolding serve_client
  serve_client-IsFree a d b w = Then-after IsFree (lock w) _ (λ w₁.
      Then-after IsFree (through (w₁.devices d)) _ (λ y.
        Then-after IsFree
          (change_bev (if y.start_thread_flag == 0 then create_thread o w₁ d else w₁) b _) _
          (λ w₂. refl)))

  server_connected-IsFree :
      (a d c b : ℕ) (w : World B L) → Then IsFree (server_connected o a d c b w)
  unfolding server_connected
  server_connected-IsFree a d c b w =
      Then-after IsFree (through (w.clients c)) _
        (λ x. Then-after IsFree (through (w.bevs b)) _ (λ v. serve_client-IsFree a d b _))

  server_refused-IsFree : (a d c b : ℕ) (w : World B L) → Then IsFree (server_refused o a d c b w)
  unfolding server_refused
  server_refused-IsFree a d c b w = Then-after IsFree (disable_bev w b) _ (λ w₁.
      Then-after IsFree (lock w₁) _ (λ w₂. Then-after IsFree (forget_client o d c w₂) _ (λ w₃.
        Then-bind IsFree IsFree (free_bev (unlock w₃) b) _ (IsFree-at_last (unlock w₃) b refl)
          (λ w₄ k. k))))

  pub connect_cb-IsFree :
      (a b : ℕ) (y : Bool) (w : World B L)
      → Then IsFree (run_connect_to_rtsp_server_event_cb o a b y w)
  unfolding run_connect_to_rtsp_server_event_cb
  connect_cb-IsFree a b y w = Then-after IsFree (through (w.args a)) _ (λ g.
      Then-after IsFree (through g.dev_node) _ (λ d.
        Then-after IsFree (through g.client_node) _ (λ c.
          Then-if IsFree y _ _ (λ e. server_connected-IsFree a d c b w)
            (λ e. server_refused-IsFree a d c b w))))

  mark_client-IsFreeIfSet :
      (c b : ℕ) (w : World B L) → IsFreeIfSet w → Then IsFreeIfSet (mark_client o c b w)
  unfolding mark_client
  mark_client-IsFreeIfSet c b w h = Then-after IsFreeIfSet (through (w.clients c)) _ (λ x.
      Then-after IsFreeIfSet (through x.send_video_to_server_event) _ (λ u.
        Then-bind IsFreeIfSet IsFreeIfSet (disable_bev w b) _ (change_bev-IsFreeIfSet w b _ h)
          (λ w₁ k. k)))

  drop_client-IsFree : (a d c b : ℕ) (w : World B L) → Then IsFree (drop_client o a d c b w)
  unfolding drop_client
  drop_client-IsFree a d c b w = Then-after IsFree (through (w.clients c)) _ (λ x.
      Then-after IsFree (through x.send_video_to_server_event) _ (λ u.
        Then-after IsFree (disable_bev w b) _ (λ w₁.
          Then-after IsFree (lock w₁) _
            (λ w₂. Then-after IsFree (through (w₂.devices d)) _ (λ y. refl)))))

  pub send_cb-IsFreeIfSet :
      (a b : ℕ) (w : World B L)
      → IsFreeIfSet w
      → Then IsFreeIfSet (run_send_rtsp_to_server_event_error_cb o a b w)
  unfolding run_send_rtsp_to_server_event_error_cb
  send_cb-IsFreeIfSet a b w h = Then-after IsFreeIfSet (through (w.args a)) _ (λ g.
      Then-after IsFreeIfSet (through g.dev_node) _ (λ d.
        Then-after IsFreeIfSet (through (w.devices d)) _ (λ x.
          Then-after IsFreeIfSet (through g.client_node) _ (λ c.
            Then-if IsFreeIfSet (x.start_thread_flag == 1) _ _
              (λ e. mark_client-IsFreeIfSet c b w h)
              (λ e. weaken o _ (drop_client-IsFree a d c b w))))))

  drop_unwatched-IsFreeIfSet :
      (p : Option ℕ) (w : World B L) → IsFreeIfSet w → Then IsFreeIfSet (drop_unwatched o p w)
  unfolding drop_unwatched
  drop_unwatched-IsFreeIfSet none w h = h
  drop_unwatched-IsFreeIfSet (some d) w h = Then-after IsFreeIfSet (through (w.devices d)) _ (λ x.
      Then-if IsFreeIfSet
        (ltb (o.list.list_size x.rtsp_clients) 1 && ltb (o.list.list_size x.wait_clients) 1) _ _
        (λ e. Then-after IsFreeIfSet (lock w) _ (λ w₁. inl refl)) (λ e. h))

  pub error_cb-IsFreeIfSet :
      (cb : ErrorCb) (b : ℕ) (w : World B L) → IsFreeIfSet w → Then IsFreeIfSet (error_cb o cb b w)
  unfolding error_cb run_deal_client_cmd_error_cb1 run_deal_client_cmd_error_cb2
  error_cb-IsFreeIfSet ErrorCb.no_cb b w h = h
  error_cb-IsFreeIfSet ErrorCb.deal_client_cmd_error_cb1 b w h = free_bev-IsFreeIfSet w b h
  error_cb-IsFreeIfSet (ErrorCb.deal_client_cmd_error_cb2 p) b w h =
      Then-bind IsFreeIfSet IsFreeIfSet (disable_bev w b) _ (change_bev-IsFreeIfSet w b _ h)
        (λ w₁ k.
          Then-bind IsFreeIfSet IsFreeIfSet (drop_unwatched o p w₁) _
            (drop_unwatched-IsFreeIfSet p w₁ k) (λ w₂ l. free_bev-IsFreeIfSet w₂ b l))

  pub deal_write_ok-IsFreeIfSet :
      (n b : ℕ) (w : World B L) → IsFreeIfSet w → Then IsFreeIfSet (run_deal_write_ok o n b w)
  unfolding run_deal_write_ok
  deal_write_ok-IsFreeIfSet n b w h = Then-after IsFreeIfSet (through (w.bevs b)) _ (λ v.
      Then-bind IsFreeIfSet IsFreeIfSet (change_bev w b _) _ (change_bev-IsFreeIfSet w b _ h)
        (λ w₁ k.
          Then-if IsFreeIfSet (o.buffer.get_length (o.buffer.drain v.output n) == 0) _ _
            (λ e. free_bev-IsFreeIfSet w₁ b k) (λ e. k)))
