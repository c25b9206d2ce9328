-- ===== src/Registry/Sound/Errors.antt =====
-- src/libevent_server.c and src/dev_opt.c: what the error callbacks keep of the lists.
use box_rtsp.Prelude.{
  ℕ, ◌≡◌, inl, inr, true, ◌&&◌, Option, none, some, ◌==◌, if◌then◌else◌, ltb, Bool-cases,
}
use box_rtsp.Relay.Lists.{ListLaws}
use box_rtsp.Registry.Run.{returns, ◌>>=◌, through}
use box_rtsp.Registry.World.{Dev, ErrorCb, World, erase, unlock, change_bev, disable_bev}
use box_rtsp.Registry.Outside.{Outside}
use box_rtsp.Registry.Session.{
  mark_client, drop_client, drop_unwatched, list_delete_dev, list_delete_client,
  run_send_rtsp_to_server_event_error_cb, run_deal_client_cmd_error_cb1,
  run_deal_client_cmd_error_cb2, run_deal_write_ok,
}
use box_rtsp.Registry.Steps.{error_cb}
use box_rtsp.Registry.Rules.{
  Then, Then-bind, Then-after, Then-through, Then-if, Then-lock, Then-change_bev,
}
use box_rtsp.Registry.Sound.{Owned, put_client-Owned, delete_dev-Owned}
use box_rtsp.Registry.Sound.Changes.{delete_client-Owned, erase_args-Owned}
use box_rtsp.Relay.Served.{marked-Served}
use box_rtsp.Registry.Sound.Commands.{S, change_bev-IsSound, free_bev-IsSound}

module _ {B L J : Type 0} (o : Outside B L J) (laws : ListLaws o.list) where
  mark_client-IsSound :
      (c b : ℕ) (w : World B L) → S o laws w → Then (S o laws) (mark_client o c b w)
  unfolding mark_client
  mark_client-IsSound c b w (owner, h) = Then-through (S o laws) (w.clients c) _ (λ x e.
      Then-after (S o laws) (through x.send_video_to_server_event) _ (λ u.
        Then-bind (λ w₁. Owned o laws owner w₁ × (w₁.clients c ≡ some x)) (S o laws)
          (disable_bev w b) _
          (Then-change_bev (λ w₁. Owned o laws owner w₁ × (w₁.clients c ≡ some x)) w b _
            (λ m. (h, e)))
          (λ w₁ (h₁, e₁). (
            owner,
            put_client-Owned o laws owner w₁ c x _ e₁
                (marked-Served x.send_frame_flag x.send_video_to_server_event) h₁,
          ))))

  drop_client-IsSound :
      (a d c b : ℕ) (w : World B L) → S o laws w → Then (S o laws) (drop_client o a d c b w)
  unfolding drop_client
  drop_client-IsSound a d c b w (owner, h) = Then-after (S o laws) (through (w.clients c)) _ (λ x.
      Then-after (S o laws) (through x.send_video_to_server_event) _ (λ u.
        Then-bind (Owned o laws owner) (S o laws) (disable_bev w b) _
          (Then-change_bev (Owned o laws owner) w b _ (λ m. h))
          (λ w₁ h₁. Then-lock (S o laws) w₁ _ (λ f.
            Then-through (S o laws) (w₁.devices d) _
              (λ y e. dropped w₁ y (delete_client-Owned o laws owner w₁ d y c e h₁))))))
    where
      dropped :
          (w₁ : World B L) (y : Dev L)
          → Owned o laws owner (list_delete_client o w₁ d y c)
          → Then (S o laws) (
              returns (
                if ltb (o.list.list_size (o.list.list_delete y.rtsp_clients c)) 1
                then list_delete_dev o (list_delete_client o (record w₁ { locked = true }) d y c) d
                else list_delete_client o (record w₁ { locked = true }) d y c)
              >>= λ w₄. returns (record (unlock w₄) { args = erase w₄.args a }))
      dropped w₁ y k =
          elim (Bool-cases (ltb (o.list.list_size (o.list.list_delete y.rtsp_clients c)) 1)) [
            | inl l ↦
                let v = list_delete_client o w₁ d y c in
                rw l (
                  owner,
                  erase_args-Owned o laws owner (list_delete_dev o v d) a
                      (delete_dev-Owned o laws owner v d k),
                )
            | inr l ↦
                rw l (owner, erase_args-Owned o laws owner (list_delete_client o w₁ d y c) a k)
          ]

  pub send_cb-IsSound :
      (a b : ℕ) (w : World B L)
      → S o laws w
      → Then (S o laws) (run_send_rtsp_to_server_event_error_cb o a b w)
  unfolding run_send_rtsp_to_server_event_error_cb
  send_cb-IsSound a b w h = Then-after (S o laws) (through (w.args a)) _ (λ g.
      Then-after (S o laws) (through g.dev_node) _ (λ d.
        Then-after (S o laws) (through (w.devices d)) _ (λ x.
          Then-after (S o laws) (through g.client_node) _ (λ c.
            Then-if (S o laws) (x.start_thread_flag == 1) _ _ (λ e. mark_client-IsSound c b w h)
              (λ e. drop_client-IsSound a d c b w h)))))

  drop_unwatched-IsSound :
      (p : Option ℕ) (w : World B L) → S o laws w → Then (S o laws) (drop_unwatched o p w)
  unfolding drop_unwatched
  drop_unwatched-IsSound none w h = h
  drop_unwatched-IsSound (some d) w (owner, h) =
      Then-after (S o laws) (through (w.devices d)) _ (λ x.
        Then-if (S o laws)
          (ltb (o.list.list_size x.rtsp_clients) 1 && ltb (o.list.list_size x.wait_clients) 1) _ _
          (λ e. Then-lock (S o laws) w _ (λ f. (owner, delete_dev-Owned o laws owner w d h)))
          (λ e. (owner, h)))

  pub error_cb-IsSound :
      (cb : ErrorCb) (b : ℕ) (w : World B L) → S o laws w → Then (S o laws) (error_cb o cb b w)
  unfolding error_cb run_deal_client_cmd_error_cb1 run_deal_client_cmd_error_cb2
  error_cb-IsSound ErrorCb.no_cb b w h = h
  error_cb-IsSound ErrorCb.deal_client_cmd_error_cb1 b w h = free_bev-IsSound o laws w b h
  error_cb-IsSound (ErrorCb.deal_client_cmd_error_cb2 p) b w h =
      Then-bind (S o laws) (S o laws) (disable_bev w b) _ (change_bev-IsSound o laws w b _ h)
        (λ w₁ k.
          Then-bind (S o laws) (S o laws) (drop_unwatched o p w₁) _ (drop_unwatched-IsSound p w₁ k)
            (λ w₂ l. free_bev-IsSound o laws w₂ b l))

  pub deal_write_ok-IsSound :
      (n b : ℕ) (w : World B L) → S o laws w → Then (S o laws) (run_deal_write_ok o n b w)
  unfolding run_deal_write_ok
  deal_write_ok-IsSound n b w h = Then-after (S o laws) (through (w.bevs b)) _ (λ v.
      Then-bind (S o laws) (S o laws) (change_bev w b _) _ (change_bev-IsSound o laws w b _ h)
        (λ w₁ k.
          Then-if (S o laws) (o.buffer.get_length (o.buffer.drain v.output n) == 0) _ _
            (λ e. free_bev-IsSound o laws w₁ b k) (λ e. k)))
