-- ===== src/Registry/Sound/Answers.antt =====
-- src/dev_opt.c: what the callbacks of a camera's connection keep of the lists.
use box_rtsp.Prelude.{
  ℕ, zero, suc, ◌+◌, ◌≡◌, refl, sym, inl, inr, Bool, true, false, not, ◌&&◌, List, Option, ltb,
  Bool-cases, pos,
}
use box_rtsp.Prelude.Int.{eq_int, is_neg}
use box_rtsp.Rtsp.Parser.{Mode, Parser}
use box_rtsp.Rtsp.Input.{rtsp_parser_create, rtsp_parser_input, rtsp_parser_destroy}
use box_rtsp.Rtsp.Getters.{rtsp_get_header_by_name, rtsp_get_status_code}
use box_rtsp.Rtsp.Headers.{codes}
use box_rtsp.Rtsp.Text.{string_at}
use box_rtsp.Server.Sdp.{analysis_sdp_info}
use box_rtsp.Server.Digest.{get_realm_and_nonce}
use box_rtsp.Relay.Lists.{ListLaws}
use box_rtsp.Relay.Members.{eq_self}
use box_rtsp.Registry.Run.{◌>>=◌, through, alone}
use box_rtsp.Registry.World.{Bev, connected, World, unlock, put_dev, change_bev, free_bev}
use box_rtsp.Registry.Text.{strcasestr}
use box_rtsp.Registry.Outside.{Outside}
use box_rtsp.Registry.Open.{sdp_message}
use box_rtsp.Registry.Session.{list_delete_dev}
use box_rtsp.Registry.Describe.{
  received, lose_camera, digest_bev, answer_bev, run_active_connect_eventcb, sdp_ready, answer_from,
  answer_challenge, unauthorized, read_answer, run_read_dev_sdp_basic_cb,
  run_read_dev_sdp_digest_cb,
}
use box_rtsp.Registry.Rules.{
  Then, Then-bind, Then-after, Then-through, Then-if, Then-elim, Then-lock, Then-change_bev,
}
use box_rtsp.Registry.Sound.{put_dev-Owned, delete_dev-Owned}
use box_rtsp.Registry.Sound.Commands.{S, change_bev-IsSound, free_bev-IsSound, put_dev-IsSound}

module _ {B L J : Type 0} (o : Outside B L J) (laws : ListLaws o.list) where
  pub active_connect_eventcb-IsSound :
      (d b : ℕ) (y : Bool) (w : World B L)
      → S o laws w
      → Then (S o laws) (run_active_connect_eventcb o d b y w)
  unfolding run_active_connect_eventcb
  active_connect_eventcb-IsSound d b true w h =
      Then-after (S o laws) (through (w.devices d)) _ (λ x. change_bev-IsSound o laws w b _ h)
  active_connect_eventcb-IsSound d b false w (owner, h) =
      Then-through (S o laws) (w.devices d) _ (λ x e. Then-lock (S o laws) w _ (λ f.
        free_bev-IsSound o laws (unlock (lose_camera o (record w { locked = true }) d x)) b (
          owner,
          put_dev-Owned o laws owner (list_delete_dev o w d) d x _ e refl
              (delete_dev-Owned o laws owner w d h),
        )))

  -- The answers change bufferevents only.
  pub Then-answer_from :
      (P : World B L → Type 0)
      → ((w : World B L) (m : ℕ → Option (Bev B)) → P w → P (record w { bevs = m }))
      → (fuel i d : ℕ) (l : L) (message : List ℕ) (w : World B L) → P w
      → Then P (answer_from o fuel i d l message w)
  unfolding answer_from
  Then-answer_from P k zero i d l message w h =
      Then-if P (ltb i (o.list.list_size l)) _ _ (λ e. tt) (λ e. h)
  Then-answer_from P k (suc fuel) i d l message w h =
      elim (Bool-cases (ltb i (o.list.list_size l))) [
        | inr q ↦ rw (q, answer_from) h
        | inl q ↦
            rw (q, answer_from)
              (Then-after P (through (o.list.list_get_at l i)) _ (λ b.
                Then-bind P P (change_bev w b (answer_bev o d message)) _
                  (Then-change_bev P w b _ (λ m. k w m h))
                  (λ w₁ h₁. Then-answer_from P k fuel (i + 1) d l message w₁ h₁)))
      ]

  sdp_ready-IsSound :
      (d : ℕ) (text : List ℕ) (w : World B L) → S o laws w → Then (S o laws) (sdp_ready o d text w)
  unfolding sdp_ready
  sdp_ready-IsSound d text w h = Then-through (S o laws) (w.devices d) _ (λ x e.
      Then-after (S o laws) (alone (analysis_sdp_info text x.sdp)) _ (λ s.
        let y = record x { sdp = s; dev_connect_status = connected } in
        let k = put_dev-IsSound o laws w d x y e refl h in
        Then-bind (λ w₁. S o laws w₁ × ((put_dev w d y).devices d ≡ w₁.devices d)) (S o laws)
          (answer_from o (o.list.list_size x.wait_clients) 0 d x.wait_clients (sdp_message s)
            (put_dev w d y))
          _
          (Then-answer_from (λ w₁. S o laws w₁ × ((put_dev w d y).devices d ≡ w₁.devices d))
            (λ w₁ m i. i) _ 0 d x.wait_clients (sdp_message s) (put_dev w d y) (k, refl))
          (λ w₁ (h₁, f). Then-lock (S o laws) w₁ _ (λ g.
            put_dev-IsSound o laws w₁ d y
              (record y { wait_clients = o.list.list_destroy x.wait_clients })
              (rw (eq_self d) at (sym f)) refl h₁))))

  pub digest_cb-IsSound :
      (d b : ℕ) (input : List ℕ) (w : World B L)
      → S o laws w
      → Then (S o laws) (run_read_dev_sdp_digest_cb o d b input w)
  unfolding run_read_dev_sdp_digest_cb
  digest_cb-IsSound d b input w h = Then-after (S o laws) (received input) _ (λ text.
      Then-bind (S o laws) (S o laws) (free_bev w b) _ (free_bev-IsSound o laws w b h)
        (λ w₁ k. sdp_ready-IsSound d text w₁ k))

  answer_challenge-IsSound :
      (d b : ℕ) (value : List ℕ) (w : World B L)
      → S o laws w
      → Then (S o laws) (answer_challenge o d b value w)
  unfolding answer_challenge
  answer_challenge-IsSound d b value w h = Then-through (S o laws) (w.devices d) _ (λ x e.
      Then-after (S o laws) (alone (get_realm_and_nonce value x.challenge)) _ (λ r.
        let y = record x { challenge = r.1 } in
        let k = put_dev-IsSound o laws w d x y e refl h in
        Then-if (S o laws) (is_neg r.0) _ _ (λ n. free_bev-IsSound o laws (put_dev w d y) b k)
          (λ n. change_bev-IsSound o laws (put_dev w d y) b (digest_bev o d y) k)))

  described :
      (d b : ℕ) (text : List ℕ) (w : World B L)
      → S o laws w
      → Then (S o laws) (free_bev w b >>= λ w₁. sdp_ready o d text w₁)
  described d b text w h =
      Then-bind (S o laws) (S o laws) (free_bev w b) _ (free_bev-IsSound o laws w b h)
        (λ w₁ k. sdp_ready-IsSound d text w₁ k)

  unauthorized-IsSound :
      (d b : ℕ) (text : List ℕ) (q : Parser) (w : World B L)
      → S o laws w
      → Then (S o laws) (unauthorized o d b text q w)
  unfolding unauthorized
  unauthorized-IsSound d b text q w h =
      Then-after (S o laws) (alone (rtsp_get_header_by_name q (codes "WWW-Authenticate"))) _ (λ g.
        Then-after (S o laws) (alone (rtsp_parser_destroy q)) _ (λ r.
          Then-elim (S o laws) g _ _ (λ e. free_bev-IsSound o laws w b h)
            (λ i e.
              Then-if (S o laws) (strcasestr (string_at q.raw i) (codes "Digest")) _ _
                (λ c. answer_challenge-IsSound d b (string_at q.raw i) w h)
                (λ c. described d b text w h))))

  read_answer-IsSound :
      (d b : ℕ) (text : List ℕ) (q : Parser) (w : World B L)
      → S o laws w
      → Then (S o laws) (read_answer o d b text q w)
  unfolding read_answer
  read_answer-IsSound d b text q w h =
      Then-after (S o laws) (alone (rtsp_get_status_code q)) _ (λ code.
        Then-if (S o laws) (not (eq_int code (pos 200)) && not (eq_int code (pos 401))) _ _
          (λ e.
            Then-bind (S o laws) (S o laws) (free_bev w b) _ (free_bev-IsSound o laws w b h)
              (λ w₁ k. Then-after (S o laws) (alone (rtsp_parser_destroy q)) _ (λ r. k)))
          (λ e.
            Then-if (S o laws) (eq_int code (pos 401)) _ _
              (λ c. unauthorized-IsSound d b text q w h) (λ c. described d b text w h)))

  pub basic_cb-IsSound :
      (d b : ℕ) (input : List ℕ) (w : World B L)
      → S o laws w
      → Then (S o laws) (run_read_dev_sdp_basic_cb o d b input w)
  unfolding run_read_dev_sdp_basic_cb
  basic_cb-IsSound d b input w h = Then-after (S o laws) (received input) _ (λ text.
      Then-elim (S o laws) (rtsp_parser_create o.parser_granted Mode.client) _ _
        (λ e. free_bev-IsSound o laws w b h)
        (λ p e. Then-after (S o laws) (alone (rtsp_parser_input o.env p text)) _ (λ r.
          Then-if (S o laws) (not (eq_int r.0 (pos 0))) _ _ (λ c. free_bev-IsSound o laws w b h)
            (λ c. read_answer-IsSound d b text r.2 w h))))
