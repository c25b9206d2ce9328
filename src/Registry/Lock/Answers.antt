-- ===== src/Registry/Lock/Answers.antt =====
-- src/dev_opt.c: when `rwlockMyLock` is free after the callbacks of a camera's connection.
use box_rtsp.Prelude.{ℕ, refl, inl, Bool, true, false, not, ◌&&◌, List, pos}
use box_rtsp.Prelude.Int.{eq_int, is_neg}
use box_rtsp.Rtsp.Parser.{Mode, Parser}
use box_rtsp.Rtsp.Input.{rtsp_parser_create, rtsp_parser_input, rtsp_parser_destroy}
use box_rtsp.Rtsp.Getters.{rtsp_get_header_by_name, rtsp_get_status_code}
use box_rtsp.Rtsp.Headers.{codes}
use box_rtsp.Rtsp.Text.{string_at}
use box_rtsp.Server.Sdp.{analysis_sdp_info}
use box_rtsp.Server.Digest.{get_realm_and_nonce}
use box_rtsp.Registry.Run.{alone, through}
use box_rtsp.Registry.World.{World, lock, unlock, put_dev, free_bev}
use box_rtsp.Registry.Text.{strcasestr}
use box_rtsp.Registry.Outside.{Outside}
use box_rtsp.Registry.Open.{sdp_message}
use box_rtsp.Registry.Describe.{
  received, lose_camera, digest_bev, run_active_connect_eventcb, sdp_ready, answer_from,
  answer_challenge, unauthorized, read_answer, run_read_dev_sdp_basic_cb,
  run_read_dev_sdp_digest_cb,
}
use box_rtsp.Registry.Rules.{Then, Then-bind, Then-after, Then-through, Then-if, Then-elim}
use box_rtsp.Registry.Lock.Connections.{put_dev-IsFreeIfSet}
use box_rtsp.Registry.Lock.{
  IsFree, IsFreeIfSet, weaken, change_bev-IsFreeIfSet, free_bev-IsFreeIfSet,
}

module _ {B L J : Type 0} (o : Outside B L J) where
  pub active_connect_eventcb-IsFreeIfSet :
      (d b : ℕ) (y : Bool) (w : World B L)
      → IsFreeIfSet w
      → Then IsFreeIfSet (run_active_connect_eventcb o d b y w)
  unfolding run_active_connect_eventcb
  active_connect_eventcb-IsFreeIfSet d b true w h =
      Then-after IsFreeIfSet (through (w.devices d)) _ (λ x. change_bev-IsFreeIfSet w b _ h)
  active_connect_eventcb-IsFreeIfSet d b false w h =
      Then-after IsFreeIfSet (through (w.devices d)) _ (λ x.
        Then-after IsFreeIfSet (lock w) _
          (λ w₁. free_bev-IsFreeIfSet (unlock (lose_camera o w₁ d x)) b (inl refl)))

  sdp_ready-IsFree : (d : ℕ) (text : List ℕ) (w : World B L) → Then IsFree (sdp_ready o d text w)
  unfolding sdp_ready
  sdp_ready-IsFree d text w = Then-after IsFree (through (w.devices d)) _ (λ x.
      Then-after IsFree (alone (analysis_sdp_info text x.sdp)) _ (λ s.
        Then-after IsFree (answer_from o _ 0 d x.wait_clients (sdp_message s) _) _
          (λ w₁. Then-after IsFree (lock w₁) _ (λ w₂. refl))))

  pub digest_cb-IsFreeIfSet :
      (d b : ℕ) (input : List ℕ) (w : World B L)
      → Then IsFreeIfSet (run_read_dev_sdp_digest_cb o d b input w)
  unfolding run_read_dev_sdp_digest_cb
  digest_cb-IsFreeIfSet d b input w = Then-after IsFreeIfSet (received input) _ (λ text.
      Then-after IsFreeIfSet (free_bev w b) _ (λ w₁. weaken o _ (sdp_ready-IsFree d text w₁)))

  answer_challenge-IsFreeIfSet :
      (d b : ℕ) (value : List ℕ) (w : World B L)
      → IsFreeIfSet w
      → Then IsFreeIfSet (answer_challenge o d b value w)
  unfolding answer_challenge
  answer_challenge-IsFreeIfSet d b value w h = Then-through IsFreeIfSet (w.devices d) _ (λ x e.
      Then-after IsFreeIfSet (alone (get_realm_and_nonce value x.challenge)) _ (λ r.
        let k = put_dev-IsFreeIfSet o w d x (record x { challenge = r.1 }) e refl h in
        Then-if IsFreeIfSet (is_neg r.0) _ _
          (λ n. free_bev-IsFreeIfSet (put_dev w d (record x { challenge = r.1 })) b k)
          (λ n.
            change_bev-IsFreeIfSet (put_dev w d (record x { challenge = r.1 })) b
              (digest_bev o d (record x { challenge = r.1 })) k)))

  unauthorized-IsFreeIfSet :
      (d b : ℕ) (text : List ℕ) (q : Parser) (w : World B L)
      → IsFreeIfSet w
      → Then IsFreeIfSet (unauthorized o d b text q w)
  unfolding unauthorized
  unauthorized-IsFreeIfSet d b text q w h =
      Then-after IsFreeIfSet (alone (rtsp_get_header_by_name q (codes "WWW-Authenticate"))) _ (λ g.
        Then-after IsFreeIfSet (alone (rtsp_parser_destroy q)) _ (λ r.
          Then-elim IsFreeIfSet g _ _ (λ e. free_bev-IsFreeIfSet w b h)
            (λ i e.
              Then-if IsFreeIfSet (strcasestr (string_at q.raw i) (codes "Digest")) _ _
                (λ c. answer_challenge-IsFreeIfSet d b (string_at q.raw i) w h)
                (λ c.
                  Then-after IsFreeIfSet (free_bev w b) _
                    (λ w₁. weaken o _ (sdp_ready-IsFree d text w₁))))))

  read_answer-IsFreeIfSet :
      (d b : ℕ) (text : List ℕ) (q : Parser) (w : World B L)
      → IsFreeIfSet w
      → Then IsFreeIfSet (read_answer o d b text q w)
  unfolding read_answer
  read_answer-IsFreeIfSet d b text q w h =
      Then-after IsFreeIfSet (alone (rtsp_get_status_code q)) _ (λ code.
        Then-if IsFreeIfSet (not (eq_int code (pos 200)) && not (eq_int code (pos 401))) _ _
          (λ e.
            Then-bind IsFreeIfSet IsFreeIfSet (free_bev w b) _ (free_bev-IsFreeIfSet w b h)
              (λ w₁ k. Then-after IsFreeIfSet (alone (rtsp_parser_destroy q)) _ (λ r. k)))
          (λ e.
            Then-if IsFreeIfSet (eq_int code (pos 401)) _ _
              (λ c. unauthorized-IsFreeIfSet d b text q w h)
              (λ c.
                Then-after IsFreeIfSet (free_bev w b) _
                  (λ w₁. weaken o _ (sdp_ready-IsFree d text w₁)))))

  pub basic_cb-IsFreeIfSet :
      (d b : ℕ) (input : List ℕ) (w : World B L)
      → IsFreeIfSet w
      → Then IsFreeIfSet (run_read_dev_sdp_basic_cb o d b input w)
  unfolding run_read_dev_sdp_basic_cb
  basic_cb-IsFreeIfSet d b input w h = Then-after IsFreeIfSet (received input) _ (λ text.
      Then-elim IsFreeIfSet (rtsp_parser_create o.parser_granted Mode.client) _ _
        (λ e. free_bev-IsFreeIfSet w b h)
        (λ p e. Then-after IsFreeIfSet (alone (rtsp_parser_input o.env p text)) _ (λ r.
          Then-if IsFreeIfSet (not (eq_int r.0 (pos 0))) _ _ (λ c. free_bev-IsFreeIfSet w b h)
            (λ c. read_answer-IsFreeIfSet d b text r.2 w h))))
