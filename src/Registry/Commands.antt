-- ===== src/Registry/Commands.antt =====
-- src/libevent_server.c: accept_client_connect_cb, and deal_client_cmd with the handlers that it calls.
use box_rtsp.Prelude.{ℕ, true, false, List, [], ◌∷◌, Option, none, pos}
use box_rtsp.Server.Command.{Effect}
use box_rtsp.Registry.Run.{Run, returns, ◌>>=◌, alone}
use box_rtsp.Registry.World.{
  Callbacks, deal_client_cmd_error_cb1, World, change_bev, free_bev, new_bev,
}
use box_rtsp.Registry.Outside.{Outside}
use box_rtsp.Registry.Open.{deal_open_video_cmd}
use box_rtsp.Registry.Push.{
  connect_to_rtsp_server, push_stream, stop_stream, connect_to_push_client,
}

module _ {B L J : Type 0} (o : Outside B L J) where
  -- The client has no callback argument.
  unfoldable pub accept_client_connect_cb : World B L → World B L
  accept_client_connect_cb w =
      new_bev o.buffer w (Callbacks.deal_client_cmd deal_client_cmd_error_cb1 none) true [] (pos 0)

  -- One call of deal_client_cmd for the client at `b`, whose callback argument is `p`.
  unfoldable pub perform : Option ℕ → ℕ → Effect → World B L → Run (World B L)
  perform p b Effect.free_client w = free_bev w b
  perform p b Effect.disable_read w = change_bev w b (λ v. record v { reads = false })
  perform p b (Effect.write_client bytes) w =
      change_bev w b (λ v. record v { output = o.buffer.write v.output bytes })
  perform p b Effect.close_when_written w =
      change_bev w b (λ v. record v { callbacks = Callbacks.deal_write_ok })
  perform p b Effect.pass_on w = returns (connect_to_push_client o w)
  perform p b (Effect.deal_open_video_cmd text) w = deal_open_video_cmd o text b w
  perform p b (Effect.connect_to_rtsp_server ip port) w = connect_to_rtsp_server o ip port p w
  perform p b (Effect.push_stream text) w = push_stream o text w
  perform p b (Effect.stop_stream text) w = stop_stream o text w

  unfoldable pub perform_all : Option ℕ → ℕ → List Effect → World B L → Run (World B L)
  perform_all p b [] w = returns w
  perform_all p b (f ∷ fs) w = perform p b f w >>= λ w₁. perform_all p b fs w₁

  -- The bytes are those in the input buffer; those behind the command are taken to arrive anew.
  unfoldable pub run_deal_client_cmd : Option ℕ → ℕ → List ℕ → World B L → Run (World B L)
  run_deal_client_cmd p b input w =
      alone (box_rtsp.Server.Command.deal_client_cmd o.json input) >>= λ r. perform_all p b r.0 w
