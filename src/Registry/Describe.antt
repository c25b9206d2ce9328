-- ===== src/Registry/Describe.antt =====
-- src/dev_opt.c: active_connect_eventcb, read_dev_sdp_basic_cb and read_dev_sdp_digest_cb, the
-- connection to a camera until its description is there.
use box_rtsp.Prelude.{
  ℕ, zero, suc, ◌+◌, Bool, true, false, not, ◌&&◌, List, ◌++◌, none, some, ltb, ◌==◌, if◌then◌else◌,
  length, take, pos,
}
use box_rtsp.Prelude.Int.{eq_int, is_neg}
use box_rtsp.Rtsp.Parser.{Mode, Parser}
use box_rtsp.Rtsp.Exec.{Halt}
use box_rtsp.Rtsp.Headers.{codes}
use box_rtsp.Rtsp.Text.{c_string, string_at}
use box_rtsp.Rtsp.Input.{rtsp_parser_create, rtsp_parser_destroy, rtsp_parser_input}
use box_rtsp.Rtsp.Getters.{rtsp_get_status_code, rtsp_get_header_by_name}
use box_rtsp.Server.Device.{Device, chosen_url, describe_request, snprintf}
use box_rtsp.Server.Sdp.{analysis_sdp_info}
use box_rtsp.Server.Digest.{Challenge, get_realm_and_nonce, get_response}
use box_rtsp.Registry.Run.{Run, returns, fails, ◌>>=◌, through, alone}
use box_rtsp.Registry.World.{
  Dev, Bev, connected, disconnect, deal_client_cmd, deal_client_cmd_error_cb2,
  read_dev_sdp_digest_cb, World, lock, unlock, put_dev, change_bev, free_bev,
}
use box_rtsp.Registry.Text.{strcasestr}
use box_rtsp.Registry.Outside.{Outside}
use box_rtsp.Registry.Open.{sdp_message}

-- SEND_DESCRIBE_DIGEST_MSG
unfoldable pub digest_request : Device → Challenge → List ℕ → List ℕ
digest_request d c response = snprintf 1024 (
    codes "DESCRIBE "
    ++ (chosen_url d
        ++ (codes " RTSP/1.0\r\nCSeq: 4\r\nAuthorization: Digest username=\""
            ++ (d.user_name
                ++ (codes "\", realm=\""
                    ++ (c.realm
                        ++ (codes "\", nonce=\""
                            ++ (c.nonce
                                ++ (codes "\", uri=\""
                                    ++ (chosen_url d
                                        ++ (codes "\", response=\""
                                            ++ (response
                                                ++ codes
                                                    "\"\r\nUser-Agent: LibVLC/2.2.6 (LIVE555 Streaming Media v2016.02.22)\r\nAccept: application/sdp\r\n\r\n"))))))))))))

-- The text in `cRecvBuf`; where no byte of it is 0 it is read on behind the array.
unfoldable pub received : List ℕ → Run (List ℕ)
received input =
    if length (c_string (take 10240 input)) == 10240
    then fails Halt.faults
    else returns (c_string (take 10240 input))

module _ {B L J : Type 0} (o : Outside B L J) where
  -- The camera leaves the list, and those that wait for it are forgotten.
  abbrev pub lose_camera : World B L → ℕ → Dev L → World B L
  lose_camera w d x =
      put_dev (record w { dev_list = o.list.list_delete w.dev_list d }) d
        (record x {
          dev_connect_status = disconnect;
          wait_clients = o.list.list_destroy x.wait_clients;
        })

  unfoldable pub run_active_connect_eventcb : ℕ → ℕ → Bool → World B L → Run (World B L)
  run_active_connect_eventcb d b true w = do
    x ← through (w.devices d)
    change_bev w b (λ v. record v { output = o.buffer.write v.output (describe_request x.camera) })
  run_active_connect_eventcb d b false w = do
    x ← through (w.devices d)
    w₁ ← lock w
    free_bev (unlock (lose_camera w₁ d x)) b

  -- What a client that waits is given, and the callbacks for its next command.
  abbrev pub answer_bev : ℕ → List ℕ → Bev B → Bev B
  answer_bev d message v = record v {
    output = o.buffer.write v.output message;
    callbacks = deal_client_cmd (deal_client_cmd_error_cb2 (some d)) (some d);
    reads = true;
  }

  -- The turns from position `i` on, while `i < list_size(plistWaitClient)`.
  unfoldable pub answer_from : ℕ → ℕ → ℕ → L → List ℕ → World B L → Run (World B L)
  answer_from zero i d l message w =
      if ltb i (o.list.list_size l) then fails Halt.spins else returns w
  answer_from (suc fuel) i d l message w = elim (ltb i (o.list.list_size l)) [
    | false ↦ returns w
    | true ↦ through (o.list.list_get_at l i) >>= λ b.
        (change_bev w b (answer_bev d message) >>= λ w₁. answer_from fuel (i + 1) d l message w₁)
  ]

  -- The description is there.
  unfoldable pub sdp_ready : ℕ → List ℕ → World B L → Run (World B L)
  sdp_ready d text w = do
    x ← through (w.devices d)
    s ← alone (analysis_sdp_info text x.sdp)
    y ← returns (record x { sdp = s; dev_connect_status = connected })
    w₁ ←
        answer_from (o.list.list_size x.wait_clients) 0 d x.wait_clients (sdp_message s)
          (put_dev w d y)
    w₂ ← lock w₁
    returns (unlock (put_dev w₂ d (record y { wait_clients = o.list.list_destroy x.wait_clients })))

  unfoldable pub run_read_dev_sdp_digest_cb : ℕ → ℕ → List ℕ → World B L → Run (World B L)
  run_read_dev_sdp_digest_cb d b input w = do
    text ← received input
    w₁ ← free_bev w b
    sdp_ready d text w₁

  -- The bufferevent of a camera that has sent a challenge.
  abbrev pub digest_bev : ℕ → Dev L → Bev B → Bev B
  digest_bev d x v = record v {
    output = o.buffer.write v.output (
        digest_request x.camera x.challenge
          (get_response o.md5 (codes "DESCRIBE") x.camera x.challenge));
    callbacks = read_dev_sdp_digest_cb d;
    reads = true;
  }

  -- A challenge by MD5: the request is written again, with the response.
  unfoldable pub answer_challenge : ℕ → ℕ → List ℕ → World B L → Run (World B L)
  answer_challenge d b value w = do
    x ← through (w.devices d)
    r ← alone (get_realm_and_nonce value x.challenge)
    if is_neg r.0
        then free_bev (put_dev w d (record x { challenge = r.1 })) b
        else change_bev (put_dev w d (record x { challenge = r.1 })) b
            (digest_bev d (record x { challenge = r.1 }))

  -- An answer with the code 401. The value of the header is read after the parser that holds it is
  -- freed; the bytes are taken to be still there.
  unfoldable pub unauthorized : ℕ → ℕ → List ℕ → Parser → World B L → Run (World B L)
  unauthorized d b text q w = do
    h ← alone (rtsp_get_header_by_name q (codes "WWW-Authenticate"))
    _ ← alone (rtsp_parser_destroy q)
    elim h [
      | none ↦ free_bev w b
      | some i ↦
          if strcasestr (string_at q.raw i) (codes "Digest")
          then answer_challenge d b (string_at q.raw i) w
          else (free_bev w b >>= λ w₁. sdp_ready d text w₁)
    ]

  -- A finished answer.
  unfoldable pub read_answer : ℕ → ℕ → List ℕ → Parser → World B L → Run (World B L)
  read_answer d b text q w = do
    code ← alone (rtsp_get_status_code q)
    if not (eq_int code (pos 200)) && not (eq_int code (pos 401))
        then (free_bev w b >>= λ w₁. alone (rtsp_parser_destroy q) >>= λ _. returns w₁)
        else if eq_int code (pos 401)
        then unauthorized d b text q w
        else (free_bev w b >>= λ w₁. sdp_ready d text w₁)

  unfoldable pub run_read_dev_sdp_basic_cb : ℕ → ℕ → List ℕ → World B L → Run (World B L)
  run_read_dev_sdp_basic_cb d b input w = do
    text ← received input
    elim (rtsp_parser_create o.parser_granted Mode.client) [
      | none ↦ free_bev w b
      | some parser ↦ alone (rtsp_parser_input o.env parser text) >>= λ r.
          if not (eq_int r.0 (pos 0)) then free_bev w b else read_answer d b text r.2 w
    ]
