-- ===== src/Registry/Session.antt =====
-- src/libevent_server.c: connect_to_rtsp_server_event_cb and send_rtsp_to_server_event_error_cb, and
-- the error callbacks of the clients that send commands (with src/dev_opt.c).
use box_rtsp.Prelude.{
  ℕ, suc, Bool, false, ◌&&◌, Option, none, some, ltb, ◌==◌, if◌then◌else◌, negsuc,
}
use box_rtsp.Registry.Run.{Run, returns, ◌>>=◌, through}
use box_rtsp.Registry.World.{
  Dev, send_rtsp_to_server_event_error_cb, World, put, erase, lock, unlock, put_dev, put_client,
  change_bev, disable_bev, free_bev,
}
use box_rtsp.Registry.Outside.{Outside}

module _ {B L J : Type 0} (o : Outside B L J) where
  -- pthread_create of read_video_data_from_dev_task.
  abbrev pub create_thread : World B L → ℕ → World B L
  create_thread w d = record w {
    threads = put w.threads w.next (record {
      dev_node = d;
      runs = false;
      videoindex = negsuc 0;
      audioindex = negsuc 0;
      i_flag = false;
    });
    next = suc w.next;
  }

  abbrev pub list_delete_dev : World B L → ℕ → World B L
  list_delete_dev w d = record w { dev_list = o.list.list_delete w.dev_list d }

  -- list_delete of a client from the list of the device at `d`.
  abbrev pub list_delete_client : World B L → ℕ → Dev L → ℕ → World B L
  list_delete_client w d x c =
      put_dev w d (record x { rtsp_clients = o.list.list_delete x.rtsp_clients c })

  -- The thread is created where its flag is not set, and the callbacks are those of a connection that
  -- stands.
  unfoldable pub serve_client : ℕ → ℕ → ℕ → World B L → Run (World B L)
  serve_client a d b w = do
    w₁ ← lock w
    y ← through (w₁.devices d)
    w₂ ←
        change_bev (if y.start_thread_flag == 0 then create_thread w₁ d else w₁) b
          (λ z. record z { callbacks = send_rtsp_to_server_event_error_cb a })
    returns (unlock w₂)

  -- The connection to the server stands: the client at `c` of the device at `d` is to be sent frames.
  unfoldable pub server_connected : ℕ → ℕ → ℕ → ℕ → World B L → Run (World B L)
  server_connected a d c b w = do
    x ← through (w.clients c)
    v ← through (w.bevs b)
    serve_client a d b (
        put_client w c
          (record x { send_video_to_server_event = some v.output; send_frame_flag = 1 }))

  -- What is freed of the device and the client.
  unfoldable pub forget_client : ℕ → ℕ → World B L → Run (World B L)
  forget_client d c w = do
    x ← through (w.devices d)
    _ ← through (w.clients c)
    returns (
        if ltb (o.list.list_size x.rtsp_clients) 1
        then record (list_delete_dev w d) {
          clients = erase w.clients c;
          devices = erase w.devices d;
        }
        else record (list_delete_client w d x c) { clients = erase w.clients c })

  unfoldable pub server_refused : ℕ → ℕ → ℕ → ℕ → World B L → Run (World B L)
  server_refused a d c b w = do
    w₁ ← disable_bev w b
    w₂ ← lock w₁
    w₃ ← forget_client d c w₂
    w₄ ← free_bev (unlock w₃) b
    returns (record w₄ { args = erase w₄.args a })

  -- The flag is BEV_EVENT_CONNECTED.
  unfoldable pub run_connect_to_rtsp_server_event_cb : ℕ → ℕ → Bool → World B L → Run (World B L)
  run_connect_to_rtsp_server_event_cb a b is_connected w = do
    g ← through (w.args a)
    d ← through g.dev_node
    c ← through g.client_node
    if is_connected then server_connected a d c b w else server_refused a d c b w

  -- The thread runs: it takes the client out at its next frame.
  unfoldable pub mark_client : ℕ → ℕ → World B L → Run (World B L)
  mark_client c b w = do
    x ← through (w.clients c)
    _ ← through x.send_video_to_server_event
    w₁ ← disable_bev w b
    returns (put_client w₁ c (record x { del_flag = 1 }))

  -- The thread does not run: the client leaves the list, and the device with the last one.
  unfoldable pub drop_client : ℕ → ℕ → ℕ → ℕ → World B L → Run (World B L)
  drop_client a d c b w = do
    x ← through (w.clients c)
    _ ← through x.send_video_to_server_event
    w₁ ← disable_bev w b
    w₂ ← lock w₁
    y ← through (w₂.devices d)
    w₃ ← returns (list_delete_client w₂ d y c)
    w₄ ← returns (
        if ltb (o.list.list_size (o.list.list_delete y.rtsp_clients c)) 1
        then list_delete_dev w₃ d
        else w₃)
    returns (record (unlock w₄) { args = erase w₄.args a })

  -- The bufferevent at `b` is the client's.
  unfoldable pub run_send_rtsp_to_server_event_error_cb : ℕ → ℕ → World B L → Run (World B L)
  run_send_rtsp_to_server_event_error_cb a b w = do
    g ← through (w.args a)
    d ← through g.dev_node
    x ← through (w.devices d)
    c ← through g.client_node
    if x.start_thread_flag == 1 then mark_client c b w else drop_client a d c b w

  unfoldable pub run_deal_client_cmd_error_cb1 : ℕ → World B L → Run (World B L)
  run_deal_client_cmd_error_cb1 b w = free_bev w b

  -- The device leaves the list where nobody watches it or waits for it.
  unfoldable pub drop_unwatched : Option ℕ → World B L → Run (World B L)
  drop_unwatched none w = returns w
  drop_unwatched (some d) w = through (w.devices d) >>= λ x.
      if ltb (o.list.list_size x.rtsp_clients) 1 && ltb (o.list.list_size x.wait_clients) 1
      then (lock w >>= λ w₁. returns (unlock (list_delete_dev w₁ d)))
      else returns w

  unfoldable pub run_deal_client_cmd_error_cb2 : Option ℕ → ℕ → World B L → Run (World B L)
  run_deal_client_cmd_error_cb2 p b w = do
    w₁ ← disable_bev w b
    w₂ ← drop_unwatched p w₁
    free_bev w₂ b

  -- What deal_write_ok does once `n` more bytes are sent.
  unfoldable pub run_deal_write_ok : ℕ → ℕ → World B L → Run (World B L)
  run_deal_write_ok n b w = do
    v ← through (w.bevs b)
    w₁ ← change_bev w b (λ u. record u { output = o.buffer.drain u.output n })
    if o.buffer.get_length (o.buffer.drain v.output n) == 0 then free_bev w₁ b else returns w₁
