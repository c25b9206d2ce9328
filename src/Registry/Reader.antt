-- ===== src/Registry/Reader.antt =====
-- src/dev_opt.c: read_video_data_from_dev_task on the shared state: its start, one frame, and its end.
use box_rtsp.Prelude.{ℕ, Bool, true, false, not, Option, none, some, ltb, ◌==◌, if◌then◌else◌, ℤ}
use box_rtsp.Rtsp.Exec.{Halt}
use box_rtsp.Relay.Packets.{Packet, admit}
use box_rtsp.Relay.Client.{Client}
use box_rtsp.Relay.Dispatch.{Store, dispatch}
use box_rtsp.Registry.Run.{Run, returns, fails, ◌>>=◌, through, alone}
use box_rtsp.Registry.World.{Bev, Callbacks, Heap, put, erase, World, lock, unlock, put_dev}
use box_rtsp.Registry.Outside.{Outside}
use box_rtsp.Registry.Push.{no_client}

module _ {B L J : Type 0} (o : Outside B L J) where
  abbrev pub is_some : {A : Type 0} → Option A → Bool
  is_some none = false
  is_some (some a) = true

  -- Whether a list holds an address.
  abbrev pub holds : L → ℕ → Bool
  holds l a = is_some (o.list.list_seek l (λ b. b == a))

  -- The clients of a list in memory; `all_there` says that none of them is freed.
  abbrev pub store : World B L → Store B
  store w c = elim (w.clients c) [ none ↦ no_client o | some x ↦ x ]

  abbrev pub all_there : World B L → L → Bool
  all_there w l = not (is_some (o.list.list_seek l (λ c. not (is_some (w.clients c)))))

  -- The client whose `pSendVideoToServerEvent` the bufferevent is.
  abbrev pub client_of : World B L → Bev B → Option ℕ
  client_of w v = elim v.callbacks [
    | Callbacks.send_rtsp_to_server_event_error_cb a ↦ elim (w.args a) [
      | none ↦ none
      | some g ↦ g.client_node
    ]
    | _ ↦ none
  ]

  -- Whether a client was in the list `l` and is not in `r`.
  abbrev pub has_left : L → L → ℕ → Bool
  has_left l r c = if holds l c then not (holds r c) else false

  -- The clients behind the frame. One that has left is not freed: its bufferevent is, and
  -- `pSendVideoToServerEvent` is NULL.
  abbrev pub clients_behind : World B L → L → L → Store B → Heap (Client B)
  clients_behind w l r s c =
      if holds l c
      then if holds r c
        then some (s c)
        else some (record (store w c) { send_video_to_server_event = none })
      else w.clients c

  -- bufferevent_free of the clients that have left.
  abbrev pub freed_bevs : World B L → L → L → Heap (Bev B)
  freed_bevs w l r b = elim (w.bevs b) [
    | none ↦ none
    | some v ↦ elim (client_of w v) [
      | none ↦ some v
      | some c ↦ if has_left l r c then none else some v
    ]
  ]

  -- The frame goes to the clients of the device at `d`, under the lock.
  unfoldable pub dispatch_frame : ℕ → Packet → World B L → Run (World B L)
  dispatch_frame d k w = do
    w₁ ← lock w
    x ← through (w₁.devices d)
    if all_there w₁ x.rtsp_clients
        then (alone (dispatch o.buffer o.list k x.rtsp_clients (store w₁)) >>= λ r. returns (
            unlock (record (put_dev w₁ d (record x { rtsp_clients = r.0 })) {
              clients = clients_behind w₁ x.rtsp_clients r.0 r.1;
              bevs = freed_bevs w₁ x.rtsp_clients r.0;
            })))
        else fails Halt.faults

  -- The label `End`.
  unfoldable pub end_thread : ℕ → World B L → Run (World B L)
  end_thread h w = do
    g ← through (w.threads h)
    w₁ ← lock w
    x ← through (w₁.devices g.dev_node)
    returns (record (unlock (record w₁ { dev_list = o.list.list_delete w₁.dev_list g.dev_node })) {
      devices = erase w₁.devices g.dev_node;
      threads = erase w₁.threads h;
    })

  -- What is in front of the loop: the streams are those that were found.
  unfoldable pub begin_thread : ℕ → ℤ → ℤ → World B L → Run (World B L)
  begin_thread h v a w = do
    g ← through (w.threads h)
    x ← through (w.devices g.dev_node)
    returns (record (put_dev w g.dev_node (record x { start_thread_flag = 1 })) {
      threads = put w.threads h (record g { runs = true; videoindex = v; audioindex = a });
    })

  -- One turn of the loop, on the packet that av_read_frame gave.
  unfoldable pub read_frame : ℕ → Packet → World B L → Run (World B L)
  read_frame h k w = do
    g ← through (w.threads h)
    x ← through (w.devices g.dev_node)
    if ltb (o.list.list_size x.rtsp_clients) 1
        then end_thread h w
        else let (passes, flag) = admit g.videoindex g.audioindex g.i_flag k in
          let w₁ = record w { threads = put w.threads h (record g { i_flag = flag }) } in
          if passes then dispatch_frame g.dev_node k w₁ else returns w₁
