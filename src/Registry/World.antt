-- ===== src/Registry/World.antt =====
-- inc/dev_list.h and inc/libevent_server.h: what the event thread and the cameras' threads share. A
-- pointer is an address, and NULL is `none`; at an address stands an object until it is freed.
use box_rtsp.Prelude.{
  ℕ, suc, Bool, true, false, List, Option, none, some, ◌==◌, ◌%◌, ◌^◌, if◌then◌else◌, ℤ,
}
use box_rtsp.Relay.Lists.{Evbuffer}
use box_rtsp.Relay.Client.{Client, to_word64}
use box_rtsp.Server.Device.{Device}
use box_rtsp.Server.Sdp.{Sdp}
use box_rtsp.Server.Digest.{Challenge}
use box_rtsp.Registry.Run.{Run, returns, blocks, ◌>>=◌, through}

-- `DEV_LIST_OBJ`; `camera` has the addresses and `iDevStreamType`.
pub record Dev (L : Type 0) : Type 0 where
  pub dev_id : List ℕ
  pub dev_chnl : ℤ
  pub camera : Device
  pub sdp : Sdp
  pub challenge : Challenge
  pub start_thread_flag : ℕ
  pub dev_connect_status : ℕ
  pub rtsp_clients : L
  pub wait_clients : L

-- `DEV_CONNECT_STATUS`; an object that `memset` has cleared has 0, which is none of its values.
abbrev pub connected : ℕ
connected = 1

abbrev pub connecting : ℕ
connecting = 2

abbrev pub disconnect : ℕ
disconnect = 3

-- `LIBEVENT_ARGS_DEV_OBJ`
pub record Args : Type 0 where
  pub dev_node : Option ℕ
  pub client_node : Option ℕ

-- The error callback that stands beside deal_client_cmd.
pub data ErrorCb : Type 0 where
  no_cb : ErrorCb
  deal_client_cmd_error_cb1 : ErrorCb
  deal_client_cmd_error_cb2 : Option ℕ → ErrorCb

-- The callbacks that bufferevent_setcb has given a bufferevent, with their argument. Those that read
-- a camera's answer stand beside active_connect_eventcb. The argument of send_msg_to_push_client
-- is an array of a function that has returned.
pub data Callbacks : Type 0 where
  deal_client_cmd : ErrorCb → Option ℕ → Callbacks
  deal_write_ok : Callbacks
  connect_to_rtsp_server_event_cb : ℕ → Callbacks
  send_rtsp_to_server_event_error_cb : ℕ → Callbacks
  send_msg_to_push_client : Callbacks
  read_dev_sdp_basic_cb : ℕ → Callbacks
  read_dev_sdp_digest_cb : ℕ → Callbacks

-- `struct bufferevent`: the callbacks, whether EV_READ and EV_WRITE are enabled, the output buffer, and the address
-- and port that bufferevent_socket_connect was given.
pub record Bev (B : Type 0) : Type 0 where
  pub callbacks : Callbacks
  pub reads : Bool
  pub writes : Bool
  pub output : B
  pub peer_ip : List ℕ
  pub peer_port : ℕ

-- A thread that runs read_video_data_from_dev_task: its argument, whether it has set
-- `iStartThreadFlag`, and `videoindex_v`, `audioindex_a` and `iIFlag`.
pub record Thread : Type 0 where
  pub dev_node : ℕ
  pub runs : Bool
  pub videoindex : ℤ
  pub audioindex : ℤ
  pub i_flag : Bool

abbrev pub Heap : Type 0 → Type 0
Heap A = ℕ → Option A

abbrev pub put : {A : Type 0} → Heap A → ℕ → A → Heap A
put h a x = λ b. if b == a then some x else h b

abbrev pub erase : {A : Type 0} → Heap A → ℕ → Heap A
erase h a = λ b. if b == a then none else h b

-- `dev_list` is `listDevList`, `locked` says whether `rwlockMyLock` is held, and `next` is an address
-- that was never used: an allocation is granted, and gives an address of its own.
pub record World (B L : Type 0) : Type 0 where
  pub dev_list : L
  pub devices : Heap (Dev L)
  pub clients : Heap (Client B)
  pub args : Heap Args
  pub bevs : Heap (Bev B)
  pub threads : Heap Thread
  pub locked : Bool
  pub next : ℕ

module _ {B L : Type 0} where
  -- pthread_rwlock_wrlock
  abbrev pub lock : World B L → Run (World B L)
  lock w = if w.locked then blocks else returns (record w { locked = true })

  -- pthread_rwlock_unlock
  abbrev pub unlock : World B L → World B L
  unlock w = record w { locked = false }

  -- A `DEV_LIST_OBJ` behind a pointer.
  abbrev pub dev_at : World B L → Option ℕ → Run (Dev L)
  dev_at w p = through p >>= λ d. through (w.devices d)

  abbrev pub put_dev : World B L → ℕ → Dev L → World B L
  put_dev w d x = record w { devices = put w.devices d x }

  abbrev pub put_client : World B L → ℕ → Client B → World B L
  put_client w c x = record w { clients = put w.clients c x }

  abbrev pub put_bev : World B L → ℕ → Bev B → World B L
  put_bev w b x = record w { bevs = put w.bevs b x }

  -- A use of a bufferevent; what was freed is a fault.
  abbrev pub change_bev : World B L → ℕ → (Bev B → Bev B) → Run (World B L)
  change_bev w b f = through (w.bevs b) >>= λ x. returns (put_bev w b (f x))

  -- bufferevent_disable of EV_READ and EV_WRITE.
  abbrev pub disable_bev : World B L → ℕ → Run (World B L)
  disable_bev w b = change_bev w b (λ v. record v { reads = false; writes = false })

  -- bufferevent_free
  abbrev pub free_bev : World B L → ℕ → Run (World B L)
  free_bev w b = through (w.bevs b) >>= λ x. returns (record w { bevs = erase w.bevs b })

  -- bufferevent_socket_new, inet_pton, htons, bufferevent_setcb and bufferevent_socket_connect, with
  -- or without bufferevent_enable of EV_READ.
  abbrev pub new_bev : Evbuffer B → World B L → Callbacks → Bool → List ℕ → ℤ → World B L
  new_bev e w cbs r ip port = record w {
    bevs = put w.bevs w.next (record {
      callbacks = cbs;
      reads = r;
      writes = true;
      output = e.empty;
      peer_ip = ip;
      peer_port = to_word64 port % 2 ^ 16;
    });
    next = suc w.next;
  }
