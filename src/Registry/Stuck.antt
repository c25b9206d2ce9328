-- ===== src/Registry/Stuck.antt =====
-- src/libevent_server.c and src/dev_opt.c: orders of steps that the code does not provide for.
use box_rtsp.Prelude.{
  ℕ, suc, ◌<◌, ◌++◌, length, ◌≡◌, refl, ◌∙◌, true, false, List, [], ◌∷◌, Option, none, some, arith,
  ◌==◌, ℤ, pos, negsuc, ◌%◌, ◌^◌, ap,
}
use box_rtsp.Relay.Members.{eq_self}
use box_rtsp.Rtsp.Exec.{Halt, ok}
use box_rtsp.Rtsp.Headers.{codes}
use box_rtsp.Relay.Client.{cmd_size, to_word64}
use box_rtsp.Server.Json.{item_text}
use box_rtsp.Server.Frames.{magic, begins, body_length}
use box_rtsp.Server.Framing.{IsText, deal_client_cmd-command}
use box_rtsp.Server.Command.{Effect, run_cmd, server_info}
use box_rtsp.Registry.Run.{returns, fails, blocks}
use box_rtsp.Registry.World.{
  Dev, Bev, Callbacks, deal_client_cmd_error_cb1, Thread, World, put, erase, unlock, put_dev,
  change_bev,
}
use box_rtsp.Registry.Outside.{Outside}
use box_rtsp.Registry.Lookup.{DevInfo, decoded, dev_seeker, seek_device, analysis_json_dev_info}
use box_rtsp.Registry.Open.{unnamed, deal_open_video_cmd, known_device}
use box_rtsp.Registry.Push.{connect_to_rtsp_server}
use box_rtsp.Registry.Session.{create_thread, serve_client}
use box_rtsp.Registry.Reader.{end_thread, begin_thread}
use box_rtsp.Registry.Commands.{perform, perform_all, run_deal_client_cmd, accept_client_connect_cb}
use box_rtsp.Registry.Steps.{Event, Action, act, at_thread, call_back, is_due, fire}
use box_rtsp.Registry.Lock.{IsUnset}
use box_rtsp.Registry.Rules.{Then, Then-bind, Then-lock, Then-returns, Then-change_bev, lock_then}

eq_suc : (n : ℕ) → (n == suc n) ≡ false
eq_suc n = ground arith

suc_eq : (n : ℕ) → (suc n == n) ≡ false
suc_eq n = ground arith

module _ {B L J : Type 0} (o : Outside B L J) where
  -- Where open_video names a device in the list whose status is neither CONNECTED nor CONNECTING, as
  -- push_stream leaves it, and the lock is free, the command returns with the lock held and nothing else
  -- changed. In the state that it leaves, an open_video whose text is read, a connection to a server and
  -- the end of a camera's thread wait for a lock that is not given back.
  pub deal_open_video_cmd_stuck :
      (text : List ℕ) (b d : ℕ) (i : ℤ × DevInfo) (x : Dev L) (w : World B L) (ip : List ℕ)
      (port : ℤ) (p : Option ℕ) (text₁ : List ℕ) (b₁ : ℕ) (j : ℤ × DevInfo) (h : ℕ) (g : Thread)
      → analysis_json_dev_info o.json text (unnamed o) ≡ ok i
      → w.locked ≡ false
      → seek_device o.list w (record i.1 { dev_id = decoded i.1.dev_id }) ≡ some d
      → w.devices d ≡ some x
      → IsUnset x.dev_connect_status
      → analysis_json_dev_info o.json text₁ (unnamed o) ≡ ok j
      → w.threads h ≡ some g
      → (deal_open_video_cmd o text b w ≡ returns (record w { locked = true }))
        × (connect_to_rtsp_server o ip port p (record w { locked = true }) ≡ blocks)
        × (deal_open_video_cmd o text₁ b₁ (record w { locked = true }) ≡ blocks)
        × (end_thread o h (record w { locked = true }) ≡ blocks)
  unfolding deal_open_video_cmd known_device connect_to_rtsp_server end_thread seek_device
      dev_seeker
  deal_open_video_cmd_stuck text b d i x w ip port p text₁ b₁ j h g a f s e u c k = (
    (let s₁ : seek_device o.list (record w { locked = true })
              (record i.1 { dev_id = decoded i.1.dev_id })
            ≡ some d =
          s in
        rw a (lock_then w _ f ∙ rw (s₁, e, u.0, u.1) refl)),
    refl,
    rw c refl,
    rw k refl,
  )

  server_info_run :
      (b : ℕ) (input ip rest : List ℕ) (port : ℤ) (v : Bev B) (w : World B L)
      → box_rtsp.Server.Command.deal_client_cmd o.json input
        ≡ ok (
          Effect.disable_read ∷ (Effect.free_client ∷ (Effect.connect_to_rtsp_server ip port ∷ [])),
          rest,
        )
      → w.bevs b ≡ some v
      → w.locked ≡ false
      → run_deal_client_cmd o none b input w ≡ fails Halt.faults
  unfolding run_deal_client_cmd perform_all perform connect_to_rtsp_server
  server_info_run b input ip rest port v w c e f = rw (c, e, eq_self b, f) refl

  -- What cJSON finds in a text that is a `server_info`.
  pub record IsServerInfo (text ip : List ℕ) : Type 0 where
    pub protocol_item : Option J
    pub protocol : List ℕ
    pub cmd_item : Option J
    pub cmd_type : List ℕ
    pub ip_item : Option J
    pub port_item : Option J
    pub protocol_got :
        o.json.get_object_item (o.json.parse text) (codes "protocol") ≡ ok protocol_item
    pub protocol_text : item_text o.json 8 protocol_item ≡ ok protocol
    pub cmd_got : o.json.get_object_item (o.json.parse text) (codes "cmdType") ≡ ok cmd_item
    pub cmd_text : item_text o.json 32 cmd_item ≡ ok cmd_type
    pub is_open_video : begins cmd_type (codes "open_video") ≡ false
    pub is_server_info : begins cmd_type (codes "server_info") ≡ true
    pub ip_got : o.json.get_object_item (o.json.parse text) (codes "serverIp") ≡ ok ip_item
    pub ip_text : item_text o.json 16 ip_item ≡ ok ip
    pub port_got : o.json.get_object_item (o.json.parse text) (codes "serverPort") ≡ ok port_item

  pub port_of : Option J → ℤ
  port_of port = elim port [ none ↦ negsuc 0 | some p ↦ o.json.valueint p ]

  server_info_effects :
      (head text behind ip : List ℕ) (s : IsServerInfo text ip)
      → begins head magic ≡ true
      → length head ≡ cmd_size
      → body_length head ≡ length text
      → length text < 480
      → IsText text
      → box_rtsp.Server.Command.deal_client_cmd o.json (head ++ (text ++ behind))
        ≡ ok (
          Effect.disable_read
              ∷ (Effect.free_client
                  ∷ (Effect.connect_to_rtsp_server ip (port_of s.port_item) ∷ [])),
          behind,
        )
  unfolding run_cmd server_info port_of
  server_info_effects head text behind ip s m l b h t =
      deal_client_cmd-command o.json head text behind m l b h t
      ∙ rw
          (
            s.protocol_got, s.protocol_text, s.cmd_got, s.cmd_text, s.is_open_video,
            s.is_server_info, s.ip_got, s.ip_text, s.port_got,
          )
          refl

  -- The bufferevent of a client that has just connected.
  abbrev accepted : Bev B
  accepted = record {
    callbacks = Callbacks.deal_client_cmd deal_client_cmd_error_cb1 none;
    reads = true;
    writes = true;
    output = o.buffer.empty;
    peer_ip = [];
    peer_port = to_word64 (pos 0) % 2 ^ 16;
  }

  -- A client that has just connected has no device. Where the lock is free and its first command has
  -- arrived as a whole, of less than 480 bytes of text without a NUL, and is a `server_info`, the process
  -- reads through NULL.
  pub server_info_first :
      (head text behind ip : List ℕ) (w : World B L)
      → IsServerInfo text ip
      → begins head magic ≡ true
      → length head ≡ cmd_size
      → body_length head ≡ length text
      → length text < 480
      → IsText text
      → w.locked ≡ false
      → act o
          (Action.calls w.next (Event.arrives (head ++ (text ++ behind))))
          (accept_client_connect_cb o w)
        ≡ fails Halt.faults
  unfolding act call_back is_due fire accept_client_connect_cb
  server_info_first head text behind ip w s m l b h t f =
      rw (act, call_back, eq_self w.next, fire, is_due)
        (server_info_run w.next (head ++ (text ++ behind)) ip behind (port_of s.port_item) accepted
          (accept_client_connect_cb o w) (server_info_effects head text behind ip s m l b h t)
          (rw (eq_self w.next) refl) f)

  -- The thread of the device at `d` before it begins.
  abbrev new_thread : ℕ → Thread
  new_thread d = record {
    dev_node = d;
    runs = false;
    videoindex = negsuc 0;
    audioindex = negsuc 0;
    i_flag = false;
  }

  -- A thread was created at the next address, and the lock is free.
  abbrev Created : ℕ → World B L → World B L → Type 0
  Created d w w₁ =
      (w₁.devices ≡ w.devices)
      × (w₁.next ≡ suc w.next)
      × (w₁.threads ≡ put w.threads w.next (new_thread d))
      × (w₁.locked ≡ false)

  serve_client-Created :
      (a d b : ℕ) (x : Dev L) (w : World B L)
      → w.devices d ≡ some x
      → (x.start_thread_flag == 0) ≡ true
      → Then (Created d w) (serve_client o a d b w)
  unfolding serve_client
  serve_client-Created a d b x w e z = Then-lock (Created d w) w _ (λ f.
      let C : World B L → Type 0 = λ w₁.
        (w₁.devices ≡ w.devices)
        × (w₁.next ≡ suc w.next)
        × (w₁.threads ≡ put w.threads w.next (new_thread d)) in
      rw (e, z)
        (Then-bind C (Created d w) (change_bev (create_thread o (record w { locked = true }) d) b _)
          _
          (Then-change_bev C (create_thread o (record w { locked = true }) d) b _
            (λ m. (refl, refl, refl)))
          (λ w₁ k. (k.0, k.1, k.2, refl))))

  -- Two threads of one device that have not begun.
  module _ (h h₁ d : ℕ) (x : Dev L) (w : World B L) (apart : (h₁ == h) ≡ false)
      (free : w.locked ≡ false) (there : w.devices d ≡ some x)
      (one : w.threads h ≡ some (new_thread d)) (two : w.threads h₁ ≡ some (new_thread d))
      (v a : ℤ) where
    -- The state in which the first thread runs, and the one that it leaves at its end.
    abbrev begun : World B L
    begun = record (put_dev w d (record x { start_thread_flag = 1 })) {
      threads =
          put w.threads h (record (new_thread d) { runs = true; videoindex = v; audioindex = a });
    }

    abbrev over : World B L
    over = record (unlock begun) {
      dev_list = o.list.list_delete w.dev_list d;
      devices = erase begun.devices d;
      threads = erase begun.threads h;
    }

    begins_first : act o (Action.begins h v a) w ≡ returns begun
    unfolding act at_thread begin_thread
    begins_first = rw (act, at_thread, one, begin_thread, one, there) refl

    ends_first : act o (Action.ends h) begun ≡ returns over
    unfolding act at_thread end_thread
    ends_first = rw (act, at_thread, eq_self h, end_thread, eq_self h, free, eq_self d) refl

    begins_second : (v₁ a₁ : ℤ) → act o (Action.begins h₁ v₁ a₁) over ≡ fails Halt.faults
    unfolding act at_thread begin_thread
    begins_second v₁ a₁ = rw (act, at_thread, apart, two, begin_thread, apart, two, eq_self d) refl

  -- Two servers of one device that are connected before its thread begins make two threads for it. When
  -- the first of them begins and then ends, it frees the device, and the other, which begins after that,
  -- reads what was freed.
  pub serve_client_twice :
      (a₁ a₂ d b₁ b₂ : ℕ) (x : Dev L) (w w₁ w₂ : World B L)
      → w.devices d ≡ some x
      → (x.start_thread_flag == 0) ≡ true
      → serve_client o a₁ d b₁ w ≡ returns w₁
      → serve_client o a₂ d b₂ w₁ ≡ returns w₂
      → (v₁ u₁ v₂ u₂ : ℤ)
      → (w₃ : World B L) × (w₄ : World B L) × (act o (Action.begins w.next v₁ u₁) w₂ ≡ returns w₃)
        × (act o (Action.ends w.next) w₃ ≡ returns w₄)
        × (act o (Action.begins (suc w.next) v₂ u₂) w₄ ≡ fails Halt.faults)
  serve_client_twice a₁ a₂ d b₁ b₂ x w w₁ w₂ e z p q v₁ u₁ v₂ u₂ =
      let c₁ =
        Then-returns (Created d w) (serve_client o a₁ d b₁ w) w₁
          (serve_client-Created a₁ d b₁ x w e z) p in
      let e₁ = ap (λ h. h d) c₁.0 ∙ e in
      let c₂ =
        Then-returns (Created d w₁) (serve_client o a₂ d b₂ w₁) w₂
          (serve_client-Created a₂ d b₂ x w₁ e₁ z) q in
      let there = ap (λ h. h d) c₂.0 ∙ e₁ in
      let one : w₂.threads w.next ≡ some (new_thread d) =
        ap (λ h. h w.next) c₂.2 ∙ rw (c₁.1, c₁.2, eq_suc w.next, eq_self w.next) refl in
      let two : w₂.threads (suc w.next) ≡ some (new_thread d) =
        ap (λ h. h (suc w.next)) c₂.2 ∙ rw (c₁.1, eq_self (suc w.next)) refl in
      let h = w.next in
      let h₁ = suc w.next in
      let n = suc_eq w.next in
      let f = c₂.3 in
      (
        begun h h₁ d x w₂ n f there one two v₁ u₁,
        over h h₁ d x w₂ n f there one two v₁ u₁,
        begins_first h h₁ d x w₂ n f there one two v₁ u₁,
        ends_first h h₁ d x w₂ n f there one two v₁ u₁,
        begins_second h h₁ d x w₂ n f there one two v₁ u₁ v₂ u₂,
      )
