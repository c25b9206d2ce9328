-- ===== src/Start/Listen.antt =====
-- src/libevent_server.c: libevent_server_main_listen.
use box_rtsp.Prelude.{ℕ, List, ◌∷◌, Option, none, some, not, if◌then◌else◌, ℤ, pos}
use box_rtsp.Prelude.Int.{eq_int}
use box_rtsp.Rtsp.Exec.{Halt, Exec, ok, halt}
use box_rtsp.Start.Serial.{without}

-- `struct sockaddr_in`, with the address and the port in the host's order.
pub record SockAddr : Type 0 where
  pub sin_family : ℕ
  pub s_addr : ℕ
  pub sin_port : ℕ

-- AF_INET, INADDR_ANY and BOX_SERVER_PORT
abbrev pub listen_addr : SockAddr
listen_addr = record { sin_family = 2; s_addr = 0; sin_port = 8109 }

-- What libevent answers, NULL being `none`, and what the loop of the events makes of the program's
-- state. Without a listener no event is pending and the loop returns at once.
pub record Libevent (W : Type 0) : Type 0 where
  pub evthread_use_pthreads : ℤ
  pub event_base_new : Option ℕ
  pub evthread_make_base_notifiable : ℕ → ℤ
  pub evconnlistener_new_bind : ℕ → SockAddr → Option ℕ
  pub event_base_dispatch : ℕ → ℕ → W → W

-- `pEventBase`, the bases and listeners that are allocated, and the program's state.
pub record Loop (W : Type 0) : Type 0 where
  pub p_event_base : Option ℕ
  pub bases : List ℕ
  pub listeners : List ℕ
  pub world : W

module _ {W : Type 0} (o : Libevent W) where
  -- With the base: the loop and what follows it. evconnlistener_free writes through its argument.
  unfoldable pub listen_on : Loop W → ℕ → Option ℕ → Exec (Loop W)
  unfolding without
  listen_on l base none = halt Halt.faults
  listen_on l base (some listener) =
      let served = o.event_base_dispatch base listener l.world in
      ok (record l {
        bases = without base l.bases;
        listeners = without listener (listener ∷ l.listeners);
        world = served;
      })

  unfoldable pub listen_base : Loop W → Option ℕ → Exec (Loop W)
  unfolding listen_on
  listen_base l none = ok (record l { p_event_base = none })
  listen_base l (some base) =
      let l₁ = record l { p_event_base = some base; bases = base ∷ l.bases } in
      if not (eq_int (o.evthread_make_base_notifiable base) (pos 0))
      then ok l₁
      else listen_on l₁ base (o.evconnlistener_new_bind base listen_addr)

  unfoldable pub libevent_server_main_listen : Loop W → Exec (Loop W)
  unfolding listen_base
  libevent_server_main_listen l =
      if not (eq_int o.evthread_use_pthreads (pos 0)) then ok l else listen_base l o.event_base_new
