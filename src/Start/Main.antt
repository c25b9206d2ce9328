-- ===== src/Start/Main.antt =====
-- src/main.c: main, as it is built, without HAND_SERVER_IP.
use box_rtsp.Prelude.{ℕ, ◌+◌, Bool, true, not, List, if◌then◌else◌, length, ℤ, pos, negsuc}
use box_rtsp.Prelude.Int.{eq_int}
use box_rtsp.Rtsp.Exec.{Exec, ok, ◌>>=◌}
use box_rtsp.Registry.World.{World}
use box_rtsp.Registry.Outside.{Outside}
use box_rtsp.Registry.Steps.{start}
use box_rtsp.Start.Serial.{Net, get_sys_sn}
use box_rtsp.Start.Listen.{Libevent, Loop, libevent_server_main_listen}

-- `glParam`, whether SIGPIPE is blocked and the libraries are ready, and what is held.
pub record Process (W : Type 0) : Type 0 where
  pub sigpipe_blocked : Bool
  pub i_mac_sn_len : ℕ
  pub network_ready : Bool
  pub descriptors : List ℕ
  pub loop : Loop W

-- What is left when libevent_server_main_listen has returned.
unfoldable pub started : {W : Type 0} → Net → Process W → Loop W → ℤ × Process W
unfolding get_sys_sn
started net p l =
    let s = get_sys_sn net p.descriptors 32 in
    (
      pos 0,
      record {
        sigpipe_blocked = true;
        i_mac_sn_len = length s.sn + 1;
        network_ready = true;
        descriptors = s.descriptors;
        loop = l;
      },
    )

module _ {B L J : Type 0} (o : Outside B L J) (net : Net) (lib : Libevent (World B L)) where
  -- list_init and pthread_rwlock_init make the state that `start` is.
  unfoldable pub run_main : Process (World B L) → Exec (ℤ × Process (World B L))
  unfolding started libevent_server_main_listen start
  run_main p = do
    l ← libevent_server_main_listen lib (record p.loop { world = start o })
    ok (started net p l)

  -- `sigmask` is the result of pthread_sigmask; `sizeof(cBoxSn)` is 32.
  unfoldable pub main : ℤ → Process (World B L) → Exec (ℤ × Process (World B L))
  unfolding run_main
  main sigmask p = if not (eq_int sigmask (pos 0)) then ok (negsuc 0, p) else run_main p
