-- ===== src/Tests/Starting.antt =====
-- src/main.c and src/dev_opt.c: the start of the box, run and at concrete inputs.
use mathlib.Core.Path.{subst}
use box_rtsp.Prelude.{
  ℕ, ◌≤◌, ◌≡◌, refl, ap, false, List, [], ◌∷◌, Option, none, some, arith, length, ℤ, pos,
}
use box_rtsp.Rtsp.Exec.{Halt, Exec, ok, halt, ◌>>=◌}
use box_rtsp.Rtsp.Text.{scan_digits, skip_space}
use box_rtsp.UrlCode.{char_ishex}
use box_rtsp.Rtsp.Chunked.{hex_value}
use box_rtsp.Server.Digest.{int2hex}
use box_rtsp.Start.Digits.{AreBytes}
use box_rtsp.Rtsp.Headers.{codes}
use box_rtsp.Registry.World.{World}
use box_rtsp.Registry.Steps.{start}
use box_rtsp.Start.Serial.{Net, get_sys_sn}
use box_rtsp.Start.Number.{IsNet, get_sys_sn-box_number}
use box_rtsp.Start.Listen.{Libevent}
use box_rtsp.Start.Main.{Process, main}
use box_rtsp.Tests.Registered.{box}

-- The address of the serial number that inc/common/common.h gives as an example.
abbrev address : List ℕ
address = 238 ∷ (21 ∷ (219 ∷ (202 ∷ (234 ∷ (82 ∷ (0 ∷ (0 ∷ [])))))))

abbrev net : Net
net = record { socket = some 3; hwaddr = λ fd name. some address }

serial_printed : (get_sys_sn net [] 32).sn ≡ codes "261777649232466"
unfolding get_sys_sn skip_space char_ishex int2hex hex_value
serial_printed = refl

no_address : (get_sys_sn (record { socket = none; hwaddr = λ fd name. none }) [] 32).sn ≡ codes "0"
unfolding get_sys_sn skip_space char_ishex int2hex hex_value
no_address = refl

address_of : Option (List ℕ) → List ℕ
address_of none = []
address_of (some sa) = sa

net-IsNet : IsNet net
unfolding address_of
net-IsNet = record {
  long = λ s sa e. subst (λ x. 6 ≤ length x) (ap address_of e) (omega arith);
  bytes = λ s sa e. subst AreBytes (ap address_of e) (
    omega arith,
    (
      omega arith,
      (omega arith, (omega arith, (omega arith, (omega arith, (omega arith, (omega arith, tt)))))),
    ),
  );
}

get_sys_sn-box_number_example :
    (scan_digits 0 (get_sys_sn net (5 ∷ []) 32).sn ≡ (261777649232466, []))
    × (length (get_sys_sn net (5 ∷ []) 32).sn ≤ 15)
    × ((get_sys_sn net (5 ∷ []) 32).descriptors ≡ 5 ∷ [])
get_sys_sn-box_number_example = get_sys_sn-box_number net (5 ∷ []) 32 net-IsNet (omega arith)

-- libevent with a free port, or without.
abbrev events : Option ℕ → Libevent (World (List ℕ) (List ℕ))
events listener = record {
  evthread_use_pthreads = pos 0;
  event_base_new = some 7;
  evthread_make_base_notifiable = λ b. pos 0;
  evconnlistener_new_bind = λ b a. listener;
  event_base_dispatch = λ b l w. w;
}

abbrev empty : Process (World (List ℕ) (List ℕ))
empty = record {
  sigpipe_blocked = false;
  i_mac_sn_len = 0;
  network_ready = false;
  descriptors = [];
  loop = record { p_event_base = none; bases = []; listeners = []; world = start box };
}

port_taken : main box net (events none) (pos 0) empty ≡ halt Halt.faults
unfolding main
port_taken = refl

left_over : Exec (ℤ × Process (World (List ℕ) (List ℕ))) → Exec (ℤ × ℕ × List ℕ × List ℕ)
left_over m = m >>= λ r. ok (r.0, r.1.i_mac_sn_len, r.1.loop.bases, r.1.loop.listeners)

served : left_over (main box net (events (some 8)) (pos 0) empty) ≡ ok (pos 0, 16, [], [])
unfolding left_over main skip_space char_ishex int2hex hex_value
served = refl
