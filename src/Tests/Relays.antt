-- ===== src/Tests/Relays.antt =====
-- The relay of frames on a list of clients, with byte lists for buffers.
use box_rtsp.Prelude.{
  ℕ, ◌+◌, ◌-◌, ◌≡◌, refl, false, List, [], ◌∷◌, ◌++◌, some, arith, length, length-append,
  length-drop, drop, ℤ, pos, ◌==◌, if◌then◌else◌,
}
use box_rtsp.Rtsp.Parser.{sub_size, add_size}
use box_rtsp.Rtsp.Exec.{ok, ◌>>=◌}
use box_rtsp.Rtsp.Safe.Rules.{Ensures}
use box_rtsp.Relay.Lists.{Evbuffer, EvbufferLaws, ListT, ListLaws, get_elem?, find, remove}
use box_rtsp.Relay.Packets.{Packet}
use box_rtsp.Relay.Client.{Client, is_full}
use box_rtsp.Relay.Dispatch.{Store, dispatch}
use box_rtsp.Relay.Task.{relay}
use box_rtsp.Relay.Order.{deliver, relay-deliver}
use box_rtsp.Relay.Queue.{visit_all, dispatch-visit_all}
use box_rtsp.Relay.Bounds.{IsServing, relay-IsServing}
use box_rtsp.Relay.Restart.{visits, IsWaitingIf, visits_full}

abbrev pub bytes : Evbuffer (List ℕ)
bytes = record { empty = []; get_length = length; drain = λ b n. drop n b; write = λ b d. b ++ d }

abbrev bytes_laws : EvbufferLaws bytes
bytes_laws = record {
  length-empty = refl;
  length-write = λ b d. length-append b d;
  length-drain = λ b n. length-drop n b;
}

abbrev pub addresses : ListT (List ℕ)
addresses = record {
  zeroed = [];
  list_init = [];
  list_append = λ l a. l ++ (a ∷ []);
  list_seek = λ l f. find f l;
  list_destroy = λ l. [];
  list_size = length;
  list_get_at = get_elem?;
  list_delete = λ l a. remove a l;
}

abbrev pub addresses_laws : ListLaws addresses
addresses_laws = record {
  elements = λ l. l;
  init_lem = refl;
  append_lem = λ l a. refl;
  seek_lem = λ l f. refl;
  size_lem = λ l. refl;
  get_at_lem = λ l i. refl;
  delete_lem = λ l a. refl;
}

-- The client at 1 is to be freed; the others are connected.
abbrev clients : Store (List ℕ)
clients a = record {
  send_frame_flag = 1;
  del_flag = if a == 1 then 1 else 0;
  miss_frame_flag = 0;
  pts = pos 0;
  send_video_to_server_event = some [];
}

abbrev pub packet : ℤ → ℕ → ℕ → Packet
packet stream flags pts = record {
  stream_index = stream;
  flags = flags;
  pts = pos pts;
  payload = 7 ∷ [];
}

abbrev stream : List Packet
stream =
    packet (pos 0) 0 1 ∷ (packet (pos 0) 1 2 ∷ (packet (pos 1) 1 3 ∷ (packet (pos 0) 0 4 ∷ [])))

relay-deliver_example :
    relay bytes addresses (pos 0) (pos 1) false stream (1 ∷ (2 ∷ [])) clients
    ≡ deliver bytes addresses
        (packet (pos 0) 1 2 ∷ (packet (pos 0) 0 4 ∷ []))
        (1 ∷ (2 ∷ []))
        clients
relay-deliver_example = relay-deliver bytes addresses (pos 0) (pos 1) stream (1 ∷ (2 ∷ [])) clients

dispatch-visit_all_example :
    (dispatch bytes addresses (packet (pos 0) 1 2) (1 ∷ (2 ∷ [])) clients >>= λ r. ok (r.0, r.1))
    ≡ visit_all bytes (packet (pos 0) 1 2) (1 ∷ (2 ∷ [])) clients
dispatch-visit_all_example =
    dispatch-visit_all bytes addresses addresses_laws (packet (pos 0) 1 2) (1 ∷ (2 ∷ [])) clients
      ((refl, tt), (tt, tt))

relay-IsServing_example :
    Ensures
      (IsServing bytes bytes_laws addresses addresses_laws)
      (relay bytes addresses (pos 0) (pos 1) false stream (1 ∷ (2 ∷ [])) clients)
relay-IsServing_example =
    relay-IsServing bytes bytes_laws addresses addresses_laws (pos 0) (pos 1) stream (1 ∷ (2 ∷ []))
      clients (omega arith, (omega arith, (omega arith, (omega arith, tt))))
      (((refl, tt), (tt, tt)), λ a. omega arith)

-- A buffer that only counts.
abbrev counter : Evbuffer ℕ
counter = record {
  empty = 0;
  get_length = λ b. b;
  drain = λ b n. b - n;
  write = λ b d. b + length d;
}

abbrev counter_laws : EvbufferLaws counter
counter_laws = record {
  length-empty = refl;
  length-write = λ b d. refl;
  length-drain = λ b n. refl;
}

abbrev slow : Client ℕ
slow = record {
  send_frame_flag = 1;
  del_flag = 0;
  miss_frame_flag = 0;
  pts = pos 0;
  send_video_to_server_event = some 2097130;
}

visits_full_example :
    Ensures
      (IsWaitingIf counter counter_laws)
      (visits counter counter_laws (packet (pos 0) 1 2 ∷ (packet (pos 0) 0 4 ∷ [])) slow)
unfolding is_full sub_size add_size
visits_full_example =
    visits_full counter counter_laws (packet (pos 0) 1 2) (packet (pos 0) 0 4 ∷ []) slow 2097130
      refl refl refl refl (refl, tt)
