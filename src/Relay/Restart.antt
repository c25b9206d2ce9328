-- ===== src/Relay/Restart.antt =====
-- src/dev_opt.c, read_video_data_from_dev_task: a client whose buffer was full.
use box_rtsp.Prelude.{
  ◌≡◌, refl, inl, inr, true, false, List, [], ◌∷◌, Option, none, some, arith, ◌==◌, Bool-cases,
}
use box_rtsp.Rtsp.Exec.{Exec, ok, ◌>>=◌}
use box_rtsp.Rtsp.Safe.Rules.{Ensures, Ensures-bind}
use box_rtsp.Relay.Lists.{Evbuffer, EvbufferLaws}
use box_rtsp.Relay.Packets.{Packet, is_i_frame}
use box_rtsp.Relay.Client.{Client, visit, send_frame, is_full}

-- No I frame is among them.
abbrev pub AreOther : List Packet → Type 0
AreOther [] = Unit {0}
AreOther (k ∷ ks) = (is_i_frame k ≡ false) × AreOther ks

module _ {B : Type 0} (e : Evbuffer B) (laws : EvbufferLaws e) where
  -- One frame after the other to one client.
  abbrev pub visits : List Packet → Client B → Exec (Option (Client B))
  visits [] c = ok (some c)
  visits (k ∷ ks) c = visit e k c >>= elim [ none ↦ ok none | some d ↦ visits ks d ]

  -- The client stays, nothing waits to be sent to it, and it has missed a frame.
  pub record IsWaiting (c : Client B) : Type 0 where
    pub alive : (c.del_flag == 1) ≡ false
    pub serving : (c.send_frame_flag == 1) ≡ true
    pub missed : (c.miss_frame_flag == 1) ≡ true
    pub out : B
    pub event : c.send_video_to_server_event ≡ some out
    pub empty : e.get_length out ≡ 0

  abbrev pub IsWaitingIf : Option (Client B) → Type 0
  IsWaitingIf none = ⊥
  IsWaitingIf (some c) = IsWaiting c

  drained :
      (k : Packet) (c : Client B) (out : B)
      → (c.del_flag == 1) ≡ false
      → (c.send_frame_flag == 1) ≡ true
      → c.send_video_to_server_event ≡ some out
      → is_full e out k ≡ true
      → Ensures IsWaitingIf (visit e k c)
  unfolding visit send_frame
  drained k c out a s o f =
      rw (a, s, o, f)
        record {
          alive = a;
          serving = s;
          missed = refl;
          out = e.drain out (e.get_length out);
          event = refl;
          empty = omega (arith, laws.length-drain out (e.get_length out));
        }

  visit-IsWaiting :
      (k : Packet) (c : Client B)
      → is_i_frame k ≡ false
      → IsWaiting c
      → Ensures IsWaitingIf (visit e k c)
  unfolding visit send_frame
  visit-IsWaiting k c i w = elim (Bool-cases (is_full e w.out k)) [
    | inl f ↦ drained k c w.out w.alive w.serving w.event f
    | inr f ↦ rw (w.alive, w.serving, w.event, f, w.missed, i) w
  ]

  visits-IsWaiting :
      (ks : List Packet) (c : Client B)
      → AreOther ks
      → IsWaiting c
      → Ensures IsWaitingIf (visits ks c)
  visits-IsWaiting [] c i w = w
  visits-IsWaiting (k ∷ ks) c i w =
      Ensures-bind IsWaitingIf IsWaitingIf (visit e k c) _ (visit-IsWaiting k c i.0 w)
        (elim [ none ↦ λ z. elim z [ ] | some d ↦ λ g. visits-IsWaiting ks d i.1 g ])

  -- A client to which a frame could not be sent for want of room loses what waits for it, and is
  -- sent nothing of the frames that follow while none of them is an I frame.
  pub visits_full :
      (k : Packet) (ks : List Packet) (c : Client B) (out : B)
      → (c.del_flag == 1) ≡ false
      → (c.send_frame_flag == 1) ≡ true
      → c.send_video_to_server_event ≡ some out
      → is_full e out k ≡ true
      → AreOther ks
      → Ensures IsWaitingIf (visits (k ∷ ks) c)
  visits_full k ks c out a s o f i =
      Ensures-bind IsWaitingIf IsWaitingIf (visit e k c) _ (drained k c out a s o f)
        (elim [ none ↦ λ z. elim z [ ] | some d ↦ λ g. visits-IsWaiting ks d i g ])
