-- ===== src/Relay/Bounds.antt =====
-- src/dev_opt.c, read_video_data_from_dev_task: the bound on what waits to be sent to a client.
use box_rtsp.Prelude.Int.{eq_int}
use box_rtsp.Prelude.{
  ℕ, ◌+◌, ◌^◌, ◌≤◌, ◌<◌, ◌≡◌, refl, inl, inr, false, not, ◌&&◌, List, [], ◌∷◌, Option, none, some,
  arith, length, ltb, ◌==◌, ltb→le, Bool-cases, ℤ,
}
use box_rtsp.Rtsp.Parser.{add_size}
use box_rtsp.Rtsp.Exec.{aborts, faults, spins, Exec, ok, halt, ◌>>=◌}
use box_rtsp.Rtsp.Safe.Rules.{Ensures, Ensures-bind, Ensures-map}
use box_rtsp.Rtsp.Safe.Bounds.{sub_size_lem}
use box_rtsp.Relay.Lists.{Evbuffer, EvbufferLaws, ListT, ListLaws}
use box_rtsp.Relay.Packets.{Packet, is_i_frame, positive}
use box_rtsp.Relay.Client.{
  Client, visit, send_frame, is_full, write_buf_size, cmd_size, cmd_bytes, frame_cmd,
}
use box_rtsp.Relay.Dispatch.{Store, update, dispatch}
use box_rtsp.Relay.Task.{relay}
use box_rtsp.Relay.Order.{deliver, of_stream, from_key, relay-deliver}
use box_rtsp.Relay.Queue.{IsNew, AreDistinct, visit_all, dispatch-visit_all}

-- A packet's size is a positive `int`.
abbrev pub IsSmall : Packet → Type 0
IsSmall k = length k.payload < 2 ^ 31

abbrev pub AreSmall : List Packet → Type 0
AreSmall [] = Unit {0}
AreSmall (k ∷ ks) = IsSmall k × AreSmall ks

of_stream-AreSmall : (v : ℤ) (ks : List Packet) → AreSmall ks → AreSmall (of_stream v ks)
of_stream-AreSmall v [] h = tt
of_stream-AreSmall v (k ∷ ks) h = elim (Bool-cases (eq_int v k.stream_index)) [
  | inl o ↦ rw (of_stream, o) (h.0, of_stream-AreSmall v ks h.1)
  | inr o ↦ rw (of_stream, o) (of_stream-AreSmall v ks h.1)
]

from_key-AreSmall : (v : ℤ) (ks : List Packet) → AreSmall ks → AreSmall (from_key v ks)
from_key-AreSmall v [] h = tt
from_key-AreSmall v (k ∷ ks) h = elim (Bool-cases (eq_int v k.stream_index)) [
  | inr o ↦ rw (from_key, o) (from_key-AreSmall v ks h.1)
  | inl o ↦ elim (Bool-cases (is_i_frame k)) [
    | inr i ↦ rw (from_key, o, i) (from_key-AreSmall v ks h.1)
    | inl i ↦ elim (Bool-cases (positive k.pts)) [
      | inr p ↦ rw (from_key, o, i, p) (from_key-AreSmall v ks h.1)
      | inl p ↦ rw (from_key, o, i, p) h
    ]
  ]
]

-- `frame_cmd` takes `sizeof(BOX_CTRL_CMD_OBJ)` bytes.
length-cmd_bytes : (k : Packet) → length (cmd_bytes (frame_cmd k)) ≡ cmd_size
unfolding cmd_bytes
length-cmd_bytes k = refl

module _ {B : Type 0} (e : Evbuffer B) (laws : EvbufferLaws e) where
  -- A client without a connection is not sent frames, and no more waits for one that has one than
  -- LIBEVENT_WRITE_BUF_SIZE bytes.
  abbrev pub Queued : ℕ → Option B → Type 0
  Queued flag none = (flag == 1) ≡ false
  Queued flag (some out) = e.get_length out ≤ write_buf_size

  abbrev pub Fits : Client B → Type 0
  Fits c = Queued c.send_frame_flag c.send_video_to_server_event

  abbrev pub FitsIf : Option (Client B) → Type 0
  FitsIf none = Unit {0}
  FitsIf (some c) = Fits c

  room_lem :
      (out : B) (k : Packet)
      → IsSmall k
      → e.get_length out ≤ write_buf_size
      → is_full e out k ≡ false
      → e.get_length out + (length k.payload + cmd_size) ≤ write_buf_size
  unfolding is_full add_size
  room_lem out k q h f =
      let g = ltb→le _ _ f in
      omega (arith, g, sub_size_lem write_buf_size (e.get_length out) h (omega arith))

  pub send_frame-Fits :
      (k : Packet) (c : Client B) (out : B)
      → IsSmall k
      → e.get_length out ≤ write_buf_size
      → c.send_video_to_server_event ≡ some out
      → Fits (send_frame e k c out)
  unfolding send_frame
  send_frame-Fits k c out q h o = elim (Bool-cases (is_full e out k)) [
    | inl f ↦ rw f (omega (arith, laws.length-drain out (e.get_length out)))
    | inr f ↦ elim (Bool-cases ((c.miss_frame_flag == 1) && not (is_i_frame k))) [
      | inl m ↦ rw (f, m, o) h
      | inr m ↦
          rw (f, m)
            (omega (
              arith,
              room_lem out k q h f,
              length-cmd_bytes k,
              laws.length-write out (cmd_bytes (frame_cmd k)),
              laws.length-write (e.write out (cmd_bytes (frame_cmd k))) k.payload,
            ))
    ]
  ]

  pub visit-Fits : (k : Packet) (c : Client B) → IsSmall k → Fits c → Ensures FitsIf (visit e k c)
  unfolding visit
  visit-Fits k c q h = by_event c.send_video_to_server_event refl
    where
      by_event : (o : Option B) → c.send_video_to_server_event ≡ o → Ensures FitsIf (visit e k c)
      by_event none o = elim (Bool-cases (c.del_flag == 1)) [
        | inl d ↦ rw (d, o) h
        | inr d ↦ rw (d, rw o at h) h
      ]
      by_event (some out) o = elim (Bool-cases (c.del_flag == 1)) [
        | inl d ↦ rw (d, o) tt
        | inr d ↦ elim (Bool-cases (c.send_frame_flag == 1)) [
          | inl f ↦ rw (d, f, o) (send_frame-Fits k c out q (rw o at h) o)
          | inr f ↦ rw (d, f) h
        ]
      ]

  -- The store's clients fit.
  abbrev pub AllFit : Store B → Type 0
  AllFit s = (a : ℕ) → Fits (s a)

  update-AllFit : (s : Store B) (a : ℕ) (c : Client B) → AllFit s → Fits c → AllFit (update s a c)
  update-AllFit s a c h f b = elim (Bool-cases (b == a)) [ inl o ↦ rw o f | inr o ↦ rw o (h b) ]

  -- What a frame leaves of the clients `xs`: no new one, none twice, and all fit.
  abbrev Given : List ℕ → List ℕ × Store B → Type 0
  Given xs r = AllFit r.1 × AreDistinct r.0 × ((a : ℕ) → IsNew a xs → IsNew a r.0)

  visit_all-Given :
      (k : Packet) (xs : List ℕ) (s : Store B)
      → IsSmall k
      → AreDistinct xs
      → AllFit s
      → Ensures (Given xs) (visit_all e k xs s)
  visit_all-Given k [] s q d h = (h, tt, λ a n. tt)
  visit_all-Given k (x ∷ xs) s q d h =
      Ensures-bind FitsIf (Given (x ∷ xs)) (visit e k (s x)) _ (visit-Fits k (s x) q (h x)) (elim [
        | none ↦ λ u.
            Ensures-map (Given xs) (Given (x ∷ xs)) (visit_all e k xs s)
              (λ r g. (g.0, g.1, λ a n. g.2 a n.1)) (visit_all-Given k xs s q d.1 h)
        | some c ↦ λ f.
            Ensures-bind (Given xs) (Given (x ∷ xs)) (visit_all e k xs (update s x c)) _
              (visit_all-Given k xs (update s x c) q d.1 (update-AllFit s x c h f))
              (λ r g. (g.0, (g.2 x d.0, g.1), λ a n. (n.0, g.2 a n.1)))
      ])

module _ {B L : Type 0} (e : Evbuffer B) (laws : EvbufferLaws e) (t : ListT L)
    (lists : ListLaws t) where
  -- No client is in the list twice, and all clients fit.
  abbrev pub IsServing : L × Store B → Type 0
  IsServing r = AreDistinct (lists.elements r.0) × AllFit e laws r.1

  of_view :
      (m : Exec (L × Store B)) (P : List ℕ × Store B → Type 0)
      → Ensures P (m >>= λ r. ok (lists.elements r.0, r.1))
      → Ensures (λ r. P (lists.elements r.0, r.1)) m
  of_view (ok r) P h = h
  of_view (halt aborts) P h = h
  of_view (halt faults) P h = h
  of_view (halt spins) P h = h

  dispatch-IsServing :
      (k : Packet) (l : L) (s : Store B)
      → IsSmall k
      → IsServing (l, s)
      → Ensures IsServing (dispatch e t k l s)
  dispatch-IsServing k l s q h =
      Ensures-map _ IsServing (dispatch e t k l s) (λ r g. (g.1, g.0))
        (of_view (dispatch e t k l s) (Given e laws (lists.elements l)) (
          rw (dispatch-visit_all e t lists k l s h.0)
            (visit_all-Given e laws k (lists.elements l) s q h.0 h.1)))

  deliver-IsServing :
      (ks : List Packet) (l : L) (s : Store B)
      → AreSmall ks
      → IsServing (l, s)
      → Ensures IsServing (deliver e t ks l s)
  deliver-IsServing [] l s q h = h
  deliver-IsServing (k ∷ ks) l s q h = elim (Bool-cases (ltb (t.list_size l) 1)) [
    | inl n ↦ rw (deliver, n) h
    | inr n ↦
        rw (deliver, n)
          (Ensures-bind IsServing IsServing (dispatch e t k l s) _ (dispatch-IsServing k l s q.0 h)
            (λ r g. deliver-IsServing ks r.0 r.1 q.1 g))
  ]

  -- From a list without a client twice and clients that fit, and on packets whose size is an `int`,
  -- the loop over the packets makes no access through a NULL pointer and ends; no client is then in
  -- the list twice, and at no client more than LIBEVENT_WRITE_BUF_SIZE bytes wait to be sent.
  pub relay-IsServing :
      (v a : ℤ) (ks : List Packet) (l : L) (s : Store B)
      → AreSmall ks
      → IsServing (l, s)
      → Ensures IsServing (relay e t v a false ks l s)
  relay-IsServing v a ks l s q h = rw (relay-deliver e t v a ks l s) (
      deliver-IsServing (of_stream v (from_key v ks)) l s
        (of_stream-AreSmall v (from_key v ks) (from_key-AreSmall v ks q)) h)
