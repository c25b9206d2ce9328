-- ===== src/Relay/Order.antt =====
-- src/dev_opt.c, read_video_data_from_dev_task: which frames the clients are given, and that the loop
-- over the clients gives a frame to each of them.
use box_rtsp.Prelude.{
  ◌≡◌, refl, sym, ap, ◌∙◌, inl, inr, Bool, true, false, List, [], ◌∷◌, arith, ltb, if◌then◌else◌,
  Bool-cases, ℤ,
}
use box_rtsp.Prelude.Int.{eq_int}
use box_rtsp.Rtsp.Exec.{Exec, ok, halt, ◌>>=◌}
use box_rtsp.Relay.Lists.{Evbuffer, ListT}
use box_rtsp.Relay.Packets.{Packet, is_i_frame, positive, admit}
use box_rtsp.Relay.Dispatch.{Store, dispatch}
use box_rtsp.Relay.Task.{relay}

-- The packets of the stream `video`.
abbrev pub of_stream : ℤ → List Packet → List Packet
of_stream v [] = []
of_stream v (k ∷ ks) = if eq_int v k.stream_index then k ∷ of_stream v ks else of_stream v ks

-- The packets from the first I frame of the stream with a positive time stamp on.
abbrev pub from_key : ℤ → List Packet → List Packet
from_key v [] = []
from_key v (k ∷ ks) = elim (eq_int v k.stream_index) [
  | false ↦ from_key v ks
  | true ↦ elim (is_i_frame k) [
    | false ↦ from_key v ks
    | true ↦ elim (positive k.pts) [ true ↦ k ∷ ks | false ↦ from_key v ks ]
  ]
]

admit_off :
    (v a : ℤ) (k : Packet) → eq_int v k.stream_index ≡ false → admit v a false k ≡ (false, false)
unfolding admit
admit_off v a k o = ground arith

admit_other :
    (v a : ℤ) (k : Packet)
    → eq_int v k.stream_index ≡ true
    → is_i_frame k ≡ false
    → admit v a false k ≡ (false, false)
unfolding admit
admit_other v a k o b = ground arith

admit_early :
    (v a : ℤ) (k : Packet)
    → eq_int v k.stream_index ≡ true
    → is_i_frame k ≡ true
    → positive k.pts ≡ false
    → admit v a false k ≡ (false, false)
unfolding admit
admit_early v a k o i z = ground arith

admit_key :
    (v a : ℤ) (k : Packet)
    → eq_int v k.stream_index ≡ true
    → is_i_frame k ≡ true
    → positive k.pts ≡ true
    → admit v a false k ≡ (true, true)
unfolding admit
admit_key v a k o i z = ground arith

module _ {B L : Type 0} (e : Evbuffer B) (t : ListT L) where
  -- Every frame in turn, until nobody watches.
  abbrev pub deliver : List Packet → L → Store B → Exec (L × Store B)
  deliver [] l s = ok (l, s)
  deliver (k ∷ ks) l s = elim (ltb (t.list_size l) 1) [
    | true ↦ ok (l, s)
    | false ↦ dispatch e t k l s >>= λ r. deliver ks r.0 r.1
  ]

  deliver_nobody :
      (ks : List Packet) (l : L) (s : Store B)
      → ltb (t.list_size l) 1 ≡ true
      → deliver ks l s ≡ ok (l, s)
  deliver_nobody [] l s h = refl
  deliver_nobody (k ∷ ks) l s h = rw (h, deliver) refl

  bind_same :
      {A C : Type 0} (m : Exec A) (f g : A → Exec C) → ((a : A) → f a ≡ g a) → (m >>= f) ≡ (m >>= g)
  bind_same (ok a) f g h = h a
  bind_same (halt a) f g h = refl

  relay_skip :
      (v a : ℤ) (f g : Bool) (k : Packet) (ks : List Packet) (l : L) (s : Store B)
      → ltb (t.list_size l) 1 ≡ false
      → admit v a f k ≡ (false, g)
      → relay e t v a f (k ∷ ks) l s ≡ relay e t v a g ks l s
  unfolding relay
  relay_skip v a f g k ks l s h q = rw (h, q) (ap (λ z. relay e t v a z.1 ks l s) q)

  relay_pass :
      (v a : ℤ) (f g : Bool) (k : Packet) (ks : List Packet) (l : L) (s : Store B)
      → ltb (t.list_size l) 1 ≡ false
      → admit v a f k ≡ (true, g)
      → relay e t v a f (k ∷ ks) l s ≡ (dispatch e t k l s >>= λ r. relay e t v a g ks r.0 r.1)
  unfolding relay
  relay_pass v a f g k ks l s h q =
      rw (h, q) (bind_same (dispatch e t k l s) _ _ (λ r. ap (λ z. relay e t v a z.1 ks r.0 r.1) q))

  relay_nobody :
      (v a : ℤ) (f : Bool) (ks : List Packet) (l : L) (s : Store B)
      → ltb (t.list_size l) 1 ≡ true
      → relay e t v a f ks l s ≡ ok (l, s)
  unfolding relay
  relay_nobody v a f [] l s h = refl
  relay_nobody v a f (k ∷ ks) l s h = rw h refl

  deliver_next :
      (k : Packet) (ks : List Packet) (l : L) (s : Store B)
      → ltb (t.list_size l) 1 ≡ false
      → deliver (k ∷ ks) l s ≡ (dispatch e t k l s >>= λ r. deliver ks r.0 r.1)
  deliver_next k ks l s h = rw (h, deliver) refl

  relay_running :
      (v a : ℤ) (ks : List Packet) (l : L) (s : Store B)
      → relay e t v a true ks l s ≡ deliver (of_stream v ks) l s
  unfolding relay
  relay_running v a [] l s = refl
  relay_running v a (k ∷ ks) l s = elim (Bool-cases (ltb (t.list_size l) 1)) [
    | inl h ↦
        relay_nobody v a true (k ∷ ks) l s h ∙ sym (deliver_nobody (of_stream v (k ∷ ks)) l s h)
    | inr h ↦ elim (Bool-cases (eq_int v k.stream_index)) [
      | inl o ↦
          relay_pass v a true true k ks l s h (unfold admit in ground arith)
          ∙ bind_same (dispatch e t k l s) _ _ (λ r. relay_running v a ks r.0 r.1)
          ∙ sym (rw (o, of_stream) (deliver_next k (of_stream v ks) l s h))
      | inr o ↦
          relay_skip v a true true k ks l s h (unfold admit in ground arith)
          ∙ rw (o, of_stream) (relay_running v a ks l s)
    ]
  ]

  -- The loop over the packets gives the clients the video frames from the first I frame with a
  -- positive time stamp on, each of them once and in their order, and no other packet, until nobody
  -- watches.
  pub relay-deliver :
      (v a : ℤ) (ks : List Packet) (l : L) (s : Store B)
      → relay e t v a false ks l s ≡ deliver (of_stream v (from_key v ks)) l s
  unfolding relay
  relay-deliver v a [] l s = refl
  relay-deliver v a (k ∷ ks) l s = elim (Bool-cases (ltb (t.list_size l) 1)) [
    | inl h ↦
        relay_nobody v a false (k ∷ ks) l s h
        ∙ sym (deliver_nobody (of_stream v (from_key v (k ∷ ks))) l s h)
    | inr h ↦ elim (Bool-cases (eq_int v k.stream_index)) [
      | inr o ↦
          relay_skip v a false false k ks l s h (admit_off v a k o)
          ∙ rw (o, from_key) (relay-deliver v a ks l s)
      | inl o ↦ elim (Bool-cases (is_i_frame k)) [
        | inr b ↦
            relay_skip v a false false k ks l s h (admit_other v a k o b)
            ∙ rw (o, b, from_key) (relay-deliver v a ks l s)
        | inl i ↦ elim (Bool-cases (positive k.pts)) [
          | inr z ↦
              relay_skip v a false false k ks l s h (admit_early v a k o i z)
              ∙ rw (o, i, z, from_key) (relay-deliver v a ks l s)
          | inl z ↦
              relay_pass v a false true k ks l s h (admit_key v a k o i z)
              ∙ bind_same (dispatch e t k l s) _ _ (λ r. relay_running v a ks r.0 r.1)
              ∙ sym (rw (o, i, z, from_key, o, of_stream) (deliver_next k (of_stream v ks) l s h))
        ]
      ]
    ]
  ]
