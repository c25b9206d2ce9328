-- ===== src/Relay/Served.antt =====
-- src/dev_opt.c, read_video_data_from_dev_task: what a frame leaves of the list, where each client that is
-- to be sent frames has a connection.
use box_rtsp.Prelude.{
  ℕ, ◌≡◌, refl, sym, ◌∙◌, inl, inr, true, false, not, ◌&&◌, List, [], ◌∷◌, Option, none, some, ◌==◌,
  Bool-cases,
}
use box_rtsp.Rtsp.Exec.{Exec, ok, halt, ◌>>=◌}
use box_rtsp.Server.Returned.{Yields}
use box_rtsp.Relay.Lists.{Evbuffer}
use box_rtsp.Relay.Packets.{Packet, is_i_frame}
use box_rtsp.Relay.Client.{Client, visit, send_frame, is_full}
use box_rtsp.Relay.Dispatch.{Store, update}
use box_rtsp.Relay.Queue.{IsNew, AreDistinct, visit_all}
use box_rtsp.Relay.Members.{mem, eq_swap, eq_lem, IsNew-mem, mem-IsNew}

-- A client that is to be sent frames and is not marked for deletion has a connection.
abbrev pub Served : {B : Type 0} → ℕ → ℕ → Option B → Type 0
Served del flag none = (del == 1) ≡ false → (flag == 1) ≡ false
Served del flag (some out) = Unit {0}

pub marked-Served : {B : Type 0} (flag : ℕ) (event : Option B) → Served 1 flag event
marked-Served flag none = λ m. cc
marked-Served flag (some out) = tt

abbrev pub IsServed : {B : Type 0} → Client B → Type 0
IsServed c = Served c.del_flag c.send_frame_flag c.send_video_to_server_event

-- The addresses of a list that stay, each once, and the clients behind the frame.
abbrev pub Stay : {B : Type 0} → List ℕ → List ℕ → Store B → Type 0
Stay xs ys s =
    AreDistinct ys × ((a : ℕ) → mem a ys ≡ true → mem a xs ≡ true) × ((a : ℕ) → IsServed (s a))

mem_later : (x a : ℕ) (ys : List ℕ) → mem a ys ≡ true → mem a (x ∷ ys) ≡ true
mem_later x a ys m = elim (Bool-cases (x == a)) [ inl q ↦ rw (q, mem) refl | inr q ↦ rw (q, mem) m ]

Stay-later : {B : Type 0} (x : ℕ) (xs ys : List ℕ) (s : Store B) → Stay xs ys s → Stay (x ∷ xs) ys s
Stay-later x xs ys s (d, m, v) = (d, λ a i. mem_later x a xs (m a i), v)

Stay-first :
    {B : Type 0} (x : ℕ) (xs ys : List ℕ) (s : Store B)
    → IsNew x xs
    → Stay xs ys s
    → Stay (x ∷ xs) (x ∷ ys) s
Stay-first x xs ys s n (d, m, v) = (
  (
    mem-IsNew x ys (elim (Bool-cases (mem x ys)) [
      | inr q ↦ q
      | inl q ↦ let f : true ≡ false = sym (m x q) ∙ IsNew-mem x xs n in cc
    ]),
    d,
  ),
  λ a i. elim (Bool-cases (x == a)) [
    | inl q ↦ rw (q, mem) refl
    | inr q ↦ rw (q, mem) (m a (rw (q, mem) at i))
  ],
  v,
)

-- The call returns a value with `P`.
abbrev pub Gives : {A : Type 0} → (A → Type 0) → Exec A → Type 0
Gives P (ok a) = P a
Gives P (halt h) = ⊥

pub Gives-Yields : {A : Type 0} (P : A → Type 0) (m : Exec A) → Gives P m → Yields P m
Gives-Yields P (ok a) h = h
Gives-Yields P (halt q) h = tt

pub Gives-ok : {A : Type 0} (P : A → Type 0) (m : Exec A) → Gives P m → (a : A) × (m ≡ ok a) × P a
Gives-ok P (ok a) h = (a, refl, h)
Gives-ok P (halt q) h = elim h [ ]

Gives-bind :
    {A C : Type 0} (P : A → Type 0) (Q : C → Type 0) (m : Exec A) (f : A → Exec C)
    → Gives P m
    → ((a : A) → P a → Gives Q (f a))
    → Gives Q (m >>= f)
Gives-bind P Q (ok a) f h k = k a h
Gives-bind P Q (halt q) f h k = h

pub Gives-map :
    {A : Type 0} (P Q : A → Type 0) (m : Exec A) → ((a : A) → P a → Q a) → Gives P m → Gives Q m
Gives-map P Q (ok a) k h = k a h
Gives-map P Q (halt q) k h = h

module _ {B : Type 0} (e : Evbuffer B) where
  abbrev pub ServedIf : Option (Client B) → Type 0
  ServedIf none = Unit {0}
  ServedIf (some c) = IsServed c

  send_frame-IsServed :
      (k : Packet) (c : Client B) (out : B)
      → c.send_video_to_server_event ≡ some out
      → IsServed (send_frame e k c out)
  unfolding send_frame
  send_frame-IsServed k c out f = elim (Bool-cases (is_full e out k)) [
    | inl q ↦ rw q tt
    | inr q ↦ elim (Bool-cases ((c.miss_frame_flag == 1) && not (is_i_frame k))) [
      | inl m ↦ rw (q, m, f) tt
      | inr m ↦ rw (q, m) tt
    ]
  ]

  pub visit-IsServed : (k : Packet) (c : Client B) → IsServed c → Gives ServedIf (visit e k c)
  unfolding visit
  visit-IsServed k c h = by_event c.send_video_to_server_event refl
    where
      by_event : (o : Option B) → c.send_video_to_server_event ≡ o → Gives ServedIf (visit e k c)
      by_event none f = elim (Bool-cases (c.del_flag == 1)) [
        | inl d ↦ rw (d, f) h
        | inr d ↦
            let g : (c.del_flag == 1) ≡ false → (c.send_frame_flag == 1) ≡ false = rw f at h in
            rw (d, g d, f) (λ x. g d)
      ]
      by_event (some out) f = elim (Bool-cases (c.del_flag == 1)) [
        | inl d ↦ rw (d, f) tt
        | inr d ↦ elim (Bool-cases (c.send_frame_flag == 1)) [
          | inl q ↦ rw (d, q, f) (send_frame-IsServed k c out f)
          | inr q ↦ rw (d, q) h
        ]
      ]

  pub update-AreServed :
      (s : Store B) (a : ℕ) (c : Client B)
      → ((b : ℕ) → IsServed (s b))
      → IsServed c
      → (b : ℕ) → IsServed (update s a c b)
  update-AreServed s a c h v b = elim (Bool-cases (b == a)) [ inl q ↦ rw q v | inr q ↦ rw q (h b) ]

  abbrev Stays : List ℕ → List ℕ × Store B → Type 0
  Stays xs r = Stay xs r.0 r.1

  pub visit_all-Stay :
      (k : Packet) (xs : List ℕ) (s : Store B)
      → AreDistinct xs
      → ((a : ℕ) → IsServed (s a))
      → Gives (Stays xs) (visit_all e k xs s)
  visit_all-Stay k [] s h v = (tt, λ a m. m, v)
  visit_all-Stay k (x ∷ xs) s h v =
      Gives-bind ServedIf (Stays (x ∷ xs)) (visit e k (s x)) _ (visit-IsServed k (s x) (v x))
        (λ c u. turn c u (visit_all-Stay k xs s h.1 v) (λ s₁ v₁. visit_all-Stay k xs s₁ h.1 v₁))
    where
      turn :
          (c : Option (Client B))
          → ServedIf c
          → Gives (Stays xs) (visit_all e k xs s)
          → ((s₁ : Store B) → ((a : ℕ) → IsServed (s₁ a)) → Gives (Stays xs) (visit_all e k xs s₁))
          → Gives (Stays (x ∷ xs)) (elim c [
            | none ↦ visit_all e k xs s
            | some z ↦ visit_all e k xs (update s x z) >>= λ r. ok (x ∷ r.0, r.1)
          ])
      turn none u here all =
          Gives-map (Stays xs) (Stays (x ∷ xs)) (visit_all e k xs s)
            (λ r i. Stay-later x xs r.0 r.1 i) here
      turn (some z) u here all =
          Gives-bind (Stays xs) (Stays (x ∷ xs)) (visit_all e k xs (update s x z)) _
            (all (update s x z) (update-AreServed s x z v u)) (λ r i. Stay-first x xs r.0 r.1 h.0 i)

  -- A client that is marked leaves the list, while the others are served.
  pub visit_all_gone :
      (k : Packet) (xs : List ℕ) (s : Store B) (c : ℕ) (out : B)
      → AreDistinct xs
      → ((a : ℕ) → IsServed (s a))
      → ((s c).del_flag == 1) ≡ true
      → (s c).send_video_to_server_event ≡ some out
      → Gives (λ (r : List ℕ × Store B). mem c r.0 ≡ false) (visit_all e k xs s)
  unfolding visit
  visit_all_gone k [] s c out h v d f = refl
  visit_all_gone k (x ∷ xs) s c out h v d f = elim (Bool-cases (x == c)) [
    | inl q ↦
        let x_c : x ≡ c = eq_lem x c q in
        rw (x_c, d, f)
          (Gives-map (Stays xs) (λ (r : List ℕ × Store B). mem c r.0 ≡ false) (visit_all e k xs s)
            (λ r i. elim (Bool-cases (mem c r.0)) [
              | inr n ↦ n
              | inl n ↦ let g : true ≡ false = sym (i.1 c n) ∙ rw x_c at (IsNew-mem x xs h.0) in cc
            ])
            (visit_all-Stay k xs s h.1 v))
    | inr q ↦
        Gives-bind ServedIf (λ (r : List ℕ × Store B). mem c r.0 ≡ false) (visit e k (s x)) _
          (visit-IsServed k (s x) (v x))
          (λ z u.
            turn z q u (visit_all_gone k xs s c out h.1 v d f)
              (λ s₁ v₁ d₁ f₁. visit_all_gone k xs s₁ c out h.1 v₁ d₁ f₁))
  ]
    where
      turn :
          (z : Option (Client B))
          → (x == c) ≡ false
          → ServedIf z
          → Gives (λ (r : List ℕ × Store B). mem c r.0 ≡ false) (visit_all e k xs s)
          → ((s₁ : Store B)
              → ((a : ℕ) → IsServed (s₁ a))
              → ((s₁ c).del_flag == 1) ≡ true
              → (s₁ c).send_video_to_server_event ≡ some out
              → Gives (λ (r : List ℕ × Store B). mem c r.0 ≡ false) (visit_all e k xs s₁))
          → Gives
              (λ (r : List ℕ × Store B). mem c r.0 ≡ false)
              (elim z [
                | none ↦ visit_all e k xs s
                | some y ↦ visit_all e k xs (update s x y) >>= λ r. ok (x ∷ r.0, r.1)
              ])
      turn none q u here all = here
      turn (some y) q u here all =
          Gives-bind (λ (r : List ℕ × Store B). mem c r.0 ≡ false)
            (λ (r : List ℕ × Store B). mem c r.0 ≡ false) (visit_all e k xs (update s x y)) _
            (all (update s x y) (update-AreServed s x y v u) (rw (eq_swap x c q) d)
              (rw (eq_swap x c q) f))
            (λ r i. rw (q, mem) i)
