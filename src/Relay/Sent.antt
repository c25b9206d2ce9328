-- ===== src/Relay/Sent.antt =====
-- src/dev_opt.c, read_video_data_from_dev_task: what a frame does to one client of the list.
use box_rtsp.Prelude.{
  ℕ, ◌≡◌, refl, sym, ◌∙◌, inl, inr, true, false, List, [], ◌∷◌, Option, none, some, ◌==◌,
  Bool-cases,
}
use box_rtsp.Rtsp.Exec.{Exec, ok, halt, ◌>>=◌}
use box_rtsp.Relay.Lists.{Evbuffer}
use box_rtsp.Relay.Packets.{Packet}
use box_rtsp.Relay.Client.{Client, visit, send_frame}
use box_rtsp.Relay.Dispatch.{Store, update}
use box_rtsp.Relay.Queue.{AreDistinct, visit_all}
use box_rtsp.Relay.Members.{mem, eq_self, eq_swap, eq_lem, IsNew-mem}
use box_rtsp.Relay.Served.{
  IsServed, Stay, visit_all-Stay, Gives, Gives-ok, Gives-map, ServedIf, visit-IsServed,
  update-AreServed,
}

abbrev pub Has : {B : Type 0} → ℕ → Client B → List ℕ × Store B → Type 0
Has c z r = (mem c r.0 ≡ true) × (r.1 c ≡ z)

module _ {B : Type 0} (e : Evbuffer B) (k : Packet) where
  Gives-cons :
      (Q : List ℕ × Store B → Type 0) (x : ℕ) (m : Exec (List ℕ × Store B))
      → Gives (λ r. Q (x ∷ r.0, r.1)) m
      → Gives Q (m >>= λ r. ok (x ∷ r.0, r.1))
  Gives-cons Q x (ok r) h = h
  Gives-cons Q x (halt q) h = h

  -- One client, and then the others.
  visit_all_rule :
      (Q : List ℕ × Store B → Type 0) (x : ℕ) (xs : List ℕ) (s : Store B)
      → ((a : ℕ) → IsServed (s a))
      → (visit e k (s x) ≡ ok none → Gives Q (visit_all e k xs s))
      → ((z : Client B)
          → visit e k (s x) ≡ ok (some z)
          → ((a : ℕ) → IsServed (update s x z a))
          → Gives (λ r. Q (x ∷ r.0, r.1)) (visit_all e k xs (update s x z)))
      → Gives Q (visit_all e k (x ∷ xs) s)
  visit_all_rule Q x xs s v f g =
      let (z, q, u) = Gives-ok (ServedIf e) (visit e k (s x)) (visit-IsServed e k (s x) (v x)) in
      by_result z q u
    where
      by_result :
          (z : Option (Client B))
          → visit e k (s x) ≡ ok z
          → ServedIf e z
          → Gives Q (visit_all e k (x ∷ xs) s)
      by_result none q u = rw q (f q)
      by_result (some z) q u =
          rw q (
            Gives-cons Q x (visit_all e k xs (update s x z)) (g z q (update-AreServed e s x z v u)))

  visit_all_else :
      (xs : List ℕ) (s : Store B) (c : ℕ)
      → mem c xs ≡ false
      → ((a : ℕ) → IsServed (s a))
      → Gives (λ r. r.1 c ≡ s c) (visit_all e k xs s)
  visit_all_else [] s c m v = refl
  visit_all_else (x ∷ xs) s c m v = elim (Bool-cases (x == c)) [
    | inl q ↦ let f : true ≡ false = rw (q, mem) at m in cc
    | inr q ↦
        let n : mem c xs ≡ false = rw (q, mem) at m in
        visit_all_rule (λ r. r.1 c ≡ s c) x xs s v (λ z. visit_all_else xs s c n v)
          (λ z t v₁. rw (eq_swap x c q) at (visit_all_else xs (update s x z) c n v₁))
  ]

  same_result :
      (y z : Client B) → Path (Exec (Option (Client B))) (ok (some y)) (ok (some z)) → y ≡ z
  same_result y z h = cc

  -- A client of the list that a turn leaves as `z` stays in the list and is `z` behind the frame.
  pub visit_all_one :
      (xs : List ℕ) (s : Store B) (c : ℕ) (z : Client B)
      → AreDistinct xs
      → ((a : ℕ) → IsServed (s a))
      → mem c xs ≡ true
      → visit e k (s c) ≡ ok (some z)
      → Gives (Has c z) (visit_all e k xs s)
  visit_all_one [] s c z h v m t = let f : false ≡ true = m in cc
  visit_all_one (x ∷ xs) s c z h v m t = elim (Bool-cases (x == c)) [
    | inl q ↦
        let x_c : x ≡ c = eq_lem x c q in
        let u : visit e k (s x) ≡ ok (some z) = rw x_c t in
        let n : mem c xs ≡ false = rw x_c at (IsNew-mem x xs h.0) in
        visit_all_rule (Has c z) x xs s v
          (λ g. let f : Path (Exec (Option (Client B))) (ok none) (ok (some z)) = sym g ∙ u in cc)
          (λ y g v₁.
            let same : y ≡ z = same_result y z (sym g ∙ u) in
            Gives-map (λ r. r.1 c ≡ update s x y c) (λ r. Has c z (x ∷ r.0, r.1))
              (visit_all e k xs (update s x y))
              (λ r i. (rw (q, mem) refl, i ∙ rw (x_c, eq_self c) same))
              (visit_all_else xs (update s x y) c n v₁))
    | inr q ↦
        let i : mem c xs ≡ true = rw (q, mem) at m in
        visit_all_rule (Has c z) x xs s v (λ g. visit_all_one xs s c z h.1 v i t)
          (λ y g v₁.
            Gives-map (Has c z) (λ r. Has c z (x ∷ r.0, r.1)) (visit_all e k xs (update s x y))
              (λ r a. (rw (q, mem) a.0, a.1))
              (visit_all_one xs (update s x y) c z h.1 v₁ i (rw (eq_swap x c q) t)))
  ]

  unmarked_stays :
      (c : Client B)
      → IsServed c
      → (c.del_flag == 1) ≡ false
      → (z : Client B) × (visit e k c ≡ ok (some z))
  unfolding visit
  unmarked_stays c h d = by_event c.send_video_to_server_event refl
    where
      by_event :
          (o : Option B)
          → c.send_video_to_server_event ≡ o
          → (z : Client B) × (visit e k c ≡ ok (some z))
      by_event none f =
          let g : (c.del_flag == 1) ≡ false → (c.send_frame_flag == 1) ≡ false = rw f at h in
          (c, rw (d, g d) refl)
      by_event (some out) f = elim (Bool-cases (c.send_frame_flag == 1)) [
        | inl q ↦ (send_frame e k c out, simp (d, q, f))
        | inr q ↦ (c, rw (d, q) refl)
      ]

  -- What a frame keeps of the list, and the clients that left it were marked.
  abbrev pub Leaves : List ℕ → Store B → List ℕ → Store B → Type 0
  Leaves xs s ys s₁ =
      Stay xs ys s₁ × ((c : ℕ) → mem c xs ≡ true → mem c ys ≡ false → ((s c).del_flag == 1) ≡ true)

  left_marked :
      (xs : List ℕ) (s : Store B) (r : List ℕ × Store B) (c : ℕ)
      → AreDistinct xs
      → ((a : ℕ) → IsServed (s a))
      → visit_all e k xs s ≡ ok r
      → mem c xs ≡ true
      → mem c r.0 ≡ false
      → ((s c).del_flag == 1) ≡ true
  left_marked xs s r c h v q m n = elim (Bool-cases ((s c).del_flag == 1)) [
    | inl d ↦ d
    | inr d ↦
        let (z, t) = unmarked_stays (s c) (v c) d in
        let i : Has c z r = rw q at (visit_all_one xs s c z h v m t) in
        let f : true ≡ false = sym i.0 ∙ n in cc
  ]

  pub visit_all-Leaves :
      (xs : List ℕ) (s : Store B)
      → AreDistinct xs
      → ((a : ℕ) → IsServed (s a))
      → Gives (λ r. Leaves xs s r.0 r.1) (visit_all e k xs s)
  visit_all-Leaves xs s h v =
      let (r, q, i) = Gives-ok _ (visit_all e k xs s) (visit_all-Stay e k xs s h v) in
      rw q (i, λ c. left_marked xs s r c h v q)
