-- ===== src/Registry/Waiting.antt =====
-- src/dev_opt.c: the clients that wait for a camera, once its description is there.
use box_rtsp.Prelude.{
  ℕ, zero, suc, ◌+◌, ◌≤◌, ◌≡◌, refl, sym, ap, ◌∙◌, inl, inr, true, false, List, [], ◌∷◌, ◌++◌, none,
  some, arith, length, length-append, ltb, lt→ltb, le→ltb, ◌==◌, Bool-cases,
}
use mathlib.Core.List.{append_assoc}
use box_rtsp.Rtsp.Exec.{ok}
use box_rtsp.Server.Sdp.{Sdp, analysis_sdp_info}
use box_rtsp.Relay.Lists.{ListLaws, get_elem?}
use box_rtsp.Relay.Queue.{AreDistinct}
use box_rtsp.Relay.Members.{mem, eq_self, eq_lem, eq_swap, IsNew-mem}
use box_rtsp.Registry.Run.{Run, returns, ◌>>=◌}
use box_rtsp.Registry.World.{Dev, Bev, Heap, connected, World, unlock, put, put_dev, change_bev}
use box_rtsp.Registry.Outside.{Outside}
use box_rtsp.Registry.Open.{sdp_message}
use box_rtsp.Registry.Describe.{answer_bev, answer_from, sdp_ready}
use box_rtsp.Registry.Sound.{Stands}
use box_rtsp.Registry.Rules.{bind_same}

get_elem?_behind :
    (xs : List ℕ) (a : ℕ) (ys : List ℕ) → get_elem? (xs ++ (a ∷ ys)) (length xs) ≡ some a
get_elem?_behind [] a ys = refl
get_elem?_behind (x ∷ xs) a ys = get_elem?_behind xs a ys

mem_first : (b x : ℕ) (xs : List ℕ) → mem b xs ≡ true → mem b (x ∷ xs) ≡ true
mem_first b x xs m = elim (Bool-cases (x == b)) [ inl q ↦ rw (q, mem) refl | inr q ↦ rw (q, mem) m ]

module _ {B L J : Type 0} (o : Outside B L J) (laws : ListLaws o.list) where
  -- The same message to each client of a sequence.
  abbrev answer_all : ℕ → List ℕ → List ℕ → World B L → Run (World B L)
  answer_all d message [] w = returns w
  answer_all d message (b ∷ bs) w =
      change_bev w b (answer_bev o d message) >>= λ w₁. answer_all d message bs w₁

  answer_from-answer_all :
      (fuel i d : ℕ) (xs rest : List ℕ) (l : L) (message : List ℕ) (w : World B L)
      → laws.elements l ≡ xs ++ rest
      → i ≡ length xs
      → length rest ≤ fuel
      → answer_from o fuel i d l message w ≡ answer_all d message rest w
  unfolding answer_from
  answer_from-answer_all fuel i d xs [] l message w e n h = stops fuel
    where
      ends : ltb i (o.list.list_size l) ≡ false
      ends =
          le→ltb i (o.list.list_size l)
            (omega (arith, laws.size_lem l, ap length e, length-append xs []))

      stops : (f : ℕ) → answer_from o f i d l message w ≡ returns w
      stops zero = rw (answer_from, ends) refl
      stops (suc f) = rw (answer_from, ends) refl
  answer_from-answer_all zero i d xs (b ∷ bs) l message w e n h = ground arith
  answer_from-answer_all (suc fuel) i d xs (b ∷ bs) l message w e n h =
      rw (answer_from, goes_on, at_i)
        (bind_same (change_bev w b (answer_bev o d message)) _ _ (λ w₁.
          answer_from-answer_all fuel (i + 1) d (xs ++ (b ∷ [])) bs l message w₁
            (e ∙ sym (append_assoc xs (b ∷ []) bs)) (omega (arith, length-append xs (b ∷ [])))
            (omega arith)))
    where
      goes_on : ltb i (o.list.list_size l) ≡ true
      goes_on =
          lt→ltb i (o.list.list_size l)
            (omega (arith, laws.size_lem l, ap length e, length-append xs (b ∷ bs)))

      at_i : o.list.list_get_at l i ≡ some b
      at_i = laws.get_at_lem l i ∙ rw (e, n) (get_elem?_behind xs b bs)

  -- The bufferevents behind the messages.
  abbrev Answered : ℕ → List ℕ → List ℕ → Heap (Bev B) → Heap (Bev B) → Type 0
  Answered d message xs m r =
      ((b : ℕ) (v : Bev B) → mem b xs ≡ true → m b ≡ some v → r b ≡ some (answer_bev o d message v))
      × ((b : ℕ) → mem b xs ≡ false → r b ≡ m b)

  answer_all-Answered :
      (d : ℕ) (message xs : List ℕ) (w : World B L)
      → AreDistinct xs
      → ((b : ℕ) → mem b xs ≡ true → Stands w.bevs b)
      → (r : Heap (Bev B)) × (answer_all d message xs w ≡ returns (record w { bevs = r }))
        × Answered d message xs w.bevs r
  answer_all-Answered d message [] w h k = (w.bevs, refl, (λ b v i e. cc, λ b n. refl))
  answer_all-Answered d message (x ∷ xs) w h k =
      let (v, e) = k x (rw (eq_self x, mem) refl) in
      let (r, a, t) =
        answer_all-Answered d message xs
          (record w { bevs = put w.bevs x (answer_bev o d message v) }) h.1
          (λ b m. elim (Bool-cases (b == x)) [
            | inl q ↦ (answer_bev o d message v, rw q refl)
            | inr q ↦ let (u, f) = k b (mem_first b x xs m) in (u, rw q f)
          ]) in
      (
        r,
        rw e a,
        (
          λ b u m f. elim (Bool-cases (x == b)) [
            | inl q ↦
                let x_b : x ≡ b = eq_lem x b q in
                let s : some v ≡ some u = sym e ∙ rw (sym x_b) at f in
                rw (sym x_b) (
                  t.1 x (IsNew-mem x xs h.0)
                  ∙ rw (eq_self x) (
                      ap (λ z. elim z [ none ↦ none | some y ↦ some (answer_bev o d message y) ])
                        s))
            | inr q ↦ t.0 b u (rw (q, mem) at m) (rw (eq_swap x b q) f)
          ],
          λ b n. elim (Bool-cases (x == b)) [
            | inl q ↦ let g : true ≡ false = rw (q, mem) at n in cc
            | inr q ↦ t.1 b (rw (q, mem) at n) ∙ rw (eq_swap x b q) refl
          ],
        ),
      )

  -- Once a camera's description is there and is read, the lock being free, and the clients that wait for
  -- the camera are in memory and each once in the list, the callback returns: each of them is
  -- written the description and may send its next command for this camera, no other bufferevent
  -- changes, the device is connected with this description, and the lock is free.
  pub sdp_ready_answers :
      (d : ℕ) (text : List ℕ) (x : Dev L) (s : Sdp) (w : World B L) (b c : ℕ) (v : Bev B)
      → w.devices d ≡ some x
      → analysis_sdp_info text x.sdp ≡ ok s
      → w.locked ≡ false
      → AreDistinct (laws.elements x.wait_clients)
      → ((a : ℕ) → mem a (laws.elements x.wait_clients) ≡ true → Stands w.bevs a)
      → mem b (laws.elements x.wait_clients) ≡ true
      → w.bevs b ≡ some v
      → mem c (laws.elements x.wait_clients) ≡ false
      → (w₁ : World B L) × (y : Dev L) × (sdp_ready o d text w ≡ returns w₁)
        × (w₁.bevs b ≡ some (answer_bev o d (sdp_message s) v))
        × (w₁.bevs c ≡ w.bevs c)
        × (w₁.devices d ≡ some y)
        × (y.sdp ≡ s)
        × (y.dev_connect_status ≡ connected)
        × (w₁.locked ≡ false)
  unfolding sdp_ready
  sdp_ready_answers d text x s w b c v e a f h k i g n =
      let y = record x { sdp = s; dev_connect_status = connected } in
      let (r, m, t) =
        answer_all-Answered d (sdp_message s) (laws.elements x.wait_clients) (put_dev w d y) h k in
      let c₁ =
        answer_from-answer_all (o.list.list_size x.wait_clients) 0 d []
          (laws.elements x.wait_clients) x.wait_clients (sdp_message s) (put_dev w d y) refl refl
          (omega (arith, laws.size_lem x.wait_clients))
        ∙ m in
      let z = record y { wait_clients = o.list.list_destroy x.wait_clients } in
      (
        unlock (put_dev (record (put_dev w d y) { bevs = r }) d z),
        z,
        rw (e, a, c₁, f) refl,
        t.0 b v i g,
        t.1 c n,
        rw (eq_self d) refl,
        refl,
        refl,
        refl,
      )
