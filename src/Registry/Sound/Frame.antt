-- ===== src/Registry/Sound/Frame.antt =====
-- src/dev_opt.c, read_video_data_from_dev_task: what a frame keeps of the lists.
use box_rtsp.Prelude.{
  ℕ, ◌≤◌, ◌≡◌, refl, sym, ◌∙◌, inl, inr, true, false, List, [], ◌∷◌, Option, none, some, ◌==◌,
  Bool-cases,
}
use box_rtsp.Rtsp.Exec.{Exec, ok, halt, ◌>>=◌}
use box_rtsp.Relay.Lists.{ListLaws, find}
use box_rtsp.Relay.Packets.{Packet}
use box_rtsp.Relay.Client.{Client}
use box_rtsp.Relay.Dispatch.{Store, dispatch}
use box_rtsp.Relay.Queue.{AreDistinct, dispatch-visit_all}
use box_rtsp.Relay.Members.{mem, eq_lem, eq_self}
use box_rtsp.Relay.Served.{IsServed, Stay, Gives}
use box_rtsp.Relay.Sent.{Leaves, visit_all-Leaves}
use box_rtsp.Registry.World.{Dev, World, put, put_dev}
use box_rtsp.Registry.Outside.{Outside}
use box_rtsp.Registry.Push.{no_client}
use box_rtsp.Registry.Reader.{is_some, holds, clients_behind, store}
use box_rtsp.Registry.Rules.{same_some}
use box_rtsp.Registry.Sound.{Stands, Ins, Owned, IsSound}

module _ {B L J : Type 0} (o : Outside B L J) (laws : ListLaws o.list) where
  view-Gives :
      (k : Packet) (xs : List ℕ) (s : Store B) (m : Exec (L × Store B))
      → Gives
          (λ (r : List ℕ × Store B). Leaves o.buffer k xs s r.0 r.1)
          (m >>= λ r. ok (laws.elements r.0, r.1))
      → Gives (λ (r : L × Store B). Leaves o.buffer k xs s (laws.elements r.0) r.1) m
  view-Gives k xs s (ok r) h = h
  view-Gives k xs s (halt q) h = h

  -- A frame fails nowhere, the clients that are in the list behind it were in it, each once, those that
  -- are to be sent frames still have connections, and those that left it were marked.
  pub dispatch-Leaves :
      (k : Packet) (l : L) (s : Store B)
      → AreDistinct (laws.elements l)
      → ((a : ℕ) → IsServed (s a))
      → Gives
          (λ (r : L × Store B). Leaves o.buffer k (laws.elements l) s (laws.elements r.0) r.1)
          (dispatch o.buffer o.list k l s)
  dispatch-Leaves k l s d v = view-Gives k (laws.elements l) s (dispatch o.buffer o.list k l s) (
      rw (dispatch-visit_all o.buffer o.list laws k l s d)
        (visit_all-Leaves o.buffer k (laws.elements l) s d v))

  pub store-AreServed :
      (owner : ℕ → ℕ) (w : World B L) → Owned o laws owner w → (a : ℕ) → IsServed (store o w a)
  store-AreServed owner w h a = by_client (w.clients a) refl
    where
      by_client :
          (m : Option (Client B))
          → w.clients a ≡ m
          → IsServed (elim m [ none ↦ no_client o | some x ↦ x ])
      by_client none e = λ m. refl
      by_client (some x) e = h.6 a x e

  find-mem : (a : ℕ) (xs : List ℕ) → is_some o (find (λ b. b == a) xs) ≡ mem a xs
  find-mem a [] = refl
  find-mem a (x ∷ xs) = elim (Bool-cases (x == a)) [
    | inl q ↦ rw (q, find, mem) refl
    | inr q ↦ rw (q, find, mem) (find-mem a xs)
  ]

  pub holds-mem : (l : L) (a : ℕ) → holds o l a ≡ mem a (laws.elements l)
  holds-mem l a = rw (laws.seek_lem l (λ b. b == a)) (find-mem a (laws.elements l))

  module _ (owner : ℕ → ℕ) (w : World B L) (d : ℕ) (x : Dev L) (e : w.devices d ≡ some x)
      (h : Owned o laws owner w) (r : L) (s : Store B)
      (k : Stay (laws.elements x.rtsp_clients) (laws.elements r) s)
      (gone : (c : ℕ)
        → Ins o laws c x.rtsp_clients
        → mem c (laws.elements r) ≡ false
        → ((store o w c).del_flag == 1) ≡ true) where
    abbrev served : Dev L
    served = record x { rtsp_clients = r }

    stands : (b : ℕ) → Ins o laws b w.dev_list → Stands (put w.devices d served) b
    stands b i = elim (Bool-cases (b == d)) [
      | inl q ↦ (served, rw q refl)
      | inr q ↦ let (z, f) = h.1 b i in (z, rw q f)
    ]

    distinct :
        (b : ℕ) (z : Dev L)
        → put w.devices d served b ≡ some z
        → AreDistinct (laws.elements z.rtsp_clients)
    distinct b z f = elim (Bool-cases (b == d)) [
      | inl q ↦ let g : some served ≡ some z = rw q at f in rw (sym (same_some served z g)) k.0
      | inr q ↦ h.2 b z (rw q at f)
    ]

    -- A client that stays, and one of another device.
    stays : (c : ℕ) → Ins o laws c r → Stands (clients_behind o w x.rtsp_clients r s) c
    stays c i = (s c, rw (holds-mem x.rtsp_clients c, k.1 c i, holds-mem r c, i) refl)

    others :
        (b c : ℕ) (z : Dev L)
        → (b == d) ≡ false
        → w.devices b ≡ some z
        → Ins o laws c z.rtsp_clients
        → Stands (clients_behind o w x.rtsp_clients r s) c
    others b c z n f i = elim (Bool-cases (mem c (laws.elements x.rtsp_clients))) [
      | inl q ↦
          let b_d : b ≡ d = sym (h.3 b c z f i).1 ∙ (h.3 d c x e q).1 in
          let g : false ≡ true = sym n ∙ rw b_d (eq_self d) in cc
      | inr q ↦ let ((y, g), l) = h.3 b c z f i in (y, rw (holds-mem x.rtsp_clients c, q) g)
    ]

    owned :
        (b c : ℕ) (z : Dev L)
        → put w.devices d served b ≡ some z
        → Ins o laws c z.rtsp_clients
        → Stands (clients_behind o w x.rtsp_clients r s) c × (owner c ≡ b)
    owned b c z f i = elim (Bool-cases (b == d)) [
      | inr q ↦ (others b c z q (rw q at f) i, (h.3 b c z (rw q at f) i).1)
      | inl q ↦
          let g : some served ≡ some z = rw q at f in
          let j : Ins o laws c r = rw (sym (same_some served z g)) at i in
          (stays c j, (h.3 d c x e (k.1 c j)).1 ∙ sym (eq_lem b d q))
    ]

    fresh :
        (a : ℕ)
        → w.next ≤ a
        → (put w.devices d served a ≡ none) × (clients_behind o w x.rtsp_clients r s a ≡ none)
    fresh a l = (
      elim (Bool-cases (a == d)) [
        | inl q ↦ let f : some x ≡ none = sym e ∙ rw (eq_lem a d q) at (h.5 a l).0 in cc
        | inr q ↦ rw q (h.5 a l).0
      ],
      elim (Bool-cases (mem a (laws.elements x.rtsp_clients))) [
        | inl q ↦
            let ((y, g), m) = h.3 d a x e q in let f : none ≡ some y = sym (h.5 a l).1 ∙ g in cc
        | inr q ↦ rw (holds-mem x.rtsp_clients a, q) (h.5 a l).1
      ],
    )

    served_clients :
        (c : ℕ) (y : Client B) → clients_behind o w x.rtsp_clients r s c ≡ some y → IsServed y
    served_clients c y f = elim (Bool-cases (holds o x.rtsp_clients c)) [
      | inr q ↦ h.6 c y (rw q at f)
      | inl q ↦ elim (Bool-cases (holds o r c)) [
        | inr p ↦
            let z = record (store o w c) { send_video_to_server_event = none } in
            let g : some z ≡ some y = rw (q, p) at f in
            let m : mem c (laws.elements x.rtsp_clients) ≡ true =
              sym (holds-mem x.rtsp_clients c) ∙ q in
            let n : mem c (laws.elements r) ≡ false = sym (holds-mem r c) ∙ p in
            rw (sym (same_some z y g)) (λ u. let t : true ≡ false = sym (gone c m n) ∙ u in cc)
        | inl p ↦
            let g : some (s c) ≡ some y = rw (q, p) at f in rw (sym (same_some (s c) y g)) (k.2 c)
      ]
    ]

    -- The device and the clients behind a frame.
    pub served-IsSound :
        IsSound o laws
          (record (put_dev w d served) { clients = clients_behind o w x.rtsp_clients r s })
    served-IsSound = (owner, (h.0, stands, distinct, owned, h.4, fresh, served_clients))
