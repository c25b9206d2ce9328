-- ===== src/Registry/Sound/Joining.antt =====
-- src/libevent_server.c, connect_to_rtsp_server: what a new client keeps of the lists.
use box_rtsp.Prelude.{
  ℕ, suc, ◌≤◌, ◌<◌, ◌≡◌, refl, sym, ◌∙◌, inl, inr, true, false, none, some, arith, ◌==◌,
  if◌then◌else◌, Bool-cases,
}
use box_rtsp.Relay.Lists.{ListLaws}
use box_rtsp.Relay.Queue.{AreDistinct}
use box_rtsp.Relay.Members.{mem, eq_lem, eq_self, mem-append, AreDistinct-append}
use box_rtsp.Relay.Client.{Client}
use box_rtsp.Relay.Served.{IsServed}
use box_rtsp.Registry.World.{Dev, Args, World, put}
use box_rtsp.Registry.Outside.{Outside}
use box_rtsp.Registry.Push.{no_client, add_client}
use box_rtsp.Registry.Rules.{same_some}
use box_rtsp.Registry.Sound.{Stands, Ins, Owned, IsSound}

module _ {B L J : Type 0} (o : Outside B L J) (laws : ListLaws o.list) where
  -- The owner of the new client is the device.
  abbrev joined : (ℕ → ℕ) → ℕ → ℕ → ℕ → ℕ
  joined owner n d c = if c == n then d else owner c

  module _ (owner : ℕ → ℕ) (w : World B L) (d : ℕ) (x : Dev L) (e : w.devices d ≡ some x)
      (h : Owned o laws owner w) where
    abbrev grown : Dev L
    grown = record x { rtsp_clients = o.list.list_append x.rtsp_clients w.next }

    old_client :
        (b c : ℕ) (z : Dev L)
        → w.devices b ≡ some z
        → Ins o laws c z.rtsp_clients
        → (c == w.next) ≡ false
    old_client b c z f i = elim (Bool-cases (c == w.next)) [
      | inr q ↦ q
      | inl q ↦
          let ((y, g), k) = h.3 b c z f i in
          let l : none ≡ some y = sym (h.5 w.next (omega arith)).1 ∙ rw (eq_lem c w.next q) at g in
          cc
    ]

    stands : (b : ℕ) → Ins o laws b w.dev_list → Stands (put w.devices d grown) b
    stands b i = elim (Bool-cases (b == d)) [
      | inl q ↦ (grown, rw q refl)
      | inr q ↦ let (z, f) = h.1 b i in (z, rw q f)
    ]

    grown-AreDistinct : AreDistinct (laws.elements grown.rtsp_clients)
    grown-AreDistinct = rw (laws.append_lem x.rtsp_clients w.next) (
        AreDistinct-append w.next (laws.elements x.rtsp_clients) (h.2 d x e)
          (elim (Bool-cases (mem w.next (laws.elements x.rtsp_clients))) [
            | inr q ↦ q
            | inl q ↦ let f : true ≡ false = sym (eq_self w.next) ∙ old_client d w.next x e q in cc
          ]))

    distinct :
        (b : ℕ) (z : Dev L)
        → put w.devices d grown b ≡ some z
        → AreDistinct (laws.elements z.rtsp_clients)
    distinct b z f = elim (Bool-cases (b == d)) [
      | inl q ↦
          let g : some grown ≡ some z = rw q at f in
          rw (sym (same_some grown z g)) grown-AreDistinct
      | inr q ↦ h.2 b z (rw q at f)
    ]

    kept :
        (b c : ℕ) (z : Dev L)
        → w.devices b ≡ some z
        → Ins o laws c z.rtsp_clients
        → Stands (put w.clients w.next (no_client o)) c × (joined owner w.next d c ≡ b)
    kept b c z f i =
        let q = old_client b c z f i in let ((y, g), k) = h.3 b c z f i in ((y, rw q g), rw q k)

    owned :
        (b c : ℕ) (z : Dev L)
        → put w.devices d grown b ≡ some z
        → Ins o laws c z.rtsp_clients
        → Stands (put w.clients w.next (no_client o)) c × (joined owner w.next d c ≡ b)
    owned b c z f i = elim (Bool-cases (b == d)) [
      | inr q ↦ kept b c z (rw q at f) i
      | inl q ↦
          let g : some grown ≡ some z = rw q at f in
          let i₁ : Ins o laws c grown.rtsp_clients = rw (sym (same_some grown z g)) at i in
          elim (mem-append c w.next (laws.elements x.rtsp_clients)
            (rw (laws.append_lem x.rtsp_clients w.next) at i₁)) [
              | inl j ↦ rw (eq_lem b d q) (kept d c x e j)
              | inr r ↦ rw (sym r) (
                (no_client o, rw (eq_self w.next) refl),
                rw (eq_self w.next) (sym (eq_lem b d q)),
              )
            ]
    ]

    args :
        (a b c : ℕ) (g : Args)
        → put w.args (suc w.next) (record { dev_node = some d; client_node = some w.next }) a
          ≡ some g
        → g.dev_node ≡ some b
        → g.client_node ≡ some c
        → (joined owner w.next d c ≡ b) × (c < suc (suc w.next))
    args a b c g f k l = elim (Bool-cases (a == suc w.next)) [
      | inl q ↦
          let m : some (record { dev_node = some d; client_node = some w.next }) ≡ some g =
            rw q at f in
          let s = same_some (record { dev_node = some d; client_node = some w.next }) g m in
          let k₁ : some d ≡ some b = rw (sym s) at k in
          let l₁ : some w.next ≡ some c = rw (sym s) at l in
          (
            rw (sym (same_some w.next c l₁), eq_self w.next) (same_some d b k₁),
            rw (sym (same_some w.next c l₁)) (omega arith),
          )
      | inr q ↦
          let (m, n) = h.4 a b c g (rw q at f) k l in
          let p : (c == w.next) ≡ false = ground arith in (rw p m, omega arith)
    ]

    fresh :
        (a : ℕ)
        → suc (suc w.next) ≤ a
        → (put w.devices d grown a ≡ none) × (put w.clients w.next (no_client o) a ≡ none)
    fresh a l =
        let p : (a == w.next) ≡ false = ground arith in
        (
          elim (Bool-cases (a == d)) [
            | inl q ↦
                let f : some x ≡ none = sym e ∙ rw (eq_lem a d q) at (h.5 a (omega arith)).0 in cc
            | inr q ↦ rw q (h.5 a (omega arith)).0
          ],
          rw p (h.5 a (omega arith)).1,
        )

    served : (c : ℕ) (y : Client B) → put w.clients w.next (no_client o) c ≡ some y → IsServed y
    served c y f = elim (Bool-cases (c == w.next)) [
      | inl q ↦
          let g : some (no_client o) ≡ some y = rw q at f in
          rw (sym (same_some (no_client o) y g)) (λ m. refl)
      | inr q ↦ h.6 c y (rw q at f)
    ]

    -- A new client of a device in memory.
    pub add_client-IsSound : IsSound o laws (add_client o w d x)
    add_client-IsSound =
        (joined owner w.next d, (h.0, stands, distinct, owned, args, fresh, served))
