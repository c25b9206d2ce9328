-- ===== src/Registry/Sound/Enlisting.antt =====
-- src/libevent_server.c, deal_open_video_cmd and push_stream: what a new device keeps of the lists.
use box_rtsp.Prelude.{
  ℕ, suc, ◌≤◌, ◌<◌, ◌≡◌, refl, sym, ◌∙◌, inl, inr, true, false, [], none, some, arith, ◌==◌,
  Bool-cases,
}
use box_rtsp.Relay.Lists.{ListLaws}
use box_rtsp.Relay.Queue.{AreDistinct}
use box_rtsp.Relay.Members.{mem, eq_lem, eq_self, mem-append, AreDistinct-append}
use box_rtsp.Registry.World.{Dev, Args, World, put}
use box_rtsp.Registry.Outside.{Outside}
use box_rtsp.Registry.Open.{add_device}
use box_rtsp.Registry.Rules.{same_some}
use box_rtsp.Registry.Sound.{Stands, Ins, Owned}

module _ {B L J : Type 0} (o : Outside B L J) (laws : ListLaws o.list) where
  -- A new device without clients.
  pub add_device-Owned :
      (owner : ℕ → ℕ) (w : World B L) (x : Dev L)
      → laws.elements x.rtsp_clients ≡ []
      → Owned o laws owner w
      → Owned o laws owner (add_device o w x)
  add_device-Owned owner w x n h = (listed, stands, distinct, owned, args, fresh, h.6)
    where
      not_listed : mem w.next (laws.elements w.dev_list) ≡ false
      not_listed = elim (Bool-cases (mem w.next (laws.elements w.dev_list))) [
        | inl i ↦
            let (z, f) = h.1 w.next i in
            let g : none ≡ some z = sym (h.5 w.next (omega arith)).0 ∙ f in cc
        | inr i ↦ i
      ]

      listed : AreDistinct (laws.elements (o.list.list_append w.dev_list w.next))
      listed =
          rw (laws.append_lem w.dev_list w.next)
            (AreDistinct-append w.next (laws.elements w.dev_list) h.0 not_listed)

      stands :
          (b : ℕ)
          → Ins o laws b (o.list.list_append w.dev_list w.next)
          → Stands (put w.devices w.next x) b
      stands b i =
          elim (mem-append b w.next (laws.elements w.dev_list)
            (rw (laws.append_lem w.dev_list w.next) at i)) [
              | inl j ↦ elim (Bool-cases (b == w.next)) [
                | inl q ↦ (x, rw q refl)
                | inr q ↦ let (z, f) = h.1 b j in (z, rw q f)
              ]
              | inr q ↦ (x, rw (sym q, eq_self w.next) refl)
            ]

      distinct :
          (b : ℕ) (z : Dev L)
          → put w.devices w.next x b ≡ some z
          → AreDistinct (laws.elements z.rtsp_clients)
      distinct b z f = elim (Bool-cases (b == w.next)) [
        | inl q ↦ let g : some x ≡ some z = rw q at f in rw (sym (same_some x z g), n) tt
        | inr q ↦ h.2 b z (rw q at f)
      ]

      owned :
          (b c : ℕ) (z : Dev L)
          → put w.devices w.next x b ≡ some z
          → Ins o laws c z.rtsp_clients
          → Stands w.clients c × (owner c ≡ b)
      owned b c z f i = elim (Bool-cases (b == w.next)) [
        | inl q ↦
            let g : some x ≡ some z = rw q at f in
            let k : false ≡ true = rw (sym (same_some x z g), n) at i in cc
        | inr q ↦ h.3 b c z (rw q at f) i
      ]

      args :
          (a d c : ℕ) (g : Args)
          → w.args a ≡ some g
          → g.dev_node ≡ some d
          → g.client_node ≡ some c
          → (owner c ≡ d) × (c < suc w.next)
      args a d c g e f k = ((h.4 a d c g e f k).0, omega (arith, (h.4 a d c g e f k).1))

      fresh : (a : ℕ) → suc w.next ≤ a → (put w.devices w.next x a ≡ none) × (w.clients a ≡ none)
      fresh a l = elim (Bool-cases (a == w.next)) [
        | inl q ↦ let e : a ≡ w.next = eq_lem a w.next q in ground arith
        | inr q ↦ (rw q (h.5 a (omega arith)).0, (h.5 a (omega arith)).1)
      ]
