-- ===== src/Registry/Sound/Changes.antt =====
-- inc/dev_list.h: what the changes of the lists of clients, and the allocations, keep of the lists.
use box_rtsp.Prelude.{
  ℕ, ◌≤◌, ◌≡◌, refl, sym, ◌∙◌, inl, inr, true, false, none, some, ◌==◌, Bool-cases,
}
use box_rtsp.Relay.Lists.{ListLaws}
use box_rtsp.Relay.Queue.{AreDistinct}
use box_rtsp.Relay.Members.{mem, eq_lem, mem-remove, AreDistinct-remove}
use box_rtsp.Relay.Client.{Client}
use box_rtsp.Relay.Served.{IsServed}
use box_rtsp.Registry.World.{Dev, World, put, erase, put_dev}
use box_rtsp.Registry.Outside.{Outside}
use box_rtsp.Registry.Session.{list_delete_client}
use box_rtsp.Registry.Rules.{same_some}
use box_rtsp.Registry.Sound.{Stands, Ins, Owned}

module _ {B L J : Type 0} (o : Outside B L J) (laws : ListLaws o.list) where
  -- A device whose list of clients shrinks.
  pub shrink_dev-Owned :
      (owner : ℕ → ℕ) (w : World B L) (d : ℕ) (x y : Dev L)
      → w.devices d ≡ some x
      → AreDistinct (laws.elements y.rtsp_clients)
      → ((c : ℕ) → Ins o laws c y.rtsp_clients → Ins o laws c x.rtsp_clients)
      → Owned o laws owner w
      → Owned o laws owner (put_dev w d y)
  shrink_dev-Owned owner w d x y e s k h = (h.0, stands, distinct, owned, h.4, fresh, h.6)
    where
      stands : (b : ℕ) → Ins o laws b w.dev_list → Stands (put w.devices d y) b
      stands b i = elim (Bool-cases (b == d)) [
        | inl q ↦ (y, rw q refl)
        | inr q ↦ let (z, f) = h.1 b i in (z, rw q f)
      ]

      distinct :
          (b : ℕ) (z : Dev L)
          → put w.devices d y b ≡ some z
          → AreDistinct (laws.elements z.rtsp_clients)
      distinct b z f = elim (Bool-cases (b == d)) [
        | inl q ↦ let g : some y ≡ some z = rw q at f in rw (sym (same_some y z g)) s
        | inr q ↦ h.2 b z (rw q at f)
      ]

      owned :
          (b c : ℕ) (z : Dev L)
          → put w.devices d y b ≡ some z
          → Ins o laws c z.rtsp_clients
          → Stands w.clients c × (owner c ≡ b)
      owned b c z f i = elim (Bool-cases (b == d)) [
        | inl q ↦
            let g : some y ≡ some z = rw q at f in
            rw (eq_lem b d q) (h.3 d c x e (k c (rw (sym (same_some y z g)) at i)))
        | inr q ↦ h.3 b c z (rw q at f) i
      ]

      fresh : (a : ℕ) → w.next ≤ a → (put w.devices d y a ≡ none) × (w.clients a ≡ none)
      fresh a l = elim (Bool-cases (a == d)) [
        | inl q ↦ let f : some x ≡ none = sym e ∙ rw (eq_lem a d q) at (h.5 a l).0 in cc
        | inr q ↦ (rw q (h.5 a l).0, (h.5 a l).1)
      ]

  pub delete_client-Owned :
      (owner : ℕ → ℕ) (w : World B L) (d : ℕ) (x : Dev L) (c : ℕ)
      → w.devices d ≡ some x
      → Owned o laws owner w
      → Owned o laws owner (list_delete_client o w d x c)
  delete_client-Owned owner w d x c e h =
      shrink_dev-Owned owner w d x (record x { rtsp_clients = o.list.list_delete x.rtsp_clients c })
        e
        (rw (laws.delete_lem x.rtsp_clients c)
          (AreDistinct-remove c (laws.elements x.rtsp_clients) (h.2 d x e)))
        (λ b i.
          mem-remove b c (laws.elements x.rtsp_clients)
            (rw (laws.delete_lem x.rtsp_clients c) at i))
        h

  -- A client that is in no list and is freed.
  pub erase_client-Owned :
      (owner : ℕ → ℕ) (w : World B L) (c : ℕ)
      → ((d : ℕ) (x : Dev L) → w.devices d ≡ some x → mem c (laws.elements x.rtsp_clients) ≡ false)
      → Owned o laws owner w
      → Owned o laws owner (record w { clients = erase w.clients c })
  erase_client-Owned owner w c k h = (h.0, h.1, h.2, owned, h.4, fresh, served)
    where
      served : (b : ℕ) (y : Client B) → erase w.clients c b ≡ some y → IsServed y
      served b y f = elim (Bool-cases (b == c)) [
        | inl q ↦ let g : none ≡ some y = rw q at f in cc
        | inr q ↦ h.6 b y (rw q at f)
      ]

      owned :
          (d b : ℕ) (x : Dev L)
          → w.devices d ≡ some x
          → Ins o laws b x.rtsp_clients
          → Stands (erase w.clients c) b × (owner b ≡ d)
      owned d b x e i = elim (Bool-cases (b == c)) [
        | inl q ↦ let f : true ≡ false = sym i ∙ rw (eq_lem b c q) (k d x e) in cc
        | inr q ↦ let ((y, f), g) = h.3 d b x e i in ((y, rw q f), g)
      ]

      fresh : (a : ℕ) → w.next ≤ a → (w.devices a ≡ none) × (erase w.clients c a ≡ none)
      fresh a l =
          ((h.5 a l).0, elim (Bool-cases (a == c)) [ inl q ↦ rw q refl | inr q ↦ rw q (h.5 a l).1 ])

  -- A device that is not in the list and is freed.
  pub erase_dev-Owned :
      (owner : ℕ → ℕ) (w : World B L) (d : ℕ)
      → mem d (laws.elements w.dev_list) ≡ false
      → Owned o laws owner w
      → Owned o laws owner (record w { devices = erase w.devices d })
  erase_dev-Owned owner w d k h = (h.0, stands, distinct, owned, h.4, fresh, h.6)
    where
      stands : (b : ℕ) → Ins o laws b w.dev_list → Stands (erase w.devices d) b
      stands b i = elim (Bool-cases (b == d)) [
        | inl q ↦ let f : true ≡ false = sym i ∙ rw (eq_lem b d q) k in cc
        | inr q ↦ let (z, f) = h.1 b i in (z, rw q f)
      ]

      at_old : (b : ℕ) (z : Dev L) → erase w.devices d b ≡ some z → w.devices b ≡ some z
      at_old b z f = elim (Bool-cases (b == d)) [
        | inl q ↦ let g : none ≡ some z = rw q at f in cc
        | inr q ↦ rw q at f
      ]

      distinct :
          (b : ℕ) (z : Dev L)
          → erase w.devices d b ≡ some z
          → AreDistinct (laws.elements z.rtsp_clients)
      distinct b z f = h.2 b z (at_old b z f)

      owned :
          (b c : ℕ) (z : Dev L)
          → erase w.devices d b ≡ some z
          → Ins o laws c z.rtsp_clients
          → Stands w.clients c × (owner c ≡ b)
      owned b c z f i = h.3 b c z (at_old b z f) i

      fresh : (a : ℕ) → w.next ≤ a → (erase w.devices d a ≡ none) × (w.clients a ≡ none)
      fresh a l =
          (elim (Bool-cases (a == d)) [ inl q ↦ rw q refl | inr q ↦ rw q (h.5 a l).0 ], (h.5 a l).1)

  -- An argument that is freed.
  pub erase_args-Owned :
      (owner : ℕ → ℕ) (w : World B L) (a : ℕ)
      → Owned o laws owner w
      → Owned o laws owner (record w { args = erase w.args a })
  erase_args-Owned owner w a h = (
    h.0,
    h.1,
    h.2,
    h.3,
    λ b d c g e f k. elim (Bool-cases (b == a)) [
      | inl q ↦ let i : none ≡ some g = rw q at e in cc
      | inr q ↦ h.4 b d c g (rw q at e) f k
    ],
    h.5,
    h.6,
  )
