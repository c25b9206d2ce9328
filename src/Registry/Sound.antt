-- ===== src/Registry/Sound.antt =====
-- inc/dev_list.h: when the lists of devices and of clients hold what is in memory, and what the single
-- changes of the shared state keep of that.
pub mod Changes
pub mod Enlisting
pub mod Joining
pub mod Frame
pub mod Commands
pub mod Servers
pub mod Errors
pub mod Answers
pub mod Steps
use box_rtsp.Prelude.{
  ℕ, suc, ◌+◌, ◌≤◌, ◌<◌, ◌≡◌, refl, sym, ap, ◌∙◌, ◌⊎◌, inl, inr, Bool, true, false, List, [], ◌∷◌,
  ◌++◌, Option, none, some, arith, ◌==◌, if◌then◌else◌, Bool-cases,
}
use box_rtsp.Relay.Lists.{ListLaws, find, remove}
use box_rtsp.Relay.Queue.{AreDistinct}
use box_rtsp.Relay.Members.{
  mem, eq_lem, eq_self, mem-remove, AreDistinct-remove, mem_removed, mem-append, AreDistinct-append,
}
use box_rtsp.Relay.Client.{Client}
use box_rtsp.Relay.Served.{IsServed}
use box_rtsp.Registry.World.{Dev, Args, World, put, erase, put_dev, put_client}
use box_rtsp.Registry.Outside.{Outside}
use box_rtsp.Registry.Open.{add_device}
use box_rtsp.Registry.Push.{no_client, add_client}
use box_rtsp.Registry.Session.{list_delete_dev, list_delete_client}
use box_rtsp.Registry.Rules.{same_some}

-- An object is at the address.
abbrev pub Stands : {A : Type 0} → (ℕ → Option A) → ℕ → Type 0
Stands {A} h a = (x : A) × (h a ≡ some x)

module _ {B L J : Type 0} (o : Outside B L J) (laws : ListLaws o.list) where
  abbrev pub Ins : ℕ → L → Type 0
  Ins a l = mem a (laws.elements l) ≡ true

  -- `owner` gives the device of each client. No device is in the list twice and each is in memory; no
  -- client is in a device's list twice, and each is in memory and of that device; what a callback
  -- is given are a device and a client of it; no address from `next` on is in use; and a client that
  -- is to be sent frames and is not marked for deletion has a connection.
  abbrev pub Owned : (ℕ → ℕ) → World B L → Type 0
  Owned owner w =
      AreDistinct (laws.elements w.dev_list)
      × ((d : ℕ) → Ins d w.dev_list → Stands w.devices d)
      × ((d : ℕ) (x : Dev L) → w.devices d ≡ some x → AreDistinct (laws.elements x.rtsp_clients))
      × ((d c : ℕ) (x : Dev L)
          → w.devices d ≡ some x
          → Ins c x.rtsp_clients
          → Stands w.clients c × (owner c ≡ d))
      × ((a d c : ℕ) (g : Args)
          → w.args a ≡ some g
          → g.dev_node ≡ some d
          → g.client_node ≡ some c
          → (owner c ≡ d) × (c < w.next))
      × ((a : ℕ) → w.next ≤ a → (w.devices a ≡ none) × (w.clients a ≡ none))
      × ((c : ℕ) (x : Client B) → w.clients c ≡ some x → IsServed x)

  -- Such owners exist.
  abbrev pub IsSound : World B L → Type 0
  IsSound w = (owner : ℕ → ℕ) × Owned owner w

  -- Addresses that are given away for other objects.
  pub grow-Owned :
      (owner : ℕ → ℕ) (w : World B L) (n : ℕ)
      → w.next ≤ n
      → Owned owner w
      → Owned owner (record w { next = n })
  grow-Owned owner w n l h = (
    h.0,
    h.1,
    h.2,
    h.3,
    λ a d c g e f k. ((h.4 a d c g e f k).0, omega (arith, (h.4 a d c g e f k).1)),
    λ a m. h.5 a (omega arith),
    h.6,
  )

  Stands-put : {A : Type 0} (m : ℕ → Option A) (a b : ℕ) (x : A) → Stands m b → Stands (put m a x) b
  Stands-put m a b x (y, e) = elim (Bool-cases (b == a)) [
    | inl q ↦ (x, rw q refl)
    | inr q ↦ (y, rw q e)
  ]

  -- A device that changes otherwise than in its list of clients.
  pub put_dev-Owned :
      (owner : ℕ → ℕ) (w : World B L) (d : ℕ) (x y : Dev L)
      → w.devices d ≡ some x
      → y.rtsp_clients ≡ x.rtsp_clients
      → Owned owner w
      → Owned owner (put_dev w d y)
  put_dev-Owned owner w d x y e s h =
      (h.0, λ b i. Stands-put w.devices d b y (h.1 b i), distinct, owned, h.4, fresh, h.6)
    where
      at_old :
          (b : ℕ) (z : Dev L)
          → put w.devices d y b ≡ some z
          → (z' : Dev L) × (w.devices b ≡ some z') × (z.rtsp_clients ≡ z'.rtsp_clients)
      at_old b z f = elim (Bool-cases (b == d)) [
        | inl q ↦
            let g : some y ≡ some z = rw q at f in
            (x, rw (eq_lem b d q) e, rw (sym (same_some y z g)) s)
        | inr q ↦ (z, rw q at f, refl)
      ]

      distinct :
          (b : ℕ) (z : Dev L)
          → put w.devices d y b ≡ some z
          → AreDistinct (laws.elements z.rtsp_clients)
      distinct b z f = let r = at_old b z f in rw r.2 (h.2 b r.0 r.1)

      owned :
          (b c : ℕ) (z : Dev L)
          → put w.devices d y b ≡ some z
          → Ins c z.rtsp_clients
          → Stands w.clients c × (owner c ≡ b)
      owned b c z f i = let r = at_old b z f in h.3 b c r.0 r.1 (rw r.2 at i)

      fresh : (a : ℕ) → w.next ≤ a → (put w.devices d y a ≡ none) × (w.clients a ≡ none)
      fresh a l = elim (Bool-cases (a == d)) [
        | inl q ↦ let f : some x ≡ none = sym e ∙ rw (eq_lem a d q) at (h.5 a l).0 in cc
        | inr q ↦ (rw q (h.5 a l).0, (h.5 a l).1)
      ]

  -- A client that changes.
  pub put_client-Owned :
      (owner : ℕ → ℕ) (w : World B L) (c : ℕ) (x y : Client B)
      → w.clients c ≡ some x
      → IsServed y
      → Owned owner w
      → Owned owner (put_client w c y)
  put_client-Owned owner w c x y e v h = (
    h.0,
    h.1,
    h.2,
    λ d b z f i. (Stands-put w.clients c b y (h.3 d b z f i).0, (h.3 d b z f i).1),
    h.4,
    λ a l. (
      (h.5 a l).0,
      elim (Bool-cases (a == c)) [
        | inl q ↦ let f : some x ≡ none = sym e ∙ rw (eq_lem a c q) at (h.5 a l).1 in cc
        | inr q ↦ rw q (h.5 a l).1
      ],
    ),
    λ b z f. elim (Bool-cases (b == c)) [
      | inl q ↦ let g : some y ≡ some z = rw q at f in rw (sym (same_some y z g)) v
      | inr q ↦ h.6 b z (rw q at f)
    ],
  )

  -- A device that leaves the list.
  pub delete_dev-Owned :
      (owner : ℕ → ℕ) (w : World B L) (d : ℕ) → Owned owner w → Owned owner (list_delete_dev o w d)
  delete_dev-Owned owner w d h = (
    rw (laws.delete_lem w.dev_list d) (AreDistinct-remove d (laws.elements w.dev_list) h.0),
    λ b i.
        h.1 b (mem-remove b d (laws.elements w.dev_list) (rw (laws.delete_lem w.dev_list d) at i)),
    h.2,
    h.3,
    h.4,
    h.5,
    h.6,
  )
