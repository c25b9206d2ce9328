-- ===== src/Relay/Members.antt =====
-- Lists of addresses: which addresses are in a list, after a deletion and after an append.
use box_rtsp.Prelude.{
  ℕ, ◌≡◌, refl, ◌⊎◌, inl, inr, Bool, true, false, List, [], ◌∷◌, ◌++◌, none, some, arith, ◌==◌,
  if◌then◌else◌, Bool-cases,
}
use box_rtsp.Relay.Lists.{find, remove}
use box_rtsp.Relay.Queue.{IsNew, AreDistinct}

-- Whether the address is in the list.
abbrev pub mem : ℕ → List ℕ → Bool
mem a [] = false
mem a (x ∷ xs) = if x == a then true else mem a xs

pub eq_lem : (a b : ℕ) → (a == b) ≡ true → a ≡ b
eq_lem a b h = ground arith

pub eq_self : (a : ℕ) → (a == a) ≡ true
eq_self a = ground arith

pub eq_swap : (a b : ℕ) → (a == b) ≡ false → (b == a) ≡ false
eq_swap a b h = ground arith

pub IsNew-mem : (a : ℕ) (xs : List ℕ) → IsNew a xs → mem a xs ≡ false
IsNew-mem a [] h = refl
IsNew-mem a (x ∷ xs) h = rw (h.0, mem) (IsNew-mem a xs h.1)

pub mem-IsNew : (a : ℕ) (xs : List ℕ) → mem a xs ≡ false → IsNew a xs
mem-IsNew a [] h = tt
mem-IsNew a (x ∷ xs) h = elim (Bool-cases (x == a)) [
  | inl e ↦ let f : true ≡ false = rw (e, mem) at h in cc
  | inr e ↦ (e, mem-IsNew a xs (rw (e, mem) at h))
]

pub mem-remove : (a b : ℕ) (xs : List ℕ) → mem a (remove b xs) ≡ true → mem a xs ≡ true
mem-remove a b [] h = h
mem-remove a b (x ∷ xs) h = elim (Bool-cases (x == a)) [
  | inl e ↦ rw (e, mem) refl
  | inr e ↦ elim (Bool-cases (x == b)) [
    | inl f ↦ rw (e, mem) (rw (f, remove) at h)
    | inr f ↦ rw (e, mem) (mem-remove a b xs (rw (f, remove, e, mem) at h))
  ]
]

IsNew-remove : (a b : ℕ) (xs : List ℕ) → IsNew a xs → IsNew a (remove b xs)
IsNew-remove a b [] h = tt
IsNew-remove a b (x ∷ xs) h = elim (Bool-cases (x == b)) [
  | inl f ↦ rw (f, remove) h.1
  | inr f ↦ rw (f, remove) (h.0, IsNew-remove a b xs h.1)
]

pub AreDistinct-remove : (b : ℕ) (xs : List ℕ) → AreDistinct xs → AreDistinct (remove b xs)
AreDistinct-remove b [] h = tt
AreDistinct-remove b (x ∷ xs) h = elim (Bool-cases (x == b)) [
  | inl f ↦ rw (f, remove) h.1
  | inr f ↦ rw (f, remove) (IsNew-remove x b xs h.0, AreDistinct-remove b xs h.1)
]

-- What is removed from a list of distinct addresses is not in it any more.
pub mem_removed : (a : ℕ) (xs : List ℕ) → AreDistinct xs → mem a (remove a xs) ≡ false
mem_removed a [] h = refl
mem_removed a (x ∷ xs) h = elim (Bool-cases (x == a)) [
  | inl e ↦ rw (e, remove) (rw (eq_lem x a e) at (IsNew-mem x xs h.0))
  | inr e ↦ rw (e, remove, e, mem) (mem_removed a xs h.1)
]

pub mem-append :
    (a b : ℕ) (xs : List ℕ) → mem a (xs ++ (b ∷ [])) ≡ true → (mem a xs ≡ true) ⊎ (b ≡ a)
mem-append a b [] h = elim (Bool-cases (b == a)) [
  | inl e ↦ inr (eq_lem b a e)
  | inr e ↦ let f : false ≡ true = rw (e, mem) at h in cc
]
mem-append a b (x ∷ xs) h = elim (Bool-cases (x == a)) [
  | inl e ↦ inl (rw (e, mem) refl)
  | inr e ↦ rw (e, mem) (mem-append a b xs (rw (e, mem) at h))
]

IsNew-append : (a b : ℕ) (xs : List ℕ) → IsNew a xs → (b == a) ≡ false → IsNew a (xs ++ (b ∷ []))
IsNew-append a b [] h e = (e, tt)
IsNew-append a b (x ∷ xs) h e = (h.0, IsNew-append a b xs h.1 e)

pub AreDistinct-append :
    (b : ℕ) (xs : List ℕ) → AreDistinct xs → mem b xs ≡ false → AreDistinct (xs ++ (b ∷ []))
AreDistinct-append b [] h n = (tt, tt)
AreDistinct-append b (x ∷ xs) h n =
    let k = mem-IsNew b (x ∷ xs) n in
    (IsNew-append x b xs h.0 (eq_swap x b k.0), AreDistinct-append b xs h.1 (IsNew-mem b xs k.1))

-- A search that finds an address finds one that passes the test.
pub find-some :
    (f : ℕ → Bool) (a : ℕ) (xs : List ℕ) → find f xs ≡ some a → (f a ≡ true) × (mem a xs ≡ true)
find-some f a [] h = cc
find-some f a (x ∷ xs) h = elim (Bool-cases (f x)) [
  | inl e ↦
      let g : some x ≡ some a = rw (e, find) at h in
      let k : x ≡ a = cc in (rw k at e, rw (k, mem, eq_self a) refl)
  | inr e ↦
      let r = find-some f a xs (rw (e, find) at h) in
      (r.0, elim (Bool-cases (x == a)) [ inl k ↦ rw (k, mem) refl | inr k ↦ rw (k, mem) r.1 ])
]

-- A search that finds nothing passes no address of the list.
pub find-none :
    (f : ℕ → Bool) (a : ℕ) (xs : List ℕ) → find f xs ≡ none → mem a xs ≡ true → f a ≡ false
find-none f a [] h m = cc
find-none f a (x ∷ xs) h m = elim (Bool-cases (f x)) [
  | inl e ↦ let g : some x ≡ none = rw (e, find) at h in cc
  | inr e ↦ elim (Bool-cases (x == a)) [
    | inl k ↦ rw (eq_lem x a k) at e
    | inr k ↦ find-none f a xs (rw (e, find) at h) (rw (k, mem) at m)
  ]
]

-- A search whose test no address of the list passes finds nothing.
pub find_all :
    (f : ℕ → Bool) (xs : List ℕ) → ((a : ℕ) → mem a xs ≡ true → f a ≡ false) → find f xs ≡ none
find_all f [] h = refl
find_all f (x ∷ xs) h =
    rw (h x (rw (eq_self x, mem) refl), find)
      (find_all f xs (λ a m.
        h a (elim (Bool-cases (x == a)) [ inl q ↦ rw (q, mem) refl | inr q ↦ rw (q, mem) m ])))
