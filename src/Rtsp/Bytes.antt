-- ===== src/Rtsp/Bytes.antt =====
-- What stands where in a list of bytes.
use box_rtsp.Prelude.{
  ℕ, zero, suc, ◌+◌, ◌≤◌, ◌<◌, ◌≡◌, refl, ◌∙◌, ◌⊎◌, List, [], ◌∷◌, ◌++◌, arith, length, get_or, set,
  take, drop, length-append, length-take, length-drop,
}
use mathlib.Core.Path.{subst}
use native.Mathlib.Nat.{zero-add, suc-add, add-zero, add-suc}

-- The bytes `cs` stand in `raw` from `o` on.
abbrev pub HasAt : List ℕ → ℕ → List ℕ → Type 0
HasAt raw o [] = Unit {0}
HasAt raw o (c ∷ cs) = (o < length raw) × (get_or raw o 0 ≡ c) × HasAt raw (suc o) cs

pub HasAt-eq : (raw : List ℕ) (cs : List ℕ) (o i : ℕ) → o ≡ i → HasAt raw o cs → HasAt raw i cs
HasAt-eq raw cs o i e h = subst (λ j. HasAt raw j cs) e h

pub HasAt-append :
    (raw : List ℕ) (o : ℕ) (xs ys : List ℕ)
    → HasAt raw o xs
    → HasAt raw (o + length xs) ys
    → HasAt raw o (xs ++ ys)
HasAt-append raw o [] ys h k = rw (add-zero o) at k
HasAt-append raw o (x ∷ xs) ys h k =
    (h.0, h.1, HasAt-append raw (suc o) xs ys h.2 (HasAt-eq raw ys _ _ (omega arith) k))

pub HasAt-left : (raw : List ℕ) (o : ℕ) (xs ys : List ℕ) → HasAt raw o (xs ++ ys) → HasAt raw o xs
HasAt-left raw o [] ys h = tt
HasAt-left raw o (x ∷ xs) ys h = (h.0, h.1, HasAt-left raw (suc o) xs ys h.2)

pub HasAt-right :
    (raw : List ℕ) (o : ℕ) (xs ys : List ℕ) → HasAt raw o (xs ++ ys) → HasAt raw (o + length xs) ys
HasAt-right raw o [] ys h = rw (add-zero o) h
HasAt-right raw o (x ∷ xs) ys h =
    HasAt-eq raw ys _ _ (omega arith) (HasAt-right raw (suc o) xs ys h.2)

-- Bytes that are found alike stand alike, from `o` in one list and from `i` in the other.
pub HasAt-moved :
    (raw new : List ℕ) (o i : ℕ) (cs : List ℕ)
    → i + length cs ≤ length new
    → ((j : ℕ) → j < length cs → get_or new (i + j) 0 ≡ get_or raw (o + j) 0)
    → HasAt raw o cs
    → HasAt new i cs
HasAt-moved raw new o i [] r h k = tt
HasAt-moved raw new o i (c ∷ cs) r h k = (
  omega arith,
  rw (add-zero i, add-zero o) at (h 0 (omega arith)) ∙ k.1,
  HasAt-moved raw new (suc o) (suc i) cs (omega arith)
      (λ j l.
        rw (suc-add i j, suc-add o j) (rw (add-suc i j, add-suc o j) at (h (suc j) (omega arith))))
      k.2,
)

get_or-append_left :
    (xs ys : List ℕ) (j : ℕ) → j < length xs → get_or (xs ++ ys) j 0 ≡ get_or xs j 0
get_or-append_left [] ys j h = elim h [ ]
get_or-append_left (x ∷ xs) ys zero h = refl
get_or-append_left (x ∷ xs) ys (suc j) h = get_or-append_left xs ys j (omega arith)

get_or-append_right : (xs ys : List ℕ) (j : ℕ) → get_or (xs ++ ys) (length xs + j) 0 ≡ get_or ys j 0
get_or-append_right [] ys j = rw zero-add
get_or-append_right (x ∷ xs) ys j = rw suc-add (get_or-append_right xs ys j)

get_or-take : (n : ℕ) (xs : List ℕ) (j : ℕ) → j < n → get_or (take n xs) j 0 ≡ get_or xs j 0
get_or-take zero xs j h = elim h [ ]
get_or-take (suc n) [] j h = refl
get_or-take (suc n) (x ∷ xs) zero h = refl
get_or-take (suc n) (x ∷ xs) (suc j) h = get_or-take n xs j (omega arith)

get_or-drop : (n : ℕ) (xs : List ℕ) (j : ℕ) → get_or (drop n xs) j 0 ≡ get_or xs (n + j) 0
get_or-drop zero xs j = rw zero-add
get_or-drop (suc n) [] j = refl
get_or-drop (suc n) (x ∷ xs) j = rw suc-add (get_or-drop n xs j)

-- The bytes behind a move of `n` bytes from `from` to `to`.
abbrev pub moved : List ℕ → ℕ → ℕ → ℕ → List ℕ
moved raw to from n = take to raw ++ (take n (drop from raw) ++ drop (to + n) raw)

module _ (raw : List ℕ) (to from n : ℕ) (fits : to + n ≤ length raw)
    (there : from + n ≤ length raw) where
  length-front : length (take to raw) ≡ to
  length-front = length-take to raw (omega arith)

  length-middle : length (take n (drop from raw)) ≡ n
  length-middle = length-take n (drop from raw) (omega (arith, length-drop from raw))

  pub length-moved : length (moved raw to from n) ≡ length raw
  length-moved = omega (
    arith,
    length-append (take to raw) (take n (drop from raw) ++ drop (to + n) raw),
    length-append (take n (drop from raw)) (drop (to + n) raw),
    length-front,
    length-middle,
    length-drop (to + n) raw,
  )

  pub moved_before : (j : ℕ) → j < to → get_or (moved raw to from n) j 0 ≡ get_or raw j 0
  moved_before j h =
      get_or-append_left (take to raw) _ j (omega (arith, length-front)) ∙ get_or-take to raw j h

  moved_behind_front :
      (j : ℕ)
      → get_or (moved raw to from n) (to + j) 0
        ≡ get_or (take n (drop from raw) ++ drop (to + n) raw) j 0
  moved_behind_front j =
      rw length-front at
        (get_or-append_right (take to raw) (take n (drop from raw) ++ drop (to + n) raw) j)

  pub moved_to : (j : ℕ) → j < n → get_or (moved raw to from n) (to + j) 0 ≡ get_or raw (from + j) 0
  moved_to j h =
      moved_behind_front j
      ∙ (get_or-append_left (take n (drop from raw)) _ j (omega (arith, length-middle))
          ∙ (get_or-take n (drop from raw) j h ∙ get_or-drop from raw j))

  pub moved_behind :
      (j : ℕ) → get_or (moved raw to from n) (to + (n + j)) 0 ≡ get_or raw (to + n + j) 0
  moved_behind j =
      moved_behind_front (n + j)
      ∙ ((rw length-middle at (get_or-append_right (take n (drop from raw)) (drop (to + n) raw) j))
          ∙ get_or-drop (to + n) raw j)

pub get_or-set_ne :
    (xs : List ℕ) (i j v : ℕ) → (i < j) ⊎ (j < i) → get_or (set xs i v) j 0 ≡ get_or xs j 0
get_or-set_ne [] i j v h = refl
get_or-set_ne (x ∷ xs) zero zero v h = omega arith
get_or-set_ne (x ∷ xs) zero (suc j) v h = refl
get_or-set_ne (x ∷ xs) (suc i) zero v h = refl
get_or-set_ne (x ∷ xs) (suc i) (suc j) v h = get_or-set_ne xs i j v (ground arith)
