-- ===== src/Relay/Queue.antt =====
-- src/dev_opt.c, read_video_data_from_dev_task: the loop over the clients against a plain pass over
-- the list.
use mathlib.Core.List.{append_assoc}
use box_rtsp.Prelude.{
  ℕ, zero, suc, ◌+◌, ◌-◌, ◌≤◌, ◌≡◌, refl, sym, ap, ◌∙◌, true, false, List, [], ◌∷◌, ◌++◌, Option,
  none, some, arith, length, length-append, ◌==◌, lt→ltb, le→ltb,
}
use box_rtsp.Rtsp.Exec.{Exec, ok, halt, ◌>>=◌}
use box_rtsp.Relay.Lists.{Evbuffer, ListT, ListLaws, get_elem?, remove}
use box_rtsp.Relay.Packets.{Packet}
use box_rtsp.Relay.Client.{Client, visit}
use box_rtsp.Relay.Dispatch.{Store, update, visit_from, dispatch}

-- `a` is not in the list.
abbrev pub IsNew : ℕ → List ℕ → Type 0
IsNew a [] = Unit {0}
IsNew a (x ∷ xs) = ((x == a) ≡ false) × IsNew a xs

-- No address twice.
abbrev pub AreDistinct : List ℕ → Type 0
AreDistinct [] = Unit {0}
AreDistinct (x ∷ xs) = IsNew x xs × AreDistinct xs

get_elem?-append :
    (xs : List ℕ) (a : ℕ) (ys : List ℕ) → get_elem? (xs ++ (a ∷ ys)) (length xs) ≡ some a
get_elem?-append [] a ys = refl
get_elem?-append (x ∷ xs) a ys = get_elem?-append xs a ys

equal_self : (a : ℕ) → (a == a) ≡ true
equal_self a = ground arith

equal_swap : (a b : ℕ) → (a == b) ≡ false → (b == a) ≡ false
equal_swap a b h = ground arith

remove-append :
    (xs : List ℕ) (a : ℕ) (ys : List ℕ) → IsNew a xs → remove a (xs ++ (a ∷ ys)) ≡ xs ++ ys
remove-append [] a ys h = rw (equal_self a, remove) refl
remove-append (x ∷ xs) a ys h = rw (h.0, remove) (ap (◌∷◌ x) (remove-append xs a ys h.1))

IsNew-tail :
    (b : ℕ) (xs : List ℕ) (a : ℕ) (ys : List ℕ)
    → IsNew b (xs ++ (a ∷ ys))
    → IsNew b (xs ++ ys) × ((a == b) ≡ false)
IsNew-tail b [] a ys h = (h.1, h.0)
IsNew-tail b (x ∷ xs) a ys h = let r = IsNew-tail b xs a ys h.1 in ((h.0, r.0), r.1)

-- In a list of distinct addresses, one that follows `xs` is not in `xs`, and may be taken out.
AreDistinct-middle :
    (xs : List ℕ) (a : ℕ) (ys : List ℕ)
    → AreDistinct (xs ++ (a ∷ ys))
    → IsNew a xs × AreDistinct (xs ++ ys)
AreDistinct-middle [] a ys h = (tt, h.1)
AreDistinct-middle (x ∷ xs) a ys h =
    let r = AreDistinct-middle xs a ys h.1 in
    let n = IsNew-tail x xs a ys h.0 in ((equal_swap a x n.1, r.0), (n.0, r.1))

module _ {B : Type 0} (e : Evbuffer B) where
  -- The same frame to every client of a sequence: the clients that stay, and the store.
  abbrev pub visit_all : Packet → List ℕ → Store B → Exec (List ℕ × Store B)
  visit_all k [] s = ok ([], s)
  visit_all k (a ∷ rest) s = visit e k (s a) >>= elim [
    | none ↦ visit_all k rest s
    | some c ↦ visit_all k rest (update s a c) >>= λ r. ok (a ∷ r.0, r.1)
  ]

module _ {B L : Type 0} (e : Evbuffer B) (t : ListT L) (laws : ListLaws t) where
  abbrev view : Exec (L × Store B) → Exec (List ℕ × Store B)
  view m = m >>= λ r. ok (laws.elements r.0, r.1)

  abbrev behind : List ℕ → Exec (List ℕ × Store B) → Exec (List ℕ × Store B)
  behind xs m = m >>= λ r. ok (xs ++ r.0, r.1)

  behind-cons :
      (xs : List ℕ) (a : ℕ) (m : Exec (List ℕ × Store B))
      → behind (xs ++ (a ∷ [])) m ≡ behind xs (m >>= λ r. ok (a ∷ r.0, r.1))
  behind-cons xs a (ok r) = ap (λ z. ok (z, r.1)) (append_assoc xs (a ∷ []) r.0)
  behind-cons xs a (halt h) = refl

  visit_from_stop :
      (fuel i n : ℕ) (k : Packet) (l : L) (s : Store B)
      → n ≤ i
      → visit_from e t fuel k i n l s ≡ ok (l, s)
  unfolding visit_from
  visit_from_stop zero i n k l s h = rw (le→ltb i n h) refl
  visit_from_stop (suc fuel) i n k l s h = rw (visit_from, le→ltb i n h) refl

  visit_turn :
      (xs : List ℕ) (m : Exec (Option (Client B))) (x : Exec (L × Store B))
      (y : Exec (List ℕ × Store B)) (xc : Client B → Exec (L × Store B))
      (yc : Client B → Exec (List ℕ × Store B))
      → view x ≡ behind xs y
      → ((c : Client B) → view (xc c) ≡ behind xs (yc c))
      → view (m >>= elim [ none ↦ x | some c ↦ xc c ])
        ≡ behind xs (m >>= elim [ none ↦ y | some c ↦ yc c ])
  visit_turn xs (halt q) x y xc yc h hc = refl
  visit_turn xs (ok none) x y xc yc h hc = h
  visit_turn xs (ok (some c)) x y xc yc h hc = hc c

  visit_from-visit_all :
      (fuel i n : ℕ) (k : Packet) (xs rest : List ℕ) (l : L) (s : Store B)
      → laws.elements l ≡ xs ++ rest
      → i ≡ length xs
      → n ≡ length xs + length rest
      → length rest ≤ fuel
      → AreDistinct (xs ++ rest)
      → view (visit_from e t fuel k i n l s) ≡ behind xs (visit_all e k rest s)
  unfolding visit_from
  visit_from-visit_all fuel i n k xs [] l s el ei en h d =
      ap view (visit_from_stop fuel i n k l s (omega arith)) ∙ ap (λ z. ok (z, s)) el
  visit_from-visit_all zero i n k xs (a ∷ rest) l s el ei en h d = ground arith
  visit_from-visit_all (suc fuel) i n k xs (a ∷ rest) l s el ei en h d =
      rw (visit_from, lt→ltb i n (omega arith), at_i)
        (visit_turn xs (visit e k (s a)) _ _ _ _
          (visit_from-visit_all fuel i (n - 1) k xs rest (t.list_delete l a) s
            (laws.delete_lem l a
              ∙ rw el (remove-append xs a rest (AreDistinct-middle xs a rest d).0))
            ei (omega arith) (omega arith) (AreDistinct-middle xs a rest d).1)
          (λ c.
            visit_from-visit_all fuel (i + 1) n k (xs ++ (a ∷ [])) rest l (update s a c)
              (el ∙ sym (append_assoc xs (a ∷ []) rest)) (omega (arith, length-append xs (a ∷ [])))
              (omega (arith, length-append xs (a ∷ []))) (omega arith)
              (rw (append_assoc xs (a ∷ []) rest) d)
            ∙ behind-cons xs a (visit_all e k rest (update s a c))))
    where
      at_i : t.list_get_at l i ≡ some a
      at_i = laws.get_at_lem l i ∙ rw (el, ei) (get_elem?-append xs a rest)

  -- Where no address is in the list twice, the loop over the positions, with its deletions, gives the
  -- frame once to each client of the list in the list's order: it leaves exactly the clients that
  -- are not freed, and it ends.
  pub dispatch-visit_all :
      (k : Packet) (l : L) (s : Store B)
      → AreDistinct (laws.elements l)
      → view (dispatch e t k l s) ≡ visit_all e k (laws.elements l) s
  unfolding dispatch
  dispatch-visit_all k l s d =
      visit_from-visit_all (t.list_size l) 0 (t.list_size l) k [] (laws.elements l) l s refl refl
        (omega (arith, laws.size_lem l)) (omega (arith, laws.size_lem l)) d
      ∙ behind_nil (visit_all e k (laws.elements l) s)
    where
      behind_nil : (m : Exec (List ℕ × Store B)) → behind [] m ≡ m
      behind_nil (ok r) = refl
      behind_nil (halt h) = refl
