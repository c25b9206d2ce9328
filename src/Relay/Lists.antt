-- ===== src/Relay/Lists.antt =====
-- What src/dev_opt.c uses of the libraries: libevent's output buffers (event2/buffer.h) and the
-- lists of SimCList (src/common/simclist.c), as operations with the behaviour that they document.
use box_rtsp.Prelude.{
  ℕ, zero, suc, ◌+◌, ◌-◌, ◌≡◌, List, [], ◌∷◌, ◌++◌, Option, none, some, Bool, length, ◌==◌,
  if◌then◌else◌,
}

-- The output buffer of a new bufferevent, evbuffer_get_length, evbuffer_drain, and bufferevent_write
-- on the output buffer.
pub record Evbuffer (B : Type 0) : Type 0 where
  pub empty : B
  pub get_length : B → ℕ
  pub drain : B → ℕ → B
  pub write : B → List ℕ → B

-- A new buffer is empty, a write appends its bytes, and draining `n` bytes removes that many, or all there are.
pub record EvbufferLaws {B : Type 0} (e : Evbuffer B) : Type 0 where
  pub length-empty : e.get_length e.empty ≡ 0
  pub length-write :
      (b : B) (bytes : List ℕ) → e.get_length (e.write b bytes) ≡ e.get_length b + length bytes
  pub length-drain : (b : B) (n : ℕ) → e.get_length (e.drain b n) ≡ e.get_length b - n

-- list_init, list_append, list_seek with the seeker that list_attributes_seeker has set,
-- list_destroy, list_size, list_get_at and list_delete; the elements are addresses. `zeroed` is a
-- `list_t` of zeros that list_init was not called on.
pub record ListT (L : Type 0) : Type 0 where
  pub zeroed : L
  pub list_init : L
  pub list_append : L → ℕ → L
  pub list_seek : L → (ℕ → Bool) → Option ℕ
  pub list_destroy : L → L
  pub list_size : L → ℕ
  pub list_get_at : L → ℕ → Option ℕ
  pub list_delete : L → ℕ → L

abbrev pub get_elem? : List ℕ → ℕ → Option ℕ
get_elem? [] i = none
get_elem? (x ∷ xs) zero = some x
get_elem? (x ∷ xs) (suc i) = get_elem? xs i

-- The first address that passes the test.
abbrev pub find : (ℕ → Bool) → List ℕ → Option ℕ
find f [] = none
find f (x ∷ xs) = if f x then some x else find f xs

-- The list without the first `a`.
abbrev pub remove : ℕ → List ℕ → List ℕ
remove a [] = []
remove a (x ∷ xs) = if x == a then xs else x ∷ remove a xs

-- The sequence of elements that a list holds: a list is empty when it is set up, an element is
-- appended at the end, a search gives the first element that the seeker accepts, or NULL, a position
-- gives its element, or NULL outside, and a deletion removes the first element that is equal.
pub record ListLaws {L : Type 0} (t : ListT L) : Type 0 where
  pub elements : L → List ℕ
  pub init_lem : elements t.list_init ≡ []
  pub append_lem : (l : L) (a : ℕ) → elements (t.list_append l a) ≡ elements l ++ (a ∷ [])
  pub seek_lem : (l : L) (f : ℕ → Bool) → t.list_seek l f ≡ find f (elements l)
  pub size_lem : (l : L) → t.list_size l ≡ length (elements l)
  pub get_at_lem : (l : L) (i : ℕ) → t.list_get_at l i ≡ get_elem? (elements l) i
  pub delete_lem : (l : L) (a : ℕ) → elements (t.list_delete l a) ≡ remove a (elements l)
