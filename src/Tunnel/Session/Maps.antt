-- ===== src/Tunnel/Session/Maps.antt =====
-- Laws of the session's stream map and of its heap of streams.
use skybridge.Prelude.{
  ℕ, zero, suc, ◌≡◌, refl, arith, none, some, List, [], ◌∷◌, ◌++◌, ◌==◌, if◌then◌else◌, length,
  get_elem?,
}
use skybridge.Tunnel.Stream.{Stream}
use skybridge.Tunnel.Session.{find, remove, insert, update}

pub find-remove :
    (id k : ℕ) (m : List (ℕ × ℕ)) → find k (remove id m) ≡ (if id == k then none else find k m)
unfolding find remove
find-remove id k [] = ground arith
find-remove id k ((j, r) ∷ m) = ground (arith, find-remove id k m)

pub find-insert :
    (id r k : ℕ) (m : List (ℕ × ℕ))
    → find k (insert id r m) ≡ (if id == k then some r else find k m)
unfolding find insert
find-insert id r k m = ground (arith, find-remove id k m)

pub get_elem?-append :
    (xs : List Stream) (y : Stream) (r : ℕ) {x : Stream}
    → get_elem? xs r ≡ some x
    → get_elem? (xs ++ (y ∷ [])) r ≡ some x
get_elem?-append [] y r h = cc
get_elem?-append (z ∷ xs) y zero h = h
get_elem?-append (z ∷ xs) y (suc r) h = get_elem?-append xs y r h

pub get_elem?-append_last :
    (xs : List Stream) (y : Stream) → get_elem? (xs ++ (y ∷ [])) (length xs) ≡ some y
get_elem?-append_last [] y = refl
get_elem?-append_last (x ∷ xs) y = get_elem?-append_last xs y

-- The stream at a reference after an update, which may have been of another.
pub get_elem?-update :
    (q r : ℕ) (f : Stream → Stream) (xs : List Stream) {x : Stream}
    → get_elem? xs r ≡ some x
    → get_elem? (update q f xs) r ≡ some (if q == r then f x else x)
unfolding update
get_elem?-update q r f [] h = cc
get_elem?-update zero zero f (y ∷ xs) h = ground arith
get_elem?-update zero (suc r) f (y ∷ xs) h = ground arith
get_elem?-update (suc q) zero f (y ∷ xs) h = ground arith
get_elem?-update (suc q) (suc r) f (y ∷ xs) {x} h =
    ground (arith, get_elem?-update q r f xs {x = x} h)
