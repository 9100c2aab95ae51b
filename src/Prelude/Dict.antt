-- ===== src/Prelude/Dict.antt =====
-- Go's `map[string]string`, as an association list with each key once.
use mathlib.Core.Path.{◌≡◌, refl}
use mathlib.Core.Option.{Option, none, some}
use mathlib.Core.List.{List, [], ◌∷◌}
use native.Mathlib.Omega.{arith}
use skybridge.Prelude.Tests.{if◌then◌else◌}
use skybridge.Prelude.Lists.{Bytes, bytes_equal, bytes_equal_iff}

abbrev pub Dict : Type 0 → Type 0
Dict V = List (Bytes × V)

module _ {V : Type 0} where
  unfoldable pub get : Bytes → Dict V → Option V
  get k [] = none
  get k ((j, v) ∷ m) = if bytes_equal j k then some v else get k m

  unfoldable pub put : Bytes → V → Dict V → Dict V
  put k v [] = (k, v) ∷ []
  put k v ((j, w) ∷ m) = if bytes_equal j k then (k, v) ∷ m else (j, w) ∷ put k v m

  unfoldable pub delete : Bytes → Dict V → Dict V
  delete k [] = []
  delete k ((j, w) ∷ m) = let rest = delete k m in if bytes_equal j k then rest else (j, w) ∷ rest

  pub get-put :
      (j : Bytes) (v : V) (k : Bytes) (m : Dict V)
      → get k (put j v m) ≡ (if bytes_equal j k then some v else get k m)
  unfolding get put
  get-put j v k [] = refl
  get-put j v k ((i, w) ∷ m) =
      ground (arith, bytes_equal_iff j k, bytes_equal_iff i k, bytes_equal_iff i j, get-put j v k m)

  pub get-delete :
      (j k : Bytes) (m : Dict V) → get k (delete j m) ≡ (if bytes_equal j k then none else get k m)
  unfolding get delete
  get-delete j k [] = ground arith
  get-delete j k ((i, w) ∷ m) =
      ground
        (arith, bytes_equal_iff j k, bytes_equal_iff i k, bytes_equal_iff i j, get-delete j k m)

-- `m[k]` of a map of strings: the empty string where there is no entry.
unfoldable pub get_text : Bytes → Dict Bytes → Bytes
unfolding get
get_text k m = elim (get k m) [ none ↦ [] | some v ↦ v ]
