-- ===== src/Mask/Chain.antt =====
-- internal/mask/chain.go: maskers applied in order, the first error ends the row.
use skybridge.Prelude.{◌≡◌, refl, sym, ap, ◌∙◌, Option, none, some, List, [], ◌∷◌, ◌++◌, Bytes}
use mathlib.Core.Path.{fun_ext}
use skybridge.Mask.{Column, Row, Masker}

-- `NewChain`: a nil masker is left out.
unfoldable pub new_chain : List (Option Masker) → List Masker
new_chain [] = []
new_chain (none ∷ ms) = new_chain ms
new_chain (some m ∷ ms) = m ∷ new_chain ms

-- The rest of the chain runs unless the masker before it failed.
unfoldable pub and_then : (Row → Row × Option Bytes) → Row × Option Bytes → Row × Option Bytes
and_then k (row, none) = k row
and_then k (row, some e) = (row, some e)

unfoldable pub chain : List Masker → Masker
unfolding and_then
chain [] cols row = (row, none)
chain (m ∷ ms) cols row = and_then (chain ms cols) (m cols row)

and_then_assoc :
    (k l : Row → Row × Option Bytes) (r : Row × Option Bytes)
    → and_then l (and_then k r) ≡ and_then (λ row. and_then l (k row)) r
unfolding and_then
and_then_assoc k l (row, none) = refl
and_then_assoc k l (row, some e) = refl

-- A chain of two chains is the second run on what the first returned, unless that failed.
pub chain-append :
    (ms ns : List Masker) (cols : List Column) (row : Row)
    → chain (ms ++ ns) cols row ≡ and_then (chain ns cols) (chain ms cols row)
unfolding chain
chain-append [] ns cols row = unfold and_then in refl
chain-append (m ∷ ms) ns cols row =
    ap (λ k. and_then k (m cols row)) (fun_ext (chain-append ms ns cols))
    ∙ sym (and_then_assoc (chain ms cols) (chain ns cols) (m cols row))

-- Nil maskers change nothing, wherever they stand.
pub new_chain-append :
    (ms ns : List (Option Masker)) → new_chain (ms ++ ns) ≡ new_chain ms ++ new_chain ns
unfolding new_chain
new_chain-append [] ns = refl
new_chain-append (none ∷ ms) ns = new_chain-append ms ns
new_chain-append (some m ∷ ms) ns = ap (◌∷◌ m) (new_chain-append ms ns)
