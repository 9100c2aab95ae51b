-- ===== src/Mask.antt =====
-- internal/mask/mask.go: result columns, rows and maskers.
-- A masker of the source may write into the row that it is given; every caller hands it a fresh one,
-- so here it returns the new row. The text of an error is what Go's `error` carries.
pub mod Chain
pub mod Overlay
pub mod Remote
pub mod Contract
pub mod Secrecy
pub mod Described
use skybridge.Prelude.{Bool, true, false, Option, none, some, List, [], ◌∷◌, Bytes}

pub record Column : Type 0 where
  pub name : Bytes
  pub is_text : Bool

-- `none` is SQL NULL, a nil slice.
abbrev pub Row : Type 0
Row = List (Option Bytes)

-- `MaskRow`: the row, and the error if there is one.
abbrev pub Masker : Type 0
Masker = List Column → Row → Row × Option Bytes

unfoldable pub noop : Masker
noop cols row = (row, none)

-- Both maskers of the package walk over the row in the same way: a cell that has no column, is NULL
-- or is not text is kept, and any other becomes `f` of its column's name and its value.
unfoldable pub mask_cells : (Bytes → Bytes → Bytes) → List Column → Row → Row
mask_cells f cols [] = []
mask_cells f [] (v ∷ row) = v ∷ mask_cells f [] row
mask_cells f (c ∷ cols) (none ∷ row) = none ∷ mask_cells f cols row
mask_cells f (c ∷ cols) (some v ∷ row) =
    some (elim c.is_text [ true ↦ f c.name v | false ↦ v ]) ∷ mask_cells f cols row
