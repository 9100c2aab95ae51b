-- ===== src/Mask/Contract.antt =====
-- internal/mask: the contract of the `Masker` interface. A masked row has the cells of the row, and
-- NULL stays NULL.
use skybridge.Prelude.{
  suc, ◌≡◌, refl, ap, Option, none, some, List, [], ◌∷◌, Bytes, length, All, if_both,
}
use skybridge.Prelude.Text.{Unicode}
use skybridge.Mask.{Column, Row, Masker, noop, mask_cells}
use skybridge.Mask.Chain.{chain, and_then}
use skybridge.Mask.Overlay.{Overlay, redact, overlay, enabled}
use skybridge.Mask.Remote
use skybridge.Mask.Remote.{Service, Remote, remote, mask_value}

-- The two rows have their NULLs in the same places, and as many cells.
pub data SameShape : Row → Row → Type 0 where
  end : SameShape [] []
  null : {a b : Row} → SameShape a b → SameShape (none ∷ a) (none ∷ b)
  value : {a b : Row} (v w : Bytes) → SameShape a b → SameShape (some v ∷ a) (some w ∷ b)

pub SameShape-refl : (a : Row) → SameShape a a
SameShape-refl [] = end
SameShape-refl (none ∷ a) = null (SameShape-refl a)
SameShape-refl (some v ∷ a) = value v v (SameShape-refl a)

pub SameShape-trans : {a b c : Row} → SameShape a b → SameShape b c → SameShape a c
SameShape-trans end q = q
SameShape-trans (null p) (null q) = null (SameShape-trans p q)
SameShape-trans (value u v p) (value v' w q) = value u w (SameShape-trans p q)

pub length-SameShape : {a b : Row} → SameShape a b → length b ≡ length a
length-SameShape end = refl
length-SameShape (null p) = ap suc (length-SameShape p)
length-SameShape (value v w p) = ap suc (length-SameShape p)

-- The contract, for every row and every list of columns, also of another length than the row.
abbrev pub KeepsShape : Masker → Type 0
KeepsShape m = (cols : List Column) (row : Row) → SameShape row (m cols row).0

mask_cells-SameShape :
    (f : Bytes → Bytes → Bytes) (cols : List Column) (row : Row)
    → SameShape row (mask_cells f cols row)
unfolding mask_cells
mask_cells-SameShape f cols [] = end
mask_cells-SameShape f [] (none ∷ row) = null (mask_cells-SameShape f [] row)
mask_cells-SameShape f [] (some v ∷ row) = value v v (mask_cells-SameShape f [] row)
mask_cells-SameShape f (c ∷ cols) (none ∷ row) = null (mask_cells-SameShape f cols row)
mask_cells-SameShape f (c ∷ cols) (some v ∷ row) = value v _ (mask_cells-SameShape f cols row)

pub noop-KeepsShape : KeepsShape noop
unfolding noop
noop-KeepsShape cols row = SameShape-refl row

pub overlay-KeepsShape : (u : Unicode) (o : Overlay) → KeepsShape (overlay u o)
unfolding overlay
overlay-KeepsShape u o cols row =
    if_both (λ (p : Row × Option Bytes). SameShape row p.0) (enabled o) _ _
      (mask_cells-SameShape (redact u o.rules) cols row) (SameShape-refl row)

pub remote-KeepsShape : (service : Service) (r : Remote) → KeepsShape (remote service r)
unfolding remote
remote-KeepsShape service r cols row =
    if_both (λ (p : Row × Option Bytes). SameShape row p.0) (Remote.enabled r) _ _
      (mask_cells-SameShape (mask_value service r) cols row) (SameShape-refl row)

and_then-SameShape :
    (k : Row → Row × Option Bytes) (row : Row) (r : Row × Option Bytes)
    → ((a : Row) → SameShape a (k a).0)
    → SameShape row r.0
    → SameShape row (and_then k r).0
unfolding and_then
and_then-SameShape k row (a, none) keeps h = SameShape-trans h (keeps a)
and_then-SameShape k row (a, some e) keeps h = h

-- A chain keeps the contract if each of its maskers does, also where one fails half way.
pub chain-KeepsShape : (ms : List Masker) → All KeepsShape ms → KeepsShape (chain ms)
unfolding chain
chain-KeepsShape [] h cols row = SameShape-refl row
chain-KeepsShape (m ∷ ms) (hm, h) cols row =
    and_then-SameShape (chain ms cols) row (m cols row) (chain-KeepsShape ms h cols) (hm cols row)
