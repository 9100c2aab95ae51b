-- ===== src/Mask/Described.antt =====
-- What the engines tell a masker of the columns of a row (maskDataRow of postgres.go, maskTextRow of
-- mysql.go), said without a recursion over both lists.
use skybridge.Prelude.{
  ℕ, zero, suc, ◌-◌, ◌≡◌, refl, ap, arith, true, List, [], ◌∷◌, ◌++◌, length, take,
}
use skybridge.Mask.{Column}

-- Text columns without a name.
abbrev pub nameless : ℕ → List Column
nameless zero = []
nameless (suc n) = record { name = []; is_text = true } ∷ nameless n

-- For a row of `n` cells: its columns in their order, those that are too many left out, and nameless
-- text columns for the cells that have none.
abbrev pub described : ℕ → List Column → List Column
described n cols = take n cols ++ nameless (n - length cols)

pub described_nil : (n : ℕ) → nameless n ≡ described n []
described_nil zero = refl
described_nil (suc n) = let all_of : suc n ≡ suc n - 0 = omega arith in ap nameless all_of

pub described_zero : (cols : List Column) → [] ≡ described 0 cols
described_zero cols = let none_of : 0 ≡ 0 - length cols = omega arith in ap nameless none_of

pub described_cons :
    (n : ℕ) (c : Column) (cols : List Column) → c ∷ described n cols ≡ described (suc n) (c ∷ cols)
described_cons n c cols =
    let same : n - length cols ≡ suc n - length (c ∷ cols) = omega arith in
    ap (λ k. c ∷ (take n cols ++ nameless k)) same
