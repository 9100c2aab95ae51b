-- ===== src/Wire/Postgres/Rows/Codec.antt =====
-- internal/wire/postgres/postgres.go: the cells of a DataRow, written and read back.
use skybridge.Prelude.{
  ℕ, ◌^◌, ◌<◌, ◌≡◌, refl, ap, arith, Option, none, some, [], ◌∷◌, ◌++◌, Bytes, All, length, take,
  ok, append_assoc, length-append, take-append_of, drop-append_of, le→ltb_false, lt→leb_false,
}
use skybridge.Prelude.Endian.{put_be, be_uint, be_uint-put_be, length-put_be}
use skybridge.Mask.{Row}
use skybridge.Wire.Postgres.Rows.{read_cell, read_cells, write_cells}

-- A value's length fits an int32.
abbrev pub CellFits : Option Bytes → Type 0
CellFits none = Unit
CellFits (some v) = length v < 2 ^ 31

read_cell_null : (rest : Bytes) → read_cell (put_be 4 0xFFFFFFFF ++ rest) ≡ ok (none, rest)
unfolding read_cell put_be be_uint
read_cell_null rest = ground arith

take_len : (n : ℕ) (rest : Bytes) → be_uint (take 4 (put_be 4 n ++ rest)) ≡ be_uint (put_be 4 n)
take_len n rest = ap be_uint (take-append_of 4 (put_be 4 n) rest (length-put_be 4 n))

read_cell_value :
    (v rest : Bytes)
    → length v < 2 ^ 31
    → read_cell (put_be 4 (length v) ++ (v ++ rest)) ≡ ok (some v, rest)
unfolding read_cell
read_cell_value v rest h =
    let n : ℕ = length v in
    rw (
      take_len n (v ++ rest),
      be_uint-put_be 4 n (omega arith),
      drop-append_of 4 (put_be 4 n) (v ++ rest) (length-put_be 4 n),
      le→ltb_false 4 (length (put_be 4 n ++ (v ++ rest)))
          (omega (arith, length-append (put_be 4 n) (v ++ rest), length-put_be 4 n)),
      lt→leb_false 0x80000000 n (omega arith),
      le→ltb_false n (length (v ++ rest)) (omega (arith, length-append v rest)),
      take-append_of n v rest refl,
      drop-append_of n v rest refl,
    )

-- The cells that were written are read back, NULLs and empty values told apart, whatever follows.
pub read_cells-write_cells :
    (row : Row) (rest : Bytes)
    → All CellFits row
    → read_cells (length row) (write_cells row ++ rest) ≡ ok row
unfolding read_cells write_cells
read_cells-write_cells [] rest h = refl
read_cells-write_cells (none ∷ row) rest (hv, h) =
    rw (append_assoc, read_cell_null (write_cells row ++ rest), read_cells-write_cells row rest h)
read_cells-write_cells (some v ∷ row) rest (hv, h) = rw (
  append_assoc,
  append_assoc,
  read_cell_value v (write_cells row ++ rest) hv,
  read_cells-write_cells row rest h,
)
