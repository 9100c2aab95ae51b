-- ===== src/Wire/Postgres/Rows.antt =====
-- internal/wire/postgres/postgres.go: RowDescription and DataRow payloads.
-- An offset into the payload is the list of the bytes from there on; Go's int has 64 bits, which no
-- sum of an offset and a 32-bit length passes.
pub mod Codec
pub mod Masking
pub mod Cells
use skybridge.Prelude.{
  ℕ, zero, suc, ◌+◌, ◌-◌, Bool, true, false, Option, none, some, List, [], ◌∷◌, ◌++◌, ltb, leb,
  ◌==◌, if◌then◌else◌, Bytes, length, take, drop, Result, ok, err, ◌>>=◌, cut_zero,
}
use skybridge.Prelude.Endian.{put_be, be_uint}
use skybridge.Mask.{Column, Row, Masker}

pub data PgError : Type 0 where
  -- errProtocol, and the error of a masker
  protocol : PgError
  masker_failed : Bytes → PgError

-- What stands behind a column's name: tableOID(4) colAttr(2) typeOID(4) typeSize(2) typeMod(4)
-- formatCode(2).
abbrev pub field_len : ℕ
field_len = 18

unfoldable pub parse_columns : ℕ → Bytes → List Column
unfolding cut_zero
parse_columns zero p = []
parse_columns (suc n) p = elim (cut_zero p) [
  | none ↦ []
  | some (name, rest) ↦
      if ltb (length rest) field_len
      then []
      else record { name = name; is_text = be_uint (take 2 (drop 16 rest)) == 0 }
        ∷ parse_columns n (drop field_len rest)
]

unfoldable pub parse_row_description : Bytes → List Column
unfolding parse_columns
parse_row_description p =
    if ltb (length p) 2 then [] else parse_columns (be_uint (take 2 p)) (drop 2 p)

-- The cell at the front, which is NULL if its length is negative as an int32, and what follows it.
unfoldable pub read_cell : Bytes → Result PgError (Option Bytes × Bytes)
read_cell p =
    let flen : ℕ = be_uint (take 4 p) in
    let rest : Bytes = drop 4 p in
    if ltb (length p) 4
    then err protocol
    else if leb 0x80000000 flen
    then ok (none, rest)
    else if ltb (length rest) flen
    then err protocol
    else ok (some (take flen rest), drop flen rest)

-- `n` cells; what follows the last one is not looked at.
unfoldable pub read_cells : ℕ → Bytes → Result PgError Row
unfolding read_cell
read_cells zero p = ok []
read_cells (suc n) p = do (cell, rest) ← read_cell p; row ← read_cells n rest; ok (cell ∷ row)

-- `mc`: a column for each cell, a nameless text column where the description has none.
unfoldable pub columns_for : ℕ → List Column → List Column
columns_for zero cols = []
columns_for (suc n) [] = record { name = []; is_text = true } ∷ columns_for n []
columns_for (suc n) (c ∷ cols) = c ∷ columns_for n cols

unfoldable pub write_cells : Row → Bytes
write_cells [] = []
write_cells (none ∷ row) = put_be 4 0xFFFFFFFF ++ write_cells row
write_cells (some v ∷ row) = put_be 4 (length v) ++ (v ++ write_cells row)

unfoldable pub encode_row : ℕ → Row → Bytes
unfolding write_cells
encode_row n row = put_be 2 n ++ write_cells row

-- The check behind the masker's call, and the re-encoding.
unfoldable pub finish_row : ℕ → Row × Option Bytes → Result PgError Bytes
unfolding encode_row
finish_row n (masked, some e) = err (masker_failed e)
finish_row n (masked, none) = if length masked == n then ok (encode_row n masked) else err protocol

unfoldable pub mask_cells_of : ℕ → List Column → Masker → Row → Result PgError Bytes
unfolding columns_for finish_row
mask_cells_of n cols masker row = finish_row n (masker (columns_for n cols) row)

unfoldable pub mask_data_row : Bytes → List Column → Masker → Result PgError Bytes
unfolding read_cells mask_cells_of
mask_data_row p cols masker =
    let n : ℕ = be_uint (take 2 p) in
    if ltb (length p) 2
    then ok p
    else (do row ← read_cells n (drop 2 p); mask_cells_of n cols masker row)
