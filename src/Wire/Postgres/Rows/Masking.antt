-- ===== src/Wire/Postgres/Rows/Masking.antt =====
-- internal/wire/postgres/postgres.go: what `maskDataRow` makes of a row.
use skybridge.Prelude.{
  ℕ, zero, suc, ◌^◌, ◌<◌, ◌≡◌, refl, sym, ap, ◌∙◌, arith, Option, none, some, List, [], ◌∷◌, Bytes,
  All, length, take, drop, ok, ◌>>=◌, bind-eq-ok, append-nil, length-append, take-append_of,
  drop-append_of, le→ltb_false, ==_refl,
}
use skybridge.Prelude.Endian.{put_be, be_uint, be_uint-put_be, length-put_be}
use skybridge.Prelude.Text.{Unicode}
use skybridge.Mask.{Column, Row, Masker, noop}
use skybridge.Mask.Contract.{SameShape, length-SameShape, overlay-KeepsShape}
use skybridge.Mask.Overlay.{Overlay, overlay}
use skybridge.Mask.Secrecy.{AgreeUpTo, overlay-AgreeUpTo}
use skybridge.Wire.Postgres.Rows.{
  read_cell, read_cells, write_cells, encode_row, columns_for, finish_row, mask_cells_of,
  mask_data_row,
}
use skybridge.Wire.Postgres.Rows.Codec.{CellFits, read_cells-write_cells}

pub length-read_cells : (n : ℕ) (p : Bytes) (row : Row) → read_cells n p ≡ ok row → length row ≡ n
unfolding read_cells
length-read_cells zero p row e = ground arith
length-read_cells (suc n) p row e =
    let ((cell, rest), _, e') =
      bind-eq-ok (read_cell p) (λ x. read_cells n x.1 >>= λ r. ok (x.0 ∷ r)) e in
    let (row', read, built) = bind-eq-ok (read_cells n rest) (λ r. ok (cell ∷ r)) e' in
    ground (arith, length-read_cells n rest row' read)

pub count_of_row : (n : ℕ) (row : Row) → n < 2 ^ 16 → be_uint (take 2 (encode_row n row)) ≡ n
unfolding encode_row
count_of_row n row h =
    ap be_uint (take-append_of 2 (put_be 2 n) (write_cells row) (length-put_be 2 n))
    ∙ be_uint-put_be 2 n (omega arith)

cells_of_row :
    (n : ℕ) (row : Row)
    → length row ≡ n
    → All CellFits row
    → read_cells n (drop 2 (encode_row n row)) ≡ ok row
unfolding encode_row
cells_of_row n row len fits =
    ap (read_cells n) (
      drop-append_of 2 (put_be 2 n) (write_cells row) (length-put_be 2 n)
      ∙ sym (append-nil (write_cells row)))
    ∙ (rw (← len) (read_cells-write_cells row [] fits))

-- The payload of a row of at most 65535 cells.
mask_data_row-encode_row :
    (n : ℕ) (row : Row) (cols : List Column) (masker : Masker)
    → n < 2 ^ 16
    → length row ≡ n
    → All CellFits row
    → mask_data_row (encode_row n row) cols masker ≡ mask_cells_of n cols masker row
unfolding mask_data_row
mask_data_row-encode_row n row cols masker h len fits = rw (
  le→ltb_false 2 (length (encode_row n row)) (
      unfold encode_row in
      (omega (arith, length-append (put_be 2 n) (write_cells row), length-put_be 2 n))),
  count_of_row n row h,
  cells_of_row n row len fits,
)

pub finish_row_ok :
    (n : ℕ) (r : Row × Option Bytes) (q : Bytes)
    → finish_row n r ≡ ok q
    → (r ≡ (r.0, none)) × (q ≡ encode_row n r.0)
unfolding finish_row
finish_row_ok n (masked, some e) q h = cc
finish_row_ok n (masked, none) q h = ground arith

-- The client can read what it gets: a row that is masked by a masker that keeps the contract comes
-- out with the same number of cells, each of which is the masker's, if the masked values fit the
-- protocol's length fields.
pub read_cells-mask_data_row :
    (row : Row) (cols : List Column) (masker : Masker) (masked : Row)
    → length row < 2 ^ 16
    → All CellFits row
    → SameShape row masked
    → All CellFits masked
    → masker (columns_for (length row) cols) row ≡ (masked, none)
    → (q : Bytes) × (mask_data_row (encode_row (length row) row) cols masker ≡ ok q)
      × (be_uint (take 2 q) ≡ length row)
      × (read_cells (length row) (drop 2 q) ≡ ok masked)
read_cells-mask_data_row row cols masker masked h fits shape fits' e =
    let n : ℕ = length row in
    let same = length-SameShape shape in
    (
      encode_row n masked,
      mask_data_row-encode_row n row cols masker h refl fits
          ∙ (unfold mask_cells_of finish_row in rw e (rw same (rw (==_refl n)))),
      count_of_row n masked h,
      cells_of_row n masked same fits',
    )

-- Without a masker a row is forwarded byte for byte.
pub mask_data_row-noop :
    (row : Row) (cols : List Column)
    → length row < 2 ^ 16
    → All CellFits row
    → mask_data_row (encode_row (length row) row) cols noop ≡ ok (encode_row (length row) row)
mask_data_row-noop row cols h fits =
    mask_data_row-encode_row (length row) row cols noop h refl fits
    ∙ (unfold mask_cells_of finish_row noop in rw (==_refl (length row)))

overlay_never_fails :
    (u : Unicode) (o : Overlay) (cols : List Column) (row : Row) → (overlay u o cols row).1 ≡ none
unfolding overlay
overlay_never_fails u o cols row = ground arith

finish_row_fits :
    (n : ℕ) (r : Row × Option Bytes)
    → r.1 ≡ none
    → length r.0 ≡ n
    → finish_row n r ≡ ok (encode_row n r.0)
unfolding finish_row
finish_row_fits n (row, none) e len = rw (len, ==_refl n)
finish_row_fits n (row, some x) e len = cc

-- A row under an overlay is always masked, never forwarded as it came.
pub mask_data_row-overlay :
    (u : Unicode) (o : Overlay) (cols : List Column) (n : ℕ) (row : Row)
    → n < 2 ^ 16
    → length row ≡ n
    → All CellFits row
    → mask_data_row (encode_row n row) cols (overlay u o)
      ≡ ok (encode_row n (overlay u o (columns_for n cols) row).0)
mask_data_row-overlay u o cols n row h len fits =
    mask_data_row-encode_row n row cols (overlay u o) h len fits ∙ mask_cells_of_fits
  where
    masked : Row × Option Bytes
    masked = overlay u o (columns_for n cols) row

    mask_cells_of_fits : mask_cells_of n cols (overlay u o) row ≡ ok (encode_row n masked.0)
    mask_cells_of_fits =
        unfold mask_cells_of in
        finish_row_fits n masked (overlay_never_fails u o (columns_for n cols) row)
          (length-SameShape (overlay-KeepsShape u o (columns_for n cols) row) ∙ len)

-- Two rows that differ only in values of columns which the overlay covers leave the proxy as the
-- same bytes.
pub mask_data_row-AgreeUpTo :
    (u : Unicode) (o : Overlay) (cols : List Column) (n : ℕ) (a b : Row)
    → n < 2 ^ 16
    → length a ≡ n
    → length b ≡ n
    → All CellFits a
    → All CellFits b
    → AgreeUpTo u o (columns_for n cols) a b
    → (q : Bytes) × (mask_data_row (encode_row n a) cols (overlay u o) ≡ ok q)
      × (mask_data_row (encode_row n b) cols (overlay u o) ≡ ok q)
mask_data_row-AgreeUpTo u o cols n a b h la lb fa fb agree = (
  _,
  mask_data_row-overlay u o cols n a h la fa,
  mask_data_row-overlay u o cols n b h lb fb
      ∙ ap (λ r. ok (encode_row n r.0)) (sym (overlay-AgreeUpTo u o (columns_for n cols) agree)),
)
