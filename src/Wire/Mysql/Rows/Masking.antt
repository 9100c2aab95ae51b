-- ===== src/Wire/Mysql/Rows/Masking.antt =====
-- internal/wire/mysql/mysql.go: what `maskTextRow` gives the client.
use skybridge.Prelude.{◌^◌, ◌<◌, ◌≡◌, refl, ap, ◌∙◌, arith, some, none, List, Bytes, length, ok}
use skybridge.Mask.{Column, Masker, Row}
use skybridge.Wire.Mysql.Rows.{
  read_row, encode_row, columns_for, finish_row, mask_row, mask_text_row,
}
use skybridge.Wire.Mysql.Rows.Codec.{read_row-encode_row_all}

-- On a row that was encoded, the result is that of the masker's answer.
mask_text_row-encode_row :
    (row : Row) (cols : List Column) (masker : Masker)
    → length (encode_row row) < 2 ^ 63
    → mask_text_row (encode_row row) cols masker
      ≡ ok (finish_row row (masker (columns_for row cols) row))
unfolding mask_text_row mask_row
mask_text_row-encode_row row cols masker h = rw (read_row-encode_row_all row h) refl

finish_row_same :
    (row masked : Row)
    → length masked ≡ length row
    → finish_row row (masked, none) ≡ some (encode_row masked)
unfolding finish_row
finish_row_same row masked h = ground (arith, h)

-- The client reads a bytes row as `row`.
abbrev pub Shows : Bytes → Row → Type 0
Shows bs row = read_row (length bs) bs 0 ≡ ok (some row)

-- If the masker answers a row's cells with as many cells and no error, the new payload is theirs.
pub mask_text_row-encode_row_masked :
    (row masked : Row) (cols : List Column) (masker : Masker)
    → length (encode_row row) < 2 ^ 63
    → masker (columns_for row cols) row ≡ (masked, none)
    → length masked ≡ length row
    → mask_text_row (encode_row row) cols masker ≡ ok (some (encode_row masked))
mask_text_row-encode_row_masked row masked cols masker hr h same =
    mask_text_row-encode_row row cols masker hr
    ∙ ap (λ r. ok (finish_row row r)) h
    ∙ ap (λ r. ok r) (finish_row_same row masked same)
