-- ===== src/Wire/Mysql/Rows/Crash.antt =====
-- internal/wire/mysql/mysql.go: `maskTextRow` on a field whose length is near the bounds of an int.
use skybridge.Prelude.{
  ℕ, suc, ◌+◌, ◌-◌, ◌^◌, ◌<◌, ◌≤◌, ◌≡◌, refl, sym, ap, ◌∙◌, arith, false, ◌==◌, some, List, [], ◌∷◌,
  ◌++◌, Bytes, length, get_or, ok, err, length-append,
}
use skybridge.Prelude.Endian.{put_le, length-put_le}
use skybridge.Mask.{Column, Masker}
use skybridge.Wire.Mysql.LenEnc.{out_of_range, read_len_enc_int, put_len_enc_int}
use skybridge.Wire.Mysql.LenEnc.RoundTrip.{read_len_enc_int-put_len_enc_int}
use skybridge.Wire.Mysql.Rows.{
  null_cell, read_value, value_behind, read_cell, read_row, mask_text_row,
}

-- The field's length as the protocol writes it, in nine bytes.
abbrev pub long_field : ℕ → Bytes → Bytes
long_field l rest = (0xFE ∷ put_le 8 l) ++ rest

pub long_field-put : (l : ℕ) → 2 ^ 63 - 9 ≤ l → put_len_enc_int l ≡ 0xFE ∷ put_le 8 l
unfolding put_len_enc_int
long_field-put l h = ground arith

pub length-long_field : (l : ℕ) (rest : Bytes) → length (long_field l rest) ≡ 9 + length rest
length-long_field l rest = omega (arith, length-append (0xFE ∷ put_le 8 l) rest, length-put_le 8 l)

read_value_panics :
    (p : Bytes) (l : ℕ)
    → 9 ≤ length p
    → 2 ^ 63 - 9 ≤ l
    → l < 2 ^ 64
    → read_value p 9 l ≡ err out_of_range
unfolding read_value
read_value_panics p l hp low high = ground arith

read_cell_panics :
    (p : Bytes) (l : ℕ)
    → (get_or p 0 0 == null_cell) ≡ false
    → read_len_enc_int p 0 ≡ ok (some (l, 9))
    → read_value p 9 l ≡ err out_of_range
    → read_cell p 0 ≡ err out_of_range
unfolding read_cell value_behind
read_cell_panics p l nn hl hv = ground (arith, nn, hl, hv)

mask_text_row_panics :
    (p : Bytes) (cols : List Column) (masker : Masker)
    → 0 < length p
    → read_cell p 0 ≡ err out_of_range
    → mask_text_row p cols masker ≡ err out_of_range
unfolding mask_text_row read_row
mask_text_row_panics [] cols masker h hc = absurd (omega arith)
mask_text_row_panics (b ∷ p) cols masker h hc = ground (arith, hc)

-- Masking a row stops the process if the row starts with the nine-byte length of a field between
-- 2^63 - 9 and 2^64 - 1, whatever follows, the columns and the masker: for each row below 2^63 bytes.
pub mask_text_row-long_field :
    (l : ℕ) (rest : Bytes) (cols : List Column) (masker : Masker)
    → 2 ^ 63 - 9 ≤ l
    → l < 2 ^ 64
    → length (long_field l rest) < 2 ^ 63
    → mask_text_row (long_field l rest) cols masker ≡ err out_of_range
mask_text_row-long_field l rest cols masker low high h =
    let p : Bytes = long_field l rest in
    let long : 9 ≤ length p = omega (arith, length-long_field l rest) in
    mask_text_row_panics p cols masker (omega arith) (
      read_cell_panics p l refl
        (read_len_enc_int-put_len_enc_int p 0 l rest h high
            (ap (λ xs. xs ++ rest) (sym (long_field-put l low)))
          ∙ ap (λ n. ok (some (l, n)))
              (ap length (long_field-put l low) ∙ ap suc (length-put_le 8 l)))
        (read_value_panics p l long low high))
