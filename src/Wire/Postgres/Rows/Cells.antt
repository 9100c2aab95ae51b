-- ===== src/Wire/Postgres/Rows/Cells.antt =====
-- internal/wire/postgres/postgres.go: the cells in a row that `maskDataRow` has read and written, by
-- the layout of the protocol.
use mathlib.Core.Path.{subst}
use skybridge.Prelude.{
  take-drop, ℕ, zero, suc, ◌^◌, ◌<◌, ◌≤◌, ◌≡◌, refl, sym, ap, ◌∙◌, arith, true, Option, none, some,
  List, [], ◌∷◌, ◌++◌, Bytes, IsByte, All, All-take, length, take, drop, ok, ◌>>=◌, bind-eq-ok,
  length-append, length-take, length-drop, drop-append_of, le→ltb_false,
}
use skybridge.Prelude.Endian.{put_be, be_uint, be_uint-lt, be_uint-put_be, length-put_be}
use skybridge.Mask.{Column, Row, Masker}
use skybridge.Mask.Contract.{SameShape, KeepsShape, length-SameShape}
use skybridge.Mask.Described.{described, described_nil, described_zero, described_cons}
use skybridge.Wire.Postgres.Rows.{
  read_cell, read_cells, write_cells, encode_row, columns_for, mask_cells_of, mask_data_row,
}
use skybridge.Wire.Postgres.Rows.Masking.{length-read_cells, count_of_row, finish_row_ok}

columns_for-described : (n : ℕ) (cols : List Column) → columns_for n cols ≡ described n cols
unfolding columns_for
columns_for-described zero cols = described_zero cols
columns_for-described (suc n) [] =
    ap (record { name = []; is_text = true } ∷◌)
      (columns_for-described n [] ∙ sym (described_nil n))
    ∙ described_nil (suc n)
columns_for-described (suc n) (c ∷ cols) =
    ap (c ∷◌) (columns_for-described n cols) ∙ described_cons n c cols

-- The bytes hold the cells of the row one after the other, and `rest` behind them: a length of four
-- bytes that is negative as an int32 for NULL, else the length of the value and the value.
pub Holds : Row → Bytes → Bytes → Type 0
Holds [] bs rest = bs ≡ rest
Holds (none ∷ row) bs rest =
    (size : Bytes) × (more : Bytes) × (bs ≡ size ++ more)
    × (length size ≡ 4)
    × (2 ^ 31 ≤ be_uint size)
    × Holds row more rest
Holds (some v ∷ row) bs rest =
    (size : Bytes) × (more : Bytes) × (bs ≡ size ++ (v ++ more))
    × (length size ≡ 4)
    × (be_uint size ≡ length v)
    × (length v < 2 ^ 31)
    × Holds row more rest

write_cells-Holds : (row : Row) → length (write_cells row) < 2 ^ 31 → Holds row (write_cells row) []
unfolding Holds write_cells
write_cells-Holds [] h = refl
write_cells-Holds (none ∷ row) h = (
  put_be 4 0xFFFFFFFF,
  write_cells row,
  refl,
  length-put_be 4 0xFFFFFFFF,
  omega (arith, be_uint-put_be 4 0xFFFFFFFF (omega arith)),
  write_cells-Holds row (omega (arith, length-append (put_be 4 0xFFFFFFFF) (write_cells row))),
)
write_cells-Holds (some v ∷ row) h =
    let size : Bytes = put_be 4 (length v) in
    let whole = length-append size (v ++ write_cells row) in
    let parts = length-append v (write_cells row) in
    (
      size,
      write_cells row,
      refl,
      length-put_be 4 (length v),
      be_uint-put_be 4 (length v) (omega (arith, whole, parts)),
      omega (arith, whole, parts),
      write_cells-Holds row (omega (arith, whole, parts)),
    )

read_cell-none :
    (p more : Bytes)
    → read_cell p ≡ ok (none, more)
    → (4 ≤ length p) × (2 ^ 31 ≤ be_uint (take 4 p)) × (more ≡ drop 4 p)
unfolding read_cell
read_cell-none p more e = (ground (arith, e), ground (arith, e), ground (arith, e))

read_cell-some :
    (p v more : Bytes)
    → read_cell p ≡ ok (some v, more)
    → (4 ≤ length p)
      × (be_uint (take 4 p) < 2 ^ 31)
      × (be_uint (take 4 p) ≤ length (drop 4 p))
      × (v ≡ take (be_uint (take 4 p)) (drop 4 p))
      × (more ≡ drop (be_uint (take 4 p)) (drop 4 p))
unfolding read_cell
read_cell-some p v more e =
    (ground (arith, e), ground (arith, e), ground (arith, e), ground (arith, e), ground (arith, e))

-- One cell that was read in front of cells that are held.
Holds-read_cell :
    (p : Bytes) (cell : Option Bytes) (more rest : Bytes) (row : Row)
    → read_cell p ≡ ok (cell, more)
    → Holds row more rest
    → Holds (cell ∷ row) p rest
unfolding Holds
Holds-read_cell p none more rest row e h =
    let (four, negative, behind) = read_cell-none p more e in
    (
      take 4 p,
      more,
      take-drop 4 p ∙ ap (take 4 p ++◌) (sym behind),
      omega (arith, four, length-take 4 p),
      negative,
      h,
    )
Holds-read_cell p (some v) more rest row e h =
    let (four, positive, fits, value, behind) = read_cell-some p v more e in
    let n : ℕ = be_uint (take 4 p) in
    let size : length v ≡ n = ap length value ∙ omega (arith, fits, length-take n (drop 4 p)) in
    (
      take 4 p,
      more,
      take-drop 4 p ∙ ap (take 4 p ++◌) (take-drop n (drop 4 p) ∙ cc (value, behind)),
      omega (arith, four, length-take 4 p),
      sym size,
      omega (arith, size, positive),
      h,
    )

-- What was read is held.
Holds-read_cells :
    (n : ℕ) (p : Bytes) (row : Row) → read_cells n p ≡ ok row → (rest : Bytes) × Holds row p rest
unfolding Holds read_cells
Holds-read_cells zero p row e = let whole : [] ≡ row = cc in (p, rw (← whole) refl)
Holds-read_cells (suc n) p row e =
    let ((cell, more), first, e') =
      bind-eq-ok (read_cell p) (λ x. read_cells n x.1 >>= λ r. ok (x.0 ∷ r)) e in
    let (row', read, built) = bind-eq-ok (read_cells n more) (λ r. ok (cell ∷ r)) e' in
    let (rest, held) = Holds-read_cells n more row' read in
    let whole : cell ∷ row' ≡ row = cc in
    (rest, subst (λ r. Holds r p rest) whole (Holds-read_cell p cell more rest row' first held))

-- What is known of a payload that was masked: behind a count of two bytes it held the cells of a row,
-- and whatever else behind them; the masker, told the columns of the description, took that row
-- without an error; and the result is the count of the masker's row and its cells, and nothing else,
-- as many as before and NULL where the row had NULL.
pub record IsMasked (p : Bytes) (cols : List Column) (masker : Masker) (q : Bytes) : Type 0 where
  pub row : Row
  pub masked : Row
  pub unread : Bytes
  pub was_count : be_uint (take 2 p) ≡ length row
  pub was_row : Holds row (drop 2 p) unread
  pub was_masked : masker (described (length row) cols) row ≡ (masked, none)
  pub is_count : be_uint (take 2 q) ≡ length masked
  pub is_row : Holds masked (drop 2 q) []
  pub same_shape : SameShape row masked

cells_of_encoded : (n : ℕ) (row : Row) → drop 2 (encode_row n row) ≡ write_cells row
unfolding encode_row
cells_of_encoded n row = drop-append_of 2 (put_be 2 n) (write_cells row) (length-put_be 2 n)

-- On any payload of two bytes or more, and for every masker that keeps the contract: if the payload
-- is not forwarded as it came, the client gets a row that holds exactly the masker's cells for the
-- cells of the payload, by the layout of the protocol, if it is shorter than 2^31 bytes.
pub mask_data_row-IsMasked :
    (p : Bytes) (cols : List Column) (masker : Masker) (q : Bytes)
    → KeepsShape masker
    → All IsByte p
    → 2 ≤ length p
    → length q < 2 ^ 31
    → mask_data_row p cols masker ≡ ok q
    → IsMasked p cols masker q
unfolding mask_data_row mask_cells_of
mask_data_row-IsMasked p cols masker q keeps bytes h short e =
    let n : ℕ = be_uint (take 2 p) in
    let small : n < 256 ^ length (take 2 p) = be_uint-lt (take 2 p) (All-take IsByte 2 p bytes) in
    let two : length (take 2 p) ≡ 2 = omega (arith, h, length-take 2 p) in
    let (row, read, e') =
      bind-eq-ok (read_cells n (drop 2 p)) (mask_cells_of n cols masker)
        (rw (le→ltb_false 2 (length p) h) at e) in
    let masked : Row = (masker (columns_for n cols) row).0 in
    let (none_failed, encoded) = finish_row_ok n (masker (columns_for n cols) row) q e' in
    let (unread, held) = Holds-read_cells n (drop 2 p) row read in
    let count : length row ≡ n = length-read_cells n (drop 2 p) row read in
    let shape : SameShape row masked = keeps (columns_for n cols) row in
    let cells : drop 2 q ≡ write_cells masked = ap (drop 2) encoded ∙ cells_of_encoded n masked in
    record {
      row = row;
      masked = masked;
      unread = unread;
      was_count = sym count;
      was_row = held;
      was_masked =
          ap (λ c. masker c row)
            (ap (λ k. described k cols) count ∙ sym (columns_for-described n cols))
          ∙ none_failed;
      is_count =
          ap (λ b. be_uint (take 2 b)) encoded
          ∙ count_of_row n masked (rw two at small)
          ∙ sym count
          ∙ sym (length-SameShape shape);
      is_row =
          subst (λ b. Holds masked b []) (sym cells)
            (write_cells-Holds masked (omega (arith, ap length cells, length-drop 2 q, short)));
      same_shape = shape;
    }
