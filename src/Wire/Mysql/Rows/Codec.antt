-- ===== src/Wire/Mysql/Rows/Codec.antt =====
-- internal/wire/mysql/mysql.go: the text rows that `maskTextRow` encodes, and decodes.
use skybridge.Prelude.{
  ℕ, zero, suc, ◌+◌, ◌^◌, ◌<◌, ◌≤◌, ◌≡◌, refl, ap, ◌∙◌, arith, false, ◌==◌, Option, some, none, [],
  ◌∷◌, ◌++◌, Bytes, length, take, drop, get_or, ok, length-append, length-drop, take-append_of,
  drop-append_of, lt→leb_false, le→leb,
}
use skybridge.Mask.{Row}
use skybridge.Wire.Mysql.LenEnc.{put_len_enc_int, read_len_enc_int}
use skybridge.Wire.Mysql.LenEnc.RoundTrip.{
  read_len_enc_int-put_len_enc_int, length-put_len_enc_int-pos,
}
use skybridge.Wire.Mysql.Rows.{null_cell, read_value, value_behind, read_cell, read_row, encode_row}

drop-drop : (m n k : ℕ) (xs : Bytes) → m + n ≡ k → drop k xs ≡ drop n (drop m xs)
drop-drop zero n k xs h = ap (λ i. drop i xs) (omega arith)
drop-drop (suc m) n zero xs h = absurd (omega arith)
drop-drop (suc m) zero (suc k) [] h = refl
drop-drop (suc m) (suc n) (suc k) [] h = refl
drop-drop (suc m) n (suc k) (x ∷ xs) h = drop-drop m n k xs (omega arith)

-- The bytes behind those that stand at an offset.
drop_behind : (off : ℕ) (p xs ys : Bytes) → drop off p ≡ xs ++ ys → drop (off + length xs) p ≡ ys
drop_behind off p xs ys h =
    drop-drop off (length xs) (off + length xs) p refl
    ∙ ap (drop (length xs)) h
    ∙ drop-append_of (length xs) xs ys refl

within :
    (off : ℕ) (p xs ys : Bytes)
    → off ≤ length p
    → drop off p ≡ xs ++ ys
    → off + length xs ≤ length p
within off p xs ys ho h = omega (arith, length-drop off p, ap length h, length-append xs ys)

read_value_fits :
    (p : Bytes) (off l : ℕ)
    → length p < 2 ^ 63
    → off + l ≤ length p
    → read_value p off l ≡ ok (some (take l (drop off p), off + l))
unfolding read_value
read_value_fits p off l hp h = ground arith

read_value-append :
    (p : Bytes) (off : ℕ) (v rest : Bytes)
    → length p < 2 ^ 63
    → off ≤ length p
    → drop off p ≡ v ++ rest
    → read_value p off (length v) ≡ ok (some (v, off + length v))
read_value-append p off v rest hp ho h =
    read_value_fits p off (length v) hp (within off p v rest ho h)
    ∙ rw (h, take-append_of (length v) v rest refl) refl

-- The bytes of one cell.
abbrev cell_bytes : Option Bytes → Bytes
cell_bytes none = null_cell ∷ []
cell_bytes (some v) = put_len_enc_int (length v) ++ v

not_null : (v : ℕ) (rest : Bytes) → (get_or (put_len_enc_int v ++ rest) 0 0 == null_cell) ≡ false
unfolding put_len_enc_int
not_null v rest = ground arith

get_or-drop : (off : ℕ) (p : Bytes) → get_or p off 0 ≡ get_or (drop off p) 0 0
get_or-drop zero p = refl
get_or-drop (suc off) [] = refl
get_or-drop (suc off) (b ∷ p) = get_or-drop off p

read_cell_null :
    (p : Bytes) (off : ℕ) (rest : Bytes)
    → drop off p ≡ null_cell ∷ rest
    → read_cell p off ≡ ok (some (none, off + 1))
unfolding read_cell
read_cell_null p off rest h = rw (get_or-drop off p, h) refl

-- A cell that is not NULL, by its length and its value.
read_cell_found :
    (p : Bytes) (off l n off' : ℕ) (v : Bytes)
    → (get_or p off 0 == null_cell) ≡ false
    → read_len_enc_int p off ≡ ok (some (l, n))
    → read_value p (off + n) l ≡ ok (some (v, off'))
    → read_cell p off ≡ ok (some (some v, off'))
unfolding read_cell value_behind
read_cell_found p off l n off' v nn hl hv = ground (arith, nn, hl, hv)

read_cell_value :
    (p : Bytes) (off : ℕ) (v rest : Bytes)
    → length p < 2 ^ 63
    → off ≤ length p
    → drop off p ≡ put_len_enc_int (length v) ++ (v ++ rest)
    → read_cell p off ≡ ok (some (some v, (off + length (put_len_enc_int (length v))) + length v))
read_cell_value p off v rest hp ho h =
    let n : ℕ = length v in
    let head : Bytes = put_len_enc_int n in
    let behind : drop (off + length head) p ≡ v ++ rest = drop_behind off p head (v ++ rest) h in
    let inside : off + length head ≤ length p = within off p head (v ++ rest) ho h in
    let room : (off + length head) + n ≤ length p =
      within (off + length head) p v rest inside behind in
    read_cell_found p off n (length head) ((off + length head) + n) v
      (rw (get_or-drop off p, h) (not_null n (v ++ rest)))
      (read_len_enc_int-put_len_enc_int p off n (v ++ rest) hp (omega arith) h)
      (read_value-append p (off + length head) v rest hp inside behind)

read_row_end :
    (fuel : ℕ) (p : Bytes) (off : ℕ) → length p ≤ off → read_row fuel p off ≡ ok (some [])
unfolding read_row
read_row_end zero p off h = rw (le→leb (length p) off h) refl
read_row_end (suc fuel) p off h = rw (le→leb (length p) off h, read_row) refl

read_row_cell :
    (fuel : ℕ) (p : Bytes) (off off' : ℕ) (v : Option Bytes) (row : Row)
    → off < length p
    → read_cell p off ≡ ok (some (v, off'))
    → read_row fuel p off' ≡ ok (some row)
    → read_row (suc fuel) p off ≡ ok (some (v ∷ row))
unfolding read_row
read_row_cell fuel p off off' v row h hc hr =
    rw (lt→leb_false (length p) off h, read_row) (rw (hc, hr, read_row) refl)

read_row-encode_row :
    (fuel : ℕ) (p : Bytes) (off : ℕ) (row : Row)
    → length p < 2 ^ 63
    → off ≤ length p
    → length row ≤ fuel
    → drop off p ≡ encode_row row
    → read_row fuel p off ≡ ok (some row)
unfolding encode_row
read_row-encode_row fuel p off [] hp ho hf h =
    read_row_end fuel p off (omega (arith, length-drop off p, ap length h))
read_row-encode_row zero p off (v ∷ row) hp ho hf h = absurd (omega arith)
read_row-encode_row (suc fuel) p off (none ∷ row) hp ho hf h =
    let inside : off + 1 ≤ length p = within off p (null_cell ∷ []) (encode_row row) ho h in
    read_row_cell fuel p off (off + 1) none row (omega arith)
      (read_cell_null p off (encode_row row) h)
      (read_row-encode_row fuel p (off + 1) row hp inside (omega arith)
        (drop_behind off p (null_cell ∷ []) (encode_row row) h))
read_row-encode_row (suc fuel) p off (some v ∷ row) hp ho hf h =
    let head : Bytes = put_len_enc_int (length v) in
    let tail : Bytes = encode_row row in
    let behind : drop (off + length head) p ≡ v ++ tail = drop_behind off p head (v ++ tail) h in
    let inside : off + length head ≤ length p = within off p head (v ++ tail) ho h in
    read_row_cell fuel p off ((off + length head) + length v) (some v) row
      (omega (arith, length-put_len_enc_int-pos (length v))) (read_cell_value p off v tail hp ho h)
      (read_row-encode_row fuel p ((off + length head) + length v) row hp
        (within (off + length head) p v tail inside behind) (omega arith)
        (drop_behind (off + length head) p v tail behind))

length-encode_row : (row : Row) → length row ≤ length (encode_row row)
unfolding encode_row
length-encode_row [] = omega arith
length-encode_row (none ∷ row) = omega (arith, length-encode_row row)
length-encode_row (some v ∷ row) = omega (
  arith,
  length-encode_row row,
  length-put_len_enc_int-pos (length v),
  length-append (put_len_enc_int (length v)) (v ++ encode_row row),
  length-append v (encode_row row),
)

-- A row that was encoded is read back cell by cell, NULLs and empty values told apart, if its bytes
-- have the length of an int: the rounds of the loop that the payload's length allows are enough.
pub read_row-encode_row_all :
    (row : Row)
    → length (encode_row row) < 2 ^ 63
    → read_row (length (encode_row row)) (encode_row row) 0 ≡ ok (some row)
read_row-encode_row_all row h =
    read_row-encode_row (length (encode_row row)) (encode_row row) 0 row h (omega arith)
      (length-encode_row row) refl
