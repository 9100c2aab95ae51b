-- ===== src/Wire/Mysql/LenEnc/RoundTrip.antt =====
-- internal/wire/mysql/mysql.go: `appendLenEncInt` and `readLenEncInt`.
use skybridge.Prelude.{
  ℕ, ◌^◌, ◌<◌, ◌≤◌, ◌≡◌, refl, ap, ◌∙◌, arith, some, [], ◌∷◌, ◌++◌, Bytes, length, take, drop,
  get_or, zero, suc, ok, length-append, take-append_of, lt→leb_false, length-drop,
}
use skybridge.Prelude.Endian.{put_le, le_uint, le_uint-put_le, length-put_le}
use skybridge.Wire.Mysql.LenEnc.{len_enc_at, read_len_enc_int, put_len_enc_int}

-- The value behind a marker byte, in `w` bytes.
value_of : (w v : ℕ) (rest : Bytes) → v < 256 ^ w → le_uint (take w (put_le w v ++ rest)) ≡ v
value_of w v rest h =
    ap le_uint (take-append_of w (put_le w v) rest (length-put_le w v)) ∙ le_uint-put_le w v h

room : (w v : ℕ) (rest : Bytes) → w ≤ length (put_le w v ++ rest)
room w v rest = omega (arith, length-append (put_le w v) rest, length-put_le w v)

-- What the first byte of the encoding of `v` decodes to.
len_enc_at-put :
    (v : ℕ) (rest : Bytes)
    → v < 2 ^ 64
    → len_enc_at (get_or (put_len_enc_int v) 0 0) (put_len_enc_int v ++ rest)
      ≡ some (v, length (put_len_enc_int v))
unfolding len_enc_at put_len_enc_int
len_enc_at-put v rest h = ground (
  arith,
  value_of 2 v rest,
  room 2 v rest,
  value_of 3 v rest,
  room 3 v rest,
  value_of 8 v rest,
  room 8 v rest,
  length-put_le 2 v,
  length-put_le 3 v,
  length-put_le 8 v,
)

get_or-drop : (off : ℕ) (p : Bytes) → get_or p off 0 ≡ get_or (drop off p) 0 0
get_or-drop zero p = refl
get_or-drop (suc off) [] = refl
get_or-drop (suc off) (b ∷ p) = get_or-drop off p

get_or-append : (xs ys : Bytes) → 0 < length xs → get_or (xs ++ ys) 0 0 ≡ get_or xs 0 0
get_or-append [] ys h = absurd (omega arith)
get_or-append (x ∷ xs) ys h = refl

pub length-put_len_enc_int-pos : (v : ℕ) → 0 < length (put_len_enc_int v)
unfolding put_len_enc_int
length-put_len_enc_int-pos v = ground arith

-- Every uint64 is read back from its encoding, at any offset of an int's size, with the number of
-- bytes that the encoding takes.
pub read_len_enc_int-put_len_enc_int :
    (p : Bytes) (off v : ℕ) (rest : Bytes)
    → length p < 2 ^ 63
    → v < 2 ^ 64
    → drop off p ≡ put_len_enc_int v ++ rest
    → read_len_enc_int p off ≡ ok (some (v, length (put_len_enc_int v)))
unfolding read_len_enc_int
read_len_enc_int-put_len_enc_int p off v rest hp hv h =
    let shorter : off < length p = omega (
      arith,
      length-drop off p,
      ap length h,
      length-append (put_len_enc_int v) rest,
      length-put_len_enc_int-pos v,
    ) in
    rw
      (
        lt→leb_false (2 ^ 63) off (omega arith),
        lt→leb_false (length p) off shorter,
        get_or-drop off p,
        h,
        get_or-append (put_len_enc_int v) rest (length-put_len_enc_int-pos v),
      )
      (ap (λ r. ok r) (len_enc_at-put v rest hv))
