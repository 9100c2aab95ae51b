-- ===== src/Wire/Mysql/LenEnc.antt =====
-- internal/wire/mysql/mysql.go: length-encoded integers and strings.
-- Lengths are uint64 and are added to int offsets after a conversion, so both may turn negative: an
-- int is its 64-bit pattern here, negative from 2 ^ 63 on.
pub mod RoundTrip
use skybridge.Prelude.{
  ℕ, zero, suc, ◌+◌, ◌-◌, ◌*◌, ◌%◌, ◌^◌, Bool, true, false, not, ◌&&◌, ◌||◌, Option, none, some,
  List, [], ◌∷◌, ◌++◌, ltb, leb, ◌==◌, if◌then◌else◌, Bytes, length, take, drop, get_or, Result, ok,
  err, ◌>>=◌,
}
use skybridge.Prelude.Endian.{put_le, le_uint}

-- An index or a length out of range stops the process.
pub data Panic : Type 0 where
  out_of_range : Panic

abbrev pub Run : Type 0 → Type 0
Run A = Result Panic A

-- The sum of two ints, and the tests `x < 0` and `x > n` for a length `n`.
abbrev pub add_int : ℕ → ℕ → ℕ
add_int a b = (a + b) % 2 ^ 64

abbrev pub is_negative : ℕ → Bool
is_negative x = leb (2 ^ 63) x

abbrev pub exceeds : ℕ → ℕ → Bool
exceeds x n = not (is_negative x) && ltb n x

-- By the first byte `b` of the bytes `p` from the offset on: the value and the bytes it takes.
unfoldable pub len_enc_at : ℕ → Bytes → Option (ℕ × ℕ)
len_enc_at b p =
    if ltb b 0xFB
    then some (b, 1)
    else if b == 0xFC
    then (if ltb (length p) 3 then none else some (le_uint (take 2 (drop 1 p)), 3))
    else if b == 0xFD
    then (if ltb (length p) 4 then none else some (le_uint (take 3 (drop 1 p)), 4))
    else if b == 0xFE
    then (if ltb (length p) 9 then none else some (le_uint (take 8 (drop 1 p)), 9))
    else none

unfoldable pub read_len_enc_int : Bytes → ℕ → Run (Option (ℕ × ℕ))
unfolding len_enc_at
read_len_enc_int p off =
    if is_negative off
    then err out_of_range
    else if leb (length p) off
    then ok none
    else ok (len_enc_at (get_or p off 0) (drop off p))

unfoldable pub put_len_enc_int : ℕ → Bytes
put_len_enc_int v =
    if ltb v 0xFB
    then v ∷ []
    else if leb v 0xFFFF
    then 0xFC ∷ put_le 2 v
    else if leb v 0xFFFFFF
    then 0xFD ∷ put_le 3 v
    else 0xFE ∷ put_le 8 v

span_of : Bytes → ℕ → Option (ℕ × ℕ) → Option ℕ
span_of p off none = none
span_of p off (some (l, n)) =
    if exceeds (add_int off (add_int n l)) (length p) then none else some (add_int n l)

unfoldable pub len_enc_str_span : Bytes → ℕ → Run (Option ℕ)
unfolding read_len_enc_int span_of
len_enc_str_span p off = do r ← read_len_enc_int p off; ok (span_of p off r)

-- The offset behind `k` strings.
unfoldable pub skip_strings : ℕ → Bytes → ℕ → Run (Option ℕ)
unfolding len_enc_str_span
skip_strings zero p off = ok (some off)
skip_strings (suc k) p off = do
  r ← len_enc_str_span p off
  elim r [ none ↦ ok none | some span ↦ skip_strings k p (add_int off span) ]

-- `string(p[off : off+int(l)])`
unfoldable pub slice_name : Bytes → ℕ → ℕ → Run Bytes
slice_name p off high =
    if exceeds high (length p)
    then ok []
    else if is_negative high || ltb high off
    then err out_of_range
    else ok (take (high - off) (drop off p))

name_at : Bytes → ℕ → Option (ℕ × ℕ) → Run Bytes
unfolding slice_name
name_at p off none = ok []
name_at p off (some (l, n)) = slice_name p (add_int off n) (add_int (add_int off n) l)

name_behind : Bytes → Option ℕ → Run Bytes
unfolding read_len_enc_int name_at
name_behind p none = ok []
name_behind p (some off) = do r ← read_len_enc_int p off; name_at p off r

-- The fifth string of a column definition, behind catalog, schema, table and org_table.
unfoldable pub column_name : Bytes → Run Bytes
unfolding skip_strings name_behind
column_name p = do r ← skip_strings 4 p 0; name_behind p r
