-- ===== src/Wire/Mysql/Rows.antt =====
-- internal/wire/mysql/mysql.go: rows of the text protocol, and the packets that end them.
pub mod Codec
pub mod Crash
pub mod Masking
use skybridge.Prelude.{
  ℕ, zero, suc, ◌+◌, ◌-◌, ◌*◌, ◌%◌, ◌^◌, Bool, true, false, not, ◌&&◌, ◌||◌, Option, none, some,
  List, [], ◌∷◌, ◌++◌, ltb, leb, ◌==◌, if◌then◌else◌, Bytes, length, take, drop, get_or, Result, ok,
  err, ◌>>=◌,
}
use skybridge.Prelude.Endian.{le_uint}
use skybridge.Mask.{Column, Row, Masker}
use skybridge.Wire.Mysql.LenEnc.{
  Run, out_of_range, add_int, is_negative, exceeds, read_len_enc_int, put_len_enc_int,
}

abbrev pub pkt_eof : ℕ
pkt_eof = 0xFE

abbrev pub null_cell : ℕ
null_cell = 0xFB

unfoldable pub is_terminator : Bytes → Bool → Bool
is_terminator [] deprecate_eof = false
is_terminator (b ∷ p) deprecate_eof = b == pkt_eof && (deprecate_eof || ltb (length (b ∷ p)) 9)

uint16_at : Bytes → ℕ → ℕ
uint16_at p off = if ltb (length p) (off + 2) then 0 else le_uint (take 2 (drop off p))

behind : ℕ → Option (ℕ × ℕ) → Option ℕ
behind off none = none
behind off (some (v, n)) = some (off + n)

skip_int : Bytes → Option ℕ → Run (Option ℕ)
unfolding read_len_enc_int behind
skip_int p none = ok none
skip_int p (some off) = do r ← read_len_enc_int p off; ok (behind off r)

status_at : Bytes → Option ℕ → ℕ
unfolding uint16_at
status_at p none = 0
status_at p (some off) = uint16_at p off

-- The status flags of an EOF packet, or of an OK packet behind two integers.
unfoldable pub result_status : Bytes → Bool → Run ℕ
unfolding skip_int status_at uint16_at
result_status p deprecate_eof =
    if not (get_or p 0 0 == pkt_eof)
    then ok 0
    else if not deprecate_eof
    then ok (uint16_at p 3)
    else (do a ← skip_int p (some 1); b ← skip_int p a; ok (status_at p b))

-- One value behind its length `l`, from offset `off` on: `make([]byte, l)` panics on a length that
-- is out of range, which the test before it lets through if the sum is negative or wrapped.
unfoldable pub read_value : Bytes → ℕ → ℕ → Run (Option (Bytes × ℕ))
read_value p off l =
    if exceeds (add_int off l) (length p)
    then ok none
    else if is_negative (add_int off l) || is_negative l
    then err out_of_range
    else ok (some (take l (drop off p), off + l))

value_behind : Bytes → ℕ → Option (ℕ × ℕ) → Run (Option (Bytes × ℕ))
unfolding read_value
value_behind p off none = ok none
value_behind p off (some (l, n)) = read_value p (off + n) l

-- The cell at `off` and the offset behind it.
unfoldable pub read_cell : Bytes → ℕ → Run (Option (Option Bytes × ℕ))
unfolding read_len_enc_int value_behind
read_cell p off = if get_or p off 0 == null_cell then ok (some (none, off + 1)) else (do
  r ← read_len_enc_int p off
  v ← value_behind p off r
  ok (elim v [ none ↦ none | some (bytes, off') ↦ some (some bytes, off') ]))

-- The loop over the payload. A round takes a byte at least, so the payload's length is enough fuel.
unfoldable pub read_row : ℕ → Bytes → ℕ → Run (Option Row)
unfolding read_cell
read_row zero p off = ok (if leb (length p) off then some [] else none)
read_row (suc fuel) p off = elim (leb (length p) off) [
  | true ↦ ok (some [])
  | false ↦ do
    r ← read_cell p off
    elim r [
      | none ↦ ok none
      | some (cell, off') ↦ do
        later ← read_row fuel p off'
        ok (elim later [ none ↦ none | some row ↦ some (cell ∷ row) ])
    ]
]

unfoldable pub columns_for : Row → List Column → List Column
columns_for [] cols = []
columns_for (v ∷ row) [] = record { name = []; is_text = true } ∷ columns_for row []
columns_for (v ∷ row) (c ∷ cols) = c ∷ columns_for row cols

unfoldable pub encode_row : Row → Bytes
unfolding put_len_enc_int
encode_row [] = []
encode_row (none ∷ row) = null_cell ∷ encode_row row
encode_row (some v ∷ row) = put_len_enc_int (length v) ++ (v ++ encode_row row)

unfoldable pub finish_row : Row → Row × Option Bytes → Option Bytes
unfolding encode_row
finish_row row (masked, some e) = none
finish_row row (masked, none) =
    if length masked == length row then some (encode_row masked) else none

mask_row : List Column → Masker → Option Row → Option Bytes
unfolding columns_for finish_row
mask_row cols masker none = none
mask_row cols masker (some row) = finish_row row (masker (columns_for row cols) row)

-- `none` is ok=false: the caller forwards the packet as it came.
unfoldable pub mask_text_row : Bytes → List Column → Masker → Run (Option Bytes)
unfolding read_row mask_row
mask_text_row payload cols masker = do
  row ← read_row (length payload) payload 0
  ok (mask_row cols masker row)
