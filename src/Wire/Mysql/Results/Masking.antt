-- ===== src/Wire/Mysql/Results/Masking.antt =====
-- internal/wire/mysql/mysql.go: what the client of `handleOneResultSet` reads of a row.
use skybridge.Prelude.{
  ℕ, suc, ◌≡◌, refl, sym, ap, ◌∙◌, ◌<◌, ◌^◌, arith, Bool, false, true, none, some, List, [], ◌∷◌,
  ◌++◌, ltb, leb, ◌==◌, if◌then◌else◌, Bool-cases, inl, inr, le→leb, Bytes, length, length-append,
  ok,
}
use skybridge.Mask.{Column, Masker, Row}
use skybridge.Mask.Described.{described, described_nil, described_zero, described_cons}
use skybridge.Wire.Mysql.Packet.{write_packet, max_packet}
use skybridge.Wire.Mysql.Packet.RoundTrip.{read_packet-write_packet}
use skybridge.Wire.Mysql.LenEnc.{put_len_enc_int}
use skybridge.Wire.Mysql.Rows.{encode_row, columns_for, is_terminator, mask_text_row}
use skybridge.Wire.Mysql.Rows.Codec.{read_row-encode_row_all}
use skybridge.Wire.Mysql.Rows.Masking.{Shows, mask_text_row-encode_row_masked}
use skybridge.Wire.Mysql.Results.{behind, row_payload, row_packet, rows_loop}

columns_for-described :
    (row : Row) (cols : List Column) → columns_for row cols ≡ described (length row) cols
unfolding columns_for
columns_for-described [] cols = described_zero cols
columns_for-described (v ∷ row) [] =
    ap (record { name = []; is_text = true } ∷◌)
      (columns_for-described row [] ∙ sym (described_nil (length row)))
    ∙ described_nil (length (v ∷ row))
columns_for-described (v ∷ row) (c ∷ cols) =
    ap (c ∷◌) (columns_for-described row cols) ∙ described_cons (length row) c cols

length_continues :
    (v : ℕ) (rest : Bytes) (deprecate_eof : Bool)
    → v < max_packet
    → is_terminator (put_len_enc_int v ++ rest) deprecate_eof ≡ false
unfolding is_terminator put_len_enc_int
length_continues v rest deprecate_eof h = elim (Bool-cases (ltb v 0xFB)) [
  | inl e ↦ rw e (ground arith)
  | inr e ↦ rw e (elim (Bool-cases (leb v 0xFFFF)) [
    | inl e' ↦ rw e' refl
    | inr e' ↦ rw e' (rw (le→leb v 0xFFFFFF (omega arith)) refl)
  ])
]

-- No row of one packet is taken for the end of the rows.
row_continues :
    (row : Row) (deprecate_eof : Bool)
    → length (encode_row row) < max_packet
    → is_terminator (encode_row row) deprecate_eof ≡ false
unfolding encode_row
row_continues [] deprecate_eof h = unfold is_terminator in refl
row_continues (none ∷ row) deprecate_eof h = unfold is_terminator in refl
row_continues (some v ∷ row) deprecate_eof h =
    length_continues (length v) (v ++ encode_row row) deprecate_eof (
      omega (
        arith,
        length-append (put_len_enc_int (length v)) (v ++ encode_row row),
        length-append v (encode_row row),
      ))

row_packet-masked :
    (deprecate_eof : Bool) (cols : List Column) (masker : Masker) (seq : ℕ) (payload e : Bytes)
    (rest : Bytes)
    → is_terminator payload deprecate_eof ≡ false
    → mask_text_row payload cols masker ≡ ok (some e)
    → (later : _)
    → row_packet deprecate_eof cols masker
        (record { seq = seq; payload = payload; full = false })
        rest
        later
      ≡ behind (write_packet seq (row_payload payload (some e))) later
unfolding row_packet
row_packet-masked deprecate_eof cols masker seq payload e rest t m later =
    rw (t, row_packet) (rw (m, row_packet) refl)

-- What becomes of a row: the masker's answer, but the row as it came where the answer does not fit
-- into one packet.
pub sent : Row → Row → Row
sent row masked = if ltb (length (encode_row masked)) 0xFFFFFF then masked else row

row_payload-sent :
    (row masked : Row)
    → row_payload (encode_row row) (some (encode_row masked)) ≡ encode_row (sent row masked)
unfolding row_payload sent
row_payload-sent row masked = ground arith

sent_short :
    (row masked : Row)
    → length (encode_row row) < max_packet
    → length (encode_row (sent row masked)) < 2 ^ 63
unfolding sent
sent_short row masked h = ground (arith, h)

-- A row of one packet that the server sends among the rows of a result set, with whatever follows: if
-- the masker, which is told the columns of the result set, answers its cells with as many cells and no
-- error, the client is sent one packet with the same number, from which it reads exactly the masker's
-- cells if their row is shorter than the longest packet, and else the cells of the server, unmasked;
-- and the rows behind it are handled in the same way.
pub rows_loop-Shows :
    (row masked : Row) (cols : List Column) (masker : Masker) (deprecate_eof : Bool) (fuel seq : ℕ)
    (rest : Bytes)
    → length (encode_row row) < max_packet
    → masker (described (length row) cols) row ≡ (masked, none)
    → length masked ≡ length row
    → (e : Bytes) × (rows_loop
          (suc fuel)
          deprecate_eof
          cols
          masker
          (write_packet seq (encode_row row) ++ rest)
        ≡ behind (write_packet seq e) (rows_loop fuel deprecate_eof cols masker rest))
      × Shows e (sent row masked)
unfolding rows_loop
rows_loop-Shows row masked cols masker deprecate_eof fuel seq rest h m same = (
  encode_row (sent row masked),
  rw (read_packet-write_packet seq (encode_row row) rest (omega arith), rows_loop)
      (rw (==_lt h) (
        row_packet-masked deprecate_eof cols masker seq (encode_row row) (encode_row masked) rest
          (row_continues row deprecate_eof h)
          (mask_text_row-encode_row_masked row masked cols masker (omega arith)
            (ap (λ c. masker c row) (columns_for-described row cols) ∙ m) same)
          (rows_loop fuel deprecate_eof cols masker rest)
        ∙ ap (λ p. behind (write_packet seq p) (rows_loop fuel deprecate_eof cols masker rest))
            (row_payload-sent row masked))),
  read_row-encode_row_all (sent row masked) (sent_short row masked h),
)
  where
    ==_lt : {n : ℕ} → n < max_packet → (n == max_packet) ≡ false
    ==_lt {n} l = ground arith
