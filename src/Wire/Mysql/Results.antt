-- ===== src/Wire/Mysql/Results.antt =====
-- internal/wire/mysql/mysql.go: the server-to-client direction. The bytes still to come from the
-- server are the input, the bytes handed to the client's buffered writer the output; flushes are not
-- modelled, and writes to the client succeed.
pub mod Ending
pub mod Masking
use skybridge.Prelude.{
  ℕ, zero, suc, ◌*◌, ◌^◌, Bool, true, false, ◌||◌, Option, none, some, List, [], ◌∷◌, ◌++◌, ltb,
  ◌==◌, if◌then◌else◌, has_bit, Bytes, length, ok, err,
}
use skybridge.Prelude.Reader.{ReadError}
use skybridge.Mask.{Column, Masker}
use skybridge.Wire.Mysql.Packet.{Packet, read_packet, write_packet, max_packet}
use skybridge.Wire.Mysql.LenEnc.{Run, column_name, read_len_enc_int}
use skybridge.Wire.Mysql.Rows.{is_terminator, result_status, mask_text_row}

abbrev pub com_query : ℕ
com_query = 0x03

abbrev pub cap_client_ssl : ℕ
cap_client_ssl = 11

abbrev pub cap_client_protocol41 : ℕ
cap_client_protocol41 = 9

abbrev pub cap_client_deprecate_eof : ℕ
cap_client_deprecate_eof = 24

-- How the handling of a response ended: another result set follows, the response is complete, the
-- connection failed, or the process panicked. `out_of_fuel` is no outcome of the source.
pub data Ended : Type 0 where
  more complete : Ended
  failed : ReadError → Ended
  crashed out_of_fuel : Ended

-- The output, the input that is left, and the ending.
pub record Progress : Type 0 where
  pub written : Bytes
  pub unread : Bytes
  pub ended : Ended

abbrev pub behind : Bytes → Progress → Progress
behind bytes p = record p { written = bytes ++ p.written }

abbrev pub stop : Bytes → Bytes → Ended → Progress
stop out bs e = record { written = out; unread = bs; ended = e }

abbrev pub echo : Packet → Bytes
echo p = write_packet p.seq p.payload

-- `forwardRest`: everything up to the end of the connection.
unfoldable pub forward_rest : Bytes → Progress
forward_rest bs = stop bs [] complete

-- A masked row that would need several packets is not used.
unfoldable pub row_payload : Bytes → Option Bytes → Bytes
row_payload payload none = payload
row_payload payload (some masked) = if ltb (length masked) max_packet then masked else payload

end_of_set : Packet → Bytes → Run ℕ → Progress
end_of_set p rest (err x) = stop [] rest crashed
end_of_set p rest (ok status) = stop (echo p) rest (if has_bit 3 status then more else complete)

-- One packet of the rows, and `later` on what follows a row.
row_packet : Bool → List Column → Masker → Packet → Bytes → Progress → Progress
unfolding end_of_set row_payload forward_rest mask_text_row is_terminator result_status
row_packet deprecate_eof cols masker p rest later =
    if p.full
    then behind (echo p) (forward_rest rest)
    else if is_terminator p.payload deprecate_eof
    then end_of_set p rest (result_status p.payload deprecate_eof)
    else elim (mask_text_row p.payload cols masker) [
      | err x ↦ stop [] rest crashed
      | ok masked ↦ behind (write_packet p.seq (row_payload p.payload masked)) later
    ]

-- Rows until the terminator. A round reads four bytes at least.
unfoldable pub rows_loop : ℕ → Bool → List Column → Masker → Bytes → Progress
unfolding row_packet read_packet
rows_loop zero deprecate_eof cols masker bs = stop [] bs out_of_fuel
rows_loop (suc fuel) deprecate_eof cols masker bs = elim (read_packet bs) [
  | err e ↦ stop [] bs (failed e)
  | ok (p, rest) ↦
      let later = rows_loop fuel deprecate_eof cols masker rest in
      row_packet deprecate_eof cols masker p rest later
]

-- Clients without DEPRECATE_EOF get an EOF packet between the columns and the rows.
unfoldable pub skip_eof : Bool → List Column → Masker → Bytes → Progress
unfolding rows_loop read_packet
skip_eof true cols masker bs = rows_loop (suc (length bs)) true cols masker bs
skip_eof false cols masker bs = elim (read_packet bs) [
  | err e ↦ stop [] bs (failed e)
  | ok (p, rest) ↦ behind (echo p) (rows_loop (suc (length rest)) false cols masker rest)
]

-- The column definitions still to be read, and then the rows.
unfoldable pub columns_loop : ℕ → Bool → List Column → Masker → Bytes → Progress
unfolding skip_eof column_name read_packet
columns_loop zero deprecate_eof cols masker bs = skip_eof deprecate_eof cols masker bs
columns_loop (suc n) deprecate_eof cols masker bs = elim (read_packet bs) [
  | err e ↦ stop [] bs (failed e)
  | ok (p, rest) ↦ elim p.full [
    | true ↦ behind (echo p) (forward_rest rest)
    | false ↦ elim (column_name p.payload) [
      | err x ↦ stop [] rest crashed
      | ok name ↦
          let later =
            columns_loop n deprecate_eof (cols ++ (record { name = name; is_text = true } ∷ []))
              masker rest in
          behind (echo p) later
    ]
  ]
]

-- OK, ERR, a request for a local file, or an empty packet: no result set.
abbrev pub is_plain_reply : Bytes → Bool
is_plain_reply [] = true
is_plain_reply (b ∷ p) = b == 0x00 || b == 0xFF || b == 0xFB

-- Go's limit on one allocation; a column takes 24 bytes.
abbrev pub max_alloc : ℕ
max_alloc = 2 ^ 48

by_count : Bool → Masker → Packet → Bytes → Run (Option (ℕ × ℕ)) → Progress
unfolding columns_loop
by_count deprecate_eof masker p rest (err x) = stop [] rest crashed
by_count deprecate_eof masker p rest (ok none) = stop (echo p) rest complete
by_count deprecate_eof masker p rest (ok (some (count, n))) =
    if ltb max_alloc (24 * count)
    then stop (echo p) rest crashed
    else behind (echo p) (columns_loop count deprecate_eof [] masker rest)

-- `handleOneResultSet`, on its first packet.
unfoldable pub one_result_set : Bool → Masker → Packet → Bytes → Progress
unfolding by_count read_len_enc_int
one_result_set deprecate_eof masker p rest =
    if is_plain_reply p.payload
    then stop (echo p) rest complete
    else by_count deprecate_eof masker p rest (read_len_enc_int p.payload 0)

-- `handleResultResponse`: one result set after the other while more are announced.
unfoldable pub result_response : ℕ → Bool → Masker → Packet → Bytes → Progress
unfolding one_result_set read_packet
result_response zero deprecate_eof masker p rest = stop [] rest out_of_fuel
result_response (suc fuel) deprecate_eof masker p rest =
    let first = one_result_set deprecate_eof masker p rest in
    elim first.ended [
      | more ↦ elim (read_packet first.unread) [
        | err e ↦ record first { ended = failed e }
        | ok (p', rest') ↦ behind first.written (result_response fuel deprecate_eof masker p' rest')
      ]
      | other ↦ first
    ]
