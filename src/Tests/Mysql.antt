-- ===== src/Tests/Mysql.antt =====
-- The theorems on the MySQL proxy at concrete inputs.
mod Auth
mod Relay
use skybridge.Prelude.{
  ◌≡◌, refl, ◌<◌, ◌++◌, ◌^◌, arith, false, none, some, List, [], ◌∷◌, Bytes, length, drop, ok, err,
  bytes_equal,
}
use skybridge.Prelude.Endian.{put_le}
use skybridge.Prelude.Text.{codes, to_lower}
use skybridge.Mask.{Row, Column, noop}
use skybridge.Mask.Overlay.{Overlay, lookup, overlay}
use skybridge.Wire.Mysql.Packet.{read_packet, write_packet}
use skybridge.Wire.Mysql.Packet.RoundTrip.{read_packet-write_packet}
use skybridge.Wire.Mysql.LenEnc.{out_of_range, put_len_enc_int, read_len_enc_int}
use skybridge.Wire.Mysql.LenEnc.RoundTrip.{read_len_enc_int-put_len_enc_int}
use skybridge.Wire.Mysql.Rows.{encode_row, read_row, columns_for, mask_text_row}
use skybridge.Wire.Mysql.Rows.Codec.{read_row-encode_row_all}
use skybridge.Mask.Described.{described}
use skybridge.Wire.Mysql.Rows.Masking.{Shows}
use skybridge.Wire.Mysql.Results.{behind, rows_loop}
use skybridge.Wire.Mysql.Results.Masking.{sent, rows_loop-Shows}
use skybridge.Wire.Mysql.Rows.Crash.{long_field, mask_text_row-long_field}
use skybridge.Prelude.{ℕ, min, true}
use skybridge.Prelude.Reader.{eof}
use skybridge.Wire.Mysql.Commands.{client_to_server, note_query}
use skybridge.Wire.Mysql.Commands.Verbatim.{
  write_packets, note_queries, count_queries, client_to_server-write_packets,
}
use skybridge.Tests.{ascii, name_column, email_column}

abbrev thousand : Bytes
thousand = 9 ∷ 0xFC ∷ 0xE8 ∷ 3 ∷ b'x' ∷ []

thousand_stands : drop 1 thousand ≡ put_len_enc_int 1000 ++ codes "x"
unfolding put_len_enc_int put_le
thousand_stands = refl

abbrev ann : Row
ann = none ∷ some (codes "ann@x") ∷ []

abbrev hidden_row : Row
hidden_row = none ∷ some (codes "***") ∷ []

ann_short : length (encode_row ann) < 0xFFFFFF
unfolding encode_row put_len_enc_int
ann_short = omega arith

-- The packet that ends the rows.
abbrev last : Bytes
last = write_packet 5 (0xFE ∷ 0 ∷ 0 ∷ 2 ∷ 0 ∷ [])

abbrev emails : Overlay
emails = record { rules = (codes "email", codes "***") ∷ [] }

abbrev columns : List Column
columns = name_column ∷ email_column ∷ []

masked : overlay ascii emails (described (length ann) columns) ann ≡ (hidden_row, none)
unfolding overlay lookup to_lower bytes_equal
masked = refl

rows_loop-Shows_example :
    (e : Bytes) × (rows_loop 2 true columns
        (overlay ascii emails)
        (write_packet 4 (encode_row ann) ++ last)
      ≡ behind (write_packet 4 e) (rows_loop 1 true columns (overlay ascii emails) last))
    × Shows e (sent ann hidden_row)
rows_loop-Shows_example =
    rows_loop-Shows ann hidden_row columns (overlay ascii emails) true 1 4 last ann_short masked
      refl

long_field_short : length (long_field (2 ^ 63) (codes "abc")) < 2 ^ 63
unfolding put_le
long_field_short = omega arith

-- The length 2^63 in front of three bytes.
mask_text_row-long_field_example :
    mask_text_row (long_field (2 ^ 63) (codes "abc")) columns noop ≡ err out_of_range
mask_text_row-long_field_example =
    mask_text_row-long_field (2 ^ 63) (codes "abc") columns noop (omega arith) (omega arith)
      long_field_short

-- A query, and the packet that closes the session.
abbrev commands : List (ℕ × Bytes)
commands = (0, 3 ∷ codes "SELECT 1") ∷ (0, 1 ∷ []) ∷ []

client_to_server-write_packets_example : client_to_server 0 (write_packets commands) ≡ record {
  written = write_packets commands;
  queries = min 64 (count_queries commands);
  ended = some eof;
}
client_to_server-write_packets_example =
    client_to_server-write_packets commands
      ((omega arith, omega arith), ((omega arith, omega arith), tt))

one_query : note_queries commands 0 ≡ 1
unfolding note_query
one_query = refl
