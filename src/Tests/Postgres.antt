-- ===== src/Tests/Postgres.antt =====
-- The theorems on the PostgreSQL proxy at concrete inputs.
mod Login
use skybridge.Prelude.{
  ◌≡◌, refl, ◌++◌, arith, none, some, List, [], ◌∷◌, Bytes, All, take, drop, ok, bytes_equal,
  cut_zero,
}
use skybridge.Prelude.Endian.{put_be, be_uint}
use skybridge.Prelude.Reader.{eof}
use skybridge.Prelude.Text.{codes, to_lower}
use skybridge.Mask.{Row, Column, noop, mask_cells}
use skybridge.Mask.Overlay.{Overlay, lookup, overlay}
use skybridge.Mask.Contract.{value, null, end, overlay-KeepsShape}
use skybridge.Mask
use skybridge.Mask.Secrecy.{IsCovered, AgreeUpTo}
use skybridge.Wire.Postgres.Rows.{read_cells, write_cells, encode_row, columns_for, mask_data_row}
use skybridge.Wire.Postgres.Rows.Codec.{CellFits, read_cells-write_cells}
use skybridge.Wire.Postgres.Rows.Masking.{
  read_cells-mask_data_row, mask_data_row-noop, mask_data_row-AgreeUpTo,
}
use skybridge.Wire.Postgres.Rows.Cells.{IsMasked, mask_data_row-IsMasked}
use skybridge.Wire.Postgres.Backend.{Message, read_failed, pipe_backend, handle_message}
use skybridge.Wire.Postgres.Backend.Framing.{
  MessageFits, write_messages, relay, pipe_backend-write_messages, types, types-relay,
}
use skybridge.Wire.Postgres.Backend
use skybridge.Wire.Postgres.Backend.Secrecy.{data_row, StreamsAgree, pipe_backend-StreamsAgree}
use skybridge.Prelude.{false, true, IsByte}
use skybridge.Wire.Postgres.Startup.{is_negotiation, negotiate}
use skybridge.Wire.Postgres.Startup.Declined.{requests, negotiate-requests}
use skybridge.Tests.{are_bytes, are_bytes-IsByte, ascii, name_column, email_column}

abbrev emails : Overlay
emails = record { rules = (codes "email", codes "***") ∷ [] }

email_rule : lookup (to_lower ascii (codes "Email")) emails.rules ≡ some (codes "***")
unfolding lookup to_lower bytes_equal
email_rule = refl

email-IsCovered : IsCovered ascii emails email_column
email-IsCovered = record { is_text = refl; token = codes "***"; rule = email_rule }

abbrev columns : List Column
columns = name_column ∷ email_column ∷ []

abbrev bob : Row
bob = none ∷ some (codes "b@y") ∷ []

abbrev ann : Row
ann = none ∷ some (codes "ann@x") ∷ []

abbrev hidden_row : Row
hidden_row = none ∷ some (codes "***") ∷ []

ann_fits : All CellFits ann
ann_fits = (tt, (omega arith, tt))

bob_fits : All CellFits bob
bob_fits = (tt, (omega arith, tt))

hidden_row_fits : All CellFits hidden_row
hidden_row_fits = (tt, (omega arith, tt))

same_columns : columns_for 2 columns ≡ columns
unfolding columns_for
same_columns = refl

agree : AgreeUpTo ascii emails (columns_for 2 columns) ann bob
unfolding columns_for
agree =
    Mask.Secrecy.same none
      (Mask.Secrecy.hidden (codes "ann@x") (codes "b@y") email-IsCovered Mask.Secrecy.end)

masked : overlay ascii emails (columns_for 2 columns) ann ≡ (hidden_row, none)
unfolding columns_for overlay lookup to_lower bytes_equal
masked = refl

-- One cell "ann@x" of a column that is covered.
abbrev payload : Bytes
payload = 0 ∷ 1 ∷ 0 ∷ 0 ∷ 0 ∷ 5 ∷ codes "ann@x"

abbrev answer : Bytes
answer = 0 ∷ 1 ∷ 0 ∷ 0 ∷ 0 ∷ 3 ∷ codes "***"

mask_payload : mask_data_row payload (email_column ∷ []) (overlay ascii emails) ≡ ok answer
unfolding mask_data_row overlay lookup to_lower bytes_equal put_be be_uint
mask_payload = refl

payload_bytes : All IsByte payload
unfolding are_bytes
payload_bytes = are_bytes-IsByte payload refl

mask_data_row-IsMasked_example : IsMasked payload (email_column ∷ []) (overlay ascii emails) answer
mask_data_row-IsMasked_example =
    mask_data_row-IsMasked payload (email_column ∷ []) (overlay ascii emails) answer
      (overlay-KeepsShape ascii emails) payload_bytes (omega arith) (omega arith) mask_payload

abbrev ready : Message
ready = record { typ = b'Z'; payload = codes "I" }

ann-MessageFits : MessageFits (data_row 2 ann)
unfolding encode_row put_be
ann-MessageFits = omega arith

pipe_backend-write_messages_example :
    pipe_backend (overlay ascii emails) (write_messages (ready ∷ data_row 2 ann ∷ [])) ≡ (
      write_messages (relay [] (overlay ascii emails) (ready ∷ data_row 2 ann ∷ [])),
      some (read_failed eof),
    )
pipe_backend-write_messages_example =
    pipe_backend-write_messages (overlay ascii emails) (ready ∷ data_row 2 ann ∷ [])
      (omega arith, (ann-MessageFits, tt))

-- A description of one text column "Email".
abbrev description : Message
description = record {
  typ = b'T';
  payload =
      0 ∷ 1 ∷ codes "Email"
      ++ (0 ∷ 0 ∷ 0 ∷ 0 ∷ 0 ∷ 0 ∷ 0 ∷ 0 ∷ 0 ∷ 0 ∷ 25 ∷ 0 ∷ 0 ∷ 0 ∷ 0 ∷ 0 ∷ 0 ∷ 0 ∷ 0 ∷ []);
}

abbrev from_server : Bytes → List Message
from_server email = description ∷ data_row 1 (some email ∷ []) ∷ []

fits_ann : All MessageFits (from_server (codes "ann@x"))
unfolding encode_row put_be
fits_ann = (omega arith, (omega arith, tt))

fits_bob : All MessageFits (from_server (codes "b@y"))
unfolding encode_row put_be
fits_bob = (omega arith, (omega arith, tt))

streams_agree :
    StreamsAgree ascii emails [] (from_server (codes "ann@x")) (from_server (codes "b@y"))
unfolding columns_for handle_message cut_zero be_uint
streams_agree = Backend.Secrecy.same description (
    Backend.Secrecy.rows 1 (some (codes "ann@x") ∷ []) (some (codes "b@y") ∷ []) (omega arith) refl
      refl (omega arith, tt) (omega arith, tt)
      (Mask.Secrecy.hidden (codes "ann@x") (codes "b@y") email-IsCovered Mask.Secrecy.end)
      Backend.Secrecy.end)

pipe_backend-StreamsAgree_example :
    pipe_backend (overlay ascii emails) (write_messages (from_server (codes "ann@x")))
    ≡ pipe_backend (overlay ascii emails) (write_messages (from_server (codes "b@y")))
pipe_backend-StreamsAgree_example =
    pipe_backend-StreamsAgree ascii emails (from_server (codes "ann@x")) (from_server (codes "b@y"))
      fits_ann fits_bob streams_agree
