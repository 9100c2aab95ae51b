-- ===== src/Wire/Postgres/Backend.antt =====
-- internal/wire/postgres/postgres.go: the server-to-client direction.
-- `read_message` is one round of reading in `pipe_backend`. The writer is buffered in the source; the
-- output here is what is handed to it, in order, and the moments of its flushes are not modelled.
pub mod Framing
pub mod Secrecy
use skybridge.Prelude.{
  ℕ, zero, suc, ◌+◌, ◌-◌, Bool, true, false, Option, none, some, List, [], ◌∷◌, ◌++◌, ltb, ◌==◌,
  if◌then◌else◌, Bytes, length, get_or, drop, Result, ok, err, ◌>>=◌,
}
use skybridge.Prelude.Endian.{put_be, be_uint}
use skybridge.Prelude.Reader.{ReadError, read_full}
use skybridge.Mask.{Column, Masker}
use skybridge.Wire.Postgres.Rows.{PgError, protocol, parse_row_description, mask_data_row}

pub data PipeError : Type 0 where
  read_failed : ReadError → PipeError
  malformed : PipeError

pub record Message : Type 0 where
  pub typ : ℕ
  pub payload : Bytes

unfoldable pub read_exact : ℕ → Bytes → Result PipeError (Bytes × Bytes)
read_exact n bs = elim (read_full n bs) [ ok r ↦ ok r | err e ↦ err (read_failed e) ]

-- The payload of a message with this header.
unfoldable pub read_payload : Bytes → Bytes → Result PipeError (Message × Bytes)
unfolding read_exact
read_payload header rest =
    let len : ℕ = be_uint (drop 1 header) in
    if ltb len 4 then err malformed else (do
      (payload, rest') ← read_exact (len - 4) rest
      ok (record { typ = get_or header 0 0; payload = payload }, rest'))

unfoldable pub read_message : Bytes → Result PipeError (Message × Bytes)
unfolding read_payload read_exact
read_message bs = do (header, rest) ← read_exact 5 bs; read_payload header rest

-- The length field is a uint32 of the payload's length and its own four bytes.
unfoldable pub write_message : Message → Bytes
write_message m = m.typ ∷ (put_be 4 (length m.payload + 4) ++ m.payload)

-- A row that cannot be masked is forwarded as it came.
unfoldable pub mask_payload : List Column → Masker → Bytes → Bytes
unfolding mask_data_row
mask_payload cols masker payload = elim (mask_data_row payload cols masker) [
  | ok masked ↦ masked
  | err e ↦ payload
]

-- The switch on the message's type: the columns that hold from here on, and the message to forward.
unfoldable pub handle_message : List Column → Masker → Message → List Column × Message
unfolding mask_payload parse_row_description
handle_message cols masker m =
    if m.typ == b'T'
    then (parse_row_description m.payload, m)
    else if m.typ == b'D'
    then (cols, record m { payload = mask_payload cols masker m.payload })
    else (cols, m)

-- The loop of `pipeBackendReader`: the bytes written, and the error that ended it (`none`: the fuel
-- ran out). Each round reads five bytes at least, so one more than the input's length is enough.
unfoldable pub pipe_loop : ℕ → List Column → Masker → Bytes → Bytes × Option PipeError
unfolding read_message write_message handle_message
pipe_loop zero cols masker bs = ([], none)
pipe_loop (suc fuel) cols masker bs = elim (read_message bs) [
  | err e ↦ ([], some e)
  | ok (m, rest) ↦
      let (cols', m') = handle_message cols masker m in
      let (out, e) = pipe_loop fuel cols' masker rest in (write_message m' ++ out, e)
]

unfoldable pub pipe_backend : Masker → Bytes → Bytes × Option PipeError
unfolding pipe_loop
pipe_backend masker bs = pipe_loop (suc (length bs)) [] masker bs
