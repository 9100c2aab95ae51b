-- ===== src/Wire/Mongo/Server.antt =====
-- internal/wire/mongo/mongo.go: the loop of the server-to-client direction.
pub mod Framing
use skybridge.Prelude.{ℕ, zero, suc, Option, none, some, [], ◌++◌, Bytes, length, ok, err}
use skybridge.Mask.{Masker}
use skybridge.Wire.Mongo.Message.{MongoError, read_message, transform_message}

-- The bytes written to the client, and the error that ended the loop (`none`: the fuel ran out). Each
-- round reads 16 bytes at least, so one more than the input's length is enough.
unfoldable pub serve : ℕ → Masker → Bytes → Bytes × Option MongoError
unfolding read_message transform_message
serve zero masker bs = ([], none)
serve (suc fuel) masker bs = elim (read_message bs) [
  | err e ↦ ([], some e)
  | ok (msg, rest) ↦
      let (out, e) = serve fuel masker rest in (transform_message masker msg ++ out, e)
]

unfoldable pub mask_server : Masker → Bytes → Bytes × Option MongoError
unfolding serve
mask_server masker bs = serve (suc (length bs)) masker bs
