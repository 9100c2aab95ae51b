-- ===== src/Wire/Mysql/Packet.antt =====
-- internal/wire/mysql/mysql.go: packets.
pub mod RoundTrip
use skybridge.Prelude.{
  ℕ, ◌==◌, Bool, List, [], ◌∷◌, ◌++◌, Bytes, length, take, get_or, Result, ok, err, ◌>>=◌,
}
use skybridge.Prelude.Endian.{put_le, le_uint}
use skybridge.Prelude.Reader.{ReadError, read_full}

abbrev pub max_packet : ℕ
max_packet = 0xFFFFFF

pub record Packet : Type 0 where
  pub seq : ℕ
  pub payload : Bytes
  -- the payload has the largest length, so the logical packet goes on in the next one
  pub full : Bool

unfoldable pub read_payload : Bytes → Bytes → Result ReadError (Packet × Bytes)
read_payload hdr bs = do
  (payload, rest) ← read_full (le_uint (take 3 hdr)) bs
  ok (
    record { seq = get_or hdr 3 0; payload = payload; full = le_uint (take 3 hdr) == max_packet },
    rest,
  )

unfoldable pub read_packet : Bytes → Result ReadError (Packet × Bytes)
unfolding read_payload
read_packet bs = do (hdr, rest) ← read_full 4 bs; read_payload hdr rest

unfoldable pub write_packet : ℕ → Bytes → Bytes
write_packet seq payload = put_le 3 (length payload) ++ (seq ∷ payload)
