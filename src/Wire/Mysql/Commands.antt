-- ===== src/Wire/Mysql/Commands.antt =====
-- internal/wire/mysql/mysql.go: the client-to-server direction.
-- The offset is the one in force: it is one in the connection phase of a session whose server side
-- was put under TLS, and zero otherwise.
pub mod Verbatim
use skybridge.Prelude.{
  ℕ, zero, suc, ◌+◌, ◌%◌, Bool, false, not, ◌&&◌, Option, none, some, [], ◌∷◌, ◌++◌, ltb, ◌==◌,
  if◌then◌else◌, Bytes, length, ok, err,
}
use skybridge.Prelude.Reader.{ReadError}
use skybridge.Wire.Mysql.Packet.{Packet, read_packet, write_packet}
use skybridge.Wire.Mysql.Results.{com_query}

-- The capacity of the channel of queries.
abbrev pub queries_cap : ℕ
queries_cap = 64

unfoldable pub starts_query : Bytes → Bool
starts_query [] = false
starts_query (b ∷ payload) = b == com_query

abbrev pub is_query : Packet → Bool
is_query p = not p.full && p.seq == 0 && starts_query p.payload

-- The number of queries that the other direction has not taken yet; a full channel takes no more.
unfoldable pub note_query : Packet → ℕ → ℕ
unfolding starts_query
note_query p queries = if is_query p && ltb queries queries_cap then queries + 1 else queries

pub record Forwarded : Type 0 where
  pub written : Bytes
  pub queries : ℕ
  -- `none`: the fuel ran out
  pub ended : Option ReadError

-- Each round reads four bytes at least, so one more than the input's length is enough fuel.
unfoldable pub forward : ℕ → ℕ → ℕ → Bytes → Forwarded
unfolding read_packet note_query
forward zero offset queries bs = record { written = []; queries = queries; ended = none }
forward (suc fuel) offset queries bs = elim (read_packet bs) [
  | err e ↦ record { written = []; queries = queries; ended = some e }
  | ok (p, rest) ↦
      let later = forward fuel offset (note_query p queries) rest in
      record later { written = write_packet ((p.seq + offset) % 256) p.payload ++ later.written }
]

unfoldable pub client_to_server : ℕ → Bytes → Forwarded
unfolding forward
client_to_server offset bs = forward (suc (length bs)) offset 0 bs
