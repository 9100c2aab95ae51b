-- ===== src/Wire/Mysql/Commands/Verbatim.antt =====
-- internal/wire/mysql/mysql.go: `clientToServer` on a stream of whole packets.
use skybridge.Prelude.{
  ℕ, zero, suc, ◌+◌, ◌%◌, ◌<◌, ◌≤◌, ◌≡◌, refl, ap, ◌∙◌, arith, not, ◌&&◌, if◌then◌else◌, min, some,
  List, [], ◌∷◌, ◌++◌, ◌==◌, Bytes, All, length, ok, err, length-append,
}
use skybridge.Prelude.Endian.{put_le}
use skybridge.Prelude.Reader.{ReadError, eof, read_full}
use skybridge.Wire.Mysql.Packet.{Packet, read_packet, write_packet, max_packet}
use skybridge.Wire.Mysql.Packet.RoundTrip.{read_packet-write_packet}
use skybridge.Wire.Mysql.Commands.{starts_query, note_query, Forwarded, forward, client_to_server}

-- A sequence number and a payload of the lengths that a packet has room for.
abbrev pub Fits : ℕ × Bytes → Type 0
Fits (seq, payload) = (seq < 256) × (length payload ≤ max_packet)

abbrev pub packet_of : ℕ × Bytes → Packet
packet_of (seq, payload) = record {
  seq = seq;
  payload = payload;
  full = length payload == max_packet;
}

abbrev pub write_packets : List (ℕ × Bytes) → Bytes
write_packets [] = []
write_packets ((seq, payload) ∷ ps) = write_packet seq payload ++ write_packets ps

-- The queries noted over a stream.
abbrev pub note_queries : List (ℕ × Bytes) → ℕ → ℕ
note_queries [] queries = queries
note_queries (p ∷ ps) queries = note_queries ps (note_query (packet_of p) queries)

pub read_packet-nil : read_packet [] ≡ err eof
unfolding read_packet read_full
read_packet-nil = refl

forward_end :
    (fuel offset queries : ℕ) (bs : Bytes) (e : ReadError)
    → read_packet bs ≡ err e
    → forward (suc fuel) offset queries bs
      ≡ record { written = []; queries = queries; ended = some e }
unfolding forward
forward_end fuel offset queries bs e h = rw (h, forward)

abbrev prepend : Bytes → Forwarded → Forwarded
prepend bs r = record r { written = bs ++ r.written }

forward_step :
    (fuel offset queries : ℕ) (bs : Bytes) (p : Packet) (rest : Bytes)
    → read_packet bs ≡ ok (p, rest)
    → forward (suc fuel) offset queries bs
      ≡ prepend
          (write_packet ((p.seq + offset) % 256) p.payload)
          (forward fuel offset (note_query p queries) rest)
unfolding forward
forward_step fuel offset queries bs p rest h = rw (h, forward)

forward-write_packets :
    (fuel queries : ℕ) (ps : List (ℕ × Bytes))
    → length ps < fuel
    → All Fits ps
    → forward fuel 0 queries (write_packets ps)
      ≡ record { written = write_packets ps; queries = note_queries ps queries; ended = some eof }
forward-write_packets zero queries ps l h = absurd (omega arith)
forward-write_packets (suc fuel) queries [] l h = forward_end fuel 0 queries [] eof read_packet-nil
forward-write_packets (suc fuel) queries ((seq, payload) ∷ ps) l ((hs, hp), h) =
    forward_step fuel 0 queries (write_packet seq payload ++ write_packets ps)
      (packet_of (seq, payload)) (write_packets ps)
      (read_packet-write_packet seq payload (write_packets ps) hp)
    ∙ ap
        (λ n.
          prepend (write_packet n payload)
            (forward fuel 0 (note_query (packet_of (seq, payload)) queries) (write_packets ps)))
        (omega arith)
    ∙ ap (prepend (write_packet seq payload)) (
        forward-write_packets fuel (note_query (packet_of (seq, payload)) queries) ps (omega arith)
          h)

pub length-write_packets : (ps : List (ℕ × Bytes)) → length ps ≤ length (write_packets ps)
unfolding write_packet put_le
length-write_packets [] = omega arith
length-write_packets ((seq, payload) ∷ ps) =
    omega (arith, length-append payload (write_packets ps), length-write_packets ps)

-- The packets that are a command of type 3, COM_QUERY: the first packet of a command, shorter than the
-- longest packet, with a first byte of 3.
abbrev pub count_queries : List (ℕ × Bytes) → ℕ
count_queries [] = 0
count_queries ((seq, []) ∷ ps) = count_queries ps
count_queries ((seq, b ∷ sql) ∷ ps) =
    (if seq == 0 && b == 3 && not (length (b ∷ sql) == 0xFFFFFF) then 1 else 0) + count_queries ps

note_queries-count :
    (ps : List (ℕ × Bytes)) (n : ℕ) → n ≤ 64 → note_queries ps n ≡ min 64 (n + count_queries ps)
unfolding note_query starts_query
note_queries-count [] n h = ground arith
note_queries-count ((seq, []) ∷ ps) n h = ground (arith, note_queries-count ps n h)
note_queries-count ((seq, b ∷ sql) ∷ ps) n h =
    ground (arith, note_queries-count ps n h, note_queries-count ps (n + 1))

-- Behind the connection phase, where sequence numbers are not shifted, the client's packets reach the
-- server byte for byte, whatever their number and their payloads, and the queries that are noted are
-- as many as there are packets among them that are queries, but 64 at most while the other direction
-- takes none.
pub client_to_server-write_packets :
    (ps : List (ℕ × Bytes))
    → All Fits ps
    → client_to_server 0 (write_packets ps)
      ≡ record { written = write_packets ps; queries = min 64 (count_queries ps); ended = some eof }
unfolding client_to_server
client_to_server-write_packets ps h =
    forward-write_packets (suc (length (write_packets ps))) 0 ps
      (omega (arith, length-write_packets ps)) h
    ∙ ap (λ n. record { written = write_packets ps; queries = n; ended = some eof })
        (note_queries-count ps 0 (omega arith) ∙ ap (min 64) (omega arith))
