-- ===== src/Wire/Mysql/Packet/RoundTrip.antt =====
-- internal/wire/mysql/mysql.go: a packet that was written is read back.
use skybridge.Prelude.{
  ℕ, ◌≤◌, ◌≡◌, refl, ap, ◌∙◌, arith, ◌==◌, [], ◌∷◌, ◌++◌, Bytes, length, take, get_or, ok,
  take-append_of,
}
use skybridge.Prelude.Endian.{put_le, le_uint, le_uint-put_le, length-put_le}
use skybridge.Prelude.Reader.{read_full-append}
use skybridge.Wire.Mysql.Packet.{read_payload, read_packet, write_packet, max_packet}

abbrev header : ℕ → ℕ → Bytes
header n seq = put_le 3 n ++ (seq ∷ [])

seq_of_header : (n seq : ℕ) → get_or (header n seq) 3 0 ≡ seq
unfolding put_le
seq_of_header n seq = refl

length-header : (n seq : ℕ) → length (header n seq) ≡ 4
unfolding put_le
length-header n seq = refl

write_packet_splits :
    (seq : ℕ) (payload rest : Bytes)
    → write_packet seq payload ++ rest ≡ header (length payload) seq ++ (payload ++ rest)
unfolding write_packet put_le
write_packet_splits seq payload rest = refl

size_of_header : (n seq : ℕ) → n ≤ max_packet → le_uint (take 3 (header n seq)) ≡ n
size_of_header n seq h =
    ap le_uint (take-append_of 3 (put_le 3 n) (seq ∷ []) (length-put_le 3 n))
    ∙ le_uint-put_le 3 n (omega arith)

read_payload-header :
    (seq : ℕ) (payload rest : Bytes)
    → length payload ≤ max_packet
    → read_payload (header (length payload) seq) (payload ++ rest)
      ≡ ok (record { seq = seq; payload = payload; full = length payload == max_packet }, rest)
unfolding read_payload
read_payload-header seq payload rest h =
    rw
      (
        size_of_header (length payload) seq h,
        read_full-append (length payload) payload rest refl,
        seq_of_header (length payload) seq,
      )
      refl

-- Every payload of at most 16 MiB - 1 bytes is read back with its sequence number, whatever follows
-- it, and the packet counts as full exactly if the payload has the largest length.
pub read_packet-write_packet :
    (seq : ℕ) (payload rest : Bytes)
    → length payload ≤ max_packet
    → read_packet (write_packet seq payload ++ rest)
      ≡ ok (record { seq = seq; payload = payload; full = length payload == max_packet }, rest)
unfolding read_packet
read_packet-write_packet seq payload rest h =
    rw
      (
        write_packet_splits seq payload rest,
        read_full-append 4 (header (length payload) seq) (payload ++ rest)
            (length-header (length payload) seq),
      )
      (read_payload-header seq payload rest h)
