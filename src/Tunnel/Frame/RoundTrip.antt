-- ===== src/Tunnel/Frame/RoundTrip.antt =====
-- What `write_frame_to` puts on the connection is what `read_frame` takes off it.
use skybridge.Prelude.{
  ℕ, ◌<◌, ◌≤◌, ◌^◌, ◌≡◌, refl, ◌++◌, append_assoc, arith, ◌∙◌, ap, Bytes, length, take, drop, ok,
  take-append_of, drop-append_of, take_all, length-append, le→ltb_false,
}
use skybridge.Prelude.Endian.{put_be, be_uint-put_be, length-put_be}
use skybridge.Prelude.Reader.{read_full-append}
use skybridge.Tunnel.Frame.{
  header, header_len, write_frame_to, read_frame, read_body, read_exact, max_payload,
}

read_exact-append : (n : ℕ) (xs ys : Bytes) → length xs ≡ n → read_exact n (xs ++ ys) ≡ ok (xs, ys)
unfolding read_exact
read_exact-append n xs ys h = rw (read_full-append n xs ys h, read_exact)

length-header : (typ id n : ℕ) → length (header typ id n) ≡ header_len
unfolding header
length-header typ id n =
    omega (arith, length-append (put_be 8 id) (put_be 4 n), length-put_be 8 id, length-put_be 4 n)

id_of_header : (typ id n : ℕ) → take 8 (drop 5 (header typ id n)) ≡ put_be 8 id
unfolding header
id_of_header typ id n = take-append_of 8 (put_be 8 id) (put_be 4 n) (length-put_be 8 id)

length_of_header : (typ id n : ℕ) → take 4 (drop 13 (header typ id n)) ≡ put_be 4 n
unfolding header
length_of_header typ id n =
    ap (take 4) (drop-append_of 8 (put_be 8 id) (put_be 4 n) (length-put_be 8 id))
    ∙ take_all 4 (put_be 4 n) (omega (arith, length-put_be 4 n))

-- The three tests on a header that was written pass, and its fields are the values written.
read_body-header :
    (typ id : ℕ) (payload rest : Bytes)
    → id < 2 ^ 64
    → length payload ≤ max_payload
    → read_body (header typ id (length payload)) (payload ++ rest)
      ≡ ok (record { typ = typ; conn_id = id; payload = payload }, rest)
unfolding read_body
read_body-header typ id payload rest h fits =
    let n : ℕ = length payload in
    rw (length_of_header typ id n, be_uint-put_be 4 n (omega arith))
      (rw (id_of_header typ id n, be_uint-put_be 8 id (omega arith))
        (rw (read_exact-append n payload rest refl)
          (unfold header in rw (le→ltb_false n max_payload fits))))

write_frame_to_ok :
    (typ id : ℕ) (payload : Bytes) {wire : Bytes}
    → write_frame_to typ id payload ≡ ok wire
    → (length payload ≤ max_payload) × (wire ≡ header typ id (length payload) ++ payload)
unfolding write_frame_to
write_frame_to_ok typ id payload e = ground arith

-- Whatever follows it on the connection, a frame that was written is read back: type, stream id
-- and payload, for every id of 64 bits.
pub read_frame-write_frame_to :
    (typ id : ℕ) (payload rest wire : Bytes)
    → id < 2 ^ 64
    → write_frame_to typ id payload ≡ ok wire
    → read_frame (wire ++ rest) ≡ ok (record { typ = typ; conn_id = id; payload = payload }, rest)
unfolding read_frame
read_frame-write_frame_to typ id payload rest wire h e =
    let n : ℕ = length payload in
    let (fits, is_wire) = write_frame_to_ok typ id payload e in
    rw (is_wire, append_assoc)
      (rw
        (read_exact-append header_len (header typ id n) (payload ++ rest) (length-header typ id n))
        (read_body-header typ id payload rest h fits))

pub write_frame_to_fits :
    (typ id : ℕ) (payload : Bytes)
    → length payload ≤ max_payload
    → write_frame_to typ id payload ≡ ok (header typ id (length payload) ++ payload)
unfolding write_frame_to
write_frame_to_fits typ id payload fits = rw (le→ltb_false (length payload) max_payload fits)
