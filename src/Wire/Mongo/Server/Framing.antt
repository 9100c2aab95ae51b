-- ===== src/Wire/Mongo/Server/Framing.antt =====
-- internal/wire/mongo/mongo.go: `maskServer` over a stream of whole messages.
use skybridge.Prelude.{
  ℕ, zero, suc, ◌-◌, ◌<◌, ◌≤◌, ◌≡◌, refl, sym, ap, ◌∙◌, arith, Option, some, List, [], ◌∷◌, ◌++◌,
  Bytes, All, length, take, drop, map, ok, err, append_assoc, length-append, length-take,
  length-drop, take-append-drop, le→ltb_false,
}
use skybridge.Prelude.Endian.{le_uint}
use skybridge.Prelude.Reader.{eof, read_full, read_full-append}
use skybridge.Mask.{Masker}
use skybridge.Wire.Mongo.Message.{
  MongoError, read_failed, header_len, max_message_bytes, read_exact, read_rest, read_message,
  transform_message,
}
use skybridge.Wire.Mongo.Server.{serve, mask_server}

-- The length field holds the message's length, which the proxy accepts.
pub record IsMessage (msg : Bytes) : Type 0 where
  pub at_least : header_len ≤ length msg
  pub at_most : length msg ≤ max_message_bytes
  pub framed : le_uint (take 4 msg) ≡ length msg

abbrev pub join : List Bytes → Bytes
join [] = []
join (msg ∷ msgs) = msg ++ join msgs

read_exact-append : (n : ℕ) (xs ys : Bytes) → length xs ≡ n → read_exact n (xs ++ ys) ≡ ok (xs, ys)
unfolding read_exact
read_exact-append n xs ys h = rw (read_full-append n xs ys h, read_exact)

read_rest-append :
    (hdr more rest : Bytes)
    → header_len ≤ le_uint hdr
    → le_uint hdr ≤ max_message_bytes
    → length more ≡ le_uint hdr - 4
    → read_rest hdr (more ++ rest) ≡ ok (hdr ++ more, rest)
unfolding read_rest
read_rest-append hdr more rest low high size =
    rw
      (
        le→ltb_false header_len (le_uint hdr) low,
        le→ltb_false (le_uint hdr) max_message_bytes high,
        read_exact-append (le_uint hdr - 4) more rest size,
      )
      refl

read_message_of :
    (hdr bs : Bytes) {r : Bytes × Bytes}
    → length hdr ≡ 4
    → read_rest hdr bs ≡ ok r
    → read_message (hdr ++ bs) ≡ ok r
unfolding read_message
read_message_of hdr bs size h = rw (read_exact-append 4 hdr bs size, read_message) h

read_message-append :
    (msg rest : Bytes) → IsMessage msg → read_message (msg ++ rest) ≡ ok (msg, rest)
read_message-append msg rest is =
    let hdr : Bytes = take 4 msg in
    let more : Bytes = drop 4 msg in
    ap read_message
      (ap (λ m. m ++ rest) (sym (take-append-drop 4 msg)) ∙ append_assoc hdr more rest)
    ∙ read_message_of hdr (more ++ rest) (omega (arith, length-take 4 msg, is.at_least)) (
        read_rest-append hdr more rest (omega (arith, is.framed, is.at_least))
          (omega (arith, is.framed, is.at_most)) (omega (arith, is.framed, length-drop 4 msg)))
    ∙ ap (λ m. ok (m, rest)) (take-append-drop 4 msg)

read_message-nil : read_message [] ≡ err (read_failed eof)
unfolding read_message read_exact read_full
read_message-nil = refl

serve_end :
    (fuel : ℕ) (masker : Masker) (bs : Bytes) (e : MongoError)
    → read_message bs ≡ err e
    → serve (suc fuel) masker bs ≡ ([], some e)
unfolding serve
serve_end fuel masker bs e h = rw (h, serve)

abbrev prepend : Bytes → Bytes × Option MongoError → Bytes × Option MongoError
prepend bs r = (bs ++ r.0, r.1)

serve_step :
    (fuel : ℕ) (masker : Masker) (bs msg rest : Bytes)
    → read_message bs ≡ ok (msg, rest)
    → serve (suc fuel) masker bs ≡ prepend (transform_message masker msg) (serve fuel masker rest)
unfolding serve
serve_step fuel masker bs msg rest h = rw (h, serve)

serve-join :
    (fuel : ℕ) (masker : Masker) (msgs : List Bytes)
    → length msgs < fuel
    → All IsMessage msgs
    → serve fuel masker (join msgs)
      ≡ (join (map (transform_message masker) msgs), some (read_failed eof))
serve-join zero masker msgs l h = absurd (omega arith)
serve-join (suc fuel) masker [] l h = serve_end fuel masker [] (read_failed eof) read_message-nil
serve-join (suc fuel) masker (msg ∷ msgs) l (is, h) =
    serve_step fuel masker (msg ++ join msgs) msg (join msgs)
      (read_message-append msg (join msgs) is)
    ∙ ap (prepend (transform_message masker msg)) (serve-join fuel masker msgs (omega arith) h)

length-join : (msgs : List Bytes) → All IsMessage msgs → length msgs ≤ length (join msgs)
length-join [] h = omega arith
length-join (msg ∷ msgs) (is, h) =
    omega (arith, length-append msg (join msgs), length-join msgs h, is.at_least)

-- On a stream of whole messages of at least 16 bytes and at most 64 MiB, the proxy sends the client
-- each message as `transform_message` leaves it, one for one and in order, and ends at the server's
-- end of file.
pub mask_server-join :
    (masker : Masker) (msgs : List Bytes)
    → All IsMessage msgs
    → mask_server masker (join msgs)
      ≡ (join (map (transform_message masker) msgs), some (read_failed eof))
unfolding mask_server
mask_server-join masker msgs h =
    serve-join (suc (length (join msgs))) masker msgs (omega (arith, length-join msgs h)) h
