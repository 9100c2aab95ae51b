-- ===== src/Wire/Postgres/Backend/Framing.antt =====
-- internal/wire/postgres/postgres.go: the loop of `pipeBackend` over a stream of messages.
use mathlib.Core.Path.{ap₂}
use skybridge.Prelude.{
  ℕ, zero, suc, ◌+◌, ◌-◌, ◌^◌, ◌<◌, ◌≤◌, ◌≡◌, refl, ap, ◌∙◌, arith, Option, some, List, [], ◌∷◌,
  ◌++◌, Bytes, All, length, ok, err, append_assoc, length-append, le→ltb_false, map,
}
use skybridge.Prelude.Endian.{put_be, be_uint-put_be, length-put_be}
use skybridge.Prelude.Reader.{eof, read_full, read_full-append}
use skybridge.Mask.{Column, Masker}
use skybridge.Wire.Postgres.Backend.{
  PipeError, read_failed, Message, read_exact, read_payload, read_message, write_message,
  handle_message, pipe_loop, pipe_backend,
}

-- The length field holds the payload's length and four.
abbrev pub MessageFits : Message → Type 0
MessageFits m = length m.payload + 4 < 2 ^ 32

read_exact-append : (n : ℕ) (xs ys : Bytes) → length xs ≡ n → read_exact n (xs ++ ys) ≡ ok (xs, ys)
unfolding read_exact
read_exact-append n xs ys h = rw (read_full-append n xs ys h, read_exact)

read_payload-write :
    (typ : ℕ) (payload rest : Bytes)
    → length payload + 4 < 2 ^ 32
    → read_payload (typ ∷ put_be 4 (length payload + 4)) (payload ++ rest)
      ≡ ok (record { typ = typ; payload = payload }, rest)
unfolding read_payload
read_payload-write typ payload rest h =
    let n : ℕ = length payload in
    rw (be_uint-put_be 4 (n + 4) h) (
      rw (le→ltb_false 4 (n + 4) (omega arith))
        (rw (read_exact-append (n + 4 - 4) payload rest (omega arith))))

-- A message that was written is read back, whatever follows it.
pub read_message-write_message :
    (m : Message) (rest : Bytes)
    → MessageFits m
    → read_message (write_message m ++ rest) ≡ ok (m, rest)
unfolding read_message write_message
read_message-write_message m rest h =
    let header : Bytes = m.typ ∷ put_be 4 (length m.payload + 4) in
    rw append_assoc (
      rw
        (read_exact-append 5 header (m.payload ++ rest)
          (omega (arith, length-put_be 4 (length m.payload + 4))))
        (read_payload-write m.typ m.payload rest h))

-- A stream of messages, as bytes.
unfoldable pub write_messages : List Message → Bytes
write_messages [] = []
write_messages (m ∷ ms) = write_message m ++ write_messages ms

-- What the proxy makes of a stream, message by message, with the columns of the last description.
unfoldable pub relay : List Column → Masker → List Message → List Message
relay cols masker [] = []
relay cols masker (m ∷ ms) =
    let (cols', m') = handle_message cols masker m in m' ∷ relay cols' masker ms

read_message-nil : read_message [] ≡ err (read_failed eof)
unfolding read_message read_exact read_full
read_message-nil = refl

pipe_loop_end :
    (fuel : ℕ) (cols : List Column) (masker : Masker) (bs : Bytes) (e : PipeError)
    → read_message bs ≡ err e
    → pipe_loop (suc fuel) cols masker bs ≡ ([], some e)
unfolding pipe_loop
pipe_loop_end fuel cols masker bs e h = rw (h, pipe_loop)

abbrev prepend : Bytes → Bytes × Option PipeError → Bytes × Option PipeError
prepend bs r = (bs ++ r.0, r.1)

pipe_loop_step :
    (fuel : ℕ) (cols : List Column) (masker : Masker) (bs : Bytes) (m : Message) (rest : Bytes)
    → read_message bs ≡ ok (m, rest)
    → pipe_loop (suc fuel) cols masker bs
      ≡ prepend
          (write_message (handle_message cols masker m).1)
          (pipe_loop fuel (handle_message cols masker m).0 masker rest)
unfolding pipe_loop
pipe_loop_step fuel cols masker bs m rest h = rw (h, pipe_loop)

pipe_loop-write_messages :
    (fuel : ℕ) (cols : List Column) (masker : Masker) (ms : List Message)
    → length ms < fuel
    → All MessageFits ms
    → pipe_loop fuel cols masker (write_messages ms)
      ≡ (write_messages (relay cols masker ms), some (read_failed eof))
unfolding write_messages relay
pipe_loop-write_messages zero cols masker ms l h = absurd (omega arith)
pipe_loop-write_messages (suc fuel) cols masker [] l h =
    pipe_loop_end fuel cols masker [] (read_failed eof) read_message-nil
pipe_loop-write_messages (suc fuel) cols masker (m ∷ ms) l (hm, h) =
    pipe_loop_step fuel cols masker (write_message m ++ write_messages ms) m (write_messages ms)
      (read_message-write_message m (write_messages ms) hm)
    ∙ ap (prepend (write_message (handle_message cols masker m).1))
        (pipe_loop-write_messages fuel (handle_message cols masker m).0 masker ms (omega arith) h)

length-write_messages : (ms : List Message) → length ms ≤ length (write_messages ms)
unfolding write_messages write_message
length-write_messages [] = omega arith
length-write_messages (m ∷ ms) = omega (
  arith,
  length-append (put_be 4 (length m.payload + 4) ++ m.payload) (write_messages ms),
  length-write_messages ms,
)

-- The proxy ends a stream of whole messages at the server's end of file, and sends the client these
-- messages, one for one and in order, each as `handle_message` leaves it under the columns of the
-- last row description.
pub pipe_backend-write_messages :
    (masker : Masker) (ms : List Message)
    → All MessageFits ms
    → pipe_backend masker (write_messages ms)
      ≡ (write_messages (relay [] masker ms), some (read_failed eof))
unfolding pipe_backend
pipe_backend-write_messages masker ms h =
    pipe_loop-write_messages (suc (length (write_messages ms))) [] masker ms
      (omega (arith, length-write_messages ms)) h

abbrev pub types : List Message → List ℕ
types = map (λ m. m.typ)

typ-handle_message :
    (cols : List Column) (masker : Masker) (m : Message)
    → (handle_message cols masker m).1.typ ≡ m.typ
unfolding handle_message
typ-handle_message cols masker m = ground arith

-- No message is added, dropped or reordered, and none changes its type.
pub types-relay :
    (cols : List Column) (masker : Masker) (ms : List Message)
    → types (relay cols masker ms) ≡ types ms
unfolding relay
types-relay cols masker [] = refl
types-relay cols masker (m ∷ ms) =
    ap₂ ◌∷◌ (typ-handle_message cols masker m)
      (types-relay (handle_message cols masker m).0 masker ms)
