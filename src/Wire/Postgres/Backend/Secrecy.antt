-- ===== src/Wire/Postgres/Backend/Secrecy.antt =====
-- internal/wire/postgres/postgres.go: what a client can learn of the values that an overlay covers,
-- and what the proxy leaves alone.
use mathlib.Core.Path.{ap₂}
use skybridge.Prelude.Reader.{eof}
use skybridge.Prelude.{
  some, ℕ, ◌<◌, ◌^◌, ◌≡◌, refl, sym, ap, ◌∙◌, List, [], ◌∷◌, All, length, Bytes, ok,
}
use skybridge.Prelude.Text.{Unicode}
use skybridge.Mask.{Column, Row}
use skybridge.Mask.Overlay.{Overlay, overlay}
use skybridge.Mask.Secrecy.{AgreeUpTo}
use skybridge.Wire.Postgres.Rows.{encode_row, columns_for, mask_data_row}
use skybridge.Wire.Postgres.Rows.Codec.{CellFits}
use skybridge.Wire.Postgres.Rows.Masking.{mask_data_row-AgreeUpTo}
use skybridge.Wire.Postgres.Backend.{
  Message, read_failed, mask_payload, handle_message, pipe_backend,
}
use skybridge.Wire.Postgres.Backend.Framing.{
  MessageFits, write_messages, relay, pipe_backend-write_messages,
}

abbrev pub data_row : ℕ → Row → Message
data_row n row = record { typ = b'D'; payload = encode_row n row }

module _ (u : Unicode) (o : Overlay) where
  -- Two streams from the server that differ only in data rows, and there only in the values of
  -- columns that the overlay covers under the row description in force.
  pub data StreamsAgree : List Column → List Message → List Message → Type 0 where
    end : {cols : List Column} → StreamsAgree cols [] []
    same :
        (m : Message) {cols : List Column} {ms ns : List Message}
        → StreamsAgree (handle_message cols (overlay u o) m).0 ms ns
        → StreamsAgree cols (m ∷ ms) (m ∷ ns)
    rows :
        (n : ℕ) (a b : Row) {cols : List Column} {ms ns : List Message}
        → n < 2 ^ 16
        → length a ≡ n
        → length b ≡ n
        → All CellFits a
        → All CellFits b
        → AgreeUpTo u o (columns_for n cols) a b
        → StreamsAgree cols ms ns
        → StreamsAgree cols (data_row n a ∷ ms) (data_row n b ∷ ns)

  mask_payload_ok :
      (cols : List Column) (p q : Bytes)
      → mask_data_row p cols (overlay u o) ≡ ok q
      → mask_payload cols (overlay u o) p ≡ q
  unfolding mask_payload
  mask_payload_ok cols p q e = rw (e, mask_payload)

  cols_of_row :
      (n : ℕ) (a : Row) (cols : List Column)
      → (handle_message cols (overlay u o) (data_row n a)).0 ≡ cols
  unfolding handle_message
  cols_of_row n a cols = refl

  handle_rows :
      (n : ℕ) (a b : Row) (cols : List Column)
      → n < 2 ^ 16
      → length a ≡ n
      → length b ≡ n
      → All CellFits a
      → All CellFits b
      → AgreeUpTo u o (columns_for n cols) a b
      → (handle_message cols (overlay u o) (data_row n a)).1
        ≡ (handle_message cols (overlay u o) (data_row n b)).1
  unfolding handle_message
  handle_rows n a b cols lt la lb fa fb agree =
      let (q, ea, eb) = mask_data_row-AgreeUpTo u o cols n a b lt la lb fa fb agree in
      ap (λ p. record { typ = b'D'; payload = p })
        (mask_payload_ok cols (encode_row n a) q ea
          ∙ sym (mask_payload_ok cols (encode_row n b) q eb))

  relay-StreamsAgree :
      {cols : List Column} {ms ns : List Message}
      → StreamsAgree cols ms ns
      → relay cols (overlay u o) ms ≡ relay cols (overlay u o) ns
  unfolding relay
  relay-StreamsAgree end = refl
  relay-StreamsAgree (same m h) = rw (relay-StreamsAgree h)
  relay-StreamsAgree (rows n a b {cols} lt la lb fa fb agree h) =
      ap₂ ◌∷◌ (handle_rows n a b cols lt la lb fa fb agree)
        (rw (cols_of_row n a cols, cols_of_row n b cols) (relay-StreamsAgree h))

  -- What the server sends to one client can be replaced by a stream with other values in covered
  -- columns, and the client gets the same bytes.
  pub pipe_backend-StreamsAgree :
      (ms ns : List Message)
      → All MessageFits ms
      → All MessageFits ns
      → StreamsAgree [] ms ns
      → pipe_backend (overlay u o) (write_messages ms)
        ≡ pipe_backend (overlay u o) (write_messages ns)
  pipe_backend-StreamsAgree ms ns fm fn h =
      pipe_backend-write_messages (overlay u o) ms fm
      ∙ ap (λ out. (write_messages out, some (read_failed eof))) (relay-StreamsAgree h)
      ∙ sym (pipe_backend-write_messages (overlay u o) ns fn)
