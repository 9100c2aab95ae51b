-- ===== src/Tunnel/Frame.antt =====
-- internal/tunnel/frame.go: the 17-byte header and the payload of one frame.
pub mod RoundTrip
pub mod Malformed
use skybridge.Prelude.{
  ℕ, ◌<◌, ◌≤◌, ◌||◌, not, Bool, true, false, [], ◌∷◌, ◌++◌, ltb, ◌==◌, if◌then◌else◌, Bytes, length,
  take, drop, get_or, Result, ok, err, ◌>>=◌,
}
use skybridge.Prelude.Endian.{put_be, be_uint}
use skybridge.Prelude.Reader.{ReadError, read_full}

abbrev pub magic0 : ℕ
magic0 = 0x53

abbrev pub magic1 : ℕ
magic1 = 0x42

abbrev pub version : ℕ
version = 1

abbrev pub header_len : ℕ
header_len = 17

abbrev pub max_payload : ℕ
max_payload = 32768

abbrev pub frame_control : ℕ
frame_control = 0x01

abbrev pub frame_open : ℕ
frame_open = 0x10

abbrev pub frame_data : ℕ
frame_data = 0x12

abbrev pub frame_close : ℕ
frame_close = 0x13

pub data FrameError : Type 0 where
  bad_magic bad_version frame_too_big : FrameError
  io : ReadError → FrameError

-- `typ` is the byte as received: a type that is none of the four constants is kept.
pub record Frame : Type 0 where
  pub typ : ℕ
  pub conn_id : ℕ
  pub payload : Bytes

-- The header: magic, version, type, reserved flags, stream id and payload length, big-endian.
unfoldable pub header : ℕ → ℕ → ℕ → Bytes
header typ conn_id n = magic0 ∷ magic1 ∷ version ∷ typ ∷ 0 ∷ (put_be 8 conn_id ++ put_be 4 n)

-- The bytes that go onto the connection.
unfoldable pub write_frame_to : ℕ → ℕ → Bytes → Result FrameError Bytes
unfolding header
write_frame_to typ conn_id payload =
    if ltb max_payload (length payload)
    then err frame_too_big
    else ok (header typ conn_id (length payload) ++ payload)

unfoldable pub read_exact : ℕ → Bytes → Result FrameError (Bytes × Bytes)
read_exact n bs = elim (read_full n bs) [ ok r ↦ ok r | err e ↦ err (io e) ]

-- What follows the header `h`, on the bytes behind it.
unfoldable pub read_body : Bytes → Bytes → Result FrameError (Frame × Bytes)
unfolding read_exact
read_body h rest =
    let n : ℕ = be_uint (take 4 (drop 13 h)) in
    if not (get_or h 0 0 == magic0) || not (get_or h 1 0 == magic1)
    then err bad_magic
    else if not (get_or h 2 0 == version)
    then err bad_version
    else if ltb max_payload n
    then err frame_too_big
    else (do
      (p, rest') ← read_exact n rest
      ok (record { typ = get_or h 3 0; conn_id = be_uint (take 8 (drop 5 h)); payload = p }, rest'))

-- One frame off the front of the bytes still to come, and what follows it.
unfoldable pub read_frame : Bytes → Result FrameError (Frame × Bytes)
unfolding read_body read_exact
read_frame bs = do (h, rest) ← read_exact header_len bs; read_body h rest
