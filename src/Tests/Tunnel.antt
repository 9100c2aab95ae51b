-- ===== src/Tests/Tunnel.antt =====
-- The theorems on the tunnel at concrete inputs.
use skybridge.Prelude.{◌≡◌, refl, ◌++◌, arith, true, none, [], ◌∷◌, Bytes, ok}
use skybridge.Prelude.Endian.{put_be, be_uint}
use skybridge.Prelude.Reader.{read_full}
use skybridge.Prelude.Text.{codes}
use skybridge.Tunnel.Frame.{Frame, frame_data, frame_open, write_frame_to, read_frame}
use skybridge.Tunnel.Frame.RoundTrip.{read_frame-write_frame_to}
use skybridge.Tunnel.Frame.Malformed.{IsFrame, read_frame-IsFrame}
use skybridge.Tunnel.Control.{ControlCodec}
use skybridge.Tunnel.Session.{new_session, open_stream, Session}
use skybridge.Tunnel.Session.Loops.{handle_frame}
use skybridge.Tunnel.Session.Steps.{Reach, here, next, opens, receives}
use skybridge.Tunnel.Session.WellFormed.{IsWellFormed}
use skybridge.Tunnel.Session.Invariant.{parity_of, Reach-IsWellFormed}

abbrev wire : Bytes
wire = 0x53 ∷ 0x42 ∷ 1 ∷ 0x12 ∷ 0 ∷ 0 ∷ 0 ∷ 0 ∷ 0 ∷ 0 ∷ 0 ∷ 1 ∷ 3 ∷ 0 ∷ 0 ∷ 0 ∷ 2 ∷ b'h' ∷ b'i' ∷ []

abbrev hi : Frame
hi = record { typ = frame_data; conn_id = 259; payload = codes "hi" }

wire_hi : write_frame_to frame_data 259 (codes "hi") ≡ ok wire
unfolding write_frame_to put_be
wire_hi = refl

read_frame-write_frame_to_example : read_frame (wire ++ codes "S") ≡ ok (hi, codes "S")
read_frame-write_frame_to_example =
    read_frame-write_frame_to frame_data 259 (codes "hi") (codes "S") wire (omega arith) wire_hi

read_wire : read_frame (wire ++ codes "S") ≡ ok (hi, codes "S")
unfolding read_frame read_full be_uint
read_wire = refl

read_frame-IsFrame_example : IsFrame (wire ++ codes "S") hi (codes "S")
read_frame-IsFrame_example = read_frame-IsFrame (wire ++ codes "S") read_wire

abbrev codec : ControlCodec
codec = record { encode = λ c. []; decode = λ bs. none }

abbrev opened : Session
opened = (open_stream (codes "db") (new_session true)).0

abbrev peer_open : Frame
peer_open = record { typ = frame_open; conn_id = 2; payload = codes "x" }

not_pending : opened.pending ≡ none
unfolding open_stream new_session write_frame_to
not_pending = refl

two_steps : Reach codec (new_session true) (handle_frame codec peer_open opened)
two_steps = next (next here (opens (codes "db"))) (receives peer_open not_pending)

Reach-IsWellFormed_example : IsWellFormed (parity_of true) (handle_frame codec peer_open opened)
Reach-IsWellFormed_example = Reach-IsWellFormed codec true two_steps
