-- ===== src/Tunnel/Session/Loops.antt =====
-- internal/tunnel/session.go: the read loop, chunked writes, and the stream methods that go through
-- the session.
use skybridge.Prelude.{
  ℕ, zero, suc, ◌+◌, true, not, ◌||◌, Option, none, some, [], ◌∷◌, ◌++◌, ltb, ◌==◌, if◌then◌else◌,
  Bytes, length, take, drop, min, ok, err,
}
use skybridge.Tunnel.Frame.{
  Frame, frame_control, frame_open, frame_data, frame_close, read_frame, max_payload,
}
use skybridge.Tunnel.Control.{Control, ControlCodec}
use skybridge.Tunnel.Stream.{
  SessionError, net_closed, frame_error, Stream, new_stream, is_none, deliver, remote_close,
}
use skybridge.Tunnel.Session.{
  Session, find, insert, update, write_frame, remove_stream, close_with_err, control_cap,
  accept_cap,
}

unfoldable pub at_ref : Option ℕ → (Stream → Stream) → Session → Session
unfolding update
at_ref none f s = s
at_ref (some r) f s = record s { objects = update r f s.objects }

-- `f` on the stream with this id, if the session has one.
unfoldable pub at_stream : ℕ → (Stream → Stream) → Session → Session
unfolding at_ref find
at_stream id f s = at_ref (find id s.streams) f s

-- A control message that does not decode, or finds the channel full, is dropped.
unfoldable pub queue_control : Option Control → Session → Session
queue_control none s = s
queue_control (some c) s =
    if ltb (length s.controls) control_cap
    then record s { controls = s.controls ++ (c ∷ []) }
    else s

unfoldable pub handle_control : ControlCodec → Bytes → Session → Session
unfolding queue_control
handle_control codec payload s = queue_control (codec.decode payload) s

-- `s.accept <- st`: with the queue full the loop waits.
unfoldable pub offer : ℕ → Session → Session
offer r s =
    if ltb (length s.accept) accept_cap
    then record s { accept = s.accept ++ (r ∷ []); pending = none }
    else record s { pending = some r }

unfoldable pub handle_open : ℕ → Bytes → Session → Session
unfolding offer new_stream insert
handle_open id meta s =
    let r : ℕ = length s.objects in
    offer r (record s {
      objects = s.objects ++ (new_stream id meta ∷ []);
      streams = insert id r s.streams;
    })

-- One turn of the read loop's switch; a frame of another type is ignored.
unfoldable pub handle_frame : ControlCodec → Frame → Session → Session
unfolding at_stream handle_control handle_open remove_stream
handle_frame codec f s =
    if f.typ == frame_control
    then handle_control codec f.payload s
    else if f.typ == frame_open
    then handle_open f.conn_id f.payload s
    else if f.typ == frame_data
    then at_stream f.conn_id (deliver f.payload) s
    else if f.typ == frame_close
    then remove_stream f.conn_id (at_stream f.conn_id remote_close s)
    else s

-- The read loop, for at most `fuel` frames, on the bytes that the connection will deliver. It stops
-- at an error, which closes the session, and where it waits for room in the accept queue.
unfoldable pub read_loop : ℕ → ControlCodec → Bytes → Session → Session × Bytes
read_loop zero codec bs s = (s, bs)
read_loop (suc fuel) codec bs s = elim s.pending [
  | some r ↦ (s, bs)
  | none ↦ elim (read_frame bs) [
    | err e ↦ (close_with_err (frame_error e) s, [])
    | ok (f, rest) ↦ read_loop fuel codec rest (handle_frame codec f s)
  ]
]

abbrev pub unless_error :
    Session
    → ℕ
    → Option SessionError
    → Session × (ℕ × Option SessionError)
    → Session × (ℕ × Option SessionError)
unless_error s total (some x) rest = (s, (total, some x))
unless_error s total none rest = rest

-- The number of bytes written, and the error that ended the write early. Every round takes a byte at
-- least, so `length p` rounds are enough.
unfoldable pub write_data_loop : ℕ → ℕ → Bytes → ℕ → Session → Session × (ℕ × Option SessionError)
write_data_loop fuel id [] total s = (s, (total, none))
write_data_loop zero id (b ∷ bs) total s = (s, (total, none))
write_data_loop (suc fuel) id (b ∷ bs) total s =
    let n : ℕ = min (length (b ∷ bs)) max_payload in
    let (s', e) = write_frame frame_data id (take n (b ∷ bs)) s in
    let rest = write_data_loop fuel id (drop n (b ∷ bs)) (total + n) s' in
    unless_error s' total e rest

unfoldable pub write_data : ℕ → Bytes → Session → Session × (ℕ × Option SessionError)
unfolding write_data_loop
write_data id p s = write_data_loop (length p) id p 0 s

-- `Stream.Write`, on the stream `st`
unfoldable pub stream_write : Stream → Bytes → Session → Session × (ℕ × Option SessionError)
unfolding write_data
stream_write st p s =
    if st.local_closed || not (is_none st.failure)
    then (s, (0, some net_closed))
    else write_data st.id p s

unfoldable pub close_local : Stream → Stream
close_local st = record st { local_closed = true }

-- `Stream.Close`, on the stream `st` at reference `r`
unfoldable pub stream_close : ℕ → Stream → Session → Session × Option SessionError
unfolding update remove_stream write_frame close_local
stream_close r st s =
    if st.local_closed
    then (s, none)
    else write_frame frame_close st.id []
        (remove_stream st.id (record s { objects = update r close_local s.objects }))
