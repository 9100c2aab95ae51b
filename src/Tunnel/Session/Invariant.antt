-- ===== src/Tunnel/Session/Invariant.antt =====
-- What holds of every session that is reached from a new one, whatever the peer sends.
mod Calls
mod Frames
use skybridge.Tunnel.Session.WellFormed.{
  Refers, Refers-nil, Refers-remove, Refers-insert, Refers-update, IsWellFormed,
  outgoing-IsWellFormed, objects-IsWellFormed, remove_stream-IsWellFormed,
}
use skybridge.Tunnel.Session.Invariant.Frames.{offer-IsWellFormed, handle_frame-IsWellFormed}
use skybridge.Tunnel.Session.Invariant.Calls.{
  Takes, Takes-IsWellFormed, accept_stream-Takes, close_with_err-IsWellFormed, next_control-Takes,
  open_stream-IsWellFormed, stream_close-IsWellFormed, stream_write-IsWellFormed,
  write_frame-IsWellFormed,
}
use skybridge.Prelude.{
  ℕ, min, take, drop, not, ◌||◌, zero, suc, ◌+◌, ◌%◌, ◌≤◌, ◌≡◌, refl, arith, Bool, true, Option,
  none, some, List, [], ◌∷◌, ◌++◌, ◌==◌, if◌then◌else◌, Bytes, length, length-append, get_elem?,
  Bool-cases, if_both, ltb, ltb→lt, ==_iff, inl, inr, Result,
}
use skybridge.Tunnel.Frame.{Frame, frame_control, frame_open, frame_data, frame_close, max_payload}
use skybridge.Tunnel.Control.{Control, ControlCodec}
use skybridge.Tunnel.Stream.{SessionError, Stream, new_stream, deliver, remote_close, is_none}
use skybridge.Tunnel.Session.{
  Session, new_session, find, remove, insert, update, open_stream, accept_stream, send_control,
  next_control, close_with_err, write_frame, remove_stream, add_stream, finish_open, accept_cap,
  control_cap,
}
use skybridge.Tunnel.Session.Maps.{
  find-remove, find-insert, get_elem?-append, get_elem?-append_last, get_elem?-update,
}
use skybridge.Tunnel.Session.Loops.{
  at_ref, at_stream, queue_control, handle_control, handle_open, handle_frame, offer,
  write_data_loop, write_data, stream_write, stream_close, close_local, unless_error,
}
use skybridge.Tunnel.Session.Steps.{
  Step, opens, accepts, sends, takes_control, receives, resumes, reads, writes, closes, ends,
  breaks, Reach, here, next, take_out,
}

module _ {parity : ℕ} where
  -- Every step keeps the session well formed: a call, a frame from the peer, or a broken connection.
  pub Step-IsWellFormed :
      {codec : ControlCodec} {s t : Session}
      → Step codec s t
      → IsWellFormed parity s
      → IsWellFormed parity t
  unfolding send_control
  Step-IsWellFormed (opens meta) v = open_stream-IsWellFormed meta v
  Step-IsWellFormed (accepts pick r e) v = Takes-IsWellFormed (accept_stream-Takes pick _ r e) v
  Step-IsWellFormed {codec} (sends c) v =
      write_frame-IsWellFormed frame_control 0 (codec.encode c) v
  Step-IsWellFormed (takes_control pick r e) v =
      Takes-IsWellFormed (next_control-Takes pick _ r e) v
  Step-IsWellFormed {codec} (receives f idle) v = handle_frame-IsWellFormed codec f v
  Step-IsWellFormed (resumes r waiting) v = offer-IsWellFormed r v
  Step-IsWellFormed (reads r n) v = objects-IsWellFormed r (take_out n) (λ x. refl) v
  Step-IsWellFormed (writes st p) v = stream_write-IsWellFormed st p v
  Step-IsWellFormed (closes r st at) v = stream_close-IsWellFormed r st v
  Step-IsWellFormed (ends e) v = close_with_err-IsWellFormed e v
  Step-IsWellFormed breaks v = record {
    refers = v.refers;
    own_ids = v.own_ids;
    accept_fits = v.accept_fits;
    controls_fit = v.controls_fit;
    close_reason = v.close_reason;
  }

abbrev pub parity_of : Bool → ℕ
parity_of is_client = if is_client then 1 else 0

new_session-IsWellFormed :
    (is_client : Bool) → IsWellFormed (parity_of is_client) (new_session is_client)
unfolding new_session
new_session-IsWellFormed is_client = record {
  refers = Refers-nil [];
  own_ids = ground arith;
  accept_fits = omega arith;
  controls_fit = omega arith;
  close_reason = λ h. cc;
}

-- In every session reached from a new one, whatever the peer sends and the users call: each id of
-- the map leads to a stream with this id, the next id to be opened has the parity of the session's
-- side (odd for the dialer, even for the other side), the queues are within their capacities, and a
-- closed session knows the error that closed it.
pub Reach-IsWellFormed :
    (codec : ControlCodec) (is_client : Bool) {s : Session}
    → Reach codec (new_session is_client) s
    → IsWellFormed (parity_of is_client) s
Reach-IsWellFormed codec is_client here = new_session-IsWellFormed is_client
Reach-IsWellFormed codec is_client (next r st) =
    Step-IsWellFormed st (Reach-IsWellFormed codec is_client r)
