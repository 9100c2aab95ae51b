-- ===== src/Tunnel/Stream.antt =====
-- internal/tunnel/session.go, type Stream: the methods that touch only the stream itself.
use skybridge.Prelude.{
  ℕ, Bool, true, false, not, ◌&&◌, Option, none, some, [], ◌∷◌, ◌++◌, if◌then◌else◌, Bytes, take,
  drop,
}
use skybridge.Tunnel.Frame.{FrameError}

pub data SessionError : Type 0 where
  -- ErrSessionClosed, net.ErrClosed, io.EOF, os.ErrDeadlineExceeded
  session_closed net_closed end_of_stream deadline_exceeded : SessionError
  -- the connection refused a write
  write_failed : SessionError
  frame_error : FrameError → SessionError

pub record Stream : Type 0 where
  pub id : ℕ
  pub meta : Bytes
  pub buf : Bytes
  pub local_closed : Bool
  pub remote_closed : Bool
  pub failure : Option SessionError

unfoldable pub new_stream : ℕ → Bytes → Stream
new_stream id meta = record {
  id = id;
  meta = meta;
  buf = [];
  local_closed = false;
  remote_closed = false;
  failure = none;
}

abbrev pub is_none {ℓ} : {A : Type ℓ} → Option A → Bool
is_none none = true
is_none (some a) = false

abbrev pub is_live : Stream → Bool
is_live st = not st.local_closed && (not st.remote_closed && is_none st.failure)

unfoldable pub deliver : Bytes → Stream → Stream
deliver p st = if is_live st then record st { buf = st.buf ++ p } else st

unfoldable pub remote_close : Stream → Stream
remote_close st = record st { remote_closed = true }

-- The first error is kept.
unfoldable pub fail : SessionError → Stream → Stream
fail e st = if is_none st.failure then record st { failure = some e } else st

pub data ReadOutcome : Type 0 where
  -- the bytes read, and the stream without them
  got : Bytes → Stream → ReadOutcome
  failed : SessionError → ReadOutcome
  -- `cond.Wait`
  waits : ReadOutcome

read_empty : Bool → Stream → Option SessionError → ReadOutcome
read_empty expired st (some e) = failed e
read_empty expired st none =
    if expired
    then failed deadline_exceeded
    else if st.remote_closed
    then failed end_of_stream
    else if st.local_closed
    then failed net_closed
    else waits

-- One pass of `Read` into a slice of `n` bytes; `expired` says whether a read deadline has passed.
unfoldable pub read : ℕ → Bool → Stream → ReadOutcome
unfolding read_empty
read n expired st = elim st.buf [
  | [] ↦ read_empty expired st st.failure
  | b ∷ bs ↦ got (take n st.buf) (record st { buf = drop n st.buf })
]
