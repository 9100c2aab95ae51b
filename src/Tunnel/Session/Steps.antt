-- ===== src/Tunnel/Session/Steps.antt =====
-- The steps of a session: the calls of its users, the frames of its peer, and the connection.
use skybridge.Prelude.{ℕ, ◌≡◌, Bool, false, none, some, Bytes, drop, Result, get_elem?}
use skybridge.Tunnel.Frame.{Frame}
use skybridge.Tunnel.Control.{Control, ControlCodec}
use skybridge.Tunnel.Stream.{SessionError, Stream}
use skybridge.Tunnel.Session.{
  Session, update, open_stream, accept_stream, send_control, next_control, close_with_err,
}
use skybridge.Tunnel.Session.Loops.{handle_frame, offer, stream_write, stream_close}

-- What a `Read` of `n` bytes leaves of a stream.
abbrev pub take_out : ℕ → Stream → Stream
take_out n st = record st { buf = drop n st.buf }

pub data Step (codec : ControlCodec) (s : Session) : Session → Type 0 where
  opens : (meta : Bytes) → Step codec s (open_stream meta s).0
  accepts :
      (pick : Bool) {t : Session} (r : Result SessionError ℕ)
      → accept_stream pick s ≡ some (t, r)
      → Step codec s t
  sends : (c : Control) → Step codec s (send_control codec c s).0
  takes_control :
      (pick : Bool) {t : Session} (r : Result SessionError Control)
      → next_control pick s ≡ some (t, r)
      → Step codec s t
  -- the read loop takes a frame, or a place in the accept queue becomes free for it
  receives : (f : Frame) → s.pending ≡ none → Step codec s (handle_frame codec f s)
  resumes : (r : ℕ) → s.pending ≡ some r → Step codec s (offer r s)
  -- the methods of a stream object, whether the map still names it or not
  reads : (r n : ℕ) → Step codec s (record s { objects = update r (take_out n) s.objects })
  writes : (st : Stream) (p : Bytes) → Step codec s (stream_write st p s).0
  closes :
      (r : ℕ) (st : Stream) → get_elem? s.objects r ≡ some st → Step codec s (stream_close r st s).0
  ends : (e : SessionError) → Step codec s (close_with_err e s)
  -- the connection stops taking writes
  breaks : Step codec s (record s { writable = false })

pub data Reach (codec : ControlCodec) (s : Session) : Session → Type 0 where
  here : Reach codec s s
  next : {t u : Session} → Reach codec s t → Step codec t u → Reach codec s u
