-- ===== src/Tunnel/Session/Delivery.antt =====
-- What one side writes to a stream is what the other side's stream receives, in order.
use skybridge.Prelude.{ℕ, ◌+◌, ◌≡◌, refl, Option, none, some, ◌++◌, Bytes, length}
use Prim.Native.Nat.add
use skybridge.Tunnel.Frame.{Frame}
use skybridge.Tunnel.Control.{ControlCodec}
use skybridge.Tunnel.Stream.{Stream, SessionError, deliver}
use skybridge.Tunnel.Session.{Session, find}
use skybridge.Tunnel.Session.Loops.{at_ref, at_stream, read_loop}

pending-at_ref :
    (o : Option ℕ) (f : Stream → Stream) (s : Session) → (at_ref o f s).pending ≡ s.pending
unfolding at_ref
pending-at_ref none f s = refl
pending-at_ref (some r) f s = refl

pub pending-at_stream :
    (id : ℕ) (f : Stream → Stream) (s : Session) → (at_stream id f s).pending ≡ s.pending
pending-at_stream id f s = unfold at_stream in pending-at_ref (find id s.streams) f s

-- `wire`, made of a number of frames, carries the bytes `p` to the other side's stream.
pub record Carries (id : ℕ) (wire p : Bytes) : Type 0 where
  pub frames : ℕ
  pub received :
      (codec : ControlCodec) (fuel : ℕ) (rest : Bytes) (t : Session)
      → t.pending ≡ none
      → read_loop (frames + fuel) codec (wire ++ rest) t
        ≡ read_loop fuel codec rest (at_stream id (deliver p) t)

-- The outcome of a write of `p` that meets no error.
pub record Delivered (id : ℕ) (p : Bytes) (total : ℕ) (s : Session)
    (out : Session × (ℕ × Option SessionError)) : Type 0 where
  pub wire : Bytes
  pub written : out ≡ (record s { outgoing = s.outgoing ++ wire }, (total + length p, none))
  pub carries : Carries id wire p
