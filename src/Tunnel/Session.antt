-- ===== src/Tunnel/Session.antt =====
-- internal/tunnel/session.go, type Session: streams multiplexed over one connection.
-- A `*Stream` stays in its holder's hands after the session has dropped it from its map, so streams
-- are objects of a heap, and the map and the accept queue hold references (positions in `objects`).
-- Each function is one critical section or one statement of the read loop.
pub mod Loops
pub mod Delivery
pub mod Maps
pub mod Steps
pub mod WellFormed
pub mod Invariant
use skybridge.Prelude.{
  ℕ, zero, suc, ◌+◌, ◌-◌, ◌%◌, ◌^◌, ◌≡◌, Bool, true, false, not, ◌&&◌, ◌||◌, Option, none, some,
  List, [], ◌∷◌, ◌++◌, ltb, ◌==◌, if◌then◌else◌, Bytes, length, get_elem?, take, drop, map, Result,
  ok, err,
}
use skybridge.Tunnel.Frame.{
  Frame, FrameError, frame_control, frame_open, frame_data, frame_close, write_frame_to,
  max_payload,
}
use skybridge.Tunnel.Control.{Control, ControlCodec}
use skybridge.Tunnel.Stream.{
  SessionError, session_closed, net_closed, write_failed, frame_error, Stream, new_stream, is_none,
  deliver, remote_close, fail,
}

-- The map from stream ids to references.
unfoldable pub find : ℕ → List (ℕ × ℕ) → Option ℕ
find id [] = none
find id ((k, r) ∷ m) = if k == id then some r else find id m

unfoldable pub remove : ℕ → List (ℕ × ℕ) → List (ℕ × ℕ)
remove id [] = []
remove id ((k, r) ∷ m) = let rest = remove id m in if k == id then rest else (k, r) ∷ rest

unfoldable pub insert : ℕ → ℕ → List (ℕ × ℕ) → List (ℕ × ℕ)
unfolding remove
insert id r m = (id, r) ∷ remove id m

-- `f` at position `r` of the heap.
unfoldable pub update : ℕ → (Stream → Stream) → List Stream → List Stream
update r f [] = []
update zero f (x ∷ xs) = f x ∷ xs
update (suc r) f (x ∷ xs) = x ∷ update r f xs

pub record Session : Type 0 where
  -- bytes written to the connection, and whether it still takes writes
  pub outgoing : Bytes
  pub writable : Bool
  pub objects : List Stream
  pub streams : List (ℕ × ℕ)
  pub next_id : ℕ
  pub accept : List ℕ
  pub controls : List Control
  -- the stream that the read loop waits to put into `accept`
  pub pending : Option ℕ
  pub is_closed : Bool
  pub failure : Option SessionError

abbrev pub accept_cap : ℕ
accept_cap = 64

abbrev pub control_cap : ℕ
control_cap = 16

-- The dialer opens odd ids, the other side even ones.
unfoldable pub new_session : Bool → Session
new_session is_client = record {
  outgoing = [];
  writable = true;
  objects = [];
  streams = [];
  next_id = if is_client then 1 else 2;
  accept = [];
  controls = [];
  pending = none;
  is_closed = false;
  failure = none;
}

abbrev pub err_or_closed : Session → SessionError
err_or_closed s = elim s.failure [ none ↦ session_closed | some e ↦ e ]

unfoldable pub remove_stream : ℕ → Session → Session
unfolding remove
remove_stream id s = record s { streams = remove id s.streams }

-- `none` is no error.
unfoldable pub write_frame : ℕ → ℕ → Bytes → Session → Session × Option SessionError
write_frame typ id payload s =
    if s.is_closed then (s, some (err_or_closed s)) else elim (write_frame_to typ id payload) [
      | err e ↦ (s, some (frame_error e))
      | ok bytes ↦
          if s.writable
          then (record s { outgoing = s.outgoing ++ bytes }, none)
          else (s, some write_failed)
    ]

-- `newStream` and its entry in the map, under the next id.
unfoldable pub add_stream : Bytes → Session → Session
unfolding new_stream insert
add_stream meta s = record s {
  next_id = (s.next_id + 2) % 2 ^ 64;
  objects = s.objects ++ (new_stream s.next_id meta ∷ []);
  streams = insert s.next_id (length s.objects) s.streams;
}

-- A stream whose OPEN frame could not be written is dropped again.
unfoldable pub finish_open : ℕ → ℕ → Session → Option SessionError → Session × Result SessionError ℕ
unfolding remove_stream
finish_open id r s none = (s, ok r)
finish_open id r s (some e) = (remove_stream id s, err e)

-- `Open`: the new stream's reference.
unfoldable pub open_stream : Bytes → Session → Session × Result SessionError ℕ
unfolding add_stream write_frame finish_open
open_stream meta s =
    let (s', e) = write_frame frame_open s.next_id meta (add_stream meta s) in
    let opened = finish_open s.next_id (length s.objects) s' e in
    if s.is_closed then (s, err (err_or_closed s)) else opened

-- `Accept`: `none` where it blocks. If both cases of the select are ready, `pick_closed` decides.
unfoldable pub accept_stream : Bool → Session → Option (Session × Result SessionError ℕ)
accept_stream pick_closed s = elim s.accept [
  | [] ↦ if s.is_closed then some (s, err (err_or_closed s)) else none
  | r ∷ rs ↦
      if s.is_closed && pick_closed
      then some (s, err (err_or_closed s))
      else some (record s { accept = rs }, ok r)
]

unfoldable pub send_control : ControlCodec → Control → Session → Session × Option SessionError
unfolding write_frame
send_control codec c s = write_frame frame_control 0 (codec.encode c) s

unfoldable pub next_control : Bool → Session → Option (Session × Result SessionError Control)
next_control pick_closed s = elim s.controls [
  | [] ↦ if s.is_closed then some (s, err (err_or_closed s)) else none
  | c ∷ cs ↦
      if s.is_closed && pick_closed
      then some (s, err (err_or_closed s))
      else some (record s { controls = cs }, ok c)
]

fail_all : SessionError → List (ℕ × ℕ) → List Stream → List Stream
unfolding update
fail_all e [] objects = objects
fail_all e ((id, r) ∷ m) objects = fail_all e m (update r (fail e) objects)

-- `closeWithErr`, which acts once.
unfoldable pub close_with_err : SessionError → Session → Session
unfolding fail_all
close_with_err e s = if s.is_closed then s else record s {
  failure = some e;
  is_closed = true;
  writable = false;
  objects = fail_all e s.streams s.objects;
  streams = [];
}
