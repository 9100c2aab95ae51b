-- ===== src/Tunnel/Session/Invariant/Calls.antt =====
-- The calls of a session's users keep it well formed.
use skybridge.Tunnel.Session.WellFormed.{
  Refers-nil, Refers-insert, IsWellFormed, outgoing-IsWellFormed, objects-IsWellFormed,
  remove_stream-IsWellFormed,
}
use skybridge.Prelude.{
  ℕ, min, take, drop, not, ◌||◌, zero, suc, ◌+◌, ◌≤◌, ◌≡◌, refl, arith, Bool, Option, none, some,
  [], ◌∷◌, Bytes, length, Bool-cases, if_both, inl, inr, Result,
}
use skybridge.Tunnel.Frame.{frame_open, frame_data, frame_close, max_payload}
use skybridge.Tunnel.Control.{Control}
use skybridge.Tunnel.Stream.{SessionError, Stream, is_none}
use skybridge.Tunnel.Session.{
  Session, open_stream, accept_stream, next_control, close_with_err, write_frame, add_stream,
  finish_open,
}
use skybridge.Tunnel.Session.Loops.{
  write_data_loop, write_data, stream_write, stream_close, close_local, unless_error,
}

write_frame_outgoing :
    (typ id : ℕ) (p : Bytes) (s : Session)
    → (write_frame typ id p s).0 ≡ record s { outgoing = (write_frame typ id p s).0.outgoing }
unfolding write_frame
write_frame_outgoing typ id p s = ground arith

-- `t` is `s`, less what was taken from its queues.
pub record Takes (s t : Session) : Type 0 where
  streams : t.streams ≡ s.streams
  objects : t.objects ≡ s.objects
  next_id : t.next_id ≡ s.next_id
  accept : length t.accept ≤ length s.accept
  controls : length t.controls ≤ length s.controls
  is_closed : t.is_closed ≡ s.is_closed
  failure : t.failure ≡ s.failure

pub accept_stream-Takes :
    (pick : Bool) (s : Session) {t : Session} (r : Result SessionError ℕ)
    → accept_stream pick s ≡ some (t, r)
    → Takes s t
unfolding accept_stream
accept_stream-Takes pick s {t} r e = ground arith

pub next_control-Takes :
    (pick : Bool) (s : Session) {t : Session} (r : Result SessionError Control)
    → next_control pick s ≡ some (t, r)
    → Takes s t
unfolding next_control
next_control-Takes pick s {t} r e = ground arith

module _ {parity : ℕ} where
  unless_error-IsWellFormed :
      {s : Session} (total : ℕ) (o : Option SessionError)
      (rest : Session × (ℕ × Option SessionError))
      → IsWellFormed parity s
      → IsWellFormed parity rest.0
      → IsWellFormed parity (unless_error s total o rest).0
  unless_error-IsWellFormed total none rest v w = w
  unless_error-IsWellFormed total (some x) rest v w = v

  pub write_frame-IsWellFormed :
      {s : Session} (typ id : ℕ) (p : Bytes)
      → IsWellFormed parity s
      → IsWellFormed parity (write_frame typ id p s).0
  write_frame-IsWellFormed {s} typ id p v =
      rw (write_frame_outgoing typ id p s) (outgoing-IsWellFormed _ v)

  write_data_loop-IsWellFormed :
      (fuel : ℕ) {s : Session} (id : ℕ) (p : Bytes) (total : ℕ)
      → IsWellFormed parity s
      → IsWellFormed parity (write_data_loop fuel id p total s).0
  unfolding write_data_loop
  write_data_loop-IsWellFormed fuel id [] total v = v
  write_data_loop-IsWellFormed zero id (b ∷ bs) total v = v
  write_data_loop-IsWellFormed (suc fuel) {s} id (b ∷ bs) total v =
      let n : ℕ = min (length (b ∷ bs)) max_payload in
      let w = write_frame-IsWellFormed frame_data id (take n (b ∷ bs)) v in
      unless_error-IsWellFormed total (write_frame frame_data id (take n (b ∷ bs)) s).1 _ w
        (write_data_loop-IsWellFormed fuel id (drop n (b ∷ bs)) (total + n) w)

  pub stream_write-IsWellFormed :
      {s : Session} (st : Stream) (p : Bytes)
      → IsWellFormed parity s
      → IsWellFormed parity (stream_write st p s).0
  unfolding stream_write write_data
  stream_write-IsWellFormed {s} st p v =
      elim (Bool-cases (st.local_closed || not (is_none st.failure))) [
        | inl e ↦ rw e v
        | inr e ↦ rw e (write_data_loop-IsWellFormed (length p) st.id p 0 v)
      ]

  pub stream_close-IsWellFormed :
      {s : Session} (r : ℕ) (st : Stream)
      → IsWellFormed parity s
      → IsWellFormed parity (stream_close r st s).0
  unfolding stream_close close_local
  stream_close-IsWellFormed {s} r st v = elim (Bool-cases st.local_closed) [
    | inl e ↦ rw e v
    | inr e ↦ rw e (
        write_frame-IsWellFormed frame_close st.id []
          (remove_stream-IsWellFormed st.id (objects-IsWellFormed r close_local (λ x. refl) v)))
  ]

  add_stream-IsWellFormed :
      {s : Session} (meta : Bytes) → IsWellFormed parity s → IsWellFormed parity (add_stream meta s)
  unfolding add_stream
  add_stream-IsWellFormed {s} meta v = record {
    refers = Refers-insert s.next_id meta s.streams s.objects v.refers;
    own_ids = omega (arith, v.own_ids);
    accept_fits = v.accept_fits;
    controls_fit = v.controls_fit;
    close_reason = v.close_reason;
  }

  finish_open-IsWellFormed :
      {s : Session} (id r : ℕ) (e : Option SessionError)
      → IsWellFormed parity s
      → IsWellFormed parity (finish_open id r s e).0
  unfolding finish_open
  finish_open-IsWellFormed id r none v = v
  finish_open-IsWellFormed id r (some e) v = remove_stream-IsWellFormed id v

  pub open_stream-IsWellFormed :
      {s : Session} (meta : Bytes)
      → IsWellFormed parity s
      → IsWellFormed parity (open_stream meta s).0
  unfolding open_stream
  open_stream-IsWellFormed {s} meta v =
      if_both (λ (p : Session × Result SessionError ℕ). IsWellFormed parity p.0) s.is_closed _ _ v
        (finish_open-IsWellFormed s.next_id (length s.objects)
          (write_frame frame_open s.next_id meta (add_stream meta s)).1
          (write_frame-IsWellFormed frame_open s.next_id meta (add_stream-IsWellFormed meta v)))

  pub Takes-IsWellFormed :
      {s t : Session} → Takes s t → IsWellFormed parity s → IsWellFormed parity t
  Takes-IsWellFormed {s} {t} k v = record {
    refers = λ id r h. rw k.objects (v.refers id r (rw k.streams at h));
    own_ids = rw k.next_id v.own_ids;
    accept_fits = omega (arith, k.accept, v.accept_fits);
    controls_fit = omega (arith, k.controls, v.controls_fit);
    close_reason = λ h. rw k.failure (v.close_reason (rw k.is_closed at h));
  }

  pub close_with_err-IsWellFormed :
      {s : Session} (e : SessionError)
      → IsWellFormed parity s
      → IsWellFormed parity (close_with_err e s)
  unfolding close_with_err
  close_with_err-IsWellFormed {s} e v =
      if_both (λ t. IsWellFormed parity t) s.is_closed _ _ v
        (record {
          refers = Refers-nil _;
          own_ids = v.own_ids;
          accept_fits = v.accept_fits;
          controls_fit = v.controls_fit;
          close_reason = λ _. (e, refl);
        })
