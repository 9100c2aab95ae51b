-- ===== src/Tunnel/Session/Invariant/Frames.antt =====
-- The frames of the peer keep a session well formed.
use skybridge.Tunnel.Session.WellFormed.{
  Refers-insert, IsWellFormed, objects-IsWellFormed, remove_stream-IsWellFormed,
}
use skybridge.Prelude.{
  ℕ, ◌≤◌, ◌≡◌, refl, arith, true, Option, none, some, List, [], ◌∷◌, ◌++◌, ◌==◌, Bytes, length,
  length-append, Bool-cases, if_both, ltb, ltb→lt, inl, inr,
}
use skybridge.Tunnel.Frame.{Frame, frame_control, frame_open, frame_data, frame_close}
use skybridge.Tunnel.Control.{Control, ControlCodec}
use skybridge.Tunnel.Stream.{Stream, new_stream, deliver, remote_close}
use skybridge.Tunnel.Session.{Session, find, insert, accept_cap, control_cap}
use skybridge.Tunnel.Session.Loops.{
  at_ref, at_stream, queue_control, handle_control, handle_open, handle_frame, offer,
}

grow_fits {ℓ} :
    {A : Type ℓ} (xs : List A) (x : A) (cap : ℕ)
    → ltb (length xs) cap ≡ true
    → length (xs ++ (x ∷ [])) ≤ cap
grow_fits xs x cap h = omega (arith, length-append xs (x ∷ []), ltb→lt _ _ h)

id-deliver : (p : Bytes) (x : Stream) → (deliver p x).id ≡ x.id
unfolding deliver
id-deliver p x = ground arith

id-remote_close : (x : Stream) → (remote_close x).id ≡ x.id
unfolding remote_close
id-remote_close x = refl

module _ {parity : ℕ} where
  at_ref-IsWellFormed :
      {s : Session} (o : Option ℕ) (f : Stream → Stream)
      → ((x : Stream) → (f x).id ≡ x.id)
      → IsWellFormed parity s
      → IsWellFormed parity (at_ref o f s)
  unfolding at_ref
  at_ref-IsWellFormed none f keeps v = v
  at_ref-IsWellFormed (some r) f keeps v = objects-IsWellFormed r f keeps v

  queue_control-IsWellFormed :
      {s : Session} (o : Option Control)
      → IsWellFormed parity s
      → IsWellFormed parity (queue_control o s)
  unfolding queue_control
  queue_control-IsWellFormed none v = v
  queue_control-IsWellFormed {s} (some c) v =
      elim (Bool-cases (ltb (length s.controls) control_cap)) [
        | inl room ↦ rw room (record {
          refers = v.refers;
          own_ids = v.own_ids;
          accept_fits = v.accept_fits;
          controls_fit = grow_fits s.controls c control_cap room;
          close_reason = v.close_reason;
        })
        | inr full ↦ rw full v
      ]

  pub offer-IsWellFormed :
      {s : Session} (r : ℕ) → IsWellFormed parity s → IsWellFormed parity (offer r s)
  unfolding offer
  offer-IsWellFormed {s} r v = elim (Bool-cases (ltb (length s.accept) accept_cap)) [
    | inl room ↦ rw room (record {
      refers = v.refers;
      own_ids = v.own_ids;
      accept_fits = grow_fits s.accept r accept_cap room;
      controls_fit = v.controls_fit;
      close_reason = v.close_reason;
    })
    | inr full ↦ rw full (record {
      refers = v.refers;
      own_ids = v.own_ids;
      accept_fits = v.accept_fits;
      controls_fit = v.controls_fit;
      close_reason = v.close_reason;
    })
  ]

  handle_open-IsWellFormed :
      {s : Session} (id : ℕ) (meta : Bytes)
      → IsWellFormed parity s
      → IsWellFormed parity (handle_open id meta s)
  unfolding handle_open
  handle_open-IsWellFormed {s} id meta v =
      offer-IsWellFormed
        {s = record s {
          objects = s.objects ++ (new_stream id meta ∷ []);
          streams = insert id (length s.objects) s.streams;
        }}
        (length s.objects)
        (record {
          refers = Refers-insert id meta s.streams s.objects v.refers;
          own_ids = v.own_ids;
          accept_fits = v.accept_fits;
          controls_fit = v.controls_fit;
          close_reason = v.close_reason;
        })

  at_stream-IsWellFormed :
      {s : Session} (id : ℕ) (f : Stream → Stream)
      → ((x : Stream) → (f x).id ≡ x.id)
      → IsWellFormed parity s
      → IsWellFormed parity (at_stream id f s)
  unfolding at_stream
  at_stream-IsWellFormed {s} id f keeps v = at_ref-IsWellFormed (find id s.streams) f keeps v

  pub handle_frame-IsWellFormed :
      {s : Session} (codec : ControlCodec) (f : Frame)
      → IsWellFormed parity s
      → IsWellFormed parity (handle_frame codec f s)
  unfolding handle_frame handle_control
  handle_frame-IsWellFormed {s} codec f v =
      if_both W (f.typ == frame_control) _ _ (queue_control-IsWellFormed (codec.decode f.payload) v)
        (if_both W (f.typ == frame_open) _ _ (handle_open-IsWellFormed f.conn_id f.payload v) (
          if_both W (f.typ == frame_data) _ _
            (at_stream-IsWellFormed f.conn_id (deliver f.payload) (id-deliver f.payload) v)
            (if_both W (f.typ == frame_close) _ _
              (remove_stream-IsWellFormed f.conn_id
                (at_stream-IsWellFormed f.conn_id remote_close id-remote_close v))
              v)))
    where
      W : Session → Type 0
      W t = IsWellFormed parity t
