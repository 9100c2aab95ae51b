-- ===== src/Tunnel/Session/WellFormed.antt =====
-- What holds of a session between its steps, and the small changes that keep it.
use skybridge.Prelude.{
  ℕ, ◌%◌, ◌≤◌, ◌≡◌, arith, true, some, List, [], ◌∷◌, ◌++◌, ◌==◌, if◌then◌else◌, Bytes, length,
  get_elem?, Bool-cases, ==_iff, inl, inr,
}
use skybridge.Tunnel.Stream.{SessionError, Stream, new_stream}
use skybridge.Tunnel.Session.{
  Session, find, remove, insert, update, remove_stream, accept_cap, control_cap,
}
use skybridge.Tunnel.Session.Maps.{
  find-remove, find-insert, get_elem?-append, get_elem?-append_last, get_elem?-update,
}

-- Every id of the map leads to a stream of the heap that has this id.
abbrev pub Refers : List (ℕ × ℕ) → List Stream → Type 0
Refers m xs =
    (id r : ℕ) → find id m ≡ some r → (st : Stream) × (get_elem? xs r ≡ some st) × (st.id ≡ id)

pub Refers-nil : (xs : List Stream) → Refers [] xs
unfolding find
Refers-nil xs id r h = cc

pub Refers-remove :
    (k : ℕ) (m : List (ℕ × ℕ)) (xs : List Stream) → Refers m xs → Refers (remove k m) xs
Refers-remove k m xs h id r e = h id r (ground (arith, find-remove k id m))

Refers-append :
    (m : List (ℕ × ℕ)) (xs : List Stream) (x : Stream) → Refers m xs → Refers m (xs ++ (x ∷ []))
Refers-append m xs x h id r e = let (st, at, is) = h id r e in (st, get_elem?-append xs x r at, is)

pub Refers-insert :
    (k : ℕ) (meta : Bytes) (m : List (ℕ × ℕ)) (xs : List Stream)
    → Refers m xs
    → Refers (insert k (length xs) m) (xs ++ (new_stream k meta ∷ []))
unfolding new_stream
Refers-insert k meta m xs h id r e = elim (Bool-cases (k == id)) [
  | inl same ↦
      let at : length xs ≡ r = ground (arith, find-insert k (length xs) id m) in
      (
        new_stream k meta,
        rw (← at) (get_elem?-append_last xs (new_stream k meta)),
        (==_iff k id).0 same,
      )
  | inr other ↦
      Refers-append m xs (new_stream k meta) h id r (ground (arith, find-insert k (length xs) id m))
]

pub Refers-update :
    (q : ℕ) (f : Stream → Stream) (m : List (ℕ × ℕ)) (xs : List Stream)
    → ((x : Stream) → (f x).id ≡ x.id)
    → Refers m xs
    → Refers m (update q f xs)
Refers-update q f m xs keeps h id r e =
    let (st, at, is) = h id r e in
    (if q == r then f st else st, get_elem?-update q r f xs at, ground (arith, keeps st))

-- `parity` is 1 for the dialer and 0 for the other side.
pub record IsWellFormed (parity : ℕ) (s : Session) : Type 0 where
  pub refers : Refers s.streams s.objects
  pub own_ids : s.next_id % 2 ≡ parity
  pub accept_fits : length s.accept ≤ accept_cap
  pub controls_fit : length s.controls ≤ control_cap
  pub close_reason : s.is_closed ≡ true → (e : SessionError) × (s.failure ≡ some e)

module _ {parity : ℕ} where
  -- An operation that writes to the connection and touches nothing else.
  pub outgoing-IsWellFormed :
      {s : Session} (w : Bytes)
      → IsWellFormed parity s
      → IsWellFormed parity (record s { outgoing = w })
  outgoing-IsWellFormed w v = record {
    refers = v.refers;
    own_ids = v.own_ids;
    accept_fits = v.accept_fits;
    controls_fit = v.controls_fit;
    close_reason = v.close_reason;
  }

  pub objects-IsWellFormed :
      {s : Session} (q : ℕ) (f : Stream → Stream)
      → ((x : Stream) → (f x).id ≡ x.id)
      → IsWellFormed parity s
      → IsWellFormed parity (record s { objects = update q f s.objects })
  objects-IsWellFormed {s} q f keeps v = record {
    refers = Refers-update q f s.streams s.objects keeps v.refers;
    own_ids = v.own_ids;
    accept_fits = v.accept_fits;
    controls_fit = v.controls_fit;
    close_reason = v.close_reason;
  }

  pub remove_stream-IsWellFormed :
      {s : Session} (id : ℕ) → IsWellFormed parity s → IsWellFormed parity (remove_stream id s)
  unfolding remove_stream
  remove_stream-IsWellFormed {s} id v = record {
    refers = Refers-remove id s.streams s.objects v.refers;
    own_ids = v.own_ids;
    accept_fits = v.accept_fits;
    controls_fit = v.controls_fit;
    close_reason = v.close_reason;
  }
