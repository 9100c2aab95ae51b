-- ===== src/Edge/Transport/Backoff.antt =====
-- internal/edge/transport/transport.go: how long the call-home client waits.
use skybridge.Prelude.{
  ℕ, ◌≤◌, ◌≡◌, ap, ◌⊎◌, inl, inr, arith, Bool, not, Option, List, [], ◌∷◌, All, Bytes, Option-cases,
  if_both, min,
}
use skybridge.Prelude.Int.{ℤ}
use skybridge.Edge.Transport.{
  initial_backoff, max_backoff_of, Dial, dial_failed, served, Round, RunEnd, wait_of, next_backoff,
  run, client_run,
}

-- Between the lesser and the greater of a second and the cap.
abbrev pub IsBounded : ℕ → ℕ → Type 0
IsBounded cap w = (min initial_backoff cap ≤ w) × ((w ≤ initial_backoff) ⊎ (w ≤ cap))

wait_of-IsBounded :
    (cap backoff : ℕ) (d : Dial) → IsBounded cap backoff → IsBounded cap (wait_of backoff d)
unfolding wait_of
wait_of-IsBounded cap backoff (dial_failed e) h = h
wait_of-IsBounded cap backoff (served e) h = (omega arith, inl (omega arith))

next_backoff-IsBounded :
    (cap backoff : ℕ) → IsBounded cap backoff → IsBounded cap (next_backoff cap backoff)
unfolding next_backoff
next_backoff-IsBounded cap backoff h = ground arith

-- A round whose dial succeeded.
pub IsServed : Round → Type 0
IsServed r = (end : Option Bytes) × (r.dial ≡ served end)

-- A property of the waits of the rest, and of the wait of a round, holds of all of them.
run-All :
    (P : ℕ → Type 0) (cap backoff : ℕ) (reconnect : Bool) (r : Round) (rs : List Round)
    → P (wait_of backoff r.dial)
    → All P (run cap reconnect (next_backoff cap (wait_of backoff r.dial)) rs).0
    → All P (run cap reconnect backoff (r ∷ rs)).0
unfolding run
run-All P cap backoff reconnect r rs here later = elim (Option-cases r.material) [
  | inr (e, h) ↦ rw (h, run) tt
  | inl h ↦
      let branch = if_both (λ (x : List ℕ × Option RunEnd). All P x.0) in
      rw (h, run)
        (branch (not reconnect) _ _ tt (branch r.is_cancelled _ _ (here, tt) (here, later)))
]

run-IsBounded :
    (cap backoff : ℕ) (reconnect : Bool) (rs : List Round)
    → IsBounded cap backoff
    → All (IsBounded cap) (run cap reconnect backoff rs).0
unfolding run
run-IsBounded cap backoff reconnect [] h = tt
run-IsBounded cap backoff reconnect (r ∷ rs) h =
    let here = wait_of-IsBounded cap backoff r.dial h in
    run-All (IsBounded cap) cap backoff reconnect r rs here (
      run-IsBounded cap (next_backoff cap (wait_of backoff r.dial)) reconnect rs
        (next_backoff-IsBounded cap (wait_of backoff r.dial) here))

run_served :
    (cap backoff : ℕ) (reconnect : Bool) (rs : List Round)
    → All IsServed rs
    → All (λ w. w ≡ initial_backoff) (run cap reconnect backoff rs).0
unfolding run wait_of IsServed
run_served cap backoff reconnect [] h = tt
run_served cap backoff reconnect (r ∷ rs) ((end, e), h) =
    run-All (λ w. w ≡ initial_backoff) cap backoff reconnect r rs (ap (wait_of backoff) e)
      (run_served cap (next_backoff cap (wait_of backoff r.dial)) reconnect rs h)

-- Whatever the rounds meet, every wait lies between the lesser and the greater of a second and the cap;
-- and after dials that all succeed every wait is a second, in whatever way the streams end.
pub client_run-IsBounded :
    (configured : ℤ) (reconnect : Bool) (rs : List Round)
    → let waits = (client_run configured reconnect rs).0 in
      All (IsBounded (max_backoff_of configured)) waits
      × (All IsServed rs → All (λ w. w ≡ initial_backoff) waits)
unfolding client_run
client_run-IsBounded configured reconnect rs =
    let cap = max_backoff_of configured in
    (
      run-IsBounded cap initial_backoff reconnect rs (omega arith, inl (omega arith)),
      run_served cap initial_backoff reconnect rs,
    )
