-- ===== src/Wire/Mysql/Auth/Ending.antt =====
-- internal/wire/mysql/auth.go: `completeUpstreamAuth` ends, whatever the server sends.
use skybridge.Prelude.{
  ℕ, zero, suc, ◌<◌, ◌≡◌, ◌≢◌, refl, ap, arith, Bool, true, false, ◌&&◌, Option, none, some, [],
  ◌∷◌, ◌==◌, leb, Bytes, length, get_or, Result, ok, err, Result-cases, inl, inr,
}
use skybridge.Prelude.Ends.{
  EndsAt, Ends, Ends-return, Ends-fail, Ends-emit, Ends-guard, Ends-or_fail, Ends->>=, Ends->>,
  Ends-if, ReadsAt, >>=-EndsAt, >>=-EndsAt_any,
}
use skybridge.Prelude.Talk.{Talk, return}
use skybridge.Wire.Mysql.Packet.{read_packet}
use skybridge.Wire.Mysql.Results.Ending.{read_packet_shorter}
use skybridge.Wire.Mysql.Auth.{
  pkt_ok, pkt_err, auth_switch_request, auth_more_data, fast_auth_success, full_auth,
}
use skybridge.Wire.Mysql.Auth.Upstream.{
  Hashes, LoginError, out_of_fuel, next_packet, answer_switch, answer_more, answer_packet, go_on,
  complete_upstream_auth, finish_auth,
}

runs_out : LoginError → Bool
runs_out out_of_fuel = true
runs_out _ = false

next_packet-ReadsAt : (bs : Bytes) → ReadsAt runs_out (length bs) (next_packet bs).1
unfolding next_packet runs_out
next_packet-ReadsAt bs = elim (Result-cases (read_packet bs)) [
  | inl ((p, rest), e) ↦ rw (e, next_packet) (read_packet_shorter bs p rest e)
  | inr (x, e) ↦ rw (e, next_packet) refl
]

answer_switch-Ends :
    (h : Hashes) (password nonce : Bytes) (seq : ℕ) (asked : Bytes × Bytes)
    → Ends runs_out (answer_switch h password nonce seq asked)
unfolding answer_switch runs_out
answer_switch-Ends h password nonce seq (plugin, salt) =
    Ends->>= (Ends-or_fail _ _ refl) λ resp. Ends->> (Ends-emit _) λ _. Ends-return _

answer_more-Ends :
    (secure : Bool) (password nonce : Bytes) (seq : ℕ) (payload : Bytes)
    → Ends runs_out (answer_more secure password nonce seq payload)
unfolding answer_more runs_out
answer_more-Ends secure password nonce seq payload =
    Ends-if (leb 2 (length payload) && get_or payload 1 0 == fast_auth_success) (Ends-return _) (
      Ends-if (leb 2 (length payload) && get_or payload 1 0 == full_auth)
        (Ends->> (Ends-guard _ _ refl) λ _. Ends->> (Ends-emit _) λ _. Ends-return _)
        (Ends-fail _ refl))

answer_packet-Ends :
    (h : Hashes) (secure : Bool) (password nonce : Bytes) (seq : ℕ) (payload : Bytes)
    → Ends runs_out (answer_packet h secure password nonce seq payload)
unfolding answer_packet runs_out
answer_packet-Ends h secure password nonce seq [] = Ends-fail _ refl
answer_packet-Ends h secure password nonce seq (b ∷ payload) =
    Ends-if (b == pkt_ok) (Ends-return _) (
      Ends-if (b == pkt_err) (Ends-fail _ refl) (
        Ends-if (b == auth_switch_request) (answer_switch-Ends h password nonce seq _) (
          Ends-if (b == auth_more_data) (answer_more-Ends secure password nonce seq _)
            (Ends-fail _ refl))))

go_on_at :
    (again : Bytes → Talk LoginError (Unit {0})) (step : Option Bytes) (bs : Bytes)
    → ((nonce : Bytes) → EndsAt runs_out (length bs) (again nonce bs).1)
    → EndsAt runs_out (length bs) (go_on again step bs).1
unfolding go_on return
go_on_at again none bs h = omega arith
go_on_at again (some nonce) bs h = h nonce

complete_at :
    (fuel : ℕ) (h : Hashes) (secure : Bool) (password nonce bs : Bytes)
    → length bs < fuel
    → EndsAt runs_out (length bs) (complete_upstream_auth fuel h secure password nonce bs).1
unfolding complete_upstream_auth
complete_at zero h secure password nonce bs lt = absurd (omega arith)
complete_at (suc fuel) h secure password nonce bs lt =
    >>=-EndsAt runs_out _ _ bs (next_packet-ReadsAt bs) λ p rest less.
      >>=-EndsAt_any runs_out _ _ rest
        ((answer_packet-Ends h secure password nonce p.seq p.payload).at rest)
        λ step behind shorter.
          go_on_at (complete_upstream_auth fuel h secure password) step behind
            (λ next. complete_at fuel h secure password next behind (omega arith))

result_out : Result LoginError (Unit {0} × Bytes) → Bool
result_out (ok r) = false
result_out (err x) = runs_out x

never_out :
    (n : ℕ) (r : Result LoginError (Unit {0} × Bytes)) → EndsAt runs_out n r → r ≢ err out_of_fuel
unfolding result_out runs_out
never_out n (ok r) h e = absurd (cc)
never_out n (err x) h e = let out : runs_out x ≡ true = ap result_out e in absurd (cc)

-- Whatever bytes the server sends, the exchange behind the handshake response ends: its loop, with one
-- round more than there are bytes, does not run out of rounds.
pub finish_auth-ends :
    (h : Hashes) (secure : Bool) (password nonce bs : Bytes)
    → (finish_auth h secure password nonce bs).1 ≢ err out_of_fuel
unfolding finish_auth
finish_auth-ends h secure password nonce bs =
    never_out (length bs) (complete_upstream_auth (suc (length bs)) h secure password nonce bs).1
      (complete_at (suc (length bs)) h secure password nonce bs (omega arith))
