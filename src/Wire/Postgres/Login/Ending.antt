-- ===== src/Wire/Postgres/Login/Ending.antt =====
-- internal/wire/postgres/auth.go: the login ends, whatever the server sends.
use skybridge.Prelude.{
  ℕ, zero, suc, ◌<◌, ◌≡◌, ◌≢◌, refl, ap, arith, Bool, true, false, Option, leb, ◌==◌, Bytes, length,
  Result, ok, err, length-drop, leb→le, Bool-cases, inl, inr,
}
use skybridge.Prelude.Ends.{
  EndsAt, Ends, Ends-if, ReadsAt, >>=-ReadsAt, >>=-EndsAt, Ends-return, Ends-fail, Ends-emit,
  Ends-guard, Ends-or_fail, Ends->>=, Ends->>,
}
use skybridge.Prelude.Reader.{read_full}
use skybridge.Prelude.Talk.{Talk, return, emit, ◌>>=◌, ◌>>◌}
use skybridge.Prelude.Text.{Unicode}
use skybridge.Wire.Postgres.Auth.{
  auth_ok, auth_cleartext_password, auth_md5_password, auth_sasl, AuthError, out_of_fuel,
  read_exact, read_backend_message,
}
use skybridge.Wire.Postgres.Scram.{Crypto, read_server_first, read_sasl, scram_client_exchange}
use skybridge.Wire.Credential.{UpstreamCredential}
use skybridge.Wire.Postgres.Login.{
  answer_request, login_round, go_on, login_loop, authenticate_upstream,
}

runs_out : AuthError → Bool
runs_out out_of_fuel = true
runs_out _ = false

read_exact_at : (n : ℕ) (bs : Bytes) → EndsAt runs_out (length bs) (read_exact n bs).1
unfolding read_exact read_full runs_out
read_exact_at n bs = elim (Bool-cases (leb n (length bs))) [
  | inl long ↦ rw (long, read_exact) (omega (arith, length-drop n bs))
  | inr short ↦ rw (short, read_exact) refl
]

read_exact-Ends : (n : ℕ) → Ends runs_out (read_exact n)
read_exact-Ends n = record { at = read_exact_at n }

read_backend_message-Ends : Ends runs_out read_backend_message
unfolding read_backend_message runs_out
read_backend_message-Ends =
    Ends->>= (read_exact-Ends 5) λ hdr.
      Ends->> (Ends-guard _ _ refl) λ _. Ends->>= (read_exact-Ends _) λ payload. Ends-return _

read_sasl-Ends :
    (code : ℕ) (refused : Bytes → AuthError) (unexpected : AuthError)
    → ((text : Bytes) → runs_out (refused text) ≡ false)
    → runs_out unexpected ≡ false
    → Ends runs_out (read_sasl code refused unexpected)
unfolding read_sasl
read_sasl-Ends code refused unexpected r u =
    Ends->>= read_backend_message-Ends
      λ m. Ends->> (Ends-guard _ _ (r _)) λ _. Ends->> (Ends-guard _ _ u) λ _. Ends-return _

read_server_first-Ends :
    (c : Crypto) (nonce first : Bytes) → Ends runs_out (read_server_first c nonce first)
unfolding read_server_first runs_out
read_server_first-Ends c nonce first = Ends->> (Ends-guard _ _ refl) λ _.
    Ends->> (Ends-guard _ _ refl) λ _.
      Ends->>= (Ends-or_fail _ _ refl)
        λ salt. Ends->>= (Ends-or_fail _ _ refl) λ iter. Ends-return _

scram_client_exchange-Ends :
    (c : Crypto) (random : Option Bytes) (sasl_payload password : Bytes)
    → Ends runs_out (scram_client_exchange c random sasl_payload password)
unfolding scram_client_exchange runs_out
scram_client_exchange-Ends c random sasl_payload password = Ends->> (Ends-guard _ _ refl) λ _.
    Ends->>= (Ends-or_fail _ _ refl) λ raw. Ends->> (Ends-emit _) λ _.
      Ends->>= (read_sasl-Ends _ _ _ (λ text. refl) refl) λ server_first.
        Ends->>= (read_server_first-Ends c _ _) λ first. Ends->> (Ends-emit _) λ _.
          Ends->>= (read_sasl-Ends _ _ _ (λ text. refl) refl)
            λ server_final. Ends->>= (Ends-or_fail _ _ refl) λ signature. Ends-guard _ _ refl

answer_request-Ends :
    (c : Crypto) (random : Option Bytes) (creds : UpstreamCredential) (code : ℕ) (payload : Bytes)
    → Ends runs_out (answer_request c random creds code payload)
unfolding answer_request runs_out
answer_request-Ends c random creds code payload = Ends-if (code == auth_ok) (Ends-return true) (
    Ends-if (code == auth_cleartext_password) (Ends->> (Ends-emit _) λ _. Ends-return false) (
      Ends-if (code == auth_md5_password)
        (Ends->> (Ends-guard _ _ refl) λ _. Ends->> (Ends-emit _) λ _. Ends-return false)
        (Ends-if (code == auth_sasl)
          (Ends->> (scram_client_exchange-Ends c random _ _) λ _. Ends-return false)
          (Ends-fail _ refl))))

read_exact-ReadsAt : (n : ℕ) (bs : Bytes) → 0 < n → ReadsAt runs_out (length bs) (read_exact n bs).1
unfolding read_exact read_full runs_out
read_exact-ReadsAt n bs pos = elim (Bool-cases (leb n (length bs))) [
  | inl long ↦ rw (long, read_exact) (omega (arith, length-drop n bs, leb→le n (length bs) long))
  | inr short ↦ rw (short, read_exact) refl
]

read_backend_message-ReadsAt :
    (bs : Bytes) → ReadsAt runs_out (length bs) (read_backend_message bs).1
unfolding read_backend_message runs_out
read_backend_message-ReadsAt bs =
    >>=-ReadsAt runs_out _ _ bs (read_exact-ReadsAt 5 bs (omega arith)) λ hdr.
      Ends->> (Ends-guard _ _ refl) λ _. Ends->>= (read_exact-Ends _) λ payload. Ends-return _

login_round-ReadsAt :
    (c : Crypto) (random : Option Bytes) (creds : UpstreamCredential) (bs : Bytes)
    → ReadsAt runs_out (length bs) (login_round c random creds bs).1
unfolding login_round runs_out
login_round-ReadsAt c random creds bs =
    >>=-ReadsAt runs_out _ _ bs (read_backend_message-ReadsAt bs) λ m.
      Ends->> (Ends-guard _ _ refl) λ _.
        Ends->> (Ends-guard _ _ refl)
          λ _. Ends->> (Ends-guard _ _ refl) λ _. answer_request-Ends c random creds _ _

go_on_at :
    (done : Bool) (again : Talk AuthError (Unit {0})) (bs : Bytes)
    → EndsAt runs_out (length bs) (again bs).1
    → EndsAt runs_out (length bs) (go_on done again bs).1
unfolding go_on return
go_on_at true again bs h = omega arith
go_on_at false again bs h = h

login_loop_at :
    (fuel : ℕ) (c : Crypto) (draws : ℕ → Option Bytes) (creds : UpstreamCredential) (bs : Bytes)
    → length bs < fuel
    → EndsAt runs_out (length bs) (login_loop fuel c draws creds bs).1
unfolding login_loop
login_loop_at zero c draws creds bs lt = absurd (omega arith)
login_loop_at (suc fuel) c draws creds bs lt =
    >>=-EndsAt runs_out _ _ bs (login_round-ReadsAt c (draws fuel) creds bs) λ done rest less.
      go_on_at done (login_loop fuel c draws creds) rest
        (login_loop_at fuel c draws creds rest (omega arith))

result_out : Result AuthError (Unit {0} × Bytes) → Bool
result_out (ok r) = false
result_out (err x) = runs_out x

never_out :
    (n : ℕ) (r : Result AuthError (Unit {0} × Bytes)) → EndsAt runs_out n r → r ≢ err out_of_fuel
unfolding result_out runs_out
never_out n (ok r) h e = absurd (cc)
never_out n (err x) h e = let out : runs_out x ≡ true = ap result_out e in absurd (cc)

-- Whatever finite sequence of bytes the server sends, the login on the server's side ends: the loop,
-- with one round more than there are bytes, never runs out of rounds.
pub authenticate_upstream-ends :
    (u : Unicode) (c : Crypto) (draws : ℕ → Option Bytes) (creds : UpstreamCredential)
    (startup_database bs : Bytes)
    → (authenticate_upstream u c draws creds startup_database bs).1 ≢ err out_of_fuel
unfolding authenticate_upstream ◌>>=◌ ◌>>◌ emit
authenticate_upstream-ends u c draws creds startup_database bs =
    never_out (length bs) (login_loop (suc (length bs)) c draws creds bs).1
      (login_loop_at (suc (length bs)) c draws creds bs (omega arith))
