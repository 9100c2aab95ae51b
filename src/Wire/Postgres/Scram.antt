-- ===== src/Wire/Postgres/Scram.antt =====
-- internal/wire/postgres/auth.go: SCRAM-SHA-256, and the md5 response.
-- The hash functions and base64 are Go's; the random bytes of the nonce are an argument.
pub mod Proof
use skybridge.Prelude.{
  ℕ, zero, suc, ◌+◌, ◌-◌, ◌*◌, ◌/◌, ◌%◌, ◌^◌, Bool, true, false, not, ◌&&◌, ◌||◌, Option, none,
  some, List, [], ◌∷◌, ◌++◌, ltb, leb, ◌==◌, if◌then◌else◌, Bytes, length, take, drop, get_or,
  bytes_equal, Result, ok, err,
}
use skybridge.Prelude.Dict.{Dict, put, get_text}
use skybridge.Prelude.Endian.{put_be, be_uint}
use skybridge.Prelude.Split.{split_on}
use skybridge.Prelude.Xor.{xor_bytes}
use skybridge.Prelude.Talk.{Talk, return, fail, or_fail, emit, guard, ◌>>=◌, ◌>>◌}
use skybridge.Prelude.Text.{codes, has_prefix}
use skybridge.Wire.Postgres.Auth.{
  AuthError, random_failed, not_offered, expected_continue, malformed_server_first, foreign_nonce,
  bad_salt, bad_iterations, expected_final, bad_signature, signature_mismatch, scram_rejected,
  proof_rejected, msg_authentication, msg_password, msg_error_response, auth_sasl_continue,
  auth_sasl_final, read_backend_message, frontend, parse_error_response,
}

-- crypto/md5, crypto/sha256, crypto/hmac over SHA-256, and encoding/base64's StdEncoding.
pub record Crypto : Type 0 where
  pub md5 : Bytes → Bytes
  pub sha256 : Bytes → Bytes
  pub hmac_sha256 : Bytes → Bytes → Bytes
  pub encode64 : Bytes → Bytes
  pub decode64 : Bytes → Option Bytes

abbrev pub scram_sha256 : Bytes
scram_sha256 = codes "SCRAM-SHA-256"

hex_digit : ℕ → ℕ
hex_digit d = get_or (codes "0123456789abcdef") d 0

unfoldable pub hex : Bytes → Bytes
unfolding hex_digit
hex [] = []
hex (c ∷ sum) = hex_digit (c / 16) ∷ hex_digit (c % 16) ∷ hex sum

unfoldable pub md5_password : Crypto → Bytes → Bytes → Bytes → Bytes
unfolding hex
md5_password c user password salt =
    codes "md5" ++ hex (c.md5 (hex (c.md5 (password ++ user)) ++ salt))

unfoldable pub is_member : Bytes → List Bytes → Bool
is_member m [] = false
is_member m (x ∷ xs) = bytes_equal x m || is_member m xs

unfoldable pub mechanism_offered : Bytes → Bytes → Bool
unfolding is_member
mechanism_offered payload mech = is_member mech (split_on 0 payload)

-- `kv[:i]` and `kv[i+1:]` for the first '=' at `i`.
unfoldable pub cut_eq : Bytes → Option (Bytes × Bytes)
cut_eq [] = none
cut_eq (b ∷ kv) =
    if b == b'='
    then some ([], kv)
    else elim (cut_eq kv) [ none ↦ none | some (k, v) ↦ some (b ∷ k, v) ]

-- An attribute with an empty key is left out.
unfoldable pub add_attr : Option (Bytes × Bytes) → Dict Bytes → Dict Bytes
add_attr (some (b ∷ k, v)) out = put (b ∷ k) v out
add_attr _ out = out

unfoldable pub attrs_of : List Bytes → Dict Bytes → Dict Bytes
unfolding cut_eq add_attr
attrs_of [] out = out
attrs_of (kv ∷ kvs) out = attrs_of kvs (add_attr (cut_eq kv) out)

unfoldable pub parse_scram_attrs : Bytes → Dict Bytes
unfolding attrs_of
parse_scram_attrs s = attrs_of (split_on b',' s) []

-- `strconv.Atoi` on a text of digits without a sign.
unfoldable pub digits_value : ℕ → Bytes → Option ℕ
digits_value acc [] = some acc
digits_value acc (b ∷ bs) =
    let rest = digits_value (acc * 10 + (b - b'0')) bs in
    if leb b'0' b && leb b b'9' then rest else none

abbrev without_plus : Bytes → Bytes
without_plus [] = []
without_plus (b ∷ bs) = if b == b'+' then bs else b ∷ bs

-- The ints above zero that `strconv.Atoi` reads: one sign at most, and a value below 2^63.
unfoldable pub iteration_count : Bytes → Option ℕ
unfolding digits_value
iteration_count s = elim (without_plus s) [
  | [] ↦ none
  | b ∷ bs ↦ elim (digits_value 0 (b ∷ bs)) [
    | none ↦ none
    | some n ↦ if n == 0 || leb (2 ^ 63) n then none else some n
  ]
]

-- The rounds behind the first one.
unfoldable pub pbkdf2_rounds : Crypto → ℕ → Bytes → Bytes → Bytes → Bytes
unfolding xor_bytes
pbkdf2_rounds c zero password u t = t
pbkdf2_rounds c (suc j) password u t =
    pbkdf2_rounds c j password (c.hmac_sha256 password u) (xor_bytes t (c.hmac_sha256 password u))

unfoldable pub pbkdf2_block : Crypto → Bytes → Bytes → ℕ → ℕ → Bytes
unfolding pbkdf2_rounds
pbkdf2_block c password salt iter i =
    let u : Bytes = c.hmac_sha256 password (salt ++ put_be 4 i) in
    pbkdf2_rounds c (iter - 1) password u u

-- `n` blocks from number `i` on.
unfoldable pub pbkdf2_blocks : Crypto → Bytes → Bytes → ℕ → ℕ → ℕ → Bytes
unfolding pbkdf2_block
pbkdf2_blocks c password salt iter zero i = []
pbkdf2_blocks c password salt iter (suc n) i =
    pbkdf2_block c password salt iter i ++ pbkdf2_blocks c password salt iter n (i + 1)

unfoldable pub pbkdf2_sha256 : Crypto → Bytes → Bytes → ℕ → ℕ → Bytes
unfolding pbkdf2_blocks
pbkdf2_sha256 c password salt iter key_len =
    take key_len (pbkdf2_blocks c password salt iter ((key_len + 32 - 1) / 32) 1)

-- What the server's first message says.
pub record ServerFirst : Type 0 where
  pub nonce : Bytes
  pub salt : Bytes
  pub iterations : ℕ

is_empty : Bytes → Bool
is_empty [] = true
is_empty (b ∷ bs) = false

unfoldable pub read_server_first : Crypto → Bytes → Bytes → Talk AuthError ServerFirst
unfolding is_empty
read_server_first c client_nonce server_first = do
  let attrs = parse_scram_attrs server_first
  guard
      (not (
        is_empty (get_text (codes "r") attrs)
        || (is_empty (get_text (codes "s") attrs) || is_empty (get_text (codes "i") attrs))))
      malformed_server_first
  guard (has_prefix (get_text (codes "r") attrs) client_nonce) foreign_nonce
  salt ← or_fail (c.decode64 (get_text (codes "s") attrs)) bad_salt
  iter ←
      or_fail (iteration_count (get_text (codes "i") attrs))
        (bad_iterations (get_text (codes "i") attrs))
  return (record { nonce = get_text (codes "r") attrs; salt = salt; iterations = iter })

abbrev pub client_first_bare : Bytes → Bytes
client_first_bare client_nonce = codes "n=,r=" ++ client_nonce

-- The mechanism, and the response behind its length.
unfoldable pub initial_response : Bytes → Bytes
initial_response bare =
    scram_sha256 ++ (0 ∷ (put_be 4 (length (codes "n,," ++ bare)) ++ (codes "n,," ++ bare)))

unfoldable pub without_proof : Crypto → Bytes → Bytes
without_proof c nonce = codes "c=" ++ (c.encode64 (codes "n,,") ++ (codes ",r=" ++ nonce))

unfoldable pub auth_message : Crypto → Bytes → Bytes → Bytes → Bytes
unfolding without_proof
auth_message c client_nonce server_first nonce =
    client_first_bare client_nonce ++ (b',' ∷ (server_first ++ (b',' ∷ without_proof c nonce)))

unfoldable pub salted_password : Crypto → Bytes → ServerFirst → Bytes
salted_password c password first = pbkdf2_sha256 c password first.salt first.iterations 32

unfoldable pub client_final : Crypto → Bytes → Bytes → Bytes → Bytes
unfolding without_proof xor_bytes
client_final c salted nonce message =
    let client_key : Bytes = c.hmac_sha256 salted (codes "Client Key") in
    without_proof c nonce
    ++ (codes ",p="
        ++ c.encode64 (xor_bytes client_key (c.hmac_sha256 (c.sha256 client_key) message)))

unfoldable pub server_signature : Crypto → Bytes → Bytes → Bytes
server_signature c salted message =
    c.hmac_sha256 (c.hmac_sha256 salted (codes "Server Key")) message

-- The reply of the given kind, without its code.
unfoldable pub read_sasl : ℕ → (Bytes → AuthError) → AuthError → Talk AuthError Bytes
read_sasl code refused unexpected = do
  (typ, payload) ← read_backend_message
  guard (not (typ == msg_error_response)) (refused (parse_error_response payload))
  guard (typ == msg_authentication && (leb 4 (length payload) && be_uint (take 4 payload) == code))
      unexpected
  return (drop 4 payload)

unfoldable pub scram_client_exchange :
    Crypto → Option Bytes → Bytes → Bytes → Talk AuthError (Unit {0})
scram_client_exchange c random sasl_payload password = do
  guard (mechanism_offered sasl_payload scram_sha256) not_offered
  raw ← or_fail random random_failed
  emit (frontend msg_password (initial_response (client_first_bare (c.encode64 raw))))
  server_first ← read_sasl auth_sasl_continue scram_rejected expected_continue
  first ← read_server_first c (c.encode64 raw) server_first
  let message = auth_message c (c.encode64 raw) server_first first.nonce
  let salted = salted_password c password first
  emit (frontend msg_password (client_final c salted first.nonce message))
  server_final ← read_sasl auth_sasl_final proof_rejected expected_final
  signature ←
      or_fail (c.decode64 (get_text (codes "v") (parse_scram_attrs server_final))) bad_signature
  guard (bytes_equal signature (server_signature c salted message)) signature_mismatch
