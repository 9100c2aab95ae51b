-- ===== src/Wire/Mysql/Auth/Overflow.antt =====
-- internal/wire/mysql/auth.go: `parseHandshakeResponse` on a length that turns the offset negative.
use skybridge.Prelude.{
  ℕ, suc, ◌+◌, ◌^◌, ◌≤◌, ◌<◌, ◌≡◌, refl, sym, ap, ◌∙◌, arith, true, some, [], ◌∷◌, ◌++◌, has_bit,
  Bytes, length, drop, ok, err, append_assoc, length-append, drop-append_of, le→leb,
}
use skybridge.Prelude.Endian.{put_le, length-put_le}
use skybridge.Prelude.Split.{IsFree}
use skybridge.Wire.Mysql.LenEnc.{out_of_range, add_int, put_len_enc_int}
use skybridge.Wire.Mysql.LenEnc.RoundTrip.{read_len_enc_int-put_len_enc_int}
use skybridge.Wire.Mysql.Rows.Crash.{long_field, long_field-put, length-long_field}
use skybridge.Wire.Mysql.Auth.{
  read_nul_string, skip_auth_response, database_at, behind_user, parse_handshake_response,
}
use skybridge.Wire.Mysql.Auth.RoundTrip.{nul_text-append}

-- A response with a length of the auth response in nine bytes.
abbrev pub response : Bytes → Bytes → ℕ → Bytes → Bytes
response front user l rest = front ++ (user ++ (0 ∷ long_field l rest))

skip_overflow :
    (p rest : Bytes) (caps off l : ℕ)
    → drop off p ≡ long_field l rest
    → length p < 2 ^ 63
    → 2 ^ 63 ≤ l
    → l < 2 ^ 64
    → has_bit 21 caps ≡ true
    → skip_auth_response p caps off ≡ ok (some (add_int off (add_int 9 l)))
unfolding skip_auth_response
skip_overflow p rest caps off l at small low high lenenc =
    let long : put_len_enc_int l ≡ 0xFE ∷ put_le 8 l = long_field-put l (omega arith) in
    let nine : length (put_len_enc_int l) ≡ 9 = ap length long ∙ ap suc (length-put_le 8 l) in
    rw
      (
        lenenc,
        read_len_enc_int-put_len_enc_int p off l rest small high
            (at ∙ ap (λ xs. xs ++ rest) (sym long)),
        nine,
        skip_auth_response,
      )
      refl

database_overflow :
    (p : Bytes) (caps off : ℕ)
    → 2 ^ 63 ≤ off
    → has_bit 3 caps ≡ true
    → database_at p caps (some off) ≡ err out_of_range
unfolding database_at read_nul_string
database_overflow p caps off negative named =
    rw (named, le→leb (2 ^ 63) off negative, database_at, read_nul_string) refl

behind_overflow :
    (p user : Bytes) (caps off next : ℕ)
    → skip_auth_response p caps off ≡ ok (some next)
    → database_at p caps (some next) ≡ err out_of_range
    → behind_user p caps (some (user, off)) ≡ err out_of_range
unfolding behind_user
behind_overflow p user caps off next skip db = rw (skip, behind_user) (rw (db, behind_user) refl)

-- A handshake response of a client that sets the flags for a length-encoded auth response and for a
-- database, and announces an auth response of 2^63 bytes or more, stops the process: for each such
-- length to which the offset behind the length field can be added below 2^64, each user without a
-- zero byte, each 32 bytes in front, and whatever follows in a response of less than 2^63 bytes.
pub parse_handshake_response-overflow :
    (front user : Bytes) (l : ℕ) (rest : Bytes) (caps : ℕ)
    → length front ≡ 32
    → IsFree 0 user
    → 2 ^ 63 ≤ l
    → l + (42 + length user) < 2 ^ 64
    → length (response front user l rest) < 2 ^ 63
    → has_bit 21 caps ≡ true
    → has_bit 3 caps ≡ true
    → parse_handshake_response (response front user l rest) caps ≡ err out_of_range
unfolding parse_handshake_response
parse_handshake_response-overflow front user l rest caps size free low high small lenenc named =
    let p : Bytes = response front user l rest in
    let off : ℕ = 32 + length user + 1 in
    let next : ℕ = add_int off (add_int 9 l) in
    let pre : Bytes = front ++ (user ++ (0 ∷ [])) in
    let shape : p ≡ pre ++ long_field l rest =
      ap (λ xs. front ++ xs) (sym (append_assoc user (0 ∷ []) (long_field l rest)))
      ∙ sym (append_assoc front (user ++ (0 ∷ [])) (long_field l rest)) in
    let pre_size : length pre ≡ off =
      omega (arith, length-append front (user ++ (0 ∷ [])), length-append user (0 ∷ [])) in
    let whole : length p ≡ off + (9 + length rest) =
      omega
        (arith, ap length shape, length-append pre (long_field l rest), length-long_field l rest) in
    ap (behind_user p caps) (nul_text-append p front user (long_field l rest) 32 refl size free)
    ∙ behind_overflow p user caps off next
        (skip_overflow p rest caps off l
          (ap (drop off) shape ∙ drop-append_of off pre (long_field l rest) pre_size) small low
          (omega arith) lenenc)
        (database_overflow p caps next (omega arith) named)
