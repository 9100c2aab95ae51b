-- ===== src/Wire/Postgres/Startup/Declined.antt =====
-- internal/wire/postgres/postgres.go: `negotiateStartup` without TLS.
use skybridge.Prelude.{
  ℕ, zero, suc, ◌<◌, ◌≡◌, refl, sym, ap, ◌∙◌, arith, Bool, true, false, none, List, [], ◌∷◌, ◌++◌,
  Bytes, length, ok, append_assoc, append-nil,
}
use skybridge.Prelude.Endian.{put_be, be_uint}
use skybridge.Prelude.Reader.{read_full-append}
use skybridge.Wire.Postgres.Startup.{
  ssl_request_code, gss_request_code, is_negotiation, answer, negotiate,
}

-- A request for TLS, or for GSSAPI encryption.
abbrev pub request : Bool → Bytes
request true = put_be 4 8 ++ put_be 4 ssl_request_code
request false = put_be 4 8 ++ put_be 4 gss_request_code

abbrev pub requests : List Bool → Bytes
requests [] = []
requests (r ∷ rs) = request r ++ requests rs

-- One 'N' for each request.
abbrev pub refusals : List Bool → Bytes
refusals [] = []
refusals (r ∷ rs) = b'N' ∷ refusals rs

length-request : (r : Bool) → length (request r) ≡ 8
unfolding put_be
length-request true = refl
length-request false = refl

is_negotiation-request : (r : Bool) → is_negotiation (request r) ≡ true
unfolding put_be be_uint
is_negotiation-request true = refl
is_negotiation-request false = refl

negotiate_declined :
    (fuel : ℕ) (sent : Bytes) (r : Bool) (rest : Bytes)
    → negotiate (suc fuel) none sent false (request r ++ rest)
      ≡ negotiate fuel none (sent ++ (b'N' ∷ [])) false rest
unfolding negotiate answer
negotiate_declined fuel sent r rest =
    rw (read_full-append 8 (request r) rest (length-request r), negotiate)
      (rw (is_negotiation-request r, negotiate) refl)

negotiate_startup :
    (fuel : ℕ) (sent hdr rest : Bytes)
    → length hdr ≡ 8
    → is_negotiation hdr ≡ false
    → negotiate (suc fuel) none sent false (hdr ++ rest)
      ≡ ok (record { input = hdr ++ rest; sent = sent; encrypted = false })
unfolding negotiate
negotiate_startup fuel sent hdr rest size other =
    rw (read_full-append 8 hdr rest size, negotiate) (rw (other, negotiate) refl)

-- An engine without TLS declines any number of encryption requests with one byte each, and reads on
-- from exactly the bytes behind them, if these start with eight bytes that are no such request: more
-- fuel than there are requests is enough.
pub negotiate-requests :
    (fuel : ℕ) (sent : Bytes) (rs : List Bool) (hdr rest : Bytes)
    → length rs < fuel
    → length hdr ≡ 8
    → is_negotiation hdr ≡ false
    → negotiate fuel none sent false (requests rs ++ (hdr ++ rest))
      ≡ ok (record { input = hdr ++ rest; sent = sent ++ refusals rs; encrypted = false })
negotiate-requests zero sent rs hdr rest l size other = absurd (omega arith)
negotiate-requests (suc fuel) sent [] hdr rest l size other =
    negotiate_startup fuel sent hdr rest size other
    ∙ ap (λ xs. ok (record { input = hdr ++ rest; sent = xs; encrypted = false }))
        (sym (append-nil sent))
negotiate-requests (suc fuel) sent (r ∷ rs) hdr rest l size other =
    ap (negotiate (suc fuel) none sent false) (append_assoc (request r) (requests rs) (hdr ++ rest))
    ∙ negotiate_declined fuel sent r (requests rs ++ (hdr ++ rest))
    ∙ negotiate-requests fuel (sent ++ (b'N' ∷ [])) rs hdr rest (omega arith) size other
    ∙ ap (λ xs. ok (record { input = hdr ++ rest; sent = xs; encrypted = false }))
        (append_assoc sent (b'N' ∷ []) (refusals rs))
