-- ===== src/Wire/Mysql/Auth/Upstream.antt =====
-- internal/wire/mysql/auth.go: the login that the agent makes on the server's side, and the login of
-- its client. SHA-1, SHA-256 and TLS are Go's.
use skybridge.Prelude.{
  ℕ, zero, suc, ◌+◌, ◌%◌, Bool, true, false, not, ◌&&◌, ◌||◌, Option, none, some, [], ◌∷◌, ◌++◌,
  leb, ◌==◌, if◌then◌else◌, has_bit, Bytes, length, take, get_or, bytes_equal, ok, err,
}
use skybridge.Prelude.Endian.{put_le, le_uint}
use skybridge.Prelude.Reader.{ReadError}
use skybridge.Prelude.Split.{trim_zeros}
use skybridge.Prelude.Talk.{Talk, return, fail, or_fail, emit, guard, ◌>>=◌, ◌>>◌}
use skybridge.Prelude.Xor.{xor_bytes}
use Prim.Native.Nat.{bit_or}
use skybridge.Wire.Mysql.LenEnc.{Run}
use skybridge.Wire.Mysql.Packet.{Packet, max_packet, read_packet, write_packet}
use skybridge.Wire.Mysql.Auth.{
  pkt_ok, pkt_err, auth_switch_request, auth_more_data, fast_auth_success, full_auth,
  plugin_native_password, plugin_caching_sha2, plugin_clear_password, cap_ssl, server_greeting,
  auth_switch_to_clear, ClientHandshake, parse_handshake_response, upstream_caps,
  build_handshake_response, parse_auth_switch, err_message,
}
use skybridge.Wire.Mysql.Auth.Greeting.{parse_server_greeting}

pub record Hashes : Type 0 where
  pub sha1 : Bytes → Bytes
  pub sha256 : Bytes → Bytes

pub data LoginError : Type 0 where
  read_failed : ReadError → LoginError
  -- an index out of range: the process stops
  panicked : LoginError
  random_failed no_client_cert tls_failed tls_required : LoginError
  unsupported_plugin : Bytes → LoginError
  malformed full_auth_needs_tls : LoginError
  rejected unexpected_more : Bytes → LoginError
  unexpected_type : ℕ → LoginError
  -- no value of the source: the loop's fuel ran out
  out_of_fuel : LoginError

unfoldable pub next_packet : Talk LoginError Packet
next_packet bs = ([], elim (read_packet bs) [ ok r ↦ ok r | err e ↦ err (read_failed e) ])

unfoldable pub or_panic : {A : Type 0} → Run A → Talk LoginError A
or_panic (ok a) = return a
or_panic (err e) = fail panicked

unfoldable pub native_password_scramble : Hashes → Bytes → Bytes → Bytes
unfolding xor_bytes
native_password_scramble h [] nonce = []
native_password_scramble h (b ∷ password) nonce =
    let h1 : Bytes = h.sha1 (b ∷ password) in xor_bytes h1 (h.sha1 (nonce ++ h.sha1 h1))

unfoldable pub caching_sha2_scramble : Hashes → Bytes → Bytes → Bytes
unfolding xor_bytes
caching_sha2_scramble h [] nonce = []
caching_sha2_scramble h (b ∷ password) nonce =
    let d1 : Bytes = h.sha256 (b ∷ password) in xor_bytes d1 (h.sha256 (h.sha256 d1 ++ nonce))

unfoldable pub auth_response : Hashes → Bytes → Bytes → Bytes → Option Bytes
unfolding native_password_scramble caching_sha2_scramble
auth_response h plugin password nonce =
    if bytes_equal plugin plugin_native_password || bytes_equal plugin []
    then some (native_password_scramble h password nonce)
    else if bytes_equal plugin plugin_caching_sha2
    then some (caching_sha2_scramble h password nonce)
    else if bytes_equal plugin plugin_clear_password
    then some (password ++ (0 ∷ []))
    else none

-- `seq + 1`, a byte
abbrev pub after_seq : ℕ → ℕ
after_seq seq = (seq + 1) % 256

-- The server's data unless there is none.
unfoldable pub switched_nonce : Bytes → Bytes → Bytes
switched_nonce [] nonce = nonce
switched_nonce (b ∷ salt) nonce = b ∷ salt

unfoldable pub answer_switch :
    Hashes → Bytes → Bytes → ℕ → Bytes × Bytes → Talk LoginError (Option Bytes)
unfolding switched_nonce
answer_switch h password nonce seq (plugin, salt) = do
  resp ←
      or_fail (auth_response h plugin password (switched_nonce salt nonce))
        (unsupported_plugin plugin)
  emit (write_packet (after_seq seq) resp)
  return (some (switched_nonce salt nonce))

unfoldable pub answer_more : Bool → Bytes → Bytes → ℕ → Bytes → Talk LoginError (Option Bytes)
answer_more secure password nonce seq payload =
    if leb 2 (length payload) && get_or payload 1 0 == fast_auth_success
    then return (some nonce)
    else if leb 2 (length payload) && get_or payload 1 0 == full_auth
    then (do
      guard secure full_auth_needs_tls
      emit (write_packet (after_seq seq) (password ++ (0 ∷ [])))
      return (some nonce))
    else fail (unexpected_more payload)

-- One packet of the server: `none` for the end, or the nonce to go on with.
unfoldable pub answer_packet :
    Hashes → Bool → Bytes → Bytes → ℕ → Bytes → Talk LoginError (Option Bytes)
answer_packet h secure password nonce seq [] = fail malformed
answer_packet h secure password nonce seq (b ∷ payload) =
    if b == pkt_ok
    then return none
    else if b == pkt_err
    then fail (rejected (err_message (b ∷ payload)))
    else if b == auth_switch_request
    then answer_switch h password nonce seq (parse_auth_switch (b ∷ payload))
    else if b == auth_more_data
    then answer_more secure password nonce seq (b ∷ payload)
    else fail (unexpected_type b)

unfoldable pub go_on :
    (Bytes → Talk LoginError (Unit {0})) → Option Bytes → Talk LoginError (Unit {0})
go_on again none = return tt
go_on again (some nonce) = again nonce

-- Each round reads four bytes at least.
unfoldable pub complete_upstream_auth :
    ℕ → Hashes → Bool → Bytes → Bytes → Talk LoginError (Unit {0})
unfolding go_on
complete_upstream_auth zero h secure password nonce = fail out_of_fuel
complete_upstream_auth (suc fuel) h secure password nonce = do
  p ← next_packet
  step ← answer_packet h secure password nonce p.seq p.payload
  go_on (complete_upstream_auth fuel h secure password) step

-- With as much fuel as there are bytes, and one more.
unfoldable pub finish_auth : Hashes → Bool → Bytes → Bytes → Talk LoginError (Unit {0})
finish_auth h secure password nonce bs =
    complete_upstream_auth (suc (length bs)) h secure password nonce bs

-- A TLS configuration: what its handshake makes of the connection's bytes, if it succeeds.
pub data Tls : Type 0 where
  no_tls : Tls
  tls : (Bytes → Option Bytes) → Tls

unfoldable pub handshake : (Bytes → Option Bytes) → Talk LoginError (Unit {0})
handshake f bs = elim (f bs) [ none ↦ ([], err tls_failed) | some secured ↦ ([], ok (tt, secured)) ]

unfoldable pub ssl_request : ℕ → Bytes
ssl_request caps = put_le 4 caps ++ (put_le 4 max_packet ++ (0x21 ∷ put_le 23 0))

-- Whether the connection is secure then.
unfoldable pub start_tls : Tls → Bool → ℕ → Bytes → Talk LoginError Bool
unfolding ssl_request
start_tls no_tls required server_caps database = return false
start_tls (tls f) required server_caps database =
    if has_bit 11 server_caps
    then (do
      emit (write_packet 1 (ssl_request (bit_or (upstream_caps server_caps database) cap_ssl)))
      handshake f
      return true)
    else (do guard (not required) tls_required; return false)

unfoldable pub plugin_or_native : Bytes → Bytes
plugin_or_native [] = plugin_native_password
plugin_or_native (b ∷ plugin) = b ∷ plugin

-- What the agent writes goes out as it stands here, or within TLS where that was started.
unfoldable pub authenticate_upstream :
    Hashes → Tls → Bool → Bytes → Bytes → Bytes → Talk LoginError (Unit {0})
unfolding plugin_or_native
authenticate_upstream h upstream_tls required username password database = do
  first ← next_packet
  g ← or_panic (parse_server_greeting first.payload)
  secure ← start_tls upstream_tls required g.caps database
  resp ←
      or_fail (auth_response h (plugin_or_native g.plugin) password g.nonce)
        (unsupported_plugin (plugin_or_native g.plugin))
  emit (
      write_packet (if secure then 2 else 1)
        (build_handshake_response username database (plugin_or_native g.plugin) resp secure))
  finish_auth h secure password g.nonce

-- The flags that a packet of the client starts with, or those known before.
unfoldable pub caps_of : ℕ → Bytes → ℕ
caps_of caps payload = if leb 4 (length payload) then le_uint (take 4 payload) else caps

unfoldable pub has_tls : Tls → Bool
has_tls no_tls = false
has_tls (tls f) = true

unfoldable pub accept_tls : Tls → ℕ → Packet → Talk LoginError (Packet × ℕ)
accept_tls client_tls caps p =
    if has_bit 11 caps
    then elim client_tls [
      | no_tls ↦ fail no_client_cert
      | tls f ↦ do handshake f; real ← next_packet; return (real, caps_of caps real.payload)
    ]
    else return (p, caps)

-- The handshake and the token.
unfoldable pub terminate_client : Tls → Option Bytes → Talk LoginError (ClientHandshake × Bytes)
unfolding caps_of has_tls
terminate_client client_tls random = do
  nonce ← or_fail random random_failed
  emit (write_packet 0 (server_greeting (has_tls client_tls) nonce))
  first ← next_packet
  (p, caps) ← accept_tls client_tls (caps_of 0 first.payload) first
  info ← or_panic (parse_handshake_response p.payload caps)
  emit (write_packet (after_seq p.seq) auth_switch_to_clear)
  token ← next_packet
  return (record info { next_seq = after_seq token.seq }, trim_zeros token.payload)
