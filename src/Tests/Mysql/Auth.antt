-- ===== src/Tests/Mysql/Auth.antt =====
-- The theorems on the MySQL logins at concrete inputs, with hash functions of one byte.
use skybridge.Prelude.{
  ◌≡◌, ◌≤◌, ◌<◌, ◌^◌, ◌↔◌, refl, ◌++◌, arith, true, false, [], ◌∷◌, Bytes, length, take, ok, err,
}
use skybridge.Prelude.Endian.{put_le, le_uint}
use skybridge.Prelude.Text.{codes}
use skybridge.Wire.Mysql.LenEnc.{out_of_range}
use skybridge.Wire.Mysql.Packet.{write_packet}
use skybridge.Wire.Mysql.Auth.{
  plugin_native_password, auth_switch_to_clear, named_database, response_caps,
  parse_handshake_response, build_handshake_response,
}
use skybridge.Wire.Mysql.Auth.Greeting.{parse_server_greeting}
use skybridge.Wire.Mysql.Auth.Crash.{greeting, parse_server_greeting_iff}
use skybridge.Wire.Mysql.Auth.RoundTrip.{parse_handshake_response-build_handshake_response}
use skybridge.Wire.Mysql.Auth.Upstream.{
  Hashes, full_auth_needs_tls, after_seq, complete_upstream_auth, finish_auth,
}
use skybridge.Wire.Mysql.Auth.Cleartext.{full_auth_request, finish_auth-clear}

abbrev toy : Hashes
toy = record { sha1 = λ m. 1 ∷ []; sha256 = λ m. 2 ∷ [] }

response : Bytes
response =
    build_handshake_response (codes "app") (codes "db") plugin_native_password (1 ∷ 2 ∷ []) true

response_small : length response < 2 ^ 63
unfolding response build_handshake_response put_le named_database
response_small = omega arith

parse_handshake_response-build_handshake_response_example :
    (le_uint (take 4 response) ≡ response_caps true true)
    × (parse_handshake_response response (response_caps true true)
        ≡ ok (record {
          username = codes "app";
          database = codes "db";
          caps = response_caps true true;
          next_seq = 0;
        }))
unfolding response
parse_handshake_response-build_handshake_response_example =
    parse_handshake_response-build_handshake_response (codes "app") (codes "db")
      plugin_native_password (1 ∷ 2 ∷ []) true (refl, (refl, (refl, tt))) (refl, (refl, tt))
      (omega arith) response_small

parse_server_greeting_iff_example :
    (parse_server_greeting (greeting (codes "8.0") (codes "abcdefghijkl")) ≡ err out_of_range)
    ↔ ((11 ≤ 12) × (12 < 15))
parse_server_greeting_iff_example =
    parse_server_greeting_iff (codes "8.0") (codes "abcdefghijkl") (refl, (refl, (refl, tt)))

finish_auth-clear_example :
    (finish_auth toy false (codes "pw") (codes "salt") (write_packet 2 full_auth_request ++ [])
      ≡ ([], err full_auth_needs_tls))
    × ((finish_auth toy false
          (codes "pw")
          (codes "salt")
          (write_packet 2 auth_switch_to_clear ++ [])).0
        ≡ write_packet (after_seq 2) (codes "pw" ++ (0 ∷ []))
          ++ (complete_upstream_auth
              (length (write_packet 2 auth_switch_to_clear ++ []))
              toy
              false
              (codes "pw")
              (codes "salt")
              []).0)
finish_auth-clear_example = finish_auth-clear toy (codes "pw") (codes "salt") 2 []
