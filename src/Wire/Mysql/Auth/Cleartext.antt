-- ===== src/Wire/Mysql/Auth/Cleartext.antt =====
-- internal/wire/mysql/auth.go, `completeUpstreamAuth`: when the password goes out in clear text.
use skybridge.Prelude.{
  ℕ, suc, ◌≤◌, ◌≡◌, refl, ap, append-nil, some, bytes_equal, cut_zero, ◌∙◌, arith, Bool, false, [],
  ◌∷◌, ◌++◌, Bytes, length, ok, err,
}
use skybridge.Prelude.Talk.{return, after, or_fail, emit, guard, ◌>>=◌, ◌>>◌}
use skybridge.Wire.Mysql.Packet.{max_packet, write_packet}
use skybridge.Wire.Mysql.Packet.RoundTrip.{read_packet-write_packet}
use skybridge.Wire.Mysql.Auth.{
  auth_more_data, full_auth, auth_switch_to_clear, parse_auth_switch, nul_text,
  plugin_clear_password,
}
use skybridge.Prelude.Split.{trim_zeros}
use skybridge.Wire.Mysql.Auth.Upstream.{
  Hashes, full_auth_needs_tls, next_packet, after_seq, auth_response, switched_nonce, answer_switch,
  answer_more, answer_packet, go_on, complete_upstream_auth, finish_auth,
}

-- The request to authenticate in full, of caching_sha2_password.
abbrev pub full_auth_request : Bytes
full_auth_request = auth_more_data ∷ full_auth ∷ []

-- A round of the loop on a packet of the server.
complete-write_packet :
    (fuel : ℕ) (h : Hashes) (secure : Bool) (password nonce : Bytes) (seq : ℕ)
    (payload rest : Bytes)
    → length payload ≤ max_packet
    → complete_upstream_auth (suc fuel) h secure password nonce (write_packet seq payload ++ rest)
      ≡ (answer_packet h secure password nonce seq payload
            >>= go_on (complete_upstream_auth fuel h secure password))
          rest
unfolding complete_upstream_auth next_packet ◌>>=◌
complete-write_packet fuel h secure password nonce seq payload rest small =
    rw (read_packet-write_packet seq payload rest small, complete_upstream_auth, next_packet) refl

-- The same with the packet's answer at hand.
complete-answer :
    (fuel : ℕ) (h : Hashes) (secure : Bool) (password nonce : Bytes) (seq : ℕ)
    (payload rest : Bytes) (out : Bytes)
    → length payload ≤ max_packet
    → answer_packet h secure password nonce seq payload rest ≡ (out, ok (some nonce, rest))
    → (complete_upstream_auth
        (suc fuel)
        h
        secure
        password
        nonce
        (write_packet seq payload ++ rest)).0
      ≡ out ++ (complete_upstream_auth fuel h secure password nonce rest).0
unfolding ◌>>=◌ go_on
complete-answer fuel h secure password nonce seq payload rest out small answer =
    ap (λ x. x.0) (complete-write_packet fuel h secure password nonce seq payload rest small)
    ∙ ap (λ x. (after (go_on (complete_upstream_auth fuel h secure password)) x).0) answer

clear_switch : parse_auth_switch auth_switch_to_clear ≡ (plugin_clear_password, [])
unfolding parse_auth_switch auth_switch_to_clear nul_text cut_zero trim_zeros
clear_switch = refl

clear_response :
    (h : Hashes) (password nonce : Bytes)
    → auth_response h plugin_clear_password password nonce ≡ some (password ++ (0 ∷ []))
unfolding auth_response bytes_equal
clear_response h password nonce = refl

answer_switch-clear :
    (h : Hashes) (password nonce : Bytes) (seq : ℕ) (rest : Bytes)
    → answer_switch h password nonce seq (plugin_clear_password, []) rest
      ≡ (write_packet (after_seq seq) (password ++ (0 ∷ [])), ok (some nonce, rest))
unfolding answer_switch switched_nonce ◌>>=◌ ◌>>◌ or_fail emit return
answer_switch-clear h password nonce seq rest =
    rw (clear_response h password nonce, answer_switch, or_fail)
      (ap (λ w. (w, ok (some nonce, rest))) (append-nil _))

answer_packet-clear :
    (h : Hashes) (secure : Bool) (password nonce : Bytes) (seq : ℕ) (rest : Bytes)
    → answer_packet h secure password nonce seq auth_switch_to_clear rest
      ≡ (write_packet (after_seq seq) (password ++ (0 ∷ [])), ok (some nonce, rest))
unfolding answer_packet auth_switch_to_clear
answer_packet-clear h secure password nonce seq rest =
    ap (λ x. answer_switch h password nonce seq x rest) clear_switch
    ∙ answer_switch-clear h password nonce seq rest

answer_packet-full_auth :
    (h : Hashes) (password nonce : Bytes) (seq : ℕ) (rest : Bytes)
    → answer_packet h false password nonce seq full_auth_request rest
      ≡ ([], err full_auth_needs_tls)
unfolding answer_packet answer_more ◌>>=◌ ◌>>◌ guard
answer_packet-full_auth h password nonce seq rest = refl

clear_small : length auth_switch_to_clear ≤ max_packet
unfolding auth_switch_to_clear
clear_small = omega arith

-- On a connection to the server without TLS, a server that asks for full authentication of
-- caching_sha2_password is not sent anything, and the login fails for the lack of TLS; but one that asks
-- to switch to mysql_clear_password is sent the password in clear text, before anything else.
pub finish_auth-clear :
    (h : Hashes) (password nonce : Bytes) (seq : ℕ) (rest : Bytes)
    → (finish_auth h false password nonce (write_packet seq full_auth_request ++ rest)
        ≡ ([], err full_auth_needs_tls))
      × ((finish_auth h false password nonce (write_packet seq auth_switch_to_clear ++ rest)).0
          ≡ write_packet (after_seq seq) (password ++ (0 ∷ []))
            ++ (complete_upstream_auth
                (length (write_packet seq auth_switch_to_clear ++ rest))
                h
                false
                password
                nonce
                rest).0)
unfolding finish_auth ◌>>=◌
finish_auth-clear h password nonce seq rest = (
  complete-write_packet _ h false password nonce seq full_auth_request rest (omega arith)
      ∙ ap (after _) (answer_packet-full_auth h password nonce seq rest),
  complete-answer _ h false password nonce seq auth_switch_to_clear rest _ clear_small
      (answer_packet-clear h false password nonce seq rest),
)
