-- ===== src/Tests/Gateway.antt =====
-- The theorems on the gateway's sniffer at concrete inputs.
mod Registry
use skybridge.Prelude.{◌≡◌, refl, ◌++◌, arith, true, [], ◌∷◌, Bytes, bytes_equal}
use skybridge.Prelude.Endian.{be_uint}
use skybridge.Prelude.Text.{codes, to_lower, trim_space}
use skybridge.Gateway.DbUser.{sniff, new_login_user_sniffer, write_all}
use skybridge.Gateway.DbUser.Stable.{sniff_stable}
use skybridge.Gateway.DbUser.Chunks.{user-write_all}
use skybridge.Tests.{ascii}

-- A startup message with the parameter user=ann, behind a request for TLS.
abbrev ssl_request : Bytes
ssl_request = 0 ∷ 0 ∷ 0 ∷ 8 ∷ 4 ∷ 0xD2 ∷ 0x16 ∷ 0x2F ∷ []

abbrev startup : Bytes
startup =
    (0 ∷ 0 ∷ 0 ∷ 18 ∷ 0 ∷ 3 ∷ 0 ∷ 0 ∷ []) ++ codes "user" ++ (0 ∷ []) ++ codes "ann" ++ (0 ∷ 0 ∷ [])

ann_found : sniff (codes "postgres") (ssl_request ++ startup) ≡ (codes "ann", true)
unfolding sniff bytes_equal be_uint
ann_found = refl

sniff_stable_example :
    sniff (codes "postgres") ((ssl_request ++ startup) ++ codes "QUERY") ≡ (codes "ann", true)
sniff_stable_example =
    sniff_stable (codes "postgres") (ssl_request ++ startup) (codes "QUERY") (codes "ann") ann_found

user-write_all_example :
    (write_all (ssl_request ∷ startup ∷ []) (new_login_user_sniffer ascii (codes "Postgres"))).user
    ≡ (sniff
        (to_lower ascii (trim_space ascii (codes "Postgres")))
        (ssl_request ++ (startup ++ []))).0
user-write_all_example =
    user-write_all ascii (codes "Postgres") (ssl_request ∷ startup ∷ []) (omega arith)
