-- ===== src/Gateway/DbUser/Stable.antt =====
-- internal/gateway/dbuser.go: an answer of the sniffer does not depend on the bytes that follow.
use skybridge.Prelude.{
  ℕ, zero, suc, ◌+◌, ◌-◌, ◌≤◌, ◌≡◌, refl, ap, arith, Bool, true, false, ◌&&◌, ◌||◌, [], ◌∷◌, ◌++◌,
  ltb, ◌==◌, if◌then◌else◌, Bytes, length, take, drop, bytes_equal, le→ltb_false, length-append,
  length-drop,
}
use skybridge.Prelude.Endian.{be_uint, le_uint}
use skybridge.Prelude.Text.{codes}
use skybridge.Gateway.DbUser.{
  pg_ssl_request_code, pg_gss_request_code, startup_user, sniff_postgres_user, mysql_user,
  sniff_mysql_user, sniff,
}

take-append_le : (n : ℕ) (xs ys : Bytes) → n ≤ length xs → take n (xs ++ ys) ≡ take n xs
take-append_le zero xs ys h = refl
take-append_le (suc n) [] ys h = absurd (omega arith)
take-append_le (suc n) (x ∷ xs) ys h = ap (◌∷◌ x) (take-append_le n xs ys (omega arith))

drop-append_le : (n : ℕ) (xs ys : Bytes) → n ≤ length xs → drop n (xs ++ ys) ≡ drop n xs ++ ys
drop-append_le zero xs ys h = refl
drop-append_le (suc n) [] ys h = absurd (omega arith)
drop-append_le (suc n) (x ∷ xs) ys h = drop-append_le n xs ys (omega arith)

startup_user_stable :
    (len code : ℕ) (rest more user : Bytes)
    → startup_user len code rest ≡ (user, true)
    → startup_user len code (rest ++ more) ≡ (user, true)
unfolding startup_user
startup_user_stable len code rest more user h =
    ground (arith, h, length-append rest more, take-append_le (len - 8) rest more)

-- Two branches that keep an answer.
if_stable :
    {A : Type 0} (test : Bool) (x y x' y' r : A)
    → (x ≡ r → x' ≡ r)
    → (y ≡ r → y' ≡ r)
    → (if test then x else y) ≡ r
    → (if test then x' else y') ≡ r
if_stable true x y x' y' r f g h = f h
if_stable false x y x' y' r f g h = g h

sniff_postgres_user_stable :
    (buf more user : Bytes)
    → sniff_postgres_user buf ≡ (user, true)
    → sniff_postgres_user (buf ++ more) ≡ (user, true)
unfolding sniff_postgres_user
sniff_postgres_user_stable (a ∷ b ∷ c ∷ d ∷ e ∷ f ∷ g ∷ i ∷ rest) more user h =
    if_stable
      (be_uint (a ∷ b ∷ c ∷ d ∷ []) == 8
        && (be_uint (e ∷ f ∷ g ∷ i ∷ []) == pg_ssl_request_code
            || be_uint (e ∷ f ∷ g ∷ i ∷ []) == pg_gss_request_code))
      _ _ _ _ _ (sniff_postgres_user_stable rest more user)
      (startup_user_stable (be_uint (a ∷ b ∷ c ∷ d ∷ [])) (be_uint (e ∷ f ∷ g ∷ i ∷ [])) rest more
        user)
      h
sniff_postgres_user_stable _ more user h = cc

-- With enough bytes for `x`, more bytes are enough.
enough_stable :
    (n l l' : ℕ) (x : Bytes × Bool) (user : Bytes)
    → l ≤ l'
    → (if ltb l n then ([], false) else x) ≡ (user, true)
    → (n ≤ l) × ((if ltb l' n then ([], false) else x) ≡ (user, true))
enough_stable n l l' x user le h = (ground (arith, h), ground (arith, h))

-- The payload of `plen` bytes behind the header.
payload_stable :
    (plen : ℕ) (buf more : Bytes)
    → 4 + plen ≤ length buf
    → take plen (drop 4 (buf ++ more)) ≡ take plen (drop 4 buf)
payload_stable plen buf more h =
    rw (drop-append_le 4 buf more (omega arith))
      (take-append_le plen (drop 4 buf) more (omega (arith, length-drop 4 buf)))

mysql_packet_stable :
    (plen : ℕ) (buf more user : Bytes)
    → (if ltb (length buf) (4 + plen) then ([], false) else mysql_user (take plen (drop 4 buf)))
      ≡ (user, true)
    → (if ltb (length (buf ++ more)) (4 + plen)
        then ([], false)
        else mysql_user (take plen (drop 4 (buf ++ more))))
      ≡ (user, true)
mysql_packet_stable plen buf more user h =
    let (room, later) =
      enough_stable (4 + plen) (length buf) (length (buf ++ more)) _ user
        (omega (arith, length-append buf more)) h in
    rw (payload_stable plen buf more room) later

sniff_mysql_user_stable :
    (buf more user : Bytes)
    → sniff_mysql_user buf ≡ (user, true)
    → sniff_mysql_user (buf ++ more) ≡ (user, true)
unfolding sniff_mysql_user
sniff_mysql_user_stable buf more user h =
    let (room, same) =
      enough_stable 4 (length buf) (length (buf ++ more)) _ user
        (omega (arith, length-append buf more)) h in
    rw
      (
        le→ltb_false 4 (length (buf ++ more)) (omega (arith, length-append buf more)),
        take-append_le 3 buf more (omega arith),
      )
      (if_stable (ltb (le_uint (take 3 buf)) 33) _ _ _ _ _ (λ e. e)
        (mysql_packet_stable (le_uint (take 3 buf)) buf more user)
        (rw (le→ltb_false 4 (length buf) room) at h))

-- An answer of the sniffer stands, whatever the client sends after it.
pub sniff_stable :
    (db_type buf more user : Bytes)
    → sniff db_type buf ≡ (user, true)
    → sniff db_type (buf ++ more) ≡ (user, true)
unfolding sniff
sniff_stable db_type buf more user =
    if_stable (bytes_equal db_type (codes "postgres") || bytes_equal db_type (codes "postgresql")) _
      _ _ _ _ (sniff_postgres_user_stable buf more user)
      (if_stable (bytes_equal db_type (codes "mysql")) _ _ _ ([], true) _
        (sniff_mysql_user_stable buf more user) (λ h. h))
