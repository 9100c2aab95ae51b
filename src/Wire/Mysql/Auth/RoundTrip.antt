-- ===== src/Wire/Mysql/Auth/RoundTrip.antt =====
-- internal/wire/mysql/auth.go: `parseHandshakeResponse` reads what `buildHandshakeResponse` writes.
use skybridge.Prelude.{
  ℕ, ◌+◌, ◌%◌, ◌^◌, ◌<◌, ◌≡◌, refl, sym, ap, ◌∙◌, arith, Bool, true, false, some, [], ◌∷◌, ◌++◌,
  has_bit, Bytes, length, take, drop, get_or, ok, append_assoc, length-append, take-append_of,
  drop-append_of, lt→leb_false,
}
use skybridge.Prelude.Endian.{put_le, le_uint, length-put_le, le_uint-put_le}
use skybridge.Prelude.Split.{IsFree, cut_zero-append}
use skybridge.Wire.Mysql.Packet.{max_packet}
use skybridge.Wire.Mysql.Auth.{
  is_named, named_database, response_caps, nul_text, read_nul_string, skip_auth_response,
  found_text, database_at, behind_user, parse_handshake_response, build_handshake_response,
}

-- The text behind `pre`, up to its zero byte.
pub nul_text-append :
    (p pre s rest : Bytes) (off : ℕ)
    → p ≡ pre ++ (s ++ (0 ∷ rest))
    → length pre ≡ off
    → IsFree 0 s
    → nul_text p off ≡ some (s, off + length s + 1)
unfolding nul_text
nul_text-append p pre s rest off shape size free =
    rw (ap (drop off) shape ∙ drop-append_of off pre (s ++ (0 ∷ rest)) size, nul_text)
      (rw (cut_zero-append s rest free, nul_text) refl)

get_or-append :
    (pre rest : Bytes) (x off : ℕ) → length pre ≡ off → get_or (pre ++ (x ∷ rest)) off 0 ≡ x
get_or-append [] rest x off h = rw (← h) refl
get_or-append (b ∷ pre) rest x off h = rw (← h) (get_or-append pre rest x (length pre) refl)

-- The 32 bytes in front of the user.
head : ℕ → Bytes
head caps = put_le 4 caps ++ (put_le 4 max_packet ++ (0x21 ∷ put_le 23 0))

length-head : (caps : ℕ) → length (head caps) ≡ 32
unfolding head
length-head caps =
    length-append (put_le 4 caps) _
    ∙ omega (
      arith,
      length-put_le 4 caps,
      length-append (put_le 4 max_packet) (0x21 ∷ put_le 23 0),
      length-put_le 4 max_packet,
      length-put_le 23 0,
    )

skip_auth_response-append :
    (p pre auth_resp tail : Bytes) (caps off : ℕ)
    → p ≡ pre ++ (length auth_resp ∷ (auth_resp ++ tail))
    → length pre ≡ off
    → has_bit 21 caps ≡ false
    → has_bit 15 caps ≡ true
    → skip_auth_response p caps off ≡ ok (some (off + (1 + length auth_resp)))
unfolding skip_auth_response
skip_auth_response-append p pre auth_resp tail caps off shape size plain secure =
    let inside : off < length p =
      omega (arith, ap length shape, length-append pre (length auth_resp ∷ (auth_resp ++ tail))) in
    let count : get_or p off 0 ≡ length auth_resp =
      ap (λ xs. get_or xs off 0) shape
      ∙ get_or-append pre (auth_resp ++ tail) (length auth_resp) off size in
    rw (plain, secure, skip_auth_response)
      (rw (lt→leb_false (length p) off inside, count, skip_auth_response) refl)

database_at-append :
    (p pre db tail : Bytes) (caps off : ℕ)
    → p ≡ pre ++ (named_database db ++ tail)
    → length pre ≡ off
    → off < 2 ^ 63
    → IsFree 0 db
    → has_bit 3 caps ≡ is_named db
    → database_at p caps (some off) ≡ ok db
unfolding database_at read_nul_string named_database found_text
database_at-append p pre [] tail caps off shape size small free flag = rw (flag, database_at) refl
database_at-append p pre (b ∷ db) tail caps off shape size small free flag =
    rw
      (
        flag,
        lt→leb_false (2 ^ 63) off small,
        nul_text-append p pre (b ∷ db) tail off
            (shape ∙ ap (λ xs. pre ++ xs) (append_assoc (b ∷ db) (0 ∷ []) tail)) size free,
        database_at,
      )
      refl

-- The packet as the two functions see it.
body : Bytes → Bytes → Bytes → Bytes → Bytes
body user db auth_resp tail =
    user ++ (0 ∷ length auth_resp ∷ (auth_resp ++ (named_database db ++ tail)))

parse-head :
    (user db auth_resp tail : Bytes) (caps : ℕ)
    → IsFree 0 user
    → IsFree 0 db
    → length (head caps ++ body user db auth_resp tail) < 2 ^ 63
    → has_bit 21 caps ≡ false
    → has_bit 15 caps ≡ true
    → has_bit 3 caps ≡ is_named db
    → parse_handshake_response (head caps ++ body user db auth_resp tail) caps
      ≡ ok (record { username = user; database = db; caps = caps; next_seq = 0 })
unfolding parse_handshake_response behind_user body
parse-head user db auth_resp tail caps fu fd small plain secure named =
    let p : Bytes = head caps ++ body user db auth_resp tail in
    let rest : Bytes = length auth_resp ∷ (auth_resp ++ (named_database db ++ tail)) in
    let pre1 : Bytes = head caps ++ (user ++ (0 ∷ [])) in
    let pre2 : Bytes = pre1 ++ (length auth_resp ∷ auth_resp) in
    let size1 : length pre1 ≡ 32 + length user + 1 = omega (
      arith,
      length-append (head caps) (user ++ (0 ∷ [])),
      length-append user (0 ∷ []),
      length-head caps,
    ) in
    let shape1 : p ≡ pre1 ++ rest =
      ap (λ xs. head caps ++ xs) (sym (append_assoc user (0 ∷ []) rest))
      ∙ sym (append_assoc (head caps) (user ++ (0 ∷ [])) rest) in
    let shape2 : p ≡ pre2 ++ (named_database db ++ tail) =
      shape1 ∙ sym (append_assoc pre1 (length auth_resp ∷ auth_resp) (named_database db ++ tail)) in
    let size2 : length pre2 ≡ 32 + length user + 1 + (1 + length auth_resp) =
      omega (arith, length-append pre1 (length auth_resp ∷ auth_resp), size1) in
    rw
      (
        nul_text-append p (head caps) user rest 32 refl (length-head caps) fu,
        skip_auth_response-append p pre1 auth_resp (named_database db ++ tail) caps
            (32 + length user + 1) shape1 size1 plain secure,
        database_at-append p pre2 db tail caps (32 + length user + 1 + (1 + length auth_resp))
            shape2 size2
            (omega (arith, ap length shape2, length-append pre2 (named_database db ++ tail))) fd
            named,
        parse_handshake_response,
        behind_user,
      )
      refl

flags-head :
    (caps : ℕ) (rest : Bytes) → caps < 256 ^ 4 → le_uint (take 4 (head caps ++ rest)) ≡ caps
unfolding head
flags-head caps rest small =
    ap (λ xs. le_uint (take 4 xs)) (append_assoc (put_le 4 caps) _ rest)
    ∙ ap le_uint (take-append_of 4 (put_le 4 caps) _ (length-put_le 4 caps))
    ∙ le_uint-put_le 4 caps small

response_caps_plain : (named secure : Bool) → has_bit 21 (response_caps named secure) ≡ false
unfolding response_caps
response_caps_plain true true = refl
response_caps_plain true false = refl
response_caps_plain false true = refl
response_caps_plain false false = refl

response_caps_secure : (named secure : Bool) → has_bit 15 (response_caps named secure) ≡ true
unfolding response_caps
response_caps_secure true true = refl
response_caps_secure true false = refl
response_caps_secure false true = refl
response_caps_secure false false = refl

response_caps_named : (named secure : Bool) → has_bit 3 (response_caps named secure) ≡ named
unfolding response_caps
response_caps_named true true = refl
response_caps_named true false = refl
response_caps_named false true = refl
response_caps_named false false = refl

response_caps_small : (named secure : Bool) → response_caps named secure < 256 ^ 4
unfolding response_caps
response_caps_small true true = omega arith
response_caps_small true false = omega arith
response_caps_small false true = omega arith
response_caps_small false false = omega arith

build-head :
    (user db plugin auth_resp : Bytes) (secure : Bool)
    → length auth_resp < 256
    → build_handshake_response user db plugin auth_resp secure
      ≡ head (response_caps (is_named db) secure) ++ body user db auth_resp (plugin ++ (0 ∷ []))
unfolding build_handshake_response head body put_le
build-head user db plugin auth_resp secure small =
    let whole : length auth_resp % 256 ≡ length auth_resp = omega arith in
    ap
      (λ n.
        head (response_caps (is_named db) secure)
        ++ (user ++ (0 ∷ n ∷ (auth_resp ++ (named_database db ++ (plugin ++ (0 ∷ [])))))))
      whole

-- The agent's server side understands its own login: from a handshake response that the agent builds,
-- whose first four bytes are the flags, it reads with these the user and the database (empty where
-- there is none), for texts without a zero byte, an auth response below 256 bytes and a packet below
-- 2^63 bytes.
pub parse_handshake_response-build_handshake_response :
    (user db plugin auth_resp : Bytes) (secure : Bool)
    → IsFree 0 user
    → IsFree 0 db
    → length auth_resp < 256
    → length (build_handshake_response user db plugin auth_resp secure) < 2 ^ 63
    → (le_uint (take 4 (build_handshake_response user db plugin auth_resp secure))
        ≡ response_caps (is_named db) secure)
      × (parse_handshake_response
            (build_handshake_response user db plugin auth_resp secure)
            (response_caps (is_named db) secure)
          ≡ ok (record {
            username = user;
            database = db;
            caps = response_caps (is_named db) secure;
            next_seq = 0;
          }))
parse_handshake_response-build_handshake_response user db plugin auth_resp secure fu fd few small =
    let caps : ℕ = response_caps (is_named db) secure in
    let built = build-head user db plugin auth_resp secure few in
    (
      ap (λ p. le_uint (take 4 p)) built
          ∙ flags-head caps (body user db auth_resp (plugin ++ (0 ∷ [])))
              (response_caps_small (is_named db) secure),
      ap (λ p. parse_handshake_response p caps) built
          ∙ parse-head user db auth_resp (plugin ++ (0 ∷ [])) caps fu fd
              (omega (arith, ap length built)) (response_caps_plain (is_named db) secure)
              (response_caps_secure (is_named db) secure)
              (response_caps_named (is_named db) secure),
    )
