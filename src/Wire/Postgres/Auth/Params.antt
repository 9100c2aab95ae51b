-- ===== src/Wire/Postgres/Auth/Params.antt =====
-- internal/wire/postgres/auth.go: `readStartupParams` reads what `writeStartupMessage` writes.
use skybridge.Prelude.{
  ℕ, ◌+◌, ◌-◌, ◌^◌, ◌≤◌, ◌<◌, ◌≡◌, refl, sym, ap, ◌∙◌, arith, List, [], ◌∷◌, ◌++◌, Bytes, length,
  take, drop, bytes_equal, ok, append_assoc, length-append, take-append_of, drop-append_of,
  le→ltb_false,
}
use skybridge.Prelude.Dict.{Dict}
use skybridge.Prelude.Endian.{put_be, be_uint, be_uint-put_be, length-put_be}
use skybridge.Prelude.Reader.{read_full-append}
use skybridge.Prelude.Split.{IsFree, split_on, split_on-append}
use skybridge.Prelude.Talk.{return, guard, ◌>>=◌, ◌>>◌}
use skybridge.Prelude.Text.{codes}
use skybridge.Wire.Postgres.Auth.{
  startup_protocol_v3, sniff_startup_cap, read_exact, params_of, read_startup_params, startup_body,
  startup_message,
}

-- What the message asks for: the user, and the database if it is named.
abbrev pub asked : Bytes → Bytes → Dict Bytes
asked user [] = (codes "user", user) ∷ []
asked user (b ∷ db) = (codes "user", user) ∷ (codes "database", b ∷ db) ∷ []

user-IsFree : IsFree 0 (codes "user")
user-IsFree = (refl, (refl, (refl, (refl, tt))))

database-IsFree : IsFree 0 (codes "database")
database-IsFree = (refl, (refl, (refl, (refl, (refl, (refl, (refl, (refl, tt))))))))

pieces : Bytes → Bytes → List Bytes
pieces user [] = codes "user" ∷ user ∷ [] ∷ [] ∷ []
pieces user (b ∷ db) = codes "user" ∷ user ∷ codes "database" ∷ (b ∷ db) ∷ [] ∷ [] ∷ []

split_on-nil : split_on 0 (0 ∷ []) ≡ [] ∷ [] ∷ []
unfolding split_on
split_on-nil = refl

split_param :
    (k v rest : Bytes)
    → IsFree 0 k
    → IsFree 0 v
    → split_on 0 ((k ++ (0 ∷ (v ++ (0 ∷ [])))) ++ rest) ≡ k ∷ v ∷ split_on 0 rest
split_param k v rest hk hv =
    ap (split_on 0) (append_assoc k (0 ∷ (v ++ (0 ∷ []))) rest)
    ∙ split_on-append 0 k ((v ++ (0 ∷ [])) ++ rest) hk
    ∙ ap (λ xs. k ∷ split_on 0 xs) (append_assoc v (0 ∷ []) rest)
    ∙ ap (◌∷◌ k) (split_on-append 0 v rest hv)

split_body :
    (user db : Bytes)
    → IsFree 0 user
    → IsFree 0 db
    → split_on 0 (startup_body user db) ≡ pieces user db
unfolding startup_body pieces
split_body user [] hu hd =
    split_param (codes "user") user (0 ∷ []) user-IsFree hu
    ∙ ap (λ ws. codes "user" ∷ user ∷ ws) split_on-nil
split_body user (b ∷ db) hu hd =
    split_param (codes "user") user _ user-IsFree hu
    ∙ ap (λ ws. codes "user" ∷ user ∷ ws)
        (split_param (codes "database") (b ∷ db) (0 ∷ []) database-IsFree hd
          ∙ ap (λ ws. codes "database" ∷ (b ∷ db) ∷ ws) split_on-nil)

params_of-pieces : (user db : Bytes) → params_of (pieces user db) [] ≡ asked user db
unfolding params_of pieces bytes_equal
params_of-pieces user [] = refl
params_of-pieces user (b ∷ db) = refl

read_exact-append :
    (n : ℕ) (xs ys : Bytes) → length xs ≡ n → read_exact n (xs ++ ys) ≡ ([], ok (xs, ys))
unfolding read_exact
read_exact-append n xs ys h = rw (read_full-append n xs ys h, read_exact)

abbrev header : ℕ → Bytes
header n = put_be 4 n ++ put_be 4 startup_protocol_v3

length-header : (n : ℕ) → length (header n) ≡ 8
length-header n = omega (
  arith,
  length-append (put_be 4 n) (put_be 4 startup_protocol_v3),
  length-put_be 4 n,
  length-put_be 4 startup_protocol_v3,
)

size_of_header : (n : ℕ) → n < 2 ^ 32 → be_uint (take 4 (header n)) ≡ n
size_of_header n h =
    ap be_uint (take-append_of 4 (put_be 4 n) (put_be 4 startup_protocol_v3) (length-put_be 4 n))
    ∙ be_uint-put_be 4 n (omega arith)

version_of_header : (n : ℕ) → be_uint (drop 4 (header n)) ≡ startup_protocol_v3
version_of_header n =
    ap be_uint (drop-append_of 4 (put_be 4 n) (put_be 4 startup_protocol_v3) (length-put_be 4 n))
    ∙ be_uint-put_be 4 startup_protocol_v3 (omega arith)

read_startup_params-header :
    (n : ℕ) (body rest : Bytes)
    → n ≡ 8 + length body
    → n ≤ sniff_startup_cap
    → (read_startup_params (header n ++ (body ++ rest))).1
      ≡ ok (params_of (split_on 0 body) [], rest)
unfolding read_startup_params ◌>>=◌ ◌>>◌ guard return
read_startup_params-header n body rest size cap =
    rw (read_exact-append 8 (header n) (body ++ rest) (length-header n), read_startup_params)
      (rw
        (
          version_of_header n,
          size_of_header n (omega arith),
          le→ltb_false 8 n (omega arith),
          le→ltb_false n sniff_startup_cap cap,
          read_exact-append (n - 8) body rest (omega arith),
        )
        refl)

-- The parameters that the agent asks its server for are the ones that a server of this protocol
-- reads: the user, and the database unless it is empty, for texts with no zero byte and a message
-- within the bound of 64 KiB, whatever follows it.
pub read_startup_params-startup_message :
    (user db rest : Bytes)
    → IsFree 0 user
    → IsFree 0 db
    → length (startup_message user db) ≤ sniff_startup_cap
    → (read_startup_params (startup_message user db ++ rest)).1 ≡ ok (asked user db, rest)
unfolding startup_message
read_startup_params-startup_message user db rest hu hd cap =
    let body : Bytes = startup_body user db in
    let n : ℕ = 8 + length body in
    let whole : length (header n ++ body) ≡ n =
      omega (arith, length-append (header n) body, length-header n) in
    ap (λ xs. (read_startup_params xs).1)
      (ap (λ xs. xs ++ rest) (sym (append_assoc (put_be 4 n) (put_be 4 startup_protocol_v3) body))
        ∙ append_assoc (header n) body rest)
    ∙ read_startup_params-header n body rest refl (
        omega (
          arith,
          cap,
          whole,
          ap length (append_assoc (put_be 4 n) (put_be 4 startup_protocol_v3) body),
        ))
    ∙ ap (λ ws. ok (params_of ws [], rest)) (split_body user db hu hd)
    ∙ ap (λ ps. ok (ps, rest)) (params_of-pieces user db)
