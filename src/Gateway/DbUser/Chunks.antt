-- ===== src/Gateway/DbUser/Chunks.antt =====
-- internal/gateway/dbuser.go: how the relay cuts the stream into reads does not matter.
use skybridge.Prelude.{
  ℕ, ◌<◌, ◌≡◌, refl, ap, arith, Bool, true, false, ◌||◌, List, [], ◌∷◌, ◌++◌, leb, Bool-cases, inl,
  inr, Bytes, length, length-append, append_assoc, append-nil,
}
use skybridge.Prelude.Text.{Unicode, to_lower, trim_space}
use skybridge.Gateway.DbUser.{
  sniff_cap, sniff_postgres_user, sniff_mysql_user, sniff, LoginUserSniffer, new_login_user_sniffer,
  feed, write, write_all,
}
use skybridge.Gateway.DbUser.Stable.{sniff_stable}

abbrev pub stream : List Bytes → Bytes
stream [] = []
stream (p ∷ ps) = p ++ stream ps

-- What the sniffer knows after the bytes `bs`: their answer, and the bytes while it looks for it.
record Knows (db_type bs : Bytes) (s : LoginUserSniffer) : Type 0 where
  same_type : s.db_type ≡ db_type
  answer : s.user ≡ (sniff db_type bs).0
  ended : s.is_done ≡ true → (sniff db_type bs).1 ≡ true
  kept : s.is_done ≡ false → s.buf ≡ bs

ended_by : (b : Bool) (n : ℕ) → n < sniff_cap → (b || leb sniff_cap n) ≡ true → b ≡ true
ended_by b n h e = ground (arith, h, e)

feed-Knows :
    (db_type bs p : Bytes) (s : LoginUserSniffer)
    → length (bs ++ p) < sniff_cap
    → s.db_type ≡ db_type
    → s.buf ≡ bs
    → Knows db_type (bs ++ p) (feed p s)
unfolding feed
feed-Knows db_type bs p s short ty buf =
    rw (← ty, ← buf)
      (record {
        same_type = refl;
        answer = refl;
        ended = ended_by _ (length (s.buf ++ p)) (rw (← buf) at short);
        kept = λ e. refl;
      })

pair_eq : (r : Bytes × Bool) (user : Bytes) → user ≡ r.0 → r.1 ≡ true → r ≡ (user, true)
pair_eq (a, b) user h e = cc

write-Knows :
    (db_type bs p : Bytes) (s : LoginUserSniffer)
    → length (bs ++ p) < sniff_cap
    → Knows db_type bs s
    → Knows db_type (bs ++ p) (write p s)
unfolding write
write-Knows db_type bs p s short k = elim (Bool-cases s.is_done) [
  | inl done ↦
      let later : sniff db_type (bs ++ p) ≡ (s.user, true) =
        sniff_stable db_type bs p s.user
          (pair_eq (sniff db_type bs) s.user k.answer (k.ended done)) in
      rw done (record {
        same_type = k.same_type;
        answer = rw later refl;
        ended = λ e. rw later refl;
        kept = λ e. absurd (cc);
      })
  | inr looking ↦ rw looking (feed-Knows db_type bs p s short k.same_type (k.kept looking))
]

write_all-Knows :
    (db_type bs : Bytes) (ps : List Bytes) (s : LoginUserSniffer)
    → length (bs ++ stream ps) < sniff_cap
    → Knows db_type bs s
    → Knows db_type (bs ++ stream ps) (write_all ps s)
unfolding write_all
write_all-Knows db_type bs [] s short k = rw (append-nil bs) k
write_all-Knows db_type bs (p ∷ ps) s short k = rw (← append_assoc bs p (stream ps)) (
    write_all-Knows db_type (bs ++ p) ps (write p s)
      (omega (arith, ap length (append_assoc bs p (stream ps))))
      (write-Knows db_type bs p s
        (omega (
          arith,
          length-append bs (p ++ stream ps),
          length-append p (stream ps),
          length-append bs p,
        ))
        k))

no_answer_yet : (db_type : Bytes) → [] ≡ (sniff db_type []).0
unfolding sniff sniff_postgres_user sniff_mysql_user
no_answer_yet db_type = ground arith

new-Knows :
    (u : Unicode) (db_type : Bytes)
    → Knows (to_lower u (trim_space u db_type)) [] (new_login_user_sniffer u db_type)
unfolding new_login_user_sniffer
new-Knows u db_type = record {
  same_type = refl;
  answer = no_answer_yet (to_lower u (trim_space u db_type));
  ended = λ e. cc;
  kept = λ e. refl;
}

-- The name that the sniffer reports is the one in the stream as a whole, in whatever pieces the
-- stream is written to it, if the stream stays below the bound of the buffer.
pub user-write_all :
    (u : Unicode) (db_type : Bytes) (ps : List Bytes)
    → length (stream ps) < sniff_cap
    → (write_all ps (new_login_user_sniffer u db_type)).user
      ≡ (sniff (to_lower u (trim_space u db_type)) (stream ps)).0
user-write_all u db_type ps short =
    let k : Knows (to_lower u (trim_space u db_type)) (stream ps)
        (write_all ps (new_login_user_sniffer u db_type)) =
      write_all-Knows (to_lower u (trim_space u db_type)) [] ps (new_login_user_sniffer u db_type)
        short (new-Knows u db_type) in
    k.answer
