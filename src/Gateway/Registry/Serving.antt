-- ===== src/Gateway/Registry/Serving.antt =====
-- internal/gateway/gateway.go: the specification of who serves a target, and the maps' laws for it.
use skybridge.Prelude.{
  ℕ, ◌≡◌, refl, ap, ◌∙◌, arith, Bool, true, false, ◌&&◌, ◌||◌, Option, none, some, List, [], ◌∷◌,
  ◌==◌, if◌then◌else◌, Bytes, bytes_equal, bytes_equal_iff, ==_iff, Bool-cases, inl, inr,
}
use skybridge.Prelude.Dict.{Dict, get, put, get-put, get-delete}
use skybridge.Tunnel.Control.{Target}
use skybridge.Gateway.Registry.{AgentConn, put_targets, points_to, delete_own, delete_targets}

-- The specification. A connection declares a name, as a target or as its agent's id.
unfoldable pub declares : Bytes → List Target → Bool
declares name [] = false
declares name (t ∷ ts) = bytes_equal t.name name || declares name ts

unfoldable pub among : ℕ → List ℕ → Bool
among c [] = false
among c (d ∷ gone) = c == d || among c gone

-- The last of the connections, newest first, that has the property.
unfoldable pub newest : (ℕ → Bool) → List ℕ → Option ℕ
newest p [] = none
newest p (c ∷ joined) = if p c then some c else newest p joined

unfoldable pub unless_gone : List ℕ → Option ℕ → Option ℕ
unless_gone gone none = none
unless_gone gone (some c) = if among c gone then none else some c

pub get-put_targets :
    (c : ℕ) (ts : List Target) (k : Bytes) (m : Dict ℕ)
    → get k (put_targets c ts m) ≡ (if declares k ts then some c else get k m)
unfolding put_targets declares
get-put_targets c [] k m = refl
get-put_targets c (t ∷ ts) k m =
    get-put_targets c ts k (put t.name c m) ∙ ground (arith, get-put t.name c k m)

pub get-delete_own :
    (c : ℕ) (j k : Bytes) (m : Dict ℕ)
    → get k (delete_own c j m)
      ≡ (if bytes_equal j k && points_to (get k m) c then none else get k m)
unfolding delete_own
get-delete_own c j k m = ground (arith, bytes_equal_iff j k, get-delete j k m)

delete_twice :
    (a b : Bool) (c : ℕ) (x : Option ℕ)
    → (if b && points_to (if a && points_to x c then none else x) c
        then none
        else if a && points_to x c
        then none
        else x)
      ≡ (if (a || b) && points_to x c then none else x)
unfolding points_to
delete_twice true b c x = ground arith
delete_twice false true c x = ground arith
delete_twice false false c x = ground arith

pub get-delete_targets :
    (c : ℕ) (ts : List Target) (k : Bytes) (m : Dict ℕ)
    → get k (delete_targets c ts m)
      ≡ (if declares k ts && points_to (get k m) c then none else get k m)
unfolding delete_targets declares
get-delete_targets c [] k m = refl
get-delete_targets c (t ∷ ts) k m =
    get-delete_targets c ts k (delete_own c t.name m)
    ∙ ap (λ y. if declares k ts && points_to y c then none else y) (get-delete_own c t.name k m)
    ∙ delete_twice (bytes_equal t.name k) (declares k ts) c (get k m)

pub newest_has : (p : ℕ → Bool) (joined : List ℕ) (c : ℕ) → newest p joined ≡ some c → p c ≡ true
unfolding newest
newest_has p [] c h = absurd (cc)
newest_has p (d ∷ joined) c h = ground (arith, newest_has p joined c)

-- What a connection that goes leaves of the specification.
pub unless_gone_leave :
    (p : Bool) (c : ℕ) (gone : List ℕ) (o : Option ℕ)
    → (o ≡ some c → p ≡ true)
    → (if p && points_to (unless_gone gone o) c then none else unless_gone gone o)
      ≡ unless_gone (c ∷ gone) o
unfolding unless_gone points_to among
unless_gone_leave p c gone none own = ground arith
unless_gone_leave p c gone (some d) own = elim (Bool-cases (d == c)) [
  | inl same ↦ rw (own (ap some ((==_iff d c).0 same))) (ground (arith, same))
  | inr other ↦ ground (arith, other)
]

pub unless_gone-eq-some :
    (gone : List ℕ) (o : Option ℕ) (c : ℕ)
    → unless_gone gone o ≡ some c
    → (o ≡ some c) × (among c gone ≡ false)
unfolding unless_gone
unless_gone-eq-some gone none c h = absurd (cc)
unless_gone-eq-some gone (some d) c h = ground arith

-- The newest connection with a property, if it is still there.
unfoldable pub serving : (ℕ → Bool) → List ℕ → List ℕ → Option ℕ
serving p joined gone = unless_gone gone (newest p joined)

-- The connections that declare a target of the name, and those of the agent of that id.
unfoldable pub has_target : (ℕ → AgentConn) → Bytes → ℕ → Bool
has_target heap name c = declares name (heap c).targets

unfoldable pub has_id : (ℕ → AgentConn) → Bytes → ℕ → Bool
has_id heap id c = bytes_equal (heap c).id id

pub join_serves :
    (p : ℕ → Bool) (c : ℕ) (joined gone : List ℕ) (served : Option ℕ)
    → among c gone ≡ false
    → served ≡ serving p joined gone
    → (if p c then some c else served) ≡ serving p (c ∷ joined) gone
unfolding serving newest unless_gone
join_serves p c joined gone served here before = elim (Bool-cases (p c)) [
  | inl it ↦ rw (it, here) refl
  | inr other ↦ rw other before
]

pub leave_serves :
    (p : ℕ → Bool) (c : ℕ) (joined gone : List ℕ) (served : Option ℕ)
    → served ≡ serving p joined gone
    → (if p c && points_to served c then none else served) ≡ serving p joined (c ∷ gone)
unfolding serving
leave_serves p c joined gone served before =
    ap (λ o. if p c && points_to o c then none else o) before
    ∙ unless_gone_leave (p c) c gone (newest p joined) (newest_has p joined c)
