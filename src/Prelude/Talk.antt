-- ===== src/Prelude/Talk.antt =====
-- A conversation over a connection: from the bytes that the other side will still send, the bytes
-- written, and the result with the bytes left, or an error. The connection takes every write.
use mathlib.Core.Path.{◌≡◌, refl}
use mathlib.Core.Bool.{Bool, true, false}
use mathlib.Core.Option.{Option, none, some}
use mathlib.Core.List.{[], ◌++◌}
use skybridge.Prelude.Lists.{Bytes}
use skybridge.Prelude.Errors.{Result, ok, err}

abbrev pub Talk : Type 0 → Type 0 → Type 0
Talk E A = Bytes → Bytes × Result E (A × Bytes)

module _ {E A : Type 0} where
  unfoldable pub return : A → Talk E A
  return a bs = ([], ok (a, bs))

  unfoldable pub fail : E → Talk E A
  fail e bs = ([], err e)

  unfoldable pub receive : (Bytes → Result E (A × Bytes)) → Talk E A
  receive f bs = ([], f bs)

  unfoldable pub or_fail : Option A → E → Talk E A
  or_fail none e bs = ([], err e)
  or_fail (some a) e bs = ([], ok (a, bs))

unfoldable pub emit : {E : Type 0} → Bytes → Talk E (Unit {0})
emit w bs = (w, ok (tt, bs))

unfoldable pub guard : {E : Type 0} → Bool → E → Talk E (Unit {0})
guard true e bs = ([], ok (tt, bs))
guard false e bs = ([], err e)

abbrev pub after :
    {E A B : Type 0} → (A → Talk E B) → Bytes × Result E (A × Bytes) → Bytes × Result E (B × Bytes)
after f (w, err e) = (w, err e)
after f (w, ok (a, rest)) = (w ++ (f a rest).0, (f a rest).1)

infixl 5 ◌>>=◌
unfoldable pub ◌>>=◌ : {E A B : Type 0} → Talk E A → (A → Talk E B) → Talk E B
◌>>=◌ m f bs = after f (m bs)

infixl 5 ◌>>◌
unfoldable pub ◌>>◌ : {E B : Type 0} → Talk E (Unit {0}) → Talk E B → Talk E B
unfolding ◌>>=◌
◌>>◌ m k = m >>= λ _. k

after-eq-ok :
    {E A B : Type 0} (f : A → Talk E B) (x : Bytes × Result E (A × Bytes)) {r : B × Bytes}
    → (after f x).1 ≡ ok r
    → (a : A) × (rest : Bytes) × (x.1 ≡ ok (a, rest)) × ((f a rest).1 ≡ ok r)
after-eq-ok f (w, err e) h = cc
after-eq-ok f (w, ok (a, rest)) h = (a, rest, refl, h)

-- What a conversation that succeeds did first.
pub >>=-eq-ok :
    {E A B : Type 0} (m : Talk E A) (f : A → Talk E B) (bs : Bytes) {r : B × Bytes}
    → ((m >>= f) bs).1 ≡ ok r
    → (a : A) × (rest : Bytes) × ((m bs).1 ≡ ok (a, rest)) × ((f a rest).1 ≡ ok r)
unfolding ◌>>=◌
>>=-eq-ok m f bs h = after-eq-ok f (m bs) h

pub guard-ok :
    {E A : Type 0} (b : Bool) (e : E) (k : Talk E A) (bs : Bytes) {r : A × Bytes}
    → ((guard b e >> k) bs).1 ≡ ok r
    → (b ≡ true) × ((k bs).1 ≡ ok r)
unfolding ◌>>=◌ ◌>>◌ guard
guard-ok true e k bs h = (refl, h)
guard-ok false e k bs h = absurd (cc)

pub last_guard-ok :
    {E : Type 0} (b : Bool) (e : E) (bs : Bytes) {r : Unit {0} × Bytes}
    → (guard b e bs).1 ≡ ok r
    → b ≡ true
unfolding guard
last_guard-ok true e bs h = refl
last_guard-ok false e bs h = absurd (cc)

pub or_fail-ok :
    {E A B : Type 0} (o : Option A) (e : E) (f : A → Talk E B) (bs : Bytes) {r : B × Bytes}
    → ((or_fail o e >>= f) bs).1 ≡ ok r
    → (a : A) × (o ≡ some a) × ((f a bs).1 ≡ ok r)
unfolding ◌>>=◌ or_fail
or_fail-ok none e f bs h = absurd (cc)
or_fail-ok (some a) e f bs h = (a, refl, h)

pub emit-ok :
    {E A : Type 0} (w : Bytes) (k : Talk E A) (bs : Bytes) {r : A × Bytes}
    → ((emit w >> k) bs).1 ≡ ok r
    → (k bs).1 ≡ ok r
unfolding ◌>>=◌ ◌>>◌ emit
emit-ok w k bs h = h

pub return-ok :
    {E A : Type 0} (a x : A) (bs rest : Bytes)
    → (return {E = E} a bs).1 ≡ ok (x, rest)
    → (a ≡ x) × (bs ≡ rest)
unfolding return
return-ok a x bs rest h = (cc, cc)
