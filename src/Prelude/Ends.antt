-- ===== src/Prelude/Ends.antt =====
-- Rules for a property of every conversation that a `do` block is made of: it fails with no error of
-- a given kind, and leaves no more bytes to read than there were.
use Prim.Native.Nat.{ℕ, ◌≤◌, ◌<◌}
use mathlib.Core.Path.{◌≡◌}
use mathlib.Core.Bool.{Bool, true, false}
use mathlib.Core.Option.{Option, none, some}
use native.Mathlib.Omega.{arith}
use skybridge.Prelude.Lists.{Bytes, length}
use skybridge.Prelude.Tests.{if◌then◌else◌}
use skybridge.Prelude.Errors.{Result, ok, err}
use skybridge.Prelude.Talk.{Talk, return, fail, or_fail, emit, guard, after, ◌>>=◌, ◌>>◌}

-- The outcome `r` of a conversation that had `n` bytes to read.
abbrev pub EndsAt : {E A : Type 0} → (E → Bool) → ℕ → Result E (A × Bytes) → Type 0
EndsAt bad n (ok (a, rest)) = length rest ≤ n
EndsAt bad n (err e) = bad e ≡ false

pub record Ends {E A : Type 0} (bad : E → Bool) (m : Talk E A) : Type 0 where
  pub at : (bs : Bytes) → EndsAt bad (length bs) (m bs).1

weaken_at :
    {E A : Type 0} (bad : E → Bool) (m n : ℕ) (r : Result E (A × Bytes))
    → m ≤ n
    → EndsAt bad m r
    → EndsAt bad n r
weaken_at bad m n (ok (a, rest)) le h = omega arith
weaken_at bad m n (err e) le h = h

guard_at :
    {E : Type 0} (bad : E → Bool) (b : Bool) (e : E)
    → bad e ≡ false
    → (bs : Bytes) → EndsAt bad (length bs) (guard b e bs).1
unfolding guard
guard_at bad true e ne bs = omega arith
guard_at bad false e ne bs = ne

or_fail_at :
    {E A : Type 0} (bad : E → Bool) (o : Option A) (e : E)
    → bad e ≡ false
    → (bs : Bytes) → EndsAt bad (length bs) (or_fail o e bs).1
unfolding or_fail
or_fail_at bad none e ne bs = ne
or_fail_at bad (some a) e ne bs = omega arith

module _ {E : Type 0} {bad : E → Bool} where
  pub Ends-return : {A : Type 0} (a : A) → Ends bad (return a)
  unfolding return
  Ends-return a = record { at = λ bs. omega arith }

  pub Ends-fail : {A : Type 0} (e : E) → bad e ≡ false → Ends {A = A} bad (fail e)
  unfolding fail
  Ends-fail e ne = record { at = λ bs. ne }

  pub Ends-emit : (w : Bytes) → Ends bad (emit w)
  unfolding emit
  Ends-emit w = record { at = λ bs. omega arith }

  pub Ends-guard : (b : Bool) (e : E) → bad e ≡ false → Ends bad (guard b e)
  Ends-guard b e ne = record { at = guard_at bad b e ne }

  pub Ends-or_fail : {A : Type 0} (o : Option A) (e : E) → bad e ≡ false → Ends bad (or_fail o e)
  Ends-or_fail o e ne = record { at = or_fail_at bad o e ne }

  after_at :
      {A B : Type 0} (f : A → Talk E B) (n : ℕ) (x : Bytes × Result E (A × Bytes))
      → ((a : A) → Ends bad (f a))
      → EndsAt bad n x.1
      → EndsAt bad n (after f x).1
  after_at f n (w, err e) k h = h
  after_at f n (w, ok (a, rest)) k h = weaken_at bad (length rest) n (f a rest).1 h ((k a).at rest)

  pub Ends->>= :
      {A B : Type 0} {m : Talk E A} {f : A → Talk E B}
      → Ends bad m
      → ((a : A) → Ends bad (f a))
      → Ends bad (m >>= f)
  unfolding ◌>>=◌
  Ends->>= {m} {f} h k = record { at = λ bs. after_at f (length bs) (m bs) k (h.at bs) }

  pub Ends->> :
      {B : Type 0} {m : Talk E (Unit {0})} {k : Talk E B}
      → Ends bad m
      → (Unit {0} → Ends bad k)
      → Ends bad (m >> k)
  unfolding ◌>>◌
  Ends->> h k = Ends->>= h k

  pub Ends-if :
      {A : Type 0} {m k : Talk E A} (b : Bool)
      → Ends bad m
      → Ends bad k
      → Ends bad (if b then m else k)
  Ends-if true h k = h
  Ends-if false h k = k

-- The same for a conversation that reads something when it succeeds.
abbrev pub ReadsAt : {E A : Type 0} → (E → Bool) → ℕ → Result E (A × Bytes) → Type 0
ReadsAt bad n (ok (a, rest)) = length rest < n
ReadsAt bad n (err e) = bad e ≡ false

below_at :
    {E A : Type 0} (bad : E → Bool) (m n : ℕ) (r : Result E (A × Bytes))
    → m < n
    → EndsAt bad m r
    → ReadsAt bad n r
below_at bad m n (ok (a, rest)) lt h = omega arith
below_at bad m n (err e) lt h = h

module _ {E A B : Type 0} (bad : E → Bool) (f : A → Talk E B) (n : ℕ) where
  after_reads :
      (x : Bytes × Result E (A × Bytes))
      → ReadsAt bad n x.1
      → ((a : A) → Ends bad (f a))
      → ReadsAt bad n (after f x).1
  after_reads (w, err e) h k = h
  after_reads (w, ok (a, rest)) h k = below_at bad (length rest) n (f a rest).1 h ((k a).at rest)

  after_ends :
      (x : Bytes × Result E (A × Bytes))
      → ReadsAt bad n x.1
      → ((a : A) (rest : Bytes) → length rest < n → EndsAt bad (length rest) (f a rest).1)
      → EndsAt bad n (after f x).1
  after_ends (w, err e) h k = h
  after_ends (w, ok (a, rest)) h k =
      weaken_at bad (length rest) n (f a rest).1 (omega arith) (k a rest h)

  after_stays :
      (x : Bytes × Result E (A × Bytes))
      → EndsAt bad n x.1
      → ((a : A) (rest : Bytes) → length rest ≤ n → EndsAt bad (length rest) (f a rest).1)
      → EndsAt bad n (after f x).1
  after_stays (w, err e) h k = h
  after_stays (w, ok (a, rest)) h k = weaken_at bad (length rest) n (f a rest).1 h (k a rest h)

module _ {E A B : Type 0} (bad : E → Bool) (m : Talk E A) (f : A → Talk E B) where
  pub >>=-ReadsAt :
      (bs : Bytes)
      → ReadsAt bad (length bs) (m bs).1
      → ((a : A) → Ends bad (f a))
      → ReadsAt bad (length bs) ((m >>= f) bs).1
  unfolding ◌>>=◌
  >>=-ReadsAt bs h k = after_reads bad f (length bs) (m bs) h k

  pub >>=-EndsAt :
      (bs : Bytes)
      → ReadsAt bad (length bs) (m bs).1
      → ((a : A) (rest : Bytes) → length rest < length bs → EndsAt bad (length rest) (f a rest).1)
      → EndsAt bad (length bs) ((m >>= f) bs).1
  unfolding ◌>>=◌
  >>=-EndsAt bs h k = after_ends bad f (length bs) (m bs) h k

  -- The same behind a conversation that may read nothing.
  pub >>=-EndsAt_any :
      (bs : Bytes)
      → EndsAt bad (length bs) (m bs).1
      → ((a : A) (rest : Bytes) → length rest ≤ length bs → EndsAt bad (length rest) (f a rest).1)
      → EndsAt bad (length bs) ((m >>= f) bs).1
  unfolding ◌>>=◌
  >>=-EndsAt_any bs h k = after_stays bad f (length bs) (m bs) h k
