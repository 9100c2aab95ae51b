-- ===== src/Edge/Aws/Logs/Polling.antt =====
-- internal/edge/awsexec/cloudwatch.go: the polling of a query ends, and a query that completes is
-- answered with its rows.
use mathlib.Core.Path.{subst}
use native.Mathlib.Nat.{lt-mul-div-succ}
use skybridge.Prelude.{
  ℕ, zero, suc, ◌+◌, ◌-◌, ◌*◌, ◌/◌, ◌≤◌, ◌<◌, ◌≡◌, refl, ap, ◌∙◌, arith, false, none, some, Bytes,
  Result, ok, err, ltb, lt→ltb, Option-cases, Bool-cases, inl, inr,
}
use skybridge.Edge.Aws.Logs.{
  Status, complete, failed, running, QueryResults, Poll, Ending, completed, timed_out, after_answer,
  after_poll, poll_step, poll_loop, wait_time,
}

-- The clock behind a round that is followed by another: it has passed on, and by the wait at least.
pub record IsTicking (every deadline : ℕ) (polls : ℕ → Poll) : Type 0 where
  pub passes : (n : ℕ) → (polls n).now < (polls (suc n)).now
  pub waits : (n : ℕ) → (polls n).now + wait_time every deadline (polls n).now ≤ (polls (suc n)).now

after_answer-late :
    (deadline : ℕ) (p : Poll) (out : QueryResults) (s : Status)
    → deadline < p.now
    → (e : Ending) × (after_answer deadline p out s ≡ some e)
unfolding after_answer
after_answer-late deadline p out complete late = (completed out.rows, refl)
after_answer-late deadline p out (failed name) late = (_, refl)
after_answer-late deadline p out running late = (timed_out, rw (lt→ltb deadline p.now late) refl)

after_poll-late :
    (deadline : ℕ) (p : Poll) (answer : Result Bytes QueryResults)
    → deadline < p.now
    → (e : Ending) × (after_poll deadline p answer ≡ some e)
unfolding after_poll
after_poll-late deadline p (err msg) late = (_, refl)
after_poll-late deadline p (ok out) late = after_answer-late deadline p out out.status late

-- A round past the deadline is the last one.
poll_step-late :
    (deadline : ℕ) (p : Poll) → deadline < p.now → (e : Ending) × (poll_step deadline p ≡ some e)
unfolding poll_step
poll_step-late deadline p late = after_poll-late deadline p p.answer late

poll_step-completed :
    (deadline : ℕ) (p : Poll) (out : QueryResults)
    → p.answer ≡ ok out
    → out.status ≡ complete
    → poll_step deadline p ≡ some (completed out.rows)
unfolding poll_step after_poll after_answer
poll_step-completed deadline p out answer done =
    ap (after_poll deadline p) answer ∙ ap (after_answer deadline p out) done

module _ (polls : ℕ → Poll) (deadline : ℕ) where
  poll_loop-ended :
      (f n : ℕ) (e : Ending)
      → poll_step deadline (polls n) ≡ some e
      → poll_loop polls deadline (suc f) n ≡ some e
  unfolding poll_loop
  poll_loop-ended f n e h = rw (h, poll_loop) refl

  poll_loop-next :
      (f n : ℕ)
      → poll_step deadline (polls n) ≡ none
      → poll_loop polls deadline (suc f) n ≡ poll_loop polls deadline f (suc n)
  unfolding poll_loop
  poll_loop-next f n h = rw (h, poll_loop) refl

  -- A round ends the loop, or the loop goes on from the next one.
  poll_loop-step :
      (f n : ℕ)
      → (r : Ending) × (poll_loop polls deadline f (suc n) ≡ some r)
      → (r : Ending) × (poll_loop polls deadline (suc f) n ≡ some r)
  poll_loop-step f n (r, ends) = elim (Option-cases (poll_step deadline (polls n))) [
    | inl going ↦ (r, poll_loop-next f n going ∙ ends)
    | inr (r', ended) ↦ (r', poll_loop-ended f n r' ended)
  ]

  poll_loop-late :
      (f n : ℕ)
      → deadline < (polls n).now
      → (r : Ending) × (poll_loop polls deadline (suc f) n ≡ some r)
  poll_loop-late f n late =
      let (r, ended) = poll_step-late deadline (polls n) late in (r, poll_loop-ended f n r ended)

  -- Two runs that end, on whatever fuel, end in the same way.
  poll_loop_unique :
      (f g n : ℕ) (a b : Ending)
      → poll_loop polls deadline f n ≡ some a
      → poll_loop polls deadline g n ≡ some b
      → a ≡ b
  unfolding poll_loop
  poll_loop_unique zero g n a b p q = cc
  poll_loop_unique (suc f) zero n a b p q = cc
  poll_loop_unique (suc f) (suc g) n a b p q = elim (Option-cases (poll_step deadline (polls n))) [
    | inl e ↦ poll_loop_unique f g (suc n) a b (rw (e, poll_loop) at p) (rw (e, poll_loop) at q)
    | inr (r, e) ↦ let p' = rw (e, poll_loop) at p in let q' = rw (e, poll_loop) at q in cc
  ]

  -- A round that ends the loop is reached over rounds that do not.
  poll_loop-reaches :
      (k n : ℕ) (e : Ending)
      → ((j : ℕ) → j < k → poll_step deadline (polls (j + n)) ≡ none)
      → poll_step deadline (polls (k + n)) ≡ some e
      → (f : ℕ) × (poll_loop polls deadline f n ≡ some e)
  poll_loop-reaches zero n e h last = (
    1,
    poll_loop-ended 0 n e (subst (λ m. poll_step deadline (polls m) ≡ some e) (omega arith) last),
  )
  poll_loop-reaches (suc k) n e h last =
      let (f, ends) =
        poll_loop-reaches k (suc n) e
          (λ j lt.
            subst (λ m. poll_step deadline (polls m) ≡ none) (omega arith)
              (h (suc j) (omega arith)))
          (subst (λ m. poll_step deadline (polls m) ≡ some e) (omega arith) last) in
      let here =
        subst (λ m. poll_step deadline (polls m) ≡ none) (omega arith) (h 0 (omega arith)) in
      (suc f, poll_loop-next f n here ∙ ends)

  module _ (every : ℕ) (t : IsTicking every deadline polls) where
    -- Behind a round that waits up to the deadline there is one round more, or two.
    poll_loop-last :
        (k n : ℕ)
        → ltb every (deadline - (polls n).now) ≡ false
        → (r : Ending) × (poll_loop polls deadline (suc (suc k)) (suc n) ≡ some r)
    unfolding wait_time
    poll_loop-last k n e =
        let waited : (polls n).now + (deadline - (polls n).now) ≤ (polls (suc n)).now =
          rw (e, wait_time) at (t.waits n) in
        poll_loop-step (suc k) (suc n)
          (poll_loop-late k (suc (suc n)) (omega (arith, t.passes (suc n))))

    -- A number of waits that reaches past the deadline is enough.
    poll_loop-ends_in :
        (k n : ℕ)
        → deadline < (polls n).now + every * k
        → (r : Ending) × (poll_loop polls deadline (suc (suc k)) n ≡ some r)
    unfolding wait_time
    poll_loop-ends_in zero n late = poll_loop-late 1 n (omega arith)
    poll_loop-ends_in (suc k) n soon =
        poll_loop-step (suc (suc k)) n (elim (Bool-cases (ltb every (deadline - (polls n).now))) [
          | inr e ↦ poll_loop-last k n e
          | inl e ↦
              let waited : (polls n).now + every ≤ (polls (suc n)).now =
                rw (e, wait_time) at (t.waits n) in
              poll_loop-ends_in k (suc n) (omega arith)
        ])

-- A query that is asked for every so often, for at most so long, on a clock that passes on with every
-- round and by the wait of the round at least, ends within the stated number of requests, whatever
-- AWS answers.
pub poll_loop-ends :
    (polls : ℕ → Poll) (every longest started : ℕ)
    → 0 < every
    → started ≤ (polls 0).now
    → IsTicking every (started + longest) polls
    → (r : Ending) × (poll_loop polls (started + longest) (longest / every + 3) 0 ≡ some r)
poll_loop-ends polls every longest started some_wait begun t =
    subst (λ f. (r : Ending) × (poll_loop polls (started + longest) f 0 ≡ some r)) (omega arith)
      (poll_loop-ends_in polls (started + longest) every t (longest / every + 1) 0
        (omega (arith, begun, lt-mul-div-succ longest some_wait)))

-- A query that completes in some round, after rounds that do not end the loop, is answered with the
-- rows of that round, within as many requests as there are waits in the longest time, and three more.
-- The wait is positive, and the clock passes on with every round and by the wait of the round at least.
pub poll_loop-completed :
    (polls : ℕ → Poll) (every longest started k : ℕ) (out : QueryResults)
    → 0 < every
    → started ≤ (polls 0).now
    → IsTicking every (started + longest) polls
    → ((j : ℕ) → j < k → poll_step (started + longest) (polls j) ≡ none)
    → (polls k).answer ≡ ok out
    → out.status ≡ complete
    → poll_loop polls (started + longest) (longest / every + 3) 0 ≡ some (completed out.rows)
poll_loop-completed polls every longest started k out some_wait begun t going answer done =
    let (r, ends) = poll_loop-ends polls every longest started some_wait begun t in
    let deadline = started + longest in
    let last : poll_step deadline (polls (k + 0)) ≡ some (completed out.rows) =
      subst (λ m. poll_step deadline (polls m) ≡ some (completed out.rows)) (omega arith)
        (poll_step-completed deadline (polls k) out answer done) in
    let (f, same) =
      poll_loop-reaches polls deadline k 0 (completed out.rows)
        (λ j lt. subst (λ m. poll_step deadline (polls m) ≡ none) (omega arith) (going j lt))
        last in
    ends
    ∙ ap some
        (poll_loop_unique polls deadline (longest / every + 3) f 0 r (completed out.rows) ends same)
