-- ===== src/Edge/Aws/Ecs/Sorted.antt =====
-- internal/edge/awsexec/ecs_snapshot.go: the load balancer dimensions are a set in order.
use skybridge.Prelude.{
  ◌≡◌, refl, sym, ap, ◌∙◌, arith, true, false, ◌||◌, Option, none, some, List, [], ◌∷◌, Bytes,
  length, if_both, bytes_equal, bytes_equal_iff, Bool-cases, Option-cases, inl, inr,
}
use skybridge.Prelude.Text.{codes, Unicode, trim_space, has_prefix}
use skybridge.Edge.Policy.{is_in}
use skybridge.Edge.Aws.Ecs.{
  text_lt, insert_unique, sorted_unique, after_text, application_only, alb_dimension_from_arn,
  dimensions_of, load_balancers, blocks_of, trimmed_arns, alb_dimensions_from_service,
}

-- The text is less than the first one of a list, if there is one.
pub IsBelow : Bytes → List Bytes → Type 0
IsBelow s [] = Unit
IsBelow s (t ∷ ts) = text_lt s t ≡ true

-- Every text is less than the next one, so that none stands there twice.
pub IsAscending : List Bytes → Type 0
unfolding IsBelow
IsAscending [] = Unit
IsAscending (s ∷ ss) = IsBelow s ss × IsAscending ss

text_lt_total : (s t : Bytes) → text_lt s t ≡ false → text_lt t s ≡ false → s ≡ t
unfolding text_lt
text_lt_total [] [] p q = refl
text_lt_total [] (y ∷ t) p q = cc
text_lt_total (x ∷ s) [] p q = cc
text_lt_total (x ∷ s) (y ∷ t) p q = ground (arith, text_lt_total s t)

insert_unique-IsBelow :
    (t s : Bytes) (ts : List Bytes)
    → text_lt t s ≡ true
    → IsBelow t ts
    → IsBelow t (insert_unique s ts)
unfolding insert_unique IsBelow
insert_unique-IsBelow t s [] h below = h
insert_unique-IsBelow t s (x ∷ ts) h below =
    if_both (IsBelow t) (text_lt s x) _ _ h (if_both (IsBelow t) (text_lt x s) _ _ below below)

insert_unique-IsAscending :
    (s : Bytes) (ts : List Bytes) → IsAscending ts → IsAscending (insert_unique s ts)
unfolding insert_unique IsAscending IsBelow
insert_unique-IsAscending s [] h = (tt, tt)
insert_unique-IsAscending s (t ∷ ts) (below, h) = elim (Bool-cases (text_lt s t)) [
  | inl e ↦ rw e (e, (below, h))
  | inr e ↦ elim (Bool-cases (text_lt t s)) [
    | inl e' ↦ rw (e, e') (insert_unique-IsBelow t s ts e' below, insert_unique-IsAscending s ts h)
    | inr e' ↦ rw (e, e') (below, h)
  ]
]

is_in-insert_unique :
    (k s : Bytes) (ts : List Bytes) → is_in k (insert_unique s ts) ≡ (bytes_equal k s || is_in k ts)
unfolding insert_unique is_in
is_in-insert_unique k s [] = refl
is_in-insert_unique k s (t ∷ ts) = ground (arith, is_in-insert_unique k s ts, text_lt_total s t)

-- The sorted strings of a list are in order, each once, and they are the strings of the list.
pub sorted_unique-IsAscending :
    (ss : List Bytes)
    → IsAscending (sorted_unique ss) × ((k : Bytes) → is_in k (sorted_unique ss) ≡ is_in k ss)
unfolding sorted_unique is_in IsAscending
sorted_unique-IsAscending [] = (tt, λ k. refl)
sorted_unique-IsAscending (s ∷ ss) =
    let (ordered, same) = sorted_unique-IsAscending ss in
    (
      insert_unique-IsAscending s (sorted_unique ss) ordered,
      λ k. is_in-insert_unique k s (sorted_unique ss) ∙ ap (bytes_equal k s ||◌) (same k),
    )

application_only_prefix :
    (s d : Bytes) → application_only s ≡ some d → has_prefix d (codes "app/") ≡ true
unfolding application_only
application_only_prefix s d h = elim (Bool-cases (has_prefix s (codes "app/"))) [
  | inl e ↦
      let same : some s ≡ some d = rw (e, application_only) at h in
      let equal : s ≡ d = cc in rw (← equal) e
  | inr e ↦ let never : none ≡ some d = rw (e, application_only) at h in cc
]

alb_dimension_from_arn_prefix :
    (u : Unicode) (arn d : Bytes)
    → alb_dimension_from_arn u arn ≡ some d
    → has_prefix d (codes "app/") ≡ true
unfolding alb_dimension_from_arn
alb_dimension_from_arn_prefix u arn d h =
    elim (Option-cases (after_text (codes ":loadbalancer/") (trim_space u arn))) [
      | inl e ↦ let never : none ≡ some d = rw (e, alb_dimension_from_arn) at h in cc
      | inr (rest, e) ↦
          application_only_prefix (trim_space u rest) d (rw (e, alb_dimension_from_arn) at h)
    ]

dimensions_of-none :
    (u : Unicode) (arn : Bytes) (arns : List Bytes)
    → alb_dimension_from_arn u arn ≡ none
    → dimensions_of u (arn ∷ arns) ≡ dimensions_of u arns
unfolding dimensions_of
dimensions_of-none u arn arns e = rw (e, dimensions_of) refl

dimensions_of-some :
    (u : Unicode) (arn d : Bytes) (arns : List Bytes)
    → alb_dimension_from_arn u arn ≡ some d
    → dimensions_of u (arn ∷ arns) ≡ d ∷ dimensions_of u arns
unfolding dimensions_of
dimensions_of-some u arn d arns e = rw (e, dimensions_of) refl

dimensions_of_prefix :
    (u : Unicode) (arns : List Bytes) (k : Bytes)
    → is_in k (dimensions_of u arns) ≡ true
    → has_prefix k (codes "app/") ≡ true
unfolding dimensions_of is_in
dimensions_of_prefix u [] k h = cc
dimensions_of_prefix u (arn ∷ arns) k h = elim (Option-cases (alb_dimension_from_arn u arn)) [
  | inl e ↦ dimensions_of_prefix u arns k (sym (ap (is_in k) (dimensions_of-none u arn arns e)) ∙ h)
  | inr (d, e) ↦
      let stands : is_in k (d ∷ dimensions_of u arns) ≡ true =
        sym (ap (is_in k) (dimensions_of-some u arn d arns e)) ∙ h in
      elim (Bool-cases (bytes_equal k d)) [
        | inl e' ↦ rw ((bytes_equal_iff k d).0 e') (alb_dimension_from_arn_prefix u arn d e)
        | inr e' ↦ dimensions_of_prefix u arns k (rw (e', is_in) at stands)
      ]
]

-- The dimensions of a service's load balancers are in order, each once, and each names an application
-- load balancer, whatever AWS answers.
pub alb_dimensions_from_service-IsAscending :
    (u : Unicode) (describe : List Bytes → Option (List (List Bytes))) (arns : List Bytes)
    → let dims = alb_dimensions_from_service u describe arns in
      IsAscending dims × ((k : Bytes) → is_in k dims ≡ true → has_prefix k (codes "app/") ≡ true)
unfolding alb_dimensions_from_service
alb_dimensions_from_service-IsAscending u describe arns =
    let groups = sorted_unique (trimmed_arns u arns) in
    let found = load_balancers describe (blocks_of (length groups) groups) in
    let (ordered, same) = sorted_unique-IsAscending (dimensions_of u found) in
    (ordered, λ k h. dimensions_of_prefix u found k (sym (same k) ∙ h))
