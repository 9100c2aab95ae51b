-- ===== src/Wire/Mongo/Message/Parts.antt =====
-- internal/wire/mongo/mongo.go: what the rewriting of a message leaves of its sections.
use mathlib.Core.Path.{subst}
use skybridge.Prelude.{
  take-drop, take-take, ℕ, zero, suc, ◌+◌, ◌≤◌, ◌≡◌, refl, sym, ap, ◌∙◌, ◌⊎◌, inl, inr, arith, Bool,
  true, false, ◌||◌, Option, none, some, [], ◌∷◌, ◌++◌, ltb, leb, ◌==◌, if◌then◌else◌, Bytes,
  length, take, drop, cut_zero, cut_zero_splits, length-take, Option-cases,
}
use skybridge.Prelude.Endian.{put_le, le_uint}
use skybridge.Mask.{Masker}
use skybridge.Wire.Mongo.Bson.{body, result}
use skybridge.Wire.Mongo.Message.{sequence_docs, sequence, join_body, join_sequence, sections}

-- The bytes are documents one after the other, each as long as its length field says, and `out` is
-- what becomes of them, in their order.
pub data Docs (masker : Masker) : Bytes → Bytes → Type 0 where
  no_docs : Docs masker [] []
  next_doc :
      {bs out : Bytes} (doc more nd outs : Bytes)
      → bs ≡ doc ++ more
      → out ≡ nd ++ outs
      → le_uint (take 4 doc) ≡ length doc
      → result masker doc ≡ some nd
      → Docs masker more outs
      → Docs masker bs out

-- The bytes are sections one after the other, each as long as its length field says, and `out` holds
-- as many, in their order and of the same kinds: for a body the rewritten body, for a sequence a new
-- length, the same name and the rewritten documents.
pub data Sections (masker : Masker) : Bytes → Bytes → Type 0 where
  no_sections : Sections masker [] []
  body_section :
      {bs out : Bytes} (doc more nd outs : Bytes)
      → bs ≡ 0 ∷ (doc ++ more)
      → out ≡ 0 ∷ (nd ++ outs)
      → le_uint (take 4 doc) ≡ length doc
      → body masker doc ≡ some nd
      → Sections masker more outs
      → Sections masker bs out
  sequence_section :
      {bs out : Bytes} (sec more size name docs nds outs : Bytes)
      → bs ≡ 1 ∷ (sec ++ more)
      → sec ≡ size ++ (name ++ (0 ∷ docs))
      → length size ≡ 4
      → le_uint size ≡ length sec
      → out ≡ 1 ∷ ((put_le 4 (5 + length name + length nds) ++ (name ++ (0 ∷ nds))) ++ outs)
      → Docs masker docs nds
      → Sections masker more outs
      → Sections masker bs out

own_length :
    (bs : Bytes)
    → 4 ≤ le_uint (take 4 bs)
    → le_uint (take 4 bs) ≤ length bs
    → le_uint (take 4 (take (le_uint (take 4 bs)) bs)) ≡ length (take (le_uint (take 4 bs)) bs)
own_length bs h fits =
    let s : ℕ = le_uint (take 4 bs) in
    let whole : length (take s bs) ≡ s = omega (arith, length-take s bs, fits) in
    ap le_uint (take-take 4 s bs h) ∙ sym whole

-- Which of two guarded results was given.
guarded :
    {A : Type 0} {v : A} (first bad second bad' : Bool) (x y : Option A)
    → (if first
        then (if bad then none else x)
        else if second
        then (if bad' then none else y)
        else none)
      ≡ some v
    → (first ≡ true) × (bad ≡ false) × (x ≡ some v)
      ⊎ (second ≡ true) × (bad' ≡ false) × (y ≡ some v)
guarded true true second bad' x y h = absurd (cc)
guarded true false second bad' x y h = inl (refl, refl, h)
guarded false bad true true x y h = absurd (cc)
guarded false bad true false x y h = inr (refl, refl, h)
guarded false bad false bad' x y h = absurd (cc)

is_equal : (m n : ℕ) → (m == n) ≡ true → m ≡ n
is_equal m n h = ground arith

no_less : (s n m : ℕ) (a b : Bool) → (a || ltb s n || b) ≡ false → leb m n ≡ true → m ≤ s
no_less s n m a b h l = ground arith

no_past : (a b : Bool) (n s : ℕ) → (a || b || ltb n s) ≡ false → s ≤ n
no_past a b n s h = ground arith

module _ (masker : Masker) where
  -- One document read, and the rest.
  docs_step :
      (fuel : ℕ) (b : ℕ) (bs out : Bytes) (changed : Bool)
      → sequence_docs (suc fuel) masker (b ∷ bs) ≡ some (out, changed)
      → let s = le_uint (take 4 (b ∷ bs)) in
        (4 ≤ s)
        × (s ≤ length (b ∷ bs))
        × (nd : Bytes) × (outs : Bytes) × (ch : Bool) × (result masker (take s (b ∷ bs)) ≡ some nd)
        × (sequence_docs fuel masker (drop s (b ∷ bs)) ≡ some (outs, ch))
        × (out ≡ nd ++ outs)
  unfolding sequence_docs
  docs_step fuel b bs out changed h =
      let s : ℕ = le_uint (take 4 (b ∷ bs)) in
      elim (Option-cases (result masker (take s (b ∷ bs)))) [
        | inl e ↦ absurd (ground arith)
        | inr (nd, e) ↦ elim (Option-cases (sequence_docs fuel masker (drop s (b ∷ bs)))) [
          | inl e' ↦ absurd (ground arith)
          | inr ((outs, ch), e') ↦ (ground arith, ground arith, nd, outs, ch, e, e', ground arith)
        ]
      ]

  sequence_docs-Docs :
      (fuel : ℕ) (bs out : Bytes) (changed : Bool)
      → sequence_docs fuel masker bs ≡ some (out, changed)
      → Docs masker bs out
  unfolding sequence_docs
  sequence_docs-Docs fuel [] out changed h =
      let same : [] ≡ out = cc in subst (Docs masker []) same no_docs
  sequence_docs-Docs zero (b ∷ bs) out changed h = absurd (cc)
  sequence_docs-Docs (suc fuel) (b ∷ bs) out changed h =
      let (low, fits, nd, outs, ch, e, e', built) = docs_step fuel b bs out changed h in
      next_doc _ _ _ _ (take-drop (le_uint (take 4 (b ∷ bs))) (b ∷ bs)) built
        (own_length (b ∷ bs) low fits) e
        (sequence_docs-Docs fuel (drop (le_uint (take 4 (b ∷ bs))) (b ∷ bs)) outs ch e')

  sequence-parts :
      (sec out : Bytes) (changed : Bool)
      → sequence masker sec ≡ some (out, changed)
      → (name : Bytes) × (docs : Bytes) × (nds : Bytes) × (ch : Bool) × (drop 4 sec
          ≡ name ++ (0 ∷ docs))
        × (sequence_docs (length docs) masker docs ≡ some (nds, ch))
        × (out ≡ put_le 4 (5 + length name + length nds) ++ (name ++ (0 ∷ nds)))
  unfolding sequence
  sequence-parts sec out changed h = elim (Option-cases (cut_zero (drop 4 sec))) [
    | inl e ↦ absurd (ground arith)
    | inr ((name, docs), e) ↦ elim (Option-cases (sequence_docs (length docs) masker docs)) [
      | inl e' ↦ absurd (ground arith)
      | inr ((nds, ch), e') ↦
          let size : 5 + length name + length nds ≡ 4 + (length name + 1) + length nds =
            omega arith in
          (name, docs, nds, ch, cut_zero_splits (drop 4 sec) name docs e, e', ground (arith, size))
    ]
  ]

  -- One section read, and the rest.
  section_step :
      (fuel kind : ℕ) (bs out : Bytes) (changed : Bool)
      → sections (suc fuel) masker (kind ∷ bs) ≡ some (out, changed)
      → let s = le_uint (take 4 bs) in
        (4 ≤ s)
        × (s ≤ length bs)
        × ((kind ≡ 0)
              × (join_body (take s bs) (body masker (take s bs)) (sections fuel masker (drop s bs))
                  ≡ some (out, changed))
            ⊎ (kind ≡ 1)
              × (join_sequence (sequence masker (take s bs)) (sections fuel masker (drop s bs))
                  ≡ some (out, changed)))
  unfolding sections
  section_step fuel kind bs out changed h =
      let s : ℕ = le_uint (take 4 bs) in
      let later = sections fuel masker (drop s bs) in
      let short : Bool = ltb (length bs) 4 in
      let past : Bool = ltb (length bs) s in
      elim (guarded (kind == 0) (short || ltb s 5 || past) (kind == 1) (short || ltb s 4 || past)
        (join_body (take s bs) (body masker (take s bs)) later)
        (join_sequence (sequence masker (take s bs)) later) h) [
          | inl (k, g, e) ↦ (
            no_less s 5 4 short past g refl,
            no_past short (ltb s 5) (length bs) s g,
            inl (is_equal kind 0 k, e),
          )
          | inr (k, g, e) ↦ (
            no_less s 4 4 short past g refl,
            no_past short (ltb s 4) (length bs) s g,
            inr (is_equal kind 1 k, e),
          )
        ]

  join_body-parts :
      (part : Bytes) (nd : Option Bytes) (later : Option (Bytes × Bool)) (out : Bytes)
      (changed : Bool)
      → join_body part nd later ≡ some (out, changed)
      → (q : Bytes) × (outs : Bytes) × (ch : Bool) × (nd ≡ some q)
        × (later ≡ some (outs, ch))
        × (out ≡ 0 ∷ (q ++ outs))
  unfolding join_body
  join_body-parts part (some q) (some (outs, ch)) out changed h =
      (q, outs, ch, refl, refl, ground arith)
  join_body-parts part none later out changed h = absurd (cc)
  join_body-parts part (some q) none out changed h = absurd (cc)

  join_sequence-parts :
      (here later : Option (Bytes × Bool)) (out : Bytes) (changed : Bool)
      → join_sequence here later ≡ some (out, changed)
      → (q : Bytes) × (a : Bool) × (outs : Bytes) × (ch : Bool) × (here ≡ some (q, a))
        × (later ≡ some (outs, ch))
        × (out ≡ 1 ∷ (q ++ outs))
  unfolding join_sequence
  join_sequence-parts (some (q, a)) (some (outs, ch)) out changed h =
      (q, a, outs, ch, refl, refl, ground arith)
  join_sequence-parts none later out changed h = absurd (cc)
  join_sequence-parts (some q) none out changed h = absurd (cc)

  pub sections-Sections :
      (fuel : ℕ) (bs out : Bytes) (changed : Bool)
      → sections fuel masker bs ≡ some (out, changed)
      → Sections masker bs out
  unfolding sections
  sections-Sections fuel [] out changed h =
      let same : [] ≡ out = cc in subst (Sections masker []) same no_sections
  sections-Sections zero (kind ∷ bs) out changed h = absurd (cc)
  sections-Sections (suc fuel) (kind ∷ bs) out changed h =
      let s : ℕ = le_uint (take 4 bs) in
      let sec : Bytes = take s bs in
      let (low, fits, read) = section_step fuel kind bs out changed h in
      let own : le_uint (take 4 sec) ≡ length sec = own_length bs low fits in
      elim read [
        | inl (is_body, e) ↦
            let (nd, outs, ch, rewritten, later, built) =
              join_body-parts sec (body masker sec) (sections fuel masker (drop s bs)) out changed
                e in
            body_section sec (drop s bs) nd outs (rw is_body (ap (0 ∷◌) (take-drop s bs))) built own
              rewritten (sections-Sections fuel (drop s bs) outs ch later)
        | inr (is_sequence, e) ↦
            let (q, a, outs, ch, rewritten, later, built) =
              join_sequence-parts (sequence masker sec) (sections fuel masker (drop s bs)) out
                changed e in
            let (name, docs, nds, ch', splits, inner, whole) = sequence-parts sec q a rewritten in
            sequence_section sec (drop s bs) (take 4 sec) name docs nds outs
              (rw is_sequence (ap (1 ∷◌) (take-drop s bs)))
              (take-drop 4 sec ∙ ap (take 4 sec ++◌) splits)
              (omega (arith, length-take 4 sec, length-take s bs, low, fits)) own
              (built ∙ ap (λ x. 1 ∷ (x ++ outs)) whole)
              (sequence_docs-Docs (length docs) docs nds ch' inner)
              (sections-Sections fuel (drop s bs) outs ch later)
      ]
