-- ===== src/Wire/Mongo/Bson/Identity.antt =====
-- internal/wire/mongo/bson.go: a rewriting that keeps the values keeps the document.
use Prim.Native.Nat.add
use skybridge.Prelude.{
  Bool-cases, length-drop, length-take, All-take, All-drop, All-append_split, ℕ, zero, suc, ◌+◌,
  ◌-◌, ◌≤◌, ◌≡◌, refl, sym, ap, ◌∙◌, arith, false, not, ◌||◌, Option, none, some, [], ◌∷◌, ◌++◌,
  ltb, ◌==◌, Bytes, IsByte, All, length, take, drop, get_or, cut_zero, cut_zero_splits, inl, inr,
  take-append-drop,
}
use skybridge.Prelude.Endian.{put_le, le_uint, put_le-le_uint}
use skybridge.Wire.Mongo.Bson.{
  ◌>>=◌, value_len, split_value, next_element, rewrite_body, close_doc, rewrite_doc, ElemFn,
}

-- Inversion of a bind that gave a value.
pub >>=-eq-some {ℓ} :
    {A B : Type ℓ} (m : Option A) (f : A → Option B) {b : B}
    → (m >>= f) ≡ some b
    → (a : A) × (m ≡ some a) × (f a ≡ some b)
>>=-eq-some none f h = cc
>>=-eq-some (some a) f h = (a, refl, h)

split_value_splits : (n : ℕ) (b v rest : Bytes) → split_value n b ≡ some (v, rest) → b ≡ v ++ rest
unfolding split_value
split_value_splits n b v rest h = ground (arith, take-append-drop n b)

-- An element is the bytes in front of what follows it.
pub next_element_splits :
    (typ : ℕ) (b name value rest : Bytes)
    → next_element typ b ≡ some (name, value, rest)
    → b ≡ name ++ (0 ∷ (value ++ rest))
unfolding next_element
next_element_splits typ b name value rest h =
    let ((name', b1), cut, h1) =
      >>=-eq-some (cut_zero b)
        (λ p. value_len typ p.1 >>= λ n. split_value n p.1 >>= λ q. some (p.0, q.0, q.1)) h in
    let (n, len, h2) =
      >>=-eq-some (value_len typ b1) (λ n. split_value n b1 >>= λ q. some (name', q.0, q.1)) h1 in
    let ((v, r), split, h3) = >>=-eq-some (split_value n b1) (λ q. some (name', q.0, q.1)) h2 in
    ground (arith, cut_zero_splits b name' b1 cut, split_value_splits n b1 v r split)

abbrev pub Keeps : ElemFn → Type 0
Keeps fn =
    (typ : ℕ) (name value : Bytes) (nv : Bytes)
    → All IsByte value
    → fn typ name value ≡ some nv
    → nv ≡ value

element_IsByte :
    (typ : ℕ) (b name value rest : Bytes)
    → All IsByte b
    → next_element typ b ≡ some (name, value, rest)
    → All IsByte value × All IsByte rest
element_IsByte typ b name value rest bytes next =
    let parts = rw (next_element_splits typ b name value rest next) at bytes in
    let (_, tail) = All-append_split IsByte name (0 ∷ (value ++ rest)) parts in
    All-append_split IsByte value rest tail.1

rewrite_body-Keeps :
    (fuel : ℕ) (fn : ElemFn) (b q : Bytes)
    → All IsByte b
    → Keeps fn
    → rewrite_body fuel fn b ≡ some q
    → q ≡ b
unfolding rewrite_body
rewrite_body-Keeps fuel fn [] q bytes keeps h = cc
rewrite_body-Keeps zero fn (typ ∷ b) q bytes keeps h = cc
rewrite_body-Keeps (suc fuel) fn (typ ∷ b) q bytes keeps h =
    let ((name, value, rest), next, h1) =
      >>=-eq-some (next_element typ b)
        (λ p. fn typ p.0 p.1 >>= λ nv.
          rewrite_body fuel fn p.2 >>= λ more. some (typ ∷ (p.0 ++ (0 ∷ (nv ++ more)))))
        h in
    let (nv, kept, h2) =
      >>=-eq-some (fn typ name value)
        (λ nv. rewrite_body fuel fn rest >>= λ more. some (typ ∷ (name ++ (0 ∷ (nv ++ more)))))
        h1 in
    let (more, later, h3) =
      >>=-eq-some (rewrite_body fuel fn rest) (λ more. some (typ ∷ (name ++ (0 ∷ (nv ++ more)))))
        h2 in
    let (value_bytes, rest_bytes) = element_IsByte typ b name value rest bytes.1 next in
    cc (
      h3,
      keeps typ name value nv value_bytes kept,
      rewrite_body-Keeps fuel fn rest more rest_bytes keeps later,
      next_element_splits typ b name value rest next,
    )

last_zero : (r : Bytes) (n : ℕ) → length r ≡ suc n → get_or r n 0 ≡ 0 → r ≡ take n r ++ (0 ∷ [])
last_zero [] n l z = absurd (omega arith)
last_zero (x ∷ []) zero l z = ground arith
last_zero (x ∷ []) (suc n) l z = absurd (omega arith)
last_zero (x ∷ y ∷ r) zero l z = absurd (omega arith)
last_zero (x ∷ y ∷ r) (suc n) l z = ap (◌∷◌ x) (last_zero (y ∷ r) n (omega arith) z)

get_or-drop : (k i : ℕ) (xs : Bytes) → get_or (drop k xs) i 0 ≡ get_or xs (k + i) 0
get_or-drop zero i xs = rw (add.zero i)
get_or-drop (suc k) i [] = refl
get_or-drop (suc k) i (x ∷ xs) = rw (add.suc k i) (get_or-drop k i xs)

abbrev pub body_of : Bytes → Bytes
body_of doc = take (length doc - 5) (drop 4 doc)

-- The document's parts: its length, its body and the zero at its end.
doc_parts :
    (doc : Bytes)
    → 5 ≤ length doc
    → get_or doc (length doc - 1) 0 ≡ 0
    → doc ≡ take 4 doc ++ (body_of doc ++ (0 ∷ []))
doc_parts doc h z =
    sym (take-append-drop 4 doc)
    ∙ ap (◌++◌ (take 4 doc)) (
        last_zero (drop 4 doc) (length doc - 5) (omega (arith, length-drop 4 doc))
          (get_or-drop 4 (length doc - 5) doc ∙ rw (same_place (length doc) h) z))
  where
    same_place : (n : ℕ) → 5 ≤ n → 4 + (n - 5) ≡ n - 1
    same_place n l = omega arith

-- What is known of a document that was rewritten.
pub record IsRewritten (fn : ElemFn) (doc q : Bytes) : Type 0 where
  pub long : 5 ≤ length doc
  pub framed : le_uint (take 4 doc) ≡ length doc
  pub ended : get_or doc (length doc - 1) 0 ≡ 0
  pub out : Bytes
  pub rewritten : rewrite_body (length (body_of doc)) fn (body_of doc) ≡ some out
  pub closed : q ≡ close_doc out

doc_tests :
    (doc : Bytes)
    → ltb (length doc) 5 ≡ false
    → (not (le_uint (take 4 doc) == length doc) || not (get_or doc (length doc - 1) 0 == 0)) ≡ false
    → (5 ≤ length doc) × (le_uint (take 4 doc) ≡ length doc) × (get_or doc (length doc - 1) 0 ≡ 0)
doc_tests doc h1 h2 = ground arith

pub rewrite_doc-IsRewritten :
    (fn : ElemFn) (doc q : Bytes) → rewrite_doc fn doc ≡ some q → IsRewritten fn doc q
unfolding rewrite_doc
rewrite_doc-IsRewritten fn doc q h = elim (Bool-cases (ltb (length doc) 5)) [
  | inl short ↦ cc (rw (short, rewrite_doc) at h)
  | inr long ↦
      elim (Bool-cases
        (not (le_uint (take 4 doc) == length doc) || not (get_or doc (length doc - 1) 0 == 0))) [
          | inl bad ↦ cc (rw (long, bad, rewrite_doc) at h)
          | inr good ↦
              let (out, e, closed) =
                >>=-eq-some (rewrite_body (length (body_of doc)) fn (body_of doc))
                  (λ out. some (close_doc out)) (rw (long, good) at h) in
              let (l, f, z) = doc_tests doc long good in
              record {
                long = l;
                framed = f;
                ended = z;
                out = out;
                rewritten = e;
                closed = cc closed;
              }
        ]
]

length-body_of : (doc : Bytes) → 5 ≤ length doc → length (body_of doc) + 5 ≡ length doc
length-body_of doc h = omega (arith, length-take (length doc - 5) (drop 4 doc), length-drop 4 doc)

length_field :
    (doc : Bytes)
    → All IsByte doc
    → 5 ≤ length doc
    → le_uint (take 4 doc) ≡ length doc
    → put_le 4 (length doc) ≡ take 4 doc
length_field doc bytes h framed =
    let four : length (take 4 doc) ≡ 4 = omega (arith, length-take 4 doc) in
    rw (← framed) (rw four at (put_le-le_uint (take 4 doc) (All-take IsByte 4 doc bytes)))

close_doc-body_of :
    (doc : Bytes)
    → All IsByte doc
    → 5 ≤ length doc
    → le_uint (take 4 doc) ≡ length doc
    → get_or doc (length doc - 1) 0 ≡ 0
    → close_doc (body_of doc) ≡ doc
unfolding close_doc
close_doc-body_of doc bytes h framed z =
    ap (λ l. l ++ (body_of doc ++ (0 ∷ [])))
      (ap (put_le 4) (length-body_of doc h) ∙ length_field doc bytes h framed)
    ∙ sym (doc_parts doc h z)

-- A rewriting that returns each value as it is, or fails, returns the whole document as it is, or
-- fails, on any bytes.
pub rewrite_doc-Keeps :
    (fn : ElemFn) (doc q : Bytes)
    → All IsByte doc
    → Keeps fn
    → rewrite_doc fn doc ≡ some q
    → q ≡ doc
rewrite_doc-Keeps fn doc q bytes keeps h =
    let r = rewrite_doc-IsRewritten fn doc q h in
    let same =
      rewrite_body-Keeps (length (body_of doc)) fn (body_of doc) r.out
        (All-take IsByte (length doc - 5) (drop 4 doc) (All-drop IsByte 4 doc bytes)) keeps
        r.rewritten in
    r.closed ∙ ap close_doc same ∙ close_doc-body_of doc bytes r.long r.framed r.ended
