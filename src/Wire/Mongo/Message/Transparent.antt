-- ===== src/Wire/Mongo/Message/Transparent.antt =====
-- internal/wire/mongo: messages under a masker that changes nothing.
use mathlib.Core.Path.{subst}
use skybridge.Prelude.{
  has_bit, ℕ, zero, suc, ◌+◌, ◌-◌, ◌≡◌, refl, arith, Bool, true, false, not, ◌||◌, Option, none,
  some, List, [], ◌∷◌, ltb, ◌==◌, Bytes, IsByte, All, length, take, drop, All-take, cut_zero,
  cut_zero_splits, All-append_split, All-drop, Option-cases, inl, inr, bytes_equal,
  bytes_equal_refl, if_both,
}
use skybridge.Prelude.Endian.{le_uint}
use skybridge.Mask.{Column, Row, Masker}
use skybridge.Wire.Mongo.Bson.{
  masked_string, mask_string, mask_result, result, batch, cursor, body, is_batch, is_cursor,
  is_result, result_elem, descend,
}
use skybridge.Wire.Mongo.Bson.Identity.{>>=-eq-some, Keeps, rewrite_doc-Keeps}
use skybridge.Wire.Mongo.Message.{
  op_msg, section_bytes, join_body, join_sequence, sequence_docs, sequence, sections, choose,
  transform_message,
}

-- The masker returns every row as it is, with an error or without.
abbrev pub Idle : Masker → Type 0
Idle m = (cols : List Column) (row : Row) → (m cols row).0 ≡ row

masked_string_same :
    (value s : Bytes) (r : Row × Option Bytes) → r.0 ≡ some s ∷ [] → masked_string value s r ≡ value
unfolding masked_string
masked_string_same value s (some v ∷ [], none) e = ground (arith, bytes_equal_refl s)
masked_string_same value s _ e = refl

abbrev GivesBytes : Option Bytes → Type 0
GivesBytes o = (bs : Bytes) → o ≡ some bs → All IsByte bs

some_bytes : (xs : Bytes) → All IsByte xs → GivesBytes (some xs)
some_bytes xs h bs e = let same : xs ≡ bs = cc in subst (All IsByte) same h

section_bytes-IsByte : (msg : Bytes) → All IsByte msg → GivesBytes (section_bytes msg)
unfolding section_bytes
section_bytes-IsByte msg bytes =
    if_both GivesBytes (has_bit 0 (le_uint (take 4 (drop 16 msg)))) _ _
      (if_both GivesBytes (ltb (length msg) 24) none _ (λ bs e. cc)
        (some_bytes _
          (All-take IsByte (length msg - 24) (drop 20 msg) (All-drop IsByte 20 msg bytes))))
      (some_bytes _ (All-drop IsByte 20 msg bytes))

module _ (masker : Masker) (idle : Idle masker) where
  mask_string_idle : (name value : Bytes) → mask_string masker name value ≡ value
  unfolding mask_string
  mask_string_idle name value = if_both Same (ltb (length value) 5) value _ refl (
      if_both Same
        (ltb (le_uint (take 4 value)) 1 || ltb (length value) (4 + le_uint (take 4 value))) value _
        refl (masked_string_same value _ _ (idle _ _)))
    where
      Same : Bytes → Type 0
      Same v = v ≡ value

  -- A function on documents that returns what it is given, or fails.
  abbrev KeepsDoc : (Bytes → Option Bytes) → Type 0
  KeepsDoc f = (doc q : Bytes) → All IsByte doc → f doc ≡ some q → q ≡ doc

  result_elem-Keeps :
      (nested : Bytes → Option Bytes) → KeepsDoc nested → Keeps (result_elem masker nested)
  unfolding result_elem
  result_elem-Keeps nested keeps typ name value nv bytes h =
      ground (arith, mask_string_idle name value, keeps value nv bytes)

  descend-Keeps :
      (test : ℕ → Bytes → Bool) (inner : Bytes → Option Bytes)
      → KeepsDoc inner
      → Keeps (descend test inner)
  unfolding descend
  descend-Keeps test inner keeps typ name value nv bytes h = ground (arith, keeps value nv bytes)

  mask_result-KeepsDoc : (depth : ℕ) → KeepsDoc (mask_result depth masker)
  unfolding mask_result
  mask_result-KeepsDoc zero doc q bytes h = cc
  mask_result-KeepsDoc (suc depth) doc q bytes h =
      rewrite_doc-Keeps (result_elem masker (mask_result depth masker)) doc q bytes
        (result_elem-Keeps (mask_result depth masker) (mask_result-KeepsDoc depth)) h

  result-KeepsDoc : KeepsDoc (result masker)
  unfolding result
  result-KeepsDoc doc q bytes h = mask_result-KeepsDoc (length doc) doc q bytes h

  body-KeepsDoc : KeepsDoc (body masker)
  unfolding body cursor batch
  body-KeepsDoc doc q bytes = rewrite_doc-Keeps (descend is_cursor (cursor masker)) doc q bytes (
      descend-Keeps is_cursor (cursor masker) λ d1 q1 b1.
        rewrite_doc-Keeps (descend is_batch (batch masker)) d1 q1 b1 (
          descend-Keeps is_batch (batch masker) λ d2 q2 b2.
            rewrite_doc-Keeps (descend is_result (result masker)) d2 q2 b2
              (descend-Keeps is_result (result masker) result-KeepsDoc)))

  unchanged : (nd doc : Bytes) → nd ≡ doc → not (bytes_equal nd doc) ≡ false
  unchanged nd doc e = rw (e, bytes_equal_refl doc)

  sequence_docs_unchanged :
      (fuel : ℕ) (bs docs : Bytes) (changed : Bool)
      → All IsByte bs
      → sequence_docs fuel masker bs ≡ some (docs, changed)
      → changed ≡ false
  unfolding sequence_docs
  sequence_docs_unchanged fuel [] docs changed bytes h = cc
  sequence_docs_unchanged zero (b ∷ bs) docs changed bytes h = cc
  sequence_docs_unchanged (suc fuel) (b ∷ bs) docs changed bytes h =
      let dl : ℕ = le_uint (take 4 (b ∷ bs)) in
      let doc : Bytes = take dl (b ∷ bs) in
      elim (Option-cases (result masker doc)) [
        | inl e ↦ ground arith
        | inr (nd, e) ↦ elim (Option-cases (sequence_docs fuel masker (drop dl (b ∷ bs)))) [
          | inl e' ↦ ground arith
          | inr ((more, ch), e') ↦ ground (
            arith,
            unchanged nd doc (result-KeepsDoc doc nd (All-take IsByte dl (b ∷ bs) bytes) e),
            sequence_docs_unchanged fuel (drop dl (b ∷ bs)) more ch
                (All-drop IsByte dl (b ∷ bs) bytes) e',
          )
        ]
      ]

  sequence_unchanged :
      (sec out : Bytes) (changed : Bool)
      → All IsByte sec
      → sequence masker sec ≡ some (out, changed)
      → changed ≡ false
  unfolding sequence
  sequence_unchanged sec out changed bytes h = elim (Option-cases (cut_zero (drop 4 sec))) [
    | inl e ↦ ground arith
    | inr ((name, rest), e) ↦
        let parts =
          rw (cut_zero_splits (drop 4 sec) name rest e) at (All-drop IsByte 4 sec bytes) in
        let rest_bytes = (All-append_split IsByte name (0 ∷ rest) parts).1.1 in
        elim (Option-cases (sequence_docs (length rest) masker rest)) [
          | inl e' ↦ ground arith
          | inr ((docs, ch), e') ↦
              ground (arith, sequence_docs_unchanged (length rest) rest docs ch rest_bytes e')
        ]
  ]

  join_body_unchanged :
      (part : Bytes) (nd : Option Bytes) (later : Option (Bytes × Bool)) (out : Bytes)
      (changed : Bool)
      → ((q : Bytes) → nd ≡ some q → q ≡ part)
      → ((q : Bytes) (ch : Bool) → later ≡ some (q, ch) → ch ≡ false)
      → join_body part nd later ≡ some (out, changed)
      → changed ≡ false
  unfolding join_body
  join_body_unchanged part (some nd) (some (more, ch)) out changed kept later h =
      ground (arith, unchanged nd part (kept nd refl), later more ch refl)
  join_body_unchanged part _ _ out changed kept later h = cc

  join_sequence_unchanged :
      (here later : Option (Bytes × Bool)) (out : Bytes) (changed : Bool)
      → ((q : Bytes) (ch : Bool) → here ≡ some (q, ch) → ch ≡ false)
      → ((q : Bytes) (ch : Bool) → later ≡ some (q, ch) → ch ≡ false)
      → join_sequence here later ≡ some (out, changed)
      → changed ≡ false
  unfolding join_sequence
  join_sequence_unchanged (some (ns, a)) (some (more, b)) out changed kept later h =
      ground (arith, kept ns a refl, later more b refl)
  join_sequence_unchanged _ _ out changed kept later h = cc

  sections_unchanged :
      (fuel : ℕ) (bs out : Bytes) (changed : Bool)
      → All IsByte bs
      → sections fuel masker bs ≡ some (out, changed)
      → changed ≡ false
  unfolding sections
  sections_unchanged fuel [] out changed bytes h = cc
  sections_unchanged zero (k ∷ bs) out changed bytes h = cc
  sections_unchanged (suc fuel) (k ∷ bs) out changed (_, bytes) h =
      let size : ℕ = le_uint (take 4 bs) in
      let part : Bytes = take size bs in
      let part_bytes = All-take IsByte size bs bytes in
      let later = λ (q : Bytes) (ch : Bool).
        sections_unchanged fuel (drop size bs) q ch (All-drop IsByte size bs bytes) in
      ground (
        arith,
        join_body_unchanged part (body masker part) (sections fuel masker (drop size bs)) out
            changed (λ q. body-KeepsDoc part q part_bytes) later,
        join_sequence_unchanged (sequence masker part) (sections fuel masker (drop size bs)) out
            changed (λ q ch. sequence_unchanged part q ch part_bytes) later,
      )

  choose_unchanged :
      (msg : Bytes) (r : Option (Bytes × Bool))
      → ((q : Bytes) (ch : Bool) → r ≡ some (q, ch) → ch ≡ false)
      → choose msg r ≡ msg
  unfolding choose
  choose_unchanged msg none h = refl
  choose_unchanged msg (some (q, false)) h = refl
  choose_unchanged msg (some (q, true)) h = cc (h q true refl)

  -- A masker that changes nothing leaves every message as it is, byte for byte: whatever its opcode,
  -- its checksum and its sections, well formed or not.
  pub transform_message_idle : (msg : Bytes) → All IsByte msg → transform_message masker msg ≡ msg
  unfolding transform_message
  transform_message_idle msg bytes = if_both Same (ltb (length msg) 20) msg _ refl (
      if_both Same (not (le_uint (take 4 (drop 12 msg)) == op_msg)) msg _ refl (
        choose_unchanged msg _ λ q ch h.
          let (bs, e, e') =
            >>=-eq-some (section_bytes msg) (λ bs. sections (length bs) masker bs) h in
          sections_unchanged (length bs) bs q ch (section_bytes-IsByte msg bytes bs e) e'))
    where
      Same : Bytes → Type 0
      Same m = m ≡ msg
