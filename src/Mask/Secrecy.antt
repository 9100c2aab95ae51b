-- ===== src/Mask/Secrecy.antt =====
-- internal/mask/overlay.go: what the overlay hides.
use skybridge.Prelude.{
  ◌≡◌, ◌≢◌, refl, ap, arith, true, false, Option, none, some, List, [], ◌∷◌, Bytes, ◌++◌, if_both,
  Option-cases, Bool-cases, inl, inr, bytes_equal, bytes_equal_iff, bytes_equal_refl, if◌then◌else◌,
}
use skybridge.Prelude.Text.{Unicode, to_lower, trim_space}
use skybridge.Mask.{Column, Row, mask_cells}
use skybridge.Mask.Overlay.{
  is_empty, Overlay, Rules, lookup, insert, redact, overlay, enabled, normalize_rules,
  normalize_onto, new_overlay,
}

-- The column has text values and a rule names it.
pub record IsCovered (u : Unicode) (o : Overlay) (c : Column) : Type 0 where
  pub is_text : c.is_text ≡ true
  pub token : Bytes
  pub rule : lookup (to_lower u c.name) o.rules ≡ some token

-- Two rows that differ, at most, in the values of covered columns.
pub data AgreeUpTo (u : Unicode) (o : Overlay) : List Column → Row → Row → Type 0 where
  end : {cols : List Column} → AgreeUpTo u o cols [] []
  extra : (v : Option Bytes) {a b : Row} → AgreeUpTo u o [] a b → AgreeUpTo u o [] (v ∷ a) (v ∷ b)
  same :
      (v : Option Bytes) {c : Column} {cols : List Column} {a b : Row}
      → AgreeUpTo u o cols a b
      → AgreeUpTo u o (c ∷ cols) (v ∷ a) (v ∷ b)
  hidden :
      (v w : Bytes) {c : Column} {cols : List Column} {a b : Row}
      → IsCovered u o c
      → AgreeUpTo u o cols a b
      → AgreeUpTo u o (c ∷ cols) (some v ∷ a) (some w ∷ b)

lookup-enabled :
    (k : Bytes) (o : Overlay) {t : Bytes} → lookup k o.rules ≡ some t → enabled o ≡ true
unfolding lookup enabled
lookup-enabled k o h = ground arith

module _ (u : Unicode) (o : Overlay) where
  redact-IsCovered :
      (c : Column) (v : Bytes) (h : IsCovered u o c) → redact u o.rules c.name v ≡ h.token
  unfolding redact
  redact-IsCovered c v h = rw (h.rule, redact)

  mask_cells-AgreeUpTo :
      {cols : List Column} {a b : Row}
      → AgreeUpTo u o cols a b
      → mask_cells (redact u o.rules) cols a ≡ mask_cells (redact u o.rules) cols b
  unfolding mask_cells
  mask_cells-AgreeUpTo end = refl
  mask_cells-AgreeUpTo (extra v h) = ap (◌∷◌ v) (mask_cells-AgreeUpTo h)
  mask_cells-AgreeUpTo (same none h) = ap (◌∷◌ none) (mask_cells-AgreeUpTo h)
  mask_cells-AgreeUpTo (same (some v) h) = rw (mask_cells-AgreeUpTo h)
  mask_cells-AgreeUpTo (hidden v w {c} k h) =
      rw (k.is_text, redact-IsCovered c v k, redact-IsCovered c w k)
        (ap (◌∷◌ (some k.token)) (mask_cells-AgreeUpTo h))

  AgreeUpTo-disabled :
      {cols : List Column} {a b : Row} → enabled o ≡ false → AgreeUpTo u o cols a b → a ≡ b
  AgreeUpTo-disabled off end = refl
  AgreeUpTo-disabled off (extra v h) = ap (◌∷◌ v) (AgreeUpTo-disabled off h)
  AgreeUpTo-disabled off (same v h) = ap (◌∷◌ v) (AgreeUpTo-disabled off h)
  AgreeUpTo-disabled off (hidden v w {c} k h) = cc (lookup-enabled (to_lower u c.name) o k.rule)

  -- The values of the columns that the rules cover do not show in the masked row: two rows that
  -- differ only in such values are masked to the same row, and neither fails.
  pub overlay-AgreeUpTo :
      (cols : List Column) {a b : Row}
      → AgreeUpTo u o cols a b
      → overlay u o cols a ≡ overlay u o cols b
  unfolding overlay
  overlay-AgreeUpTo cols h = elim (Bool-cases (enabled o)) [
    | inl on ↦ rw (on, mask_cells-AgreeUpTo h)
    | inr off ↦ rw (AgreeUpTo-disabled off h)
  ]

lookup-insert :
    (j v k : Bytes) (m : Rules)
    → lookup k (insert j v m) ≡ (if bytes_equal j k then some v else lookup k m)
unfolding lookup insert
lookup-insert j v k [] = refl
lookup-insert j v k ((i, w) ∷ m) =
    ground
      (arith, bytes_equal_iff j k, bytes_equal_iff i k, bytes_equal_iff i j, lookup-insert j v k m)

abbrev Covers : Bytes → Rules → Type 0
Covers k rules = lookup k rules ≢ none

insert-Covers : (j v k : Bytes) (m : Rules) → Covers k m → Covers k (insert j v m)
insert-Covers j v k m h e = ground (arith, lookup-insert j v k m)

stored-Covers :
    (k v : Bytes) (m : Rules) → k ≢ [] → Covers k (if is_empty k then m else insert k v m)
stored-Covers [] v m ne e = absurd (ne refl)
stored-Covers (b ∷ bs) v m ne e =
    ground (arith, lookup-insert (b ∷ bs) v (b ∷ bs) m, bytes_equal_refl (b ∷ bs))

module _ (u : Unicode) where
  -- The name under which a configured column is stored.
  abbrev pub key_of : Bytes → Bytes
  key_of k = to_lower u (trim_space u k)

  normalize_onto-Covers :
      (k : Bytes) (rules norm : Rules) → Covers k norm → Covers k (normalize_onto u norm rules)
  unfolding normalize_onto
  normalize_onto-Covers k [] norm h = h
  normalize_onto-Covers k ((j, v) ∷ rules) norm h = normalize_onto-Covers k rules _ (
      if_both (λ (m : Rules). Covers k m) (is_empty (key_of j)) norm (insert (key_of j) v norm) h
        (insert-Covers (key_of j) v k norm h))

  normalize_onto-Covers_mem :
      (k : Bytes) (before : Rules) (name v : Bytes) (after norm : Rules)
      → key_of name ≡ k
      → k ≢ []
      → Covers k (normalize_onto u norm (before ++ ((name, v) ∷ after)))
  unfolding normalize_onto
  normalize_onto-Covers_mem k [] name v after norm e ne =
      normalize_onto-Covers k after _ (rw e (stored-Covers k v norm ne))
  normalize_onto-Covers_mem k ((j, w) ∷ before) name v after norm e ne =
      normalize_onto-Covers_mem k before name v after _ e ne

  -- A configured entry takes effect: whatever stands around it in the configuration, and however it
  -- is written (case, blanks around it), every text column whose lowercased name is the entry's
  -- key is covered by the overlay that is built, unless the key is empty.
  pub new_overlay-IsCovered :
      (before : Rules) (name v : Bytes) (after : Rules) (c : Column)
      → to_lower u c.name ≡ key_of name
      → key_of name ≢ []
      → c.is_text ≡ true
      → IsCovered u (new_overlay u (before ++ ((name, v) ∷ after))) c
  unfolding new_overlay normalize_rules
  new_overlay-IsCovered before name v after c e ne text =
      let rules = normalize_onto u [] (before ++ ((name, v) ∷ after)) in
      let covers = normalize_onto-Covers_mem (key_of name) before name v after [] refl ne in
      elim (Option-cases (lookup (key_of name) rules)) [
        | inl missing ↦ absurd (covers missing)
        | inr (token, found) ↦ record { is_text = text; token = token; rule = rw e found }
      ]
