-- ===== src/Mask/Overlay.antt =====
-- internal/mask/overlay.go: the rules from column names to replacement tokens.
use skybridge.Prelude.{
  Bool, true, false, not, Option, none, some, List, [], ◌∷◌, if◌then◌else◌, Bytes, bytes_equal,
}
use skybridge.Prelude.Text.{Unicode, to_lower, trim_space}
use skybridge.Mask.{Masker, mask_cells}

-- The active rule set, a map from lowercased column names.
abbrev pub Rules : Type 0
Rules = List (Bytes × Bytes)

unfoldable pub lookup : Bytes → Rules → Option Bytes
lookup k [] = none
lookup k ((j, v) ∷ m) = if bytes_equal j k then some v else lookup k m

-- `norm[key] = v`
unfoldable pub insert : Bytes → Bytes → Rules → Rules
insert k v [] = (k, v) ∷ []
insert k v ((j, w) ∷ m) = if bytes_equal j k then (k, v) ∷ m else (j, w) ∷ insert k v m

abbrev pub is_empty {ℓ} : {A : Type ℓ} → List A → Bool
is_empty [] = true
is_empty (x ∷ xs) = false

-- `normalizeRules`, over the configured entries in the order in which Go's map iteration gives them.
unfoldable pub normalize_onto : Unicode → Rules → Rules → Rules
unfolding insert to_lower trim_space
normalize_onto u norm [] = norm
normalize_onto u norm ((k, v) ∷ rules) =
    let key = to_lower u (trim_space u k) in
    normalize_onto u (if is_empty key then norm else insert key v norm) rules

unfoldable pub normalize_rules : Unicode → Rules → Rules
unfolding normalize_onto
normalize_rules u rules = normalize_onto u [] rules

-- `NewOverlay` and `Replace` store the normalized rules; the pointer is swapped as a whole.
pub record Overlay : Type 0 where
  pub rules : Rules

unfoldable pub new_overlay : Unicode → Rules → Overlay
unfolding normalize_rules
new_overlay u rules = record { rules = normalize_rules u rules }

unfoldable pub replace : Unicode → Rules → Overlay → Overlay
unfolding normalize_rules
replace u rules o = record { rules = normalize_rules u rules }

unfoldable pub enabled : Overlay → Bool
enabled o = not (is_empty o.rules)

-- The token for a column, or the value itself where no rule names the column.
unfoldable pub redact : Unicode → Rules → Bytes → Bytes → Bytes
unfolding lookup to_lower
redact u rules name v = elim (lookup (to_lower u name) rules) [ none ↦ v | some token ↦ token ]

unfoldable pub overlay : Unicode → Overlay → Masker
unfolding enabled redact mask_cells
overlay u o cols row =
    if enabled o then (mask_cells (redact u o.rules) cols row, none) else (row, none)
