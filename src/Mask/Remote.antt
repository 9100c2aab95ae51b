-- ===== src/Mask/Remote.antt =====
-- internal/mask/remote.go: the masker that asks an HTTP service.
use skybridge.Prelude.{
  ℕ, Bool, true, false, ◌&&◌, Option, none, some, List, [], ◌∷◌, if◌then◌else◌, ltb, Bytes, length,
}
use skybridge.Mask.{Masker, mask_cells}

-- The two calls of the service. Each is `none` where the request fails, is not answered with status
-- 200, or the answer does not decode. `Span` is a detected entity.
pub record Service : Type 1 where
  pub Span : Type 0
  pub analyze : Bytes → Option (List Span)
  pub rewrite : Bytes → List Span → Option Bytes

pub record Remote : Type 0 where
  pub analyze_url : Bytes
  pub anonymize_url : Bytes
  pub min_len : ℕ

abbrev is_set : Bytes → Bool
is_set [] = false
is_set (b ∷ bs) = true

unfoldable pub enabled : Remote → Bool
enabled r = is_set r.analyze_url && is_set r.anonymize_url

module _ (service : Service) where
  -- `none` is the source's ("", false).
  unfoldable pub anonymize_found : Bytes → Option (List service.Span) → Option Bytes
  anonymize_found text none = none
  anonymize_found text (some []) = none
  anonymize_found text (some (x ∷ xs)) = service.rewrite text (x ∷ xs)

  unfoldable pub anonymize : Bytes → Option Bytes
  unfolding anonymize_found
  anonymize text = anonymize_found text (service.analyze text)

  -- A value below the length limit, or one that the service does not answer for, is kept.
  unfoldable pub mask_value : Remote → Bytes → Bytes → Bytes
  unfolding anonymize
  mask_value r name v =
      if ltb (length v) r.min_len then v else elim (anonymize v) [ none ↦ v | some masked ↦ masked ]

  unfoldable pub remote : Remote → Masker
  unfolding enabled mask_value mask_cells
  remote r cols row = if enabled r then (mask_cells (mask_value r) cols row, none) else (row, none)
