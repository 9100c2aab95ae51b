-- ===== src/Agent/Masking.antt =====
-- internal/agent/agent.go: the maskers of an agent by its configuration.
use skybridge.Prelude.{
  Bool, true, false, not, ◌&&◌, ◌||◌, List, [], ◌∷◌, ◌++◌, if◌then◌else◌, Bytes,
}
use skybridge.Prelude.Text.{codes, Unicode}
use skybridge.Mask.{Masker, noop}
use skybridge.Mask.Chain.{chain}
use skybridge.Mask.Overlay.{Rules, new_overlay, overlay}
use skybridge.Mask.Remote
use skybridge.Mask.Remote.{Service, remote}
use skybridge.Agent.{Config}

is_set : Bytes → Bool
is_set [] = false
is_set (b ∷ bs) = true

has_rules : Rules → Bool
has_rules [] = false
has_rules (r ∷ rs) = true

-- `mask.NewRemote`, with the least length that it takes for none.
unfoldable pub new_remote : Bytes → Bytes → Remote.Remote
new_remote analyze_url anonymize_url = record {
  analyze_url = analyze_url;
  anonymize_url = anonymize_url;
  min_len = 4;
}

abbrev pub agent_remote : Config → Remote.Remote
agent_remote cfg = new_remote cfg.mask_analyze_url cfg.mask_anonymize_url

unfoldable pub overlay_on : Config → Bool
unfolding is_set has_rules
overlay_on cfg = has_rules cfg.pii_overlay || is_set cfg.pii_overlay_url

-- The layers, in order.
unfoldable pub maskers_of : Unicode → (service : Service) → Config → List Masker
unfolding overlay_on new_remote Remote.enabled
maskers_of u service cfg =
    (if Remote.enabled (agent_remote cfg) then remote service (agent_remote cfg) ∷ [] else [])
    ++ (if overlay_on cfg then overlay u (new_overlay u cfg.pii_overlay) ∷ [] else [])

unfoldable pub chain_or_noop : List Masker → Masker
chain_or_noop [] = noop
chain_or_noop (m ∷ ms) = chain (m ∷ ms)

unfoldable pub build_masker : Unicode → (service : Service) → Config → Masker
unfolding maskers_of chain_or_noop
build_masker u service cfg = chain_or_noop (maskers_of u service cfg)

unfoldable pub overlay_label : Config → Bytes
unfolding is_set
overlay_label cfg = if is_set cfg.pii_overlay_url then codes "overlay(dynamic)" else codes "overlay"

unfoldable pub masking_mode : Config → Bytes
unfolding is_set overlay_on overlay_label
masking_mode cfg =
    if overlay_on cfg
    then (if is_set cfg.mask_analyze_url
        then codes "remote+" ++ overlay_label cfg
        else overlay_label cfg)
    else if is_set cfg.mask_analyze_url
    then codes "remote"
    else codes "none"

-- The warnings of `logMaskingGuardrails`: one of two addresses, no masking, and only column rules.
pub data Guardrail : Type 0 where
  half_configured unmasked overlay_only : Guardrail

unfoldable pub both_set : Config → Bool
unfolding is_set
both_set cfg = is_set cfg.mask_analyze_url && is_set cfg.mask_anonymize_url

unfoldable pub masking_guardrails : Config → List Guardrail
unfolding both_set is_set overlay_on
masking_guardrails cfg =
    (if (is_set cfg.mask_analyze_url || is_set cfg.mask_anonymize_url) && not (both_set cfg)
      then half_configured ∷ []
      else [])
    ++ (if both_set cfg then [] else if overlay_on cfg then overlay_only ∷ [] else unmasked ∷ [])
