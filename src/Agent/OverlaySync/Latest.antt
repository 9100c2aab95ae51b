-- ===== src/Agent/OverlaySync/Latest.antt =====
-- internal/agent/overlay_source.go: the rules in force are the last ones that were fetched.
use skybridge.Prelude.{◌≡◌, refl, List, [], ◌∷◌, Result, ok, err}
use skybridge.Prelude.Text.{Unicode}
use skybridge.Mask.Overlay.{Rules, new_overlay, replace}
use skybridge.Agent.OverlaySync.{FetchError, refresh, refresh_all}

-- The rules of the last fetch that succeeded, or the configured ones.
pub latest : List (Result FetchError Rules) → Rules → Rules
latest [] rules = rules
latest (err e ∷ rs) rules = latest rs rules
latest (ok new ∷ rs) rules = latest rs new

-- After any fetches the overlay is the one of the last rules that were fetched, and the configured one
-- as long as every fetch failed.
pub refresh_all-new_overlay :
    (u : Unicode) (rs : List (Result FetchError Rules)) (rules : Rules)
    → refresh_all u rs (new_overlay u rules) ≡ new_overlay u (latest rs rules)
unfolding refresh_all refresh replace new_overlay latest
refresh_all-new_overlay u [] rules = refl
refresh_all-new_overlay u (err e ∷ rs) rules = refresh_all-new_overlay u rs rules
refresh_all-new_overlay u (ok new ∷ rs) rules = refresh_all-new_overlay u rs new
