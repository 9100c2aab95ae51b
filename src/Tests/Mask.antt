-- ===== src/Tests/Mask.antt =====
-- The theorems on the maskers at concrete inputs.
use skybridge.Prelude.{◌≡◌, ◌≢◌, refl, some, [], ◌∷◌, ◌++◌, bytes_equal}
use skybridge.Prelude.Text.{codes, to_lower, trim_space}
use skybridge.Mask.Overlay.{Overlay, Rules, lookup, new_overlay}
use skybridge.Mask.Secrecy.{IsCovered, key_of, new_overlay-IsCovered}
use skybridge.Tests.{ascii, email_column}

abbrev emails : Overlay
emails = record { rules = (codes "email", codes "***") ∷ [] }

email_rule : lookup (to_lower ascii (codes "Email")) emails.rules ≡ some (codes "***")
unfolding lookup to_lower bytes_equal
email_rule = refl

email-IsCovered : IsCovered ascii emails email_column
email-IsCovered = record { is_text = refl; token = codes "***"; rule = email_rule }

-- The entry as it is written in the configuration, behind another one.
abbrev phones : Rules
phones = (codes "phone", codes "0") ∷ []

same_key : to_lower ascii (codes "Email") ≡ key_of ascii (codes " EMAIL ")
unfolding to_lower trim_space
same_key = refl

key_not_empty : key_of ascii (codes " EMAIL ") ≢ []
unfolding to_lower trim_space
key_not_empty h = cc

new_overlay-IsCovered_example :
    IsCovered ascii
      (new_overlay ascii (phones ++ ((codes " EMAIL ", codes "***") ∷ [])))
      email_column
new_overlay-IsCovered_example =
    new_overlay-IsCovered ascii phones (codes " EMAIL ") (codes "***") [] email_column same_key
      key_not_empty refl
