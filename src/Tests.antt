-- ===== src/Tests.antt =====
-- The theorems at concrete inputs, by component, and the data that they share.
mod Tunnel
mod Mask
mod Postgres
mod Mongo
mod Mysql
mod Edge
mod Gateway
mod Agent
use skybridge.Prelude.{ℕ, Bool, true, ◌&&◌, ◌≡◌, ltb, ltb→lt, ◌∷◌, [], Bytes, All, IsByte, arith}
use skybridge.Prelude.Text.{codes, Unicode}
use skybridge.Mask.{Column}

-- Tables that change nothing: the texts of the tests are ASCII.
abbrev pub ascii : Unicode
ascii = record { lower = λ s. s; trim = λ s. s }

abbrev pub name_column : Column
name_column = record { name = codes "name"; is_text = true }

abbrev pub email_column : Column
email_column = record { name = codes "Email"; is_text = true }

unfoldable pub are_bytes : Bytes → Bool
are_bytes [] = true
are_bytes (b ∷ bs) = ltb b 256 && are_bytes bs

pub are_bytes-IsByte : (bs : Bytes) → are_bytes bs ≡ true → All IsByte bs
unfolding are_bytes
are_bytes-IsByte [] h = tt
are_bytes-IsByte (b ∷ bs) h = (ground (arith, h), are_bytes-IsByte bs (ground (arith, h)))
