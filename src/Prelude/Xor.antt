-- ===== src/Prelude/Xor.antt =====
-- The exclusive or of two texts.
use Prim.Native.Nat.{bit_xor}
use mathlib.Core.List.{[], ◌∷◌}
use skybridge.Prelude.Lists.{Bytes}

-- `t[k] ^= u[k]`, on hashes of one length.
unfoldable pub xor_bytes : Bytes → Bytes → Bytes
xor_bytes [] u = []
xor_bytes (b ∷ t) [] = b ∷ t
xor_bytes (b ∷ t) (d ∷ u) = bit_xor b d ∷ xor_bytes t u
