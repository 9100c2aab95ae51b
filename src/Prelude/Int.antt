-- ===== src/Prelude/Int.antt =====
-- Go's signed numbers, where a sign matters, over the native naturals.
use Prim.Native.Nat.{ℕ}
use skybridge.Prelude.Tests.{ltb, if◌then◌else◌}

pub data ℤ : Type 0 where
  pos : ℕ → ℤ
  negsuc : ℕ → ℤ

-- `clampInt`, between bounds that are not negative.
unfoldable pub clamp_int : ℤ → ℕ → ℕ → ℕ
clamp_int (negsuc n) lo hi = lo
clamp_int (pos v) lo hi = if ltb v lo then lo else if ltb hi v then hi else v
