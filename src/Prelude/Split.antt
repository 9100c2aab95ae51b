-- ===== src/Prelude/Split.antt =====
-- `strings.Split` by a single byte, `strings.TrimRight`, and zero-terminated strings.
use Prim.Native.Nat.{ℕ}
use mathlib.Core.Path.{◌≡◌, refl}
use mathlib.Core.Bool.{Bool, true, false, ◌&&◌}
use mathlib.Core.List.{List, [], ◌∷◌, ◌++◌}
use native.Mathlib.Omega.{arith}
use skybridge.Prelude.Tests.{◌==◌, if◌then◌else◌}
use mathlib.Core.Option.{some}
use skybridge.Prelude.Lists.{Bytes, All, cut_zero}

abbrev put_front : ℕ → List Bytes → List Bytes
put_front b [] = (b ∷ []) ∷ []
put_front b (w ∷ ws) = (b ∷ w) ∷ ws

-- `strings.Split(s, sep)` for a separator of one byte: the pieces in order, empty ones included.
unfoldable pub split_on : ℕ → Bytes → List Bytes
split_on c [] = [] ∷ []
split_on c (b ∷ bs) = let rest = split_on c bs in if b == c then [] ∷ rest else put_front b rest

-- The byte does not stand in the text.
abbrev pub IsFree : ℕ → Bytes → Type 0
IsFree c s = All (λ b. (b == c) ≡ false) s

pub split_on-append :
    (c : ℕ) (x ys : Bytes) → IsFree c x → split_on c (x ++ (c ∷ ys)) ≡ x ∷ split_on c ys
unfolding split_on
split_on-append c [] ys h = ground arith
split_on-append c (b ∷ x) ys (hb, h) = ground (arith, hb, split_on-append c x ys h)

pub split_on_free : (c : ℕ) (x : Bytes) → IsFree c x → split_on c x ≡ x ∷ []
unfolding split_on
split_on_free c [] h = refl
split_on_free c (b ∷ x) (hb, h) = ground (arith, hb, split_on_free c x h)

pub cut_zero-append : (x ys : Bytes) → IsFree 0 x → cut_zero (x ++ (0 ∷ ys)) ≡ some (x, ys)
unfolding cut_zero
cut_zero-append [] ys h = refl
cut_zero-append (b ∷ x) ys (hb, h) = ground (arith, hb, cut_zero-append x ys h)

abbrev is_nil : Bytes → Bool
is_nil [] = true
is_nil (b ∷ bs) = false

-- `strings.TrimRight(s, "\x00")`
unfoldable pub trim_zeros : Bytes → Bytes
trim_zeros [] = []
trim_zeros (b ∷ bs) = let rest = trim_zeros bs in if b == 0 && is_nil rest then [] else b ∷ rest

-- A text with no zero byte, and its terminator.
pub trim_zeros-append : (x : Bytes) → IsFree 0 x → trim_zeros (x ++ (0 ∷ [])) ≡ x
unfolding trim_zeros
trim_zeros-append [] h = refl
trim_zeros-append (b ∷ x) (hb, h) = ground (arith, hb, trim_zeros-append x h)
