-- ===== src/Prelude/Endian.antt =====
-- Unsigned integers of a number of bytes: encoding/binary's LittleEndian and BigEndian.
use Prim.Native.Nat.{ℕ, zero, suc, ◌+◌, ◌*◌, ◌/◌, ◌%◌, ◌^◌, ◌<◌}
use mathlib.Core.Path.{◌≡◌, refl, sym, ap, ap₂, ◌∙◌}
use mathlib.Core.List.{[], ◌∷◌, reverse, reverse-cons, reverse-reverse}
use native.Mathlib.Omega.{arith}
use native.Mathlib.Nat.{pow-suc}
use skybridge.Prelude.Lists.{Bytes, IsByte, length, All, All-append, length-append}

unfoldable pub le_uint : Bytes → ℕ
le_uint [] = 0
le_uint (b ∷ bs) = b + 256 * le_uint bs

-- The low `w` bytes of a number, the lowest first.
unfoldable pub put_le : ℕ → ℕ → Bytes
put_le zero v = []
put_le (suc w) v = (v % 256) ∷ put_le w (v / 256)

unfoldable pub be_uint : Bytes → ℕ
unfolding le_uint
be_uint bs = le_uint (reverse bs)

unfoldable pub put_be : ℕ → ℕ → Bytes
unfolding put_le
put_be w v = reverse (put_le w v)

fits_tail : (w v : ℕ) → v < 256 ^ suc w → v / 256 < 256 ^ w
fits_tail w v h = omega (arith, pow-suc 256 w)

pub le_uint-put_le : (w v : ℕ) → v < 256 ^ w → le_uint (put_le w v) ≡ v
unfolding le_uint put_le
le_uint-put_le zero v h = omega arith
le_uint-put_le (suc w) v h = omega (arith, le_uint-put_le w (v / 256) (fits_tail w v h))

pub length-put_le : (w v : ℕ) → length (put_le w v) ≡ w
unfolding put_le
length-put_le zero v = refl
length-put_le (suc w) v = ap suc (length-put_le w (v / 256))

pub put_le-IsByte : (w v : ℕ) → All IsByte (put_le w v)
unfolding put_le
put_le-IsByte zero v = tt
put_le-IsByte (suc w) v = (omega arith, put_le-IsByte w (v / 256))

pub put_le-le_uint : (bs : Bytes) → All IsByte bs → put_le (length bs) (le_uint bs) ≡ bs
unfolding put_le le_uint
put_le-le_uint [] h = refl
put_le-le_uint (b ∷ bs) (hb, h) =
    ap₂ ◌∷◌ (omega arith) (ap (put_le (length bs)) (omega arith) ∙ put_le-le_uint bs h)

pub le_uint-lt : (bs : Bytes) → All IsByte bs → le_uint bs < 256 ^ length bs
unfolding le_uint
le_uint-lt [] h = omega arith
le_uint-lt (b ∷ bs) (hb, h) = omega (arith, pow-suc 256 (length bs), le_uint-lt bs h)

length-reverse : (bs : Bytes) → length (reverse bs) ≡ length bs
length-reverse [] = refl
length-reverse (b ∷ bs) =
    rw reverse-cons (omega (arith, length-append (reverse bs) (b ∷ []), length-reverse bs))

pub be_uint-put_be : (w v : ℕ) → v < 256 ^ w → be_uint (put_be w v) ≡ v
unfolding be_uint put_be
be_uint-put_be w v h = ap le_uint (reverse-reverse (put_le w v)) ∙ le_uint-put_le w v h

pub length-put_be : (w v : ℕ) → length (put_be w v) ≡ w
unfolding put_be
length-put_be w v = length-reverse (put_le w v) ∙ length-put_le w v

All-reverse {κ} : (P : ℕ → Type κ) (bs : Bytes) → All P bs → All P (reverse bs)
All-reverse P [] h = h
All-reverse P (b ∷ bs) (hb, h) =
    rw reverse-cons (All-append P (reverse bs) (b ∷ []) (All-reverse P bs h) (hb, tt))

pub put_be-IsByte : (w v : ℕ) → All IsByte (put_be w v)
unfolding put_be
put_be-IsByte w v = All-reverse IsByte (put_le w v) (put_le-IsByte w v)

pub put_be-be_uint : (bs : Bytes) → All IsByte bs → put_be (length bs) (be_uint bs) ≡ bs
unfolding put_be be_uint
put_be-be_uint bs h =
    ap (λ n. reverse (put_le n (le_uint (reverse bs)))) (sym (length-reverse bs))
    ∙ ap reverse (put_le-le_uint (reverse bs) (All-reverse IsByte bs h))
    ∙ reverse-reverse bs

pub be_uint-lt : (bs : Bytes) → All IsByte bs → be_uint bs < 256 ^ length bs
unfolding be_uint
be_uint-lt bs h = rw (length-reverse bs) at (le_uint-lt (reverse bs) (All-reverse IsByte bs h))
