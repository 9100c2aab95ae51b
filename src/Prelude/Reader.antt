-- ===== src/Prelude/Reader.antt =====
-- `io.ReadFull` on the bytes that a connection will still deliver before it ends.
use Prim.Native.Nat.{ℕ, ◌<◌}
use mathlib.Core.Path.{◌≡◌, refl}
use mathlib.Core.Logic.{◌≢◌}
use mathlib.Core.List.{[], ◌∷◌, ◌++◌}
use native.Mathlib.Omega.{arith}
use skybridge.Prelude.Tests.{leb, if◌then◌else◌, le→leb}
use skybridge.Prelude.Lists.{
  Bytes, length, take, drop, take-append, drop-append, take-append-drop, length-append, length-take,
}
use skybridge.Prelude.Errors.{Result, ok, err}

-- `io.EOF` at a clean end, `io.ErrUnexpectedEOF` inside the piece that was asked for.
pub data ReadError : Type 0 where
  eof unexpected_eof : ReadError

abbrev at_end : Bytes → ReadError
at_end [] = eof
at_end (b ∷ bs) = unexpected_eof

-- The next `n` bytes, and what follows them.
unfoldable pub read_full : ℕ → Bytes → Result ReadError (Bytes × Bytes)
read_full n bs = if leb n (length bs) then ok (take n bs, drop n bs) else err (at_end bs)

pub read_full-append :
    (n : ℕ) (xs ys : Bytes) → length xs ≡ n → read_full n (xs ++ ys) ≡ ok (xs, ys)
unfolding read_full
read_full-append n xs ys h = rw (← h) (
    rw (le→leb (length xs) (length (xs ++ ys)) (omega (arith, length-append xs ys)))
      (rw (take-append xs ys, drop-append xs ys)))

-- A successful read takes `n` bytes off the front.
pub read_full_splits :
    (n : ℕ) (bs xs ys : Bytes) → read_full n bs ≡ ok (xs, ys) → (bs ≡ xs ++ ys) × (length xs ≡ n)
unfolding read_full
read_full_splits n bs xs ys h = ground (arith, take-append-drop n bs, length-take n bs)

pub read_full_short :
    (n : ℕ) (bs : Bytes) → length bs < n → bs ≢ [] → read_full n bs ≡ err unexpected_eof
unfolding read_full
read_full_short n [] h ne = absurd (ne refl)
read_full_short n (b ∷ bs) h ne = ground arith

pub read_full_empty : (n : ℕ) → 0 < n → read_full n [] ≡ err eof
unfolding read_full
read_full_empty n h = ground arith
