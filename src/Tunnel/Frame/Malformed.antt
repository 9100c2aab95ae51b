-- ===== src/Tunnel/Frame/Malformed.antt =====
-- `read_frame` on bytes that need not be a frame.
use skybridge.Prelude.{
  ℕ, zero, suc, ◌+◌, ap, ◌<◌, ◌≤◌, ◌≡◌, refl, [], ◌∷◌, ◌++◌, arith, Bytes, length, get_or, ok,
  bind-eq-ok, append_assoc, take, drop,
}
use skybridge.Prelude.Endian.{be_uint}
use skybridge.Prelude.Reader.{read_full_splits}
use skybridge.Tunnel.Frame.{
  Frame, header_len, read_frame, read_body, read_exact, max_payload, magic0, magic1, version,
}

read_exact_splits :
    (n : ℕ) (bs xs ys : Bytes) → read_exact n bs ≡ ok (xs, ys) → (bs ≡ xs ++ ys) × (length xs ≡ n)
unfolding read_exact
read_exact_splits n bs xs ys h = ground (arith, read_full_splits n bs xs ys)

read_body_splits :
    (h bs : Bytes) (f : Frame) (rest : Bytes)
    → read_body h bs ≡ ok (f, rest)
    → (bs ≡ f.payload ++ rest)
      × (length f.payload ≤ max_payload)
      × (get_or h 0 0 ≡ magic0)
      × (get_or h 1 0 ≡ magic1)
      × (get_or h 2 0 ≡ version)
      × (get_or h 3 0 ≡ f.typ)
      × (be_uint (take 8 (drop 5 h)) ≡ f.conn_id)
      × (be_uint (take 4 (drop 13 h)) ≡ length f.payload)
unfolding read_body
read_body_splits h bs f rest e =
    ground (arith, read_exact_splits (be_uint (take 4 (drop 13 h))) bs f.payload rest)

-- A frame that was read: the bytes split into a header of 17 bytes, the frame's payload, and what is
-- left; the payload is within the limit. The header holds the magic, the version, the frame's type at
-- byte 3, its stream id in the eight bytes from byte 5 and the length of its payload in the four bytes
-- from byte 13, both big-endian.
pub record IsFrame (bs : Bytes) (f : Frame) (rest : Bytes) : Type 0 where
  pub head : Bytes
  pub splits : bs ≡ head ++ f.payload ++ rest
  pub head_length : length head ≡ header_len
  pub bounded : length f.payload ≤ max_payload
  pub first_magic : get_or bs 0 0 ≡ magic0
  pub second_magic : get_or bs 1 0 ≡ magic1
  pub has_version : get_or bs 2 0 ≡ version
  pub has_type : get_or bs 3 0 ≡ f.typ
  pub has_id : be_uint (take 8 (drop 5 bs)) ≡ f.conn_id
  pub has_length : be_uint (take 4 (drop 13 bs)) ≡ length f.payload

get_or-append : (i : ℕ) (xs ys : Bytes) → i < length xs → get_or (xs ++ ys) i 0 ≡ get_or xs i 0
get_or-append i [] ys h = absurd (omega arith)
get_or-append zero (x ∷ xs) ys h = refl
get_or-append (suc i) (x ∷ xs) ys h = get_or-append i xs ys (omega arith)

slice-append :
    (i n : ℕ) (xs ys : Bytes) → i + n ≤ length xs → take n (drop i (xs ++ ys)) ≡ take n (drop i xs)
slice-append zero zero xs ys h = refl
slice-append zero (suc n) [] ys h = absurd (omega arith)
slice-append zero (suc n) (x ∷ xs) ys h = ap (x ∷◌) (slice-append zero n xs ys (omega arith))
slice-append (suc i) n [] ys h = absurd (omega arith)
slice-append (suc i) n (x ∷ xs) ys h = slice-append i n xs ys (omega arith)

frame_parts :
    (bs h more : Bytes) (f : Frame) (rest : Bytes)
    → read_exact header_len bs ≡ ok (h, more)
    → read_body h more ≡ ok (f, rest)
    → IsFrame bs f rest
frame_parts bs h more f rest e e' =
    let (front, len) = read_exact_splits header_len bs h more e in
    let (back, fits, m0, m1, v, t, i, l) = read_body_splits h more f rest e' in
    record {
      head = h;
      splits = rw (front, back, append_assoc);
      head_length = len;
      bounded = fits;
      first_magic = rw (front, get_or-append 0 h more (omega arith)) m0;
      second_magic = rw (front, get_or-append 1 h more (omega arith)) m1;
      has_version = rw (front, get_or-append 2 h more (omega arith)) v;
      has_type = rw (front, get_or-append 3 h more (omega arith)) t;
      has_id = rw (front, slice-append 5 8 h more (omega (arith, len))) i;
      has_length = rw (front, slice-append 13 4 h more (omega (arith, len))) l;
    }

-- A successful read returns a frame as `IsFrame` describes it, on any input.
pub read_frame-IsFrame :
    (bs : Bytes) {f : Frame} {rest : Bytes} → read_frame bs ≡ ok (f, rest) → IsFrame bs f rest
unfolding read_frame
read_frame-IsFrame bs {f} {rest} e =
    let ((h, more), read, body) =
      bind-eq-ok (read_exact header_len bs) (λ p. read_body p.0 p.1) e in
    frame_parts bs h more f rest read body
