-- ===== src/Wire/Mongo/Message/Reframe.antt =====
-- internal/wire/mongo: the shape of a message that was changed.
use mathlib.Core.Path.{subst}
use skybridge.Prelude.{
  take-drop, ℕ, ◌+◌, ◌-◌, ◌*◌, ◌/◌, ◌%◌, ◌^◌, ◌≤◌, ◌<◌, ◌≡◌, ◌⊎◌, refl, sym, ap, ◌∙◌, arith, Bool,
  true, false, Option, none, some, [], ◌++◌, ltb, ◌==◌, has_bit, append-nil, Bytes, IsByte, All,
  length, take, drop, inl, inr, Bool-cases, take-append_of, drop-append_of, drop-append_past,
  Option-cases, All-take, All-drop, length-append, length-take, length-drop,
}
use skybridge.Prelude.Endian.{le_uint, put_le, le_uint-put_le, length-put_le, le_uint-lt}
use skybridge.Mask.{Masker}
use skybridge.Wire.Mongo.Bson.{◌>>=◌}
use skybridge.Wire.Mongo.Message.{
  op_msg, header_len, reframe, choose, section_bytes, sections, transform_message,
}
use skybridge.Wire.Mongo.Message.Parts.{Sections, sections-Sections}

-- The flags without their lowest bit, that of the checksum.
pub without_checksum : ℕ → ℕ
without_checksum flags = 2 * (flags / 2)

-- What a rewritten message looks like: its length field is its length, the other twelve bytes of the
-- header are those of the original, the flags are the original's without the checksum bit, and behind
-- them stand the rewritten sections of the original, which end at its end or, with the checksum bit,
-- four bytes before it.
pub record IsReframed (masker : Masker) (msg out : Bytes) : Type 0 where
  pub original : Bytes
  pub checksum : Bytes
  pub splits : drop 20 msg ≡ original ++ checksum
  pub checked : length checksum ≡ 4 * (le_uint (take 4 (drop 16 msg)) % 2)
  pub framed : le_uint (take 4 out) ≡ length out
  pub header : take 12 (drop 4 out) ≡ take 12 (drop 4 msg)
  pub flags : le_uint (take 4 (drop 16 out)) ≡ without_checksum (le_uint (take 4 (drop 16 msg)))
  pub content : Sections masker original (drop 20 out)

module _ (n f : ℕ) (head parts : Bytes) (twelve : length head ≡ 12) where
  abbrev out : Bytes
  out = put_le 4 n ++ (head ++ (put_le 4 f ++ parts))

  after_size : drop 4 out ≡ head ++ (put_le 4 f ++ parts)
  after_size = drop-append_of 4 (put_le 4 n) (head ++ (put_le 4 f ++ parts)) (length-put_le 4 n)

  after_header : drop 16 out ≡ put_le 4 f ++ parts
  after_header =
      drop-append_past 16 12 (put_le 4 n) (head ++ (put_le 4 f ++ parts))
        (omega (arith, length-put_le 4 n))
      ∙ drop-append_of 12 head (put_le 4 f ++ parts) twelve

  after_flags : drop 20 out ≡ parts
  after_flags =
      drop-append_past 20 16 (put_le 4 n) (head ++ (put_le 4 f ++ parts))
        (omega (arith, length-put_le 4 n))
      ∙ drop-append_past 16 4 head (put_le 4 f ++ parts) (omega (arith, twelve))
      ∙ drop-append_of 4 (put_le 4 f) parts (length-put_le 4 f)

  out_size : length out ≡ 20 + length parts
  out_size = omega (
    arith,
    length-append (put_le 4 n) (head ++ (put_le 4 f ++ parts)),
    length-put_le 4 n,
    length-append head (put_le 4 f ++ parts),
    twelve,
    length-append (put_le 4 f) parts,
    length-put_le 4 f,
  )

halves : (flags : ℕ) → flags - flags % 2 ≡ without_checksum flags
unfolding without_checksum
halves flags = omega arith

unwrap : {x y : Bytes} → some x ≡ some y → x ≡ y
unwrap h = cc

bit_odd : (flags : ℕ) → has_bit 0 flags ≡ true → flags % 2 ≡ 1
bit_odd flags h = ground arith

bit_even : (flags : ℕ) → has_bit 0 flags ≡ false → flags % 2 ≡ 0
bit_even flags h = ground arith

four_behind :
    (l m k flags : ℕ)
    → m ≡ l - 20
    → k ≡ m - (l - 24)
    → ltb l 24 ≡ false
    → flags % 2 ≡ 1
    → k ≡ 4 * (flags % 2)
four_behind l m k flags a b h odd = ground arith

-- The sections of a message, and its checksum if it has one.
section_bytes-splits :
    (msg bs : Bytes)
    → 20 ≤ length msg
    → section_bytes msg ≡ some bs
    → (checksum : Bytes) × (drop 20 msg ≡ bs ++ checksum)
      × (length checksum ≡ 4 * (le_uint (take 4 (drop 16 msg)) % 2))
unfolding section_bytes
section_bytes-splits msg bs long h =
    let flags : ℕ = le_uint (take 4 (drop 16 msg)) in
    elim (Bool-cases (has_bit 0 flags)) [
      | inl checked ↦ elim (Bool-cases (ltb (length msg) 24)) [
        | inl short ↦
            let never : none ≡ some bs = rw short at (rw (checked, section_bytes) at h) in
            absurd (cc)
        | inr enough ↦
            let same : take (length msg - 24) (drop 20 msg) ≡ bs =
              unwrap (rw enough at (rw (checked, section_bytes) at h)) in
            (
              drop (length msg - 24) (drop 20 msg),
              take-drop (length msg - 24) (drop 20 msg)
                  ∙ ap (λ b. b ++ drop (length msg - 24) (drop 20 msg)) same,
              four_behind (length msg) (length (drop 20 msg)) _ flags (length-drop 20 msg)
                  (length-drop (length msg - 24) (drop 20 msg)) enough (bit_odd flags checked),
            )
      ]
      | inr unchecked ↦
          let same : drop 20 msg ≡ bs = unwrap (rw (unchecked, section_bytes) at h) in
          ([], same ∙ sym (append-nil bs), omega (arith, bit_even flags unchecked))
    ]

reframe-IsReframed :
    (masker : Masker) (msg bs parts checksum : Bytes)
    → All IsByte msg
    → 20 ≤ length msg
    → length (reframe msg parts) < 2 ^ 32
    → drop 20 msg ≡ bs ++ checksum
    → length checksum ≡ 4 * (le_uint (take 4 (drop 16 msg)) % 2)
    → Sections masker bs parts
    → IsReframed masker msg (reframe msg parts)
unfolding reframe
reframe-IsReframed masker msg bs parts checksum bytes h fits splits checked held =
    let n : ℕ = header_len + 4 + length parts in
    let flags : ℕ = le_uint (take 4 (drop 16 msg)) in
    let f : ℕ = flags - flags % 2 in
    let head : Bytes = take 12 (drop 4 msg) in
    let twelve : length head ≡ 12 = omega (arith, length-take 12 (drop 4 msg), length-drop 4 msg) in
    let four : length (take 4 (drop 16 msg)) ≡ 4 =
      omega (arith, length-take 4 (drop 16 msg), length-drop 16 msg) in
    let flag_bytes = All-take IsByte 4 (drop 16 msg) (All-drop IsByte 16 msg bytes) in
    let small : flags < 256 ^ 4 = rw four at (le_uint-lt (take 4 (drop 16 msg)) flag_bytes) in
    record {
      original = bs;
      checksum = checksum;
      splits = splits;
      checked = checked;
      framed =
          ap le_uint
            (take-append_of 4 (put_le 4 n) (head ++ (put_le 4 f ++ parts)) (length-put_le 4 n))
          ∙ le_uint-put_le 4 n (omega (arith, fits, out_size n f head parts twelve))
          ∙ sym (out_size n f head parts twelve);
      header =
          ap (take 12) (after_size n f head parts twelve)
          ∙ take-append_of 12 head (put_le 4 f ++ parts) twelve;
      flags =
          ap (λ b. le_uint (take 4 b)) (after_header n f head parts twelve)
          ∙ ap le_uint (take-append_of 4 (put_le 4 f) parts (length-put_le 4 f))
          ∙ le_uint-put_le 4 f (omega arith)
          ∙ halves flags;
      content = subst (Sections masker bs) (sym (after_flags n f head parts twelve)) held;
    }

choose_cases :
    (masker : Masker) (msg : Bytes)
    → All IsByte msg
    → 20 ≤ length msg
    → (r : Option (Bytes × Bool)) → (section_bytes msg >>= λ bs. sections (length bs) masker bs) ≡ r
    → length (choose msg r) < 2 ^ 32
    → (choose msg r ≡ msg) ⊎ IsReframed masker msg (choose msg r)
unfolding choose
choose_cases masker msg bytes h none e fits = inl refl
choose_cases masker msg bytes h (some (q, false)) e fits = inl refl
choose_cases masker msg bytes h (some (q, true)) e fits = elim (Option-cases (section_bytes msg)) [
  | inl never ↦ absurd (ground arith)
  | inr (bs, found) ↦
      let rest : sections (length bs) masker bs ≡ some (q, true) = rw found at e in
      let (checksum, splits, checked) = section_bytes-splits msg bs h found in
      inr (
        reframe-IsReframed masker msg bs q checksum bytes h fits splits checked
          (sections-Sections masker (length bs) bs q true rest))
]

long_enough : (n : ℕ) → ltb n 20 ≡ false → 20 ≤ n
long_enough n h = ground arith

-- For every masker and every message from the server, the client gets either the message as it came,
-- or one of the original's header with its own length, of the original's flags without the checksum,
-- and of the original's sections in their order, each rewritten within its kind and its name; if it is
-- shorter than 2^32 bytes.
pub transform_message_cases :
    (masker : Masker) (msg : Bytes)
    → All IsByte msg
    → length (transform_message masker msg) < 2 ^ 32
    → (transform_message masker msg ≡ msg) ⊎ IsReframed masker msg (transform_message masker msg)
unfolding transform_message
transform_message_cases masker msg bytes fits = elim (Bool-cases (ltb (length msg) 20)) [
  | inl short ↦ inl (rw (short, transform_message) refl)
  | inr long ↦ elim (Bool-cases (le_uint (take 4 (drop 12 msg)) == op_msg)) [
    | inr other ↦ inl (rw (long, transform_message) (rw (other, transform_message) refl))
    | inl op ↦
        let r = (section_bytes msg >>= λ bs. sections (length bs) masker bs) in
        let same : transform_message masker msg ≡ choose msg r =
          rw (long, transform_message) (rw (op, transform_message) refl) in
        subst (λ out. (out ≡ msg) ⊎ IsReframed masker msg out) (sym same)
          (choose_cases masker msg bytes (long_enough (length msg) long) r refl
            (subst (λ out. length out < 2 ^ 32) same fits))
  ]
]
