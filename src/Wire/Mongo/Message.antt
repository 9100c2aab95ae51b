-- ===== src/Wire/Mongo/Message.antt =====
-- internal/wire/mongo/mongo.go: OP_MSG replies.
pub mod Transparent
pub mod Reframe
pub mod Parts
use skybridge.Prelude.{
  ℕ, zero, suc, ◌+◌, ◌-◌, ◌%◌, Bool, true, false, not, ◌&&◌, ◌||◌, Option, none, some, List, [],
  ◌∷◌, ◌++◌, ltb, leb, ◌==◌, if◌then◌else◌, has_bit, Bytes, length, take, drop, get_or, cut_zero,
  bytes_equal, Result, ok, err,
}
use skybridge.Prelude.Endian.{put_le, le_uint}
use skybridge.Prelude.Reader.{ReadError, read_full}
use skybridge.Mask.{Masker}
use skybridge.Wire.Mongo.Bson.{◌>>=◌, body, result}

abbrev pub op_msg : ℕ
op_msg = 2013

abbrev pub header_len : ℕ
header_len = 16

abbrev pub max_message_bytes : ℕ
max_message_bytes = 67108864

pub data MongoError : Type 0 where
  read_failed : ReadError → MongoError
  implausible_length : MongoError

unfoldable pub read_exact : ℕ → Bytes → Result MongoError (Bytes × Bytes)
read_exact n bs = elim (read_full n bs) [ ok r ↦ ok r | err e ↦ err (read_failed e) ]

unfoldable pub read_rest : Bytes → Bytes → Result MongoError (Bytes × Bytes)
unfolding read_exact
read_rest hdr bs =
    let total : ℕ = le_uint hdr in
    if ltb total header_len || ltb max_message_bytes total
    then err implausible_length
    else elim (read_exact (total - 4) bs) [
      | ok (more, rest) ↦ ok (hdr ++ more, rest)
      | err e ↦ err e
    ]

-- One message, its length field included, and what follows it.
unfoldable pub read_message : Bytes → Result MongoError (Bytes × Bytes)
unfolding read_rest read_exact
read_message bs = elim (read_exact 4 bs) [ ok (hdr, rest) ↦ read_rest hdr rest | err e ↦ err e ]

-- The documents of a sequence section and whether one changed.
unfoldable pub sequence_docs : ℕ → Masker → Bytes → Option (Bytes × Bool)
unfolding result
sequence_docs fuel masker [] = some ([], false)
sequence_docs zero masker (b ∷ bs) = none
sequence_docs (suc fuel) masker (b ∷ bs) =
    let dl : ℕ = le_uint (take 4 (b ∷ bs)) in
    let doc : Bytes = take dl (b ∷ bs) in
    let later = sequence_docs fuel masker (drop dl (b ∷ bs)) in
    if ltb (length (b ∷ bs)) 4
    then none
    else if ltb dl 5 || ltb (length (b ∷ bs)) dl
    then none
    else (do
      nd ← result masker doc
      (docs, changed) ← later
      some (nd ++ docs, not (bytes_equal nd doc) || changed))

-- A section is [int32 size][cstring identifier][doc...].
unfoldable pub sequence : Masker → Bytes → Option (Bytes × Bool)
unfolding sequence_docs
sequence masker sec = if ltb (length sec) 5 then none else (do
  (name, rest) ← cut_zero (drop 4 sec)
  (docs, changed) ← sequence_docs (length rest) masker rest
  some (put_le 4 (4 + (length name + 1) + length docs) ++ (name ++ (0 ∷ docs)), changed))

-- A rewritten body document, or document sequence, in front of the later sections.
unfoldable pub join_body : Bytes → Option Bytes → Option (Bytes × Bool) → Option (Bytes × Bool)
join_body part (some nd) (some (more, changed)) =
    some (0 ∷ (nd ++ more), not (bytes_equal nd part) || changed)
join_body part _ _ = none

unfoldable pub join_sequence : Option (Bytes × Bool) → Option (Bytes × Bool) → Option (Bytes × Bool)
join_sequence (some (ns, here)) (some (more, changed)) = some (1 ∷ (ns ++ more), here || changed)
join_sequence _ _ = none

-- The sections up to the end of the message. `none` is each of the early returns of the original.
unfoldable pub sections : ℕ → Masker → Bytes → Option (Bytes × Bool)
unfolding body sequence join_body join_sequence
sections fuel masker [] = some ([], false)
sections zero masker (kind ∷ bs) = none
sections (suc fuel) masker (kind ∷ bs) =
    let size : ℕ = le_uint (take 4 bs) in
    let part : Bytes = take size bs in
    let later = sections fuel masker (drop size bs) in
    if kind == 0
    then (if ltb (length bs) 4 || ltb size 5 || ltb (length bs) size
        then none
        else join_body part (body masker part) later)
    else if kind == 1
    then (if ltb (length bs) 4 || ltb size 4 || ltb (length bs) size
        then none
        else join_sequence (sequence masker part) later)
    else none

-- The message around changed sections: its length, the rest of the header, the flags with the
-- checksum bit cleared.
unfoldable pub reframe : Bytes → Bytes → Bytes
reframe msg parts =
    let flags : ℕ = le_uint (take 4 (drop 16 msg)) in
    put_le 4 (header_len + 4 + length parts)
    ++ (take 12 (drop 4 msg) ++ (put_le 4 (flags - flags % 2) ++ parts))

-- A result that did not change, or that could not be parsed, is the message as it came.
unfoldable pub choose : Bytes → Option (Bytes × Bool) → Bytes
unfolding reframe
choose msg none = msg
choose msg (some (parts, false)) = msg
choose msg (some (parts, true)) = reframe msg parts

-- The sections of a message: from its 20th byte to its end, less the checksum if there is one.
unfoldable pub section_bytes : Bytes → Option Bytes
section_bytes msg =
    let checked = has_bit 0 (le_uint (take 4 (drop 16 msg))) in
    if checked
    then (if ltb (length msg) 24 then none else some (take (length msg - 24) (drop 20 msg)))
    else some (drop 20 msg)

unfoldable pub transform_message : Masker → Bytes → Bytes
unfolding section_bytes sections choose
transform_message masker msg =
    if ltb (length msg) (header_len + 4)
    then msg
    else if not (le_uint (take 4 (drop 12 msg)) == op_msg)
    then msg
    else choose msg (do bs ← section_bytes msg; sections (length bs) masker bs)
