-- ===== src/Wire/Mongo/Bson.antt =====
-- internal/wire/mongo/bson.go: BSON documents rewritten element by element.
-- `none` is the package's only error, errBadBSON. An offset is the list of the bytes from there on.
pub mod Identity
use skybridge.Prelude.{
  ℕ, zero, suc, ◌+◌, ◌-◌, Bool, true, false, not, ◌&&◌, ◌||◌, Option, none, some, List, [], ◌∷◌,
  ◌++◌, ltb, leb, ◌==◌, if◌then◌else◌, Bytes, length, take, drop, get_or, cut_zero, bytes_equal,
}
use skybridge.Prelude.Endian.{put_le, le_uint}
use skybridge.Prelude.Text.{codes}
use skybridge.Mask.{Column, Row, Masker}

infixl 5 ◌>>=◌
abbrev pub ◌>>=◌ {ℓ} : {A B : Type ℓ} → Option A → (A → Option B) → Option B
none >>= f = none
some a >>= f = f a

-- The element types, by their bytes.
abbrev pub bson_string : ℕ
bson_string = 0x02

abbrev pub bson_doc : ℕ
bson_doc = 0x03

abbrev pub bson_array : ℕ
bson_array = 0x04

abbrev pub bson_binary : ℕ
bson_binary = 0x05

abbrev pub bson_regex : ℕ
bson_regex = 0x0B

abbrev pub bson_db_pointer : ℕ
bson_db_pointer = 0x0C

-- double, datetime, timestamp, int64
abbrev is_eight : ℕ → Bool
is_eight t = t == 0x01 || t == 0x09 || t == 0x11 || t == 0x12

-- null, undefined, min key, max key
abbrev is_void : ℕ → Bool
is_void t = t == 0x0A || t == 0x06 || t == 0xFF || t == 0x7F

-- string, JavaScript, symbol
abbrev is_stringy : ℕ → Bool
is_stringy t = t == 0x02 || t == 0x0D || t == 0x0E

-- document, array, code with scope
abbrev is_doc_like : ℕ → Bool
is_doc_like t = t == 0x03 || t == 0x04 || t == 0x0F

-- A length prefix is a uint32, so it is never negative as a 64-bit int.
unfoldable pub le32 : Bytes → Option ℕ
le32 b = if ltb (length b) 4 then none else some (le_uint (take 4 b))

unfoldable pub at_least_five : ℕ → Option ℕ
at_least_five l = if ltb l 5 then none else some l

-- Two zero-terminated strings.
unfoldable pub regex_len : Bytes → Option ℕ
regex_len b = do (a, rest) ← cut_zero b; (c, _) ← cut_zero rest; some (length a + 1 + length c + 1)

unfoldable pub value_len : ℕ → Bytes → Option ℕ
unfolding le32 at_least_five regex_len
value_len typ b =
    if is_eight typ
    then some 8
    else if typ == 0x10
    then some 4
    else if typ == 0x07
    then some 12
    else if typ == 0x08
    then some 1
    else if is_void typ
    then some 0
    else if typ == 0x13
    then some 16
    else if is_stringy typ
    then (do l ← le32 b; some (4 + l))
    else if typ == bson_binary
    then (do l ← le32 b; some (4 + 1 + l))
    else if is_doc_like typ
    then (do l ← le32 b; at_least_five l)
    else if typ == bson_db_pointer
    then (do l ← le32 b; some (4 + l + 12))
    else if typ == bson_regex
    then regex_len b
    else none

-- What becomes of an element's value, by its type and name.
abbrev pub ElemFn : Type 0
ElemFn = ℕ → Bytes → Bytes → Option Bytes

-- A value of this length at the front, and what follows it.
unfoldable pub split_value : ℕ → Bytes → Option (Bytes × Bytes)
split_value n b = if ltb (length b) n then none else some (take n b, drop n b)

-- The name and the value of the element at the front, behind its type, and what follows it.
unfoldable pub next_element : ℕ → Bytes → Option (Bytes × Bytes × Bytes)
unfolding value_len split_value
next_element typ b = do
  (name, b1) ← cut_zero b
  vlen ← value_len typ b1
  (value, rest) ← split_value vlen b1
  some (name, value, rest)

-- The elements of a body. A round takes two bytes at least, so the body's length is enough fuel.
unfoldable pub rewrite_body : ℕ → ElemFn → Bytes → Option Bytes
unfolding next_element
rewrite_body fuel fn [] = some []
rewrite_body zero fn (typ ∷ b) = none
rewrite_body (suc fuel) fn (typ ∷ b) = do
  (name, value, rest) ← next_element typ b
  nv ← fn typ name value
  more ← rewrite_body fuel fn rest
  some (typ ∷ (name ++ (0 ∷ (nv ++ more))))

-- The document around rewritten elements, its length as a uint32 in front.
unfoldable pub close_doc : Bytes → Bytes
close_doc out = put_le 4 (length out + 5) ++ (out ++ (0 ∷ []))

unfoldable pub rewrite_doc : ElemFn → Bytes → Option Bytes
unfolding rewrite_body close_doc
rewrite_doc fn doc =
    let body : Bytes = take (length doc - 5) (drop 4 doc) in
    if ltb (length doc) 5
    then none
    else if not (le_uint (take 4 doc) == length doc) || not (get_or doc (length doc - 1) 0 == 0)
    then none
    else (do out ← rewrite_body (length body) fn body; some (close_doc out))

-- The masker's answer for one string: the value is kept on an error, on another number of cells, on
-- NULL, and where nothing changed.
unfoldable pub masked_string : Bytes → Bytes → Row × Option Bytes → Bytes
masked_string value s (some v ∷ [], none) =
    if bytes_equal v s then value else put_le 4 (length v + 1) ++ (v ++ (0 ∷ []))
masked_string value s _ = value

unfoldable pub mask_string : Masker → Bytes → Bytes → Bytes
unfolding masked_string
mask_string masker name value =
    let l : ℕ = le_uint (take 4 value) in
    let s : Bytes = take (l - 1) (drop 4 value) in
    if ltb (length value) 5
    then value
    else if ltb l 1 || ltb (length value) (4 + l)
    then value
    else masked_string value s (masker (record { name = name; is_text = true } ∷ []) (some s ∷ []))

-- `result`'s callback: strings are masked, nested documents and arrays rewritten in turn.
unfoldable pub result_elem : Masker → (Bytes → Option Bytes) → ElemFn
unfolding mask_string
result_elem masker nested typ name value =
    if typ == bson_string
    then some (mask_string masker name value)
    else if typ == bson_doc || typ == bson_array
    then nested value
    else some value

-- The fuel bounds the nesting of documents.
unfoldable pub mask_result : ℕ → Masker → Bytes → Option Bytes
unfolding rewrite_doc result_elem
mask_result zero masker doc = none
mask_result (suc depth) masker doc = rewrite_doc (result_elem masker (mask_result depth masker)) doc

-- A nested document is shorter than the document around it, so its length is enough fuel.
unfoldable pub result : Masker → Bytes → Option Bytes
unfolding mask_result
result masker doc = mask_result (length doc) masker doc

-- The callbacks of `batch`, `cursor` and `body`: `inner` on the elements that are descended into.
unfoldable pub descend : (ℕ → Bytes → Bool) → (Bytes → Option Bytes) → ElemFn
descend test inner typ name value = if test typ name then inner value else some value

abbrev pub is_result : ℕ → Bytes → Bool
is_result typ name = typ == bson_doc

abbrev pub is_batch : ℕ → Bytes → Bool
is_batch typ name =
    typ == bson_array
    && (bytes_equal name (codes "firstBatch") || bytes_equal name (codes "nextBatch"))

abbrev pub is_cursor : ℕ → Bytes → Bool
is_cursor typ name = typ == bson_doc && bytes_equal name (codes "cursor")

unfoldable pub batch : Masker → Bytes → Option Bytes
unfolding rewrite_doc descend result
batch masker arr = rewrite_doc (descend is_result (result masker)) arr

unfoldable pub cursor : Masker → Bytes → Option Bytes
unfolding rewrite_doc descend batch
cursor masker doc = rewrite_doc (descend is_batch (batch masker)) doc

unfoldable pub body : Masker → Bytes → Option Bytes
unfolding rewrite_doc descend cursor
body masker doc = rewrite_doc (descend is_cursor (cursor masker)) doc
