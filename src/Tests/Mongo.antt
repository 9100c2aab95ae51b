-- ===== src/Tests/Mongo.antt =====
-- The theorems on the MongoDB proxy at concrete inputs.
use skybridge.Prelude.{
  ◌≡◌, refl, ◌++◌, ◌⊎◌, some, [], ◌∷◌, Bytes, All, IsByte, bytes_equal, cut_zero,
}
use skybridge.Prelude.Endian.{put_le, le_uint}
use skybridge.Prelude.Text.{codes, to_lower}
use skybridge.Mask.{noop}
use skybridge.Mask.Overlay.{Overlay, lookup, overlay}
use skybridge.Wire.Mongo.Bson.{ElemFn, next_element, rewrite_doc}
use skybridge.Wire.Mongo.Bson.Identity.{Keeps, rewrite_doc-Keeps}
use skybridge.Wire.Mongo.Message.{transform_message, sequence}
use skybridge.Prelude.{map, arith, ap, length, ◌<◌, ◌^◌}
use skybridge.Prelude.Reader.{eof}
use skybridge.Wire.Mongo.Message.{read_failed}
use skybridge.Wire.Mongo.Server.{mask_server}
use skybridge.Wire.Mongo.Server.Framing.{IsMessage, join, mask_server-join}
use skybridge.Wire.Mongo.Message.Transparent.{Idle, transform_message_idle}
use skybridge.Wire.Mongo.Message.Reframe.{IsReframed, transform_message_cases}
use skybridge.Tests.{ascii, are_bytes, are_bytes-IsByte}

-- { n: … } with a string of three letters
abbrev document : Bytes → Bytes
document name = (16 ∷ 0 ∷ 0 ∷ 0 ∷ 2 ∷ b'n' ∷ 0 ∷ 4 ∷ 0 ∷ 0 ∷ 0 ∷ []) ++ name ++ (0 ∷ 0 ∷ [])

abbrev result_doc : Bytes
result_doc = document (codes "ann")

result_doc_bytes : All IsByte result_doc
unfolding are_bytes
result_doc_bytes = are_bytes-IsByte result_doc refl

abbrev keep : ElemFn
keep typ name value = some value

keep-Keeps : Keeps keep
keep-Keeps typ name value nv bytes h = cc

kept : rewrite_doc keep result_doc ≡ some result_doc
unfolding rewrite_doc next_element cut_zero le_uint put_le
kept = refl

rewrite_doc-Keeps_example : result_doc ≡ result_doc
rewrite_doc-Keeps_example =
    rewrite_doc-Keeps keep result_doc result_doc result_doc_bytes keep-Keeps kept

-- A reply with one section: { cursor: { firstBatch: [ { n: … } ] } }
abbrev reply_of : Bytes → Bytes
reply_of name =
    (75 ∷ 0 ∷ 0 ∷ 0 ∷ 7 ∷ 0 ∷ 0 ∷ 0 ∷ 1 ∷ 0 ∷ 0 ∷ 0 ∷ 0xDD ∷ 7 ∷ 0 ∷ 0 ∷ 0 ∷ 0 ∷ 0 ∷ 0 ∷ 0 ∷ [])
    ++ (54 ∷ 0 ∷ 0 ∷ 0 ∷ 3 ∷ [])
    ++ codes "cursor"
    ++ (0 ∷ 41 ∷ 0 ∷ 0 ∷ 0 ∷ 4 ∷ [])
    ++ codes "firstBatch"
    ++ (0 ∷ 24 ∷ 0 ∷ 0 ∷ 0 ∷ 3 ∷ b'0' ∷ 0 ∷ [])
    ++ document name
    ++ (0 ∷ 0 ∷ 0 ∷ [])

abbrev reply : Bytes
reply = reply_of (codes "ann")

reply_bytes : All IsByte reply
unfolding are_bytes
reply_bytes = are_bytes-IsByte reply refl

noop-Idle : Idle noop
unfolding noop
noop-Idle cols row = refl

transform_message_idle_example : transform_message noop reply ≡ reply
transform_message_idle_example = transform_message_idle noop noop-Idle reply reply_bytes

abbrev names : Overlay
names = record { rules = (codes "n", codes "***") ∷ [] }

reply_masked : transform_message (overlay ascii names) reply ≡ reply_of (codes "***")
unfolding transform_message next_element cut_zero le_uint put_le overlay lookup to_lower bytes_equal
    sequence
reply_masked = refl

reply_masked_size : length (reply_of (codes "***")) < 2 ^ 32
unfolding put_le
reply_masked_size = omega arith

transform_message_cases_example :
    (transform_message (overlay ascii names) reply ≡ reply)
    ⊎ IsReframed (overlay ascii names) reply (transform_message (overlay ascii names) reply)
transform_message_cases_example =
    transform_message_cases (overlay ascii names) reply reply_bytes
      (omega (arith, ap length reply_masked, reply_masked_size))

reply_framed : IsMessage reply
unfolding le_uint
reply_framed = record { at_least = omega arith; at_most = omega arith; framed = refl }

mask_server-join_example : mask_server (overlay ascii names) (join (reply ∷ reply ∷ [])) ≡ (
  join (map (transform_message (overlay ascii names)) (reply ∷ reply ∷ [])),
  some (read_failed eof),
)
mask_server-join_example =
    mask_server-join (overlay ascii names) (reply ∷ reply ∷ []) (reply_framed, (reply_framed, tt))
