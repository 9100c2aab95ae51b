-- ===== src/Wire/Mysql/Results/Ending.antt =====
-- internal/wire/mysql/mysql.go: the handling of a response ends, whatever the server sends.
use skybridge.Prelude.{
  ℕ, zero, suc, ◌≤◌, ◌<◌, ◌≡◌, refl, arith, Bool, true, false, Option, none, some, List, [], ◌∷◌,
  Bytes, length, take, ap, has_bit, ltb, ◌*◌, ◌++◌, ok, err, if_both, Bool-cases, inl, inr,
  length-append, bind-eq-ok, Result-cases,
}
use skybridge.Prelude.Endian.{le_uint}
use skybridge.Prelude.Reader.{read_full, read_full_splits}
use skybridge.Mask.{Column, Masker}
use skybridge.Wire.Mysql.Packet.{Packet, read_payload, read_packet}
use skybridge.Wire.Mysql.LenEnc.{Run, column_name, read_len_enc_int}
use skybridge.Wire.Mysql.Rows.{is_terminator, result_status, mask_text_row}
use skybridge.Wire.Mysql.Results.{
  Ended, more, complete, failed, crashed, out_of_fuel, Progress, behind, stop, echo, forward_rest,
  end_of_set, row_packet, rows_loop, skip_eof, columns_loop, by_count, is_plain_reply, max_alloc,
  one_result_set, result_response,
}

unfoldable pub is_out : Ended → Bool
is_out out_of_fuel = true
is_out _ = false

-- The fuel was enough, and no more bytes are left than there were.
abbrev pub EndsBy : ℕ → Progress → Type 0
EndsBy n r = (is_out r.ended ≡ false) × (length r.unread ≤ n)

pub weaken : (m n : ℕ) (r : Progress) → m ≤ n → EndsBy m r → EndsBy n r
weaken m n r le (h, l) = (h, omega arith)

read_payload_shorter :
    (hdr bs : Bytes) (p : Packet) (rest : Bytes)
    → read_payload hdr bs ≡ ok (p, rest)
    → length rest ≤ length bs
unfolding read_payload
read_payload_shorter hdr bs p rest h =
    let ((payload, behind), full, last) = bind-eq-ok (read_full (le_uint (take 3 hdr)) bs) _ h in
    let same : behind ≡ rest = cc in
    let (splits, size) = read_full_splits (le_uint (take 3 hdr)) bs payload behind full in
    omega (arith, ap length splits, length-append payload behind, ap length same)

pub read_packet_shorter :
    (bs : Bytes) (p : Packet) (rest : Bytes)
    → read_packet bs ≡ ok (p, rest)
    → length rest < length bs
unfolding read_packet
read_packet_shorter bs p rest h =
    let ((hdr, behind), full, last) = bind-eq-ok (read_full 4 bs) _ h in
    let (splits, size) = read_full_splits 4 bs hdr behind full in
    omega (
      arith,
      ap length splits,
      length-append hdr behind,
      read_payload_shorter hdr behind p rest last,
    )

end_of_set_ends :
    (p : Packet) (rest : Bytes) (status : Run ℕ) → EndsBy (length rest) (end_of_set p rest status)
unfolding end_of_set is_out
end_of_set_ends p rest (err x) = (refl, omega arith)
end_of_set_ends p rest (ok status) =
    (if_both (λ x. is_out x ≡ false) (has_bit 3 status) more complete refl refl, omega arith)

row_packet_ends :
    (deprecate_eof : Bool) (cols : List Column) (masker : Masker) (p : Packet) (rest : Bytes)
    (later : Progress)
    → EndsBy (length rest) later
    → EndsBy (length rest) (row_packet deprecate_eof cols masker p rest later)
unfolding row_packet forward_rest is_out
row_packet_ends deprecate_eof cols masker p rest later h =
    if_both (EndsBy (length rest)) p.full _ _ (refl, omega arith)
      (if_both (EndsBy (length rest)) (is_terminator p.payload deprecate_eof) _ _
        (end_of_set_ends p rest (result_status p.payload deprecate_eof))
        (elim (Result-cases (mask_text_row p.payload cols masker)) [
          | inl (masked, e) ↦ rw e h
          | inr (x, e) ↦ rw e (refl, omega arith)
        ]))

rows_loop_ends :
    (fuel : ℕ) (deprecate_eof : Bool) (cols : List Column) (masker : Masker) (bs : Bytes)
    → length bs < fuel
    → EndsBy (length bs) (rows_loop fuel deprecate_eof cols masker bs)
unfolding rows_loop is_out
rows_loop_ends zero deprecate_eof cols masker bs lt = absurd (omega arith)
rows_loop_ends (suc fuel) deprecate_eof cols masker bs lt = elim (Result-cases (read_packet bs)) [
  | inl ((p, rest), e) ↦
      let less = read_packet_shorter bs p rest e in
      let later = rows_loop fuel deprecate_eof cols masker rest in
      rw (e, rows_loop)
        (weaken (length rest) (length bs) (row_packet deprecate_eof cols masker p rest later)
          (omega arith)
          (row_packet_ends deprecate_eof cols masker p rest later
            (rows_loop_ends fuel deprecate_eof cols masker rest (omega arith))))
  | inr (x, e) ↦ rw (e, rows_loop) (refl, omega arith)
]

skip_eof_ends :
    (deprecate_eof : Bool) (cols : List Column) (masker : Masker) (bs : Bytes)
    → EndsBy (length bs) (skip_eof deprecate_eof cols masker bs)
unfolding skip_eof is_out
skip_eof_ends true cols masker bs =
    rows_loop_ends (suc (length bs)) true cols masker bs (omega arith)
skip_eof_ends false cols masker bs = elim (Result-cases (read_packet bs)) [
  | inl ((p, rest), e) ↦
      let less = read_packet_shorter bs p rest e in
      let later = rows_loop (suc (length rest)) false cols masker rest in
      rw (e, skip_eof)
        (weaken (length rest) (length bs) later (omega arith)
          (rows_loop_ends (suc (length rest)) false cols masker rest (omega arith)))
  | inr (x, e) ↦ rw (e, skip_eof) (refl, omega arith)
]

column_packet_ends :
    (n : ℕ) (p : Packet) (rest : Bytes) (named : Run Bytes) (later : Bytes → Progress)
    → length rest ≤ n
    → ((name : Bytes) → EndsBy n (later name))
    → EndsBy n (elim p.full [
      | true ↦ behind (echo p) (forward_rest rest)
      | false ↦ elim named [ err x ↦ stop [] rest crashed | ok name ↦ behind (echo p) (later name) ]
    ])
unfolding forward_rest is_out
column_packet_ends n p rest named later le h = elim (Bool-cases p.full) [
  | inl e ↦ rw e (refl, omega arith)
  | inr e ↦
      rw e
        (elim (Result-cases named) [ inl (name, f) ↦ rw f (h name) | inr (x, f) ↦ rw f (refl, le) ])
]

columns_loop_ends :
    (n : ℕ) (deprecate_eof : Bool) (cols : List Column) (masker : Masker) (bs : Bytes)
    → EndsBy (length bs) (columns_loop n deprecate_eof cols masker bs)
unfolding columns_loop is_out
columns_loop_ends zero deprecate_eof cols masker bs = skip_eof_ends deprecate_eof cols masker bs
columns_loop_ends (suc n) deprecate_eof cols masker bs = elim (Result-cases (read_packet bs)) [
  | inl ((p, rest), e) ↦
      let less = read_packet_shorter bs p rest e in
      let later : Bytes → Progress = λ name.
        columns_loop n deprecate_eof (cols ++ (record { name = name; is_text = true } ∷ [])) masker
          rest in
      rw (e, columns_loop)
        (column_packet_ends (length bs) p rest (column_name p.payload) later (omega arith) (λ name.
          weaken (length rest) (length bs) (later name) (omega arith) (
            columns_loop_ends n deprecate_eof
              (cols ++ (record { name = name; is_text = true } ∷ [])) masker rest)))
  | inr (x, e) ↦ rw (e, columns_loop) (refl, omega arith)
]

by_count_ends :
    (deprecate_eof : Bool) (masker : Masker) (p : Packet) (rest : Bytes)
    (count : Run (Option (ℕ × ℕ)))
    → EndsBy (length rest) (by_count deprecate_eof masker p rest count)
unfolding by_count is_out
by_count_ends deprecate_eof masker p rest (err x) = (refl, omega arith)
by_count_ends deprecate_eof masker p rest (ok none) = (refl, omega arith)
by_count_ends deprecate_eof masker p rest (ok (some (count, n))) =
    if_both (EndsBy (length rest)) (ltb max_alloc (24 * count)) _ _ (refl, omega arith)
      (columns_loop_ends count deprecate_eof [] masker rest)

one_result_set_ends :
    (deprecate_eof : Bool) (masker : Masker) (p : Packet) (rest : Bytes)
    → EndsBy (length rest) (one_result_set deprecate_eof masker p rest)
unfolding one_result_set is_out
one_result_set_ends deprecate_eof masker p rest =
    if_both (EndsBy (length rest)) (is_plain_reply p.payload) _ _ (refl, omega arith)
      (by_count_ends deprecate_eof masker p rest (read_len_enc_int p.payload 0))

next_set_ends :
    (n : ℕ) (first : Progress) (e : Ended) (later : Packet → Bytes → Progress)
    → EndsBy n first
    → is_out e ≡ false
    → ((p : Packet) (rest : Bytes)
        → length rest < length first.unread
        → EndsBy (length rest) (later p rest))
    → EndsBy n (elim e [
      | more ↦ elim (read_packet first.unread) [
        | err x ↦ record first { ended = failed x }
        | ok (p, rest) ↦ behind first.written (later p rest)
      ]
      | other ↦ first
    ])
unfolding is_out
next_set_ends n first more later (h, l) enough k = elim (Result-cases (read_packet first.unread)) [
  | inl ((p, rest), e) ↦
      let less = read_packet_shorter first.unread p rest e in
      rw e (weaken (length rest) n (later p rest) (omega arith) (k p rest less))
  | inr (x, e) ↦ rw e (refl, l)
]
next_set_ends n first complete later (h, l) enough k = (h, l)
next_set_ends n first (failed x) later (h, l) enough k = (h, l)
next_set_ends n first crashed later (h, l) enough k = (h, l)
next_set_ends n first out_of_fuel later (h, l) enough k = absurd (cc)

-- `handleResultResponse` ends, with one round more than there are bytes.
pub result_response_ends :
    (fuel : ℕ) (deprecate_eof : Bool) (masker : Masker) (p : Packet) (rest : Bytes)
    → length rest < fuel
    → EndsBy (length rest) (result_response fuel deprecate_eof masker p rest)
unfolding result_response is_out
result_response_ends zero deprecate_eof masker p rest lt = absurd (omega arith)
result_response_ends (suc fuel) deprecate_eof masker p rest lt =
    let first = one_result_set deprecate_eof masker p rest in
    let (enough, l) = one_result_set_ends deprecate_eof masker p rest in
    next_set_ends (length rest) first first.ended (result_response fuel deprecate_eof masker)
      (enough, l) enough
      (λ q behind less. result_response_ends fuel deprecate_eof masker q behind (omega arith))
