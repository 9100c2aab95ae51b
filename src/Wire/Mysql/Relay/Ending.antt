-- ===== src/Wire/Mysql/Relay/Ending.antt =====
-- internal/wire/mysql/mysql.go: `serverToClient` ends with the connection, whatever the server sends.
use skybridge.Prelude.{
  ℕ, zero, suc, ◌≤◌, ◌<◌, ◌≡◌, ◌≢◌, refl, ap, arith, Bool, true, false, List, Bytes, length,
  if_both, Bool-cases, Result-cases, inl, inr,
}
use skybridge.Mask.{Masker}
use skybridge.Wire.Mysql.Packet.{Packet, read_packet}
use skybridge.Wire.Mysql.Results.{
  Ended, more, complete, failed, crashed, out_of_fuel, Progress, behind, result_response,
}
use skybridge.Wire.Mysql.Results.Ending.{
  is_out, EndsBy, weaken, read_packet_shorter, result_response_ends,
}
use skybridge.Wire.Mysql.Relay.{
  is_auth_result, auth_phase, after_response, on_packet, noted, later_arrivals, commands_loop,
  command_phase, server_to_client,
}

by_end :
    (n : ℕ) (later : Bytes → Progress) (r : Progress) (e : Ended)
    → EndsBy n r
    → is_out e ≡ false
    → ((bs : Bytes) → length bs ≤ n → EndsBy (length bs) (later bs))
    → EndsBy n (elim e [ complete ↦ behind r.written (later r.unread) | other ↦ r ])
unfolding is_out
by_end n later r more (h, l) enough k = (h, l)
by_end n later r complete (h, l) enough k =
    weaken (length r.unread) n (later r.unread) l (k r.unread l)
by_end n later r (failed x) (h, l) enough k = (h, l)
by_end n later r crashed (h, l) enough k = (h, l)
by_end n later r out_of_fuel (h, l) enough k = absurd (cc)

after_response_ends :
    (n : ℕ) (later : Bytes → Progress) (r : Progress)
    → EndsBy n r
    → ((bs : Bytes) → length bs ≤ n → EndsBy (length bs) (later bs))
    → EndsBy n (after_response later r)
unfolding after_response
after_response_ends n later r (h, l) k = by_end n later r r.ended (h, l) h k

auth_phase_ends :
    (fuel : ℕ) (bs : Bytes) → length bs < fuel → EndsBy (length bs) (auth_phase fuel bs)
unfolding auth_phase is_out
auth_phase_ends zero bs lt = absurd (omega arith)
auth_phase_ends (suc fuel) bs lt = elim (Result-cases (read_packet bs)) [
  | inl ((p, rest), e) ↦
      let less = read_packet_shorter bs p rest e in
      rw (e, auth_phase)
        (if_both (EndsBy (length bs)) (is_auth_result p.payload) _ _ (refl, omega arith)
          (weaken (length rest) (length bs) (auth_phase fuel rest) (omega arith)
            (auth_phase_ends fuel rest (omega arith))))
  | inr (x, e) ↦ rw (e, auth_phase) (refl, omega arith)
]

on_packet_ends :
    (later : ℕ → Bytes → Progress) (deprecate_eof : Bool) (masker : Masker) (queries : ℕ)
    (p : Packet) (rest : Bytes)
    → ((q : ℕ) (bs : Bytes) → length bs ≤ length rest → EndsBy (length bs) (later q bs))
    → EndsBy (length rest) (on_packet later deprecate_eof masker queries p rest)
unfolding on_packet
on_packet_ends later deprecate_eof masker zero p rest k = k 0 rest (omega arith)
on_packet_ends later deprecate_eof masker (suc queries) p rest k = elim (Bool-cases p.full) [
  | inl e ↦ rw (e, on_packet) (k queries rest (omega arith))
  | inr e ↦
      rw (e, on_packet)
        (after_response_ends (length rest) (later queries)
          (result_response (suc (length rest)) deprecate_eof masker p rest)
          (result_response_ends (suc (length rest)) deprecate_eof masker p rest (omega arith))
          (k queries))
]

commands_loop_ends :
    (fuel : ℕ) (deprecate_eof : Bool) (masker : Masker) (arrivals : List ℕ) (queries : ℕ)
    (bs : Bytes)
    → length bs < fuel
    → EndsBy (length bs) (commands_loop fuel deprecate_eof masker arrivals queries bs)
unfolding commands_loop is_out
commands_loop_ends zero deprecate_eof masker arrivals queries bs lt = absurd (omega arith)
commands_loop_ends (suc fuel) deprecate_eof masker arrivals queries bs lt =
    elim (Result-cases (read_packet bs)) [
      | inl ((p, rest), e) ↦
          let less = read_packet_shorter bs p rest e in
          let later = commands_loop fuel deprecate_eof masker (later_arrivals arrivals) in
          rw (e, commands_loop)
            (weaken (length rest) (length bs)
              (on_packet later deprecate_eof masker (noted arrivals queries) p rest) (omega arith)
              (on_packet_ends later deprecate_eof masker (noted arrivals queries) p rest
                (λ q behind shorter.
                  commands_loop_ends fuel deprecate_eof masker (later_arrivals arrivals) q behind
                    (omega arith))))
      | inr (x, e) ↦ rw (e, commands_loop) (refl, omega arith)
    ]

server_to_client_ends :
    (offset : ℕ) (deprecate_eof : Bool) (masker : Masker) (arrivals : List ℕ) (bs : Bytes)
    → EndsBy (length bs) (server_to_client offset deprecate_eof masker arrivals bs)
unfolding server_to_client command_phase
server_to_client_ends zero deprecate_eof masker arrivals bs =
    commands_loop_ends (suc (length bs)) deprecate_eof masker arrivals 0 bs (omega arith)
server_to_client_ends (suc offset) deprecate_eof masker arrivals bs =
    after_response_ends (length bs) (command_phase deprecate_eof masker arrivals)
      (auth_phase (suc (length bs)) bs) (auth_phase_ends (suc (length bs)) bs (omega arith))
      (λ behind le.
        commands_loop_ends (suc (length behind)) deprecate_eof masker arrivals 0 behind
          (omega arith))

out_differs : (e : Ended) → is_out e ≡ false → e ≢ out_of_fuel
unfolding is_out
out_differs e enough h = let out : is_out e ≡ true = ap is_out h in absurd (cc)

-- Whatever bytes the server sends, however many queries are noted between its packets, and whatever the
-- masker, the server-to-client direction of a MySQL session ends: its loops, each with one round more
-- than there are bytes to read, do not run out of rounds.
pub server_to_client-ends :
    (offset : ℕ) (deprecate_eof : Bool) (masker : Masker) (arrivals : List ℕ) (bs : Bytes)
    → (server_to_client offset deprecate_eof masker arrivals bs).ended ≢ out_of_fuel
server_to_client-ends offset deprecate_eof masker arrivals bs =
    out_differs (server_to_client offset deprecate_eof masker arrivals bs).ended
      (server_to_client_ends offset deprecate_eof masker arrivals bs).0
