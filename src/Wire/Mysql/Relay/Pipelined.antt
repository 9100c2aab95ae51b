-- ===== src/Wire/Mysql/Relay/Pipelined.antt =====
-- internal/wire/mysql/mysql.go, `serverToClient`: commands that are sent without waiting for replies.
use skybridge.Prelude.{
  ℕ, zero, suc, ◌<◌, ◌≡◌, refl, ap, ◌∙◌, arith, Bool, true, false, List, [], ◌∷◌, Bytes, All,
  length,
}
use skybridge.Prelude.Reader.{eof}
use skybridge.Mask.{Masker}
use skybridge.Wire.Mysql.Packet.{Packet, write_packet, max_packet}
use skybridge.Wire.Mysql.Packet.RoundTrip.{read_packet-write_packet}
use skybridge.Wire.Mysql.Commands.Verbatim.{
  Fits, packet_of, write_packets, read_packet-nil, length-write_packets,
}
use skybridge.Wire.Mysql.Results.{
  Progress, complete, failed, behind, stop, is_plain_reply, one_result_set, result_response,
}
use skybridge.Wire.Mysql.Relay.{
  after_response, on_packet, noted, later_arrivals, commands_loop, command_phase, server_to_client,
}

-- Without a noted query every packet is forwarded.
commands_loop-write_packets :
    (fuel : ℕ) (deprecate_eof : Bool) (masker : Masker) (ps : List (ℕ × Bytes))
    → length ps < fuel
    → All Fits ps
    → commands_loop fuel deprecate_eof masker [] 0 (write_packets ps)
      ≡ stop (write_packets ps) [] (failed eof)
unfolding commands_loop noted on_packet later_arrivals
commands_loop-write_packets zero deprecate_eof masker ps l h = absurd (omega arith)
commands_loop-write_packets (suc fuel) deprecate_eof masker [] l h =
    rw (read_packet-nil, commands_loop) refl
commands_loop-write_packets (suc fuel) deprecate_eof masker ((seq, payload) ∷ ps) l ((hs, hp), h) =
    rw (read_packet-write_packet seq payload (write_packets ps) hp, commands_loop)
      (ap (behind (write_packet seq payload))
        (commands_loop-write_packets fuel deprecate_eof masker ps (omega arith) h))

plain_set :
    (deprecate_eof : Bool) (masker : Masker) (p : Packet) (rest : Bytes)
    → is_plain_reply p.payload ≡ true
    → one_result_set deprecate_eof masker p rest ≡ stop (write_packet p.seq p.payload) rest complete
unfolding one_result_set
plain_set deprecate_eof masker p rest plain = rw (plain, one_result_set) refl

plain_response :
    (fuel : ℕ) (deprecate_eof : Bool) (masker : Masker) (p : Packet) (rest : Bytes)
    → is_plain_reply p.payload ≡ true
    → result_response (suc fuel) deprecate_eof masker p rest
      ≡ stop (write_packet p.seq p.payload) rest complete
unfolding result_response
plain_response fuel deprecate_eof masker p rest plain =
    rw (plain_set deprecate_eof masker p rest plain, result_response)
      (plain_set deprecate_eof masker p rest plain)

answered :
    (later : ℕ → Bytes → Progress) (deprecate_eof : Bool) (masker : Masker) (p : Packet)
    (rest : Bytes)
    → is_plain_reply p.payload ≡ true
    → p.full ≡ false
    → on_packet later deprecate_eof masker 1 p rest
      ≡ behind (write_packet p.seq p.payload) (later 0 rest)
unfolding on_packet after_response
answered later deprecate_eof masker p rest plain part =
    rw
      (
        part,
        plain_response (length rest) deprecate_eof masker p rest plain,
        on_packet,
        after_response,
      )
      (ap (λ r. behind r.written (later 0 r.unread))
        (plain_response (length rest) deprecate_eof masker p rest plain))

-- If the packet behind a noted query is an OK or ERR packet, as the answer to a command sent before the
-- query is, then every packet from there on, the query's rows among them, reaches the client as it
-- came from the server, whatever the masker.
pub server_to_client-pipelined :
    (deprecate_eof : Bool) (masker : Masker) (seq : ℕ) (reply : Bytes) (ps : List (ℕ × Bytes))
    → is_plain_reply reply ≡ true
    → length reply < max_packet
    → All Fits ps
    → server_to_client 0 deprecate_eof masker (1 ∷ []) (write_packets ((seq, reply) ∷ ps))
      ≡ stop (write_packets ((seq, reply) ∷ ps)) [] (failed eof)
unfolding server_to_client command_phase commands_loop noted later_arrivals
server_to_client-pipelined deprecate_eof masker seq reply ps plain small h =
    let fuel : ℕ = length (write_packets ((seq, reply) ∷ ps)) in
    rw (read_packet-write_packet seq reply (write_packets ps) (omega arith), commands_loop)
      (answered (commands_loop fuel deprecate_eof masker []) deprecate_eof masker
          (packet_of (seq, reply)) (write_packets ps) plain (ground arith)
        ∙ ap (behind (write_packet seq reply)) (
            commands_loop-write_packets fuel deprecate_eof masker ps
              (omega (arith, length-write_packets ((seq, reply) ∷ ps))) h))
