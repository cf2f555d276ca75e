-- ===== src/Tests/Sender.antt =====
-- src/include/psenderUtils.c at a list of one node.
use gproxy.Common.{
  ℕ, zero, suc, ap, ◌≡◌, refl, true, false, some, List, [], ◌∷◌, ◌++◌, length, arith, map,
}
use gproxy.Common.Int.{pos}
use gproxy.Common.Outcome.{fault}
use gproxy.Common.Outcome.Returns.{Returns}
use gproxy.Wire.{ack_body, acked_id, ending_body}
use gproxy.Wire.Ack.{acked_id-ack_body}
use gproxy.PacketList.{for_each}
use gproxy.PacketList.Heap.{Pkt}
use gproxy.PacketList.Spec.{Grown, SameRoom, Cell, Cells}
use gproxy.PacketList.Search.{find, erase}
use gproxy.PacketList.Order.{has_id}
use gproxy.Psender.{
  Psender, TcpAnswer, bytes, packet, receive_from_sender, payload, check_ritardatore, send_packet,
  clear_fd, over_written,
}
use gproxy.Psender.Steps.{after_failures}
use gproxy.Psender.Receive.{
  receive_from_sender-past_end, Holds, receive_from_sender-bytes, receive_from_sender-closed,
  receive_from_sender-overflow,
}
use gproxy.Psender.Send.{for_each-send_packet, datagram}
use gproxy.Psender.Acks.{check_ritardatore-ack}
use gproxy.PacketList.Alloc.{IsSound}
use gproxy.Psender.Init.{Setup}
use gproxy.Tests.Fixtures.{two_lists, cell, first-IsList, two_lists-IsSound}

abbrev seven : Pkt
seven = record { id = 7; type = 66; body = 1 ∷ 2 ∷ 3 ∷ 4 ∷ 5 ∷ 6 ∷ 7 ∷ [] }

abbrev waiting : Psender
waiting = record {
  memory = two_lists seven seven;
  to_send = 1;
  channel = 0;
  to_rit_port = 61000;
  to_rit_address = some 2130706433;
  to_rit = record { host = some 2130706433; port = 61000 };
  max_packets = pos 0;
  current_id = 8;
  finalize = false;
  ending_read = false;
  recv_buffer = 0 ∷ 0 ∷ 0 ∷ 0 ∷ 0 ∷ 0 ∷ [];
  connected_sender = 5;
  sender = 4;
  ritardatore = 3;
  can_read = λ fd. true;
  max_fd = 5;
  open_fds = λ fd. true;
  tcp = TcpAnswer.failed ∷ bytes (9 ∷ 8 ∷ []) ∷ [];
  udp = packet (record { id = 0; type = 66; body = ack_body 7 (1 ∷ []) }) ∷ [];
  sends = [];
  selects = [];
  sent = [];
  behind_ending = 0 ∷ 0 ∷ 0 ∷ 0 ∷ 0 ∷ [];
  current_ack = 9 ∷ 9 ∷ [];
}

waiting-Holds : Holds waiting (cell 3 seven ∷ [])
waiting-Holds = record { sound = two_lists-IsSound seven seven; list = first-IsList seven seven }

abbrev at_end : Psender
at_end = record waiting { tcp = TcpAnswer.closed ∷ [] }

at_end-Holds : Holds at_end (cell 3 seven ∷ [])
at_end-Holds = record { sound = two_lists-IsSound seven seven; list = first-IsList seven seven }

abbrev icmp_waits : Psender
icmp_waits = record waiting { udp = packet (record { id = 0; type = 73; body = [] }) ∷ [] }

retried : after_failures waiting.tcp ≡ bytes (9 ∷ 8 ∷ []) ∷ []
unfolding after_failures
retried = refl

bytes_example :
    Returns
      (λ _ t.
        (new : Cell) × Holds t (cell 3 seven ∷ new ∷ [])
        × (payload new.size new.packet ≡ record { id = 8; type = 66; body = 9 ∷ 8 ∷ [] })
        × Grown waiting.memory t.memory
        × (t ≡ record waiting {
          memory = t.memory;
          current_id = 9;
          tcp = [];
          recv_buffer = 9 ∷ 8 ∷ 0 ∷ 0 ∷ 0 ∷ 0 ∷ [];
        }))
      (receive_from_sender waiting)
bytes_example =
    receive_from_sender-bytes {s = waiting} {b = 9 ∷ 8 ∷ []} {rest = []} waiting-Holds (omega arith)
      retried (omega arith)

ended : after_failures at_end.tcp ≡ TcpAnswer.closed ∷ []
unfolding after_failures
ended = refl

closed_example :
    Returns
      (λ _ t.
        (new : Cell) × Holds t (cell 3 seven ∷ new ∷ [])
        × (payload new.size new.packet ≡ record { id = 0; type = 66; body = ending_body })
        × Grown at_end.memory t.memory
        × (t ≡ record at_end {
          memory = t.memory;
          tcp = [];
          ending_read = true;
          can_read = clear_fd at_end.can_read 5;
          max_fd = 3;
          open_fds = clear_fd (clear_fd at_end.open_fds 5) 4;
        }))
      (receive_from_sender at_end)
closed_example =
    receive_from_sender-closed {s = at_end} {rest = []} at_end-Holds (omega arith) ended
      (omega arith)

-- with nothing to read behind the array
abbrev at_edge : Psender
at_edge = record at_end { behind_ending = [] }

past_end_example : receive_from_sender at_edge ≡ fault
past_end_example = receive_from_sender-past_end at_edge [] refl ended (omega arith)

unfoldable zeros : ℕ → List ℕ
zeros zero = []
zeros (suc n) = 0 ∷ zeros n

length-zeros : (n : ℕ) → length (zeros n) ≡ n
unfolding zeros
length-zeros zero = refl
length-zeros (suc n) = ap suc (length-zeros n)

abbrev flooded : Psender
flooded = record waiting { tcp = bytes (zeros 65000) ∷ [] }

flood : after_failures flooded.tcp ≡ bytes (zeros 65000) ∷ []
unfolding after_failures
flood = refl

overflow_example : receive_from_sender flooded ≡ fault
overflow_example =
    receive_from_sender-overflow flooded (zeros 65000) [] refl flood
      (rw (length-zeros 65000) (omega arith))

send_all_example :
    Returns
      (λ _ t.
        (done : Cells) × (done ++ [] ≡ cell 3 seven ∷ [])
        × (t ≡ record waiting {
          sends = t.sends;
          sent = map (datagram waiting) done;
          finalize = has_id 0 done;
        }))
      (for_each Psender.memory 1 send_packet (pos 0) waiting)
send_all_example = for_each-send_packet waiting waiting-Holds (omega arith, tt) tt

ack_example :
    Returns
      (λ _ t.
        Holds t (erase 7 (cell 3 seven ∷ []))
        × (t.memory.live (find 7 (cell 3 seven ∷ [])) ≡ false)
        × SameRoom waiting.memory t.memory
        × (t ≡ record waiting {
          memory = t.memory;
          udp = [];
          current_ack = over_written (ack_body 7 (1 ∷ [])) (9 ∷ 9 ∷ []);
        }))
      (check_ritardatore waiting)
ack_example =
    check_ritardatore-ack {s = waiting} {rest = []} 7 (1 ∷ []) waiting-Holds (omega arith) refl refl
      refl

id_example : acked_id (ack_body 4294967295 (5 ∷ [])) ≡ 4294967295
id_example = acked_id-ack_body 4294967295 (5 ∷ []) (omega arith)

abbrev pub calls : Setup
calls = record {
  datagram_socket = some 3;
  stream_socket = some 4;
  any_address = some 0;
  bind = λ fd to. true;
  listen = λ fd. true;
  accept = λ fd. some 5;
}

abbrev pub untouched : Psender
untouched = record waiting {
  memory = record (two_lists seven seven) { live = λ p. false; fresh = 1 };
}

pub untouched-IsSound : IsSound untouched.memory
untouched-IsSound = record { below = λ p e. ground arith; positive = omega arith; null_dead = refl }
