-- ===== src/Tests/Receiver.antt =====
-- src/include/preceiverUtils.c with a node to send and a node to ack.
use gproxy.Common.{ℕ, ◌≤◌, ◌<◌, ◌≡◌, refl, true, false, some, List, [], ◌∷◌, ◌++◌, map, arith}
use gproxy.Common.Int.{pos}
use gproxy.Common.Outcome.Returns.{Returns}
use gproxy.Source.{delivered, IsChunk}
use gproxy.PacketList.{for_each}
use gproxy.PacketList.Heap.{Pkt}
use gproxy.PacketList.Spec.{SameRoom, Grown, Cells}
use gproxy.PacketList.Place.{insert}
use gproxy.PacketList.Order.{Above, has_id}
use gproxy.Wire.{ntohl}
use gproxy.Preceiver.{
  Preceiver, UdpAnswer, packet, receive_from_psender, send_to_receiver, ack_packet,
}
use gproxy.Preceiver.Deliver.{for_each-send_to_receiver}
use gproxy.Preceiver.Stream.{Inv}
use gproxy.Preceiver.Receive.{receive_from_psender-new, receive_from_psender-old}
use gproxy.Preceiver.Incoming.{recv_answer, recv_rest, received}
use gproxy.Preceiver.Acks.{ack_of, for_each-ack_packet}
use gproxy.Common.{inl, inr}
use gproxy.Common.Outcome.Run.{Run}
use gproxy.PacketList.Alloc.{IsSound}
use gproxy.Preceiver.{SelectAnswer}
use gproxy.Preceiver.Main.{main_loop}
use gproxy.Preceiver.Init.{Setup}
use gproxy.Preceiver.Safety.{Valid, Prefix}
use gproxy.Preceiver.Safety.Rounds.{main_loop-Prefix}
use gproxy.Tests.Fixtures.{
  two_lists, cell, first-IsList, second-IsList, two_lists-IsSound, two_lists-Apart,
}

abbrev source : ℕ → List ℕ
source id = id ∷ 10 ∷ []

abbrev first : Pkt
first = record { id = 1; type = 66; body = 1 ∷ 10 ∷ [] }

abbrev ending : Pkt
ending = record { id = 0; type = 66; body = 2 ∷ 3 ∷ [] }

-- as on the wire, with the id 2 and the id 0
abbrev second : Pkt
second = record { id = 33554432; type = 66; body = 2 ∷ 10 ∷ [] }

abbrev again : Pkt
again = record { id = 0; type = 66; body = 2 ∷ 3 ∷ [] }

abbrev state : List UdpAnswer → Preceiver
state udp = record {
  memory = two_lists first ending;
  to_send = 1;
  to_ack = 2;
  channel = 0;
  to_rit_port = 62000;
  to_rit_address = some 2130706433;
  to_rit = record { host = some 2130706433; port = 62000 };
  max_packets = pos 5;
  last_sent_id = 1;
  finalize = false;
  started = true;
  timed_out = false;
  ritardatore = 3;
  receiver = 4;
  can_read = λ fd. true;
  open_fds = λ fd. true;
  stack = [];
  udp = udp;
  tcp = [];
  selects = [];
  acks = [];
  stream = [];
}

state-Inv : (udp : List UdpAnswer) → Inv source (state udp) (cell 3 first ∷ []) (cell 4 ending ∷ [])
unfolding delivered
state-Inv udp = record {
  sound = two_lists-IsSound first ending;
  sending = first-IsList first ending;
  acking = second-IsList first ending;
  apart = two_lists-Apart first ending;
  ascending = (tt, tt);
  waiting = (omega arith, tt);
  sourced = (record { chunk = refl; room = refl; filled = omega arith; small = omega arith }, tt);
  count = 0;
  next = refl;
  stream = refl;
}

deliver_example :
    Returns
      (λ _ t.
        (kept : Cells) × (ack' : Cells) × Inv source t (kept ++ []) ack'
        × Above t.last_sent_id kept
        × SameRoom (two_lists first ending) t.memory
        × (t ≡ record (state []) {
          memory = t.memory;
          stream = t.stream;
          last_sent_id = t.last_sent_id;
        }))
      (for_each Preceiver.memory 1 send_to_receiver (pos 5) (state []))
deliver_example = for_each-send_to_receiver {s = state []} (state-Inv []) refl

acks_example :
    Returns
      (λ _ t.
        (done : Cells) × (done ++ [] ≡ cell 4 ending ∷ [])
        × Inv source t (cell 3 first ∷ []) []
        × SameRoom (two_lists first ending) t.memory
        × (t ≡ record (state []) {
          memory = t.memory;
          acks = map (ack_of (state [])) done;
          finalize = has_id 0 done;
        }))
      (for_each Preceiver.memory 2 ack_packet (pos 5) (state []))
acks_example = for_each-ack_packet {s = state []} (state-Inv [])

second_arrives : recv_answer 100 (packet second ∷ []) ≡ packet second
unfolding recv_answer
second_arrives = refl

again_arrives : recv_answer 100 (packet again ∷ []) ≡ packet again
unfolding recv_answer
again_arrives = refl

second-IsChunk : IsChunk source second
unfolding ntohl
second-IsChunk = record { chunk = refl; filled = omega arith; small = omega arith }

second_late : 1 ≤ ntohl 33554432
unfolding ntohl
second_late = omega arith

again_early : ntohl 0 < 1
unfolding ntohl
again_early = omega arith

new_example :
    Returns
      (λ _ t.
        Inv source t (insert (received 5 second) (cell 3 first ∷ [])) (cell 4 ending ∷ [])
        × Grown (two_lists first ending) t.memory
        × (t ≡ record (state (packet second ∷ [])) {
          memory = t.memory;
          udp = recv_rest 100 (packet second ∷ []);
        }))
      (receive_from_psender (state (packet second ∷ [])))
new_example =
    receive_from_psender-new {s = state (packet second ∷ [])} {k = second}
      (state-Inv (packet second ∷ [])) (omega arith) second_arrives refl second-IsChunk second_late

old_example :
    Returns
      (λ _ t.
        Inv source t (cell 3 first ∷ []) (insert (received 5 again) (cell 4 ending ∷ []))
        × Grown (two_lists first ending) t.memory
        × (t ≡ record (state (packet again ∷ [])) {
          memory = t.memory;
          udp = recv_rest 100 (packet again ∷ []);
        })
        × (t.memory.live 5 ≡ true))
      (receive_from_psender (state (packet again ∷ [])))
old_example =
    receive_from_psender-old {s = state (packet again ∷ [])} {k = again}
      (state-Inv (packet again ∷ [])) (omega arith) again_arrives refl again_early

abbrev running : Preceiver
running = record (state (packet second ∷ UdpAnswer.failed ∷ packet again ∷ [])) {
  selects = SelectAnswer.ready ∷ SelectAnswer.timeout ∷ [];
}

again-Valid : Valid source (packet again)
unfolding ntohl
again-Valid e = inl refl

running-Inv : Inv source running (cell 3 first ∷ []) (cell 4 ending ∷ [])
unfolding delivered
running-Inv = record {
  sound = two_lists-IsSound first ending;
  sending = first-IsList first ending;
  acking = second-IsList first ending;
  apart = two_lists-Apart first ending;
  ascending = (tt, tt);
  waiting = (omega arith, tt);
  sourced = (record { chunk = refl; room = refl; filled = omega arith; small = omega arith }, tt);
  count = 0;
  next = refl;
  stream = refl;
}

loop_example : Run (Prefix source) (Prefix source) (main_loop 2 running)
loop_example =
    main_loop-Prefix {source = source} 2 {s = running} running-Inv
      ((λ e. inr second-IsChunk), (tt, (again-Valid, tt))) refl (omega arith)

abbrev pub calls : Setup
calls = record {
  datagram_socket = some 3;
  stream_socket = some 4;
  local_address = some 2130706433;
  any_address = some 0;
  connect = λ fd to. true;
}

abbrev pub untouched : Preceiver
untouched = record (state []) {
  memory = record (two_lists first ending) { live = λ p. false; fresh = 1 };
}

pub untouched-IsSound : IsSound untouched.memory
untouched-IsSound = record { below = λ p e. ground arith; positive = omega arith; null_dead = refl }
