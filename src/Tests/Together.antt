-- ===== src/Tests/Together.antt =====
-- Both proxies from their starts: one chunk is read, sent and brought to the preceiver twice.
use gproxy.Common.{
  ℕ, length, ◌<◌, ◌^◌, ◌+◌, ◌*◌, refl, true, false, Option, some, List, [], ◌∷◌, arith,
}
use gproxy.Common.Int.{pos_part}
use gproxy.Common.Outcome.{Outcome, ok, halt, fault, starve, out_of_fuel}
use gproxy.Common.Outcome.Run.{Run, Leaves, waiting}
use gproxy.Wire.{htonl, ntohl, get_socket_address, body_type}
use gproxy.Wire.Decimal.{atoi, read_number, parse_digits}
use gproxy.PacketList.Heap.{Pkt}
use gproxy.PacketList.{alloc_node, alloc_head, append_node, copy_body, for_each, for_each_loop}
use gproxy.Psender.{
  recv_loop, receive_from_sender, on_received, append_data, append_ending, close_sender_connection,
  send_packet, send_loop, Psender, bytes, closed, ready,
}
use mathlib.Core.List.Memᴰ
use gproxy.Psender.Init as SenderInit
use gproxy.Psender.Main as SenderSide
use gproxy.Psender.Stream.{reads, joined}
use gproxy.Preceiver.{Preceiver, packet}
use gproxy.Preceiver.Main as ReceiverSide
use gproxy.Proxies.{AllFrom, main-Begins, Begins, Fresh}
use gproxy.Tests.Sender as SenderTests
use gproxy.Tests.Receiver as ReceiverTests

-- `127.0.0.1` as `inet_aton` reads it, and the texts of two arguments
abbrev inet_aton : List ℕ → Option ℕ
inet_aton text = some 2130706433

abbrev address : List ℕ
address = b'1' ∷ b'2' ∷ b'7' ∷ b'.' ∷ b'0' ∷ b'.' ∷ b'0' ∷ b'.' ∷ b'1' ∷ []

abbrev window : List ℕ
window = b'2' ∷ []

-- The connection brings a chunk and ends; `select` answers once.
abbrev start : Psender
start = record SenderTests.untouched {
  current_id = 1;
  tcp = bytes (9 ∷ 8 ∷ []) ∷ closed ∷ [];
  udp = [];
  selects = ready true false ∷ [];
}

abbrev sender_run : Outcome Psender (Unit {0})
sender_run = SenderSide.main inet_aton SenderTests.calls ([] ∷ address ∷ window ∷ []) 2 start

abbrev state_of : Outcome Psender (Unit {0}) → Psender
state_of (ok a s) = s
state_of (halt n s) = s
state_of fault = start
state_of (starve s) = s
state_of out_of_fuel = start

-- the chunk as it was sent, brought twice
abbrev chunk : Pkt
chunk = record { id = htonl 1; type = body_type; body = 9 ∷ 8 ∷ [] }

abbrev receiver_start : Preceiver
receiver_start = record ReceiverTests.untouched { udp = packet chunk ∷ packet chunk ∷ [] }

receiver_start-Fresh : Fresh (3 * pos_part (atoi window)) receiver_start
unfolding atoi read_number parse_digits
receiver_start-Fresh = record {
  sound = ReceiverTests.untouched-IsSound;
  room = omega arith;
  first = refl;
  none_yet = refl;
  whole = refl;
}

-- The psender has sent the chunk and the end, and waits in `select`.
reached :
    Leaves (state_of sender_run) sender_run × AllFrom (state_of sender_run).sent receiver_start.udp
unfolding SenderSide.main SenderSide.on_select SenderSide.fill_loop recv_loop receive_from_sender
    on_received append_data append_ending close_sender_connection alloc_node append_node copy_body
    for_each for_each_loop send_packet send_loop htonl ntohl get_socket_address alloc_head atoi
    read_number parse_digits SenderSide.ack_loop SenderSide.end_if_done SenderInit.init
    SenderSide.copy_address SenderSide.main_loop SenderSide.main_round SenderSide.wait_select
reached = (waiting, ((λ e. Memᴰ.head refl), ((λ e. Memᴰ.head refl), tt)))

few : length (reads start.tcp) + 1 < 2 ^ 32
unfolding reads
few = omega arith

together_example :
    Run (Begins (joined (reads start.tcp))) (Begins (joined (reads start.tcp))) (
      ReceiverSide.main inet_aton ReceiverTests.calls ([] ∷ address ∷ window ∷ []) 3 receiver_start)
together_example =
    main-Begins start receiver_start inet_aton SenderTests.calls ReceiverTests.calls [] address
      window [] address window 2 3 (omega arith) (omega arith) SenderTests.untouched-IsSound
      (omega arith) refl refl (omega arith) ((omega arith, omega arith), tt) few
      receiver_start-Fresh reached.0 reached.1
