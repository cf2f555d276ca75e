-- ===== src/Lib.antt =====
-- GProxy: a pair of proxies that carry one TCP stream over a lossy datagram network.
--
-- The parts. The sender's proxy (psender) reads the stream from its client, cuts it into numbered
-- packets, and sends every packet of its list again and again until an ack takes it out. The
-- network emulator (ritardatore) holds each datagram back for a while, drops some, and reports
-- some of the dropped ones to the end they came from, with a datagram of type I; a proxy that gets
-- one moves to the next of three ports. The receiver's proxy (preceiver) sorts the packets by
-- their numbers, sends those whose turn it is to its client, and acks what it has sent. The id 0
-- marks the end of the stream. Both proxies keep their packets in the same kind of list.
--
-- Which file models what:
--   Common, Common/*: shared names, C's int, and `Outcome`, how a stretch of C code can end;
--     Common/Outcome/Returns, Exits and Run: what a run without fault ends with.
--   PacketList: src/include/listUtils.c, allocNode to forEach, function by function, over the
--     memory of PacketList/Heap. PacketList/Spec says which list a memory holds; Append, Remove,
--     Search, Insert, Alloc, Heads and ForEach treat the operations, Links and Owned the chain and
--     its nodes, Place, Order, Sorted and Scan the order of the ids, Pair two lists in one memory, Purge the
--     removal with the freeing.
--   Wire: src/include/globalUtils.c's constants and getSocketAddress, htonl and ntohl, the ack's text
--     (sprintf in ackPkt, atoi in checkRitardatore); Wire/Decimal is the decimal text, Wire/Ack
--     what comes back.
--   Source: the stream cut into chunks with ids, as both proxies see it.
--   Psender: src/include/psenderUtils.c (closeSenderConnection, terminate, receiveFromSender,
--     checkRitardatore, sendPacket; init in Psender/Init); Psender/Main: main of
--     src/psender.c; Psender/Stream: what it reads; Psender/Steps, Receive, Acks and Send: its
--     operations; Psender/Safety: the loop against any answers of the system.
--   Preceiver: src/include/preceiverUtils.c (terminate, ackPkt, ackPacket, sendToReceiver,
--     receiveFromPsender; init in Preceiver/Init); Preceiver/Main: main of src/preceiver.c;
--     Preceiver/Stream, Deliver, Acks, Incoming and Receive: its walks and its receiving;
--     Preceiver/Safety: the loop against any behaviour of the network.
--   Proxies: psender, a network, and preceiver, from the starts of both programs.
--   Ritardatore: src/ritardatore/Ritardatore.c (check_port, aggiungi_in_ordine, close_coppia,
--     cambia_stato_canale_se_scaduto_burst); Ritardatore/Traffic: ricevo_inserisco and
--     schedula_creazione_nuova_porta; Ritardatore/Main: the main loop behind select;
--     Ritardatore/Start: creazione_nuova_coppia_porte; Start/Loop: main and sig_print. Queue,
--     Channels, Fates with Delays, and Expiry treat the list, the pairs, the handling of a datagram,
--     and the sending; Start/Sides, Coppie, Servite and Segnali the pairs that are made and their end.
--     Passage, with its parts, follows the datagrams through the whole program.
--   Ritardatore/Util: src/ritardatore/Util.c. Util itself has the functions on struct timeval, Io
--     has Writen, Sendn and Readn, Vector the vectors of digits, Transfer thread_For_Write and
--     thread_For_Read, Sockets the options, and Sockets/Setup the set-ups of a socket
--     (Calls and Answers: which of their calls the system refused, and what follows it; Opened,
--     Streams and Blocking: what the functions leave).
--   Global: src/include/globalUtils.c's getSocket and log.
--   Proxies/Ports: the ports of the three programs.
--   Tests: the theorems at concrete inputs.
-- The state of each program is one record with the globals of its file. An operation is a `Cmd`,
-- a function from the state to an `Outcome`; the operations of the list act on the field `memory`.
--
-- How the model stands to the code. A node and its packet are one object, since every node owns
-- its packet; a packet's body holds the bytes that were written, from the array's start. malloc
-- hands out ever new addresses, and NULL from a limit on; a read or write through NULL or through
-- a freed object, or past the end of a body, is `fault`, and so is a read past the end of what can
-- be read of the array a body is copied from (`Buffer`). The copy at the end of the stream takes
-- 18 bytes of `endingBody`, which has 13. C leaves that undefined; the state of the psender has
-- the bytes that can be read behind the array (`behind_ending`), the copy takes them, and a
-- theorem that goes through the end of the stream has the hypothesis that there are five. What
-- system calls answer is a script in the state, consumed call by call; the comment at each script
-- says what a spent one means, and `starve` is a call that waits for ever. The sockets of
-- src/ritardatore/Util.c are a record of what the system keeps for the descriptors, and a call of
-- the system changes it when it is done. In the ritardatore the clock and `random` are arbitrary
-- sequences, and the sine of the delay is an arbitrary function, whose value a theorem takes to be
-- at most 50000 where it needs that. Times are never negative. The host is little-endian.
-- Datagrams shorter than a header do not reach the proxies. `atoi` is glibc's (int) strtol(text,
-- NULL, 10) with a `long` of 64 bits, where the standard leaves a number that no `int` holds
-- undefined. The globals current and endingNode are local values here. Of currentAck the state has
-- the body's bytes, which a datagram overwrites from the array's start.
--
-- Fuel. A walk over a list gets the list's length plus one, which is one round more than it has
-- nodes. The psender's loop that fills its list gets the length of the script plus two: every
-- round takes an answer or waits. The main loops are observed for any number of rounds, and the
-- ritardatore's sending loop for any number of turns; one turn more than datagrams are to come is
-- enough, since main schedules no command to add a port, and a turn that does not end the loop
-- takes a datagram off the list.
--
-- Not modelled: printing (printNode, printList, the stampa_ functions and usage), the profiling times,
-- FilledSndBufferSpace, which is not compiled, get_local_port, which serves printing only, and the
-- Python clients. They are output, or unused by the three programs.
pub mod Common
pub mod Global
pub mod PacketList
pub mod Preceiver
pub mod Proxies
pub mod Psender
pub mod Ritardatore
pub mod Source
pub mod Tests
pub mod Wire
