-- ===== src/Psender/Acks.antt =====
-- `checkRitardatore`: acks, and the change of the port.
use gproxy.Common.{
  ℕ, ◌+◌, ◌%◌, ◌^◌, ◌<◌, ◌≡◌, ◌≢◌, refl, ap, ◌∙◌, true, false, List, ◌∷◌, ◌++◌, drop, length, arith,
  ◌==◌,
}
use mathlib.Core.Path.{subst}
use gproxy.Common.Outcome.{ok}
use gproxy.Common.Outcome.Returns.{Returns, returns}
use gproxy.Wire.{acked_id, ntohl, body_type, ack_body, get_socket_address}
use gproxy.Wire.Ack.{ack_body-append, acked_id-ack_body}
use gproxy.PacketList.Heap.{Pkt}
use gproxy.PacketList.Spec.{Cells, SameRoom}
use gproxy.PacketList.Search.{find, erase}
use gproxy.PacketList.Purge.{purge_lem}
use gproxy.Psender.{
  Psender, UdpAnswer, packet, over_written, take_ack, switch_port, on_udp, check_ritardatore,
}
use gproxy.Psender.Receive.{Holds}

-- The change of the port: the next of the three channels, round and round. It cannot fail, since
-- `getSocketAddress` never reports an error.
switch_port-next :
    (s : Psender)
    → switch_port s
      ≡ ok tt (record s {
        channel = (s.channel + 1) % 3;
        to_rit_port = 61000 + (s.channel + 1) % 3;
        to_rit = record { host = s.to_rit_address; port = 61000 + (s.channel + 1) % 3 };
      })
unfolding switch_port get_socket_address
switch_port-next s = ground arith

take_ack-Holds :
    {s : Psender} {cs : Cells} (id : ℕ)
    → Holds s cs
    → id < 2 ^ 32
    → Returns
        (λ _ t.
          Holds t (erase id cs)
          × (t.memory.live (find id cs) ≡ false)
          × SameRoom s.memory t.memory
          × (t ≡ record s { memory = t.memory }))
        (take_ack id s)
unfolding take_ack
take_ack-Holds id holds lt =
    let (p, g, u, k, runs, clears, sound, list, gone, room) =
      purge_lem id holds.sound holds.list lt in
    rw (runs, clears) (returns (record { sound = sound; list = list }, gone, room, refl))

acked_id-lt : (body : List ℕ) → acked_id body < 2 ^ 32
unfolding acked_id ntohl
acked_id-lt body = omega arith

-- Beside the memory, only the datagram's bytes have been taken in.
abbrev pub Acknowledged : Psender → Pkt → List UdpAnswer → Psender → Type 0
Acknowledged s k rest t =
    t ≡ record s { memory = t.memory; udp = rest; current_ack = over_written k.body s.current_ack }

-- What the array held before does not change the id.
acked_id-over_written :
    (id : ℕ) (stack old : List ℕ)
    → id < 2 ^ 32
    → acked_id (over_written (ack_body id stack) old) ≡ id
acked_id-over_written id stack old lt =
    let behind = drop (length (ack_body id stack)) old in
    ap acked_id (ack_body-append id stack behind) ∙ acked_id-ack_body id (stack ++ behind) lt

-- Whatever text a body packet has, it acks some id.
pub check_ritardatore-body :
    {s : Psender} {cs : Cells} {k : Pkt} {rest : List UdpAnswer}
    → Holds s cs
    → s.udp ≡ packet k ∷ rest
    → k.type ≡ body_type
    → Returns
        (λ _ t.
          Holds t (erase (acked_id (over_written k.body s.current_ack)) cs)
          × (t.memory.live (find (acked_id (over_written k.body s.current_ack)) cs) ≡ false)
          × SameRoom s.memory t.memory
          × Acknowledged s k rest t)
        (check_ritardatore s)
unfolding check_ritardatore on_udp
check_ritardatore-body {s} {k} holds e b =
    let test : (k.type == body_type) ≡ true = ground arith in
    rw (e, test)
      (take_ack-Holds (acked_id (over_written k.body s.current_ack))
        (record { sound = holds.sound; list = holds.list })
        (acked_id-lt (over_written k.body s.current_ack)))

-- An ack that the preceiver has made for an id takes the first node with that id out of the list
-- and frees it, allocates nothing, and nothing else of the state changes but the body of
-- `currentAck`, whatever that held before; without such a node the list stays.
pub check_ritardatore-ack :
    {s : Psender} {cs : Cells} {k : Pkt} {rest : List UdpAnswer} (id : ℕ) (stack : List ℕ)
    → Holds s cs
    → id < 2 ^ 32
    → s.udp ≡ packet k ∷ rest
    → k.type ≡ body_type
    → k.body ≡ ack_body id stack
    → Returns
        (λ _ t.
          Holds t (erase id cs)
          × (t.memory.live (find id cs) ≡ false)
          × SameRoom s.memory t.memory
          × Acknowledged s k rest t)
        (check_ritardatore s)
check_ritardatore-ack {s} {cs} {k} {rest} id stack holds lt e b body =
    subst
      (λ i.
        Returns
          (λ _ t.
            Holds t (erase i cs)
            × (t.memory.live (find i cs) ≡ false)
            × SameRoom s.memory t.memory
            × Acknowledged s k rest t)
          (check_ritardatore s))
      (ap (λ l. acked_id (over_written l s.current_ack)) body
        ∙ acked_id-over_written id stack s.current_ack lt)
      (check_ritardatore-body holds e b)

-- Any other datagram moves the psender to the next of the three channels, round and round, and
-- to the channel's port; nothing else changes.
pub check_ritardatore-switch :
    (s : Psender) {k : Pkt} {rest : List UdpAnswer}
    → s.udp ≡ packet k ∷ rest
    → k.type ≢ body_type
    → check_ritardatore s
      ≡ ok tt (record s {
        udp = rest;
        current_ack = over_written k.body s.current_ack;
        channel = (s.channel + 1) % 3;
        to_rit_port = 61000 + (s.channel + 1) % 3;
        to_rit = record { host = s.to_rit_address; port = 61000 + (s.channel + 1) % 3 };
      })
unfolding check_ritardatore on_udp
check_ritardatore-switch s {k} {rest} e b =
    let test : (k.type == body_type) ≡ false = ground arith in
    rw (e, test)
      (switch_port-next (record s { udp = rest; current_ack = over_written k.body s.current_ack }))
