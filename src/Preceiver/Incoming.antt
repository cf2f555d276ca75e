-- ===== src/Preceiver/Incoming.antt =====
-- What `receiveFromPsender` gets, and the new node that it puts it in.
use gproxy.Common.{
  ℕ, zero, suc, ◌+◌, ◌-◌, ◌<◌, ◌≡◌, refl, true, false, List, [], ◌∷◌, arith, ap, sym, ◌∙◌, ◌==◌,
  length,
}
use mathlib.Core.Path.{subst}
use gproxy.Common.Int.{pos}
use gproxy.Common.Outcome.{ok}
use gproxy.Wire.{header_size, body_type, ntohl}
use gproxy.Source.{IsChunk}
use gproxy.PacketList.Heap.{Ptr, Memory, Pkt}
use gproxy.PacketList.Spec.{Cell, Cells, IsList, Node, within}
use gproxy.PacketList.Alloc.{
  IsSound, allocated, node_packet, alloc_node-empty, allocated-New, with_packet, with_size, New,
  New-with_packet, New-with_size, New-IsList, fresh-out,
}
use gproxy.PacketList.Pair.{Apart}
use gproxy.Preceiver.{
  Preceiver, UdpAnswer, packet, nothing, recv_loop, sort_in, on_received, receive_from_psender,
}
use gproxy.Preceiver.Stream.{IsSourced, Inv, body_of, take-length}

-- What the loop around `recv` ends with: the first answer that is a datagram or `EINTR`, or the
-- last of the tries.
unfoldable pub recv_answer : (tries : ℕ) → List UdpAnswer → UdpAnswer
recv_answer zero script = nothing
recv_answer (suc tries) [] = nothing
recv_answer (suc tries) (packet k ∷ rest) = packet k
recv_answer (suc tries) (UdpAnswer.interrupted ∷ rest) = UdpAnswer.interrupted
recv_answer (suc zero) (answer ∷ rest) = answer
recv_answer (suc (suc tries)) (answer ∷ rest) = recv_answer (suc tries) rest

-- the script behind it
unfoldable pub recv_rest : (tries : ℕ) → List UdpAnswer → List UdpAnswer
recv_rest zero script = script
recv_rest (suc tries) [] = []
recv_rest (suc tries) (packet k ∷ rest) = rest
recv_rest (suc tries) (UdpAnswer.interrupted ∷ rest) = rest
recv_rest (suc zero) (answer ∷ rest) = rest
recv_rest (suc (suc tries)) (answer ∷ rest) = recv_rest (suc tries) rest

pub recv_loop-answer :
    (tries : ℕ) (script : List UdpAnswer) (s : Preceiver)
    → recv_loop tries script s
      ≡ ok (recv_answer tries script) (record s { udp = recv_rest tries script })
unfolding recv_loop recv_answer recv_rest
recv_loop-answer zero script s = refl
recv_loop-answer (suc tries) [] s = refl
recv_loop-answer (suc tries) (packet k ∷ rest) s = refl
recv_loop-answer (suc tries) (UdpAnswer.interrupted ∷ rest) s = refl
recv_loop-answer (suc zero) (nothing ∷ rest) s = refl
recv_loop-answer (suc zero) (UdpAnswer.failed ∷ rest) s = refl
recv_loop-answer (suc (suc tries)) (nothing ∷ rest) s = recv_loop-answer (suc tries) rest s
recv_loop-answer (suc (suc tries)) (UdpAnswer.failed ∷ rest) s = recv_loop-answer (suc tries) rest s

-- the node of a datagram
abbrev pub received : Ptr → Pkt → Cell
received p k = record {
  at = p;
  packet = record k { id = ntohl k.id };
  size = pos (header_size + length k.body);
}

-- The memory with the new node: as it comes from `allocNode` and `memset`, with the datagram in
-- it, and as it is sorted in.
abbrev pub blank : Memory → Memory
blank h =
    with_packet (allocated h (node_packet 0 body_type []) 0) h.fresh
      (record { id = 0; type = 0; body = [] })

abbrev pub filled : Memory → Pkt → Memory
filled h k = with_packet (blank h) h.fresh k

abbrev pub sorted : Memory → Pkt → Memory
sorted h k =
    with_size (with_packet (filled h k) h.fresh (record k { id = ntohl k.id })) h.fresh
      (pos (header_size + length k.body))

pub blank-New : {h : Memory} → IsSound h → New h (blank h) h.fresh
blank-New s = New-with_packet _ (allocated-New _ _ s)

pub filled-New : {h : Memory} (k : Pkt) → IsSound h → New h (filled h k) h.fresh
filled-New k s = New-with_packet k (blank-New s)

pub sorted-New : {h : Memory} (k : Pkt) → IsSound h → New h (sorted h k) h.fresh
sorted-New k s = New-with_size _ (New-with_packet _ (filled-New k s))

pub sorted-Node : {h : Memory} (k : Pkt) → IsSound h → Node (sorted h k) (received h.fresh k)
sorted-Node {h} k s =
    let new = sorted-New k s in
    record { live = new.live; ne_null = new.ne_null; packet = ground arith; size = ground arith }

-- Up to the branches on the answer.
pub receive-on_received :
    (s : Preceiver)
    → IsSound s.memory
    → s.memory.fresh < s.memory.limit
    → receive_from_psender s
      ≡ on_received s.memory.fresh
          (recv_answer 100 s.udp)
          (record s { memory = blank s.memory; udp = recv_rest 100 s.udp })
unfolding receive_from_psender
receive-on_received s sound room =
    let live = (allocated-New (node_packet 0 body_type []) 0 sound).live in
    rw (
      alloc_node-empty s.memory 0 body_type 0 room,
      live,
      recv_loop-answer 100 s.udp (record s { memory = blank s.memory }),
    )

pub on_received-body :
    (s : Preceiver) (h : Memory) (k : Pkt)
    → IsSound h
    → k.type ≡ body_type
    → on_received h.fresh (packet k) (record s { memory = blank h })
      ≡ sort_in h.fresh (ntohl k.id) (record s { memory = sorted h k })
unfolding on_received
on_received-body s h k sound e =
    let test : (k.type == body_type) ≡ true = ground arith in
    rw ((blank-New sound).live, test, (blank-New sound).live, (blank-New sound).live)

pub body_of-received : (p : Ptr) (k : Pkt) → body_of (received p k) ≡ k.body
body_of-received p k =
    let e : 5 + length k.body - 5 ≡ length k.body = omega arith in rw e (take-length k.body)

pub received-IsSourced :
    {source : ℕ → List ℕ} (p : Ptr) (k : Pkt) → IsChunk source k → IsSourced source (received p k)
received-IsSourced {source} p k chunk =
    let e = body_of-received p k in
    record {
      chunk = e ∙ chunk.chunk;
      room = let n : 5 + length k.body - 5 ≡ length k.body = omega arith in n ∙ sym (ap length e);
      filled = subst (λ (l : List ℕ). 0 < length l) (sym e) chunk.filled;
      small = chunk.small;
    }

-- The new node is in neither list, and the lists stay as the node is filled.
module _ {source : ℕ → List ℕ} {s : Preceiver} {snd ack : Cells} (inv : Inv source s snd ack)
    {g : Memory} (new : New s.memory g s.memory.fresh) where
  pub out_snd : within s.to_send snd s.memory.fresh ≡ false
  out_snd = fresh-out inv.sound inv.sending

  pub out_ack : within s.to_ack ack s.memory.fresh ≡ false
  out_ack = fresh-out inv.sound inv.acking

  pub sending : IsList g s.to_send snd
  sending = New-IsList new out_snd inv.sending

  pub acking : IsList g s.to_ack ack
  acking = New-IsList new out_ack inv.acking

-- The invariant in another memory, with another list of acks.
pub kept :
    {source : ℕ → List ℕ} {s : Preceiver} {snd ack ack' : Cells} {g : Memory} {udp : List UdpAnswer}
    → Inv source s snd ack
    → IsSound g
    → IsList g s.to_send snd
    → IsList g s.to_ack ack'
    → Apart s.to_send snd s.to_ack ack'
    → Inv source (record s { memory = g; udp = udp }) snd ack'
kept inv sound sending acking apart = record {
  sound = sound;
  sending = sending;
  acking = acking;
  apart = apart;
  ascending = inv.ascending;
  waiting = inv.waiting;
  sourced = inv.sourced;
  count = inv.count;
  next = inv.next;
  stream = inv.stream;
}
