-- ===== src/Preceiver/Receive.antt =====
-- `receiveFromPsender`.
use gproxy.Common.{
  ℕ, ◌≤◌, ◌<◌, ◌≡◌, refl, Bool, true, false, List, arith, ap, ◌∙◌, leb, if◌then◌else◌, length,
  Bool-cases, inl, inr,
}
use gproxy.Common.Int.{pos, ltb_ℤ}
use gproxy.Common.Outcome.Returns.{Returns, returns}
use gproxy.Wire.{body_type, ntohl}
use gproxy.Source.{IsChunk}
use gproxy.PacketList.Heap.{Ptr, Pkt}
use gproxy.PacketList.Spec.{Grown, Cells}
use gproxy.PacketList.Order.{AtLeast-insert, All-insert, insert-Ascending}
use gproxy.PacketList.Place.{insert}
use gproxy.PacketList.Alloc.{clear_node-released, released-IsSound, released-IsList}
use gproxy.PacketList.Pair.{arrive_lem, Apart-sym}
use gproxy.Preceiver.{Preceiver, packet, sort_in, on_received, receive_from_psender}
use gproxy.Preceiver.Stream.{IsSourced, Inv}
use gproxy.Preceiver.Incoming.{
  recv_answer, recv_rest, received, blank, sorted, sorted-New, sorted-Node, receive-on_received,
  on_received-body, received-IsSourced, kept, out_snd, out_ack, sending, acking,
}

-- With memory for a node: a data packet of the source that is the next to come, and is not below
-- the next id, goes to its place among those to be sent on, unless its id is there; the lists and
-- what the receiver has got stay in order, and at most one node is allocated.
pub receive_from_psender-new :
    {source : ℕ → List ℕ} {s : Preceiver} {snd ack : Cells} {k : Pkt}
    → Inv source s snd ack
    → s.memory.fresh < s.memory.limit
    → recv_answer 100 s.udp ≡ packet k
    → k.type ≡ body_type
    → IsChunk source k
    → s.last_sent_id ≤ ntohl k.id
    → Returns
        (λ _ t.
          Inv source t (insert (received s.memory.fresh k) snd) ack
          × Grown s.memory t.memory
          × (t ≡ record s { memory = t.memory; udp = recv_rest 100 s.udp }))
        (receive_from_psender s)
unfolding sort_in
receive_from_psender-new {source} {s} {snd} {ack} {k} inv room e type chunk le =
    let n = received s.memory.fresh k in
    let new = sorted-New k inv.sound in
    let test : leb s.last_sent_id (ntohl k.id) ≡ true = ground arith in
    let (done, g, runs, sound, sending', acking', apart, into) =
      arrive_lem n new.sound (sending inv new) (acking inv new) inv.apart (sorted-Node k inv.sound)
        (out_snd inv new) (out_ack inv new) in
    rw
      (
        receive-on_received s inv.sound room,
        e,
        on_received-body (record s { udp = recv_rest 100 s.udp }) s.memory k inv.sound type,
        test,
        runs,
      )
      (returns (
        record {
          sound = sound;
          sending = sending';
          acking = acking';
          apart = apart;
          ascending = insert-Ascending n snd inv.ascending;
          waiting = AtLeast-insert s.last_sent_id n snd le inv.waiting;
          sourced =
              All-insert (IsSourced source) n snd (received-IsSourced s.memory.fresh k chunk)
                inv.sourced;
          count = inv.count;
          next = inv.next;
          stream = inv.stream;
        },
        (into.fresh, into.limit),
        refl,
      ))

-- With memory for a node: a body packet that is the next to come, and is below the next id, is not
-- sent on again. It goes to the list of the acks if there is room in the window and its id is not
-- there; if there is no room, its node is freed.
pub receive_from_psender-old :
    {source : ℕ → List ℕ} {s : Preceiver} {snd ack : Cells} {k : Pkt}
    → Inv source s snd ack
    → s.memory.fresh < s.memory.limit
    → recv_answer 100 s.udp ≡ packet k
    → k.type ≡ body_type
    → ntohl k.id < s.last_sent_id
    → Returns
        (λ _ t.
          Inv source t snd (
            if ltb_ℤ (pos (length ack)) s.max_packets
            then insert (received s.memory.fresh k) ack
            else ack)
          × Grown s.memory t.memory
          × (t ≡ record s { memory = t.memory; udp = recv_rest 100 s.udp })
          × (t.memory.live s.memory.fresh ≡ ltb_ℤ (pos (length ack)) s.max_packets))
        (receive_from_psender s)
unfolding sort_in
receive_from_psender-old {source} {s} {snd} {ack} {k} inv room e type lt =
    let n = received s.memory.fresh k in
    let new = sorted-New k inv.sound in
    let late : leb s.last_sent_id (ntohl k.id) ≡ false = ground arith in
    let others = acking inv new in
    let start =
      (receive-on_received s inv.sound room
        ∙ ap
            (λ a.
              on_received s.memory.fresh a
                (record s { memory = blank s.memory; udp = recv_rest 100 s.udp }))
            e
        ∙ on_received-body (record s { udp = recv_rest 100 s.udp }) s.memory k inv.sound type) in
    elim (Bool-cases (ltb_ℤ (pos (length ack)) s.max_packets)) [
      | inl fits ↦
          let (done, g, runs, sound, acking', sending', apart, into) =
            arrive_lem n new.sound others (sending inv new)
              (Apart-sym s.to_send snd s.to_ack ack inv.apart) (sorted-Node k inv.sound)
              (out_ack inv new) (out_snd inv new) in
          rw (start, late, others.head_live, others.counted, fits, runs)
            (returns (
              kept inv sound sending' acking'
                  (Apart-sym s.to_ack (insert n ack) s.to_send snd apart),
              (into.fresh, into.limit),
              refl,
              ap (λ (f : Ptr → Bool). f s.memory.fresh) into.live ∙ new.live,
            ))
      | inr full ↦
          rw
            (
              start,
              late,
              others.head_live,
              others.counted,
              full,
              clear_node-released (sorted s.memory k) s.memory.fresh new.live new.ne_null,
            )
            (returns (
              kept inv (released-IsSound s.memory.fresh new.sound)
                  (released-IsList s.memory.fresh (sending inv new) (out_snd inv new))
                  (released-IsList s.memory.fresh others (out_ack inv new)) inv.apart,
              (refl, refl),
              refl,
              ground arith,
            ))
    ]
