-- ===== src/Preceiver/Acks.antt =====
-- `ackPacket`, and the walk of the main loop over the list of the acks with it.
use gproxy.Common.{
  ℕ, ◌≡◌, refl, Bool, ◌||◌, List, [], ◌∷◌, ◌++◌, arith, ap, sym, ◌∙◌, map, ◌==◌, or-false,
}
use mathlib.Core.Path.{subst, ap₂}
use mathlib.Core.List.{append_assoc, map-append, append-nil}
use gproxy.Common.Outcome.{ok}
use gproxy.Common.Outcome.Returns
use gproxy.Common.Outcome.Returns.{Returns, returns}
use gproxy.Wire.{body_type, ack_body}
use gproxy.PacketList.{for_each, remove_node, clear_node}
use gproxy.PacketList.Heap.{Memory}
use gproxy.PacketList.Spec.{SameRoom, Cell, Cells, Node}
use gproxy.PacketList.Order.{has_id, has_id-append}
use gproxy.PacketList.Pair.{discard_lem}
use gproxy.PacketList.ForEach.{Trail, IsList-Trail, unscanned, for_each_rule}
use gproxy.Preceiver.{Preceiver, Datagram, ack_packet}
use gproxy.Preceiver.Stream.{Inv}

-- the ack for a node
abbrev pub ack_of : Preceiver → Cell → Datagram
ack_of s c = record {
  to = s.to_rit;
  packet = record { id = 0; type = body_type; body = ack_body c.packet.id s.stack };
}

-- the state after the nodes have been acked, in order
abbrev pub after_acks : Preceiver → Cells → Memory → Preceiver
after_acks s done h = record s {
  memory = h;
  acks = s.acks ++ map (ack_of s) done;
  finalize = s.finalize || has_id 0 done;
}

-- the state after one more
abbrev after_ack : Preceiver → Cell → Memory → Preceiver
after_ack t c k = record t {
  memory = k;
  acks = t.acks ++ ack_of t c ∷ [];
  finalize = t.finalize || (c.packet.id == 0);
}

ack_packet-after_ack :
    (t : Preceiver) (c : Cell) (g k : Memory) (u : Unit {0})
    → Node t.memory c
    → remove_node c.at t.memory ≡ ok c.at g
    → clear_node c.at g ≡ ok u k
    → ack_packet c.at t ≡ ok u (after_ack t c k)
unfolding ack_packet
ack_packet-after_ack t c g k u n r f = ground arith

after_acks-step :
    (s : Preceiver) (done : Cells) (c : Cell) (h k : Memory)
    → after_ack (after_acks s done h) c k ≡ after_acks s (done ++ c ∷ []) k
after_acks-step s done c h k =
    ap₂ (λ (l : List Datagram) (b : Bool). record s { memory = k; acks = l; finalize = b })
      (append_assoc s.acks (map (ack_of s) done) (ack_of s c ∷ [])
        ∙ ap (λ l. s.acks ++ l) (sym (map-append (ack_of s) done (c ∷ []))))
      (ground (arith, has_id-append 0 done (c ∷ [])))

module _ (source : ℕ → List ℕ) (s : Preceiver) (snd ack : Cells) where
  -- What holds in the walk with `rest` still to be acked.
  record Walk (rest : Cells) (t : Preceiver) : Type 0 where
    done : Cells
    split : done ++ rest ≡ ack
    inv : Inv source t snd rest
    state : t ≡ after_acks s done t.memory
    room : SameRoom s.memory t.memory

  Walk-step :
      (c : Cell) (rest : Cells) (t : Preceiver)
      → Walk (c ∷ rest) t
      → Returns (λ _. Walk rest) (ack_packet c.at t)
  Walk-step c rest t w =
      let inv = w.inv in
      let (g, u, k, removes, clears, sound, acking, sending, apart, gone, room) =
        discard_lem c rest inv.sound inv.acking inv.sending inv.apart in
      rw (ack_packet-after_ack t c g k u inv.acking.owned.0 removes clears) (
        returns (record {
          done = w.done ++ c ∷ [];
          split = append_assoc w.done (c ∷ []) rest ∙ w.split;
          inv = record {
            sound = sound;
            sending = sending;
            acking = acking;
            apart = apart;
            ascending = inv.ascending;
            waiting = inv.waiting;
            sourced = inv.sourced;
            count = inv.count;
            next = inv.next;
            stream = inv.stream;
          };
          state = ap (λ u. after_ack u c k) w.state ∙ after_acks-step s w.done c t.memory k;
          room = (room.0 ∙ w.room.0, room.1 ∙ w.room.1);
        }))

  Walk-Trail : (rest : Cells) (t : Preceiver) → Walk rest t → Trail t.memory s.to_ack rest
  Walk-Trail rest t w =
      subst (λ hd. Trail t.memory hd rest) (ap Preceiver.to_ack w.state)
        (IsList-Trail w.inv.acking).1

-- The walk over the list of the acks acks the first nodes, in order, one datagram each with the
-- node's id, as many as the bound says (all if it is 0), and takes them out of the list. It marks
-- the end if one of them has the id 0; but for that and the memory, where
-- nothing is allocated, nothing changes.
pub for_each-ack_packet :
    {source : ℕ → List ℕ} {s : Preceiver} {snd ack : Cells}
    → Inv source s snd ack
    → Returns
        (λ _ t.
          (done : Cells) × (done ++ unscanned s.max_packets 0 ack ≡ ack)
          × Inv source t snd (unscanned s.max_packets 0 ack)
          × SameRoom s.memory t.memory
          × (t ≡ record s {
            memory = t.memory;
            acks = s.acks ++ map (ack_of s) done;
            finalize = s.finalize || has_id 0 done;
          }))
        (for_each Preceiver.memory s.to_ack ack_packet s.max_packets s)
for_each-ack_packet {source} {s} {snd} {ack} inv =
    Returns.mono
      (for_each_rule Preceiver.memory s.to_ack ack_packet (Walk source s snd ack)
        (Walk-Trail source s snd ack) (Walk-step source s snd ack) ack s.max_packets s inv.acking
        (record {
          done = [];
          split = refl;
          inv = inv;
          state =
              ap₂ (λ (l : List Datagram) (b : Bool). record s { acks = l; finalize = b })
                (sym (append-nil s.acks)) (or-false s.finalize);
          room = (refl, refl);
        }))
      λ _ t w. (w.done, w.split, w.inv, w.room, w.state)
