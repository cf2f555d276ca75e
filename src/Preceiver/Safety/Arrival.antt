-- ===== src/Preceiver/Safety/Arrival.antt =====
-- One call of `receiveFromPsender`, whatever the network brings.
use gproxy.Common.{
  ℕ, suc, ◌≤◌, ◌<◌, ◌≡◌, refl, sym, ap, ◌∙◌, ◌⊎◌, inl, inr, Bool, false, List, ◌==◌, arith,
  Bool-cases,
}
use mathlib.Core.Path.{subst}
use gproxy.Common.Int.{ℤ}
use gproxy.Common.Outcome.Run.{Run, goes, stops, Returns-Run}
use gproxy.Wire.{body_type, ntohl, Address, get_socket_address}
use gproxy.Source.{IsChunk}
use gproxy.PacketList.Heap.{Pkt, Memory}
use gproxy.PacketList.Spec.{Cells, Grown}
use gproxy.PacketList.Alloc.{New, clear_node-released, released, released-IsSound, released-IsList}
use gproxy.Preceiver.{
  Preceiver, UdpAnswer, packet, nothing, SelectAnswer, on_received, receive_from_psender,
  switch_port,
}
use gproxy.Preceiver.Stream.{Inv}
use gproxy.Preceiver.Receive.{receive_from_psender-new, receive_from_psender-old}
use gproxy.Preceiver.Incoming.{
  recv_answer, recv_rest, receive-on_received, blank, filled, blank-New, filled-New, out_snd,
  out_ack, sending, acking,
}
use gproxy.Preceiver.Safety.{Valid, AllValid, Good, Prefix, answer-Valid}

-- The fields that the invariant does not look at.
pub touched :
    {source : ℕ → List ℕ} {s : Preceiver} {snd ack : Cells} (channel port : ℕ) (to_rit : Address)
    (started timed_out : Bool) (selects : List SelectAnswer) (udp : List UdpAnswer)
    → Inv source s snd ack
    → Inv source
        (record s {
          channel = channel;
          to_rit_port = port;
          to_rit = to_rit;
          started = started;
          timed_out = timed_out;
          selects = selects;
          udp = udp;
        })
        snd
        ack
touched channel port to_rit started timed_out selects udp inv = record {
  sound = inv.sound;
  sending = inv.sending;
  acking = inv.acking;
  apart = inv.apart;
  ascending = inv.ascending;
  waiting = inv.waiting;
  sourced = inv.sourced;
  count = inv.count;
  next = inv.next;
  stream = inv.stream;
}

-- The new node is freed again.
dropped :
    {source : ℕ → List ℕ} {s : Preceiver} {snd ack : Cells} {g : Memory}
    → Inv source s snd ack
    → New s.memory g s.memory.fresh
    → Inv source (record s { memory = released g s.memory.fresh }) snd ack
dropped {s} inv new = record {
  sound = released-IsSound s.memory.fresh new.sound;
  sending = released-IsList s.memory.fresh (sending inv new) (out_snd inv new);
  acking = released-IsList s.memory.fresh (acking inv new) (out_ack inv new);
  apart = inv.apart;
  ascending = inv.ascending;
  waiting = inv.waiting;
  sourced = inv.sourced;
  count = inv.count;
  next = inv.next;
  stream = inv.stream;
}

at_least_or_less : (a b : ℕ) → (a ≤ b) ⊎ (b < a)
at_least_or_less a b = ground arith

module _ {source : ℕ → List ℕ} {m : ℤ} {n : ℕ} {s : Preceiver} (g : Good source m (suc n) s) where
  room : s.memory.fresh < s.memory.limit
  room = omega (arith, g.room)

  rest : AllValid source (recv_rest 100 s.udp)
  rest = (answer-Valid source 100 s.udp g.valid).1

  stopped : Prefix source s
  stopped = (g.inv.count, g.inv.stream)

  -- What the theorems on a body packet leave.
  arrived :
      {snd ack : Cells} {t : Preceiver}
      → Inv source t snd ack
      → Grown s.memory t.memory
      → t ≡ record s { memory = t.memory; udp = recv_rest 100 s.udp }
      → Good source m n t
  arrived {snd} {ack} inv grown same = record {
    snd = snd;
    ack = ack;
    inv = inv;
    room = omega (arith, g.room, grown);
    valid = subst (AllValid source) (sym (ap Preceiver.udp same)) rest;
    whole = ap Preceiver.tcp same ∙ g.whole;
    bound = ap Preceiver.max_packets same ∙ g.bound;
  }

  on_old :
      (k : Pkt)
      → recv_answer 100 s.udp ≡ packet k
      → k.type ≡ body_type
      → ntohl k.id < s.last_sent_id
      → Run (Good source m n) (Prefix source) (receive_from_psender s)
  on_old k e body lt =
      Returns-Run (receive_from_psender-old g.inv room e body lt)
        (λ _ t (inv, grown, same, kept). arrived inv grown same)

  on_chunk :
      (k : Pkt)
      → recv_answer 100 s.udp ≡ packet k
      → k.type ≡ body_type
      → IsChunk source k
      → Run (Good source m n) (Prefix source) (receive_from_psender s)
  on_chunk k e body chunk = elim (at_least_or_less s.last_sent_id (ntohl k.id)) [
    | inl le ↦
        Returns-Run (receive_from_psender-new g.inv room e body chunk le)
          (λ _ t (inv, grown, same). arrived inv grown same)
    | inr lt ↦ on_old k e body lt
  ]

  on_report :
      (k : Pkt)
      → recv_answer 100 s.udp ≡ packet k
      → (k.type == body_type) ≡ false
      → Run (Good source m n) (Prefix source) (receive_from_psender s)
  unfolding on_received switch_port get_socket_address
  on_report k e other =
      let new = filled-New k g.inv.sound in
      rw
        (
          receive-on_received s g.inv.sound room,
          e,
          (blank-New g.inv.sound).live,
          other,
          clear_node-released (filled s.memory k) s.memory.fresh new.live new.ne_null,
        )
        (goes (record {
          snd = g.snd;
          ack = g.ack;
          inv = touched _ _ _ _ _ _ _ (dropped g.inv new);
          room = omega (arith, g.room);
          valid = rest;
          whole = g.whole;
          bound = g.bound;
        }))

  on_nothing :
      recv_answer 100 s.udp ≡ nothing
      → Run (Good source m n) (Prefix source) (receive_from_psender s)
  unfolding on_received
  on_nothing e =
      let new = blank-New g.inv.sound in
      rw
        (
          receive-on_received s g.inv.sound room,
          e,
          clear_node-released (blank s.memory) s.memory.fresh new.live new.ne_null,
        )
        (goes (record {
          snd = g.snd;
          ack = g.ack;
          inv = touched _ _ _ _ _ _ _ (dropped g.inv new);
          room = omega (arith, g.room);
          valid = rest;
          whole = g.whole;
          bound = g.bound;
        }))

  on_interrupted :
      recv_answer 100 s.udp ≡ UdpAnswer.interrupted
      → Run (Good source m n) (Prefix source) (receive_from_psender s)
  unfolding on_received
  on_interrupted e =
      let new = blank-New g.inv.sound in
      rw
        (
          receive-on_received s g.inv.sound room,
          e,
          clear_node-released (blank s.memory) s.memory.fresh new.live new.ne_null,
        )
        (stops stopped)

  on_failed :
      recv_answer 100 s.udp ≡ UdpAnswer.failed
      → Run (Good source m n) (Prefix source) (receive_from_psender s)
  unfolding on_received
  on_failed e =
      let new = blank-New g.inv.sound in
      rw
        (
          receive-on_received s g.inv.sound room,
          e,
          clear_node-released (blank s.memory) s.memory.fresh new.live new.ne_null,
        )
        (stops stopped)

  by_answer :
      (a : UdpAnswer)
      → recv_answer 100 s.udp ≡ a
      → Valid source a
      → Run (Good source m n) (Prefix source) (receive_from_psender s)
  by_answer (packet k) e valid = elim (Bool-cases (k.type == body_type)) [
    | inr other ↦ on_report k e other
    | inl body ↦
        let type : k.type ≡ body_type = ground arith in
        elim (valid type) [
          | inl zero_id ↦ on_old k e type (omega (arith, zero_id, g.inv.next))
          | inr chunk ↦ on_chunk k e type chunk
        ]
  ]
  by_answer UdpAnswer.interrupted e valid = on_interrupted e
  by_answer nothing e valid = on_nothing e
  by_answer UdpAnswer.failed e valid = on_failed e

  pub receive_from_psender-Run : Run (Good source m n) (Prefix source) (receive_from_psender s)
  receive_from_psender-Run =
      by_answer (recv_answer 100 s.udp) refl (answer-Valid source 100 s.udp g.valid).0
