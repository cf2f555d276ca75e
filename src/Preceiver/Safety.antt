-- ===== src/Preceiver/Safety.antt =====
-- src/preceiver.c, any number of rounds of the main loop against any behaviour of the network.
pub mod Arrival
pub mod Rounds
use gproxy.Common.{
  ℕ, zero, suc, ◌+◌, ◌*◌, ◌≤◌, ◌<◌, ◌≡◌, ◌≢◌, refl, sym, ap, ◌∙◌, ◌⊎◌, inl, inr, Bool, true, false,
  ◌&&◌, List, [], ◌∷◌, ◌++◌, ◌==◌, leb, arith, Bool-cases,
}
use mathlib.Core.Path.{subst}
use gproxy.Common.Int.{ℤ, pos, pos_part, is_zero}
use gproxy.Common.Outcome.{Outcome, ok, halt}
use gproxy.Common.Outcome.Returns.{Returns, returns}
use gproxy.Common.Outcome.Run.{Run, goes, stops, waits, chain, Returns-Run}
use gproxy.Wire.{body_type, ntohl, Address, get_socket_address}
use gproxy.Source.{delivered, Carried}
use gproxy.PacketList.Heap.{Pkt, Memory}
use gproxy.PacketList.Spec.{Cells, SameRoom, Grown}
use gproxy.PacketList.ForEach.{unscanned}
use gproxy.PacketList.Alloc.{New, clear_node-released, released, released-IsSound, released-IsList}
use gproxy.Preceiver.{
  Preceiver, UdpAnswer, packet, nothing, SelectAnswer, ready, timeout, on_received,
  receive_from_psender, switch_port, terminate,
}
use gproxy.Preceiver.Main.{receive_loop, wait_select, on_select, finished, main_round, main_loop}
use gproxy.Preceiver.Deliver.{for_each-send_to_receiver}
use gproxy.Preceiver.Stream.{Inv}
use gproxy.Preceiver.Acks.{for_each-ack_packet}
use gproxy.Preceiver.Receive.{receive_from_psender-new, receive_from_psender-old}
use gproxy.Preceiver.Incoming.{
  recv_answer, recv_rest, receive-on_received, blank, filled, blank-New, filled-New, out_snd,
  out_ack, sending, acking,
}

-- what the network may bring: a body packet is the end, with id 0, or a chunk of the source
abbrev pub Valid : (ℕ → List ℕ) → UdpAnswer → Type 0
Valid source (packet k) = Carried source k
Valid source UdpAnswer.interrupted = Unit
Valid source nothing = Unit
Valid source UdpAnswer.failed = Unit

abbrev pub AllValid : (ℕ → List ℕ) → List UdpAnswer → Type 0
AllValid source [] = Unit
AllValid source (a ∷ later) = Valid source a × AllValid source later

-- The state between two operations, with memory for `n` more nodes and the window `m`.
pub record Good (source : ℕ → List ℕ) (m : ℤ) (n : ℕ) (s : Preceiver) : Type 0 where
  pub snd : Cells
  pub ack : Cells
  pub inv : Inv source s snd ack
  pub room : s.memory.fresh + n ≤ s.memory.limit
  pub valid : AllValid source s.udp
  pub whole : s.tcp ≡ []
  pub bound : s.max_packets ≡ m

-- what the receiver has got is the source's chunks up to some id
abbrev pub Prefix : (ℕ → List ℕ) → Preceiver → Type 0
Prefix source s = (count : ℕ) × (s.stream ≡ delivered source count)

pub answer-Valid :
    (source : ℕ → List ℕ) (tries : ℕ) (script : List UdpAnswer)
    → AllValid source script
    → Valid source (recv_answer tries script) × AllValid source (recv_rest tries script)
unfolding recv_answer recv_rest
answer-Valid source zero script v = (tt, v)
answer-Valid source (suc tries) [] v = (tt, tt)
answer-Valid source (suc tries) (packet k ∷ rest) v = v
answer-Valid source (suc tries) (UdpAnswer.interrupted ∷ rest) v = v
answer-Valid source (suc zero) (nothing ∷ rest) v = v
answer-Valid source (suc zero) (UdpAnswer.failed ∷ rest) v = v
answer-Valid source (suc (suc tries)) (nothing ∷ rest) v = answer-Valid source (suc tries) rest v.1
answer-Valid source (suc (suc tries)) (UdpAnswer.failed ∷ rest) v =
    answer-Valid source (suc tries) rest v.1
