-- ===== src/Preceiver/Safety/Rounds.antt =====
-- The rounds of the main loop.
use gproxy.Common.{
  ◌≡◌, refl, ◌+◌, [], List, ℕ, zero, suc, ◌*◌, ◌≤◌, sym, ap, ◌∙◌, Bool, true, false, ◌∷◌, arith,
}
use mathlib.Core.Path.{subst}
use gproxy.Common.Int.{ℤ, pos_part}
use gproxy.Common.Outcome.{ok, and_then, when}
use gproxy.Common.Outcome.Run.{Run-mono, Run, goes, stops, waits, chain, Returns-Run}
use gproxy.PacketList.Heap.{Ptr}
use gproxy.Preceiver.{Preceiver, SelectAnswer, ready, timeout, terminate}
use gproxy.Preceiver.Main.{receive_loop, wait_select, on_select, finished, main_round, main_loop}
use gproxy.PacketList.{for_each}
use gproxy.Preceiver.{send_to_receiver, ack_packet}
use gproxy.Preceiver.Deliver.{for_each-send_to_receiver}
use gproxy.Preceiver.Acks.{for_each-ack_packet}
use gproxy.Preceiver.Safety.{AllValid, Good, Prefix}
use gproxy.PacketList.Spec.{Cells}
use gproxy.Preceiver.Stream.{Inv}
use gproxy.Preceiver.Safety.Arrival.{touched, receive_from_psender-Run}

Good-less :
    {source : ℕ → List ℕ} {m : ℤ} {k : ℕ} {s : Preceiver} (n : ℕ)
    → n ≤ k
    → Good source m k s
    → Good source m n s
Good-less n le g = record {
  snd = g.snd;
  ack = g.ack;
  inv = g.inv;
  room = omega (arith, g.room);
  valid = g.valid;
  whole = g.whole;
  bound = g.bound;
}

Good-Prefix :
    {source : ℕ → List ℕ} {m : ℤ} {n : ℕ} {s : Preceiver} → Good source m n s → Prefix source s
Good-Prefix g = (g.inv.count, g.inv.stream)

-- `select`'s answers, and the flags of the profiling.
Good-touched :
    {source : ℕ → List ℕ} {m : ℤ} {n : ℕ} {s : Preceiver} (started timed_out : Bool)
    (selects : List SelectAnswer)
    → Good source m n s
    → Good source m n (record s { started = started; timed_out = timed_out; selects = selects })
Good-touched started timed_out selects g = record {
  snd = g.snd;
  ack = g.ack;
  inv = touched _ _ _ started timed_out selects _ g.inv;
  room = g.room;
  valid = g.valid;
  whole = g.whole;
  bound = g.bound;
}

next_round : (rounds window : ℕ) → window + rounds * window ≤ suc rounds * window
next_round rounds window = omega arith

module _ {source : ℕ → List ℕ} {m : ℤ} where
  receive_loop-Run :
      (rounds n : ℕ) {s : Preceiver}
      → Good source m (rounds + n) s
      → Run (Good source m n) (Prefix source) (receive_loop rounds s)
  unfolding receive_loop
  receive_loop-Run zero n g = goes (Good-less n (omega arith) g)
  receive_loop-Run (suc rounds) n g =
      chain (receive_from_psender-Run (Good-less (suc (rounds + n)) (omega arith) g))
        (λ _ t g'. receive_loop-Run rounds n g')

  on_ready :
      (n : ℕ) (watched : Bool) {s : Preceiver}
      → Good source m (pos_part m + n) s
      → Run
          (Good source m n)
          (Prefix source)
          (when watched (receive_loop (pos_part s.max_packets)) s)
  on_ready n true {s} g =
      subst (λ k. Run (Good source m n) (Prefix source) (receive_loop (pos_part k) s)) (sym g.bound)
        (receive_loop-Run (pos_part m) n g)
  on_ready n false g = goes (Good-less n (omega arith) g)

  on_select-Run :
      (n : ℕ) (a : SelectAnswer) {s : Preceiver}
      → Good source m (pos_part m + n) s
      → Run (Good source m n) (Prefix source) (on_select a s)
  unfolding on_select
  on_select-Run n SelectAnswer.failed g = stops (Good-Prefix g)
  on_select-Run n SelectAnswer.interrupted g = goes (Good-less n (omega arith) g)
  on_select-Run n timeout {s} g =
      goes (Good-touched s.started true s.selects (Good-less n (omega arith) g))
  on_select-Run n ready {s} g =
      on_ready n (s.can_read s.ritardatore) (Good-touched true s.timed_out s.selects g)

  wait_and_select :
      (n : ℕ) {s : Preceiver} (script : List SelectAnswer)
      → s.selects ≡ script
      → Good source m (pos_part m + n) s
      → Run (Good source m n) (Prefix source) (and_then (wait_select s) on_select)
  unfolding wait_select
  wait_and_select n [] e g = rw e (waits (Good-Prefix g))
  wait_and_select n {s} (a ∷ rest) e g =
      rw e (on_select-Run n a (Good-touched s.started s.timed_out rest g))

  -- The walk over the packets to send keeps the heads and the window as well.
  after_sends :
      (n : ℕ) {s : Preceiver}
      → Good source m n s
      → Run
          (λ t. Good source m n t × (t.to_ack ≡ s.to_ack) × (t.max_packets ≡ s.max_packets))
          (Prefix source)
          (for_each Preceiver.memory s.to_send send_to_receiver s.max_packets s)
  after_sends n g =
      Returns-Run (for_each-send_to_receiver g.inv g.whole)
        (λ _ t (kept, ack', inv, later, same_room, same). (
          record {
            snd = _;
            ack = ack';
            inv = inv;
            room = omega (arith, g.room, same_room);
            valid = subst (AllValid source) (sym (ap Preceiver.udp same)) g.valid;
            whole = ap Preceiver.tcp same ∙ g.whole;
            bound = ap Preceiver.max_packets same ∙ g.bound;
          },
          ap Preceiver.to_ack same,
          ap Preceiver.max_packets same,
        ))

  after_acks :
      (n : ℕ) {s : Preceiver}
      → Good source m n s
      → Run
          (Good source m n)
          (Prefix source)
          (for_each Preceiver.memory s.to_ack ack_packet s.max_packets s)
  after_acks n g =
      Returns-Run (for_each-ack_packet g.inv) (λ _ t (done, split, inv, same_room, same). record {
        snd = _;
        ack = _;
        inv = inv;
        room = omega (arith, g.room, same_room);
        valid = subst (AllValid source) (sym (ap Preceiver.udp same)) g.valid;
        whole = ap Preceiver.tcp same ∙ g.whole;
        bound = ap Preceiver.max_packets same ∙ g.bound;
      })

  acks_and_select :
      (n : ℕ) (hd : Ptr) (bound : ℤ) {t : Preceiver}
      → t.to_ack ≡ hd
      → t.max_packets ≡ bound
      → Good source m (pos_part m + n) t
      → Run (Good source m n) (Prefix source) (
          and_then
            (for_each Preceiver.memory hd ack_packet bound t)
            (λ _ u. and_then (wait_select u) on_select))
  acks_and_select n hd bound {t} e e' g =
      chain
        (subst
          (λ p.
            Run (Good source m (pos_part m + n)) (Prefix source)
              (for_each Preceiver.memory p ack_packet bound t))
          e
          (subst
            (λ b.
              Run (Good source m (pos_part m + n)) (Prefix source)
                (for_each Preceiver.memory t.to_ack ack_packet b t))
            e' (after_acks _ g)))
        (λ _ u g'. wait_and_select n u.selects refl g')

  finished-result :
      {n : ℕ} {s : Preceiver} → Good source m n s → (over : Bool) × (finished s ≡ ok over s)
  unfolding finished
  finished-result g = rw (g.inv.sending.head_live, g.inv.acking.head_live) (_, refl)

  by_finished :
      (n : ℕ) (over : Bool) {s : Preceiver}
      → finished s ≡ ok over s
      → Good source m (pos_part m + n) s
      → Run (Good source m n) (Prefix source) (main_round s)
  unfolding main_round terminate
  by_finished n true e g = rw e (stops (Good-Prefix g))
  by_finished n false {s} e g = rw e (
      chain (after_sends _ g)
        (λ _ t (g', heads, bounds). acks_and_select n s.to_ack s.max_packets heads bounds g'))

  main_round-Run :
      (n : ℕ) {s : Preceiver}
      → Good source m (pos_part m + n) s
      → Run (Good source m n) (Prefix source) (main_round s)
  main_round-Run n g = let (over, e) = finished-result g in by_finished n over e g

  rounds-Run :
      (rounds : ℕ) {s : Preceiver}
      → Good source m (rounds * pos_part m) s
      → Run (Good source m 0) (Prefix source) (main_loop rounds s)
  unfolding main_loop
  rounds-Run zero g = goes (Good-less 0 (omega arith) g)
  rounds-Run (suc rounds) g =
      chain (main_round-Run (rounds * pos_part m) (Good-less _ (next_round rounds (pos_part m)) g))
        (λ _ t g'. rounds-Run rounds g')

-- From a state that the invariant of the delivery describes, with a network that brings only the
-- end's packet and the source's chunks, but in any order, repeated, late or never, with a
-- receiver's socket that takes every byte, and with memory for the nodes of so many rounds: the
-- rounds of the main loop end, exit or wait in `select`, without fault and with fuel left, and what
-- the receiver has got by then is the beginning of the stream, in order and without gap or
-- repetition.
pub main_loop-Prefix :
    {source : ℕ → List ℕ} (rounds : ℕ) {s : Preceiver} {snd ack : Cells}
    → Inv source s snd ack
    → AllValid source s.udp
    → s.tcp ≡ []
    → s.memory.fresh + rounds * pos_part s.max_packets ≤ s.memory.limit
    → Run (Prefix source) (Prefix source) (main_loop rounds s)
main_loop-Prefix rounds {s} {snd} {ack} inv valid whole room =
    Run-mono
      (rounds-Run rounds (record {
        snd = snd;
        ack = ack;
        inv = inv;
        room = room;
        valid = valid;
        whole = whole;
        bound = refl;
      }))
      (λ _ g. Good-Prefix g)
