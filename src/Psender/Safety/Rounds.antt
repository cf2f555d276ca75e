-- ===== src/Psender/Safety/Rounds.antt =====
-- The rounds of the main loop, and what the psender has sent by then.
use gproxy.Common.{
  ℕ, zero, suc, ◌+◌, ◌^◌, ◌≤◌, ◌<◌, ◌≡◌, ◌≢◌, refl, ap, sym, ◌∙◌, ◌⊎◌, inl, inr, Bool, true, false,
  ◌&&◌, List, [], ◌∷◌, ◌++◌, ◌==◌, length, arith, Bool-cases,
}
use mathlib.Core.Path.{subst}
use gproxy.Common.Int.{pos_part}
use gproxy.Common.Outcome.{and_then, when, Cmd}
use gproxy.Common.Outcome.Run.{Run, Run-mono, goes, stops, waits, chain, Returns-Run}
use gproxy.Wire.{acked_id, body_type}
use gproxy.PacketList.Heap.{Pkt}
use gproxy.PacketList.Spec.{Cell, Cells, IsList}
use gproxy.PacketList.Order.{All}
use gproxy.PacketList.Search.{erase}
use gproxy.Psender.{
  Psender, UdpAnswer, packet, nothing, over_written, SelectAnswer, ready, timeout, on_udp,
  check_ritardatore, terminate,
}
use gproxy.Psender.Main.{ack_loop, wait_select, on_select, end_if_done, main_round, main_loop}
use gproxy.Psender.Receive.{Holds}
use gproxy.Psender.Acks.{check_ritardatore-body, check_ritardatore-switch}
use gproxy.Psender.Stream.{reads, source_of, AllFit}
use gproxy.PacketList.Alloc.{IsSound}
use gproxy.Psender.Safety.{AllCarried, IsReading, Good, Sound}
use gproxy.Psender.Safety.Filling.{fill-Run}
use gproxy.Psender.Safety.Sending.{sending-Run}

All-erase : (P : Cell → Type 0) (id : ℕ) (cs : Cells) → All P cs → All P (erase id cs)
unfolding erase
All-erase P id [] a = tt
All-erase P id (c ∷ cs) a = elim (Bool-cases (c.packet.id == id)) [
  | inl same ↦ rw same a.1
  | inr ne ↦ rw ne (a.0, All-erase P id cs a.1)
]

-- Nothing of the state that the reading depends on has changed.
module _ {chunks : List (List ℕ)} {s : Psender} (good : Good chunks s) where
  same-IsReading :
      (t : Psender)
      → t.tcp ≡ s.tcp
      → t.current_id ≡ s.current_id
      → t.ending_read ≡ s.ending_read
      → (t.ending_read ≡ true) ⊎ IsReading chunks t
  same-IsReading t tcp id over = elim good.reading [
    | inl e ↦ inl (over ∙ e)
    | inr r ↦ inr (record {
      done = r.done;
      split = ap (λ l. r.done ++ reads l) tcp ∙ r.split;
      next = id ∙ r.next;
    })
  ]

  acked :
      {k : Pkt} {rest : List UdpAnswer}
      → s.udp ≡ packet k ∷ rest
      → k.type ≡ body_type
      → Run (Good chunks) (Sound chunks) (check_ritardatore s)
  acked {k} {rest} e body =
      Returns-Run (check_ritardatore-body good.holds e body) λ _ t (held, gone, room, same).
        subst (Good chunks) (sym same) (record {
          cells = erase (acked_id (over_written k.body s.current_ack)) good.cells;
          holds = record {
            sound = held.sound;
            list =
                subst
                  (λ p.
                    IsList t.memory p
                      (erase (acked_id (over_written k.body s.current_ack)) good.cells))
                  (ap Psender.to_send same) held.list;
          };
          sendable =
              All-erase _ (acked_id (over_written k.body s.current_ack)) good.cells good.sendable;
          room = omega (arith, room.0, room.1, good.room);
          fit = good.fit;
          reading = same-IsReading _ refl refl refl;
          few = good.few;
          sent = good.sent;
          behind = good.behind;
        })

  -- A change of the port, and an answer passed over, leave all that the invariant speaks of.
  passed :
      (t : Psender)
      → t.memory ≡ s.memory
      → t.to_send ≡ s.to_send
      → t.tcp ≡ s.tcp
      → t.current_id ≡ s.current_id
      → t.ending_read ≡ s.ending_read
      → t.sent ≡ s.sent
      → t.behind_ending ≡ s.behind_ending
      → Good chunks t
  passed t memory hd tcp id over sent behind = record {
    cells = good.cells;
    holds = record {
      sound = subst IsSound (sym memory) good.holds.sound;
      list =
          subst (λ p. IsList t.memory p good.cells) (sym hd)
            (subst (λ h. IsList h s.to_send good.cells) (sym memory) good.holds.list);
    };
    sendable = good.sendable;
    room =
        omega (arith, ap (λ h. h.fresh) memory, ap (λ h. h.limit) memory, ap length tcp, good.room);
    fit = subst AllFit (sym tcp) good.fit;
    reading = same-IsReading t tcp id over;
    few = good.few;
    sent = subst (AllCarried (source_of chunks)) (sym sent) good.sent;
    behind = subst (λ (l : List ℕ). 5 ≤ length l) (sym behind) good.behind;
  }

  check_by_answer :
      (script : List UdpAnswer)
      → s.udp ≡ script
      → Run (Good chunks) (Sound chunks) (check_ritardatore s)
  unfolding check_ritardatore on_udp
  check_by_answer [] e = rw e (goes (passed _ refl refl refl refl refl refl refl))
  check_by_answer (nothing ∷ rest) e = rw e (goes (passed _ refl refl refl refl refl refl refl))
  check_by_answer (UdpAnswer.failed ∷ rest) e = rw e (stops good.sent)
  check_by_answer (packet k ∷ rest) e = elim (Bool-cases (k.type == body_type)) [
    | inl body ↦ acked e (ground arith)
    | inr other ↦
        let ne : k.type ≢ body_type = ground arith in
        rw (check_ritardatore-switch s e ne) (goes (passed _ refl refl refl refl refl refl refl))
  ]

-- One look at the ritardatore's socket.
check_ritardatore-Run :
    {chunks : List (List ℕ)} {s : Psender}
    → Good chunks s
    → Run (Good chunks) (Sound chunks) (check_ritardatore s)
check_ritardatore-Run {s} good = check_by_answer good s.udp refl

ack_loop-Run :
    (rounds : ℕ) {chunks : List (List ℕ)} {s : Psender}
    → Good chunks s
    → Run (Good chunks) (Sound chunks) (ack_loop rounds s)
unfolding ack_loop
ack_loop-Run zero good = goes good
ack_loop-Run (suc rounds) good =
    chain (check_ritardatore-Run good) (λ _ t good'. ack_loop-Run rounds good')

-- `if (b) m`
when-Run :
    {P Q : Psender → Type 0} (b : Bool) {m : Cmd Psender (Unit {0})}
    → ((s : Psender) → P s → Run P Q (m s))
    → (s : Psender) → P s
    → Run P Q (when b m s)
when-Run true run s p = run s p
when-Run false run s p = goes p

terminate-Run :
    {chunks : List (List ℕ)} {s : Psender}
    → Good chunks s
    → Run (Good chunks) (Sound chunks) (terminate {A = Unit {0}} s)
unfolding terminate
terminate-Run good = stops good.sent

end_if_done-Run :
    {chunks : List (List ℕ)} {s : Psender}
    → Good chunks s
    → Run (Good chunks) (Sound chunks) (end_if_done s)
unfolding end_if_done
end_if_done-Run {s} good = rw good.holds.list.head_live (when-Run _ (λ _ g. terminate-Run g) s good)

on_select-Run :
    (answer : SelectAnswer) {chunks : List (List ℕ)} {s : Psender}
    → Good chunks s
    → Run (Good chunks) (Sound chunks) (on_select answer s)
unfolding on_select
on_select-Run SelectAnswer.failed good = stops good.sent
on_select-Run timeout good = terminate-Run good
on_select-Run (ready from_sender from_ritardatore) {s} good =
    chain (when-Run (s.can_read s.connected_sender && from_sender) (λ _ g. fill-Run g) s good)
      λ _ t g.
        chain
          (when-Run (t.can_read t.ritardatore && from_ritardatore)
            (λ _ g'. ack_loop-Run (pos_part t.max_packets) g') t g)
          λ _ u g'. end_if_done-Run g'

wait_and_select :
    (script : List SelectAnswer) {chunks : List (List ℕ)} {s : Psender}
    → s.selects ≡ script
    → Good chunks s
    → Run (Good chunks) (Sound chunks) (and_then (wait_select s) on_select)
unfolding wait_select
wait_and_select [] e good = rw e (waits good.sent)
wait_and_select (a ∷ rest) e good =
    rw e (on_select-Run a (passed good _ refl refl refl refl refl refl refl))

main_round-Run :
    {chunks : List (List ℕ)} {s : Psender}
    → Good chunks s
    → Run (Good chunks) (Sound chunks) (main_round s)
unfolding main_round
main_round-Run good = chain (sending-Run good) (λ _ t g. wait_and_select t.selects refl g)

rounds-Run :
    (rounds : ℕ) {chunks : List (List ℕ)} {s : Psender}
    → Good chunks s
    → Run (Good chunks) (Sound chunks) (main_loop rounds s)
unfolding main_loop
rounds-Run zero good = goes good
rounds-Run (suc rounds) good = chain (main_round-Run good) (λ _ t g. rounds-Run rounds g)

-- From an empty list, the id 1 and nothing sent, with reads that each bring something and leave the
-- header's size free in a packet, fewer of them than ids, and memory for a node each: the rounds
-- of the main loop end, exit or wait, without fault and with fuel left, whatever the sends, the
-- acks and `select` answer, and every datagram sent by then is the end's or the n-th chunk, whole,
-- under the id n.
pub main_loop-AllCarried :
    (rounds : ℕ) {s : Psender}
    → Holds s []
    → s.memory.fresh + length s.tcp ≤ s.memory.limit
    → AllFit s.tcp
    → s.current_id ≡ 1
    → length (reads s.tcp) + 1 < 2 ^ 32
    → s.sent ≡ []
    → 5 ≤ length s.behind_ending
    → Run (Sound (reads s.tcp)) (Sound (reads s.tcp)) (main_loop rounds s)
main_loop-AllCarried rounds {s} holds room fit first few none_yet behind =
    Run-mono
      (rounds-Run rounds (record {
        cells = [];
        holds = holds;
        sendable = tt;
        room = room;
        fit = fit;
        reading = inr (record { done = []; split = refl; next = first });
        few = few;
        sent = subst (AllCarried (source_of (reads s.tcp))) (sym none_yet) tt;
        behind = behind;
      }))
      (λ _ g. g.sent)
