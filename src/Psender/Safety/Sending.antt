-- ===== src/Psender/Safety/Sending.antt =====
-- `sendPacket` and the walk with it, whatever `sendto` answers.
use gproxy.Common.{
  ℕ, ◌^◌, ◌<◌, ◌≡◌, refl, ap, sym, ◌∙◌, ◌⊎◌, inl, inr, ◌||◌, List, [], ◌∷◌, ◌++◌, ◌==◌, some, arith,
}
use mathlib.Core.Path.{subst}
use mathlib.Core.List.{append_assoc}
use gproxy.Common.Outcome.{ok, halt}
use gproxy.Common.Outcome.Run.{Run, Run-mono, goes, stops}
use gproxy.Source.{Carried}
use gproxy.Wire.{htonl, ntohl}
use gproxy.Wire.Ack.{ntohl-htonl}
use gproxy.PacketList.{for_each}
use gproxy.PacketList.Heap.{Memory, update}
use gproxy.PacketList.Spec.{Cell, Cells, Node, Owned}
use gproxy.PacketList.Owned.{Owned-append}
use gproxy.PacketList.Order.{All}
use gproxy.PacketList.ForEach.{Trail, Trail-append, IsList-Trail, for_each-Run}
use gproxy.Psender.{Psender, Datagram, SendAnswer, taken, again, refused, send_loop, send_packet}
use gproxy.Psender.Receive.{Holds}
use gproxy.Psender.Send.{datagram, htonl-zero, packet-restored}
use gproxy.Psender.Stream.{source_of}
use gproxy.Psender.Safety.{IsSendable, AllCarried, AllCarried-append, Good, Sound}

-- How the loop around `sendto` ends: the datagram is sent, or the process exits.
record Fate (script : List SendAnswer) : Type 0 where
  left : List SendAnswer
  result :
      ((d : Datagram) (s : Psender)
        → send_loop script d s ≡ ok tt (record s { sends = left; sent = s.sent ++ d ∷ [] }))
      ⊎ ((d : Datagram) (s : Psender) → send_loop script d s ≡ halt 1 (record s { sends = left }))

fate : (script : List SendAnswer) → Fate script
unfolding send_loop
fate [] = record { left = []; result = inl (λ d s. refl) }
fate (taken ∷ rest) = record { left = rest; result = inl (λ d s. refl) }
fate (again ∷ rest) = let f = fate rest in record { left = f.left; result = f.result }
fate (refused ∷ rest) = record { left = rest; result = inr (λ d s. refl) }

-- the state after a node has been sent
abbrev sent_state : Psender → Cell → List SendAnswer → Psender
sent_state s c script = record s {
  sends = script;
  sent = s.sent ++ datagram s c ∷ [];
  finalize = s.finalize || (c.packet.id == 0);
}

send_packet-Run :
    {P Q : Psender → Type 0} (s : Psender) (c : Cell)
    → Node s.memory c
    → c.packet.id < 2 ^ 32
    → ((script : List SendAnswer) → P (sent_state s c script))
    → ((script : List SendAnswer) (h : Memory) → Q (record s { sends = script; memory = h }))
    → Run P Q (send_packet c.at s)
unfolding send_packet
send_packet-Run {P} {Q} s c n lt goes_on stopped =
    let f = fate s.sends in
    let swapped = record c.packet { id = htonl c.packet.id } in
    let written = record s.memory { packet = update s.memory.packet c.at (some swapped) } in
    elim f.result [
      | inl done ↦
          let e : send_packet c.at s ≡ ok tt (sent_state s c f.left) = ground (
            arith,
            done (datagram s c) (record s { memory = written }),
            htonl-zero c.packet.id lt,
            ntohl-htonl c.packet.id lt,
            packet-restored s.memory c.at c.packet swapped n.packet,
          ) in
          rw e (goes (goes_on f.left))
      | inr refuses ↦
          let e : send_packet c.at s ≡ halt 1 (record s { sends = f.left; memory = written }) =
            ground (arith, refuses (datagram s c) (record s { memory = written })) in
          rw e (stops (stopped f.left written))
    ]

-- The datagram of a sendable node is the end or a chunk.
datagram-Carried :
    (source : ℕ → List ℕ) (s : Psender) (c : Cell)
    → IsSendable source c
    → Carried source (datagram s c).packet
datagram-Carried source s c (lt, kind) e =
    let back : ntohl (htonl c.packet.id) ≡ c.packet.id = (ntohl-htonl c.packet.id lt).0 in
    elim kind [
      | inl zero_id ↦ inl (back ∙ zero_id)
      | inr (chunk, filled, small) ↦ inr (record {
        chunk = chunk ∙ sym (ap source back);
        filled = filled;
        small = omega (arith, back, small);
      })
    ]

-- `u` after a send from `t`
abbrev sent_to : Cell → List SendAnswer → (t u : Psender) → Psender
sent_to c script t u = record u {
  sends = script;
  sent = t.sent ++ datagram t c ∷ [];
  finalize = t.finalize || (c.packet.id == 0);
}

-- What holds in the walk with `rest` still to be sent.
record Walk (source : ℕ → List ℕ) (s : Psender) (cs rest : Cells) (t : Psender) : Type 0 where
  done : Cells
  split : done ++ rest ≡ cs
  state : t ≡ record s { sends = t.sends; sent = t.sent; finalize = t.finalize }
  sent : AllCarried source t.sent

All-behind : (P : Cell → Type 0) (xs ys : Cells) → All P (xs ++ ys) → All P ys
All-behind P [] ys a = a
All-behind P (x ∷ xs) ys a = All-behind P xs ys a.1

module _ (source : ℕ → List ℕ) (s : Psender) {cs : Cells} (holds : Holds s cs)
    (sendable : All (IsSendable source) cs) where
  Walk-Trail :
      (rest : Cells) (t : Psender) → Walk source s cs rest t → Trail t.memory s.to_send rest
  Walk-Trail rest t w =
      subst (λ h. Trail h s.to_send rest) (sym (ap Psender.memory w.state))
        (Trail-append s.memory s.to_send w.done rest
          (subst (Trail s.memory s.to_send) (sym w.split) (IsList-Trail holds.list).1))

  Walk-step :
      (c : Cell) (rest : Cells) (t : Psender)
      → Walk source s cs (c ∷ rest) t
      → Run (Walk source s cs rest) (λ u. AllCarried source u.sent) (send_packet c.at t)
  Walk-step c rest t w =
      let owned =
        Owned-append s.memory s.to_send w.done (c ∷ rest)
          (subst (Owned s.memory s.to_send) (sym w.split) holds.list.owned) in
      let good =
        (All-behind (IsSendable source) w.done (c ∷ rest)
          (subst (All (IsSendable source)) (sym w.split) sendable)).0 in
      send_packet-Run t c (subst (λ h. Node h c) (sym (ap Psender.memory w.state)) owned.1.0) good.0
        (λ script. record {
          done = w.done ++ c ∷ [];
          split = append_assoc w.done (c ∷ []) rest ∙ w.split;
          state = ap (sent_to c script t) w.state;
          sent =
              AllCarried-append source t.sent (datagram t c) w.sent
                (datagram-Carried source t c good);
        })
        (λ script h. w.sent)

-- The walk of the main loop sends nothing but the end and the chunks.
pub sending-Run :
    {chunks : List (List ℕ)} {s : Psender}
    → Good chunks s
    → Run
        (Good chunks)
        (Sound chunks)
        (for_each Psender.memory s.to_send send_packet s.max_packets s)
sending-Run {chunks} {s} good =
    Run-mono
      (for_each-Run Psender.memory s.to_send send_packet (Walk (source_of chunks) s good.cells)
        (Sound chunks) (Walk-Trail (source_of chunks) s good.holds good.sendable)
        (Walk-step (source_of chunks) s good.holds good.sendable) good.cells s.max_packets s
        good.holds.list (record { done = []; split = refl; state = refl; sent = good.sent }))
      λ t w. subst (Good chunks) (sym w.state) (record {
        cells = good.cells;
        holds = record { sound = good.holds.sound; list = good.holds.list };
        sendable = good.sendable;
        room = good.room;
        fit = good.fit;
        reading = elim good.reading [
          | inl over ↦ inl over
          | inr r ↦ inr (record { done = r.done; split = r.split; next = r.next })
        ];
        few = good.few;
        sent = w.sent;
        behind = good.behind;
      })
