-- ===== src/Psender/Send.antt =====
-- `sendPacket`, and the walk of the main loop over the list with it.
use gproxy.Common.{
  or-false, ℕ, ◌^◌, ◌<◌, ◌≡◌, refl, Bool, ◌||◌, some, List, [], ◌∷◌, ◌++◌, arith, ap, sym, ◌∙◌, map,
  ◌==◌,
}
use mathlib.Core.Path.{fun_ext, subst, ap₂}
use mathlib.Core.List.{append_assoc, map-append, append-nil}
use gproxy.Common.Outcome.{ok, halt}
use gproxy.Common.Outcome.Returns
use gproxy.Common.Outcome.Returns.{Returns, returns}
use gproxy.Wire.{htonl}
use gproxy.Wire.Ack.{ntohl-htonl}
use gproxy.PacketList.{for_each}
use gproxy.PacketList.Heap.{Ptr, Memory, Pkt, update}
use gproxy.PacketList.Spec.{Cell, Cells, Node, Owned}
use gproxy.PacketList.Owned.{Owned-append}
use gproxy.PacketList.Order.{has_id, has_id-append}
use gproxy.PacketList.ForEach.{Trail, Trail-append, IsList-Trail, unscanned, for_each_rule}
use gproxy.Psender.{
  Psender, Datagram, SendAnswer, taken, again, refused, payload, send_loop, send_packet,
}
use gproxy.Psender.Receive.{Holds}

-- what `sendto` gets for a node
abbrev pub datagram : Psender → Cell → Datagram
datagram s c = record {
  to = s.to_rit;
  packet = payload c.size (record c.packet { id = htonl c.packet.id });
}

-- the script holds no error
abbrev pub Accepting : List SendAnswer → Type 0
Accepting [] = Unit {0}
Accepting (taken ∷ rest) = Accepting rest
Accepting (again ∷ rest) = Accepting rest
Accepting (refused ∷ rest) = ⊥

-- the script behind the next send that is done
pub spend : List SendAnswer → List SendAnswer
spend [] = []
spend (taken ∷ rest) = rest
spend (again ∷ rest) = spend rest
spend (refused ∷ rest) = rest

spend-Accepting : (script : List SendAnswer) → Accepting script → Accepting (spend script)
unfolding spend
spend-Accepting [] a = tt
spend-Accepting (taken ∷ rest) a = a
spend-Accepting (again ∷ rest) a = spend-Accepting rest a
spend-Accepting (refused ∷ rest) a = absurd a

send_loop-spend :
    (script : List SendAnswer) (d : Datagram) (s : Psender)
    → Accepting script
    → send_loop script d s ≡ ok tt (record s { sends = spend script; sent = s.sent ++ d ∷ [] })
unfolding send_loop spend
send_loop-spend [] d s a = refl
send_loop-spend (taken ∷ rest) d s a = refl
send_loop-spend (again ∷ rest) d s a = send_loop-spend rest d s a
send_loop-spend (refused ∷ rest) d s a = absurd a

pub htonl-zero : (id : ℕ) → id < 2 ^ 32 → (htonl id == 0) ≡ (id == 0)
unfolding htonl
htonl-zero id lt = ground arith

-- Swapped and swapped back, the packet is what it was.
pub packet-restored :
    (h : Memory) (p : Ptr) (k k' : Pkt)
    → h.packet p ≡ some k
    → update (update h.packet p (some k')) p (some k) ≡ h.packet
packet-restored h p k k' e = fun_ext λ q. ground arith

-- the state after a node has been sent
abbrev pub after_send : Psender → Cell → Psender
after_send s c = record s {
  sends = spend s.sends;
  sent = s.sent ++ datagram s c ∷ [];
  finalize = s.finalize || (c.packet.id == 0);
}

-- `sendPacket` of a node sends one datagram, the id in network order and the payload; it marks the
-- end if the id is 0, and leaves the memory as it was.
pub send_packet-after_send :
    (s : Psender) (c : Cell)
    → Node s.memory c
    → c.packet.id < 2 ^ 32
    → Accepting s.sends
    → send_packet c.at s ≡ ok tt (after_send s c)
unfolding send_packet
send_packet-after_send s c n lt a =
    let swapped = record c.packet { id = htonl c.packet.id } in
    let written = record s.memory { packet = update s.memory.packet c.at (some swapped) } in
    ground (
      arith,
      send_loop-spend s.sends (datagram s c) (record s { memory = written }) a,
      htonl-zero c.packet.id lt,
      ntohl-htonl c.packet.id lt,
      packet-restored s.memory c.at c.packet swapped n.packet,
    )

send_loop-refused :
    (rest : List SendAnswer) (d : Datagram) (s : Psender)
    → send_loop (refused ∷ rest) d s ≡ halt 1 (record s { sends = rest })
unfolding send_loop
send_loop-refused rest d s = refl

-- every id fits a word
abbrev pub Words : Cells → Type 0
Words [] = Unit {0}
Words (c ∷ cs) = (c.packet.id < 2 ^ 32) × Words cs

Words-append : (xs ys : Cells) → Words (xs ++ ys) → Words xs × Words ys
Words-append [] ys w = (tt, w)
Words-append (x ∷ xs) ys w = let (a, b) = Words-append xs ys w.1 in ((w.0, a), b)

-- the state after the nodes have been sent, in order
abbrev pub after_sends : Psender → Cells → List SendAnswer → Psender
after_sends s done script = record s {
  sends = script;
  sent = s.sent ++ map (datagram s) done;
  finalize = s.finalize || has_id 0 done;
}

-- What holds in the walk with `rest` still to be sent.
record Walk (s : Psender) (cs rest : Cells) (t : Psender) : Type 0 where
  done : Cells
  split : done ++ rest ≡ cs
  state : t ≡ after_sends s done t.sends
  accepting : Accepting t.sends

after_sends-step :
    (s : Psender) (done : Cells) (script : List SendAnswer) (c : Cell)
    → after_send (after_sends s done script) c ≡ after_sends s (done ++ c ∷ []) (spend script)
after_sends-step s done script c =
    ap₂
      (λ (l : List Datagram) (b : Bool). record s { sends = spend script; sent = l; finalize = b })
      (append_assoc s.sent (map (datagram s) done) (datagram s c ∷ [])
        ∙ ap (λ l. s.sent ++ l) (sym (map-append (datagram s) done (c ∷ []))))
      (ground (arith, has_id-append 0 done (c ∷ [])))

module _ (s : Psender) {cs : Cells} (holds : Holds s cs) (words : Words cs) where
  Walk-Trail : (rest : Cells) (t : Psender) → Walk s cs rest t → Trail t.memory s.to_send rest
  Walk-Trail rest t w =
      subst (λ h. Trail h s.to_send rest) (sym (ap Psender.memory w.state))
        (Trail-append s.memory s.to_send w.done rest
          (subst (Trail s.memory s.to_send) (sym w.split) (IsList-Trail holds.list).1))

  Walk-step :
      (c : Cell) (rest : Cells) (t : Psender)
      → Walk s cs (c ∷ rest) t
      → Returns (λ _. Walk s cs rest) (send_packet c.at t)
  Walk-step c rest t w =
      let owned =
        Owned-append s.memory s.to_send w.done (c ∷ rest)
          (subst (Owned s.memory s.to_send) (sym w.split) holds.list.owned) in
      let word = Words-append w.done (c ∷ rest) (subst Words (sym w.split) words) in
      rw
        (send_packet-after_send t c
          (subst (λ h. Node h c) (sym (ap Psender.memory w.state)) owned.1.0) word.1.0 w.accepting)
        (returns (record {
          done = w.done ++ c ∷ [];
          split = append_assoc w.done (c ∷ []) rest ∙ w.split;
          state = ap (λ u. after_send u c) w.state ∙ after_sends-step s w.done t.sends c;
          accepting = spend-Accepting t.sends w.accepting;
        }))

  none_sent : s ≡ after_sends s [] s.sends
  none_sent =
      ap₂ (λ (l : List Datagram) (b : Bool). record s { sent = l; finalize = b })
        (sym (append-nil s.sent)) (or-false s.finalize)

  -- The walk of the main loop sends the first nodes of the list, in order, one datagram each: all
  -- of them if the bound is 0, else as many as the bound says. It marks the end if one of them has
  -- the id 0, and changes nothing else, if no `sendto` fails.
  pub for_each-send_packet :
      Accepting s.sends
      → Returns
          (λ _ t.
            (done : Cells) × (done ++ unscanned s.max_packets 0 cs ≡ cs)
            × (t ≡ record s {
              sends = t.sends;
              sent = s.sent ++ map (datagram s) done;
              finalize = s.finalize || has_id 0 done;
            }))
          (for_each Psender.memory s.to_send send_packet s.max_packets s)
  for_each-send_packet a =
      Returns.mono
        (for_each_rule Psender.memory s.to_send send_packet (Walk s cs) Walk-Trail Walk-step cs
          s.max_packets s holds.list
          (record { done = []; split = refl; state = none_sent; accepting = a }))
        λ _ t w. (w.done, w.split, w.state)
