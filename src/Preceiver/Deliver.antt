-- ===== src/Preceiver/Deliver.antt =====
-- What the preceiver delivers: the chunks of the stream, in order, each once.
use gproxy.Common.{
  ℕ, suc, ◌+◌, ◌-◌, ◌%◌, ◌^◌, ◌<◌, ◌≡◌, ◌≢◌, refl, Bool, true, false, some, List, [], ◌∷◌, ◌++◌,
  arith, ap, sym, ◌∙◌, ◌==◌, drop, length, Bool-cases, inl, inr,
}
use mathlib.Core.Path.{subst}
use mathlib.Core.List.{append_assoc}
use gproxy.Common.Int.{pos_part}
use gproxy.Common.Outcome.{ok}
use gproxy.Common.Outcome.Returns
use gproxy.Common.Outcome.Returns.{Returns, returns}
use gproxy.Wire.{header_size}
use gproxy.Source.{delivered}
use gproxy.PacketList.{for_each}
use gproxy.PacketList.Heap.{Ptr, null, Memory}
use gproxy.PacketList.Spec.{Cell, Cells, Node, SameRoom}
use gproxy.PacketList.Owned.{Owned-append}
use gproxy.PacketList.Order.{Above, AtLeast, All-drop, Ascending-drop, AtLeast-drop}
use gproxy.PacketList.Scan.{Above-append, AtLeast-middle, beyond, none_kept}
use gproxy.PacketList.Place.{insert}
use gproxy.PacketList.Alloc.{Relinked-IsSound}
use gproxy.PacketList.Pair.{transfer_lem}
use gproxy.PacketList.ForEach.{Trail, Trail-append, IsList-Trail, unscanned, for_each_rule}
use gproxy.PacketList.{remove_node, insert_node_by_id}
use gproxy.Preceiver.{Preceiver, next_tcp, on_sent, send_to_receiver}
use gproxy.Preceiver.Stream.{body_of, IsSourced, Inv, take-length}

-- the state after a whole packet has gone to the receiver
abbrev pub after_delivery : Preceiver → List ℕ → Memory → Preceiver
after_delivery t bytes k = record t {
  memory = k;
  stream = t.stream ++ bytes;
  last_sent_id = (t.last_sent_id + 1) % 2 ^ 32;
}

on_sent-whole :
    (p : Ptr) (bytes : List ℕ) (t : Preceiver) (g k : Memory) (done : Bool)
    → 0 < length bytes
    → remove_node p t.memory ≡ ok p g
    → insert_node_by_id t.to_ack p g ≡ ok done k
    → on_sent p bytes (some (length bytes)) t ≡ ok tt (after_delivery t bytes k)
unfolding on_sent
on_sent-whole p [] t g k done l r i = absurd (omega arith)
on_sent-whole p (b ∷ bs) t g k done l r i = rw (r, i, take-length bs)

delivered-suc :
    (source : ℕ → List ℕ) (n : ℕ) {stream bytes : List ℕ}
    → stream ≡ delivered source n
    → bytes ≡ source (suc n)
    → stream ++ bytes ≡ delivered source (suc n)
unfolding delivered
delivered-suc source n e f = rw (e, f)

send_to_receiver-other :
    (t : Preceiver) (c : Cell)
    → Node t.memory c
    → (c.packet.id == t.last_sent_id) ≡ false
    → send_to_receiver c.at t ≡ ok tt t
unfolding send_to_receiver
send_to_receiver-other t c n e = ground arith

send_to_receiver-turn :
    (t : Preceiver) (c : Cell)
    → Node t.memory c
    → (c.packet.id == t.last_sent_id) ≡ true
    → send_to_receiver c.at t
      ≡ on_sent c.at
          (body_of c)
          (next_tcp t.tcp (pos_part c.size - header_size))
          (record t { tcp = drop 1 t.tcp })
unfolding send_to_receiver
send_to_receiver-turn t c n e =
    let ne : (c.at == null) ≡ false = ground arith in rw (ne, n.live, n.packet, e, n.live, n.size)

module _ (source : ℕ → List ℕ) (s : Preceiver) where
  -- The walk over the list with `rest` before it.
  record Walk (snd_rest : Cells) (t : Preceiver) : Type 0 where
    kept : Cells
    ack : Cells
    inv : Inv source t (kept ++ snd_rest) ack
    later : Above t.last_sent_id kept
    whole : t.tcp ≡ []
    room : SameRoom s.memory t.memory
    same : t ≡ record s {
      memory = t.memory;
      stream = t.stream;
      last_sent_id = t.last_sent_id;
      tcp = t.tcp;
    }

  keep :
      {c : Cell} {rest : Cells} {t : Preceiver}
      → Walk (c ∷ rest) t
      → c.packet.id ≢ t.last_sent_id
      → Walk rest t
  keep {c} {rest} {t} w ne = record {
    kept = w.kept ++ c ∷ [];
    ack = w.ack;
    inv = subst (λ l. Inv source t l w.ack) (sym (append_assoc w.kept (c ∷ []) rest)) w.inv;
    later =
        Above-append t.last_sent_id w.kept c w.later
          (beyond (AtLeast-middle t.last_sent_id w.kept rest c w.inv.waiting) ne);
    whole = w.whole;
    room = w.room;
    same = w.same;
  }

  -- The node whose turn it is goes to the receiver and to the list of the acks.
  deliver :
      {c : Cell} {rest : Cells} (t : Preceiver) (w : Walk (c ∷ rest) t)
      → c.packet.id ≡ t.last_sent_id
      → Returns (λ _. Walk rest) (on_sent c.at (body_of c) (some (length (body_of c))) t)
  unfolding on_sent
  deliver {c} {rest} t w e =
      let (g, k, done, removes, inserts, sending, acking, apart, out, into) =
        transfer_lem w.kept c rest w.inv.sending w.inv.acking w.inv.apart in
      let (cell, others) = All-drop (IsSourced source) w.kept rest c w.inv.sourced in
      let next : (t.last_sent_id + 1) % 2 ^ 32 ≡ suc (suc w.inv.count) =
        omega (arith, e, w.inv.next, cell.small) in
      rw (on_sent-whole c.at (body_of c) t g k done cell.filled removes inserts) (
        returns (record {
          kept = w.kept;
          ack = insert c w.ack;
          inv = record {
            sound = Relinked-IsSound into (Relinked-IsSound out w.inv.sound);
            sending = sending;
            acking = acking;
            apart = apart;
            ascending = Ascending-drop w.kept rest c w.inv.ascending;
            waiting =
                subst (λ n. AtLeast n (w.kept ++ rest)) (omega (arith, e, cell.small))
                  (AtLeast-drop t.last_sent_id w.kept rest c w.inv.ascending w.inv.waiting e);
            sourced = others;
            count = suc w.inv.count;
            next = next;
            stream =
                delivered-suc source w.inv.count w.inv.stream
                  (cell.chunk ∙ ap source (e ∙ w.inv.next));
          };
          later = none_kept _ _ w.kept rest c w.inv.ascending e w.later;
          whole = w.whole;
          room = (into.fresh ∙ out.fresh ∙ w.room.0, into.limit ∙ out.limit ∙ w.room.1);
          same = ap (λ u. after_delivery u (body_of c) k) w.same;
        }))

  Walk-step :
      (c : Cell) (rest : Cells) (t : Preceiver)
      → Walk (c ∷ rest) t
      → Returns (λ _. Walk rest) (send_to_receiver c.at t)
  Walk-step c rest t w =
      let node = (Owned-append t.memory t.to_send w.kept (c ∷ rest) w.inv.sending.owned).1.0 in
      let (cell, others) = All-drop (IsSourced source) w.kept rest c w.inv.sourced in
      elim (Bool-cases (c.packet.id == t.last_sent_id)) [
        | inl turn ↦
            let here = deliver t w (ground arith) in
            let emptied : record t { tcp = [] } ≡ t =
              ap (λ l. record t { tcp = l }) (sym w.whole) in
            rw (send_to_receiver-turn t c node turn, w.whole, emptied)
              (subst (λ n. Returns (λ _. Walk rest) (on_sent c.at (body_of c) (some n) t))
                (sym cell.room) here)
        | inr other ↦ rw (send_to_receiver-other t c node other) (returns (keep w (ground arith)))
      ]

  Walk-Trail : (rest : Cells) (t : Preceiver) → Walk rest t → Trail t.memory s.to_send rest
  Walk-Trail rest t w =
      subst (λ hd. Trail t.memory hd rest) (ap Preceiver.to_send w.same)
        (Trail-append t.memory t.to_send w.kept rest (IsList-Trail w.inv.sending).1)

-- The walk that sends the packets on keeps the invariant: what the receiver has got are the source's
-- chunks below the next id, in order and each once. Of the nodes that it reaches, all those that the
-- bound says or all if it is 0, those that stay have greater ids than the next one: none is left
-- whose turn has come. It allocates nothing and
-- changes only the memory, the next id and what the receiver has got; the
-- receiver's socket is taken to accept every byte.
pub for_each-send_to_receiver :
    {source : ℕ → List ℕ} {s : Preceiver} {snd ack : Cells}
    → Inv source s snd ack
    → s.tcp ≡ []
    → Returns
        (λ _ t.
          (kept : Cells) × (ack' : Cells) × Inv source t
            (kept ++ unscanned s.max_packets 0 snd)
            ack'
          × Above t.last_sent_id kept
          × SameRoom s.memory t.memory
          × (t ≡ record s { memory = t.memory; stream = t.stream; last_sent_id = t.last_sent_id }))
        (for_each Preceiver.memory s.to_send send_to_receiver s.max_packets s)
for_each-send_to_receiver {source} {s} {snd} {ack} inv whole =
    Returns.mono
      (for_each_rule Preceiver.memory s.to_send send_to_receiver (Walk source s)
        (Walk-Trail source s) (Walk-step source s) snd s.max_packets s inv.sending
        (record {
          kept = [];
          ack = ack;
          inv = inv;
          later = tt;
          whole = whole;
          room = (refl, refl);
          same = refl;
        }))
      λ _ t w. (
        w.kept,
        w.ack,
        w.inv,
        w.later,
        w.room,
        w.same
            ∙ ap
                (λ l. record s {
                  memory = t.memory;
                  stream = t.stream;
                  last_sent_id = t.last_sent_id;
                  tcp = l;
                })
                (w.whole ∙ sym whole),
      )
