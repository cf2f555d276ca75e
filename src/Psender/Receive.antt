-- ===== src/Psender/Receive.antt =====
-- `receiveFromSender`.
use gproxy.Common.{
  ℕ, suc, ◌+◌, ◌-◌, ◌%◌, ◌^◌, ◌≤◌, ◌<◌, ◌≡◌, refl, zero, true, false, List, [], ◌∷◌, ◌++◌, inl, inr,
  arith, ap, ◌∙◌, take, drop, length, take-append,
}
use gproxy.Common.Int.{pos}
use gproxy.Common.Outcome.{ok, fault}
use gproxy.Common.Outcome.Returns
use gproxy.Common.Outcome.Returns.{Returns, returns}
use gproxy.Wire.{header_size, body_type, ending_body}
use gproxy.PacketList.{payload_size, append_node}
use gproxy.PacketList.Heap.{Ptr, Memory, Pkt}
use gproxy.PacketList.Spec.{Grown, Cell, Cells, IsList}
use gproxy.PacketList.Append.{append_node_lem}
use gproxy.PacketList.Alloc.{
  IsSound, allocated, node_packet, alloc_node-allocated, alloc_node-fault, allocated-IsSound,
  allocated-IsList, allocated-Node, fresh-out, Relinked-IsSound,
}
use gproxy.Psender.{
  Psender, TcpAnswer, bytes, closed, clear_fd, append_data, append_ending, ending_buffer,
  recv_array, close_sender_connection, on_received, receive_from_sender, payload,
}
use gproxy.Psender.Steps.{
  after_failures, recv_loop-after_failures, recv_loop-bytes, recv_loop-closed,
}

-- The list of the psender stands for the cells, in a memory whose allocator is in order.
pub record Holds (s : Psender) (cs : Cells) : Type 0 where
  pub sound : IsSound s.memory
  pub list : IsList s.memory s.to_send cs

-- the node that `appendNode` gets for the bytes of a buffer
abbrev pub data_cell : Ptr → (id : ℕ) → (buffer : List ℕ) → (count : ℕ) → Cell
data_cell p id buffer count = record {
  at = p;
  packet = node_packet id body_type (take (count + header_size) buffer);
  size = pos (count + header_size);
}

-- the node that `appendNode` gets at the end of the stream
abbrev ending_cell : (behind : List ℕ) → Ptr → Cell
ending_cell behind p = record {
  at = p;
  packet = node_packet 0 body_type (take 18 (ending_body ++ behind));
  size = pos 18;
}

-- A new node at the end of the list.
append_new :
    {s : Psender} {cs : Cells} (k : Pkt) (size : ℕ)
    → Holds s cs
    → (u : Unit {0}) × (g : Memory) × (append_node s.to_send s.memory.fresh
          (allocated s.memory k size)
        ≡ ok u g)
      × Holds
          (record s { memory = g })
          (cs ++ record { at = s.memory.fresh; packet = k; size = pos size } ∷ [])
      × Grown s.memory g
append_new {s} k size holds =
    let (u, g, runs, facts) = Returns.result (
      append_node_lem {h = allocated s.memory k size}
        (record { at = s.memory.fresh; packet = k; size = pos size })
        (allocated-IsList k size holds.sound holds.list) (allocated-Node k size holds.sound)
        (fresh-out holds.sound holds.list)) in
    (
      u,
      g,
      runs,
      record {
        sound = Relinked-IsSound facts.2 (allocated-IsSound k size holds.sound);
        list = facts.0;
      },
      (facts.2.fresh, facts.2.limit),
    )

append_data-Holds :
    {s : Psender} {cs : Cells} (count : ℕ)
    → Holds s cs
    → s.memory.fresh < s.memory.limit
    → count + header_size ≤ payload_size
    → Returns
        (λ _ t.
          Holds t (cs ++ data_cell s.memory.fresh s.current_id s.recv_buffer count ∷ [])
          × Grown s.memory t.memory
          × (t ≡ record s { memory = t.memory; current_id = (s.current_id + 1) % 2 ^ 32 }))
        (append_data count s)
unfolding append_data
append_data-Holds {s} count holds room fits =
    let new = data_cell s.memory.fresh s.current_id s.recv_buffer count in
    let (_, g, runs, facts, grown) = append_new new.packet (count + header_size) holds in
    rw
      (
        alloc_node-allocated s.memory s.current_id body_type (recv_array s.recv_buffer)
            (count + header_size) room fits fits,
        runs,
      )
      (returns (record { sound = facts.sound; list = facts.list }, grown, refl))

append_ending-Holds :
    {s : Psender} {cs : Cells}
    → Holds s cs
    → s.memory.fresh < s.memory.limit
    → 5 ≤ length s.behind_ending
    → Returns
        (λ _ t.
          Holds t (cs ++ ending_cell s.behind_ending s.memory.fresh ∷ [])
          × Grown s.memory t.memory
          × (t ≡ record s {
            memory = t.memory;
            ending_read = true;
            can_read = clear_fd s.can_read s.connected_sender;
            max_fd = s.ritardatore;
            open_fds = clear_fd (clear_fd s.open_fds s.connected_sender) s.sender;
          }))
        (append_ending s)
unfolding append_ending close_sender_connection
append_ending-Holds {s} holds room behind =
    let (_, g, runs, facts, grown) =
      append_new (ending_cell s.behind_ending s.memory.fresh).packet 18 holds in
    rw
      (
        alloc_node-allocated s.memory 0 body_type (ending_buffer s.behind_ending) 18 room
            (omega arith) (omega (arith, behind)),
        runs,
      )
      (returns (record { sound = facts.sound; list = facts.list }, grown, refl))

take-take : {A : Type 0} (n m : ℕ) (xs : List A) → n ≤ m → take n (take m xs) ≡ take n xs
take-take zero m xs h = refl
take-take (suc n) zero xs h = absurd (omega arith)
take-take (suc n) (suc m) [] h = refl
take-take (suc n) (suc m) (x ∷ xs) h = ap (λ l. x ∷ l) (take-take n m xs (omega arith))

-- The datagram of a data node carries the bytes that were read, and no more.
payload-data_cell :
    (p : Ptr) (id : ℕ) (b behind : List ℕ)
    → (payload
        (data_cell p id (b ++ behind) (length b)).size
        (data_cell p id (b ++ behind) (length b)).packet).body
      ≡ b
payload-data_cell p id b behind =
    let e : length b + 5 - 5 ≡ length b = omega arith in
    rw e (take-take (length b) (length b + 5) (b ++ behind) (omega arith) ∙ take-append b behind)

-- With memory for a node: if the connection's next answer (errors but `EINTR` are passed over) is a
-- chunk of bytes that fits a packet with its header's size, then one new node with the next id is
-- put at the end of the list, whose datagram carries exactly those bytes; the id counter moves on
-- by one, modulo 2 ^ 32. Of the rest only the script of the answers and the buffer change.
pub receive_from_sender-bytes :
    {s : Psender} {cs : Cells} {b : List ℕ} {rest : List TcpAnswer}
    → Holds s cs
    → s.memory.fresh < s.memory.limit
    → after_failures s.tcp ≡ bytes b ∷ rest
    → length b + header_size ≤ payload_size
    → Returns
        (λ _ t.
          (new : Cell) × Holds t (cs ++ new ∷ [])
          × (payload new.size new.packet
              ≡ record { id = s.current_id % 2 ^ 32; type = body_type; body = b })
          × Grown s.memory t.memory
          × (t ≡ record s {
            memory = t.memory;
            current_id = (s.current_id + 1) % 2 ^ 32;
            tcp = rest;
            recv_buffer = b ++ drop (length b) s.recv_buffer;
          }))
        (receive_from_sender s)
unfolding receive_from_sender on_received
receive_from_sender-bytes {s} {cs} {b} {rest} holds room e fits =
    rw (recv_loop-after_failures s.tcp s, e, recv_loop-bytes b rest s)
      (Returns.mono
        (append_data-Holds (length b) (record { sound = holds.sound; list = holds.list }) room fits)
        λ _ t (held, grown, same). (
          _,
          held,
          ap (λ l. record { id = s.current_id % 2 ^ 32; type = body_type; body = l })
              (payload-data_cell s.memory.fresh s.current_id b (drop (length b) s.recv_buffer)),
          grown,
          same,
        ))

-- With memory for a node, and five bytes that can be read behind `endingBody`: at the end of the
-- stream one new node, with id 0 and the agreed text, is
-- put at the end of the list, and the connection to the sender is closed and no longer watched. Of
-- the rest only the script of the answers changes.
pub receive_from_sender-closed :
    {s : Psender} {cs : Cells} {rest : List TcpAnswer}
    → Holds s cs
    → s.memory.fresh < s.memory.limit
    → after_failures s.tcp ≡ closed ∷ rest
    → 5 ≤ length s.behind_ending
    → Returns
        (λ _ t.
          (new : Cell) × Holds t (cs ++ new ∷ [])
          × (payload new.size new.packet ≡ record { id = 0; type = body_type; body = ending_body })
          × Grown s.memory t.memory
          × (t ≡ record s {
            memory = t.memory;
            tcp = rest;
            ending_read = true;
            can_read = clear_fd s.can_read s.connected_sender;
            max_fd = s.ritardatore;
            open_fds = clear_fd (clear_fd s.open_fds s.connected_sender) s.sender;
          }))
        (receive_from_sender s)
unfolding receive_from_sender on_received
receive_from_sender-closed {s} {rest} holds room e behind =
    rw (recv_loop-after_failures s.tcp s, e, recv_loop-closed rest s)
      (Returns.mono
        (append_ending-Holds (record { sound = holds.sound; list = holds.list }) room behind)
        λ _ t (held, grown, same). (_, held, refl, grown, same))

-- A chunk that leaves less than the header's size free in the packet's array is copied past its
-- end: undefined behaviour, whatever else the state holds.
pub receive_from_sender-overflow :
    (s : Psender) (b : List ℕ) (rest : List TcpAnswer)
    → s.memory.live 0 ≡ false
    → after_failures s.tcp ≡ bytes b ∷ rest
    → payload_size < length b + header_size
    → receive_from_sender s ≡ fault
unfolding receive_from_sender on_received append_data
receive_from_sender-overflow s b rest dead e long = rw (
  recv_loop-after_failures s.tcp s,
  e,
  recv_loop-bytes b rest s,
  alloc_node-fault s.memory s.current_id body_type (recv_array (b ++ drop (length b) s.recv_buffer))
      (length b + header_size) dead (inl long),
)

-- At the end of the stream, with no object at `NULL` and fewer than five bytes that can be read
-- behind `endingBody`, the copy of the ending's text runs past what can be read: undefined
-- behaviour, whatever else the state holds.
pub receive_from_sender-past_end :
    (s : Psender) (rest : List TcpAnswer)
    → s.memory.live 0 ≡ false
    → after_failures s.tcp ≡ closed ∷ rest
    → length s.behind_ending < 5
    → receive_from_sender s ≡ fault
unfolding receive_from_sender on_received append_ending
receive_from_sender-past_end s rest dead e short = rw (
  recv_loop-after_failures s.tcp s,
  e,
  recv_loop-closed rest s,
  alloc_node-fault s.memory 0 body_type (ending_buffer s.behind_ending) 18 dead
      (inr (omega (arith, short))),
)
