-- ===== src/Preceiver.antt =====
-- src/include/preceiverUtils.c: the proxy on the receiver's side. What the system calls answer stands
-- in the state as scripts, which the calls consume.
pub mod Main
pub mod Stream
pub mod Incoming
pub mod Deliver
pub mod Acks
pub mod Init
pub mod Safety
pub mod Receive
use gproxy.Common.{
  ℕ, zero, suc, ◌+◌, ◌-◌, ◌%◌, ◌^◌, Bool, true, false, Option, none, some, List, [], ◌∷◌, ◌++◌, ltb,
  leb, ◌==◌, if◌then◌else◌, take, drop, length,
}
use gproxy.Common.Int.{ℤ, pos, pos_part, ltb_ℤ}
use gproxy.Common.Outcome.{ok, halt, Cmd, pure, ◌>>=◌, ◌>>◌, read, modify, when, zoom}
use gproxy.Wire.{header_size, body_type, ntohl, Address, get_socket_address, ack_body}
use gproxy.PacketList.{alloc_node, insert_node_by_id, remove_node, clear_node}
use gproxy.PacketList.Heap.{Ptr, null, Pkt, Memory, load, load_packet, set_packet, set_pkt_size}

-- `recv` on the ritardatore's socket with `MSG_DONTWAIT`: what it hands over of a datagram, at most
-- a whole `Pkt`; `EINTR`; `EAGAIN`; another error. With the script spent, nothing is waiting.
pub data UdpAnswer : Type 0 where
  packet : Pkt → UdpAnswer
  interrupted : UdpAnswer
  nothing : UdpAnswer
  failed : UdpAnswer

-- `send` to the receiver: how many bytes are taken, or an error. With the script spent, all are.
pub data TcpAnswer : Type 0 where
  wrote : ℕ → TcpAnswer
  failed : TcpAnswer

-- `select`
pub data SelectAnswer : Type 0 where
  ready : SelectAnswer
  timeout : SelectAnswer
  interrupted : SelectAnswer
  failed : SelectAnswer

-- A datagram to the ritardatore.
pub record Datagram : Type 0 where
  pub to : Address
  pub packet : Pkt

-- The globals of preceiverUtils.c, the scripts, the acks sent, and the bytes the receiver has got.
pub record Preceiver : Type 0 where
  pub memory : Memory
  pub to_send : Ptr
  pub to_ack : Ptr
  pub channel : ℕ
  pub to_rit_port : ℕ
  pub to_rit_address : Option ℕ
  pub to_rit : Address
  pub max_packets : ℤ
  pub last_sent_id : ℕ
  pub finalize : Bool
  pub started : Bool
  pub timed_out : Bool
  pub ritardatore : ℕ
  pub receiver : ℕ
  pub can_read : ℕ → Bool
  pub open_fds : ℕ → Bool
  pub stack : List ℕ  -- what the ack's array holds before it is written
  pub udp : List UdpAnswer
  pub tcp : List TcpAnswer
  pub selects : List SelectAnswer
  pub acks : List Datagram
  pub stream : List ℕ

abbrev pub on_memory : {A : Type 0} → Cmd Memory A → Cmd Preceiver A
on_memory = zoom Preceiver.memory (λ s h. record s { memory = h })

-- `ritPorts[channel]`
abbrev pub rit_port : ℕ → ℕ
rit_port channel = if channel == 0 then 62000 else if channel == 1 then 62001 else 62002

abbrev pub clear_fd : (ℕ → Bool) → ℕ → ℕ → Bool
clear_fd set fd i = if i == fd then false else set i

-- `printError`: a message and `exit(1)`
abbrev pub print_error : {A : Type 0} → Cmd Preceiver A
print_error s = halt 1 s

-- The sockets are closed; the times that it prints are left out.
unfoldable pub terminate : {A : Type 0} → Cmd Preceiver A
terminate = do
  modify (λ s. record s { open_fds = clear_fd (clear_fd s.open_fds s.ritardatore) s.receiver })
  λ s. halt 0 s

unfoldable pub ack_pkt : Ptr → Cmd Preceiver (Unit {0})
ack_pkt current = do
  k ← on_memory (load_packet current)
  modify (λ s. record s {
    acks =
        s.acks
        ++ record {
          to = s.to_rit;
          packet = record { id = 0; type = body_type; body = ack_body k.id s.stack };
        }
          ∷ [];
  })

unfoldable pub ack_packet : Ptr → Cmd Preceiver (Unit {0})
unfolding ack_pkt
ack_packet current = do
  ack_pkt current
  k ← on_memory (load_packet current)
  when (k.id == 0) (modify (λ s. record s { finalize = true }))
  removed ← on_memory (remove_node current)
  on_memory (clear_node current)

-- How many of the `size` bytes the next `send` takes; `none` is an error.
abbrev pub next_tcp : List TcpAnswer → ℕ → Option ℕ
next_tcp [] size = some size
next_tcp (wrote n ∷ rest) size = some n
next_tcp (TcpAnswer.failed ∷ rest) size = none

-- The branches on what `send` has returned.
unfoldable pub on_sent : Ptr → List ℕ → Option ℕ → Cmd Preceiver (Unit {0})
on_sent current bytes none = print_error
on_sent current bytes (some zero) = pure tt
on_sent current bytes (some (suc n)) = do
  modify (λ s. record s {
    stream = s.stream ++ take (suc n) bytes;
    last_sent_id = (s.last_sent_id + 1) % 2 ^ 32;
  })
  removed ← on_memory (remove_node current)
  to_ack ← read Preceiver.to_ack
  inserted ← on_memory (insert_node_by_id to_ack removed)
  pure tt

unfoldable pub send_to_receiver : Ptr → Cmd Preceiver (Unit {0})
send_to_receiver current = if current == null then pure tt else do
  k ← on_memory (load_packet current)
  last ← read Preceiver.last_sent_id
  if k.id == last
      then (do
        size ← on_memory (load Memory.pkt_size current)
        let bytes = take (pos_part size - header_size) k.body
        answer ← read (λ s. next_tcp s.tcp (pos_part size - header_size))
        modify (λ s. record s { tcp = drop 1 s.tcp })
        on_sent current bytes answer)
      else pure tt

-- The loop around `recv`: at most `tries` times, as long as it fails otherwise than by `EINTR`.
unfoldable pub recv_loop : (tries : ℕ) → List UdpAnswer → Cmd Preceiver UdpAnswer
recv_loop zero script s = ok nothing (record s { udp = script })
recv_loop (suc tries) [] s = ok nothing (record s { udp = [] })
recv_loop (suc tries) (packet k ∷ rest) s = ok (packet k) (record s { udp = rest })
recv_loop (suc tries) (UdpAnswer.interrupted ∷ rest) s =
    ok UdpAnswer.interrupted (record s { udp = rest })
recv_loop (suc zero) (answer ∷ rest) s = ok answer (record s { udp = rest })
recv_loop (suc (suc tries)) (answer ∷ rest) s = recv_loop (suc tries) rest s

unfoldable pub switch_port : Cmd Preceiver (Unit {0})
switch_port = do
  modify (λ s. record s { channel = (s.channel + 1) % 3 })
  modify (λ s. record s { to_rit_port = rit_port s.channel })
  (address, shared_error) ← read (λ s. get_socket_address s.to_rit_address s.to_rit_port)
  modify (λ s. record s { to_rit = address })
  when shared_error print_error

-- A packet of type `'B'`, its id in host order: to be sent on, or only to be acked again.
unfoldable pub sort_in : Ptr → (id : ℕ) → Cmd Preceiver (Unit {0})
sort_in current id = do
  last ← read Preceiver.last_sent_id
  if leb last id
      then (do
        to_send ← read Preceiver.to_send
        inserted ← on_memory (insert_node_by_id to_send current)
        pure tt)
      else (do
        to_ack ← read Preceiver.to_ack
        n ← on_memory (load Memory.length to_ack)
        max_packets ← read Preceiver.max_packets
        if ltb_ℤ n max_packets
            then (do inserted ← on_memory (insert_node_by_id to_ack current); pure tt)
            else on_memory (clear_node current))

-- The branches on what `recv` has put into the node's packet.
unfoldable pub on_received : Ptr → UdpAnswer → Cmd Preceiver (Unit {0})
on_received current (packet k) = do
  on_memory (set_packet current k)
  if k.type == body_type
      then (do
        on_memory (set_packet current (record k { id = ntohl k.id }))
        on_memory (set_pkt_size current (pos (header_size + length k.body)))
        sort_in current (ntohl k.id))
      else (do switch_port; on_memory (clear_node current))
on_received current nothing = on_memory (clear_node current)
on_received current UdpAnswer.interrupted = do on_memory (clear_node current); print_error
on_received current UdpAnswer.failed = do on_memory (clear_node current); print_error

unfoldable pub receive_from_psender : Cmd Preceiver (Unit {0})
receive_from_psender = do
  current ← on_memory (alloc_node 0 body_type none 0)
  on_memory (set_packet current (record { id = 0; type = 0; body = [] }))
  script ← read Preceiver.udp
  answer ← recv_loop 100 script
  on_received current answer
