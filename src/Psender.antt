-- ===== src/Psender.antt =====
-- src/include/psenderUtils.c: the proxy on the sender's side. What the system calls answer stands in
-- the state as scripts, which the calls consume.
pub mod Main
pub mod Steps
pub mod Receive
pub mod Send
pub mod Acks
pub mod Init
pub mod Stream
pub mod Safety
use gproxy.Common.{
  ℕ, zero, suc, ◌+◌, ◌-◌, ◌%◌, ◌^◌, Bool, true, false, not, ◌&&◌, ◌||◌, Option, none, some, List,
  [], ◌∷◌, ◌++◌, ltb, leb, ◌==◌, if◌then◌else◌, take, drop, length,
}
use gproxy.Common.Int.{ℤ, pos, pos_part, ltb_ℤ}
use gproxy.Common.Outcome.{ok, halt, starve, Cmd, pure, ◌>>=◌, ◌>>◌, read, modify, when, zoom}
use gproxy.Wire.{
  header_size, body_type, ending_body, htonl, ntohl, Address, get_socket_address, acked_id,
}
use gproxy.PacketList.{
  Buffer, payload_size, alloc_node, append_node, remove_node_by_id, clear_node, for_each,
}
use gproxy.PacketList.Heap.{Ptr, null, Pkt, Memory, load, load_packet, set_packet}

-- `recv` on the sender's connection, blocking. `failed` is any error but `EINTR`.
pub data TcpAnswer : Type 0 where
  bytes : List ℕ → TcpAnswer
  closed : TcpAnswer
  interrupted : TcpAnswer
  failed : TcpAnswer

-- `recv` on the ritardatore's socket with `MSG_DONTWAIT`: what it hands over of a datagram, at most
-- a whole `Pkt`; nothing waiting; or another error. With the script spent, nothing is waiting.
pub data UdpAnswer : Type 0 where
  packet : Pkt → UdpAnswer
  nothing : UdpAnswer
  failed : UdpAnswer

-- `sendto`: done, `EINTR` or `EAGAIN`, another error. With the script spent, it is done at once.
pub data SendAnswer : Type 0 where
  taken : SendAnswer
  again : SendAnswer
  refused : SendAnswer

-- `select`: the two descriptors' readiness, the timeout, an error.
pub data SelectAnswer : Type 0 where
  ready : (connected_sender ritardatore : Bool) → SelectAnswer
  timeout : SelectAnswer
  failed : SelectAnswer

-- A datagram to the ritardatore: the port it goes to, and the packet in network order.
pub record Datagram : Type 0 where
  pub to : Address
  pub packet : Pkt

-- The globals of psenderUtils.c, the scripts, and what has been sent. `behind_ending` are the bytes
-- that can be read behind `endingBody`, an array of 13: the language leaves reading them undefined.
-- `current_ack` are the bytes of `currentAck`'s body, from the array's start.
pub record Psender : Type 0 where
  pub memory : Memory
  pub to_send : Ptr
  pub channel : ℕ
  pub to_rit_port : ℕ
  pub to_rit_address : Option ℕ
  pub to_rit : Address
  pub max_packets : ℤ
  pub current_id : ℕ
  pub finalize : Bool
  pub ending_read : Bool
  pub recv_buffer : List ℕ
  pub connected_sender : ℕ
  pub sender : ℕ
  pub ritardatore : ℕ
  pub can_read : ℕ → Bool
  pub max_fd : ℕ
  pub open_fds : ℕ → Bool
  pub tcp : List TcpAnswer
  pub udp : List UdpAnswer
  pub sends : List SendAnswer
  pub selects : List SelectAnswer
  pub sent : List Datagram
  pub behind_ending : List ℕ
  pub current_ack : List ℕ

abbrev pub on_memory : {A : Type 0} → Cmd Memory A → Cmd Psender A
on_memory = zoom Psender.memory (λ s h. record s { memory = h })

-- `ritPorts[channel]`
abbrev pub rit_port : ℕ → ℕ
rit_port channel = if channel == 0 then 61000 else if channel == 1 then 61001 else 61002

abbrev pub clear_fd : (ℕ → Bool) → ℕ → ℕ → Bool
clear_fd set fd i = if i == fd then false else set i

-- `printError`: a message and `exit(1)`
abbrev pub print_error : {A : Type 0} → Cmd Psender A
print_error s = halt 1 s

unfoldable pub close_sender_connection : Cmd Psender (Unit {0})
close_sender_connection = modify λ s. record s {
  can_read = clear_fd s.can_read s.connected_sender;
  max_fd = s.ritardatore;
  open_fds = clear_fd (clear_fd s.open_fds s.connected_sender) s.sender;
}

unfoldable pub terminate : {A : Type 0} → Cmd Psender A
unfolding close_sender_connection
terminate = do
  close_sender_connection
  modify (λ s. record s { open_fds = clear_fd s.open_fds s.ritardatore })
  λ s. halt 0 s

-- The loop around `recv`: it tries again on every error but `EINTR`.
unfoldable pub recv_loop : List TcpAnswer → Cmd Psender TcpAnswer
recv_loop [] s = starve (record s { tcp = [] })
recv_loop (TcpAnswer.failed ∷ rest) s = recv_loop rest s
recv_loop (bytes b ∷ rest) s =
    ok (bytes b) (record s { tcp = rest; recv_buffer = b ++ drop (length b) s.recv_buffer })
recv_loop (closed ∷ rest) s = ok closed (record s { tcp = rest })
recv_loop (interrupted ∷ rest) s = ok interrupted (record s { tcp = rest })

-- `endingBody` with what stands behind it.
abbrev pub ending_buffer : List ℕ → Buffer
ending_buffer behind = record {
  bytes = ending_body ++ behind;
  extent = length (ending_body ++ behind);
}

-- `recvBuffer`, an array of `PAYLOAD_SIZE`.
abbrev pub recv_array : List ℕ → Buffer
recv_array buffer = record { bytes = buffer; extent = payload_size }

-- End of the stream: the node with id 0, and the connection closed. The copy is five bytes longer
-- than the array.
unfoldable pub append_ending : Cmd Psender (Unit {0})
unfolding close_sender_connection
append_ending = do
  head ← read Psender.to_send
  behind ← read Psender.behind_ending
  ending ← on_memory (alloc_node 0 body_type (some (ending_buffer behind)) (12 + header_size + 1))
  on_memory (append_node head ending)
  modify (λ s. record s { ending_read = true })
  close_sender_connection

-- A node with the bytes read, under the next id.
unfoldable pub append_data : ℕ → Cmd Psender (Unit {0})
append_data count = do
  head ← read Psender.to_send
  id ← read Psender.current_id
  buffer ← read Psender.recv_buffer
  node ← on_memory (alloc_node id body_type (some (recv_array buffer)) (count + header_size))
  on_memory (append_node head node)
  modify (λ s. record s { current_id = (s.current_id + 1) % 2 ^ 32 })

-- The `switch` on what `recv` has returned. The second error branch cannot be reached.
unfoldable pub on_received : TcpAnswer → Cmd Psender (Unit {0})
on_received (bytes b) = append_data (length b)
on_received closed = append_ending
on_received interrupted = pure tt
on_received TcpAnswer.failed = print_error

unfoldable pub receive_from_sender : Cmd Psender (Unit {0})
receive_from_sender = do script ← read Psender.tcp; answer ← recv_loop script; on_received answer

unfoldable pub switch_port : Cmd Psender (Unit {0})
switch_port = do
  modify (λ s. record s { channel = (s.channel + 1) % 3 })
  modify (λ s. record s { to_rit_port = rit_port s.channel })
  (address, shared_error) ← read (λ s. get_socket_address s.to_rit_address s.to_rit_port)
  modify (λ s. record s { to_rit = address })
  when shared_error print_error

-- An ack takes its node out of the list and frees it.
unfoldable pub take_ack : ℕ → Cmd Psender (Unit {0})
take_ack id = do
  head ← read Psender.to_send
  current ← on_memory (remove_node_by_id head id)
  on_memory (clear_node current)

-- A datagram's body takes the place of the first bytes of the array that `recv` writes it to.
abbrev pub over_written : List ℕ → List ℕ → List ℕ
over_written new old = new ++ drop (length new) old

unfoldable pub on_udp : UdpAnswer → Cmd Psender (Unit {0})
on_udp (packet k) = do
  modify (λ s. record s { current_ack = over_written k.body s.current_ack })
  body ← read Psender.current_ack
  if k.type == body_type then take_ack (acked_id body) else switch_port
on_udp nothing = pure tt
on_udp UdpAnswer.failed = print_error

-- One `recv` on the ritardatore's socket.
abbrev pub next_udp : List UdpAnswer → UdpAnswer
next_udp [] = nothing
next_udp (a ∷ rest) = a

unfoldable pub check_ritardatore : Cmd Psender (Unit {0})
check_ritardatore = do
  answer ← read (λ s. next_udp s.udp)
  modify (λ s. record s { udp = drop 1 s.udp })
  on_udp answer

-- The loop around `sendto`.
unfoldable pub send_loop : List SendAnswer → Datagram → Cmd Psender (Unit {0})
send_loop [] d s = ok tt (record s { sends = []; sent = s.sent ++ d ∷ [] })
send_loop (taken ∷ rest) d s = ok tt (record s { sends = rest; sent = s.sent ++ d ∷ [] })
send_loop (again ∷ rest) d s = send_loop rest d s
send_loop (refused ∷ rest) d s = halt 1 (record s { sends = rest })

-- The packet as `sendto` takes it: `pktSize` bytes from its start, its header and then the body.
abbrev pub payload : ℤ → Pkt → Pkt
payload size k = record k { body = take (pos_part size - header_size) k.body }

unfoldable pub send_packet : Ptr → Cmd Psender (Unit {0})
send_packet node = do
  host ← on_memory (load_packet node)
  on_memory (set_packet node (record host { id = htonl host.id }))
  pkt ← on_memory (load_packet node)
  size ← on_memory (load Memory.pkt_size node)
  to_rit ← read Psender.to_rit
  script ← read Psender.sends
  send_loop script (record { to = to_rit; packet = payload size pkt })
  when (pkt.id == 0) (modify (λ s. record s { finalize = true }))
  on_memory (set_packet node (record pkt { id = ntohl pkt.id }))
