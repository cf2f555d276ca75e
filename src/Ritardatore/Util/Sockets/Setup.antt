-- ===== src/Ritardatore/Util/Sockets/Setup.antt =====
-- UDP_setup_socket_bound, TCP_setup_connection and TCP_setup_socket_listening. Each returns its
-- result and what it leaves in the variable of the descriptor, -1 without a socket.
use gproxy.Common.{
  ℕ, zero, suc, ◌+◌, ◌%◌, ◌^◌, Bool, true, false, Option, none, some, List, [], ◌∷◌,
}
use gproxy.Common.Int.{ℤ, pos, negsuc}
use gproxy.Common.Outcome.{ok, Cmd, pure, ◌>>=◌, ◌>>◌, read}
use gproxy.Common.Outcome.Exits.{require, or_exit}
use gproxy.Ritardatore.Util.Sockets.{
  Sockets, CallAnswer, done, interrupted, failed, put, try_call, setsockopt_reuse_addr,
  setsockopt_tcpnodelay, getsockopt_tcpnodelay, setsockopt_snd_buf, getsockopt_snd_buf,
  setsockopt_rcv_buf, getsockopt_rcv_buf,
}

abbrev pub no_fd : ℤ
no_fd = negsuc 0

-- `socket`
unfoldable pub socket : Cmd Sockets (Option ℕ)
unfolding try_call
socket = do
  fd ← read Sockets.next_fd
  fine ← try_call (λ s. record s { next_fd = s.next_fd + 1 })
  pure (elim fine [ true ↦ some fd | false ↦ none ])

-- `bind` to any local address
unfoldable pub bind : ℕ → (port : ℕ) → Cmd Sockets Bool
unfolding try_call
bind fd port = try_call (λ s. record s { bound = put s.bound fd (some (port % 2 ^ 16)) })

-- The size of a buffer is set and read again, if it is positive; `exit(5)` on an error.
unfoldable pub set_buffer :
    (set : ℕ → ℕ → Cmd Sockets Bool) (get : ℕ → Cmd Sockets (Option ℕ))
    → ℕ
    → ℤ
    → Cmd Sockets (Unit {0})
set_buffer set get fd (negsuc n) = pure tt
set_buffer set get fd (pos zero) = pure tt
set_buffer set get fd (pos (suc n)) = do
  fine ← set fd (suc n)
  require 5 fine
  size ← get fd
  _ ← or_exit 5 size
  pure tt

unfoldable pub set_nodelay : ℕ → (booleano : ℤ) → Cmd Sockets (Unit {0})
set_nodelay fd booleano = do
  fine ← setsockopt_tcpnodelay fd booleano
  require 5 fine
  flag ← getsockopt_tcpnodelay fd
  _ ← or_exit 5 flag
  pure tt

-- `connect`, again while it is interrupted.
unfoldable pub connect_loop : List CallAnswer → ℕ → Option ℕ → (port : ℕ) → Cmd Sockets Bool
connect_loop [] fd host port s =
    ok true (record s { calls = []; connected = put s.connected fd (some (host, port % 2 ^ 16)) })
connect_loop (done ∷ rest) fd host port s =
    ok true (record s { calls = rest; connected = put s.connected fd (some (host, port % 2 ^ 16)) })
connect_loop (interrupted ∷ rest) fd host port s = connect_loop rest fd host port s
connect_loop (failed ∷ rest) fd host port s = ok false (record s { calls = rest })

unfoldable pub tcp_connect : ℕ → Option ℕ → (port : ℕ) → Cmd Sockets (Bool × ℤ)
unfolding bind connect_loop
tcp_connect fd host port = do
  fine ← bind fd 0
  elim fine [
    | false ↦ pure (false, pos fd)
    | true ↦ do
      script ← read Sockets.calls
      fine ← connect_loop script fd host port
      pure (fine, pos fd)
  ]

unfoldable pub tcp_listen : ℕ → (port : ℕ) → Cmd Sockets (Bool × ℤ)
unfolding bind try_call
tcp_listen fd port = do
  fine ← bind fd port
  elim fine [
    | false ↦ pure (false, pos fd)
    | true ↦ do
      fine ← try_call (λ s. record s { listening = put s.listening fd true })
      require 1 fine
      pure (true, pos fd)
  ]

module _ (granted : ℕ → ℕ) where
  unfoldable pub set_buffers : ℕ → (dim_snd_buf dim_rcv_buf : ℤ) → Cmd Sockets (Unit {0})
  unfolding set_buffer setsockopt_snd_buf getsockopt_snd_buf setsockopt_rcv_buf getsockopt_rcv_buf
  set_buffers fd dim_snd_buf dim_rcv_buf = do
    set_buffer (setsockopt_snd_buf granted) getsockopt_snd_buf fd dim_snd_buf
    set_buffer (setsockopt_rcv_buf granted) getsockopt_rcv_buf fd dim_rcv_buf

  unfoldable pub udp_bind : ℕ → (port : ℕ) (dim_snd_buf dim_rcv_buf : ℤ) → Cmd Sockets (Bool × ℤ)
  unfolding set_buffers bind
  udp_bind fd port dim_snd_buf dim_rcv_buf = do
    set_buffers fd dim_snd_buf dim_rcv_buf
    fine ← bind fd port
    pure (fine, pos fd)

  unfoldable pub udp_setup_socket_bound :
      (port : ℕ) (dim_snd_buf dim_rcv_buf : ℤ) → Cmd Sockets (Bool × ℤ)
  unfolding socket setsockopt_reuse_addr udp_bind
  udp_setup_socket_bound port dim_snd_buf dim_rcv_buf = do
    fd ← socket
    elim fd [
      | none ↦ pure (false, no_fd)
      | some fd ↦ do
        fine ← setsockopt_reuse_addr fd
        elim fine [ false ↦ pure (false, pos fd) | true ↦ udp_bind fd port dim_snd_buf dim_rcv_buf ]
    ]

  -- `host` is what `inet_addr` makes of the text.
  unfoldable pub tcp_setup_connection :
      (host : Option ℕ) (port : ℕ) (dim_snd_buf dim_rcv_buf tcp_no_delay : ℤ)
      → Cmd Sockets (Bool × ℤ)
  unfolding socket set_buffers set_nodelay tcp_connect
  tcp_setup_connection host port dim_snd_buf dim_rcv_buf tcp_no_delay = do
    fd ← socket
    elim fd [
      | none ↦ pure (false, no_fd)
      | some fd ↦ do
        set_buffers fd dim_snd_buf dim_rcv_buf
        set_nodelay fd tcp_no_delay
        tcp_connect fd host port
    ]

  unfoldable pub tcp_setup_socket_listening :
      (port : ℕ) (dim_snd_buf dim_rcv_buf tcp_no_delay : ℤ) → Cmd Sockets (Bool × ℤ)
  unfolding socket setsockopt_reuse_addr set_buffers set_nodelay tcp_listen
  tcp_setup_socket_listening port dim_snd_buf dim_rcv_buf tcp_no_delay = do
    fd ← socket
    elim fd [
      | none ↦ pure (false, no_fd)
      | some fd ↦ do
        fine ← setsockopt_reuse_addr fd
        elim fine [
          | false ↦ pure (false, pos fd)
          | true ↦ do
            set_buffers fd dim_snd_buf dim_rcv_buf
            set_nodelay fd tcp_no_delay
            tcp_listen fd port
        ]
    ]
