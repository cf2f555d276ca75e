-- ===== src/Ritardatore/Start.antt =====
-- src/ritardatore/Ritardatore.c: creazione_nuova_coppia_porte, sig_print, and main up to its loop.
pub mod Sides
pub mod Coppie
pub mod Loop
pub mod Servite
pub mod Segnali
use gproxy.Common.{
  ℕ, zero, suc, ◌+◌, ◌-◌, ◌*◌, ◌%◌, ◌^◌, Bool, true, false, List, [], ◌∷◌, ltb, length,
  if◌then◌else◌, ◌==◌,
}
use gproxy.Common.Int.{ℤ, pos, negsuc, ltb_ℤ}
use gproxy.Common.Outcome.{ok, halt, fault, Cmd, pure, ◌>>=◌, ◌>>◌, read, modify, zoom}
use gproxy.Common.Outcome.Exits.{require}
use gproxy.Wire.Decimal.{atoi, to_int}
use gproxy.Ritardatore.Util.{Timeval}
use gproxy.Ritardatore.Util.Sockets.{Sockets}
use gproxy.Ritardatore.Util.Sockets.Setup.{udp_setup_socket_bound}
use gproxy.Ritardatore.Util.Vector.{init_random}
use gproxy.Ritardatore.{
  Ritardatore, Coppia, put, set_coppia, gettimeofday, close_coppia, max_num_connections,
}
use gproxy.Ritardatore.Main.{Remoti}

abbrev pub on_sockets : {A : Type 0} → Cmd Sockets A → Cmd Ritardatore A
on_sockets = zoom Ritardatore.sockets (λ s k. record s { sockets = k })

-- `FD_SET`, and the greatest descriptor.
abbrev pub watch : ℤ → Ritardatore → Ritardatore
watch (negsuc n) s = s
watch (pos fd) s = record s {
  all_fds = put s.all_fds fd true;
  maxfd = if ltb_ℤ s.maxfd (pos fd) then pos fd else s.maxfd;
}

-- The pair is active, watched, and sends for the seconds given.
unfoldable pub attiva : ℕ → (sec : ℕ) → Cmd Ritardatore (Unit {0})
attiva i sec = do
  c ← read (λ s. s.coppiafd i)
  modify (watch c.fd_latosender)
  modify (watch c.fd_latoreceiver)
  now ← gettimeofday
  set_coppia i (record c {
    attivo = true;
    sec_istcreazione = now.tv_sec;
    stato_trasmissione = true;
    ist_prossimo_cambio_stato = record now { tv_sec = now.tv_sec + sec };
  })

-- The two sockets of the pair, and the ports that they are bound to. `granted` is the size that
-- the system makes of a buffer's.
module _ (granted : ℕ → ℕ) where
  unfoldable pub apri_latosender : ℕ → Cmd Ritardatore (Unit {0})
  apri_latosender i = do
    port ← read (λ s. s.first_local_port_number_sender_side + s.counter_localport_sender_side)
    (ris, fd) ← on_sockets (udp_setup_socket_bound granted (port % 2 ^ 16) (pos 65535) (pos 65535))
    modify (λ s. record s {
      coppiafd = put s.coppiafd i (record (s.coppiafd i) { fd_latosender = fd });
    })
    require 1 ris
    modify (λ s. record s {
      coppiafd =
          put s.coppiafd i (record (s.coppiafd i) { port_number_latosender = port % 2 ^ 16 });
      counter_localport_sender_side = s.counter_localport_sender_side + 1;
    })

  unfoldable pub apri_latoreceiver : ℕ → Cmd Ritardatore (Unit {0})
  apri_latoreceiver i = do
    port ← read (λ s. s.first_local_port_number_receiver_side + s.counter_localport_receiver_side)
    (ris, fd) ← on_sockets (udp_setup_socket_bound granted (port % 2 ^ 16) (pos 65535) (pos 65535))
    modify (λ s. record s {
      coppiafd = put s.coppiafd i (record (s.coppiafd i) { fd_latoreceiver = fd });
    })
    require 1 ris
    modify (λ s. record s {
      coppiafd =
          put s.coppiafd i (record (s.coppiafd i) { port_number_latoreceiver = port % 2 ^ 16 });
      counter_localport_receiver_side = s.counter_localport_receiver_side + 1;
    })

  -- The first pair that is not active; `n` rounds are left, and `i` is the next index.
  unfoldable pub crea_loop : (n i : ℕ) → (sec : ℕ) → Cmd Ritardatore (Unit {0})
  crea_loop zero i sec = pure tt
  crea_loop (suc n) i sec = do
    attivo ← read (λ s. (s.coppiafd i).attivo)
    elim attivo [
      | true ↦ crea_loop n (suc i) sec
      | false ↦ do apri_latosender i; apri_latoreceiver i; attiva i sec
    ]

  unfoldable pub creazione_nuova_coppia_porte : (sec : ℕ) → Cmd Ritardatore (Unit {0})
  creazione_nuova_coppia_porte sec = crea_loop max_num_connections 0 sec
