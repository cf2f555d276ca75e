-- ===== src/Ritardatore.antt =====
-- src/ritardatore/Ritardatore.c: the emulated network between the proxies. It keeps each datagram
-- for a while, drops some, and reports some of the dropped ones to their sender.
pub mod Util
pub mod Traffic
pub mod Main
pub mod Start
pub mod Queue
pub mod Channels
pub mod Fates
pub mod Delays
pub mod Expiry
pub mod Passage
use gproxy.Common.{
  ℕ, zero, suc, ◌+◌, ◌-◌, ◌*◌, ◌/◌, ◌%◌, ◌^◌, Bool, true, false, ◌&&◌, ◌||◌, List, [], ◌∷◌, ◌++◌,
  ltb, leb, ◌==◌, if◌then◌else◌, take, drop, length,
}
use gproxy.Common.Int.{ℤ, pos, negsuc, ltb_ℤ}
use gproxy.Common.Outcome.{ok, halt, starve, Cmd, pure, ◌>>=◌, ◌>>◌, read, modify}
use gproxy.Wire.{header_size, body_type}
use Util.Sockets.{Sockets}
use Util.{Timeval, normalizza, somma, differenza, minore, minoreouguale}

-- `COPPIAFD`; `stato_trasmissione` is true for 1, sending, and false for 0, losing.
pub record Coppia : Type 0 where
  pub fd_latosender : ℤ
  pub port_number_latosender : ℕ
  pub fd_latoreceiver : ℤ
  pub port_number_latoreceiver : ℕ
  pub attivo : Bool
  pub sec_istcreazione : ℕ
  pub stato_trasmissione : Bool
  pub ist_prossimo_cambio_stato : Timeval

-- The command of an `ELEMENTOLISTA`, with the fields that it uses; `len` is the length of `buf`.
pub data Comando : Type 0 where
  cmd_addport : Comando
  cmd_send : (fd : ℤ) (port_number_local port_number_dest : ℕ) (ip_dest buf : List ℕ) → Comando

-- `ELEMENTOLISTA`
pub record Elemento : Type 0 where
  pub comando : Comando
  pub timeout : Timeval

-- `recvfrom`: a datagram; `EINTR`; `ECONNRESET`; another error. With the script spent, it waits.
pub data RecvAnswer : Type 0 where
  datagram : List ℕ → RecvAnswer
  interrupted : RecvAnswer
  reset : RecvAnswer
  failed : RecvAnswer

-- `select`: some descriptors are ready, none at the timeout; a signal that nothing handles; one that
-- `sig_print` handles; another error. With the script spent, it waits.
pub data SelectAnswer : Type 0 where
  pronti : (ℕ → Bool) → SelectAnswer
  interrupted : SelectAnswer
  signalled : SelectAnswer
  failed : SelectAnswer

-- The globals of Ritardatore.c and what its calls answer: the clock and `random` are sequences
-- with the number of readings so far, `mallocs` the allocations that still succeed, `seno t t0`
-- the value of `abs(50000*sin((t-t0)/8.0))` and `seno_intero t t0` that of `abs(sin((t-t0)/8.0))`.
pub record Ritardatore : Type 0 where
  pub coppiafd : ℕ → Coppia
  pub root : List Elemento
  pub local_counter : ℕ
  pub percentuale_errore : ℤ
  pub all_fds : ℕ → Bool
  pub open_fds : ℕ → Bool
  pub numspediti : ℕ
  pub numscartati : ℕ
  pub numscartati_senza_icmp : ℕ
  pub bytespediti : ℕ
  pub bytescartati : ℕ
  pub orologio : ℕ → Timeval
  pub letture : ℕ
  pub casuali : ℕ → ℕ
  pub estrazioni : ℕ
  pub seno : ℕ → ℕ → ℕ
  pub seno_intero : ℕ → ℕ → ℕ
  pub mallocs : ℕ
  pub recvs : List RecvAnswer
  pub sends : List Bool
  pub spediti : List Comando
  pub sockets : Sockets
  pub maxfd : ℤ
  pub first_local_port_number_sender_side : ℕ
  pub first_local_port_number_receiver_side : ℕ
  pub counter_localport_sender_side : ℕ
  pub counter_localport_receiver_side : ℕ
  pub selects : List SelectAnswer

abbrev pub max_num_connections : ℕ
max_num_connections = 3

abbrev pub gettimeofday : Cmd Ritardatore Timeval
gettimeofday s = ok (s.orologio s.letture) (record s { letture = suc s.letture })

abbrev pub random : Cmd Ritardatore ℕ
random s = ok (s.casuali s.estrazioni) (record s { estrazioni = suc s.estrazioni })

-- `malloc` with the `exit(9)` behind it
abbrev pub malloc_after : ℕ → Cmd Ritardatore (Unit {0})
malloc_after zero s = halt 9 s
malloc_after (suc n) s = ok tt (record s { mallocs = n })

abbrev pub malloc : Cmd Ritardatore (Unit {0})
malloc s = malloc_after s.mallocs s

abbrev pub put {ℓ} : {A : Type ℓ} → (ℕ → A) → ℕ → A → ℕ → A
put f i x j = if j == i then x else f j

-- One pair as `check_port` looks at it.
unfoldable pub serves : ℕ → Coppia → Bool
serves port c =
    c.attivo
    && ((c.port_number_latosender == port
          && (ltb_ℤ (pos 0) c.fd_latosender && ltb_ℤ (pos 0) c.fd_latoreceiver))
        || (c.port_number_latoreceiver == port
            && (ltb_ℤ (pos 0) c.fd_latoreceiver && ltb_ℤ (pos 0) c.fd_latosender)))

-- `n` rounds are left, and `i` is the next index.
unfoldable pub check_port_loop : (n i port : ℕ) → (ℕ → Coppia) → Bool
check_port_loop zero i port coppie = false
check_port_loop (suc n) i port coppie =
    if serves port (coppie i) then true else check_port_loop n (suc i) port coppie

unfoldable pub check_port : ℕ → (ℕ → Coppia) → Bool
check_port port coppie = check_port_loop max_num_connections 0 port coppie

-- `minore` normalises both timeouts where they stand.
abbrev pub normalised : Elemento → Elemento
normalised e = record e { timeout = normalizza e.timeout }

unfoldable pub aggiungi_in_ordine : Elemento → List Elemento → List Elemento
aggiungi_in_ordine p [] = p ∷ []
aggiungi_in_ordine p (q ∷ qs) =
    let rest = aggiungi_in_ordine (normalised p) qs in
    if minore p.timeout q.timeout then normalised p ∷ normalised q ∷ qs else normalised q ∷ rest

-- The fields of one side, when its descriptor is open.
abbrev pub close_fd : ℤ → Ritardatore → Ritardatore
close_fd (pos fd) s = record s {
  all_fds = put s.all_fds fd false;
  open_fds = put s.open_fds fd false;
}
close_fd (negsuc n) s = s

abbrev pub forget_fd : ℤ → ℤ
forget_fd (pos fd) = negsuc 0
forget_fd (negsuc n) = negsuc n

unfoldable pub close_coppia : ℕ → Ritardatore → Ritardatore
close_coppia i s =
    let c = s.coppiafd i in
    if c.attivo
    then record (close_fd c.fd_latoreceiver (close_fd c.fd_latosender s)) {
      coppiafd = put s.coppiafd i (record c {
        attivo = false;
        fd_latosender = forget_fd c.fd_latosender;
        fd_latoreceiver = forget_fd c.fd_latoreceiver;
      });
    }
    else s

-- The milliseconds that a channel stays in its next state.
abbrev pub msec_burst : ℕ → ℕ
msec_burst r = let m = r % 3000 in if ltb m 2000 then 2000 else m

abbrev pub msec_trasmissione : ℕ → ℕ
msec_trasmissione r = let m = r % 10000 in if ltb m 3000 then 3000 else m

abbrev pub istante_dopo : Timeval → ℕ → Timeval
istante_dopo now msec =
    normalizza
      (record { tv_sec = now.tv_sec + msec / 1000; tv_usec = now.tv_usec + msec * 1000 % 1000000 })

-- The pair with the state changed, from the burst's end `now` and one number of `random`.
unfoldable pub cambiata : Timeval → ℕ → Coppia → Coppia
cambiata now r c =
    if c.stato_trasmissione
    then record c {
      stato_trasmissione = false;
      ist_prossimo_cambio_stato = istante_dopo now (msec_burst r);
    }
    else record c {
      stato_trasmissione = true;
      ist_prossimo_cambio_stato = istante_dopo now (msec_trasmissione r);
    }

abbrev pub set_coppia : ℕ → Coppia → Cmd Ritardatore (Unit {0})
set_coppia i c = modify λ s. record s { coppiafd = put s.coppiafd i c }

-- The test, which normalises the instant of the pair, and then the change.
unfoldable pub cambia_stato_canale_se_scaduto_burst : ℕ → ℤ → Cmd Ritardatore ℕ
cambia_stato_canale_se_scaduto_burst i percentuale_errore =
    if ltb_ℤ (pos 0) percentuale_errore
    then (do
      now ← gettimeofday
      c ← read (λ s. s.coppiafd i)
      set_coppia i (record c { ist_prossimo_cambio_stato = normalizza c.ist_prossimo_cambio_stato })
      if minoreouguale c.ist_prossimo_cambio_stato now
          then (do r ← random; set_coppia i (cambiata now r c); pure 1)
          else pure 0)
    else pure 0
