-- ===== src/Ritardatore/Main.antt =====
-- One round of the main loop of src/ritardatore/Ritardatore.c behind its `select`.
use gproxy.Common.{ℕ, zero, suc, Bool, true, false, List, [], ◌∷◌, ◌++◌, ◌&&◌, if◌then◌else◌}
use gproxy.Common.Int.{ℤ, pos, negsuc}
use gproxy.Common.Outcome.{ok, Cmd, pure, ◌>>=◌, ◌>>◌, read, modify, spent}
use gproxy.Ritardatore.Util.{Timeval, differenza, minoreouguale}
use gproxy.Ritardatore.{
  Ritardatore, Coppia, Comando, cmd_addport, cmd_send, Elemento, max_num_connections, gettimeofday,
  check_port, cambia_stato_canale_se_scaduto_burst, normalised,
}
use gproxy.Ritardatore.Traffic.{Lati, ricevo_inserisco}

-- `sendto`'s answers are consumed; with the script spent, it succeeds.
unfoldable pub send_udp : Comando → List Bool → Cmd Ritardatore (Unit {0})
send_udp c [] s = ok tt (record s { spediti = s.spediti ++ c ∷ [] })
send_udp c (true ∷ rest) s = ok tt (record s { spediti = s.spediti ++ c ∷ []; sends = rest })
send_udp c (false ∷ rest) s = ok tt (record s { sends = rest })

unfoldable pub send_if_open : ℕ → Comando → Cmd Ritardatore (Unit {0})
send_if_open port c s = if check_port port s.coppiafd then send_udp c s.sends s else ok tt s

-- One turn of the loop over the list, with `next` the turns behind it.
unfoldable pub spedisci_comando :
    (next : Cmd Ritardatore (Unit {0})) → Comando → List Elemento → Cmd Ritardatore (Unit {0})
spedisci_comando next cmd_addport rest = next
spedisci_comando next (cmd_send fd port dest ip buf) rest = do
  send_if_open port (cmd_send fd port dest ip buf)
  modify (λ s. record s { root = rest })
  next

unfoldable pub spedisci_primo :
    (next : Cmd Ritardatore (Unit {0})) → List Elemento → Cmd Ritardatore (Unit {0})
spedisci_primo next [] = pure tt
spedisci_primo next (e ∷ rest) = do
  now ← gettimeofday
  modify (λ s. record s { root = normalised e ∷ rest })
  if minoreouguale e.timeout now then spedisci_comando next e.comando rest else pure tt

unfoldable pub spedisci_scaduti : (fuel : ℕ) → Cmd Ritardatore (Unit {0})
spedisci_scaduti zero s = spent s
spedisci_scaduti (suc fuel) s = spedisci_primo (spedisci_scaduti fuel) s.root s

unfoldable pub cambia_stati : (n i : ℕ) → Cmd Ritardatore (Unit {0})
cambia_stati zero i = pure tt
cambia_stati (suc n) i = do
  attivo ← read (λ s. (s.coppiafd i).attivo)
  perc ← read Ritardatore.percentuale_errore
  _ ← if attivo then cambia_stato_canale_se_scaduto_burst i perc else pure 0
  cambia_stati n (suc i)

-- The remote ends that the program's arguments name.
pub record Remoti : Type 0 where
  pub port_number_sender : ℕ
  pub port_number_receiver : ℕ
  pub sender_ip_string : List ℕ
  pub receiver_ip_string : List ℕ

abbrev pub da_sender : Remoti → Coppia → Lati
da_sender r c = record {
  fd_latoricevere = c.fd_latosender;
  fd_latospedire = c.fd_latoreceiver;
  local_port_number_latospedire = c.port_number_latoreceiver;
  local_port_number_latoricevere = c.port_number_latosender;
  remote_port_number_lato_spedire = r.port_number_receiver;
  remote_port_number_latoricevere = r.port_number_sender;
  remote_ip_string_latoricevere = r.sender_ip_string;
  remote_ip_string_latospedire = r.receiver_ip_string;
}

abbrev pub da_receiver : Remoti → Coppia → Lati
da_receiver r c = record {
  fd_latoricevere = c.fd_latoreceiver;
  fd_latospedire = c.fd_latosender;
  local_port_number_latospedire = c.port_number_latosender;
  local_port_number_latoricevere = c.port_number_latoreceiver;
  remote_port_number_lato_spedire = r.port_number_sender;
  remote_port_number_latoricevere = r.port_number_receiver;
  remote_ip_string_latoricevere = r.receiver_ip_string;
  remote_ip_string_latospedire = r.sender_ip_string;
}

-- `FD_ISSET` on the set that `select` leaves.
abbrev pub isset : ℤ → (ℕ → Bool) → Bool
isset (pos fd) set = set fd
isset (negsuc n) set = false

-- One side of one pair: its datagram, when the pair is active and `select` says there is one.
unfoldable pub ricevi_da :
    (i : ℕ) (rdset : ℕ → Bool) → (Coppia → ℤ) → (Coppia → Lati) → Cmd Ritardatore ℕ
ricevi_da i rdset fd lati = do
  c ← read (λ s. s.coppiafd i)
  if c.attivo && isset (fd c) rdset then ricevo_inserisco i (lati c) else pure 0

unfoldable pub ricevi : (n i : ℕ) (rdset : ℕ → Bool) (r : Remoti) → Cmd Ritardatore (Unit {0})
ricevi zero i rdset r = pure tt
ricevi (suc n) i rdset r = do
  _ ← ricevi_da i rdset Coppia.fd_latosender (da_sender r)
  _ ← ricevi_da i rdset Coppia.fd_latoreceiver (da_receiver r)
  ricevi n (suc i) rdset r

-- `root->timeout` is given for the list's first element.
unfoldable pub compute_timeout_first_pkt : Timeval → Cmd Ritardatore Timeval
compute_timeout_first_pkt timeout = do now ← gettimeofday; pure (differenza timeout now)

-- What the main loop waits at most: until the first element's timeout, or 100 milliseconds.
unfoldable pub attesa_massima : List Elemento → Cmd Ritardatore Timeval
attesa_massima [] = pure (record { tv_sec = 0; tv_usec = 100000 })
attesa_massima (e ∷ rest) = compute_timeout_first_pkt e.timeout

-- The main loop's body behind a `select` that has left `rdset`.
unfoldable pub main_round : (fuel : ℕ) (rdset : ℕ → Bool) (r : Remoti) → Cmd Ritardatore (Unit {0})
main_round fuel rdset r = do
  spedisci_scaduti fuel
  cambia_stati max_num_connections 0
  ricevi max_num_connections 0 rdset r
