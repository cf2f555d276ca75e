-- ===== src/Tests/Network.antt =====
-- src/ritardatore/Ritardatore.c and Util.c with three pairs of ports.
use gproxy.Common.{none, ℕ, ◌+◌, ◌≤◌, ◌≡◌, ◌≢◌, refl, Bool, true, false, List, [], ◌∷◌, ◌++◌, arith}
use gproxy.Common.Int.{pos}
use gproxy.Common.Outcome.{ok, out_of_fuel}
use gproxy.Common.Outcome.Returns.{Returns}
use gproxy.Ritardatore.Util.{Timeval, differenza, minore, old_differenza}
use gproxy.Ritardatore.Util.Laws.{micros, old_differenza-differenza}
use gproxy.Ritardatore.Util.Sockets.{Sockets}
use gproxy.Ritardatore.{
  Ritardatore, Coppia, Comando, cmd_addport, cmd_send, Elemento, datagram, interrupted,
  aggiungi_in_ordine, cambia_stato_canale_se_scaduto_burst,
}
use gproxy.Ritardatore.Traffic.{Lati}
use gproxy.Ritardatore.Main.{spedisci_scaduti}
use gproxy.Ritardatore.Queue.{EachMinore, StopsAt, Each, minore-both, aggiungi_in_ordine-place}
use gproxy.Ritardatore.Channels.{Window, cambia_stato-due}
use gproxy.Common.Outcome.Ends.{Ends}
use gproxy.Ritardatore.Expiry.{
  aggiungi_in_ordine-overtakes, served_one, Sent, spedisci_scaduti-Sent, spedisci_scaduti-addport,
}

abbrev at_time : ℕ → ℕ → Timeval
at_time sec usec = record { tv_sec = sec; tv_usec = usec }

abbrev pair : Bool → ℕ → Coppia
pair spedire i = record {
  fd_latosender = pos (3 + i);
  port_number_latosender = 61000 + i;
  fd_latoreceiver = pos (6 + i);
  port_number_latoreceiver = 62000 + i;
  attivo = true;
  sec_istcreazione = 90;
  stato_trasmissione = spedire;
  ist_prossimo_cambio_stato = at_time 100 0;
}

abbrev localhost : List ℕ
localhost = b'1' ∷ 0 ∷ []

abbrev lati : Lati
lati = record {
  fd_latoricevere = pos 3;
  fd_latospedire = pos 6;
  local_port_number_latospedire = 62000;
  local_port_number_latoricevere = 61000;
  remote_port_number_lato_spedire = 63000;
  remote_port_number_latoricevere = 60000;
  remote_ip_string_latoricevere = localhost;
  remote_ip_string_latospedire = localhost;
}

abbrev pub body : List ℕ
body = 0 ∷ 0 ∷ 0 ∷ 9 ∷ b'B' ∷ 42 ∷ []

abbrev command : Comando
command = cmd_send (pos 6) 62000 63000 localhost body

abbrev queued : ℕ → ℕ → Elemento
queued sec usec = record { comando = command; timeout = at_time sec usec }

-- Nothing is set up yet, and every call of the system is done.
abbrev pub sockets : Sockets
sockets = record {
  calls = [];
  next_fd = 3;
  reuse_addr = λ fd. 0;
  tcp_nodelay = λ fd. 0;
  snd_buf = λ fd. 212992;
  rcv_buf = λ fd. 212992;
  flags = λ fd. 2;
  bound = λ fd. none;
  connected = λ fd. none;
  listening = λ fd. false;
}

-- The clock stands at 101.5 seconds, and every draw is the same number.
abbrev pub net : (spedire : Bool) → (draw : ℕ) → List Elemento → Ritardatore
net spedire draw root = record {
  coppiafd = pair spedire;
  root = root;
  local_counter = 3;
  percentuale_errore = pos 15;
  all_fds = λ fd. true;
  open_fds = λ fd. true;
  numspediti = 0;
  numscartati = 0;
  numscartati_senza_icmp = 0;
  bytespediti = 0;
  bytescartati = 0;
  orologio = λ k. at_time 101 500000;
  letture = 0;
  casuali = λ k. draw;
  estrazioni = 0;
  seno = λ t t0. 40000;
  seno_intero = λ t t0. 0;
  mallocs = 2;
  recvs = interrupted ∷ datagram body ∷ [];
  sends = [];
  spediti = [];
  sockets = sockets;
  maxfd = pos 9;
  first_local_port_number_sender_side = 61000;
  first_local_port_number_receiver_side = 62000;
  counter_localport_sender_side = 0;
  counter_localport_receiver_side = 0;
  selects = [];
}

place_example :
    (front : List Elemento) × (back : List Elemento) × (queued 101 0 ∷ queued 103 0 ∷ []
      ≡ front ++ back)
    × (aggiungi_in_ordine (queued 102 0) (queued 101 0 ∷ queued 103 0 ∷ [])
        ≡ front ++ queued 102 0 ∷ back)
    × EachMinore false (at_time 102 0) front
    × StopsAt (at_time 102 0) back
    × Each (λ t. micros t ≤ 102000000) front
place_example =
    aggiungi_in_ordine-place (queued 102 0) (queued 101 0 ∷ queued 103 0 ∷ []) (omega arith)
      (omega arith, (omega arith, tt))

-- The later element is put in front of the earlier one at 102 seconds, between the two.
abbrev overtaken : Ritardatore
overtaken = record (net true 50 []) {
  root = aggiungi_in_ordine (queued 102 100) (queued 101 900000 ∷ []);
  orologio = λ k. at_time 102 0;
}

overtakes_example :
    (spedisci_scaduti 3 overtaken
      ≡ ok tt (record overtaken { letture = 1; root = queued 102 100 ∷ queued 101 900000 ∷ [] }))
    × (spedisci_scaduti 3 (record overtaken { root = queued 101 900000 ∷ [] })
        ≡ spedisci_scaduti 2 (record overtaken {
          root = [];
          letture = 1;
          spediti = served_one overtaken.coppiafd command;
        }))
overtakes_example =
    aggiungi_in_ordine-overtakes 2 (queued 102 100) (queued 101 900000) [] overtaken (omega arith)
      (omega arith) (omega arith) (omega arith) refl (omega arith) (omega arith) tt refl

both_example :
    (minore (at_time 102 100) (at_time 101 900000) ≡ true)
    × (minore (at_time 101 900000) (at_time 102 100) ≡ true)
both_example =
    minore-both (at_time 102 100) (at_time 101 900000) (omega arith) (omega arith) (omega arith)
      (omega arith)

due_example :
    Returns
      (λ r s'.
        (r ≡ 1)
        × ((s'.coppiafd 1).stato_trasmissione ≡ false)
        × Window true (at_time 101 500000) (s'.coppiafd 1).ist_prossimo_cambio_stato
        × ((j : ℕ) → j ≢ 1 → s'.coppiafd j ≡ pair true j))
      (cambia_stato_canale_se_scaduto_burst 1 (pos 15) (net true 50 []))
due_example = cambia_stato-due 1 (pos 15) (net true 50 []) refl (omega arith)

abbrev full : Ritardatore
full = net true 50 (queued 101 0 ∷ queued 103 0 ∷ [])

sent_example : Returns (λ _. Sent full) (spedisci_scaduti 3 full)
sent_example =
    spedisci_scaduti-Sent 3 (queued 101 0 ∷ queued 103 0 ∷ []) full refl
      (omega arith, (omega arith, tt)) (tt, (tt, tt)) refl (omega arith)

-- The command was queued for half a second behind the first reading of the clock, at 100 seconds.
abbrev stuck : Ritardatore
stuck = record (net true 50 []) {
  root = record { comando = cmd_addport; timeout = at_time 100 500000 } ∷ [];
  orologio = λ k. at_time (100 + k) 0;
  letture = 1;
}

addport_example : spedisci_scaduti 1000 stuck ≡ out_of_fuel
addport_example =
    spedisci_scaduti-addport 1000 (at_time 100 500000) [] stuck refl (omega arith)
      (λ k le. omega (arith, le))

old_differenza_example :
    old_differenza (at_time 3 100000) (at_time 1 700000)
    ≡ differenza (at_time 3 100000) (at_time 1 700000)
old_differenza_example = old_differenza-differenza (at_time 3 100000) (at_time 1 700000)
