-- ===== src/Ritardatore/Start/Loop.antt =====
-- main of src/ritardatore/Ritardatore.c: its arguments, its start and its loop, and the handler of
-- the signals.
use gproxy.Common.{
  ℕ, zero, suc, ◌+◌, ◌-◌, ◌*◌, ◌%◌, ◌^◌, Bool, false, ◌&&◌, List, [], ◌∷◌, ltb, length,
  if◌then◌else◌,
}
use gproxy.Common.Int.{ℤ, pos, negsuc}
use gproxy.Common.Outcome.{ok, halt, fault, starve, Cmd, pure, ◌>>=◌, ◌>>◌, read, modify}
use gproxy.Common.Outcome.Exits.{require}
use gproxy.Wire.Decimal.{atoi}
use gproxy.Ritardatore.Util.Vector.{init_random}
use gproxy.Ritardatore.{
  Ritardatore, Coppia, SelectAnswer, pronti, interrupted, signalled, failed, put, close_coppia,
  max_num_connections,
}
use gproxy.Ritardatore.Main.{Remoti, attesa_massima, main_round}
use gproxy.Ritardatore.Start.{creazione_nuova_coppia_porte}

-- `sig_print`: every pair is closed, and the process ends.
unfoldable pub chiudi_tutte : (n i : ℕ) → Ritardatore → Ritardatore
chiudi_tutte zero i s = s
chiudi_tutte (suc n) i s = chiudi_tutte n (suc i) (close_coppia i s)

unfoldable pub sig_print : {A : Type 0} → Cmd Ritardatore A
unfolding chiudi_tutte
sig_print s = halt 0 (chiudi_tutte max_num_connections 0 s)

-- An argument as a port.
abbrev pub to_port : ℤ → ℕ
to_port (pos n) = n % 2 ^ 16
to_port (negsuc n) = 2 ^ 16 - 1 - n % 2 ^ 16

-- `ADDRESSSTRINGLEN`
abbrev pub address_string_len : ℕ
address_string_len = 32

-- `127.0.0.1`
abbrev pub localhost : List ℕ
localhost = b'1' ∷ b'2' ∷ b'7' ∷ b'.' ∷ b'0' ∷ b'.' ∷ b'0' ∷ b'.' ∷ b'1' ∷ []

-- The remote ends and the seed: the defaults, or those of nine arguments. A text that does not fit
-- its array is written past it.
unfoldable pub leggi_parametri : (argv : List (List ℕ)) → Cmd Ritardatore (Remoti × ℤ)
leggi_parametri (name ∷ []) = do
  modify (λ s. record s {
    first_local_port_number_sender_side = 61000;
    first_local_port_number_receiver_side = 62000;
    percentuale_errore = pos 15;
  })
  pure (
    record {
      port_number_sender = 60000;
      port_number_receiver = 63000;
      sender_ip_string = localhost;
      receiver_ip_string = localhost;
    },
    negsuc 0,
  )
leggi_parametri (name ∷ ip ∷ port ∷ first ∷ first' ∷ ip' ∷ port' ∷ perc ∷ seme ∷ debug ∷ []) = λ s.
    if ltb (length ip) address_string_len && ltb (length ip') address_string_len
    then ok
        (
          record {
            port_number_sender = to_port (atoi port);
            port_number_receiver = to_port (atoi port');
            sender_ip_string = ip;
            receiver_ip_string = ip';
          },
          atoi seme,
        )
        (record s {
          first_local_port_number_sender_side = to_port (atoi first);
          first_local_port_number_receiver_side = to_port (atoi first');
          percentuale_errore = atoi perc;
        })
    else fault
leggi_parametri argv = λ s. halt 1 s

-- a pair before its start
abbrev pub vuota : Coppia → Coppia
vuota c = record c { fd_latosender = negsuc 0; fd_latoreceiver = negsuc 0; attivo = false }

-- The pairs of the indices from `i` on, the first to change its state after 5 seconds, each other
-- 10 seconds later.
unfoldable pub crea_tutte : (granted : ℕ → ℕ) (n i : ℕ) → Cmd Ritardatore (Unit {0})
crea_tutte granted zero i = pure tt
crea_tutte granted (suc n) i = do
  creazione_nuova_coppia_porte granted (5 + i * 10)
  crea_tutte granted n (suc i)

-- What the start's calls answer: the process's number, the sequence of a seed, the sizes that the
-- system makes of a buffer's, and whether `signal` succeeds.
pub record Sistema : Type 0 where
  pub pid : ℕ
  pub generator : ℕ → ℕ → ℕ
  pub granted : ℕ → ℕ
  pub signal : ℕ → Bool

-- From the loop that empties the pairs to the one that creates them. The clock counts the seconds
-- from 1970, so taking 10 from it stops at no 0.
unfoldable pub prepara : Sistema → (seme : ℤ) → Cmd Ritardatore (Unit {0})
unfolding crea_tutte
prepara sistema seme = do
  modify (λ s. record s {
    coppiafd = λ i. if ltb i max_num_connections then vuota (s.coppiafd i) else s.coppiafd i;
    root = [];
    casuali = sistema.generator (init_random sistema.pid seme);
    estrazioni = 0;
  })
  require 2 (sistema.signal 1)
  require 2 (sistema.signal 2)
  require 2 (sistema.signal 15)
  modify (λ s. record s { all_fds = λ fd. false; maxfd = negsuc 0 })
  crea_tutte sistema.granted max_num_connections 0
  modify (λ s. record s {
    coppiafd =
        put s.coppiafd 0
          (record (s.coppiafd 0) { sec_istcreazione = (s.coppiafd 0).sec_istcreazione - 10 });
  })

-- The loop around `select`: the descriptors that are ready. It computes how long it waits at most
-- each time, and waits again behind a signal that nothing handles.
unfoldable pub select_loop : List SelectAnswer → Cmd Ritardatore (ℕ → Bool)
unfolding sig_print attesa_massima
select_loop [] = do
  root ← read Ritardatore.root
  _ ← attesa_massima root
  λ s. starve (record s { selects = [] })
select_loop (pronti fds ∷ rest) = do
  root ← read Ritardatore.root
  _ ← attesa_massima root
  modify (λ s. record s { selects = rest })
  read (λ s fd. s.all_fds fd && fds fd)
select_loop (interrupted ∷ rest) = do
  root ← read Ritardatore.root
  _ ← attesa_massima root
  select_loop rest
select_loop (signalled ∷ rest) = do root ← read Ritardatore.root; _ ← attesa_massima root; sig_print
select_loop (failed ∷ rest) = do
  root ← read Ritardatore.root
  _ ← attesa_massima root
  λ s. halt 1 (record s { selects = rest })

-- `for(;;)`, observed for a number of rounds.
unfoldable pub main_loop : (fuel rounds : ℕ) → Remoti → Cmd Ritardatore (Unit {0})
unfolding select_loop main_round
main_loop fuel zero r = pure tt
main_loop fuel (suc rounds) r = do
  script ← read Ritardatore.selects
  rdset ← select_loop script
  main_round fuel rdset r
  main_loop fuel rounds r

unfoldable pub main :
    Sistema → (argv : List (List ℕ)) → (fuel rounds : ℕ) → Cmd Ritardatore (Unit {0})
unfolding leggi_parametri prepara main_loop
main sistema argv fuel rounds = do
  (remoti, seme) ← leggi_parametri argv
  prepara sistema seme
  main_loop fuel rounds remoti
