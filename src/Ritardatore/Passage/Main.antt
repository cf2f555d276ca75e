-- ===== src/Ritardatore/Passage/Main.antt =====
-- What the network emulator sends, from the start of its loop or of its program.
use gproxy.Common.{ℕ, zero, suc, ◌+◌, ◌<◌, ◌≤◌, ◌≡◌, refl, ap, sym, List, [], ◌∷◌, arith}
use mathlib.Core.Path.{subst}
use gproxy.Common.Outcome.Run.{Run, goes, stops, waits, chain, Run-both}
use gproxy.Ritardatore.{
  Ritardatore, SelectAnswer, pronti, interrupted, signalled, failed, close_coppia,
  max_num_connections,
}
use gproxy.Ritardatore.Main.{Remoti}
use gproxy.Common.Int.{pos, negsuc}
use gproxy.Ritardatore.Traffic.{icmp}
use gproxy.Ritardatore.Passage.Setup.{prepara-Keeps}
use gproxy.Ritardatore.Start.Loop.{
  Sistema, leggi_parametri, main, chiudi_tutte, sig_print, select_loop, main_loop,
}
use gproxy.Ritardatore.Start.Segnali.{attesa_massima-clock}
use gproxy.Ritardatore.Passage.{
  Every, Arrives, datagrams, weight_sent, weight_waiting, weight_coming, Flow, Sends, Passage,
}
use gproxy.Ritardatore.Passage.Steps.{Passage-frame}
use gproxy.Ritardatore.Passage.Arrivals.{Keeps, close_coppia-kept}
use gproxy.Ritardatore.Passage.Rounds.{main_round-Keeps}

module _ {flow : Flow} where
  chiudi_tutte-Passage :
      (n i : ℕ) (s : Ritardatore) → Passage flow [] s → Passage flow [] (chiudi_tutte n i s)
  unfolding chiudi_tutte
  chiudi_tutte-Passage zero i s h = h
  chiudi_tutte-Passage (suc n) i s h =
      chiudi_tutte-Passage n (suc i) (close_coppia i s) (Passage-frame h (close_coppia-kept i s))

  select-Keeps :
      (script : List SelectAnswer) (s : Ritardatore)
      → Passage flow [] s
      → Keeps flow (select_loop script s)
  unfolding select_loop sig_print
  select-Keeps [] s h =
      let (n, w, e) = attesa_massima-clock s.root s in
      rw e (waits (Passage-frame h (refl, refl, refl)))
  select-Keeps (pronti fds ∷ rest) s h =
      let (n, w, e) = attesa_massima-clock s.root s in
      rw e (goes (Passage-frame h (refl, refl, refl)))
  select-Keeps (interrupted ∷ rest) s h =
      let (n, w, e) = attesa_massima-clock s.root s in
      rw e (select-Keeps rest (record s { letture = n }) (Passage-frame h (refl, refl, refl)))
  select-Keeps (signalled ∷ rest) s h =
      let (n, w, e) = attesa_massima-clock s.root s in
      rw e (
        stops (
          chiudi_tutte-Passage max_num_connections 0 (record s { letture = n })
            (Passage-frame h (refl, refl, refl))))
  select-Keeps (failed ∷ rest) s h =
      let (n, w, e) = attesa_massima-clock s.root s in
      rw e (stops (Passage-frame h (refl, refl, refl)))

  main_loop-Keeps :
      (fuel rounds : ℕ) (r : Remoti) (s : Ritardatore)
      → flow.total < fuel
      → Passage flow [] s
      → Keeps flow (main_loop fuel rounds r s)
  unfolding main_loop
  main_loop-Keeps fuel zero r s enough h = goes h
  main_loop-Keeps fuel (suc rounds) r s enough h = chain (select-Keeps s.selects s h) λ rdset t h'.
      chain (main_round-Keeps fuel rdset r t enough h')
        λ _ u h''. main_loop-Keeps fuel rounds r u enough h''

-- What the emulator has sent are datagrams that came and reports of such, and together with those
-- that wait and those to come they weigh no more than what was to come.
pub record Relayed (D : List ℕ → Type 0) (weight : List ℕ → ℕ) (s t : Ritardatore) : Type 0 where
  pub passed : Every (Sends D) t.spediti
  pub weighed :
      weight_sent weight t.spediti + weight_waiting weight t.root + weight_coming weight t.recvs
      ≤ weight_coming weight s.recvs

-- The emulator from its start without arguments, when it has sent nothing yet and whatever its calls
-- answer, with more fuel than datagrams are to come: it goes on, exits or waits for ever, without
-- fault and with fuel left. Whatever holds of each datagram that is to come: each of those that
-- were sent by then has it too, or is the report of one that has it. And for any weight in which no
-- report exceeds its datagram, as the number of the packets with certain bytes: those sent, those
-- waiting and those still to come weigh together no more than what was to come.
pub main-Relayed :
    (D : List ℕ → Type 0) (weight : List ℕ → ℕ) (sistema : Sistema) (name : List ℕ)
    (fuel rounds : ℕ) {s : Ritardatore}
    → ((counter : ℕ) (b : List ℕ) → weight (icmp counter b) ≤ weight b)
    → s.spediti ≡ []
    → Every (Arrives D) s.recvs
    → datagrams s.recvs < fuel
    → Run (Relayed D weight s) (Relayed D weight s) (main sistema (name ∷ []) fuel rounds s)
unfolding main leggi_parametri
main-Relayed D weight sistema name fuel rounds {s} lighter fresh arrive enough =
    let started : Ritardatore = record s {
      first_local_port_number_sender_side = 61000;
      first_local_port_number_receiver_side = 62000;
      percentuale_errore = pos 15;
    } in
    let flow : Flow = record {
      arrives = D;
      weight = weight;
      lighter = lighter;
      total = datagrams s.recvs;
      mass = weight_coming weight s.recvs;
    } in
    let h : Passage flow [] (record started { root = [] }) = record {
      waiting = tt;
      sent = subst (Every (Sends D)) (sym fresh) tt;
      to_come = arrive;
      counted = omega arith;
      weighed = omega (arith, ap (weight_sent weight) fresh);
    } in
    Run-both
      (chain (prepara-Keeps sistema (negsuc 0) started h)
        λ _ t h'. main_loop-Keeps fuel rounds _ t enough h')
      λ t h'. record { passed = h'.sent; weighed = omega (arith, h'.weighed) }
