-- ===== src/Ritardatore/Passage/Rounds.antt =====
-- The rounds of the emulator's main loop and the invariant of what passes.
use gproxy.Common.{
  ℕ, zero, suc, ◌<◌, ◌≡◌, ◌&&◌, refl, inl, inr, Bool, true, false, List, [], ◌∷◌, length, arith,
  Bool-cases,
}
use gproxy.Common.Int.{ℤ, pos, ltb_ℤ}
use gproxy.Common.Outcome.{Cmd}
use gproxy.Common.Outcome.Returns
use gproxy.Common.Outcome.Returns.{Returns, returns}
use gproxy.Common.Outcome.Run.{goes, chain}
use gproxy.Ritardatore.Util.{minoreouguale}
use gproxy.Ritardatore.{
  Ritardatore, Coppia, Comando, cmd_addport, cmd_send, Elemento, check_port,
  cambia_stato_canale_se_scaduto_burst, max_num_connections,
}
use gproxy.Ritardatore.Traffic.{Lati}
use gproxy.Ritardatore.Main.{
  send_udp, send_if_open, spedisci_comando, spedisci_primo, spedisci_scaduti, cambia_stati,
  ricevi_da, ricevi, isset, main_round, Remoti, da_sender, da_receiver,
}
use gproxy.Ritardatore.Passage.{Sends, bytes_of, Flow, Passage}
use gproxy.Ritardatore.Passage.Steps.{
  Passage-taken, Passage-first, Passage-sent, Passage-dropped, Passage-frame,
}
use gproxy.Ritardatore.Passage.Arrivals.{Keeps, ricevo_inserisco-Keeps}

module _ {flow : Flow} where
  -- `sendto`, while the datagram's element is still the list's first.
  send_udp-Passage :
      (rest : List Elemento) (c : Comando) (script : List Bool) (s : Ritardatore)
      → Sends flow.arrives c
      → Passage flow (bytes_of c ∷ []) (record s { root = rest })
      → Returns (λ _ t. Passage flow [] (record t { root = rest })) (send_udp c script s)
  unfolding send_udp
  send_udp-Passage rest c [] s p h = returns (Passage-frame (Passage-sent c h p) (refl, refl, refl))
  send_udp-Passage rest c (true ∷ script) s p h =
      returns (Passage-frame (Passage-sent c h p) (refl, refl, refl))
  send_udp-Passage rest c (false ∷ script) s p h =
      returns (Passage-frame (Passage-dropped h) (refl, refl, refl))

  send_if_open-Passage :
      (rest : List Elemento) (port : ℕ) (c : Comando) (s : Ritardatore)
      → Sends flow.arrives c
      → Passage flow (bytes_of c ∷ []) (record s { root = rest })
      → Returns (λ _ t. Passage flow [] (record t { root = rest })) (send_if_open port c s)
  unfolding send_if_open
  send_if_open-Passage rest port c s p h = elim (Bool-cases (check_port port s.coppiafd)) [
    | inl serving ↦ rw serving (send_udp-Passage rest c s.sends s p h)
    | inr shut ↦ rw shut (returns (Passage-dropped h))
  ]

  spedisci_comando-Keeps :
      (next : Cmd Ritardatore (Unit {0})) (c : Comando) (rest : List Elemento) (s : Ritardatore)
      → ((t : Ritardatore) → t.root ≡ rest → Passage flow [] t → Keeps flow (next t))
      → Sends flow.arrives c
      → Passage flow (bytes_of c ∷ []) (record s { root = rest })
      → Keeps flow (spedisci_comando next c rest s)
  unfolding spedisci_comando
  spedisci_comando-Keeps next cmd_addport rest s go p h = absurd p
  spedisci_comando-Keeps next (cmd_send fd port dest ip buf) rest s go p h =
      let (_, t, runs, h') =
        Returns.result (send_if_open-Passage rest port (cmd_send fd port dest ip buf) s p h) in
      rw runs (go (record t { root = rest }) refl h')

  spedisci-Keeps :
      (fuel : ℕ) (root : List Elemento) (s : Ritardatore)
      → s.root ≡ root
      → length root < fuel
      → Passage flow [] s
      → Keeps flow (spedisci_scaduti fuel s)
  unfolding spedisci_scaduti spedisci_primo
  spedisci-Keeps zero root s first lt h = absurd (omega arith)
  spedisci-Keeps (suc fuel) [] s first lt h = rw first (
      goes (record {
        waiting = tt;
        sent = h.sent;
        to_come = h.to_come;
        counted = omega (arith, h.counted);
        weighed = omega (arith, h.weighed);
      }))
  spedisci-Keeps (suc fuel) (e ∷ rest) s first lt h =
      let (p, h') = Passage-taken first h in
      let now = s.orologio s.letture in
      elim (Bool-cases (minoreouguale e.timeout now)) [
        | inl due ↦
            rw (first, due)
              (spedisci_comando-Keeps (spedisci_scaduti fuel) e.comando rest _
                (λ t rest' held. spedisci-Keeps fuel rest t rest' (omega (arith, lt)) held) p
                (Passage-frame h' (refl, refl, refl)))
        | inr later ↦ rw (first, later) (goes (Passage-first e rest first h))
      ]

  cambia_stato-Keeps :
      (i : ℕ) (perc : ℤ) (s : Ritardatore)
      → Passage flow [] s
      → Keeps flow (cambia_stato_canale_se_scaduto_burst i perc s)
  unfolding cambia_stato_canale_se_scaduto_burst
  cambia_stato-Keeps i perc s h =
      let due = minoreouguale (s.coppiafd i).ist_prossimo_cambio_stato (s.orologio s.letture) in
      elim (Bool-cases (ltb_ℤ (pos 0) perc)) [
        | inr none ↦ rw none (goes h)
        | inl some ↦ elim (Bool-cases due) [
          | inl change ↦ rw (some, change) (goes (Passage-frame h (refl, refl, refl)))
          | inr keep ↦ rw (some, keep) (goes (Passage-frame h (refl, refl, refl)))
        ]
      ]

  cambia_stati-Keeps :
      (n i : ℕ) (s : Ritardatore) → Passage flow [] s → Keeps flow (cambia_stati n i s)
  unfolding cambia_stati
  cambia_stati-Keeps zero i s h = goes h
  cambia_stati-Keeps (suc n) i s h = elim (Bool-cases (s.coppiafd i).attivo) [
    | inl on ↦ rw on (
        chain (cambia_stato-Keeps i s.percentuale_errore s h)
          λ _ t h'. cambia_stati-Keeps n (suc i) t h')
    | inr off ↦ rw off (cambia_stati-Keeps n (suc i) s h)
  ]

  ricevi_da-Keeps :
      (i : ℕ) (rdset : ℕ → Bool) (fd : Coppia → ℤ) (lati : Coppia → Lati) (s : Ritardatore)
      → Passage flow [] s
      → Keeps flow (ricevi_da i rdset fd lati s)
  unfolding ricevi_da
  ricevi_da-Keeps i rdset fd lati s h =
      let ready = (s.coppiafd i).attivo && isset (fd (s.coppiafd i)) rdset in
      elim (Bool-cases ready) [
        | inl it ↦ rw it (ricevo_inserisco-Keeps i (lati (s.coppiafd i)) s h)
        | inr not_ready ↦ rw not_ready (goes h)
      ]

  ricevi-Keeps :
      (n i : ℕ) (rdset : ℕ → Bool) (r : Remoti) (s : Ritardatore)
      → Passage flow [] s
      → Keeps flow (ricevi n i rdset r s)
  unfolding ricevi
  ricevi-Keeps zero i rdset r s h = goes h
  ricevi-Keeps (suc n) i rdset r s h =
      chain (ricevi_da-Keeps i rdset Coppia.fd_latosender (da_sender r) s h) λ _ t h'.
        chain (ricevi_da-Keeps i rdset Coppia.fd_latoreceiver (da_receiver r) t h')
          λ _ u h''. ricevi-Keeps n (suc i) rdset r u h''

  pub main_round-Keeps :
      (fuel : ℕ) (rdset : ℕ → Bool) (r : Remoti) (s : Ritardatore)
      → flow.total < fuel
      → Passage flow [] s
      → Keeps flow (main_round fuel rdset r s)
  unfolding main_round
  main_round-Keeps fuel rdset r s enough h =
      chain (spedisci-Keeps fuel s.root s refl (omega (arith, h.counted)) h) λ _ t h'.
        chain (cambia_stati-Keeps max_num_connections 0 t h')
          λ _ u h''. ricevi-Keeps max_num_connections 0 rdset r u h''
