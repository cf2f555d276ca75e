-- ===== src/Ritardatore/Passage/Setup.antt =====
-- The emulator's start and the invariant of what passes.
use gproxy.Common.{
  ℕ, zero, suc, ◌+◌, ◌*◌, ◌≡◌, refl, ap, Bool, true, false, [], inl, inr, Bool-cases,
}
use gproxy.Common.Int.{ℤ, pos, negsuc}
use gproxy.Common.Outcome.{Outcome}
use gproxy.Common.Outcome.Ends.{Ends, ends, exits, Ends-zoom}
use gproxy.Common.Outcome.Run.{Run, goes, stops, chain}
use gproxy.Common.Outcome.Exits.{require}
use gproxy.Ritardatore.Util.Sockets.{Sockets}
use gproxy.Ritardatore.Util.Sockets.Setup.{udp_setup_socket_bound}
use gproxy.Ritardatore.Util.Sockets.Opened.{udp_setup_socket_bound-Opened}
use gproxy.Ritardatore.{Ritardatore, max_num_connections}
use gproxy.Ritardatore.Start.{
  on_sockets, watch, attiva, apri_latosender, apri_latoreceiver, crea_loop,
  creazione_nuova_coppia_porte,
}
use gproxy.Ritardatore.Start.Loop.{Sistema, crea_tutte, prepara}
use gproxy.Ritardatore.Passage.{Flow, Passage}
use gproxy.Ritardatore.Passage.Steps.{Passage-frame}
use gproxy.Ritardatore.Passage.Arrivals.{Keeps}

Ends-Run :
    {S A : Type 0} {P : A → S → Type 0} {Q : ℕ → S → Type 0} {W : S → Type 0} {R : S → Type 0}
    {r : Outcome S A}
    → Ends P Q W r
    → ((a : A) (s : S) → P a s → R s)
    → ((n : ℕ) (s : S) → Q n s → R s)
    → ((s : S) → W s → R s)
    → Run R R r
Ends-Run (ends p) f g h = goes (f _ _ p)
Ends-Run (exits q) f g h = stops (g _ _ q)
Ends-Run (Ends.waits w) f g h = Run.waits (h _ w)

watch-kept :
    (fd : ℤ) (s : Ritardatore)
    → ((watch fd s).root ≡ s.root)
      × ((watch fd s).spediti ≡ s.spediti)
      × ((watch fd s).recvs ≡ s.recvs)
watch-kept (pos fd) s = (refl, refl, refl)
watch-kept (negsuc n) s = (refl, refl, refl)

module _ {flow : Flow} where
  sockets-Passage :
      {s t : Ritardatore} (k : Sockets)
      → Passage flow [] s
      → t ≡ record s { sockets = k }
      → Passage flow [] t
  sockets-Passage k h e =
      Passage-frame h (ap Ritardatore.root e, ap Ritardatore.spediti e, ap Ritardatore.recvs e)

  require-Keeps :
      (code : ℕ) (test : Bool) (s : Ritardatore)
      → Passage flow [] s
      → Keeps flow (require code test s)
  require-Keeps code true s h = goes h
  require-Keeps code false s h = stops h

  attiva-Keeps : (i sec : ℕ) (s : Ritardatore) → Passage flow [] s → Keeps flow (attiva i sec s)
  unfolding attiva
  attiva-Keeps i sec s h =
      let c = s.coppiafd i in
      let s' = watch c.fd_latosender s in
      let s'' = watch c.fd_latoreceiver s' in
      let h' : Passage flow [] s' = Passage-frame h (watch-kept c.fd_latosender s) in
      let h'' : Passage flow [] s'' = Passage-frame h' (watch-kept c.fd_latoreceiver s') in
      goes (Passage-frame h'' (refl, refl, refl))

  module _ (granted : ℕ → ℕ) where
    udp-Keeps :
        (port : ℕ) (s : Ritardatore)
        → Passage flow [] s
        → Keeps flow (on_sockets (udp_setup_socket_bound granted port (pos 65535) (pos 65535)) s)
    udp-Keeps port s h =
        Ends-Run
          (Ends-zoom Ritardatore.sockets (λ s k. record s { sockets = k })
            (udp_setup_socket_bound granted port (pos 65535) (pos 65535)) s
            (udp_setup_socket_bound-Opened granted port (pos 65535) (pos 65535) s.sockets))
          (λ a t (k, e, same). sockets-Passage k h e) (λ n t (k, e, same). sockets-Passage k h e)
          (λ t (k, e, same). sockets-Passage k h e)

    apri_latosender-Keeps :
        (i : ℕ) (s : Ritardatore) → Passage flow [] s → Keeps flow (apri_latosender granted i s)
    unfolding apri_latosender
    apri_latosender-Keeps i s h = chain (udp-Keeps _ s h) λ r t h'.
        chain (require-Keeps 1 r.0 _ (Passage-frame h' (refl, refl, refl)))
          λ _ u h''. goes (Passage-frame h'' (refl, refl, refl))

    apri_latoreceiver-Keeps :
        (i : ℕ) (s : Ritardatore) → Passage flow [] s → Keeps flow (apri_latoreceiver granted i s)
    unfolding apri_latoreceiver
    apri_latoreceiver-Keeps i s h = chain (udp-Keeps _ s h) λ r t h'.
        chain (require-Keeps 1 r.0 _ (Passage-frame h' (refl, refl, refl)))
          λ _ u h''. goes (Passage-frame h'' (refl, refl, refl))

    crea-Keeps :
        (n i sec : ℕ) (s : Ritardatore)
        → Passage flow [] s
        → Keeps flow (crea_loop granted n i sec s)
    unfolding crea_loop
    crea-Keeps zero i sec s h = goes h
    crea-Keeps (suc n) i sec s h = elim (Bool-cases (s.coppiafd i).attivo) [
      | inl on ↦ rw on (crea-Keeps n (suc i) sec s h)
      | inr off ↦ rw off (
          chain (apri_latosender-Keeps i s h)
            λ _ t h'. chain (apri_latoreceiver-Keeps i t h') λ _ u h''. attiva-Keeps i sec u h'')
    ]

    tutte-Keeps :
        (n i : ℕ) (s : Ritardatore) → Passage flow [] s → Keeps flow (crea_tutte granted n i s)
    unfolding crea_tutte creazione_nuova_coppia_porte
    tutte-Keeps zero i s h = goes h
    tutte-Keeps (suc n) i s h =
        chain (crea-Keeps max_num_connections 0 (5 + i * 10) s h)
          λ _ t h'. tutte-Keeps n (suc i) t h'

  -- The start empties the list.
  pub prepara-Keeps :
      (sistema : Sistema) (seme : ℤ) (s : Ritardatore)
      → Passage flow [] (record s { root = [] })
      → Keeps flow (prepara sistema seme s)
  unfolding prepara
  prepara-Keeps sistema seme s h =
      chain (require-Keeps 2 (sistema.signal 1) _ (Passage-frame h (refl, refl, refl))) λ _ t1 h1.
        chain (require-Keeps 2 (sistema.signal 2) t1 h1) λ _ t2 h2.
          chain (require-Keeps 2 (sistema.signal 15) t2 h2) λ _ t3 h3.
            chain
              (tutte-Keeps sistema.granted max_num_connections 0 _
                (Passage-frame h3 (refl, refl, refl)))
              λ _ t4 h4. goes (Passage-frame h4 (refl, refl, refl))
