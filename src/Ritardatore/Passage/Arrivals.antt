-- ===== src/Ritardatore/Passage/Arrivals.antt =====
-- `ricevo_inserisco` and the invariant of what passes.
use gproxy.Common.{
  ℕ, zero, suc, ◌%◌, ◌+◌, ◌*◌, ◌&&◌, ◌≡◌, ◌≤◌, refl, inl, inr, true, false, List, [], ◌∷◌, ltb, leb,
  length, drop, arith, Bool-cases, Bool,
}
use gproxy.Common.Int.{ℤ, pos, negsuc, ltb_ℤ}
use gproxy.Common.Outcome.{Outcome, and_then}
use gproxy.Common.Outcome.Run.{Run, goes, stops, waits}
use gproxy.Ritardatore.Util.{Timeval}
use gproxy.Ritardatore.{Ritardatore, RecvAnswer, datagram, interrupted, reset, failed, close_coppia}
use gproxy.Ritardatore.Traffic.{
  Lati, recvfrom_loop, on_recv, ricevo_inserisco, tipo_is_body, smista, inoltra, scarta_con_icmp,
  scarta_senza_icmp,
}
use gproxy.Ritardatore.Passage.{Every, Arrives, datagrams, weight_coming, Flow, Passage}
use gproxy.Ritardatore.Passage.Steps.{Passage-queued, Passage-dropped, Passage-frame}

-- a run that keeps the invariant, with nothing in hand at its end
abbrev pub Keeps : (flow : Flow) {A : Type 0} → Outcome Ritardatore A → Type 0
Keeps flow r = Run (Passage flow []) (Passage flow []) r

-- `close_coppia` touches no datagram.
pub close_coppia-kept :
    (i : ℕ) (s : Ritardatore)
    → ((close_coppia i s).root ≡ s.root)
      × ((close_coppia i s).spediti ≡ s.spediti)
      × ((close_coppia i s).recvs ≡ s.recvs)
unfolding close_coppia
close_coppia-kept i s =
    by_pair (s.coppiafd i).attivo (s.coppiafd i).fd_latosender (s.coppiafd i).fd_latoreceiver refl
      refl refl
  where
    by_pair :
        (on : Bool) (a b : ℤ)
        → (s.coppiafd i).attivo ≡ on
        → (s.coppiafd i).fd_latosender ≡ a
        → (s.coppiafd i).fd_latoreceiver ≡ b
        → ((close_coppia i s).root ≡ s.root)
          × ((close_coppia i s).spediti ≡ s.spediti)
          × ((close_coppia i s).recvs ≡ s.recvs)
    by_pair false a b on e e' = rw on (refl, refl, refl)
    by_pair true (pos a) (pos b) on e e' = rw (on, e, e') (refl, refl, refl)
    by_pair true (pos a) (negsuc b) on e e' = rw (on, e, e') (refl, refl, refl)
    by_pair true (negsuc a) (pos b) on e e' = rw (on, e, e') (refl, refl, refl)
    by_pair true (negsuc a) (negsuc b) on e e' = rw (on, e, e') (refl, refl, refl)

module _ {flow : Flow} (i : ℕ) (l : Lati) (buf : List ℕ) (d : flow.arrives buf) where
  scarta_senza_icmp-Keeps :
      (s : Ritardatore) → Passage flow (buf ∷ []) s → Keeps flow (scarta_senza_icmp buf s)
  unfolding scarta_senza_icmp
  scarta_senza_icmp-Keeps s h = goes (Passage-frame (Passage-dropped h) (refl, refl, refl))

  inoltra-by :
      (now : Timeval) (n : ℕ) (s : Ritardatore)
      → s.mallocs ≡ n
      → Passage flow (buf ∷ []) s
      → Keeps flow (inoltra i l now buf s)
  unfolding inoltra
  inoltra-by now zero s e h = rw e (stops (Passage-frame (Passage-dropped h) (refl, refl, refl)))
  inoltra-by now (suc zero) s e h =
      rw e (stops (Passage-frame (Passage-dropped h) (refl, refl, refl)))
  inoltra-by now (suc (suc n)) s e h =
      rw e (goes (Passage-frame (Passage-queued _ h (inl d) (omega arith)) (refl, refl, refl)))

  scarta_con_icmp-by :
      (now : Timeval) (n : ℕ) (s : Ritardatore)
      → s.mallocs ≡ n
      → Passage flow (buf ∷ []) s
      → Keeps flow (scarta_con_icmp i l now buf s)
  unfolding scarta_con_icmp
  scarta_con_icmp-by now zero s e h =
      rw e (stops (Passage-frame (Passage-dropped h) (refl, refl, refl)))
  scarta_con_icmp-by now (suc zero) s e h =
      rw e (stops (Passage-frame (Passage-dropped h) (refl, refl, refl)))
  scarta_con_icmp-by now (suc (suc n)) s e h = rw e (
      goes (
        Passage-frame (Passage-queued _ h (inr (_, buf, d, refl)) (flow.lighter _ buf))
          (refl, refl, refl)))

  smista-Keeps : (s : Ritardatore) → Passage flow (buf ∷ []) s → Keeps flow (smista i l buf s)
  unfolding smista
  smista-Keeps s h =
      let now = s.orologio s.letture in
      let t = record s { letture = suc s.letture; estrazioni = suc s.estrazioni } in
      let h' : Passage flow (buf ∷ []) t = Passage-frame h (refl, refl, refl) in
      let t' = record t { estrazioni = suc (suc s.estrazioni) } in
      let h'' : Passage flow (buf ∷ []) t' = Passage-frame h (refl, refl, refl) in
      elim (Bool-cases (
        ltb_ℤ (pos 0) s.percentuale_errore
        && leb (s.casuali s.estrazioni % 100)
            (2 + 3 * s.seno_intero now.tv_sec (s.coppiafd i).sec_istcreazione))) [
              | inl lost ↦ rw lost (scarta_senza_icmp-Keeps t h')
              | inr kept ↦ elim (Bool-cases (s.coppiafd i).stato_trasmissione) [
                | inl sends ↦ rw (kept, sends) (inoltra-by now s.mallocs t refl h')
                | inr loses ↦ elim (Bool-cases (ltb (s.casuali (suc s.estrazioni) % 100) 20)) [
                  | inl silent ↦ rw (kept, loses, silent) (scarta_senza_icmp-Keeps t' h'')
                  | inr reported ↦
                      rw (kept, loses, reported) (scarta_con_icmp-by now s.mallocs t' refl h'')
                ]
              ]
            ]

module _ {flow : Flow} where
  -- A datagram leaves the script and is in hand.
  Passage-came :
      {s : Ritardatore} {b : List ℕ} {rest : List RecvAnswer}
      → Passage flow [] s
      → flow.arrives b × Every (Arrives flow.arrives) rest
      → suc (datagrams rest) ≤ datagrams s.recvs
      → flow.weight b + weight_coming flow.weight rest ≤ weight_coming flow.weight s.recvs
      → flow.arrives b × Passage flow (b ∷ []) (record s { recvs = rest })
  Passage-came h all less light = (
    all.0,
    record {
      waiting = h.waiting;
      sent = h.sent;
      to_come = all.1;
      counted = omega (arith, h.counted, less);
      weighed = omega (arith, h.weighed, light);
    },
  )

  Passage-shorter :
      {s : Ritardatore} (rest : List RecvAnswer)
      → Passage flow [] s
      → Every (Arrives flow.arrives) rest
      → datagrams rest ≤ datagrams s.recvs
      → weight_coming flow.weight rest ≤ weight_coming flow.weight s.recvs
      → Passage flow [] (record s { recvs = rest })
  Passage-shorter rest h all less light = record {
    waiting = h.waiting;
    sent = h.sent;
    to_come = all;
    counted = omega (arith, h.counted, less);
    weighed = omega (arith, h.weighed, light);
  }

  on_datagram-Keeps :
      (i : ℕ) (l : Lati) (b : List ℕ) (s : Ritardatore)
      → flow.arrives b
      → Passage flow (b ∷ []) s
      → Keeps flow (on_recv i l (datagram b) s)
  unfolding on_recv
  on_datagram-Keeps i l b s d h = elim (Bool-cases (leb (length b) 5)) [
    | inl short ↦ rw short (goes (Passage-dropped h))
    | inr long ↦ elim (Bool-cases (tipo_is_body (drop 4 b))) [
      | inl body ↦ rw (long, body) (smista-Keeps i l b d s h)
      | inr other ↦ rw (long, other) (goes (Passage-dropped h))
    ]
  ]

  recv-Keeps :
      (i : ℕ) (l : Lati) (script : List RecvAnswer) (s : Ritardatore)
      → Passage flow [] s
      → Every (Arrives flow.arrives) script
      → datagrams script ≤ datagrams s.recvs
      → weight_coming flow.weight script ≤ weight_coming flow.weight s.recvs
      → Keeps flow (and_then (recvfrom_loop script s) (on_recv i l))
  unfolding recvfrom_loop on_recv
  recv-Keeps i l [] s h all less light = waits (Passage-shorter [] h tt less light)
  recv-Keeps i l (interrupted ∷ rest) s h all less light =
      recv-Keeps i l rest s h all.1 (omega (arith, less)) (omega (arith, light))
  recv-Keeps i l (datagram b ∷ rest) s h all less light =
      let (d, h') = Passage-came h all less light in on_datagram-Keeps i l b _ d h'
  recv-Keeps i l (reset ∷ rest) s h all less light =
      goes (Passage-shorter rest h all.1 (omega (arith, less)) (omega (arith, light)))
  recv-Keeps i l (failed ∷ rest) s h all less light =
      let h' = Passage-shorter rest h all.1 (omega (arith, less)) (omega (arith, light)) in
      goes (Passage-frame h' (close_coppia-kept i (record s { recvs = rest })))

  pub ricevo_inserisco-Keeps :
      (i : ℕ) (l : Lati) (s : Ritardatore) → Passage flow [] s → Keeps flow (ricevo_inserisco i l s)
  unfolding ricevo_inserisco
  ricevo_inserisco-Keeps i l s h = recv-Keeps i l s.recvs s h h.to_come (omega arith) (omega arith)
