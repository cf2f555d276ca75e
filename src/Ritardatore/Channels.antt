-- ===== src/Ritardatore/Channels.antt =====
-- The pairs of ports: `check_port`, `close_coppia`, `cambia_stato_canale_se_scaduto_burst`.
use gproxy.Common.{
  ℕ, zero, suc, ◌+◌, ◌*◌, ◌%◌, ◌/◌, ◌≤◌, ◌<◌, ◌≡◌, ◌≢◌, refl, sym, ap, ◌∙◌, inl, inr, Bool, true,
  false, not, ◌&&◌, ◌==◌, if◌then◌else◌, arith, Bool-cases,
}
use gproxy.Common.Int.{ℤ, pos, ltb_ℤ}
use gproxy.Common.Outcome.Returns.{Returns, returns}
use gproxy.Ritardatore.Util.{Timeval, minoreouguale}
use gproxy.Ritardatore.Util.Laws.{micros, normalizza-micros, minoreouguale-micros}
use gproxy.Ritardatore.{
  Ritardatore, Coppia, serves, check_port_loop, check_port, close_coppia, max_num_connections,
  msec_burst, msec_trasmissione, istante_dopo, cambiata, cambia_stato_canale_se_scaduto_burst,
}

check_port_loop-finds :
    (n i port : ℕ) (coppie : ℕ → Coppia)
    → check_port_loop n i port coppie ≡ true
    → (j : ℕ) × (j < i + n) × (serves port (coppie j) ≡ true)
unfolding check_port_loop
check_port_loop-finds zero i port coppie found = cc
check_port_loop-finds (suc n) i port coppie found = elim (Bool-cases (serves port (coppie i))) [
  | inl here ↦ (i, omega arith, here)
  | inr away ↦
      let (j, lt, it) = check_port_loop-finds n (suc i) port coppie (
        rw (sym (ap (λ b. if b then true else check_port_loop n (suc i) port coppie) away))
          found) in
      (j, omega (arith, lt), it)
]

above : (i j : ℕ) → i ≤ j → i ≢ j → suc i ≤ j
above i j le ne = omega arith

check_port_loop_complete :
    (n i port : ℕ) (coppie : ℕ → Coppia) (j : ℕ)
    → i ≤ j
    → j < i + n
    → serves port (coppie j) ≡ true
    → check_port_loop n i port coppie ≡ true
unfolding check_port_loop
check_port_loop_complete zero i port coppie j le lt it = absurd (omega arith)
check_port_loop_complete (suc n) i port coppie j le lt it =
    elim (Bool-cases (serves port (coppie i))) [
      | inl here ↦ rw here refl
      | inr away ↦ rw away (
          check_port_loop_complete n (suc i) port coppie j (above i j le (λ e. cc)) (omega arith)
            it)
    ]

-- `check_port` answers true exactly when one of the three pairs serves the port.
pub check_port-serves :
    (port : ℕ) (coppie : ℕ → Coppia)
    → (check_port port coppie ≡ true
        → (j : ℕ) × (j < max_num_connections) × (serves port (coppie j) ≡ true))
      × ((j : ℕ)
          → j < max_num_connections
          → serves port (coppie j) ≡ true
          → check_port port coppie ≡ true)
unfolding check_port
check_port-serves port coppie = (
  check_port_loop-finds 3 0 port coppie,
  λ j lt it. check_port_loop_complete 3 0 port coppie j (omega arith) lt it,
)

pub eq-same : (i : ℕ) → (i == i) ≡ true
eq-same i = ground arith

pub eq-other : (i j : ℕ) → j ≢ i → (j == i) ≡ false
eq-other i j ne = ground arith

istante_dopo-micros :
    (now : Timeval) (msec : ℕ) → micros (istante_dopo now msec) ≡ micros now + msec * 1000
istante_dopo-micros now msec =
    (normalizza-micros (record {
      tv_sec = now.tv_sec + msec / 1000;
      tv_usec = now.tv_usec + msec * 1000 % 1000000;
    })).1
    ∙ omega arith

-- the instant is at least `lo` and less than `hi` microseconds after the other
abbrev pub Within : (lo hi : ℕ) → Timeval → Timeval → Type 0
Within lo hi now t = (micros now + lo ≤ micros t) × (micros t < micros now + hi)

-- how long a channel stays in the state that follows sending, and that follows losing
abbrev pub Window : (spedire : Bool) → Timeval → Timeval → Type 0
Window true = Within 2000000 3000000
Window false = Within 3000000 10000000

cambiata_bounds :
    (spedire : Bool) (now : Timeval) (r : ℕ)
    → Window spedire now (istante_dopo now (if spedire then msec_burst r else msec_trasmissione r))
cambiata_bounds true now r = rw (istante_dopo-micros now (msec_burst r)) (ground arith)
cambiata_bounds false now r = rw (istante_dopo-micros now (msec_trasmissione r)) (ground arith)

pub cambiata-Window :
    (now : Timeval) (r : ℕ) (c : Coppia)
    → ((cambiata now r c).stato_trasmissione ≡ not c.stato_trasmissione)
      × Window c.stato_trasmissione now (cambiata now r c).ist_prossimo_cambio_stato
unfolding cambiata
cambiata-Window now r c = elim (Bool-cases c.stato_trasmissione) [
  | inl e ↦ rw e (refl, cambiata_bounds true now r)
  | inr e ↦ rw e (refl, cambiata_bounds false now r)
]

-- When losses are on and the clock has reached the instant of pair i's next change, the call
-- returns 1, flips that pair's state and sets its next change: 2 to 3 seconds later when it now
-- loses, 3 to 10 when it now sends. The other pairs stay as they were.
pub cambia_stato-due :
    (i : ℕ) (perc : ℤ) (s : Ritardatore)
    → ltb_ℤ (pos 0) perc ≡ true
    → micros (s.coppiafd i).ist_prossimo_cambio_stato ≤ micros (s.orologio s.letture)
    → Returns
        (λ r s'.
          (r ≡ 1)
          × ((s'.coppiafd i).stato_trasmissione ≡ not (s.coppiafd i).stato_trasmissione)
          × Window
              (s.coppiafd i).stato_trasmissione
              (s.orologio s.letture)
              (s'.coppiafd i).ist_prossimo_cambio_stato
          × ((j : ℕ) → j ≢ i → s'.coppiafd j ≡ s.coppiafd j))
        (cambia_stato_canale_se_scaduto_burst i perc s)
unfolding cambia_stato_canale_se_scaduto_burst
cambia_stato-due i perc s on due =
    let test : minoreouguale (s.coppiafd i).ist_prossimo_cambio_stato (s.orologio s.letture)
        ≡ true =
      minoreouguale-micros _ _ ∙ ground arith in
    let (flips, bounds) =
      cambiata-Window (s.orologio s.letture) (s.casuali s.estrazioni) (s.coppiafd i) in
    rw (on, test)
      (returns (rw (eq-same i) (refl, flips, bounds, λ j ne. rw (eq-other i j ne) refl)))

-- While the clock has not reached the instant of pair i's next change, the call returns 0, with
-- losses on or off: the pair keeps its state and that instant, and the other pairs stay as they
-- were.
pub cambia_stato-not_due :
    (i : ℕ) (perc : ℤ) (s : Ritardatore)
    → micros (s.orologio s.letture) < micros (s.coppiafd i).ist_prossimo_cambio_stato
    → Returns
        (λ r s'.
          (r ≡ 0)
          × ((s'.coppiafd i).stato_trasmissione ≡ (s.coppiafd i).stato_trasmissione)
          × (micros (s'.coppiafd i).ist_prossimo_cambio_stato
              ≡ micros (s.coppiafd i).ist_prossimo_cambio_stato)
          × ((j : ℕ) → j ≢ i → s'.coppiafd j ≡ s.coppiafd j))
        (cambia_stato_canale_se_scaduto_burst i perc s)
unfolding cambia_stato_canale_se_scaduto_burst
cambia_stato-not_due i perc s later =
    let test : minoreouguale (s.coppiafd i).ist_prossimo_cambio_stato (s.orologio s.letture)
        ≡ false =
      minoreouguale-micros _ _ ∙ ground arith in
    elim (Bool-cases (ltb_ℤ (pos 0) perc)) [
      | inl on ↦
          rw (on, test)
            (returns (
              rw (eq-same i) (
                refl,
                refl,
                (normalizza-micros (s.coppiafd i).ist_prossimo_cambio_stato).1,
                λ j ne. rw (eq-other i j ne) refl,
              )))
      | inr off ↦ rw off (returns (refl, refl, refl, λ j ne. refl))
    ]

other : (j i : ℕ) (b : Bool) → (not (j == i) && b) ≡ true → (j ≢ i) × (b ≡ true)
other j i b both = ground arith

close_coppia-serves :
    (i port : ℕ) (s : Ritardatore) (j : ℕ)
    → (s.coppiafd i).attivo ≡ true
    → serves port ((close_coppia i s).coppiafd j) ≡ (not (j == i) && serves port (s.coppiafd j))
unfolding close_coppia serves
close_coppia-serves i port s j on =
    rw on (elim (Bool-cases (j == i)) [ inl e ↦ rw e refl | inr e ↦ rw e refl ])

-- After an active pair i is closed, a port passes `check_port` only when some other pair served
-- it before, and the port of every other pair still passes.
pub close_coppia-check_port :
    (i port : ℕ) (s : Ritardatore)
    → (s.coppiafd i).attivo ≡ true
    → (check_port port (close_coppia i s).coppiafd ≡ true
        → (j : ℕ) × (j < max_num_connections) × (j ≢ i) × (serves port (s.coppiafd j) ≡ true))
      × ((j : ℕ)
          → j < max_num_connections
          → j ≢ i
          → serves port (s.coppiafd j) ≡ true
          → check_port port (close_coppia i s).coppiafd ≡ true)
close_coppia-check_port i port s on =
    let (found, complete) = check_port-serves port (close_coppia i s).coppiafd in
    (
      λ passed.
          let (j, lt, it) = found passed in
          let (ne, old) = other j i _ (sym (close_coppia-serves i port s j on) ∙ it) in
          (j, lt, ne, old),
      λ j lt ne it. complete j lt (close_coppia-serves i port s j on ∙ rw (eq-other i j ne) it),
    )
