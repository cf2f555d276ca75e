-- ===== src/Ritardatore/Start/Segnali.antt =====
-- The signals: what `sig_print` leaves, also when it comes behind other signals.
use gproxy.Common.{
  ℕ, zero, suc, ◌+◌, ◌<◌, ◌≤◌, ◌≡◌, refl, ◌∙◌, true, false, not, ◌&&◌, List, [], ◌∷◌, arith, ◌==◌,
  Bool-cases, inl, inr,
}
use gproxy.Common.Outcome.{ok}
use gproxy.Common.Outcome.Ends.{Ends, exits}
use gproxy.Ritardatore.{
  Ritardatore, Elemento, SelectAnswer, interrupted, signalled, serves, check_port, close_coppia,
  max_num_connections,
}
use gproxy.Ritardatore.Channels.{check_port-serves}
use gproxy.Ritardatore.Main.{attesa_massima, compute_timeout_first_pkt}
use gproxy.Ritardatore.Start.Loop.{chiudi_tutte, sig_print, select_loop}

close_coppia-attivo :
    (i j : ℕ) (s : Ritardatore)
    → ((close_coppia i s).coppiafd j).attivo ≡ (not (j == i) && (s.coppiafd j).attivo)
unfolding close_coppia
close_coppia-attivo i j s = ground arith

chiudi_tutte-off :
    (n i j : ℕ) (s : Ritardatore)
    → (s.coppiafd j).attivo ≡ false
    → ((chiudi_tutte n i s).coppiafd j).attivo ≡ false
unfolding chiudi_tutte
chiudi_tutte-off zero i j s off = off
chiudi_tutte-off (suc n) i j s off =
    chiudi_tutte-off n (suc i) j (close_coppia i s) (close_coppia-attivo i j s ∙ ground arith)

chiudi_tutte-attivo :
    (n i j : ℕ) (s : Ritardatore)
    → i ≤ j
    → j < i + n
    → ((chiudi_tutte n i s).coppiafd j).attivo ≡ false
unfolding chiudi_tutte
chiudi_tutte-attivo zero i j s le lt = absurd (omega arith)
chiudi_tutte-attivo (suc n) i j s le lt = elim (Bool-cases (j == i)) [
  | inl here ↦
      chiudi_tutte-off n (suc i) j (close_coppia i s) (close_coppia-attivo i j s ∙ rw here refl)
  | inr away ↦ chiudi_tutte-attivo n (suc i) j (close_coppia i s) (ground arith) (omega arith)
]

serves-attivo :
    (port j : ℕ) (s : Ritardatore)
    → serves port (s.coppiafd j) ≡ true
    → (s.coppiafd j).attivo ≡ true
unfolding serves
serves-attivo port j s it = ground arith

chiudi_tutte-check_port :
    (s : Ritardatore) (port : ℕ)
    → check_port port (chiudi_tutte max_num_connections 0 s).coppiafd ≡ false
chiudi_tutte-check_port s port =
    let t = chiudi_tutte max_num_connections 0 s in
    elim (Bool-cases (check_port port t.coppiafd)) [
      | inl passes ↦
          let (j, lt, it) = (check_port-serves port t.coppiafd).0 passes in
          let on = serves-attivo port j t it in
          let off =
            chiudi_tutte-attivo max_num_connections 0 j s (omega arith) (omega (arith, lt)) in
          absurd (cc)
      | inr no_port ↦ no_port
    ]

pub attesa_massima-clock :
    (root : List Elemento) (s : Ritardatore)
    → (n : ℕ) × (w : _) × (attesa_massima root s ≡ ok w (record s { letture = n }))
unfolding attesa_massima compute_timeout_first_pkt
attesa_massima-clock [] s = (s.letture, _, refl)
attesa_massima-clock (e ∷ rest) s = (suc s.letture, _, refl)

-- some signals that nothing handles
abbrev pub ignored : ℕ → List SelectAnswer → List SelectAnswer
ignored zero rest = rest
ignored (suc n) rest = interrupted ∷ ignored n rest

-- When a signal comes that the program handles, behind any number of others that only interrupt
-- the wait, the process ends with 0 and no port passes `check_port` any more.
pub select_loop-signalled :
    (n : ℕ) (rest : List SelectAnswer) (s : Ritardatore)
    → Ends
        (λ _ _. ⊥)
        (λ code t. (code ≡ 0) × ((port : ℕ) → check_port port t.coppiafd ≡ false))
        (λ _. ⊥)
        (select_loop (ignored n (signalled ∷ rest)) s)
unfolding select_loop sig_print
select_loop-signalled zero rest s =
    let (n, w, e) = attesa_massima-clock s.root s in
    rw e (exits (refl, chiudi_tutte-check_port (record s { letture = n })))
select_loop-signalled (suc n) rest s =
    let (m, w, e) = attesa_massima-clock s.root s in
    rw e (select_loop-signalled n rest (record s { letture = m }))
