-- ===== src/Ritardatore/Expiry.antt =====
-- The loop of the main function that sends what is due, src/ritardatore/Ritardatore.c.
use gproxy.Common.{
  ℕ, zero, suc, ◌≤◌, ◌<◌, ◌≡◌, refl, sym, ap, ◌∙◌, ◌⊎◌, inl, inr, true, false, List, [], ◌∷◌, ◌++◌,
  arith, if◌then◌else◌, length, Bool-cases,
}
use mathlib.Core.List.{append_assoc, append-nil}
use gproxy.Common.Outcome.{Cmd, ok, out_of_fuel}
use gproxy.Common.Outcome.Returns.{Returns, returns, mono}
use gproxy.Ritardatore.Util.{Timeval, minoreouguale}
use gproxy.Ritardatore.Util.Laws.{micros, IsNormal, minoreouguale-micros}
use gproxy.Ritardatore.{
  Ritardatore, Coppia, Comando, cmd_addport, cmd_send, Elemento, check_port, aggiungi_in_ordine,
}
use gproxy.Ritardatore.Main.{
  send_udp, send_if_open, spedisci_comando, spedisci_primo, spedisci_scaduti,
}
use gproxy.Ritardatore.Queue.{Each, normalised-IsNormal, aggiungi-first, minore-both}

abbrev pub IsSend : Comando → Type 0
IsSend cmd_addport = ⊥
IsSend (cmd_send fd port dest ip buf) = Unit

abbrev pub AllSend : List Elemento → Type 0
AllSend [] = Unit
AllSend (e ∷ es) = IsSend e.comando × AllSend es

-- the datagram of one element, when its port is still served
abbrev pub served_one : (ℕ → Coppia) → Comando → List Comando
served_one coppie cmd_addport = []
served_one coppie (cmd_send fd port dest ip buf) =
    if check_port port coppie then cmd_send fd port dest ip buf ∷ [] else []

-- those of a list, in its order
abbrev pub served : (ℕ → Coppia) → List Elemento → List Comando
served coppie [] = []
served coppie (e ∷ es) = served_one coppie e.comando ++ served coppie es

-- some reading of the clock before the `n`th has reached the timeout
abbrev pub Expired : (ℕ → Timeval) → ℕ → Timeval → Type 0
Expired clock n t = (k : ℕ) × (k < n) × (micros t ≤ micros (clock k))

-- the list is empty, or the last reading has not reached the timeout of its first element
abbrev pub Waits : (ℕ → Timeval) → ℕ → List Elemento → Type 0
Waits clock n [] = Unit
Waits clock n (e ∷ es) = (k : ℕ) × (n ≡ suc k) × (micros (clock k) < micros e.timeout)

-- The loop went from the first state to the second: it took the elements in front of the list,
-- all of them due, sent those whose port is served in their order, and stopped at one not due.
abbrev pub Sent : Ritardatore → Ritardatore → Type 0
Sent s s' =
    (front : List Elemento) × (s.root ≡ front ++ s'.root)
    × (s.letture ≤ s'.letture)
    × (s'.spediti ≡ s.spediti ++ served s.coppiafd front)
    × Each (Expired s.orologio s'.letture) front
    × Waits s.orologio s'.letture s'.root

spedisci_comando-send :
    (next : Cmd Ritardatore (Unit {0})) (c : Comando) (rest : List Elemento) (s : Ritardatore)
    → IsSend c
    → s.sends ≡ []
    → spedisci_comando next c rest s
      ≡ next (record s { root = rest; spediti = s.spediti ++ served_one s.coppiafd c })
unfolding spedisci_comando send_if_open send_udp
spedisci_comando-send next cmd_addport rest s is none = absurd is
spedisci_comando-send next (cmd_send fd port dest ip buf) rest s is none =
    elim (Bool-cases (check_port port s.coppiafd)) [
      | inl serving ↦ rw (serving, none) refl
      | inr shut ↦
          rw shut
            (ap (λ l. next (record s { root = rest; spediti = l })) (sym (append-nil s.spediti)))
    ]

-- The loop's next turn at a due element, and its end at one that is not.
due-step :
    (fuel : ℕ) (e : Elemento) (rest : List Elemento) (s : Ritardatore)
    → IsSend e.comando
    → s.sends ≡ []
    → s.root ≡ e ∷ rest
    → micros e.timeout ≤ micros (s.orologio s.letture)
    → spedisci_scaduti (suc fuel) s
      ≡ spedisci_scaduti fuel (record s {
        root = rest;
        letture = suc s.letture;
        spediti = s.spediti ++ served_one s.coppiafd e.comando;
      })
unfolding spedisci_scaduti spedisci_primo
due-step fuel e rest s is none first due =
    let test : minoreouguale e.timeout (s.orologio s.letture) ≡ true =
      minoreouguale-micros _ _ ∙ ground arith in
    rw (first, test) (spedisci_comando-send (spedisci_scaduti fuel) e.comando rest _ is none)

stop-step :
    (fuel : ℕ) (e : Elemento) (rest : List Elemento) (s : Ritardatore)
    → IsNormal e.timeout
    → s.root ≡ e ∷ rest
    → micros (s.orologio s.letture) < micros e.timeout
    → spedisci_scaduti (suc fuel) s ≡ ok tt (record s { letture = suc s.letture; root = e ∷ rest })
unfolding spedisci_scaduti spedisci_primo
stop-step fuel e rest s normal first later =
    let test : minoreouguale e.timeout (s.orologio s.letture) ≡ false =
      minoreouguale-micros _ _ ∙ ground arith in
    rw (first, test, normalised-IsNormal e normal) refl

empty-step : (fuel : ℕ) (s : Ritardatore) → s.root ≡ [] → spedisci_scaduti (suc fuel) s ≡ ok tt s
unfolding spedisci_scaduti spedisci_primo
empty-step fuel s none = rw none refl

due_or_not : (a b : ℕ) → (a ≤ b) ⊎ (b < a)
due_or_not a b = ground arith

Sent-before :
    (e : Elemento) (rest : List Elemento) (s s' : Ritardatore)
    → s.root ≡ e ∷ rest
    → micros e.timeout ≤ micros (s.orologio s.letture)
    → Sent
        (record s {
          root = rest;
          letture = suc s.letture;
          spediti = s.spediti ++ served_one s.coppiafd e.comando;
        })
        s'
    → Sent s s'
Sent-before e rest s s' first due (front, whole, le, sent, early, waits) = (
  e ∷ front,
  first ∙ ap (λ l. e ∷ l) whole,
  omega (arith, le),
  sent ∙ append_assoc s.spediti (served_one s.coppiafd e.comando) (served s.coppiafd front),
  ((s.letture, le, due), early),
  waits,
)

-- With enough fuel the loop ends, for a list of datagrams with normal timeouts, while `sendto`
-- succeeds: it has taken the elements in front of the list, each of them due at a reading of the
-- clock, has sent in their order those whose port an active pair serves, and stands before the
-- list's end or before an element that was not due at the last reading.
pub spedisci_scaduti-Sent :
    (fuel : ℕ) (root : List Elemento) (s : Ritardatore)
    → s.root ≡ root
    → Each IsNormal root
    → AllSend root
    → s.sends ≡ []
    → length root < fuel
    → Returns (λ _. Sent s) (spedisci_scaduti fuel s)
spedisci_scaduti-Sent zero root s first normal is none lt = absurd (omega arith)
spedisci_scaduti-Sent (suc fuel) [] s first normal is none lt =
    rw (empty-step fuel s first)
      (returns ([], refl, omega arith, sym (append-nil s.spediti), tt, rw first tt))
spedisci_scaduti-Sent (suc fuel) (e ∷ rest) s first normal is none lt =
    elim (due_or_not (micros e.timeout) (micros (s.orologio s.letture))) [
      | inl due ↦ rw (due-step fuel e rest s is.0 none first due) (
          mono (spedisci_scaduti-Sent fuel rest _ refl normal.1 is.1 none (omega (arith, lt)))
            (λ _ s' later. Sent-before e rest s s' first due later))
      | inr later ↦ rw (stop-step fuel e rest s normal.0 first later) (
          returns
            ([], first, omega arith, sym (append-nil s.spediti), tt, (s.letture, refl, later)))
    ]

-- An element whose timeout has more seconds but fewer microseconds than the list's first, both
-- normal, goes in front of it. When the clock has reached the timeout of the other, a datagram, but
-- not the new one's, the sending loop then ends with nothing sent and both of them in the list.
-- Without the new one it takes the other off the list and sends it, if a pair serves its port and
-- `sendto` succeeds, and goes on.
pub aggiungi_in_ordine-overtakes :
    (fuel : ℕ) (p q : Elemento) (qs : List Elemento) (s : Ritardatore)
    → IsNormal p.timeout
    → IsNormal q.timeout
    → q.timeout.tv_sec < p.timeout.tv_sec
    → p.timeout.tv_usec < q.timeout.tv_usec
    → s.root ≡ aggiungi_in_ordine p (q ∷ qs)
    → micros q.timeout ≤ micros (s.orologio s.letture)
    → micros (s.orologio s.letture) < micros p.timeout
    → IsSend q.comando
    → s.sends ≡ []
    → (spedisci_scaduti (suc fuel) s
        ≡ ok tt (record s { letture = suc s.letture; root = p ∷ q ∷ qs }))
      × (spedisci_scaduti (suc fuel) (record s { root = q ∷ qs })
          ≡ spedisci_scaduti fuel (record s {
            root = qs;
            letture = suc s.letture;
            spediti = s.spediti ++ served_one s.coppiafd q.comando;
          }))
aggiungi_in_ordine-overtakes fuel p q qs s m n sec us added due later is none =
    let first = aggiungi-first p q qs m n (minore-both p.timeout q.timeout m n sec us).0 in
    (
      stop-step fuel p (q ∷ qs) s m (added ∙ first) later,
      due-step fuel q qs (record s { root = q ∷ qs }) is none refl due,
    )

-- Once a command to add a port heads the list and every reading of the clock from now on has
-- reached its timeout, as with a clock that is past it and does not go back, the loop ends with no
-- fuel: nothing takes that element from the list.
pub spedisci_scaduti-addport :
    (fuel : ℕ) (t : Timeval) (rest : List Elemento) (s : Ritardatore)
    → s.root ≡ record { comando = cmd_addport; timeout = t } ∷ rest
    → IsNormal t
    → ((k : ℕ) → s.letture ≤ k → micros t ≤ micros (s.orologio k))
    → spedisci_scaduti fuel s ≡ out_of_fuel
unfolding spedisci_scaduti spedisci_primo spedisci_comando
spedisci_scaduti-addport zero t rest s first normal due = refl
spedisci_scaduti-addport (suc fuel) t rest s first normal due =
    let test : minoreouguale t (s.orologio s.letture) ≡ true =
      minoreouguale-micros t (s.orologio s.letture) ∙ ground (arith, due s.letture (omega arith)) in
    rw (first, test)
      (spedisci_scaduti-addport fuel t rest _
        (ap (λ e. e ∷ rest)
          (normalised-IsNormal (record { comando = cmd_addport; timeout = t }) normal))
        normal (λ k le. due k (omega (arith, le))))
