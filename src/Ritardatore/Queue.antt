-- ===== src/Ritardatore/Queue.antt =====
-- `aggiungi_in_ordine` and `minore`: where an element comes to stand in the list.
use gproxy.Common.{
  ◌≤◌, ◌<◌, ◌≡◌, refl, ap, ◌∙◌, ◌⊎◌, inl, inr, Bool, true, false, List, [], ◌∷◌, ◌++◌, arith,
}
use gproxy.Ritardatore.Util.{Timeval, normalizza, minore}
use gproxy.Ritardatore.Util.Laws.{micros, IsNormal}
use gproxy.Ritardatore.{Elemento, aggiungi_in_ordine, normalised}

-- a predicate for the timeout of every element
abbrev pub Each : (Timeval → Type 0) → List Elemento → Type 0
Each P [] = Unit
Each P (e ∷ es) = P e.timeout × Each P es

pub normalizza-IsNormal : (t : Timeval) → IsNormal t → normalizza t ≡ t
unfolding normalizza
normalizza-IsNormal t n = ground arith

-- When `minore` answers true for normal instants, the first is in an earlier second or has fewer
-- microseconds; when it answers false, the second is not later than the first.
pub minore-cases :
    (a b : Timeval)
    → IsNormal a
    → IsNormal b
    → (minore a b ≡ true) × ((a.tv_sec < b.tv_sec) ⊎ (a.tv_usec < b.tv_usec))
      ⊎ (minore a b ≡ false) × (micros b ≤ micros a)
unfolding minore
minore-cases a b m n = rw (normalizza-IsNormal a m, normalizza-IsNormal b n) (ground arith)

-- `minore` answers true for every pair of normal instants of which the first is the earlier one.
pub minore-earlier :
    (a b : Timeval) → IsNormal a → IsNormal b → micros a < micros b → minore a b ≡ true
unfolding minore
minore-earlier a b m n lt = rw (normalizza-IsNormal a m, normalizza-IsNormal b n) (ground arith)

-- Of two normal instants, `minore` calls each less than the other when one has the greater
-- seconds and the fewer microseconds.
pub minore-both :
    (a b : Timeval)
    → IsNormal a
    → IsNormal b
    → b.tv_sec < a.tv_sec
    → a.tv_usec < b.tv_usec
    → (minore a b ≡ true) × (minore b a ≡ true)
unfolding minore
minore-both a b m n lt us = rw (normalizza-IsNormal a m, normalizza-IsNormal b n) (ground arith)

pub normalised-IsNormal : (e : Elemento) → IsNormal e.timeout → normalised e ≡ e
normalised-IsNormal e n = ap (λ t. record e { timeout = t }) (normalizza-IsNormal e.timeout n)

pub aggiungi-first :
    (p q : Elemento) (qs : List Elemento)
    → IsNormal p.timeout
    → IsNormal q.timeout
    → minore p.timeout q.timeout ≡ true
    → aggiungi_in_ordine p (q ∷ qs) ≡ p ∷ q ∷ qs
unfolding aggiungi_in_ordine
aggiungi-first p q qs m n lt = rw (lt, normalised-IsNormal p m, normalised-IsNormal q n) refl

aggiungi-later :
    (p q : Elemento) (qs : List Elemento)
    → IsNormal p.timeout
    → IsNormal q.timeout
    → minore p.timeout q.timeout ≡ false
    → aggiungi_in_ordine p (q ∷ qs) ≡ q ∷ aggiungi_in_ordine p qs
unfolding aggiungi_in_ordine
aggiungi-later p q qs m n ge = rw (ge, normalised-IsNormal p m, normalised-IsNormal q n) refl

aggiungi-empty : (p : Elemento) → aggiungi_in_ordine p [] ≡ p ∷ []
unfolding aggiungi_in_ordine
aggiungi-empty p = refl

-- `minore` answers so for the timeout and that of every element
abbrev pub EachMinore : Bool → Timeval → List Elemento → Type 0
EachMinore answer t [] = Unit
EachMinore answer t (e ∷ es) = (minore t e.timeout ≡ answer) × EachMinore answer t es

-- it answers true for the first, if there is one
abbrev pub StopsAt : Timeval → List Elemento → Type 0
StopsAt t [] = Unit
StopsAt t (e ∷ es) = minore t e.timeout ≡ true

-- Where a new element comes to stand among elements with normal timeouts: the list stays as it
-- was around it; the element stands directly in front of the first one that `minore` calls its own
-- timeout less than, or at the end; and no element in front of it has a later timeout than it has.
pub aggiungi_in_ordine-place :
    (p : Elemento) (root : List Elemento)
    → IsNormal p.timeout
    → Each IsNormal root
    → (front : List Elemento) × (back : List Elemento) × (root ≡ front ++ back)
      × (aggiungi_in_ordine p root ≡ front ++ p ∷ back)
      × EachMinore false p.timeout front
      × StopsAt p.timeout back
      × Each (λ t. micros t ≤ micros p.timeout) front
aggiungi_in_ordine-place p [] m all = ([], [], refl, aggiungi-empty p, tt, tt, tt)
aggiungi_in_ordine-place p (q ∷ qs) m all = elim (minore-cases p.timeout q.timeout m all.0) [
  | inl before ↦ ([], q ∷ qs, refl, aggiungi-first p q qs m all.0 before.0, tt, before.0, tt)
  | inr after ↦
      let (front, back, whole, run, passed, stops, early) = aggiungi_in_ordine-place p qs m all.1 in
      (
        q ∷ front,
        back,
        ap (λ l. q ∷ l) whole,
        aggiungi-later p q qs m all.0 after.0 ∙ ap (λ l. q ∷ l) run,
        (after.0, passed),
        stops,
        (after.1, early),
      )
]
