-- ===== src/Ritardatore/Util/Laws.antt =====
-- The time arithmetic against numbers of microseconds.
use gproxy.Common.{ℕ, ◌+◌, ◌-◌, ◌*◌, ◌/◌, ◌<◌, ◌≡◌, leb, arith}
use gproxy.Ritardatore.Util.{
  Timeval, sec_in_mcsec, normalizza, somma, sottrai, differenza, old_sottrai, old_differenza,
  msec_elapsed_time, minoreouguale,
}

-- the instant as one number of microseconds
abbrev pub micros : Timeval → ℕ
micros t = t.tv_sec * 1000000 + t.tv_usec

abbrev pub IsNormal : Timeval → Type 0
IsNormal t = t.tv_usec < sec_in_mcsec

-- `normalizza` gives the same instant, with fewer than a million microseconds.
pub normalizza-micros : (t : Timeval) → IsNormal (normalizza t) × (micros (normalizza t) ≡ micros t)
unfolding normalizza
normalizza-micros t = ground arith

-- `somma` leaves the normal instant of the sum of both, whether they were normal or not.
pub somma-micros :
    (a b : Timeval) → IsNormal (somma a b) × (micros (somma a b) ≡ micros a + micros b)
unfolding somma
somma-micros a b = ground arith

sottrai-micros :
    (a b : Timeval)
    → IsNormal a
    → IsNormal b
    → IsNormal (sottrai a b) × (micros (sottrai a b) ≡ micros a - micros b)
unfolding sottrai
sottrai-micros a b p q = ground arith

-- `differenza` gives the normal instant of the difference, or 0 when the first is the earlier one.
pub differenza-micros :
    (a b : Timeval) → IsNormal (differenza a b) × (micros (differenza a b) ≡ micros a - micros b)
unfolding differenza
differenza-micros a b = ground arith

old_sottrai-sottrai : (a b : Timeval) → IsNormal b → old_sottrai a b ≡ sottrai a b
unfolding old_sottrai sottrai
old_sottrai-sottrai a b normal = ground arith

-- `OLDdifferenza` computes with signed differences what `differenza` computes without.
pub old_differenza-differenza : (a b : Timeval) → old_differenza a b ≡ differenza a b
unfolding old_differenza differenza
old_differenza-differenza a b =
    old_sottrai-sottrai (normalizza a) (normalizza b) (normalizza-micros b).0

-- `msec_elapsed_time` gives the whole milliseconds from the first instant to the clock's, 0 if
-- there are none.
pub msec_elapsed_time-micros :
    (now prima : Timeval) → msec_elapsed_time now prima ≡ (micros now - micros prima) / 1000
unfolding msec_elapsed_time
msec_elapsed_time-micros now prima = omega (arith, differenza-micros now prima)

-- `minoreouguale` decides the order of any two instants.
pub minoreouguale-micros : (a b : Timeval) → minoreouguale a b ≡ leb (micros a) (micros b)
unfolding minoreouguale
minoreouguale-micros a b = ground arith
