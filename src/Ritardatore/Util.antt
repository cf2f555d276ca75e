-- ===== src/Ritardatore/Util.antt =====
-- The time arithmetic of src/ritardatore/Util.c. Seconds and microseconds are never negative here:
-- they come from `gettimeofday` and from sums of such values.
pub mod Laws
pub mod Io
pub mod Vector
pub mod Transfer
pub mod Sockets
use gproxy.Common.Int.{pos, negsuc, minus}
use gproxy.Common.{
  ℕ, ◌+◌, ◌-◌, ◌*◌, ◌/◌, ◌%◌, Bool, true, false, ◌&&◌, ltb, leb, ◌==◌, if◌then◌else◌,
}

-- `struct timeval`
pub record Timeval : Type 0 where
  pub tv_sec : ℕ
  pub tv_usec : ℕ

abbrev pub sec_in_mcsec : ℕ
sec_in_mcsec = 1000000

unfoldable pub normalizza : Timeval → Timeval
normalizza t =
    if leb sec_in_mcsec t.tv_usec
    then record { tv_sec = t.tv_sec + t.tv_usec / sec_in_mcsec; tv_usec = t.tv_usec % sec_in_mcsec }
    else t

-- The result that `somma` leaves in `*delay`.
unfoldable pub somma : Timeval → Timeval → Timeval
unfolding normalizza
somma tmr ist =
    let tmr' = normalizza tmr in
    let ist' = normalizza ist in
    normalizza
      (record { tv_sec = ist'.tv_sec + tmr'.tv_sec; tv_usec = ist'.tv_usec + tmr'.tv_usec })

-- The branches of `differenza` behind the normalisation of its arguments.
unfoldable pub sottrai : Timeval → Timeval → Timeval
sottrai dopo prima =
    if ltb dopo.tv_sec prima.tv_sec
    then record { tv_sec = 0; tv_usec = 0 }
    else if ltb dopo.tv_usec prima.tv_usec
    then if ltb 0 (dopo.tv_sec - prima.tv_sec)
      then record {
        tv_sec = dopo.tv_sec - prima.tv_sec - 1;
        tv_usec = dopo.tv_usec + sec_in_mcsec - prima.tv_usec;
      }
      else record { tv_sec = 0; tv_usec = 0 }
    else record { tv_sec = dopo.tv_sec - prima.tv_sec; tv_usec = dopo.tv_usec - prima.tv_usec }

unfoldable pub differenza : Timeval → Timeval → Timeval
unfolding sottrai normalizza
differenza dopo prima = sottrai (normalizza dopo) (normalizza prima)

-- `OLDdifferenza`, on signed differences.
unfoldable pub old_sottrai : Timeval → Timeval → Timeval
old_sottrai dopo prima = elim (minus dopo.tv_sec prima.tv_sec) [
  | negsuc n ↦ record { tv_sec = 0; tv_usec = 0 }
  | pos sec ↦ elim (minus dopo.tv_usec prima.tv_usec) [
    | pos usec ↦ record { tv_sec = sec; tv_usec = usec }
    | negsuc n ↦
        if ltb 0 sec
        then record { tv_sec = sec - 1; tv_usec = sec_in_mcsec - (n + 1) }
        else record { tv_sec = sec; tv_usec = 0 }
  ]
]

unfoldable pub old_differenza : Timeval → Timeval → Timeval
unfolding old_sottrai normalizza
old_differenza dopo prima = old_sottrai (normalizza dopo) (normalizza prima)

-- The result in milliseconds, with `now` the instant that `gettimeofday` returns.
unfoldable pub msec_elapsed_time : (now prima : Timeval) → ℕ
unfolding differenza
msec_elapsed_time now prima =
    let diff = differenza now prima in diff.tv_sec * 1000 + diff.tv_usec / 1000

-- `minore` and `minoreouguale` normalise both arguments in place; this is what they then return.
unfoldable pub minore : Timeval → Timeval → Bool
unfolding normalizza
minore a b =
    let a' = normalizza a in
    let b' = normalizza b in
    if ltb a'.tv_sec b'.tv_sec then true else if ltb a'.tv_usec b'.tv_usec then true else false

unfoldable pub minoreouguale : Timeval → Timeval → Bool
unfolding normalizza
minoreouguale a b =
    let a' = normalizza a in
    let b' = normalizza b in
    if ltb a'.tv_sec b'.tv_sec
    then true
    else if (a'.tv_sec == b'.tv_sec) && leb a'.tv_usec b'.tv_usec
    then true
    else false
