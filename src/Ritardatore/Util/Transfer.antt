-- ===== src/Ritardatore/Util/Transfer.antt =====
-- src/ritardatore/Util.c: thread_For_Write and thread_For_Read, which send a vector with its sum
-- over a connection many times and check it. `FilledSndBufferSpace` and its calls stand under
-- `TIOCOUTQ`, which no header that the file includes defines.
pub mod RoundTrip
use gproxy.Common.{
  ℕ, zero, suc, ◌+◌, ◌*◌, ◌/◌, ◌%◌, ◌^◌, Bool, true, false, Option, none, some, List, [], ◌∷◌, ◌==◌,
}
use gproxy.Common.Int.{ℤ, pos, negsuc}
use gproxy.Common.Outcome.{Cmd, pure, ◌>>=◌, ◌>>◌}
use gproxy.Common.Outcome.Exits.{require}
use gproxy.Wire.{htonl, ntohl}
use gproxy.Ritardatore.Util.Io.{Connection, writen, readn}
use gproxy.Ritardatore.Util.Vector.{inizializza, sommavet}

-- `LENVET` and `NUMVOLTE`
abbrev pub lenvet : ℕ
lenvet = 100

abbrev pub numvolte : ℕ
numvolte = 100

-- An unsigned number in memory, and the number that four bytes of memory are.
unfoldable pub word_bytes : ℕ → List ℕ
word_bytes w = w % 256 ∷ w / 256 % 256 ∷ w / 2 ^ 16 % 256 ∷ w / 2 ^ 24 % 256 ∷ []

unfoldable pub word_of : List ℕ → ℕ
word_of [] = 0
word_of (b ∷ bytes) = b + 256 * word_of bytes

-- `n == nwrite`
abbrev pub is_count : ℤ → ℕ → Bool
is_count (pos n) m = n == m
is_count (negsuc n) m = false

unfoldable pub write_rounds : ℕ → (sum : ℕ) (buf : List ℕ) → Cmd Connection (Unit {0})
unfolding writen
write_rounds zero sum buf = pure tt
write_rounds (suc volte) sum buf = do
  n ← writen (word_bytes (htonl sum))
  require 3 (is_count n 4)
  n ← writen buf
  require 3 (is_count n lenvet)
  write_rounds volte sum buf

-- `none` is the thread's `NULL`, after a `malloc` that failed.
unfoldable pub thread_for_write : (ptr buf : Bool) (draws : ℕ → ℕ) → Cmd Connection (Option ℕ)
unfolding write_rounds inizializza
thread_for_write false buf draws = pure none
thread_for_write true false draws = pure none
thread_for_write true true draws = do
  write_rounds numvolte (inizializza draws lenvet).1 (inizializza draws lenvet).0
  pure (some 1)

unfoldable pub read_rounds : ℕ → Cmd Connection (Unit {0})
unfolding readn
read_rounds zero = pure tt
read_rounds (suc volte) = do
  (n, sumnet) ← readn 4
  require 3 (is_count n 4)
  (n, buf) ← readn lenvet
  require 3 (is_count n lenvet)
  require 3 (sommavet buf == ntohl (word_of sumnet))
  read_rounds volte

unfoldable pub thread_for_read : (ptr buf : Bool) → Cmd Connection (Option ℕ)
unfolding read_rounds
thread_for_read false buf = pure none
thread_for_read true false = pure none
thread_for_read true true = do read_rounds numvolte; pure (some 1)
