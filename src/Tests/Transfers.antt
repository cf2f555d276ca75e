-- ===== src/Tests/Transfers.antt =====
-- src/ritardatore/Util.c at small connections.
use gproxy.Common.{
  false, ℕ, zero, suc, ◌≡◌, ◌≢◌, refl, true, Option, some, List, [], ◌∷◌, ◌++◌, arith,
}
use gproxy.Common.Outcome.{Outcome, ok, halt, fault, starve, out_of_fuel}
use gproxy.Common.Outcome.Ends.{Ends}
use gproxy.Wire.{htonl}
use gproxy.Ritardatore.Util.Io.{
  SendAnswer, takes, ReadAnswer, gives, Connection, writen, readn, write_loop,
}
use gproxy.Ritardatore.Util.Io.Reading.{clean}
use gproxy.Ritardatore.Util.Vector.{inizializza, digits_loop}
use gproxy.Ritardatore.Util.Transfer.{thread_for_write, thread_for_read, write_rounds, word_bytes}
use gproxy.Ritardatore.Util.Transfer.RoundTrip.{thread_for_read-thread_for_write}
use gproxy.Ritardatore.Util.Io.Writing.{Cut, Met, Waited, writen-Result, Result}
use gproxy.Ritardatore.Util.Io.Reading as Reading
use gproxy.Ritardatore.Util.Vector.{sommavet-detects, sommavet}

-- each `send` takes what it is given
abbrev all_taken : ℕ → List SendAnswer
all_taken zero = []
all_taken (suc n) = takes 200 ∷ all_taken n

abbrev idle : Connection
idle = record { sends = all_taken 200; taken = []; reads = []; incoming = [] }

abbrev draws : ℕ → ℕ
draws i = i

abbrev state_of : Outcome Connection (Option ℕ) → Connection
state_of (ok a s) = s
state_of (halt n s) = s
state_of fault = idle
state_of (starve s) = s
state_of out_of_fuel = idle

abbrev written : Connection
written = state_of (thread_for_write true true draws idle)

writes : thread_for_write true true draws idle ≡ ok (some 1) written
unfolding thread_for_write writen write_loop inizializza digits_loop htonl word_bytes write_rounds
writes = refl

abbrev reader : Connection
reader = record idle {
  reads = gives 3 ∷ ReadAnswer.interrupted ∷ gives 500 ∷ [];
  incoming = written.taken ++ 7 ∷ [];
}

reader_clean : clean reader.reads ≡ true
unfolding clean
reader_clean = refl

transfer_example :
    Ends
      (λ result u. (result ≡ some 1) × (u.incoming ≡ 7 ∷ []))
      (λ _ _. ⊥)
      (λ _. Unit {0})
      (thread_for_read true true reader)
transfer_example =
    thread_for_read-thread_for_write draws idle written (7 ∷ []) reader refl writes refl
      reader_clean

-- Three bytes are taken, then the connection breaks.
abbrev breaking : Connection
breaking = record idle { sends = SendAnswer.interrupted ∷ takes 3 ∷ SendAnswer.broken_pipe ∷ [] }

writen_example :
    Ends
      (Result false breaking.sends 5 breaking (1 ∷ 2 ∷ 3 ∷ 4 ∷ 5 ∷ []))
      (λ code t.
        (code ≡ 141)
        × Cut breaking (1 ∷ 2 ∷ 3 ∷ 4 ∷ 5 ∷ []) t
        × Met breaking.sends SendAnswer.broken_pipe t)
      (Waited breaking.sends breaking (1 ∷ 2 ∷ 3 ∷ 4 ∷ 5 ∷ []))
      (writen (1 ∷ 2 ∷ 3 ∷ 4 ∷ 5 ∷ []) breaking)
writen_example = writen-Result (1 ∷ 2 ∷ 3 ∷ 4 ∷ 5 ∷ []) breaking

-- Five bytes come, in two pieces, and nothing behind them.
abbrev short : Connection
short = record idle {
  reads = gives 1 ∷ ReadAnswer.interrupted ∷ gives 9 ∷ gives 0 ∷ [];
  incoming = 1 ∷ 2 ∷ 3 ∷ 4 ∷ 5 ∷ [];
}

readn_example :
    Ends
      (λ result. Reading.Result 7 7 short result.0 result.1)
      (λ _ _. ⊥)
      (Reading.Waited short)
      (readn 7 short)
readn_example = Reading.readn-Result 7 short

detects_example : sommavet (49 ∷ 50 ∷ 51 ∷ []) ≢ sommavet (49 ∷ 52 ∷ 51 ∷ [])
detects_example =
    sommavet-detects (49 ∷ []) 50 52 (51 ∷ []) (omega arith) (omega arith) (omega arith)
