-- ===== src/Ritardatore/Util/Sockets/Streams.antt =====
-- TCP_setup_connection: what it leaves, for any answers of the system.
use gproxy.Common.{ℕ, ◌+◌, ◌≡◌, ◌⊎◌, Bool, true, false, List, [], ◌∷◌}
use gproxy.Common.Outcome.Ends.{Ends}
use gproxy.Ritardatore.Util.Sockets.{Sockets, CallAnswer, done, interrupted, failed}
use gproxy.Ritardatore.Util.Sockets.Calls.{Went, Refused}

-- `connect` succeeds, when it is tried again while it is interrupted
abbrev pub connects : List CallAnswer → Bool
connects [] = true
connects (done ∷ rest) = true
connects (interrupted ∷ rest) = connects rest
connects (failed ∷ rest) = false

-- `n` calls were done, and `connect` behind them succeeds, tried again while it is interrupted; or
-- it fails.
abbrev pub Connects : Bool → ℕ → List CallAnswer → Type 0
Connects answer n script = (rest : List CallAnswer) × Went n script rest × (connects rest ≡ answer)

-- what is refused when it returns 0: `socket`, `bind` or `connect`
abbrev pub RefusedStream : ℕ → List CallAnswer → Type 0
RefusedStream n script = Refused 0 script ⊎ (Refused (3 + n) script ⊎ Connects false (4 + n) script)
