-- ===== src/Ritardatore/Delays.antt =====
-- `ricevo_inserisco`: what becomes of a received datagram.
use gproxy.Common.{ℕ, ◌≤◌, List}
use gproxy.Common.Outcome.Ends.{Ends}
use gproxy.Ritardatore.{Ritardatore}
use gproxy.Ritardatore.Traffic.{Lati, ricevo_inserisco}
use gproxy.Ritardatore.Fates.{Brings, Sorte, Handled, OutOfMemory}

module _ (i : ℕ) (l : Lati) (buf : List ℕ) (s : Ritardatore)
    (wave : (t t0 : ℕ) → s.seno t t0 ≤ 50000) (b : Brings buf s) where
  abbrev Fated : Sorte → Type 0
  Fated fate = Ends (Handled fate l buf s) (OutOfMemory fate s) (λ _. ⊥) (ricevo_inserisco i l s)
