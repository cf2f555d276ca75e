-- ===== src/Ritardatore/Passage.antt =====
-- What the network emulator lets through: the invariant of its list and of what it has sent.
pub mod Steps
pub mod Arrivals
pub mod Rounds
pub mod Setup
pub mod Main
use gproxy.Common.{
  ℕ, zero, suc, ◌+◌, ◌≤◌, ◌≡◌, refl, ap, sym, ◌⊎◌, inl, inr, Bool, true, false, List, [], ◌∷◌, ◌++◌,
  length, length-append, arith, Bool-cases,
}
use mathlib.Core.Path.{subst}
use gproxy.Ritardatore.{
  Ritardatore, Comando, cmd_addport, cmd_send, Elemento, RecvAnswer, datagram, interrupted, reset,
  failed, aggiungi_in_ordine, normalised,
}
use gproxy.Ritardatore.Util.{minore}
use gproxy.Ritardatore.Traffic.{icmp}

abbrev pub Every : {A : Type 0} → (A → Type 0) → List A → Type 0
Every P [] = Unit
Every P (x ∷ xs) = P x × Every P xs

-- `D` is what arrives. A datagram that passes is one that has arrived, or the report of one.
abbrev pub Passes : (List ℕ → Type 0) → List ℕ → Type 0
Passes D buf = D buf ⊎ (counter : ℕ) × (b : List ℕ) × D b × (buf ≡ icmp counter b)

abbrev pub Sends : (List ℕ → Type 0) → Comando → Type 0
Sends D cmd_addport = ⊥
Sends D (cmd_send fd port dest ip buf) = Passes D buf

abbrev pub Arrives : (List ℕ → Type 0) → RecvAnswer → Type 0
Arrives D (datagram b) = D b
Arrives D interrupted = Unit
Arrives D reset = Unit
Arrives D failed = Unit

abbrev pub Waiting : (List ℕ → Type 0) → Elemento → Type 0
Waiting D e = Sends D e.comando

-- the number of datagrams among the answers
abbrev pub datagrams : List RecvAnswer → ℕ
datagrams [] = 0
datagrams (datagram b ∷ rest) = suc (datagrams rest)
datagrams (interrupted ∷ rest) = datagrams rest
datagrams (reset ∷ rest) = datagrams rest
datagrams (failed ∷ rest) = datagrams rest

-- the bytes that a command sends
abbrev pub bytes_of : Comando → List ℕ
bytes_of cmd_addport = []
bytes_of (cmd_send fd port dest ip buf) = buf

-- A weight of datagrams, for those that were sent, that wait, and that are to come.
module _ (weight : List ℕ → ℕ) where
  abbrev pub weight_sent : List Comando → ℕ
  weight_sent [] = 0
  weight_sent (c ∷ cs) = weight (bytes_of c) + weight_sent cs

  abbrev pub weight_waiting : List Elemento → ℕ
  weight_waiting [] = 0
  weight_waiting (e ∷ es) = weight (bytes_of e.comando) + weight_waiting es

  abbrev pub weight_coming : List RecvAnswer → ℕ
  weight_coming [] = 0
  weight_coming (datagram b ∷ rest) = weight b + weight_coming rest
  weight_coming (interrupted ∷ rest) = weight_coming rest
  weight_coming (reset ∷ rest) = weight_coming rest
  weight_coming (failed ∷ rest) = weight_coming rest

-- What arrives, and a weight of it that no report exceeds its datagram in; how many datagrams there
-- are at most, and how much they weigh together.
pub record Flow : Type 1 where
  pub arrives : List ℕ → Type 0
  pub weight : List ℕ → ℕ
  pub lighter : (counter : ℕ) (b : List ℕ) → weight (icmp counter b) ≤ weight b
  pub total : ℕ
  pub mass : ℕ

-- the weight in the hands of the program
abbrev pub in_hand : Flow → List (List ℕ) → ℕ
in_hand flow [] = 0
in_hand flow (b ∷ bs) = flow.weight b + in_hand flow bs

-- `hand` is what the program has in its hands, neither in its list nor sent.
pub record Passage (flow : Flow) (hand : List (List ℕ)) (s : Ritardatore) : Type 0 where
  pub waiting : Every (Waiting flow.arrives) s.root
  pub sent : Every (Sends flow.arrives) s.spediti
  pub to_come : Every (Arrives flow.arrives) s.recvs
  pub counted : length hand + length s.root + datagrams s.recvs ≤ flow.total
  pub weighed :
      in_hand flow hand
        + weight_sent flow.weight s.spediti
        + weight_waiting flow.weight s.root
        + weight_coming flow.weight s.recvs
      ≤ flow.mass
