-- ===== src/Psender/Safety.antt =====
-- src/psender.c, any number of rounds of the main loop against any answers of the system.
pub mod Reading
pub mod Filling
pub mod Sending
pub mod Rounds
use gproxy.Common.{
  ℕ, suc, ◌+◌, ◌-◌, ◌^◌, ◌≤◌, ◌<◌, ◌≡◌, refl, ◌⊎◌, inl, inr, true, List, [], ◌∷◌, ◌++◌, length,
  arith,
}
use gproxy.Source.{Carried}
use gproxy.PacketList.Heap.{Memory}
use gproxy.PacketList.Spec.{Cell, Cells}
use gproxy.PacketList.Order.{All}
use gproxy.Psender.{Psender, Datagram, payload}
use gproxy.Psender.Receive.{Holds}
use gproxy.Psender.Stream.{reads, source_of, AllFit}

-- A node whose datagram is the end's or carries its id's chunk.
abbrev pub IsSendable : (ℕ → List ℕ) → Cell → Type 0
IsSendable source c =
    (c.packet.id < 2 ^ 32)
    × ((c.packet.id ≡ 0)
        ⊎ (((payload c.size c.packet).body ≡ source c.packet.id)
            × (0 < length (payload c.size c.packet).body)
            × (c.packet.id < 2 ^ 32 - 1)))

abbrev pub AllCarried : (ℕ → List ℕ) → List Datagram → Type 0
AllCarried source [] = Unit {0}
AllCarried source (d ∷ sent) = Carried source d.packet × AllCarried source sent

-- The chunks so far, and those that the connection still has.
pub record IsReading (chunks : List (List ℕ)) (s : Psender) : Type 0 where
  pub done : List (List ℕ)
  pub split : done ++ reads s.tcp ≡ chunks
  pub next : s.current_id ≡ suc (length done)

-- The state between two operations: every node waits to be sent or acked, with its chunk.
pub record Good (chunks : List (List ℕ)) (s : Psender) : Type 0 where
  pub cells : Cells
  pub holds : Holds s cells
  pub sendable : All (IsSendable (source_of chunks)) cells
  pub room : s.memory.fresh + length s.tcp ≤ s.memory.limit
  pub fit : AllFit s.tcp
  pub reading : (s.ending_read ≡ true) ⊎ IsReading chunks s
  pub few : length chunks + 1 < 2 ^ 32
  pub sent : AllCarried (source_of chunks) s.sent
  pub behind : 5 ≤ length s.behind_ending

-- what has been sent so far
abbrev pub Sound : List (List ℕ) → Psender → Type 0
Sound chunks s = AllCarried (source_of chunks) s.sent

pub AllCarried-append :
    (source : ℕ → List ℕ) (sent : List Datagram) (d : Datagram)
    → AllCarried source sent
    → Carried source d.packet
    → AllCarried source (sent ++ d ∷ [])
AllCarried-append source [] d a c = (c, tt)
AllCarried-append source (x ∷ sent) d a c = (a.0, AllCarried-append source sent d a.1 c)
