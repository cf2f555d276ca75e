-- ===== src/Preceiver/Stream.antt =====
-- The stream as the receiver should get it, and the invariant of its delivery.
use gproxy.Common.{ℕ, suc, ◌-◌, ◌^◌, ◌<◌, ◌≡◌, refl, List, [], ◌∷◌, ap, take, length}
use gproxy.Common.Int.{pos_part}
use gproxy.Wire.{header_size}
use gproxy.Source.{delivered}
use gproxy.PacketList.Spec.{Cell, Cells, IsList}
use gproxy.PacketList.Order.{Ascending, AtLeast, All}
use gproxy.PacketList.Alloc.{IsSound}
use gproxy.PacketList.Pair.{Apart}
use gproxy.Preceiver.{Preceiver}

-- what `send` is given of a node
abbrev pub body_of : Cell → List ℕ
body_of c = take (pos_part c.size - header_size) c.packet.body

-- A node that holds its chunk, whole and not empty; ids stay below the last word.
pub record IsSourced (source : ℕ → List ℕ) (c : Cell) : Type 0 where
  pub chunk : body_of c ≡ source c.packet.id
  pub room : pos_part c.size - header_size ≡ length (body_of c)
  pub filled : 0 < length (body_of c)
  pub small : c.packet.id < 2 ^ 32 - 1

-- The two lists of the preceiver, and what the receiver has got: the chunks below the next id.
pub record Inv (source : ℕ → List ℕ) (s : Preceiver) (snd ack : Cells) : Type 0 where
  pub sound : IsSound s.memory
  pub sending : IsList s.memory s.to_send snd
  pub acking : IsList s.memory s.to_ack ack
  pub apart : Apart s.to_send snd s.to_ack ack
  pub ascending : Ascending snd
  pub waiting : AtLeast s.last_sent_id snd
  pub sourced : All (IsSourced source) snd
  pub count : ℕ
  pub next : s.last_sent_id ≡ suc count
  pub stream : s.stream ≡ delivered source count

pub take-length : (bs : List ℕ) → take (length bs) bs ≡ bs
take-length [] = refl
take-length (b ∷ bs) = ap (λ l. b ∷ l) (take-length bs)
