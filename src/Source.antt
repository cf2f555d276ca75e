-- ===== src/Source.antt =====
-- The stream that the two proxies carry, cut into chunks: id 0 is the end, each other id a chunk.
use gproxy.Common.{ℕ, zero, suc, ◌-◌, ◌^◌, ◌<◌, ◌≡◌, ◌⊎◌, List, [], ◌++◌, length}
use gproxy.Wire.{body_type, ntohl}
use gproxy.PacketList.Heap.{Pkt}

-- The bytes of the chunks 1 to `n`, for a source that gives each id its chunk.
unfoldable pub delivered : (ℕ → List ℕ) → ℕ → List ℕ
delivered source zero = []
delivered source (suc n) = delivered source n ++ source (suc n)

-- A data packet of the source, in network order: its id's chunk, whole.
pub record IsChunk (source : ℕ → List ℕ) (k : Pkt) : Type 0 where
  pub chunk : k.body ≡ source (ntohl k.id)
  pub filled : 0 < length k.body
  pub small : ntohl k.id < 2 ^ 32 - 1

-- If it is a body packet, it is the end, with id 0, or a chunk.
abbrev pub Carried : (ℕ → List ℕ) → Pkt → Type 0
Carried source k = k.type ≡ body_type → (ntohl k.id ≡ 0) ⊎ IsChunk source k
