-- ===== src/PacketList/Spec.antt =====
-- What a list in memory stands for: its nodes in order, with their packets and sizes.
use gproxy.Common.{◌+◌, ℕ, ◌≡◌, ◌≢◌, Bool, true, false, ◌||◌, some, List, [], ◌∷◌, length, ◌==◌}
use gproxy.Common.Int.{ℤ, pos}
use gproxy.PacketList.Heap.{Ptr, null, Pkt, Memory}

pub record Cell : Type 0 where
  pub at : Ptr
  pub packet : Pkt
  pub size : ℤ

abbrev pub Cells : Type 0
Cells = List Cell

abbrev pub has : Ptr → Cells → Bool
has p [] = false
has p (c ∷ cs) = (p == c.at) || has p cs

abbrev pub Distinct : Cells → Type 0
Distinct [] = Unit {0}
Distinct (c ∷ cs) = (has c.at cs ≡ false) × Distinct cs

-- From `a` the successors lead through the cells to `b`, and the predecessors lead back.
pub data Links (nx pv : Ptr → Ptr) (b : Ptr) : Ptr → Cells → Type 0 where
  nil : {a : Ptr} → nx a ≡ b → pv b ≡ a → Links nx pv b a []
  cons :
      {a : Ptr} {c : Cell} {cs : Cells}
      → nx a ≡ c.at
      → pv c.at ≡ a
      → Links nx pv b c.at cs
      → Links nx pv b a (c ∷ cs)

-- A live node that holds what the cell says.
pub record Node (h : Memory) (c : Cell) : Type 0 where
  pub live : h.live c.at ≡ true
  pub ne_null : c.at ≢ null
  pub packet : h.packet c.at ≡ some c.packet
  pub size : h.pkt_size c.at ≡ c.size

abbrev pub Owned : Memory → Ptr → Cells → Type 0
Owned h hd [] = Unit {0}
Owned h hd (c ∷ cs) = Node h c × (h.head c.at ≡ hd) × Owned h hd cs

pub record IsList (h : Memory) (hd : Ptr) (cs : Cells) : Type 0 where
  pub head_live : h.live hd ≡ true
  pub head_ne_null : hd ≢ null
  pub head_out : has hd cs ≡ false
  pub distinct : Distinct cs
  pub links : Links h.next h.prev hd hd cs
  pub owned : Owned h hd cs
  pub counted : h.length hd ≡ pos (length cs)

-- `g` and `h` agree on the object at `p`.
pub record Same (h g : Memory) (p : Ptr) : Type 0 where
  pub live : g.live p ≡ h.live p
  pub next : g.next p ≡ h.next p
  pub prev : g.prev p ≡ h.prev p
  pub head : g.head p ≡ h.head p
  pub length : g.length p ≡ h.length p
  pub pkt_size : g.pkt_size p ≡ h.pkt_size p
  pub packet : g.packet p ≡ h.packet p

-- The addresses of a list: its head and its nodes.
abbrev pub within : Ptr → Cells → Ptr → Bool
within hd cs p = (p == hd) || has p cs

abbrev pub Frame : (Ptr → Bool) → Memory → Memory → Type 0
Frame inside h g = (p : Ptr) → inside p ≡ false → Same h g p

-- the ids that the list holds, in order
abbrev pub ids : Cells → List ℕ
ids [] = []
ids (c ∷ cs) = c.packet.id ∷ ids cs

-- the allocator stands where it stood
abbrev pub SameRoom : Memory → Memory → Type 0
SameRoom h g = (g.fresh ≡ h.fresh) × (g.limit ≡ h.limit)

-- one object was allocated
abbrev pub Grown : Memory → Memory → Type 0
Grown h g = (g.fresh ≡ h.fresh + 1) × (g.limit ≡ h.limit)

-- The operations on the links leave the rest of memory as it is.
pub record Relinked (h g : Memory) : Type 0 where
  pub live : g.live ≡ h.live
  pub packet : g.packet ≡ h.packet
  pub pkt_size : g.pkt_size ≡ h.pkt_size
  pub fresh : g.fresh ≡ h.fresh
  pub limit : g.limit ≡ h.limit
