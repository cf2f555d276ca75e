-- ===== src/PacketList/Place.antt =====
-- Where `insertNodeById` puts a node.
use gproxy.Common.{
  ℕ, zero, suc, ◌<◌, ◌≡◌, refl, Bool, true, false, [], ◌∷◌, ◌++◌, arith, ltb, ◌==◌, length, ap,
  if◌then◌else◌, Bool-cases, inl, inr,
}
use gproxy.Common.Outcome.{ok}
use gproxy.PacketList.Heap.{Ptr, Memory}
use gproxy.PacketList.Spec.{Cell, Cells, has, Links, nil, cons, Node, Owned}
use gproxy.PacketList.{position_loop}

-- The walk meets the id before it meets a greater one.
unfoldable pub meets : ℕ → Cells → Bool
meets id [] = false
meets id (c ∷ cs) =
    if c.packet.id == id then true else if ltb id c.packet.id then false else meets id cs

unfoldable pub insert : Cell → Cells → Cells
insert n [] = n ∷ []
insert n (c ∷ cs) =
    if c.packet.id == n.packet.id
    then c ∷ cs
    else if ltb n.packet.id c.packet.id
    then n ∷ c ∷ cs
    else c ∷ insert n cs

-- where the walk stops
pub position : Ptr → ℕ → Cells → Ptr
position hd id [] = hd
position hd id (c ∷ cs) =
    if c.packet.id == id then c.at else if ltb id c.packet.id then c.at else position hd id cs

pub position_loop-position :
    (h : Memory) (hd : Ptr) (fuel : ℕ) (n : Cell) {a : Ptr} {cs : Cells}
    → Node h n
    → Links h.next h.prev hd a cs
    → has hd cs ≡ false
    → Owned h hd cs
    → length cs < fuel
    → position_loop fuel hd (h.next a) n.at h
      ≡ ok (position hd n.packet.id cs, meets n.packet.id cs) h
unfolding position_loop position meets
position_loop-position h hd zero n m l out o f = absurd (omega arith)
position_loop-position h hd (suc fuel) n m (nil e e') out o f = ground arith
position_loop-position h hd (suc fuel) n m (cons {c} {cs} e e' l) out o f =
    ground (arith, position_loop-position h hd fuel n m l)

-- How the list is cut at the place for a new id.
pub data Place (hd : Ptr) (n : Cell) : Cells → Type 0 where
  known : {cs : Cells} → meets n.packet.id cs ≡ true → insert n cs ≡ cs → Place hd n cs
  last :
      {cs : Cells}
      → meets n.packet.id cs ≡ false
      → position hd n.packet.id cs ≡ hd
      → insert n cs ≡ cs ++ n ∷ []
      → Place hd n cs
  before :
      {cs : Cells} (xs : Cells) (c : Cell) (ys : Cells)
      → cs ≡ xs ++ c ∷ ys
      → meets n.packet.id cs ≡ false
      → position hd n.packet.id cs ≡ c.at
      → insert n cs ≡ xs ++ n ∷ c ∷ ys
      → Place hd n cs

pub Place-cons :
    (hd : Ptr) (n c : Cell) {cs : Cells}
    → (c.packet.id == n.packet.id) ≡ false
    → ltb n.packet.id c.packet.id ≡ false
    → Place hd n cs
    → Place hd n (c ∷ cs)
unfolding meets insert position
Place-cons hd n c ne ge (known m i) = known (rw (ne, ge) m) (rw (ne, ge, i))
Place-cons hd n c ne ge (last m p i) = last (rw (ne, ge) m) (rw (ne, ge) p) (rw (ne, ge, i))
Place-cons hd n c ne ge (before xs d ys s m p i) =
    before (c ∷ xs) d ys (ap (λ l. c ∷ l) s) (rw (ne, ge) m) (rw (ne, ge) p) (rw (ne, ge, i))

pub place : (hd : Ptr) (n : Cell) (cs : Cells) → Place hd n cs
unfolding meets insert position
place hd n [] = last refl refl refl
place hd n (c ∷ cs) = elim (Bool-cases (c.packet.id == n.packet.id)) [
  | inl same ↦ known (rw same) (rw same)
  | inr ne ↦ elim (Bool-cases (ltb n.packet.id c.packet.id)) [
    | inl lt ↦ before [] c cs refl (rw (ne, lt)) (rw (ne, lt)) (rw (ne, lt))
    | inr ge ↦ Place-cons hd n c ne ge (place hd n cs)
  ]
]
