-- ===== src/PacketList/Search.antt =====
-- `searchNodeById` and `removeNodeById`: the first node with the id, if there is one.
use gproxy.Common.{
  ℕ, zero, suc, ◌%◌, ◌^◌, ◌<◌, ◌≡◌, refl, ◌≢◌, true, false, [], ◌∷◌, ◌++◌, arith, ◌==◌, length, ap,
  if◌then◌else◌, Bool-cases, inl, inr,
}
use gproxy.Common.Outcome.{ok}
use gproxy.Common.Outcome.Returns
use gproxy.Common.Outcome.Returns.{Returns, returns}
use gproxy.PacketList.Heap.{Ptr, null, Memory}
use gproxy.PacketList.Spec.{
  Cell, Cells, has, Distinct, Links, nil, cons, Owned, IsList, within, Frame, Relinked,
}
use gproxy.PacketList.Owned.{Relinked-refl, Same-refl}
use gproxy.PacketList.Remove.{remove_node_lem, remove_node-null}
use mathlib.Core.Path.{subst, sym}
use gproxy.PacketList.{search_loop, search_node_by_id, remove_node_by_id}

-- The address of the first cell with the id, and `NULL` if there is none.
unfoldable pub find : ℕ → Cells → Ptr
find id [] = null
find id (c ∷ cs) = if c.packet.id == id then c.at else find id cs

-- The list with the first cell of that id left out.
unfoldable pub erase : ℕ → Cells → Cells
erase id [] = []
erase id (c ∷ cs) = if c.packet.id == id then cs else c ∷ erase id cs

search_loop-find :
    (h : Memory) (hd : Ptr) (fuel id : ℕ) {a : Ptr} {cs : Cells}
    → Links h.next h.prev hd a cs
    → has hd cs ≡ false
    → Owned h hd cs
    → length cs < fuel
    → search_loop fuel hd (h.next a) id h ≡ ok (find id cs) h
unfolding search_loop find
search_loop-find h hd zero id l out o f = absurd (omega arith)
search_loop-find h hd (suc fuel) id (nil e e') out o f = ground arith
search_loop-find h hd (suc fuel) id (cons {c} {cs} e e' l) out o f =
    ground (arith, search_loop-find h hd fuel id l)

-- `searchNodeById` finds the first node with the id, and changes nothing.
pub search_node_by_id-find :
    {h : Memory} {hd : Ptr} {cs : Cells} (id : ℕ)
    → IsList h hd cs
    → search_node_by_id hd id h ≡ ok (find (id % 2 ^ 32) cs) h
unfolding search_node_by_id
search_node_by_id-find {h} {hd} {cs} id is = ground (
  arith,
  is.head_live,
  is.counted,
  search_loop-find h hd (suc (length cs)) (id % 2 ^ 32) is.links is.head_out is.owned,
)

-- Where the search stops: nowhere, or at a cell between those before and behind it.
data Found (id : ℕ) : Cells → Type 0 where
  nowhere : {cs : Cells} → find id cs ≡ null → erase id cs ≡ cs → Found id cs
  there :
      {cs : Cells} (xs : Cells) (c : Cell) (ys : Cells)
      → cs ≡ xs ++ c ∷ ys
      → find id cs ≡ c.at
      → erase id cs ≡ xs ++ ys
      → Found id cs

Found-cons :
    (id : ℕ) (c : Cell) {cs : Cells} → (c.packet.id == id) ≡ false → Found id cs → Found id (c ∷ cs)
unfolding find erase
Found-cons id c ne (nowhere f e) = nowhere (ground arith) (ground arith)
Found-cons id c ne (there xs d ys s f e) =
    there (c ∷ xs) d ys (ap (λ l. c ∷ l) s) (ground arith) (ground arith)

found : (id : ℕ) (cs : Cells) → Found id cs
unfolding find erase
found id [] = nowhere refl refl
found id (c ∷ cs) = elim (Bool-cases (c.packet.id == id)) [
  | inl hit ↦ there [] c cs refl (rw hit) (rw hit)
  | inr miss ↦ Found-cons id c miss (found id cs)
]

abbrev Removed : Memory → Ptr → Cells → ℕ → Ptr → Memory → Type 0
Removed h hd cs id r g =
    (r ≡ find (id % 2 ^ 32) cs)
    × IsList g hd (erase (id % 2 ^ 32) cs)
    × Frame (within hd cs) h g
    × Relinked h g

Found-remove :
    {h : Memory} {hd : Ptr} {cs : Cells} (id : ℕ)
    → IsList h hd cs
    → Found (id % 2 ^ 32) cs
    → Returns (Removed h hd cs id) (remove_node_by_id hd id h)
unfolding remove_node_by_id
Found-remove {h} {hd} {cs} id is (nowhere f e) =
    rw (search_node_by_id-find id is, f, remove_node-null h)
      (returns (sym f, rw e is, (λ p o. Same-refl h p), Relinked-refl h))
Found-remove {h} {hd} {cs} id is (there xs c ys s f e) =
    rw (search_node_by_id-find id is, f)
      (Returns.bind (remove_node_lem xs c ys (subst (IsList h hd) s is))
        λ r g (same, list, frame, relinked). returns (sym f, rw e list, rw s frame, relinked))

-- `removeNodeById` takes out the first node with the id and returns it; without one it returns
-- `NULL` and the list stays as it is. Memory outside the list is as it was.
pub remove_node_by_id_lem :
    {h : Memory} {hd : Ptr} {cs : Cells} (id : ℕ)
    → IsList h hd cs
    → Returns
        (λ r g.
          (r ≡ find (id % 2 ^ 32) cs)
          × IsList g hd (erase (id % 2 ^ 32) cs)
          × Frame (within hd cs) h g
          × Relinked h g)
        (remove_node_by_id hd id h)
remove_node_by_id_lem {cs} id is = Found-remove id is (found (id % 2 ^ 32) cs)

-- The node found was in the list, and is in it no more.
pub find-erase :
    (id : ℕ) (cs : Cells)
    → Distinct cs
    → find id cs ≢ null
    → (has (find id cs) cs ≡ true) × (has (find id cs) (erase id cs) ≡ false)
unfolding find erase
find-erase id [] d ne = absurd (ne refl)
find-erase id (c ∷ cs) d ne = ground (arith, find-erase id cs d.1)
