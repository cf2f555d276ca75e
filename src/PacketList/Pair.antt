-- ===== src/PacketList/Pair.antt =====
-- Two lists in one memory, and a node that goes from the one to the other.
use gproxy.Common.{◌≡◌, Bool, true, false, ◌||◌, [], ◌∷◌, ◌++◌, arith, ◌==◌, Bool-cases}
use mathlib.Core.Path.{subst}
use gproxy.Common.Outcome.{ok}
use gproxy.Common.Outcome.Returns
use gproxy.Common.Outcome.Returns.{Returns}
use gproxy.PacketList.Heap.{Ptr, Memory}
use gproxy.PacketList.Spec.{Cell, Cells, IsList, Node, Frame, has, within, Relinked, SameRoom}
use gproxy.PacketList.Links.{has-append}
use gproxy.PacketList.Owned.{Owned-append, Node-relink, IsList-frame, Distinct-drop}
use gproxy.PacketList.Remove.{remove_node_lem}
use gproxy.PacketList.Insert.{insert_node_by_id_lem}
use gproxy.PacketList.Place.{insert}
use gproxy.PacketList.Alloc.{
  IsSound, released, clear_node-released, released-IsSound, released-IsList, Relinked-IsSound,
}
use gproxy.PacketList.{remove_node, insert_node_by_id, clear_node}

-- The two lists share no address.
abbrev pub Apart : (hd : Ptr) → Cells → (hd' : Ptr) → Cells → Type 0
Apart hd cs hd' cs' = (p : Ptr) → within hd cs p ≡ true → within hd' cs' p ≡ false

-- A change within the one list spares the other.
pub IsList-Apart :
    {h g : Memory} (hd : Ptr) (cs : Cells) {hd' : Ptr} {cs' : Cells}
    → Apart hd cs hd' cs'
    → Frame (within hd cs) h g
    → IsList h hd' cs'
    → IsList g hd' cs'
IsList-Apart hd cs apart frame is =
    IsList-frame is λ p i. frame p (ground (arith, apart p, Bool-cases (within hd cs p)))

pub has-insert :
    (p : Ptr) (n : Cell) (cs : Cells)
    → ((p == n.at) || has p cs) ≡ false
    → has p (insert n cs) ≡ false
unfolding insert
has-insert p n [] out = out
has-insert p n (c ∷ cs) out = ground (arith, has-insert p n cs)

module _ {h : Memory} {hd hd' : Ptr} (xs : Cells) (c : Cell) (ys : Cells) {cs' : Cells}
    (is : IsList h hd (xs ++ c ∷ ys)) (is' : IsList h hd' cs')
    (apart : Apart hd (xs ++ c ∷ ys) hd' cs') where
  member-Node : Node h c
  member-Node = (Owned-append h hd xs (c ∷ ys) is.owned).1.0

  member-out : within hd' cs' c.at ≡ false
  member-out = apart c.at (ground (arith, has-append c.at xs (c ∷ ys)))

  Apart-drop : Apart hd (xs ++ ys) hd' (c ∷ cs')
  Apart-drop p i = ground (
    arith,
    apart p,
    has-append p xs ys,
    has-append p xs (c ∷ ys),
    Distinct-drop xs ys c is.distinct,
    is.head_out,
    has-append hd xs (c ∷ ys),
    member-out,
  )

  Apart-transfer : Apart hd (xs ++ ys) hd' (insert c cs')
  Apart-transfer p i = ground (arith, Apart-drop p, has-insert p c cs')

  -- The node leaves its list and goes to its place in the other, unless its id is there.
  pub transfer_lem :
      (g : Memory) × (k : Memory) × (done : Bool) × (remove_node c.at h ≡ ok c.at g)
      × (insert_node_by_id hd' c.at g ≡ ok done k)
      × IsList k hd (xs ++ ys)
      × IsList k hd' (insert c cs')
      × Apart hd (xs ++ ys) hd' (insert c cs')
      × Relinked h g
      × Relinked g k
  transfer_lem =
      let (r, g, removes, out) = Returns.result (remove_node_lem xs c ys is) in
      let other = IsList-Apart hd (xs ++ c ∷ ys) apart out.2 is' in
      let (done, k, inserts, into) =
        Returns.result (insert_node_by_id_lem c other (Node-relink member-Node out.3) member-out) in
      (
        g,
        k,
        done,
        subst (λ q. remove_node c.at h ≡ ok q g) out.0 removes,
        inserts,
        IsList-frame out.1 (λ p i. into.2 p (Apart-drop p i)),
        into.1,
        Apart-transfer,
        out.3,
        into.3,
      )

-- The first node of a list, taken out and freed; the other list stays.
pub discard_lem :
    {h : Memory} {hd hd' : Ptr} (c : Cell) (ys : Cells) {cs' : Cells}
    → IsSound h
    → IsList h hd (c ∷ ys)
    → IsList h hd' cs'
    → Apart hd' cs' hd (c ∷ ys)
    → (g : Memory) × (u : Unit {0}) × (k : Memory) × (remove_node c.at h ≡ ok c.at g)
      × (clear_node c.at g ≡ ok u k)
      × IsSound k
      × IsList k hd ys
      × IsList k hd' cs'
      × Apart hd' cs' hd ys
      × (k.live c.at ≡ false)
      × SameRoom h k
discard_lem {h} {hd} {hd'} c ys {cs'} sound is is' apart =
    let (r, g, removes, out) = Returns.result (remove_node_lem [] c ys is) in
    let other = IsList-frame is' (λ p i. out.2 p (apart p i)) in
    let free_lem = clear_node-released g c.at (rw out.3.live is.owned.0.live) is.owned.0.ne_null in
    let away : within hd ys c.at ≡ false = ground (arith, is.head_out, is.distinct) in
    let away' : within hd' cs' c.at ≡ false =
      ground (arith, apart c.at, Bool-cases (within hd' cs' c.at)) in
    (
      g,
      tt,
      released g c.at,
      subst (λ q. remove_node c.at h ≡ ok q g) out.0 removes,
      free_lem,
      released-IsSound c.at (Relinked-IsSound out.3 sound),
      released-IsList c.at out.1 away,
      released-IsList c.at other away',
      (λ p i. ground (arith, apart p)),
      ground arith,
      (out.3.fresh, out.3.limit),
    )

-- A node in neither list goes to its place in the first, unless its id is there; the other stays.
pub arrive_lem :
    {h : Memory} {hd hd' : Ptr} (n : Cell) {cs cs' : Cells}
    → IsSound h
    → IsList h hd cs
    → IsList h hd' cs'
    → Apart hd cs hd' cs'
    → Node h n
    → within hd cs n.at ≡ false
    → within hd' cs' n.at ≡ false
    → (done : Bool) × (g : Memory) × (insert_node_by_id hd n.at h ≡ ok done g)
      × IsSound g
      × IsList g hd (insert n cs)
      × IsList g hd' cs'
      × Apart hd (insert n cs) hd' cs'
      × Relinked h g
arrive_lem {h} {hd} {hd'} n {cs} {cs'} sound is is' apart node out out' =
    let (done, g, runs, into) = Returns.result (insert_node_by_id_lem n is node out) in
    let wide : Apart hd (n ∷ cs) hd' cs' = λ p i. ground (arith, apart p) in
    (
      done,
      g,
      runs,
      Relinked-IsSound into.3 sound,
      into.1,
      IsList-Apart hd (n ∷ cs) wide into.2 is',
      (λ p i. ground (arith, wide p, has-insert p n cs)),
      into.3,
    )

pub Apart-sym :
    (hd : Ptr) (cs : Cells) (hd' : Ptr) (cs' : Cells) → Apart hd cs hd' cs' → Apart hd' cs' hd cs
Apart-sym hd cs hd' cs' apart p i = ground (arith, apart p, Bool-cases (within hd cs p))
