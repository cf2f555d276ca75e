-- ===== src/PacketList/Purge.antt =====
-- A node found by its id, taken out of the list and freed.
use gproxy.Common.{ℕ, ◌%◌, ◌^◌, ◌<◌, ◌≡◌, ◌∙◌, false, arith, Bool-cases, inl, inr}
use native.Mathlib.Decide.{ℕ_discrete}
use mathlib.Core.Path.{subst}
use gproxy.Common.Outcome.{ok}
use gproxy.Common.Outcome.Returns
use gproxy.Common.Outcome.Returns.{Returns}
use gproxy.PacketList.Heap.{Ptr, null, Memory}
use gproxy.PacketList.Spec.{Cells, IsList, has, within, Relinked, SameRoom}
use gproxy.PacketList.Owned.{Owned-live}
use gproxy.PacketList.Search.{find, erase, find-erase, remove_node_by_id_lem}
use gproxy.PacketList.Alloc.{IsSound, clear_node_lem, Relinked-IsSound}
use gproxy.PacketList.{remove_node_by_id, clear_node}

null-out : {h : Memory} {hd : Ptr} {cs : Cells} → IsList h hd cs → within hd cs null ≡ false
null-out {h} {hd} {cs} is =
    ground (arith, is.head_ne_null, Owned-live h hd null cs is.owned, Bool-cases (has null cs))

purge-clear :
    {h g : Memory} {hd : Ptr} {cs : Cells} (id : ℕ)
    → IsSound g
    → IsList h hd cs
    → IsList g hd (erase id cs)
    → Relinked h g
    → Returns
        (λ _ k.
          IsSound k × IsList k hd (erase id cs) × (k.live (find id cs) ≡ false) × SameRoom g k)
        (clear_node (find id cs) g)
purge-clear {h} {g} {hd} {cs} id s is list r = elim (ℕ_discrete (find id cs) null) [
  | yes e ↦ clear_node_lem (find id cs) s list (rw e (null-out list)) (inl e)
  | no ne ↦
      let (was, gone) = find-erase id cs is.distinct ne in
      clear_node_lem (find id cs) s list (ground (arith, is.head_out))
        (inr (rw r.live (Owned-live h hd (find id cs) cs is.owned was).0))
]

-- What `removeNodeById` and then `clearNode` do to a list.
pub purge_lem :
    {h : Memory} {hd : Ptr} {cs : Cells} (id : ℕ)
    → IsSound h
    → IsList h hd cs
    → id < 2 ^ 32
    → (p : Ptr) × (g : Memory) × (u : Unit {0}) × (k : Memory) × (remove_node_by_id hd id h
        ≡ ok p g)
      × (clear_node p g ≡ ok u k)
      × IsSound k
      × IsList k hd (erase id cs)
      × (k.live (find id cs) ≡ false)
      × SameRoom h k
purge_lem {h} {hd} {cs} id s is lt =
    let (r, g, runs, facts) = Returns.result (remove_node_by_id_lem id is) in
    let word : id % 2 ^ 32 ≡ id = omega arith in
    let same : r ≡ find id cs = subst (λ n. r ≡ find n cs) word facts.0 in
    let list : IsList g hd (erase id cs) = subst (λ n. IsList g hd (erase n cs)) word facts.1 in
    let (u, k, clears, after) =
      Returns.result (purge-clear id (Relinked-IsSound facts.3 s) is list facts.3) in
    (
      r,
      g,
      u,
      k,
      runs,
      rw same clears,
      after.0,
      after.1,
      after.2,
      (after.3.0 ∙ facts.3.fresh, after.3.1 ∙ facts.3.limit),
    )
