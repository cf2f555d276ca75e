-- ===== src/PacketList/Alloc.antt =====
-- `allocNode`: a node that is in no list, with a copy of the bytes.
use gproxy.Common.{
  ℕ, ◌+◌, ◌%◌, ◌^◌, ◌≤◌, ◌<◌, ◌≡◌, ◌≢◌, refl, true, false, none, some, List, [], arith, take,
  Bool-cases, ◌⊎◌, inl, inr,
}
use mathlib.Core.Path.{subst, sym, ap, ◌∙◌}
use gproxy.Common.Int.{ℤ, pos, negsuc}
use gproxy.Common.Outcome.{ok, fault}
use gproxy.Common.Outcome.Returns.{Returns, returns}
use gproxy.PacketList.Heap.{Ptr, null, Pkt, Memory, update}
use gproxy.PacketList.Spec.{Cells, has, Node, IsList, Same, within, Relinked, SameRoom}
use gproxy.PacketList.Owned.{Owned-live, IsList-frame}
use gproxy.PacketList.{Buffer, payload_size, alloc_node, clear_node}

-- The allocator hands out addresses that no live object has.
pub record IsSound (h : Memory) : Type 0 where
  pub below : (p : Ptr) → h.live p ≡ true → p < h.fresh
  pub positive : 0 < h.fresh
  pub null_dead : h.live null ≡ false

-- the memory after `allocNode`
abbrev pub allocated : Memory → Pkt → ℕ → Memory
allocated h k size = record h {
  live = update h.live h.fresh true;
  next = update h.next h.fresh h.fresh;
  prev = update h.prev h.fresh h.fresh;
  length = update h.length h.fresh (negsuc 0);
  pkt_size = update h.pkt_size h.fresh (pos size);
  packet = update h.packet h.fresh (some k);
  fresh = h.fresh + 1;
}

abbrev pub node_packet : (id type : ℕ) → List ℕ → Pkt
node_packet id type body = record { id = id % 2 ^ 32; type = type % 256; body = body }

-- With memory left, the node holds the id, the type and the first `size` bytes.
pub alloc_node-allocated :
    (h : Memory) (id type : ℕ) (body : Buffer) (size : ℕ)
    → h.fresh < h.limit
    → size ≤ payload_size
    → size ≤ body.extent
    → alloc_node id type (some body) size h
      ≡ ok h.fresh (allocated h (node_packet id type (take size body.bytes)) size)
unfolding alloc_node
alloc_node-allocated h id type body size room fits readable = ground arith

pub alloc_node-empty :
    (h : Memory) (id type size : ℕ)
    → h.fresh < h.limit
    → alloc_node id type none size h ≡ ok h.fresh (allocated h (node_packet id type []) 0)
unfolding alloc_node
alloc_node-empty h id type size room = ground arith

-- A copy that is longer than the packet's array, or than its source, runs past the end.
pub alloc_node-fault :
    (h : Memory) (id type : ℕ) (body : Buffer) (size : ℕ)
    → h.live null ≡ false
    → (payload_size < size) ⊎ (body.extent < size)
    → alloc_node id type (some body) size h ≡ fault
unfolding alloc_node
alloc_node-fault h id type body size dead (inl long) = ground arith
alloc_node-fault h id type body size dead (inr short) = ground arith

pub allocated-IsSound : {h : Memory} (k : Pkt) (size : ℕ) → IsSound h → IsSound (allocated h k size)
allocated-IsSound {h} k size s = record {
  below = λ p e. ground (arith, s.below p);
  positive = omega arith;
  null_dead = ground (arith, s.positive, s.null_dead);
}

pub allocated-Node :
    {h : Memory} (k : Pkt) (size : ℕ)
    → IsSound h
    → Node (allocated h k size) (record { at = h.fresh; packet = k; size = pos size })
allocated-Node {h} k size s = record {
  live = ground arith;
  ne_null = λ e. absurd (ground (arith, s.positive));
  packet = ground arith;
  size = ground arith;
}

-- The new address is outside every list, and the lists stay.
pub fresh-out :
    {h : Memory} {hd : Ptr} {cs : Cells} → IsSound h → IsList h hd cs → within hd cs h.fresh ≡ false
fresh-out {h} {hd} {cs} s is = ground (
  arith,
  s.below h.fresh,
  is.head_live,
  Owned-live h hd h.fresh cs is.owned,
  Bool-cases (has h.fresh cs),
)

pub allocated-Same :
    (h : Memory) (k : Pkt) (size : ℕ) (p : Ptr) → p ≢ h.fresh → Same h (allocated h k size) p
allocated-Same h k size p ne = ground arith

pub allocated-IsList :
    {h : Memory} {hd : Ptr} {cs : Cells} (k : Pkt) (size : ℕ)
    → IsSound h
    → IsList h hd cs
    → IsList (allocated h k size) hd cs
allocated-IsList {h} k size s is =
    IsList-frame is λ p i. allocated-Same h k size p λ e. ground (arith, fresh-out s is)

-- the memory after `clearNode`
abbrev pub released : Memory → Ptr → Memory
released h p = record h { live = update h.live p false }

pub clear_node-released :
    (h : Memory) (p : Ptr) → h.live p ≡ true → p ≢ null → clear_node p h ≡ ok tt (released h p)
unfolding clear_node
clear_node-released h p l ne = ground arith

pub clear_node-null : (h : Memory) → clear_node null h ≡ ok tt h
unfolding clear_node
clear_node-null h = refl

pub released-IsSound : {h : Memory} (p : Ptr) → IsSound h → IsSound (released h p)
released-IsSound {h} p s = record {
  below = λ q e. ground (arith, s.below q);
  positive = s.positive;
  null_dead = ground (arith, s.null_dead);
}

pub released-IsList :
    {h : Memory} {hd : Ptr} {cs : Cells} (p : Ptr)
    → IsList h hd cs
    → within hd cs p ≡ false
    → IsList (released h p) hd cs
released-IsList p is out = IsList-frame is λ q i. ground arith

-- `clearNode` of a live node outside the list, or of `NULL`, frees it, keeps the list, and allocates
-- nothing.
pub clear_node_lem :
    {h : Memory} {hd : Ptr} {cs : Cells} (p : Ptr)
    → IsSound h
    → IsList h hd cs
    → within hd cs p ≡ false
    → (p ≡ null) ⊎ (h.live p ≡ true)
    → Returns
        (λ _ g. IsSound g × IsList g hd cs × (g.live p ≡ false) × SameRoom h g)
        (clear_node p h)
clear_node_lem {h} p s is out (inl e) =
    rw (e, clear_node-null) (returns (s, is, s.null_dead, (refl, refl)))
clear_node_lem {h} p s is out (inr l) =
    rw (clear_node-released h p l (λ e. absurd (ground (arith, s.null_dead))))
      (returns (released-IsSound p s, released-IsList p is out, ground arith, (refl, refl)))

-- Relinking moves no object.
pub Relinked-IsSound : {h g : Memory} → Relinked h g → IsSound h → IsSound g
Relinked-IsSound r s = record {
  below = λ p e. subst (λ n. p < n) (sym r.fresh) (s.below p (ap (λ f. f p) (sym r.live) ∙ e));
  positive = rw r.fresh s.positive;
  null_dead = ap (λ f. f 0) r.live ∙ s.null_dead;
}

-- `g` is `h` with a new object at `p`.
pub record New (h g : Memory) (p : Ptr) : Type 0 where
  pub sound : IsSound g
  pub live : g.live p ≡ true
  pub ne_null : p ≢ null
  pub same : (q : Ptr) → q ≢ p → Same h g q

pub allocated-New :
    {h : Memory} (k : Pkt) (size : ℕ) → IsSound h → New h (allocated h k size) h.fresh
allocated-New {h} k size s =
    let n = allocated-Node k size s in
    record {
      sound = allocated-IsSound k size s;
      live = n.live;
      ne_null = n.ne_null;
      same = allocated-Same h k size;
    }

-- Writes to the new node's own fields.
abbrev pub with_packet : Memory → Ptr → Pkt → Memory
with_packet g p k = record g { packet = update g.packet p (some k) }

abbrev pub with_size : Memory → Ptr → ℤ → Memory
with_size g p size = record g { pkt_size = update g.pkt_size p size }

pub New-with_packet : {h g : Memory} {p : Ptr} (k : Pkt) → New h g p → New h (with_packet g p k) p
New-with_packet k new = record {
  sound = record {
    below = new.sound.below;
    positive = new.sound.positive;
    null_dead = new.sound.null_dead;
  };
  live = new.live;
  ne_null = new.ne_null;
  same = λ q ne. ground (arith, new.same q ne);
}

pub New-with_size : {h g : Memory} {p : Ptr} (size : ℤ) → New h g p → New h (with_size g p size) p
New-with_size size new = record {
  sound = record {
    below = new.sound.below;
    positive = new.sound.positive;
    null_dead = new.sound.null_dead;
  };
  live = new.live;
  ne_null = new.ne_null;
  same = λ q ne. ground (arith, new.same q ne);
}

pub New-IsList :
    {h g : Memory} {p : Ptr} {hd : Ptr} {cs : Cells}
    → New h g p
    → within hd cs p ≡ false
    → IsList h hd cs
    → IsList g hd cs
New-IsList new out is = IsList-frame is λ q i. new.same q λ e. ground arith
