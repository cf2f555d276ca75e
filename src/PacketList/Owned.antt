-- ===== src/PacketList/Owned.antt =====
-- Nodes of a list: they are live, and stay what they are where the memory is left alone.
use gproxy.Common.{◌≡◌, refl, ap, ◌∙◌, ◌≢◌, true, false, [], ◌∷◌, ◌++◌, arith}
use gproxy.PacketList.Heap.{Ptr, null, Memory}
use gproxy.PacketList.Spec.{Cell, Cells, has, Distinct, Node, Owned, IsList, Same, within, Relinked}
use gproxy.PacketList.Links.{has-append, last-has, Links-frame}

pub Owned-live :
    (h : Memory) (hd p : Ptr) (cs : Cells)
    → Owned h hd cs
    → has p cs ≡ true
    → (h.live p ≡ true) × (p ≢ null)
Owned-live h hd p [] o i = cc
Owned-live h hd p (c ∷ cs) o i = ground (arith, Owned-live h hd p cs)

pub Owned-append :
    (h : Memory) (hd : Ptr) (xs ys : Cells) → Owned h hd (xs ++ ys) → Owned h hd xs × Owned h hd ys
Owned-append h hd [] ys o = (tt, o)
Owned-append h hd (x ∷ xs) ys o =
    let (front, back) = Owned-append h hd xs ys o.2 in ((o.0, o.1, front), back)

pub Owned-join :
    (h : Memory) (hd : Ptr) (xs ys : Cells) → Owned h hd xs → Owned h hd ys → Owned h hd (xs ++ ys)
Owned-join h hd [] ys o o' = o'
Owned-join h hd (x ∷ xs) ys o o' = (o.0, o.1, Owned-join h hd xs ys o.2 o')

pub Node-frame : {h g : Memory} {c : Cell} → Node h c → Same h g c.at → Node g c
Node-frame n s = ground arith

pub Owned-frame :
    (h g : Memory) (hd : Ptr) (cs : Cells)
    → ((p : Ptr) → has p cs ≡ true → Same h g p)
    → Owned h hd cs
    → Owned g hd cs
Owned-frame h g hd [] same o = tt
Owned-frame h g hd (c ∷ cs) same o = (
  Node-frame o.0 (same c.at (ground arith)),
  ground (arith, same c.at),
  Owned-frame h g hd cs (λ p i. same p (ground arith)) o.2,
)

pub prev-live :
    {h : Memory} {hd : Ptr} {cs : Cells}
    → IsList h hd cs
    → (h.live (h.prev hd) ≡ true) × (h.prev hd ≢ null)
prev-live {h} {hd} {cs} is =
    ground (arith, last-has is.links, Owned-live h hd (h.prev hd) cs is.owned)

-- A list survives any change that spares its head and nodes.
pub IsList-frame :
    {h g : Memory} {hd : Ptr} {cs : Cells}
    → IsList h hd cs
    → ((p : Ptr) → within hd cs p ≡ true → Same h g p)
    → IsList g hd cs
IsList-frame {h} {g} {hd} {cs} is same = record {
  head_live = ground (arith, same hd);
  head_ne_null = is.head_ne_null;
  head_out = is.head_out;
  distinct = is.distinct;
  links = Links-frame is.links (λ p i. ground (arith, same p)) (λ p i. ground (arith, same p));
  owned = Owned-frame h g hd cs (λ p i. same p (ground arith)) is.owned;
  counted = ground (arith, same hd);
}

pub Distinct-append : (xs ys : Cells) → Distinct (xs ++ ys) → Distinct xs × Distinct ys
Distinct-append [] ys d = (tt, d)
Distinct-append (x ∷ xs) ys d = ground (arith, has-append x.at xs ys, Distinct-append xs ys d.1)

-- A new node may be put anywhere, and any node may be left out.
pub Distinct-insert :
    (xs ys : Cells) (c : Cell)
    → Distinct (xs ++ ys)
    → has c.at (xs ++ ys) ≡ false
    → Distinct (xs ++ c ∷ ys)
Distinct-insert [] ys c d out = (out, d)
Distinct-insert (x ∷ xs) ys c d out = (
  ground (arith, has-append x.at xs ys, has-append x.at xs (c ∷ ys)),
  Distinct-insert xs ys c d.1 (ground arith),
)

pub Distinct-drop :
    (xs ys : Cells) (c : Cell)
    → Distinct (xs ++ c ∷ ys)
    → Distinct (xs ++ ys) × (has c.at (xs ++ ys) ≡ false)
Distinct-drop [] ys c d = (d.1, d.0)
Distinct-drop (x ∷ xs) ys c d =
    ground (arith, has-append x.at xs ys, has-append x.at xs (c ∷ ys), Distinct-drop xs ys c d.1)

pub Node-relink : {h g : Memory} {c : Cell} → Node h c → Relinked h g → Node g c
Node-relink {c} n r = record {
  live = ap (λ f. f c.at) r.live ∙ n.live;
  ne_null = n.ne_null;
  packet = ap (λ f. f c.at) r.packet ∙ n.packet;
  size = ap (λ f. f c.at) r.pkt_size ∙ n.size;
}

-- Only the owner fields matter to an operation on the links.
pub Owned-relink :
    (h g : Memory) (hd : Ptr) (cs : Cells)
    → Relinked h g
    → ((p : Ptr) → has p cs ≡ true → g.head p ≡ h.head p)
    → Owned h hd cs
    → Owned g hd cs
Owned-relink h g hd [] r same o = tt
Owned-relink h g hd (c ∷ cs) r same o = (
  Node-relink o.0 r,
  ground (arith, same c.at),
  Owned-relink h g hd cs r (λ p i. same p (ground arith)) o.2,
)

pub Distinct-apart :
    (xs ys : Cells) → Distinct (xs ++ ys) → (p : Ptr) → has p xs ≡ true → has p ys ≡ false
Distinct-apart [] ys d p i = cc
Distinct-apart (x ∷ xs) ys d p i = ground (arith, has-append x.at xs ys, Distinct-apart xs ys d.1 p)

pub Relinked-refl : (h : Memory) → Relinked h h
Relinked-refl h = record { live = refl; packet = refl; pkt_size = refl; fresh = refl; limit = refl }

pub Same-refl : (h : Memory) (p : Ptr) → Same h h p
Same-refl h p = record {
  live = refl;
  next = refl;
  prev = refl;
  head = refl;
  length = refl;
  pkt_size = refl;
  packet = refl;
}
