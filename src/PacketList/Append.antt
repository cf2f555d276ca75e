-- ===== src/PacketList/Append.antt =====
-- `appendNode` puts the node at the end of the list.
use gproxy.Common.{◌≡◌, refl, ◌≢◌, false, [], ◌∷◌, ◌++◌, arith, length-append}
use mathlib.Core.List.{append-nil}
use gproxy.Common.Int.{incr}
use gproxy.Common.Outcome.{ok}
use gproxy.Common.Outcome.Returns.{Returns, returns}
use gproxy.PacketList.Heap.{Ptr, Memory, update}
use gproxy.PacketList.Spec.{Cell, Cells, Node, IsList, within, Frame, Relinked}
use gproxy.PacketList.Links.{has-append, last-has, Links-extend}
use gproxy.PacketList.Owned.{Owned-relink, Node-relink, Owned-join, prev-live, Distinct-insert}
use gproxy.PacketList.{append_node}

-- the memory after the node is linked in before `q`, with the list's new length
abbrev pub linked_before : Memory → (hd new q : Ptr) → Memory
linked_before h hd new q = record h {
  next = update (update h.next new q) (h.prev q) new;
  prev = update (update h.prev new (h.prev q)) q new;
  head = update h.head new hd;
  length = update h.length hd (incr (h.length hd));
}

append_node-linked :
    (h : Memory) {hd : Ptr} {cs : Cells} (c : Cell)
    → IsList h hd cs
    → Node h c
    → hd ≢ c.at
    → append_node hd c.at h ≡ ok tt (linked_before h hd c.at hd)
unfolding append_node
append_node-linked h {hd} c is n ne = ground (arith, prev-live is)

pub linked_before-Relinked : (h : Memory) (hd new q : Ptr) → Relinked h (linked_before h hd new q)
linked_before-Relinked h hd new q = record {
  live = refl;
  packet = refl;
  pkt_size = refl;
  fresh = refl;
  limit = refl;
}

-- What is known after a node is linked into a list: the list, and that memory outside the list
-- and the node is as it was.
abbrev pub Linked : Memory → Ptr → Cell → Cells → Cells → Memory → Type 0
Linked h hd n cs out g = IsList g hd out × Frame (within hd (n ∷ cs)) h g × Relinked h g

pub linked_before-IsList :
    {h : Memory} {hd : Ptr} {cs : Cells} (n : Cell)
    → IsList h hd cs
    → Node h n
    → within hd cs n.at ≡ false
    → Linked h hd n cs (cs ++ n ∷ []) (linked_before h hd n.at hd)
linked_before-IsList {h} {hd} {cs} n is node out = (
  record {
    head_live = is.head_live;
    head_ne_null = is.head_ne_null;
    head_out = ground (arith, has-append hd cs (n ∷ []), is.head_out);
    distinct = Distinct-insert cs [] n (rw append-nil is.distinct) (rw append-nil (ground arith));
    links =
        Links-extend n is.links (ground (arith, is.head_out)) (ground (arith, is.head_out))
          (ground (arith, is.distinct));
    owned =
        Owned-join _ hd cs (n ∷ []) (Owned-relink h _ hd cs relinked (λ p i. ground arith) is.owned)
          (Node-relink node relinked, ground arith, tt);
    counted = ground (arith, is.counted, length-append cs (n ∷ []));
  },
  (λ p o. ground (arith, last-has is.links)),
  relinked,
)
  where
    relinked : Relinked h (linked_before h hd n.at hd)
    relinked = linked_before-Relinked h hd n.at hd

-- `appendNode` puts a node that is in no list at the end of the list; memory outside the list and
-- the node is as it was.
pub append_node_lem :
    {h : Memory} {hd : Ptr} {cs : Cells} (n : Cell)
    → IsList h hd cs
    → Node h n
    → within hd cs n.at ≡ false
    → Returns
        (λ _ g. IsList g hd (cs ++ n ∷ []) × Frame (within hd (n ∷ cs)) h g × Relinked h g)
        (append_node hd n.at h)
append_node_lem {h} n is node out =
    rw (append_node-linked h n is node (ground arith))
      (returns (linked_before-IsList n is node out))
