-- ===== src/PacketList/Remove.antt =====
-- `removeNode` takes its node out of the list that it is in.
use gproxy.Common.{◌≡◌, refl, ◌≢◌, true, false, ◌||◌, ◌∷◌, ◌++◌, arith, ◌==◌, length-append}
use gproxy.Common.Int.{decr}
use gproxy.Common.Outcome.{ok}
use gproxy.Common.Outcome.Returns.{Returns, returns}
use gproxy.PacketList.Heap.{Ptr, null, Memory, update}
use gproxy.PacketList.Spec.{
  Cell, Cells, has, Distinct, Links, Node, Owned, IsList, within, Frame, Relinked,
}
use gproxy.PacketList.Links.{has-append, last-has, first-has, Links-cut, Links-bridge, Links-frame}
use gproxy.PacketList.Owned.{Owned-relink, Owned-append, Owned-join, Owned-live, Distinct-drop}
use gproxy.PacketList.{remove_node}

-- the memory after the node is out of its list
abbrev pub unlinked : Memory → (hd p : Ptr) → Memory
unlinked h hd p = record h {
  next = update (update h.next (h.prev p) (h.next p)) p null;
  prev = update (update h.prev (h.next p) (h.prev p)) p null;
  head = update h.head p null;
  length = update h.length hd (decr (h.length hd));
}

unlinked-Relinked : (h : Memory) (hd p : Ptr) → Relinked h (unlinked h hd p)
unlinked-Relinked h hd p = record {
  live = refl;
  packet = refl;
  pkt_size = refl;
  fresh = refl;
  limit = refl;
}

-- A removal at `NULL` changes nothing.
pub remove_node-null : (h : Memory) → remove_node null h ≡ ok null h
unfolding remove_node
remove_node-null h = refl

module _ {h : Memory} {hd : Ptr} (xs : Cells) (c : Cell) (ys : Cells)
    (is : IsList h hd (xs ++ c ∷ ys)) where
  -- What the removal reads about its node and the neighbours.
  record Around : Type 0 where
    node : Node h c
    owner : h.head c.at ≡ hd
    front : Links h.next h.prev c.at hd xs
    back : Links h.next h.prev hd c.at ys
    ne_head : c.at ≢ hd
    out : has c.at (xs ++ ys) ≡ false
    distinct : Distinct (xs ++ ys)
    head_out : has hd (xs ++ ys) ≡ false
    owned : Owned h hd (xs ++ ys)
    before : ((h.prev c.at == hd) || has (h.prev c.at) (xs ++ ys)) ≡ true
    after : ((h.next c.at == hd) || has (h.next c.at) (xs ++ ys)) ≡ true

  around : Around
  around =
      let (front, back) = Links-cut xs c ys is.links in
      let (o, o') = Owned-append h hd xs (c ∷ ys) is.owned in
      let (d, out) = Distinct-drop xs ys c is.distinct in
      record {
        node = o'.0;
        owner = o'.1;
        front = front;
        back = back;
        ne_head = ground (arith, is.head_out, has-append hd xs (c ∷ ys));
        out = out;
        distinct = d;
        head_out = ground (arith, is.head_out, has-append hd xs (c ∷ ys), has-append hd xs ys);
        owned = Owned-join h hd xs ys o o'.2;
        before = ground (arith, last-has front, has-append (h.prev c.at) xs ys);
        after = ground (arith, first-has back, has-append (h.next c.at) xs ys);
      }

  remove_node-unlinked : remove_node c.at h ≡ ok c.at (unlinked h hd c.at)
  unfolding remove_node
  remove_node-unlinked = ground (
    arith,
    around.node,
    around.owner,
    around.ne_head,
    around.out,
    around.before,
    around.after,
    is.head_live,
    is.head_ne_null,
    Owned-live h hd (h.prev c.at) (xs ++ ys) around.owned,
    Owned-live h hd (h.next c.at) (xs ++ ys) around.owned,
  )

  -- `removeNode` of a node of the list returns it, and takes it and no other out of the list; memory
  -- outside the list is as it was.
  pub remove_node_lem :
      Returns
        (λ r g.
          (r ≡ c.at) × IsList g hd (xs ++ ys) × Frame (within hd (xs ++ c ∷ ys)) h g × Relinked h g)
        (remove_node c.at h)
  remove_node_lem = rw remove_node-unlinked (
      returns (
        refl,
        record {
          head_live = is.head_live;
          head_ne_null = is.head_ne_null;
          head_out = around.head_out;
          distinct = around.distinct;
          links =
              Links-frame
                (Links-bridge around.front around.back around.head_out around.head_out
                  around.distinct)
                (λ p i. ground (arith, around.out, around.ne_head))
                (λ p i. ground (arith, around.out, around.ne_head));
          owned =
              Owned-relink h _ hd (xs ++ ys) (unlinked-Relinked h hd c.at)
                (λ p i. ground (arith, around.out)) around.owned;
          counted = ground (arith, is.counted, length-append xs (c ∷ ys), length-append xs ys);
        },
        (λ p o.
            ground
              (arith, around.before, around.after, has-append p xs ys, has-append p xs (c ∷ ys))),
        unlinked-Relinked h hd c.at,
      ))
