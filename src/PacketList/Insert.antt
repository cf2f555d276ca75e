-- ===== src/PacketList/Insert.antt =====
-- `insertNodeById` keeps the list in the order of the ids, without duplicates.
use gproxy.Common.{
  suc, ◌≡◌, refl, ◌≢◌, true, false, not, ◌||◌, [], ◌∷◌, ◌++◌, arith, ◌==◌, length, length-append,
}
use mathlib.Core.List.{append_assoc}
use gproxy.Common.Outcome.{ok}
use gproxy.Common.Outcome.Returns
use mathlib.Core.Path.{subst}
use gproxy.Common.Outcome.Returns.{Returns, returns}
use gproxy.PacketList.Heap.{Ptr, Memory}
use gproxy.PacketList.Spec.{
  Cell, Cells, has, Distinct, Links, Node, Owned, IsList, within, Frame, Relinked,
}
use gproxy.PacketList.Links.{has-append, last-has, Links-cut, Links-extend, Links-frame, Links-join}
use gproxy.PacketList.Owned.{
  Owned-live, Owned-append, Owned-join, Owned-relink, Node-relink, prev-live, Distinct-insert,
  Distinct-append, Distinct-apart, Distinct-drop, Relinked-refl, Same-refl,
}
use gproxy.PacketList.Append.{Linked, linked_before-IsList, linked_before, linked_before-Relinked}
use gproxy.PacketList.{position_loop, link_before, insert_node_by_id}
use gproxy.PacketList.Place.{
  known, last, before, meets, insert, position, position_loop-position, Place, place,
}

link_before-linked :
    (h : Memory) (hd q : Ptr) (n : Cell)
    → Node h n
    → h.live hd ≡ true
    → h.live q ≡ true
    → h.live (h.prev q) ≡ true
    → hd ≢ n.at
    → q ≢ n.at
    → link_before hd n.at q h ≡ ok tt (linked_before h hd n.at q)
unfolding link_before
link_before-linked h hd q n node live live' live'' ne ne' = ground arith

-- Before the node of `c`.
module _ {h : Memory} {hd : Ptr} (n : Cell) (xs : Cells) (c : Cell) (ys : Cells)
    (is : IsList h hd (xs ++ c ∷ ys)) (node : Node h n)
    (out : within hd (xs ++ c ∷ ys) n.at ≡ false) where
  -- What the insertion reads about the two neighbours.
  record Gap : Type 0 where
    front : Links h.next h.prev c.at hd xs
    back : Links h.next h.prev hd c.at ys
    before : ((h.prev c.at == hd) || has (h.prev c.at) xs) ≡ true
    head_out : ((hd == c.at) || has hd xs || has hd ys) ≡ false
    target_out : (has c.at xs || has c.at ys) ≡ false
    new_out : ((n.at == c.at) || (n.at == hd) || has n.at xs || has n.at ys) ≡ false
    front_distinct : Distinct xs
    apart : (p : Ptr) → has p xs ≡ true → has p ys ≡ false

  gap : Gap
  gap =
      let (front, back) = Links-cut xs c ys is.links in
      let (d, target) = Distinct-drop xs ys c is.distinct in
      record {
        front = front;
        back = back;
        before = last-has front;
        head_out = ground (arith, is.head_out, has-append hd xs (c ∷ ys));
        target_out = ground (arith, target, has-append c.at xs ys);
        new_out = ground (arith, has-append n.at xs (c ∷ ys));
        front_distinct = (Distinct-append xs ys d).0;
        apart = λ p i. Distinct-apart xs ys d p i;
      }

  link_before_lem : Linked h hd n (xs ++ c ∷ ys) (xs ++ n ∷ c ∷ ys) (linked_before h hd n.at c.at)
  link_before_lem = (
    record {
      head_live = is.head_live;
      head_ne_null = is.head_ne_null;
      head_out = ground (arith, has-append hd xs (n ∷ c ∷ ys), gap.head_out, gap.new_out);
      distinct = Distinct-insert xs (c ∷ ys) n is.distinct (ground arith);
      links = rw (← append_assoc xs (n ∷ []) (c ∷ ys)) (
          Links-join c refl
            (Links-extend n gap.front (ground (arith, gap.head_out, gap.new_out))
              (ground (arith, gap.target_out, gap.new_out))
              (ground (arith, gap.front_distinct, gap.new_out)))
            (Links-frame gap.back
              (λ p i.
                ground (arith, gap.before, gap.head_out, gap.target_out, gap.new_out, gap.apart p))
              (λ p i. ground (arith, gap.head_out, gap.target_out, gap.new_out))));
      owned =
          Owned-join _ hd xs (n ∷ c ∷ ys)
            (Owned-relink h _ hd xs relinked (λ p i. ground (arith, gap.new_out)) parts.0)
            (
              Node-relink node relinked,
              ground arith,
              Owned-relink h _ hd (c ∷ ys) relinked (λ p i. ground (arith, gap.new_out)) parts.1,
            );
      counted =
          ground (arith, is.counted, length-append xs (c ∷ ys), length-append xs (n ∷ c ∷ ys));
    },
    (λ p o. ground (arith, gap.before, has-append p xs (c ∷ ys))),
    relinked,
  )
    where
      relinked : Relinked h (linked_before h hd n.at c.at)
      relinked = linked_before-Relinked h hd n.at c.at

      parts : Owned h hd xs × Owned h hd (c ∷ ys)
      parts = Owned-append h hd xs (c ∷ ys) is.owned

  before-live : (h.live c.at ≡ true) × (h.live (h.prev c.at) ≡ true)
  before-live =
      let (o, o') = Owned-append h hd xs (c ∷ ys) is.owned in
      (o'.0.live, ground (arith, gap.before, is.head_live, Owned-live h hd (h.prev c.at) xs o))

  link_between :
      Returns (λ _. Linked h hd n (xs ++ c ∷ ys) (xs ++ n ∷ c ∷ ys)) (link_before hd n.at c.at h)
  link_between =
      rw
        (link_before-linked h hd c.at n node is.head_live before-live.0 before-live.1
          (ground (arith, gap.new_out)) (ground (arith, gap.new_out)))
        (returns link_before_lem)

walk :
    {h : Memory} {hd : Ptr} {cs : Cells} (n : Cell)
    → IsList h hd cs
    → Node h n
    → position_loop (suc (length cs)) hd (h.next hd) n.at h
      ≡ ok (position hd n.packet.id cs, meets n.packet.id cs) h
walk {h} {hd} {cs} n is node =
    position_loop-position h hd (suc (length cs)) n node is.links is.head_out is.owned (omega arith)

Place-insert :
    {h : Memory} {hd : Ptr} {cs : Cells} (n : Cell)
    → IsList h hd cs
    → Node h n
    → within hd cs n.at ≡ false
    → Place hd n cs
    → Returns
        (λ done g. (done ≡ not (meets n.packet.id cs)) × Linked h hd n cs (insert n cs) g)
        (insert_node_by_id hd n.at h)
unfolding insert_node_by_id
Place-insert {h} {hd} {cs} n is node out (known m i) =
    rw (is.head_live, is.counted, walk n is node, m)
      (returns (refl, (rw i is, (λ p o. Same-refl h p), Relinked-refl h)))
Place-insert {h} {hd} {cs} n is node out (last m p i) =
    rw
      (
        is.head_live,
        is.counted,
        walk n is node,
        m,
        p,
        i,
        link_before-linked h hd hd n node is.head_live is.head_live (prev-live is).0 (ground arith)
            (ground arith),
      )
      (returns (refl, linked_before-IsList n is node out))
Place-insert {h} {hd} {cs} n is node out (before xs c ys s m p i) =
    rw (is.head_live, is.counted, walk n is node, m, p, i, s)
      (Returns.bind
        (link_between n xs c ys (subst (IsList h hd) s is) node
          (subst (λ l. within hd l n.at ≡ false) s out))
        λ _ g linked. returns (refl, linked))

-- `insertNodeById` puts a node that is in no list at its place, and says so; if the walk meets its
-- id, it returns `FALSE` and the list stays as it is. Memory outside the list and the node is as
-- it was.
pub insert_node_by_id_lem :
    {h : Memory} {hd : Ptr} {cs : Cells} (n : Cell)
    → IsList h hd cs
    → Node h n
    → within hd cs n.at ≡ false
    → Returns
        (λ done g.
          (done ≡ not (meets n.packet.id cs))
          × IsList g hd (insert n cs)
          × Frame (within hd (n ∷ cs)) h g
          × Relinked h g)
        (insert_node_by_id hd n.at h)
insert_node_by_id_lem {h} {hd} {cs} n is node out =
    Returns.mono (Place-insert n is node out (place hd n cs))
      λ done g (said, linked). (said, linked.0, linked.1, linked.2)
