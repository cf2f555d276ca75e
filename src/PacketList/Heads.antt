-- ===== src/PacketList/Heads.antt =====
-- `allocHead`: an empty list.
use gproxy.Common.{◌+◌, ◌<◌, ◌≡◌, refl, arith, true, []}
use gproxy.Common.Int.{pos, negsuc}
use gproxy.Common.Outcome.{ok}
use gproxy.Common.Outcome.Returns.{Returns, returns}
use gproxy.PacketList.Heap.{Memory, update}
use gproxy.PacketList.Spec.{IsList, nil}
use gproxy.PacketList.Alloc.{IsSound, New}
use gproxy.PacketList.{alloc_head}

-- the memory after `allocHead`
abbrev with_head : Memory → Memory
with_head h = record h {
  live = update h.live h.fresh true;
  next = update h.next h.fresh h.fresh;
  prev = update h.prev h.fresh h.fresh;
  length = update h.length h.fresh (pos 0);
  pkt_size = update h.pkt_size h.fresh (negsuc 0);
  fresh = h.fresh + 1;
}

alloc_head-with_head : (h : Memory) → h.fresh < h.limit → alloc_head h ≡ ok h.fresh (with_head h)
unfolding alloc_head
alloc_head-with_head h room = ground arith

with_head-New : (h : Memory) → IsSound h → New h (with_head h) h.fresh
with_head-New h s = record {
  sound = record {
    below = λ p e. ground (arith, s.below p);
    positive = omega arith;
    null_dead = ground (arith, s.positive, s.null_dead);
  };
  live = ground arith;
  ne_null = λ e. absurd (ground (arith, s.positive));
  same = λ q ne. ground arith;
}

with_head-IsList : (h : Memory) → IsSound h → IsList (with_head h) h.fresh []
with_head-IsList h s =
    let new = with_head-New h s in
    record {
      head_live = new.live;
      head_ne_null = new.ne_null;
      head_out = refl;
      distinct = tt;
      links = nil (ground arith) (ground arith);
      owned = tt;
      counted = ground arith;
    }

-- While there is memory, `allocHead` gives a new empty list and keeps every other object.
pub alloc_head_lem :
    (h : Memory)
    → IsSound h
    → h.fresh < h.limit
    → Returns
        (λ p g.
          IsList g p [] × New h g p × (p ≡ h.fresh) × (g.fresh ≡ h.fresh + 1) × (g.limit ≡ h.limit))
        (alloc_head h)
alloc_head_lem h s room =
    rw (alloc_head-with_head h room)
      (returns (with_head-IsList h s, with_head-New h s, refl, refl, refl))
