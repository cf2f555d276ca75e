-- ===== src/Tests/Fixtures.antt =====
-- Two lists in one memory: their heads at 1 and 2, one node each, at 3 and 4.
use gproxy.Common.{refl, some, [], ◌∷◌, ◌&&◌, arith, ltb, ◌==◌, if◌then◌else◌}
use gproxy.Common.Int.{pos}
use gproxy.PacketList.Heap.{Ptr, Pkt, Memory}
use gproxy.PacketList.Spec.{Cell, nil, cons, Node, IsList}
use gproxy.PacketList.Alloc.{IsSound}
use gproxy.PacketList.Pair.{Apart}

abbrev pub two_lists : (k k' : Pkt) → Memory
two_lists k k' = record {
  live = λ p. ltb 0 p && ltb p 5;
  next = λ p. if p == 1 then 3 else if p == 3 then 1 else if p == 2 then 4 else 2;
  prev = λ p. if p == 1 then 3 else if p == 3 then 1 else if p == 2 then 4 else 2;
  head = λ p. if p == 3 then 1 else 2;
  length = λ p. pos 1;
  pkt_size = λ p. pos 7;
  packet = λ p. if p == 3 then some k else some k';
  fresh = 5;
  limit = 100;
}

abbrev pub cell : Ptr → Pkt → Cell
cell p k = record { at = p; packet = k; size = pos 7 }

pub two_lists-IsSound : (k k' : Pkt) → IsSound (two_lists k k')
two_lists-IsSound k k' = record {
  below = λ p e. ground arith;
  positive = omega arith;
  null_dead = refl;
}

first-Node : (k k' : Pkt) → Node (two_lists k k') (cell 3 k)
first-Node k k' = record { live = refl; ne_null = omega arith; packet = refl; size = refl }

pub second-Node : (k k' : Pkt) → Node (two_lists k k') (cell 4 k')
second-Node k k' = record { live = refl; ne_null = omega arith; packet = refl; size = refl }

pub first-IsList : (k k' : Pkt) → IsList (two_lists k k') 1 (cell 3 k ∷ [])
first-IsList k k' = record {
  head_live = refl;
  head_ne_null = omega arith;
  head_out = refl;
  distinct = (refl, tt);
  links = cons {a = 1} {c = cell 3 k} refl refl (nil {a = 3} refl refl);
  owned = (first-Node k k', refl, tt);
  counted = refl;
}

pub second-IsList : (k k' : Pkt) → IsList (two_lists k k') 2 (cell 4 k' ∷ [])
second-IsList k k' = record {
  head_live = refl;
  head_ne_null = omega arith;
  head_out = refl;
  distinct = (refl, tt);
  links = cons {a = 2} {c = cell 4 k'} refl refl (nil {a = 4} refl refl);
  owned = (second-Node k k', refl, tt);
  counted = refl;
}

pub two_lists-Apart : (k k' : Pkt) → Apart 1 (cell 3 k ∷ []) 2 (cell 4 k' ∷ [])
two_lists-Apart k k' p i = ground arith
