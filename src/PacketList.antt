-- ===== src/PacketList.antt =====
-- src/include/listUtils.c: packets in circular, doubly linked lists with a head node.
pub mod Heap
pub mod Place
pub mod Spec
pub mod Links
pub mod Owned
pub mod Append
pub mod Remove
pub mod Search
pub mod Insert
pub mod Order
pub mod Sorted
pub mod Scan
pub mod Heads
pub mod Alloc
pub mod Purge
pub mod Pair
pub mod ForEach
use gproxy.Common.{
  ℕ, zero, suc, ◌+◌, ◌%◌, ◌^◌, Bool, true, false, not, ◌&&◌, ◌||◌, Option, none, some, List, [],
  leb, ltb, ◌==◌, if◌then◌else◌, take, length,
}
use gproxy.Common.Int.{ℤ, pos, negsuc, incr, decr, nonneg, ltb_ℤ, is_zero, pos_part}
use gproxy.Common.Outcome.{ok, fault, out_of_fuel, Cmd, pure, ◌>>=◌, ◌>>◌, fails, spent, read, when}
use Heap.{
  Ptr, null, Pkt, Memory, load, set_next, set_prev, set_head, set_length, set_pkt_size, set_packet,
  load_packet, malloc, free,
}

abbrev pub payload_size : ℕ
payload_size = 65000

-- What a pointer to bytes leads to: the bytes that are known there, and how many can be read.
pub record Buffer : Type 0 where
  pub bytes : List ℕ
  pub extent : ℕ

-- `memcpy(packet->body, body, size)`: a fault if it runs past the end of the packet's array or of
-- what can be read at the source.
unfoldable pub copy_body : Ptr → Buffer → ℕ → Cmd Memory (Unit {0})
copy_body node body size =
    if leb size payload_size && leb size body.extent
    then (do
      k ← load_packet node
      set_packet node (record k { body = take size body.bytes })
      set_pkt_size node (pos size))
    else fails

-- `body` is `none` for a null pointer. If `malloc` fails, the writes go through that pointer.
unfoldable pub alloc_node : ℕ → ℕ → Option Buffer → ℕ → Cmd Memory Ptr
unfolding copy_body
alloc_node id type body size = do
  to_alloc ← malloc
  set_next to_alloc to_alloc
  set_prev to_alloc to_alloc
  set_length to_alloc (negsuc 0)
  set_pkt_size to_alloc (pos 0)
  set_packet to_alloc (record { id = id % 2 ^ 32; type = type % 256; body = [] })
  elim body [ none ↦ pure tt | some buffer ↦ copy_body to_alloc buffer size ]
  pure to_alloc

unfoldable pub alloc_head : Cmd Memory Ptr
alloc_head = do
  to_alloc ← malloc
  set_next to_alloc to_alloc
  set_prev to_alloc to_alloc
  set_length to_alloc (pos 0)
  set_pkt_size to_alloc (negsuc 0)
  pure to_alloc

unfoldable pub clear_head : Ptr → Cmd Memory (Unit {0})
clear_head head = free head

unfoldable pub append_node : (head new : Ptr) → Cmd Memory (Unit {0})
append_node head new = do
  last ← load Memory.prev head
  set_prev new last
  set_next new head
  before ← load Memory.prev head
  set_next before new
  set_prev head new
  set_head new head
  n ← load Memory.length head
  when (nonneg n) (set_length head (incr n))

-- The writes of `removeNode` to the two neighbours and to the node.
unfoldable pub unlink : Ptr → Cmd Memory (Unit {0})
unlink to_remove = do
  before ← load Memory.prev to_remove
  after ← load Memory.next to_remove
  when (not (before == null)) (set_next before after)
  after ← load Memory.next to_remove
  before ← load Memory.prev to_remove
  when (not (after == null)) (set_prev after before)
  set_prev to_remove null
  set_next to_remove null
  set_head to_remove null

unfoldable pub remove_node : Ptr → Cmd Memory Ptr
unfolding unlink
remove_node to_remove = if to_remove == null then pure null else do
  head ← load Memory.head to_remove
  unlink to_remove
  n ← load Memory.length head
  set_length head (decr n)
  pure to_remove

unfoldable pub clear_node : Ptr → Cmd Memory (Unit {0})
clear_node to_clear = if to_clear == null then pure tt else free to_clear

-- The loops run on fuel and are given the list's length and one round more.
abbrev pub rounds : Ptr → Cmd Memory ℕ
rounds head h = ok (suc (pos_part (h.length head))) h

unfoldable pub search_loop : ℕ → (head iter : Ptr) → ℕ → Cmd Memory Ptr
search_loop zero head iter id = spent
search_loop (suc fuel) head iter id = if iter == head then pure null else do
  k ← load_packet iter
  if k.id == id then pure iter else (do next ← load Memory.next iter; search_loop fuel head next id)

unfoldable pub search_node_by_id : Ptr → ℕ → Cmd Memory Ptr
search_node_by_id head id = do
  first ← load Memory.next head
  fuel ← rounds head
  search_loop fuel head first (id % 2 ^ 32)

-- Where the loop of `insertNodeById` ends, and whether it has met the id.
unfoldable pub position_loop : ℕ → (head iter new : Ptr) → Cmd Memory (Ptr × Bool)
position_loop zero head iter new = spent
position_loop (suc fuel) head iter new = if iter == head then pure (iter, false) else do
  k ← load_packet iter
  n ← load_packet new
  if k.id == n.id
      then pure (iter, true)
      else if ltb n.id k.id
      then pure (iter, false)
      else (do next ← load Memory.next iter; position_loop fuel head next new)

-- The writes of `insertNodeById` at the position that its loop has found.
unfoldable pub link_before : (head new iter : Ptr) → Cmd Memory (Unit {0})
link_before head new iter = do
  set_next new iter
  before ← load Memory.prev iter
  set_prev new before
  before ← load Memory.prev iter
  set_next before new
  set_prev iter new
  set_head new head
  n ← load Memory.length head
  set_length head (incr n)

unfoldable pub insert_node_by_id : (head new : Ptr) → Cmd Memory Bool
insert_node_by_id head new = do
  first ← load Memory.next head
  fuel ← rounds head
  (iter, present) ← position_loop fuel head first new
  if present then pure false else (do link_before head new iter; pure true)

unfoldable pub remove_node_by_id : Ptr → ℕ → Cmd Memory Ptr
remove_node_by_id head id = do
  temp ← search_node_by_id head id
  removed ← remove_node temp
  pure temp

-- `forEach`. The callback runs on a state that the memory is a part of. The successor is read
-- before the call, which may take the node out of the list.
module _ {S : Type 0} (memory : S → Memory) where
  abbrev pub peek_next : Ptr → Cmd S Ptr
  peek_next p s = if (memory s).live p then ok ((memory s).next p) s else fault

  unfoldable pub for_each_loop :
      ℕ
      → (head iter : Ptr) → (Ptr → Cmd S (Unit {0}))
      → (scans : ℕ) → (max_scans : ℤ) → Cmd S (Unit {0})
  for_each_loop zero head iter callback scans max_scans = spent
  for_each_loop (suc fuel) head iter callback scans max_scans =
      if (iter == head) || (not (is_zero max_scans) && not (ltb_ℤ (pos scans) max_scans))
      then pure tt
      else (do
        next ← peek_next iter
        callback iter
        for_each_loop fuel head next callback (scans + 1) max_scans)

  unfoldable pub for_each : Ptr → (Ptr → Cmd S (Unit {0})) → ℤ → Cmd S (Unit {0})
  unfolding for_each_loop
  for_each head callback max_scans = do
    first ← peek_next head
    fuel ← read (λ s. suc (pos_part ((memory s).length head)))
    for_each_loop fuel head first callback 0 max_scans
