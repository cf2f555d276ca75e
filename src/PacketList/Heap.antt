-- ===== src/PacketList/Heap.antt =====
-- The memory of src/include/listUtils.c: `struct Node` and `struct Pkt` at addresses. A map for each
-- field; the packet of a node is a field of it, since every node owns the packet it points to.
use gproxy.Common.{ℕ, ◌+◌, Bool, true, false, Option, none, some, List, ltb, ◌==◌, if◌then◌else◌}
use gproxy.Common.Int.{ℤ}
use gproxy.Common.Outcome.{ok, fault, Cmd}

abbrev pub Ptr : Type 0
Ptr = ℕ

abbrev pub null : Ptr
null = 0

-- `body` holds the bytes that were written to the array, from its start.
pub record Pkt : Type 0 where
  pub id : ℕ  -- unsigned int
  pub type : ℕ  -- unsigned char
  pub body : List ℕ

-- `fresh` is the next unused address, and from `limit` on `malloc` returns `NULL`.
pub record Memory : Type 0 where
  pub live : Ptr → Bool
  pub next : Ptr → Ptr
  pub prev : Ptr → Ptr
  pub head : Ptr → Ptr
  pub length : Ptr → ℤ
  pub pkt_size : Ptr → ℤ
  pub packet : Ptr → Option Pkt  -- `none` in heads, where the code leaves it unset
  pub fresh : Ptr
  pub limit : Ptr

abbrev pub update : {A : Type 0} → (Ptr → A) → Ptr → A → Ptr → A
update f p a q = if q == p then a else f q

-- `*p` for a field
abbrev pub load : {A : Type 0} → (Memory → Ptr → A) → Ptr → Cmd Memory A
load field p h = if h.live p then ok (field h p) h else fault

-- a write to `*p`
abbrev pub store : (Memory → Memory) → Ptr → Cmd Memory (Unit {0})
store write p h = if h.live p then ok tt (write h) else fault

abbrev pub set_next : Ptr → Ptr → Cmd Memory (Unit {0})
set_next p q = store (λ h. record h { next = update h.next p q }) p

abbrev pub set_prev : Ptr → Ptr → Cmd Memory (Unit {0})
set_prev p q = store (λ h. record h { prev = update h.prev p q }) p

abbrev pub set_head : Ptr → Ptr → Cmd Memory (Unit {0})
set_head p q = store (λ h. record h { head = update h.head p q }) p

abbrev pub set_length : Ptr → ℤ → Cmd Memory (Unit {0})
set_length p n = store (λ h. record h { length = update h.length p n }) p

abbrev pub set_pkt_size : Ptr → ℤ → Cmd Memory (Unit {0})
set_pkt_size p n = store (λ h. record h { pkt_size = update h.pkt_size p n }) p

abbrev pub set_packet : Ptr → Pkt → Cmd Memory (Unit {0})
set_packet p k = store (λ h. record h { packet = update h.packet p (some k) }) p

-- `p->packet->…`
abbrev pub packet_or_fault : Option Pkt → Cmd Memory Pkt
packet_or_fault none h = fault
packet_or_fault (some k) h = ok k h

abbrev pub load_packet : Ptr → Cmd Memory Pkt
load_packet p h = if h.live p then packet_or_fault (h.packet p) h else fault

-- The object is live from here on, its fields unset: they keep what the maps held.
abbrev pub malloc : Cmd Memory Ptr
malloc h =
    if ltb h.fresh h.limit
    then ok h.fresh (record h { live = update h.live h.fresh true; fresh = h.fresh + 1 })
    else ok null h

abbrev pub free : Ptr → Cmd Memory (Unit {0})
free p = store (λ h. record h { live = update h.live p false }) p
