-- ===== src/Preceiver/Init.antt =====
-- `init` of src/include/preceiverUtils.c.
use gproxy.Common.{
  ℕ, ◌+◌, ◌<◌, ◌≡◌, ◌∙◌, ◌≢◌, refl, Bool, true, false, Option, [], List, ◌==◌, arith,
}
use gproxy.Common.Outcome.{Cmd, ◌>>=◌, ◌>>◌, read, modify, when}
use gproxy.Common.Outcome.Returns
use gproxy.Common.Outcome.Returns.{Returns, returns}
use gproxy.Common.Outcome.Exits.{
  ReturnsOrExits, returned, require, or_exit, require_lem, or_exit_lem,
}
use gproxy.Wire.{Address, get_socket_address}
use gproxy.Source.{delivered}
use gproxy.PacketList.{alloc_head}
use gproxy.PacketList.Heads.{alloc_head_lem}
use gproxy.PacketList.Alloc.{IsSound, New-IsList, fresh-out}
use gproxy.Preceiver.{Preceiver, on_memory, rit_port, print_error}
use gproxy.Preceiver.Stream.{Inv}

-- What the calls of `init` answer: the descriptors of the two sockets, `none` for an error, the
-- two addresses as `inet_aton` reads them, and whether `connect` succeeds. The result of `bind` is
-- not looked at.
pub record Setup : Type 0 where
  pub datagram_socket : Option ℕ
  pub stream_socket : Option ℕ
  pub local_address : Option ℕ
  pub any_address : Option ℕ
  pub connect : ℕ → Address → Bool

unfoldable pub init : Setup → Cmd Preceiver (Unit {0})
init calls = do
  modify (λ s. record s { to_rit_port = rit_port 0 })
  to_send ← on_memory alloc_head
  modify (λ s. record s { to_send = to_send })
  to_ack ← on_memory alloc_head
  modify (λ s. record s { to_ack = to_ack })
  ritardatore ← or_exit 1 calls.datagram_socket
  modify (λ s. record s { ritardatore = ritardatore })
  receiver ← or_exit 1 calls.stream_socket
  modify (λ s. record s { receiver = receiver })
  (dest, shared_error) ← read (λ s. get_socket_address calls.local_address 64000)
  when shared_error print_error
  (from_rit, shared_error) ← read (λ s. get_socket_address calls.any_address 63000)
  when shared_error print_error
  (to_rit, shared_error) ← read (λ s. get_socket_address s.to_rit_address s.to_rit_port)
  modify (λ s. record s { to_rit = to_rit })
  when shared_error print_error
  require 1 (calls.connect receiver dest)
  modify (λ s. record s { can_read = λ fd. fd == ritardatore })

-- The preceiver's state when `init` has returned.
pub record Ready (source : ℕ → List ℕ) (s t : Preceiver) : Type 0 where
  pub empty : Inv source t [] []
  pub address : t.to_rit ≡ record { host = s.to_rit_address; port = 62000 }
  pub reads_ritardatore : t.can_read t.ritardatore ≡ true
  pub no_other : (fd : ℕ) → fd ≢ t.ritardatore → t.can_read fd ≡ false
  pub kept : (t.udp ≡ s.udp) × (t.tcp ≡ s.tcp) × (t.max_packets ≡ s.max_packets)
  pub grown : (t.memory.fresh ≡ s.memory.fresh + 2) × (t.memory.limit ≡ s.memory.limit)

-- With the globals as the file sets them and memory for two heads, `init` either exits with 1, with nothing delivered, or
-- leaves two empty lists, the invariant of the delivery with nothing delivered, the address of the
-- first channel, and the ritardatore's socket alone in the set that `select` watches.
pub init-Inv :
    (source : ℕ → List ℕ) (s : Preceiver) (calls : Setup)
    → IsSound s.memory
    → s.memory.fresh + 1 < s.memory.limit
    → s.last_sent_id ≡ 1
    → s.stream ≡ []
    → ReturnsOrExits 1 (λ _. Ready source s) (λ t. t.stream ≡ s.stream) (init calls s)
unfolding init get_socket_address delivered
init-Inv source s calls sound room first none_yet =
    let (p, g, runs, facts) = Returns.result (alloc_head_lem s.memory sound (omega arith)) in
    let (q, k, runs', facts') =
      Returns.result (alloc_head_lem g facts.1.sound (omega (arith, facts.3, facts.4))) in
    rw (runs, runs')
      (or_exit_lem _ refl calls.datagram_socket _ λ ritardatore _.
        or_exit_lem _ refl calls.stream_socket _ λ receiver _.
          require_lem _ refl (calls.connect receiver _) _ λ _. returned (
            returns (record {
              empty = record {
                sound = facts'.1.sound;
                sending =
                    New-IsList facts'.1 (ground (arith, facts'.2, fresh-out facts.1.sound facts.0))
                      facts.0;
                acking = facts'.0;
                apart = λ a i. ground (arith, facts.2, facts'.2, facts.3);
                ascending = tt;
                waiting = tt;
                sourced = tt;
                count = 0;
                next = first;
                stream = none_yet;
              };
              address = refl;
              reads_ritardatore = ground arith;
              no_other = λ fd a. ground arith;
              kept = (refl, refl, refl);
              grown = (omega (arith, facts.3, facts'.3), facts'.4 ∙ facts.4);
            })))
