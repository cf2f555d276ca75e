-- ===== src/Psender/Init.antt =====
-- `init` of src/include/psenderUtils.c.
use gproxy.Common.{
  ℕ, ap, ◌%◌, ◌<◌, ◌≡◌, ◌≢◌, refl, Bool, true, false, Option, [], ◌==◌, ◌||◌, if◌then◌else◌, ltb,
  arith,
}
use gproxy.Common.Outcome.{Cmd, ◌>>=◌, ◌>>◌, read, modify, when}
use gproxy.Common.Outcome.Returns
use gproxy.Common.Outcome.Returns.{Returns, returns}
use gproxy.Common.Outcome.Exits.{
  ReturnsOrExits, returned, require, or_exit, require_lem, or_exit_lem,
}
use gproxy.Wire.{Address, get_socket_address}
use gproxy.PacketList.{alloc_head}
use gproxy.PacketList.Heads.{alloc_head_lem}
use gproxy.PacketList.Spec.{Grown}
use gproxy.PacketList.Alloc.{IsSound}
use gproxy.Psender.{Psender, on_memory, rit_port, print_error}
use gproxy.Psender.Receive.{Holds}

-- What the calls of `init` answer: the descriptors of the two sockets and of the connection,
-- `none` for an error, the address 0.0.0.0 as `inet_aton` reads it, and whether `bind` and
-- `listen` succeed.
pub record Setup : Type 0 where
  pub datagram_socket : Option ℕ
  pub stream_socket : Option ℕ
  pub any_address : Option ℕ
  pub bind : ℕ → Address → Bool
  pub listen : ℕ → Bool
  pub accept : ℕ → Option ℕ

unfoldable pub init : Setup → Cmd Psender (Unit {0})
init calls = do
  modify (λ s. record s { to_rit_port = rit_port s.channel })
  head ← on_memory alloc_head
  modify (λ s. record s { to_send = head })
  ritardatore ← or_exit 1 calls.datagram_socket
  modify (λ s. record s { ritardatore = ritardatore })
  sender ← or_exit 1 calls.stream_socket
  modify (λ s. record s { sender = sender })
  (source, shared_error) ← read (λ s. get_socket_address calls.any_address 59000)
  when shared_error print_error
  (from_rit, shared_error) ← read (λ s. get_socket_address calls.any_address 60000)
  when shared_error print_error
  (to_rit, shared_error) ← read (λ s. get_socket_address s.to_rit_address s.to_rit_port)
  modify (λ s. record s { to_rit = to_rit })
  when shared_error print_error
  require 1 (calls.bind ritardatore from_rit)
  require 1 (calls.bind sender source)
  require 1 (calls.listen sender)
  connected ← or_exit 1 (calls.accept sender)
  modify λ s. record s {
    connected_sender = connected;
    can_read = λ fd. (fd == connected) || (fd == ritardatore);
    max_fd = if ltb connected ritardatore then ritardatore else connected;
  }

-- The psender's state when `init` has returned.
pub record Ready (s t : Psender) : Type 0 where
  pub empty : Holds t []
  pub port : t.to_rit_port ≡ rit_port s.channel
  pub address : t.to_rit ≡ record { host = s.to_rit_address; port = rit_port s.channel }
  pub reads_sender : t.can_read t.connected_sender ≡ true
  pub reads_ritardatore : t.can_read t.ritardatore ≡ true
  pub no_other : (fd : ℕ) → fd ≢ t.connected_sender → fd ≢ t.ritardatore → t.can_read fd ≡ false
  pub kept :
      (t.current_id ≡ s.current_id)
      × (t.finalize ≡ s.finalize)
      × (t.ending_read ≡ s.ending_read)
      × (t.tcp ≡ s.tcp)
      × (t.sent ≡ s.sent)
      × (t.behind_ending ≡ s.behind_ending)
  pub grown : Grown s.memory t.memory

rit_port-word : (channel : ℕ) → rit_port channel % 65536 ≡ rit_port channel
rit_port-word channel = ground arith

-- While there is memory, `init` either exits with 1, with nothing sent, or leaves an empty list, the address of the
-- current channel, and the two sockets, and no others, in the set that `select` watches.
pub init-Ready :
    (s : Psender) (calls : Setup)
    → IsSound s.memory
    → s.memory.fresh < s.memory.limit
    → ReturnsOrExits 1 (λ _. Ready s) (λ t. t.sent ≡ s.sent) (init calls s)
unfolding init get_socket_address
init-Ready s calls sound room =
    let (p, g, runs, facts) = Returns.result (alloc_head_lem s.memory sound room) in
    rw runs (
      or_exit_lem _ refl calls.datagram_socket _ λ ritardatore _.
        or_exit_lem _ refl calls.stream_socket _ λ sender _.
          require_lem _ refl (calls.bind ritardatore _) _ λ _.
            require_lem _ refl (calls.bind sender _) _ λ _.
              require_lem _ refl (calls.listen sender) _ λ _.
                or_exit_lem _ refl (calls.accept sender) _ λ connected _. returned (
                  returns (record {
                    empty = record { sound = facts.1.sound; list = facts.0 };
                    port = refl;
                    address =
                        ap (λ n. record { host = s.to_rit_address; port = n })
                          (rit_port-word s.channel);
                    reads_sender = ground arith;
                    reads_ritardatore = ground arith;
                    no_other = λ fd a b. ground arith;
                    kept = (refl, refl, refl, refl, refl, refl);
                    grown = (facts.3, facts.4);
                  })))
