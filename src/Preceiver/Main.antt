-- ===== src/Preceiver/Main.antt =====
-- src/preceiver.c: one round of the main loop, and any number of rounds.
use gproxy.Common.{
  ℕ, zero, suc, Bool, true, ◌&&◌, Option, List, [], ◌∷◌, length, ltb, if◌then◌else◌,
}
use gproxy.Common.Int.{pos_part, is_zero}
use gproxy.Common.Outcome.{ok, halt, fault, starve, Cmd, pure, ◌>>=◌, ◌>>◌, read, modify, when}
use gproxy.Wire.{ip_addr_strlen}
use gproxy.Wire.Decimal.{atoi}
use gproxy.Preceiver.Init.{Setup, init}
use gproxy.PacketList.{for_each}
use gproxy.PacketList.Heap.{Memory, load}
use gproxy.Preceiver.{
  Preceiver, SelectAnswer, ready, timeout, on_memory, print_error, terminate, send_to_receiver,
  ack_packet, receive_from_psender,
}

-- `for (counter = 0; counter < maxPackets; counter++) receiveFromPsender();`
unfoldable pub receive_loop : ℕ → Cmd Preceiver (Unit {0})
receive_loop zero = pure tt
receive_loop (suc rounds) = do receive_from_psender; receive_loop rounds

unfoldable pub wait_select : Cmd Preceiver SelectAnswer
wait_select s = elim s.selects [
  | [] ↦ starve s
  | answer ∷ rest ↦ ok answer (record s { selects = rest })
]

unfoldable pub on_select : SelectAnswer → Cmd Preceiver (Unit {0})
on_select SelectAnswer.failed = print_error
on_select SelectAnswer.interrupted = pure tt
on_select timeout = modify (λ s. record s { timed_out = true })
on_select ready = do
  modify (λ s. record s { started = true })
  watched ← read (λ s. s.can_read s.ritardatore)
  rounds ← read (λ s. pos_part s.max_packets)
  when watched (receive_loop rounds)

-- `finalize && toSend->length == 0 && toAck->length == 0`
unfoldable pub finished : Cmd Preceiver Bool
finished = do
  done ← read Preceiver.finalize
  to_send ← read Preceiver.to_send
  to_ack ← read Preceiver.to_ack
  n ← on_memory (load Memory.length to_send)
  m ← on_memory (load Memory.length to_ack)
  pure (done && is_zero n && is_zero m)

unfoldable pub main_round : Cmd Preceiver (Unit {0})
main_round = do
  over ← finished
  when over terminate
  to_send ← read Preceiver.to_send
  to_ack ← read Preceiver.to_ack
  max_packets ← read Preceiver.max_packets
  for_each Preceiver.memory to_send send_to_receiver max_packets
  for_each Preceiver.memory to_ack ack_packet max_packets
  answer ← wait_select
  on_select answer

-- `while (TRUE)`, observed for a number of rounds.
unfoldable pub main_loop : ℕ → Cmd Preceiver (Unit {0})
main_loop zero = pure tt
main_loop (suc rounds) = main_round >> main_loop rounds

-- `strcpy(toRitAddress, argv[1])`: a text that does not fit with its NUL is written past the array.
unfoldable pub copy_address : (List ℕ → Option ℕ) → List ℕ → Cmd Preceiver (Unit {0})
copy_address inet_aton text s =
    if ltb (length text) ip_addr_strlen
    then ok tt (record s { to_rit_address = inet_aton text })
    else fault

-- The process: its arguments, their texts without the NULs, and its calls of the system. `malloc`'s
-- error test cannot be met, since an array's address is no error.
unfoldable pub main :
    (List ℕ → Option ℕ) → Setup → (argv : List (List ℕ)) → (rounds : ℕ) → Cmd Preceiver (Unit {0})
unfolding copy_address init main_loop
main inet_aton calls (name ∷ address ∷ window ∷ more) rounds = do
  copy_address inet_aton address
  modify (λ s. record s { max_packets = atoi window })
  init calls
  main_loop rounds
main inet_aton calls argv rounds = λ s. halt 1 s
