-- ===== src/Psender/Main.antt =====
-- src/psender.c: one round of the main loop, and any number of rounds.
use gproxy.Common.{
  ℕ, zero, suc, ◌+◌, true, false, not, ◌&&◌, Option, List, [], ◌∷◌, ◌==◌, length, ltb,
  if◌then◌else◌,
}
use gproxy.Common.Int.{ℤ, pos, pos_part, ltb_ℤ}
use gproxy.Common.Outcome.{
  ok, halt, fault, starve, Cmd, pure, ◌>>=◌, ◌>>◌, spent, read, modify, when,
}
use gproxy.Wire.{ip_addr_strlen}
use gproxy.Wire.Decimal.{atoi}
use gproxy.Psender.Init.{Setup, init}
use gproxy.PacketList.{for_each}
use gproxy.PacketList.Heap.{Memory, load}
use gproxy.Psender.{
  Psender, SelectAnswer, ready, timeout, on_memory, print_error, terminate, receive_from_sender,
  check_ritardatore, send_packet,
}

abbrev pub queue_length : Cmd Psender ℤ
queue_length = do head ← read Psender.to_send; on_memory (load Memory.length head)

-- `while (toSend->length < maxPackets && !endingRead) receiveFromSender();`
unfoldable pub fill_loop : ℕ → Cmd Psender (Unit {0})
fill_loop zero = spent
fill_loop (suc fuel) = do
  n ← queue_length
  go_on ← read (λ s. ltb_ℤ n s.max_packets && not s.ending_read)
  elim go_on [ true ↦ receive_from_sender >> fill_loop fuel | false ↦ pure tt ]

-- Every round of the loop takes an answer from the script or waits for ever.
abbrev pub fill : Cmd Psender (Unit {0})
fill s = fill_loop (length s.tcp + 2) s

-- `for (counter = 0; counter < maxPackets; counter++) checkRitardatore();`
unfoldable pub ack_loop : ℕ → Cmd Psender (Unit {0})
ack_loop zero = pure tt
ack_loop (suc rounds) = do check_ritardatore; ack_loop rounds

-- `select` on a copy of the watched descriptors.
unfoldable pub wait_select : Cmd Psender SelectAnswer
wait_select s = elim s.selects [
  | [] ↦ starve s
  | answer ∷ rest ↦ ok answer (record s { selects = rest })
]

-- All sent and acked, and the end as well.
unfoldable pub end_if_done : Cmd Psender (Unit {0})
end_if_done = do
  n ← queue_length
  done ← read Psender.finalize
  when (elim n [ pos k ↦ (k == 0) && done | _ ↦ false ]) terminate

unfoldable pub on_select : SelectAnswer → Cmd Psender (Unit {0})
unfolding fill_loop ack_loop end_if_done
on_select SelectAnswer.failed = print_error
on_select timeout = terminate
on_select (ready from_sender from_ritardatore) = do
  watched ← read (λ s. s.can_read s.connected_sender)
  when (watched && from_sender) fill
  watched ← read (λ s. s.can_read s.ritardatore)
  rounds ← read (λ s. pos_part s.max_packets)
  when (watched && from_ritardatore) (ack_loop rounds)
  end_if_done

unfoldable pub main_round : Cmd Psender (Unit {0})
unfolding wait_select on_select
main_round = do
  head ← read Psender.to_send
  max_packets ← read Psender.max_packets
  for_each Psender.memory head send_packet max_packets
  answer ← wait_select
  on_select answer

-- `while (TRUE)`, observed for a number of rounds.
unfoldable pub main_loop : ℕ → Cmd Psender (Unit {0})
unfolding main_round
main_loop zero = pure tt
main_loop (suc rounds) = main_round >> main_loop rounds

-- `strcpy(toRitAddress, argv[1])`: a text that does not fit with its NUL is written past the array.
unfoldable pub copy_address : (List ℕ → Option ℕ) → List ℕ → Cmd Psender (Unit {0})
copy_address inet_aton text s =
    if ltb (length text) ip_addr_strlen
    then ok tt (record s { to_rit_address = inet_aton text })
    else fault

-- The process: its arguments, their texts without the NULs, and its calls of the system. `malloc`'s
-- error test cannot be met, since an array's address is no error.
unfoldable pub main :
    (List ℕ → Option ℕ) → Setup → (argv : List (List ℕ)) → (rounds : ℕ) → Cmd Psender (Unit {0})
unfolding copy_address init main_loop
main inet_aton calls (name ∷ address ∷ window ∷ more) rounds = do
  copy_address inet_aton address
  modify (λ s. record s { max_packets = atoi window })
  init calls
  main_loop rounds
main inet_aton calls argv rounds = λ s. halt 1 s
