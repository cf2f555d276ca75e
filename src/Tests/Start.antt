-- ===== src/Tests/Start.antt =====
-- The set-up of sockets, and the network emulator's start and end.
use gproxy.Common.{ℕ, ◌+◌, ◌≡◌, refl, true, false, some, List, drop, if◌then◌else◌, [], ◌∷◌, arith}
use gproxy.Common.Int.{pos}
use gproxy.Common.Outcome.{ok}
use gproxy.Common.Outcome.Ends.{Ends}
use gproxy.Ritardatore.Traffic.{tipo_is_body}
use gproxy.Ritardatore.{Ritardatore, signalled, check_port, put}
use gproxy.Ritardatore.Util.Sockets.{
  Sockets, done, interrupted, set_no_blocking, set_blocking, is_blocking, has_nonblock,
}
use gproxy.Ritardatore.Util.Sockets.Blocking.{set_blocking-set_no_blocking}
use gproxy.Ritardatore.Util.Sockets.Setup.{udp_setup_socket_bound}
use gproxy.Ritardatore.Util.Sockets.Answers.{Opened}
use gproxy.Ritardatore.Util.Sockets.Opened.{RefusedCall, RefusedSize, udp_setup_socket_bound-Opened}
use gproxy.Ritardatore.Util.Sockets.Calls.{Went}
use gproxy.Ritardatore.Start.Loop.{Sistema, main, select_loop}
use gproxy.Ritardatore.Start.Segnali.{ignored, select_loop-signalled}
use gproxy.Common.Outcome.Run.{Run}
use gproxy.Ritardatore.{pronti}
use gproxy.Ritardatore.Passage.Main.{Relayed, main-Relayed}
use gproxy.Tests.Network.{net, sockets, body}

-- the kernel doubles a buffer's size
abbrev granted : ℕ → ℕ
granted n = n + n

blocking_example :
    (t : Sockets) × (u : Sockets) × (set_no_blocking 4 sockets ≡ ok true t)
    × (is_blocking 4 t ≡ ok (some 0) t)
    × (set_blocking 4 t ≡ ok true u)
    × (is_blocking 4 u ≡ ok (some 1) u)
    × (has_nonblock (sockets.flags 4) ≡ false → u ≡ record sockets { calls = [] })
blocking_example = set_blocking-set_no_blocking 4 sockets refl

udp_example :
    Ends
      (Opened 3
        (record sockets {
          next_fd = 4;
          reuse_addr = put sockets.reuse_addr 3 1;
          snd_buf = put sockets.snd_buf 3 131070;
          rcv_buf = put sockets.rcv_buf 3 131070;
          bound = put sockets.bound 3 (some 61000);
        })
        (λ t. Went 7 sockets.calls t.calls)
        (λ t. (t.bound ≡ sockets.bound) × RefusedCall 4 sockets.calls))
      (λ code t. (code ≡ 5) × (t.bound ≡ sockets.bound) × RefusedSize 4 sockets.calls)
      (λ _. ⊥)
      (udp_setup_socket_bound granted 61000 (pos 65535) (pos 65535) sockets)
udp_example = udp_setup_socket_bound-Opened granted 61000 (pos 65535) (pos 65535) sockets

-- the fifth call, `connect`, is interrupted once
abbrev slow : Sockets
slow = record sockets { calls = done ∷ done ∷ done ∷ done ∷ interrupted ∷ [] }

abbrev sistema : Sistema
sistema = record {
  pid = 4242;
  generator = λ seed k. seed + k;
  granted = granted;
  signal = λ signo. true;
}

signalled_example :
    Ends
      (λ _ _. ⊥)
      (λ code t. (code ≡ 0) × ((port : ℕ) → check_port port t.coppiafd ≡ false))
      (λ _. ⊥)
      (select_loop (ignored 2 (signalled ∷ [])) (net true 50 []))
signalled_example = select_loop-signalled 2 [] (net true 50 [])

-- The emulator with two rounds before a signal, and enough memory.
abbrev busy : Ritardatore
busy = record (net true 50 []) {
  mallocs = 100;
  selects = pronti (λ fd. true) ∷ pronti (λ fd. false) ∷ signalled ∷ [];
}

-- the number of body packets
abbrev one_body : List ℕ → ℕ
one_body b = if tipo_is_body (drop 4 b) then 1 else 0

busy_example :
    Run
      (Relayed (λ b. b ≡ body) one_body busy)
      (Relayed (λ b. b ≡ body) one_body busy)
      (main sistema ([] ∷ []) 2 3 busy)
busy_example =
    main-Relayed (λ b. b ≡ body) one_body sistema [] 2 3 (λ counter b. omega arith) refl
      (tt, (refl, tt)) (omega arith)
