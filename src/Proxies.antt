-- ===== src/Proxies.antt =====
-- The two proxies together: src/psender.c, a network between them, and src/preceiver.c. The
-- network may lose, repeat, delay and reorder datagrams, and add others than body packets.
pub mod Ports
use gproxy.Common.{
  ℕ, ◌+◌, ◌*◌, ◌^◌, ◌≤◌, ◌<◌, ◌≡◌, ap, sym, ◌∙◌, Option, List, [], ◌∷◌, ◌++◌, length, map, arith,
  true, ltb,
}
use mathlib.Core.Path.{subst}
use mathlib.Core.List.{Memᴰ}
use mathlib.Core.List.Memᴰ
use gproxy.Common.Int.{pos_part}
use gproxy.Common.Outcome.Run.{Run, chain, Run-both, Leaves, Run-Leaves}
use gproxy.Common.Outcome.Exits.{ReturnsOrExits-Run}
use gproxy.Source.{Carried, delivered}
use gproxy.Wire.{body_type, ip_addr_strlen}
use gproxy.Wire.Decimal.{atoi}
use gproxy.PacketList.Heap.{Pkt}
use gproxy.PacketList.Alloc.{IsSound}
use gproxy.Psender.{Psender, Datagram}
use gproxy.Psender.Main as SenderSide
use gproxy.Psender.Init as SenderInit
use gproxy.Psender.Init.{init-Ready}
use gproxy.Psender.Receive.{Holds}
use gproxy.Psender.Stream.{reads, source_of, AllFit, joined, delivered-joined}
use gproxy.Psender.Safety.{AllCarried, Sound}
use gproxy.Psender.Safety.Rounds.{main_loop-AllCarried}
use gproxy.Preceiver.{Preceiver, UdpAnswer, packet, nothing}
use gproxy.Preceiver.Main as ReceiverSide
use gproxy.Preceiver.Init as ReceiverInit
use gproxy.Preceiver.Init.{init-Inv}
use gproxy.Preceiver.Safety.{AllValid, Prefix}
use gproxy.Preceiver.Safety.Rounds.{main_loop-Prefix}

-- a body packet is one of those that were sent
abbrev IsFrom : List Datagram → UdpAnswer → Type 0
IsFrom sent (packet k) = k.type ≡ body_type → Memᴰ k (map Datagram.packet sent)
IsFrom sent UdpAnswer.interrupted = Unit {0}
IsFrom sent nothing = Unit {0}
IsFrom sent UdpAnswer.failed = Unit {0}

abbrev pub AllFrom : List Datagram → List UdpAnswer → Type 0
AllFrom sent [] = Unit {0}
AllFrom sent (a ∷ later) = IsFrom sent a × AllFrom sent later

-- what the receiver has got is the beginning of the bytes
abbrev pub Begins : List ℕ → Preceiver → Type 0
Begins bytes r = (rest : List ℕ) × (r.stream ++ rest ≡ bytes)

Carried-member :
    (source : ℕ → List ℕ) (sent : List Datagram) (k : Pkt)
    → AllCarried source sent
    → Memᴰ k (map Datagram.packet sent)
    → Carried source k
Carried-member source [] k a m = absurd (Memᴰ.not-nil m)
Carried-member source (d ∷ sent) k a (Memᴰ.head e) = subst (Carried source) (sym e) a.0
Carried-member source (d ∷ sent) k a (Memᴰ.tail m) = Carried-member source sent k a.1 m

AllFrom-AllValid :
    (source : ℕ → List ℕ) (sent : List Datagram) (script : List UdpAnswer)
    → AllCarried source sent
    → AllFrom sent script
    → AllValid source script
AllFrom-AllValid source sent [] a f = tt
AllFrom-AllValid source sent (packet k ∷ later) a f = (
  (λ body. Carried-member source sent k a (f.0 body) body),
  AllFrom-AllValid source sent later a f.1,
)
AllFrom-AllValid source sent (UdpAnswer.interrupted ∷ later) a f =
    (tt, AllFrom-AllValid source sent later a f.1)
AllFrom-AllValid source sent (nothing ∷ later) a f = (tt, AllFrom-AllValid source sent later a f.1)
AllFrom-AllValid source sent (UdpAnswer.failed ∷ later) a f =
    (tt, AllFrom-AllValid source sent later a f.1)

Prefix-Begins :
    (chunks : List (List ℕ)) (r : Preceiver)
    → Prefix (source_of chunks) r
    → Begins (joined chunks) r
Prefix-Begins chunks r (count, e) =
    let (rest, e') = delivered-joined count chunks in (rest, ap (λ l. l ++ rest) e ∙ e')

-- what `init` leaves of the start
record Started (s t : Psender) : Type 0 where
  holds : Holds t []
  room : t.memory.fresh + length t.tcp ≤ t.memory.limit
  tcp : t.tcp ≡ s.tcp
  first : t.current_id ≡ 1
  none_yet : t.sent ≡ []
  behind : 5 ≤ length t.behind_ending

pub psender-AllCarried :
    (s : Psender) (inet_aton : List ℕ → Option ℕ) (calls : SenderInit.Setup)
    (name address window : List ℕ) (more : List (List ℕ)) (rounds : ℕ)
    → length address < ip_addr_strlen
    → IsSound s.memory
    → s.memory.fresh + 1 + length s.tcp ≤ s.memory.limit
    → s.current_id ≡ 1
    → s.sent ≡ []
    → 5 ≤ length s.behind_ending
    → AllFit s.tcp
    → length (reads s.tcp) + 1 < 2 ^ 32
    → Run
        (Sound (reads s.tcp))
        (Sound (reads s.tcp))
        (SenderSide.main inet_aton calls (name ∷ address ∷ window ∷ more) rounds s)
unfolding SenderSide.main SenderSide.copy_address
psender-AllCarried s inet_aton calls name address window more rounds fits sound room first none_yet
      behind fit few =
    let test : ltb (length address) ip_addr_strlen ≡ true = ground arith in
    rw test (
      chain
        (ReturnsOrExits-Run {P = Started s}
          (init-Ready (record s { to_rit_address = inet_aton address; max_packets = atoi window })
            calls sound (omega arith))
          (λ _ t ready. record {
            holds = ready.empty;
            room = omega (arith, room, ready.grown.0, ready.grown.1, ap length ready.kept.3);
            tcp = ready.kept.3;
            first = ready.kept.0 ∙ first;
            none_yet = ready.kept.4 ∙ none_yet;
            behind = subst (λ (l : List ℕ). 5 ≤ length l) (sym ready.kept.5) behind;
          })
          (λ t same. subst (AllCarried (source_of (reads s.tcp))) (sym (same ∙ none_yet)) tt))
        λ _ t started.
          subst (λ l. Run (Sound (reads l)) (Sound (reads l)) (SenderSide.main_loop rounds t))
            started.tcp
            (main_loop-AllCarried rounds started.holds started.room
              (subst AllFit (sym started.tcp) fit) started.first
              (omega (arith, few, ap (λ l. length (reads l)) started.tcp)) started.none_yet
              started.behind))

-- What holds of a preceiver that starts, with memory for its lists and `n` nodes more.
pub record Fresh (n : ℕ) (r : Preceiver) : Type 0 where
  pub sound : IsSound r.memory
  pub room : r.memory.fresh + 2 + n ≤ r.memory.limit
  pub first : r.last_sent_id ≡ 1
  pub none_yet : r.stream ≡ []
  pub whole : r.tcp ≡ []

-- src/preceiver.c from its start, with datagrams of a source.
preceiver-Prefix :
    (source : ℕ → List ℕ) (r : Preceiver) (inet_aton : List ℕ → Option ℕ)
    (calls : ReceiverInit.Setup) (name address window : List ℕ) (more : List (List ℕ)) (rounds : ℕ)
    → length address < ip_addr_strlen
    → Fresh (rounds * pos_part (atoi window)) r
    → AllValid source r.udp
    → Run
        (Prefix source)
        (Prefix source)
        (ReceiverSide.main inet_aton calls (name ∷ address ∷ window ∷ more) rounds r)
unfolding ReceiverSide.main ReceiverSide.copy_address delivered
preceiver-Prefix source r inet_aton calls name address window more rounds fits start valid =
    let test : ltb (length address) ip_addr_strlen ≡ true = ground arith in
    let args : Preceiver = record r {
      to_rit_address = inet_aton address;
      max_packets = atoi window;
    } in
    rw test (
      chain
        (ReturnsOrExits-Run {P = λ t. ReceiverInit.Ready source args t}
          (init-Inv source args calls start.sound (omega (arith, start.room)) start.first
            start.none_yet)
          (λ _ t ready. ready) (λ t same. (0, same ∙ start.none_yet)))
        λ _ t ready.
          main_loop-Prefix rounds ready.empty (subst (AllValid source) (sym ready.kept.0) valid)
            (ready.kept.1 ∙ start.whole)
            (subst (λ m. t.memory.fresh + rounds * pos_part m ≤ t.memory.limit) (sym ready.kept.2)
              (omega (arith, start.room, ready.grown.0, ready.grown.1))))

-- Both processes from their starts, with addresses that fit their arrays. Of the psender: the first
-- id is 1, nothing is sent yet, its reads each bring something and leave the header's size free in a
-- packet, they are fewer than 2 ^ 32 - 1, there is memory for the list and a node for each answer of
-- the connection, and five bytes can be read behind `endingBody`. Of the preceiver: nothing has come
-- yet, and there is memory for its lists and, in each round, as many nodes as the window. Whatever state the psender
-- has reached, if the body packets that reach the preceiver are among those that were sent, in any
-- order, repeated or missing, and the receiver's socket takes every byte: the preceiver goes on or
-- ends without fault and with fuel left, and what the receiver has got is the beginning of the
-- bytes that the sender has sent, in order, without gap or repetition.
pub main-Begins :
    (s : Psender) {t : Psender} (r : Preceiver) (inet_aton : List ℕ → Option ℕ)
    (calls : SenderInit.Setup) (calls' : ReceiverInit.Setup) (name address window : List ℕ)
    (name' address' window' : List ℕ) (rounds rounds' : ℕ)
    → length address < ip_addr_strlen
    → length address' < ip_addr_strlen
    → IsSound s.memory
    → s.memory.fresh + 1 + length s.tcp ≤ s.memory.limit
    → s.current_id ≡ 1
    → s.sent ≡ []
    → 5 ≤ length s.behind_ending
    → AllFit s.tcp
    → length (reads s.tcp) + 1 < 2 ^ 32
    → Fresh (rounds' * pos_part (atoi window')) r
    → Leaves t (SenderSide.main inet_aton calls (name ∷ address ∷ window ∷ []) rounds s)
    → AllFrom t.sent r.udp
    → Run
        (Begins (joined (reads s.tcp)))
        (Begins (joined (reads s.tcp)))
        (ReceiverSide.main inet_aton calls' (name' ∷ address' ∷ window' ∷ []) rounds' r)
main-Begins s {t} r inet_aton calls calls' name address window name' address' window' rounds rounds'
      fits fits' sound room first none_yet behind fit few start left arrives =
    let sent =
      Run-Leaves
        (psender-AllCarried s inet_aton calls name address window [] rounds fits sound room first
          none_yet behind fit few)
        left in
    let chunks = reads s.tcp in
    Run-both
      (preceiver-Prefix (source_of chunks) r inet_aton calls' name' address' window' [] rounds'
        fits' start (AllFrom-AllValid (source_of chunks) t.sent r.udp sent arrives))
      (Prefix-Begins chunks)
