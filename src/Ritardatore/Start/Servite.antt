-- ===== src/Ritardatore/Start/Servite.antt =====
-- The ports that are served once main of src/ritardatore/Ritardatore.c has made its pairs.
use gproxy.Common.{
  ℕ, zero, suc, ◌+◌, ◌*◌, ◌%◌, ◌^◌, ◌≤◌, ◌<◌, ◌≡◌, ◌≢◌, refl, ap, sym, ◌∙◌, ◌⊎◌, inl, inr, Bool,
  true, false, some, List, arith, ◌==◌, Bool-cases,
}
use mathlib.Core.Path.{subst}
use gproxy.Common.Int.{ℤ, pos}
use gproxy.Common.Outcome.{Cmd, and_then}
use gproxy.Common.Outcome.Exits.{require}
use gproxy.Common.Outcome.Ends.{Ends, ends, exits, Ends-mono, Ends-bind}
use gproxy.Ritardatore.Util.Sockets.{Sockets, CallAnswer}
use gproxy.Ritardatore.Util.Sockets.Calls.{SomeWent, SomeWent-trans, SomeWent-SomeRefused}
use gproxy.Ritardatore.{Ritardatore, Coppia, put, serves, check_port, max_num_connections}
use gproxy.Ritardatore.Channels.{check_port-serves}
use gproxy.Ritardatore.Start.Sides.{Failing}
use gproxy.Ritardatore.Start.Coppie.{Aperta, creazione_nuova_coppia_porte-Aperta}
use gproxy.Ritardatore.Start.Loop.{Sistema, crea_tutte, prepara}

-- the ports of the `j`-th pair
abbrev pub porta_sender : Ritardatore → ℕ → ℕ
porta_sender s j =
    (s.first_local_port_number_sender_side + (s.counter_localport_sender_side + j)) % 2 ^ 16

abbrev pub porta_receiver : Ritardatore → ℕ → ℕ
porta_receiver s j =
    (s.first_local_port_number_receiver_side + (s.counter_localport_receiver_side + j)) % 2 ^ 16

-- An open pair with these ports, to which its two sockets are bound.
pub record Servita (port port' : ℕ) (k : Sockets) (c : Coppia) : Type 0 where
  pub attivo : c.attivo ≡ true
  pub sender : c.port_number_latosender ≡ port
  pub receiver : c.port_number_latoreceiver ≡ port'
  pub fd : ℕ
  pub fd' : ℕ
  pub fd_sender : c.fd_latosender ≡ pos fd
  pub fd_receiver : c.fd_latoreceiver ≡ pos fd'
  pub positive : (0 < fd) × (0 < fd')
  pub bound : (k.bound fd ≡ some port) × (k.bound fd' ≡ some port')
  pub below : (fd < k.next_fd) × (fd' < k.next_fd)

-- The first `k` pairs are made, the others are not active.
record Pronte (k : ℕ) (s t : Ritardatore) : Type 0 where
  aperte :
      (j : ℕ) → j < k → Servita (porta_sender s j) (porta_receiver s j) t.sockets (t.coppiafd j)
  chiuse : (j : ℕ) → k ≤ j → j < max_num_connections → (t.coppiafd j).attivo ≡ false
  counted :
      (t.counter_localport_sender_side ≡ s.counter_localport_sender_side + k)
      × (t.counter_localport_receiver_side ≡ s.counter_localport_receiver_side + k)
  first :
      (t.first_local_port_number_sender_side ≡ s.first_local_port_number_sender_side)
      × (t.first_local_port_number_receiver_side ≡ s.first_local_port_number_receiver_side)
  positive : 0 < t.sockets.next_fd
  went : SomeWent s.sockets.calls t.sockets.calls

Aperta-Pronte :
    (k : ℕ) (s t u : Ritardatore)
    → k < max_num_connections
    → Pronte k s t
    → Aperta k t u
    → Pronte (suc k) s u
Aperta-Pronte k s t u lt p a = record {
  aperte = λ j less. elim (Bool-cases (j == k)) [
    | inl same ↦
        let e : k ≡ j = ground arith in
        subst (λ n. Servita (porta_sender s n) (porta_receiver s n) u.sockets (u.coppiafd n)) e
          (record {
            attivo = a.attivo;
            sender = a.port_sender ∙ ap (λ n. n % 2 ^ 16) (omega (arith, p.counted.0, p.first.0));
            receiver =
                a.port_receiver ∙ ap (λ n. n % 2 ^ 16) (omega (arith, p.counted.1, p.first.1));
            fd = t.sockets.next_fd;
            fd' = t.sockets.next_fd + 1;
            fd_sender = a.sender;
            fd_receiver = a.receiver;
            positive = (p.positive, omega arith);
            bound = (
              a.bound.0 ∙ ap (λ n. some (n % 2 ^ 16)) (omega (arith, p.counted.0, p.first.0)),
              a.bound.1 ∙ ap (λ n. some (n % 2 ^ 16)) (omega (arith, p.counted.1, p.first.1)),
            );
            below = (omega (arith, a.next), omega (arith, a.next));
          })
    | inr other ↦
        let ne : j ≢ k = λ e. ground arith in
        let v = p.aperte j (omega (arith, ne)) in
        subst (Servita (porta_sender s j) (porta_receiver s j) u.sockets) (sym (a.others j ne))
          (record {
            attivo = v.attivo;
            sender = v.sender;
            receiver = v.receiver;
            fd = v.fd;
            fd' = v.fd';
            fd_sender = v.fd_sender;
            fd_receiver = v.fd_receiver;
            positive = v.positive;
            bound = (a.kept v.fd v.below.0 ∙ v.bound.0, a.kept v.fd' v.below.1 ∙ v.bound.1);
            below = (omega (arith, a.next, v.below.0), omega (arith, a.next, v.below.1));
          })
  ];
  chiuse = λ j le less.
      ap Coppia.attivo (a.others j (λ e. absurd (omega (arith, e))))
      ∙ p.chiuse j (omega arith) less;
  counted = (omega (arith, a.counted.0, p.counted.0), omega (arith, a.counted.1, p.counted.1));
  first = (a.first.0 ∙ p.first.0, a.first.1 ∙ p.first.1);
  positive = omega (arith, a.next, p.positive);
  went = SomeWent-trans s.sockets.calls t.sockets.calls u.sockets.calls p.went a.went;
}

crea_tutte-Pronte :
    (granted : ℕ → ℕ) (n k : ℕ) (s t : Ritardatore)
    → k + n ≡ max_num_connections
    → Pronte k s t
    → Ends (λ _. Pronte (k + n) s) (Failing s.sockets.calls) (λ _. ⊥) (crea_tutte granted n k t)
unfolding crea_tutte
crea_tutte-Pronte granted zero k s t e p = ends (subst (λ m. Pronte m s t) (omega arith) p)
crea_tutte-Pronte granted (suc n) k s t e p =
    Ends-bind
      (Ends-mono
        (creazione_nuova_coppia_porte-Aperta granted (5 + k * 10) k t (omega (arith, e))
          (λ j lt. (p.aperte j lt).attivo) (p.chiuse k (omega arith) (omega (arith, e))))
        (λ _ _ a. a)
        (λ code _ (which, cause).
          (which, SomeWent-SomeRefused s.sockets.calls t.sockets.calls p.went cause))
        (λ _ never. never))
      λ _ u a.
        subst
          (λ m.
            Ends (λ _. Pronte m s) (Failing s.sockets.calls) (λ _. ⊥)
              (crea_tutte granted n (suc k) u))
          (omega arith)
          (crea_tutte-Pronte granted n (suc k) s u (omega (arith, e))
            (Aperta-Pronte k s t u (omega (arith, e)) p a))

Servita-serves :
    {port port' : ℕ} {k : Sockets} {c : Coppia}
    → Servita port port' k c
    → (serves port c ≡ true) × (serves port' c ≡ true)
unfolding serves
Servita-serves {port} {port'} {c} v =
    rw (v.attivo, v.fd_sender, v.fd_receiver, v.sender, v.receiver)
      (ground (arith, v.positive.0, v.positive.1), ground (arith, v.positive.0, v.positive.1))

-- The change of the first pair's creation time is no matter.
older :
    (coppie : ℕ → Coppia) (sec : ℕ) {port port' : ℕ} {k : Sockets} (j : ℕ)
    → Servita port port' k (coppie j)
    → Servita port port' k (put coppie 0 (record (coppie 0) { sec_istcreazione = sec }) j)
older coppie sec {port} {port'} {k} j v = elim (Bool-cases (j == 0)) [
  | inl first ↦
      let e : 0 ≡ j = ground arith in
      rw first (
        subst (λ n. Servita port port' k (record (coppie n) { sec_istcreazione = sec })) (sym e)
          (record {
            attivo = v.attivo;
            sender = v.sender;
            receiver = v.receiver;
            fd = v.fd;
            fd' = v.fd';
            fd_sender = v.fd_sender;
            fd_receiver = v.fd_receiver;
            positive = v.positive;
            bound = v.bound;
            below = v.below;
          }))
  | inr later ↦ rw later v
]

-- The start exits, with these answers to come: with 2 when one of the three signals cannot be
-- handled, and with 1 or 5 when a call of a set-up is refused.
abbrev pub StartFailing : Sistema → List CallAnswer → ℕ → Ritardatore → Type 0
StartFailing sistema calls code t =
    (code ≡ 2)
      × ((sistema.signal 1 ≡ false) ⊎ ((sistema.signal 2 ≡ false) ⊎ (sistema.signal 15 ≡ false)))
    ⊎ Failing calls code t

-- `signal` and what follows it.
after_signal :
    {P : Unit {0} → Ritardatore → Type 0} {Q : ℕ → Ritardatore → Type 0} (b : Bool)
    (s : Ritardatore) (k : Unit {0} → Cmd Ritardatore (Unit {0}))
    → (b ≡ false → Q 2 s)
    → Ends P Q (λ _. ⊥) (k tt s)
    → Ends P Q (λ _. ⊥) (and_then (require 2 b s) k)
after_signal true s k exit run = run
after_signal false s k exit run = exits (exit refl)

-- The `j`-th pair is served: both its ports pass, and its sockets are bound to them.
pub record Passa (port port' j : ℕ) (t : Ritardatore) : Type 0 where
  pub sender : check_port port t.coppiafd ≡ true
  pub receiver : check_port port' t.coppiafd ≡ true
  pub served : Servita port port' t.sockets (t.coppiafd j)

abbrev pub Passano : Ritardatore → Ritardatore → Type 0
Passano s t = (j : ℕ) → j < max_num_connections → Passa (porta_sender s j) (porta_receiver s j) j t

-- From a state whose next descriptor is not 0: main of the ritardatore, up to its loop, opens
-- three pairs, each with two sockets that are bound to the next port of either side, and all the
-- six ports pass `check_port` then; or it exits with 2 when one of the three signals cannot be
-- handled, and with 1 or 5 when a call of a set-up is refused.
pub prepara-Passano :
    (sistema : Sistema) (seme : ℤ) (s : Ritardatore)
    → 0 < s.sockets.next_fd
    → Ends (λ _. Passano s) (StartFailing sistema s.sockets.calls) (λ _. ⊥) (prepara sistema seme s)
unfolding prepara
prepara-Passano sistema seme s positive =
    after_signal (sistema.signal 1) _ _ (λ e. inl (refl, inl e))
      (after_signal (sistema.signal 2) _ _ (λ e. inl (refl, inr (inl e)))
        (after_signal (sistema.signal 15) _ _ (λ e. inl (refl, inr (inr e)))
          (Ends-bind
            (Ends-mono
              (crea_tutte-Pronte sistema.granted max_num_connections 0 s _ refl (record {
                aperte = λ j lt. absurd (omega arith);
                chiuse = λ j le lt. ground arith;
                counted = (omega arith, omega arith);
                first = (refl, refl);
                positive = positive;
                went = (0, (refl, refl));
              }))
              (λ _ _ p. p) (λ _ _ code. inr code) (λ _ never. never))
            λ _ t p. ends λ j lt.
              let w = older t.coppiafd _ j (p.aperte j lt) in
              let v = Servita-serves w in
              record {
                sender = (check_port-serves _ _).1 j lt v.0;
                receiver = (check_port-serves _ _).1 j lt v.1;
                served = w;
              })))
