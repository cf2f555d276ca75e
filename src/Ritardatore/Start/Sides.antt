-- ===== src/Ritardatore/Start/Sides.antt =====
-- `creazione_nuova_coppia_porte`: the opening of the socket of either side of a pair.
use gproxy.Common.{
  ℕ, ◌+◌, ◌%◌, ◌^◌, ◌≡◌, ◌≢◌, refl, ap, sym, ◌∙◌, ◌⊎◌, inl, inr, Bool, true, false, some, arith,
  List,
}
use mathlib.Core.Path.{subst}
use gproxy.Common.Int.{ℤ, pos}
use gproxy.Common.Outcome.{Cmd, and_then}
use gproxy.Common.Outcome.Ends.{Ends, exits, Ends-mono, Ends-bind, Ends-assoc, Ends-zoom}
use gproxy.Ritardatore.Util.Sockets.{Sockets, CallAnswer}
use gproxy.Ritardatore.Util.Sockets.Calls.{
  SomeWent, SomeRefused, SomeWent-trans, SomeWent-SomeRefused,
}
use gproxy.Ritardatore.Util.Sockets.Setup.{udp_setup_socket_bound}
use gproxy.Ritardatore.Util.Sockets.Opened.{RefusedCall, udp_setup_socket_bound-Opened}
use gproxy.Ritardatore.{Ritardatore, put}
use gproxy.Ritardatore.Channels.{eq-same, eq-other}
use gproxy.Ritardatore.Start.{on_sockets, apri_latosender, apri_latoreceiver}

-- A set-up exits, with these answers to come: one of its calls was refused.
abbrev pub Failing : List CallAnswer → ℕ → Ritardatore → Type 0
Failing calls code t = ((code ≡ 1) ⊎ (code ≡ 5)) × SomeRefused calls

-- A socket more, bound to a port.
pub record Bound (fd port : ℕ) (k l : Sockets) : Type 0 where
  pub next : l.next_fd ≡ k.next_fd + 1
  pub bound : l.bound fd ≡ some port
  pub others : (j : ℕ) → j ≢ fd → l.bound j ≡ k.bound j

put-same : {A : Type 0} (f : ℕ → A) (i : ℕ) (x : A) → put f i x i ≡ x
put-same f i x = rw (eq-same i) refl

put-other : {A : Type 0} (f : ℕ → A) (i j : ℕ) (x : A) → j ≢ i → put f i x j ≡ f j
put-other f i j x ne = rw (eq-other i j ne) refl

opened-Bound :
    {sizes sizes' : ℕ → ℕ} (port : ℕ) (k l : Sockets)
    → l ≡ record k {
      calls = l.calls;
      next_fd = k.next_fd + 1;
      reuse_addr = put k.reuse_addr k.next_fd 1;
      snd_buf = sizes;
      rcv_buf = sizes';
      bound = put k.bound k.next_fd (some (port % 2 ^ 16));
    }
    → Bound k.next_fd (port % 2 ^ 16) k l
opened-Bound port k l e = record {
  next = ap Sockets.next_fd e;
  bound = ap (λ (v : Sockets). v.bound k.next_fd) e ∙ put-same k.bound k.next_fd _;
  others = λ j ne. ap (λ (v : Sockets). v.bound j) e ∙ put-other k.bound k.next_fd j _ ne;
}

-- the call that was refused, of those that the set-up makes
RefusedCall-Some : (n : ℕ) (calls : List CallAnswer) → RefusedCall n calls → SomeRefused calls
RefusedCall-Some n calls (inl r) = (0, r)
RefusedCall-Some n calls (inr (inl r)) = (1, r)
RefusedCall-Some n calls (inr (inr r)) = (2 + n, r)

-- One socket of a pair: `k` is given its result. `before` are the answers that were there first.
after_udp :
    {B : Type 0} {P : B → Ritardatore → Type 0} {W : Ritardatore → Type 0} (granted : ℕ → ℕ)
    (port : ℕ) (before : List CallAnswer) (s : Ritardatore) (k : Bool × ℤ → Cmd Ritardatore B)
    → SomeWent before s.sockets.calls
    → ((l : Sockets)
        → Bound s.sockets.next_fd (port % 2 ^ 16) s.sockets l
        → SomeWent before l.calls
        → Ends P (Failing before) W (k (true, pos s.sockets.next_fd) (record s { sockets = l })))
    → ((fd : ℤ) (t : Ritardatore)
        → SomeRefused before
        → Ends P (Failing before) W (k (false, fd) t))
    → Ends P
        (Failing before)
        W
        (and_then (on_sockets (udp_setup_socket_bound granted port (pos 65535) (pos 65535)) s) k)
after_udp {P} {W} granted port before s k so_far next failing =
    let back = SomeWent-SomeRefused before s.sockets.calls so_far in
    Ends-bind
      (Ends-mono
        (Ends-zoom Ritardatore.sockets (λ s k. record s { sockets = k })
          (udp_setup_socket_bound granted port (pos 65535) (pos 65535)) s
          (udp_setup_socket_bound-Opened granted port (pos 65535) (pos 65535) s.sockets))
        (λ _ _ opened. opened)
        (λ code t (l, e, (failed, same, (n, lt, r))). (inr failed, back (2 + n, r)))
        (λ t (l, e, never). absurd never))
      λ r t (l, e, opened). elim opened [
        | inl (fine, fd, same, went) ↦
            subst (λ b. Ends P (Failing before) W (k (b, r.1) t)) (sym fine)
              (subst (λ z. Ends P (Failing before) W (k (true, z) t)) (sym fd)
                (subst (λ u. Ends P (Failing before) W (k (true, pos s.sockets.next_fd) u)) (sym e)
                  (next l (opened-Bound port s.sockets l same)
                    (SomeWent-trans before s.sockets.calls l.calls so_far (7, went)))))
        | inr (bad, (same, cause)) ↦
            subst (λ b. Ends P (Failing before) W (k (b, r.1) t)) (sym bad)
              (failing r.1 t (back (RefusedCall-Some 4 s.sockets.calls cause)))
      ]

abbrev pub porta_sender : Ritardatore → ℕ
porta_sender s = (s.first_local_port_number_sender_side + s.counter_localport_sender_side) % 2 ^ 16

abbrev pub porta_receiver : Ritardatore → ℕ
porta_receiver s =
    (s.first_local_port_number_receiver_side + s.counter_localport_receiver_side) % 2 ^ 16

-- The states with one side of the pair `i` opened.
abbrev pub con_sender : ℕ → Ritardatore → Sockets → Ritardatore
con_sender i s l =
    let c = put s.coppiafd i (record (s.coppiafd i) { fd_latosender = pos s.sockets.next_fd }) in
    record s {
      sockets = l;
      coppiafd = put c i (record (c i) { port_number_latosender = porta_sender s });
      counter_localport_sender_side = s.counter_localport_sender_side + 1;
    }

abbrev pub con_receiver : ℕ → Ritardatore → Sockets → Ritardatore
con_receiver i s l =
    let c = put s.coppiafd i (record (s.coppiafd i) { fd_latoreceiver = pos s.sockets.next_fd }) in
    record s {
      sockets = l;
      coppiafd = put c i (record (c i) { port_number_latoreceiver = porta_receiver s });
      counter_localport_receiver_side = s.counter_localport_receiver_side + 1;
    }

word_port : (port : ℕ) → port % 2 ^ 16 % 2 ^ 16 ≡ port % 2 ^ 16
word_port port = omega arith

-- Behind the opening of one side.
module _ (granted : ℕ → ℕ) {B : Type 0} {P : B → Ritardatore → Type 0} {W : Ritardatore → Type 0}
    (before : List CallAnswer) (i : ℕ) (s : Ritardatore) (k : Unit {0} → Cmd Ritardatore B)
    (so_far : SomeWent before s.sockets.calls) where
  pub after_sender :
      ((l : Sockets)
        → Bound s.sockets.next_fd (porta_sender s) s.sockets l
        → SomeWent before l.calls
        → Ends P (Failing before) W (k tt (con_sender i s l)))
      → Ends P (Failing before) W (and_then (apri_latosender granted i s) k)
  unfolding apri_latosender
  after_sender next =
      Ends-assoc
        (on_sockets (udp_setup_socket_bound granted (porta_sender s) (pos 65535) (pos 65535)) s) _ k
        (after_udp granted (porta_sender s) before s _ so_far
          (λ l b went.
            next l (subst (λ p. Bound s.sockets.next_fd p s.sockets l) (word_port _) b) went)
          (λ fd t cause. exits (inl refl, cause)))

  pub after_receiver :
      ((l : Sockets)
        → Bound s.sockets.next_fd (porta_receiver s) s.sockets l
        → SomeWent before l.calls
        → Ends P (Failing before) W (k tt (con_receiver i s l)))
      → Ends P (Failing before) W (and_then (apri_latoreceiver granted i s) k)
  unfolding apri_latoreceiver
  after_receiver next =
      Ends-assoc
        (on_sockets (udp_setup_socket_bound granted (porta_receiver s) (pos 65535) (pos 65535)) s) _
        k
        (after_udp granted (porta_receiver s) before s _ so_far
          (λ l b went.
            next l (subst (λ p. Bound s.sockets.next_fd p s.sockets l) (word_port _) b) went)
          (λ fd t cause. exits (inl refl, cause)))
