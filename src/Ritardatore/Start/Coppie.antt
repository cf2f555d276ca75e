-- ===== src/Ritardatore/Start/Coppie.antt =====
-- `creazione_nuova_coppia_porte`: the pair that it opens.
use gproxy.Common.{ℕ, zero, suc, ◌+◌, ◌<◌, ◌≡◌, ◌≢◌, refl, ap, sym, ◌∙◌, true, false, some, arith}
use mathlib.Core.Path.{subst}
use gproxy.Common.Int.{pos}
use gproxy.Common.Outcome.Returns
use gproxy.Common.Outcome.Returns.{Returns, returns}
use gproxy.Common.Outcome.Ends.{Ends, ends}
use gproxy.Ritardatore.Util.Sockets.{Sockets}
use gproxy.Ritardatore.Util.Sockets.Calls.{SomeWent}
use gproxy.Ritardatore.{Ritardatore, max_num_connections}
use gproxy.Ritardatore.Channels.{eq-same, eq-other}
use gproxy.Ritardatore.Start.{attiva, crea_loop, creazione_nuova_coppia_porte}
use gproxy.Ritardatore.Start.Sides.{
  Failing, porta_sender, porta_receiver, con_sender, con_receiver, after_sender, after_receiver,
}

-- After the opening of the pair `i`.
pub record Aperta (i : ℕ) (s t : Ritardatore) : Type 0 where
  pub attivo : (t.coppiafd i).attivo ≡ true
  pub sender : (t.coppiafd i).fd_latosender ≡ pos s.sockets.next_fd
  pub receiver : (t.coppiafd i).fd_latoreceiver ≡ pos (s.sockets.next_fd + 1)
  pub port_sender : (t.coppiafd i).port_number_latosender ≡ porta_sender s
  pub port_receiver : (t.coppiafd i).port_number_latoreceiver ≡ porta_receiver s
  pub spedisce : (t.coppiafd i).stato_trasmissione ≡ true
  pub others : (j : ℕ) → j ≢ i → t.coppiafd j ≡ s.coppiafd j
  pub bound :
      (t.sockets.bound s.sockets.next_fd ≡ some (porta_sender s))
      × (t.sockets.bound (s.sockets.next_fd + 1) ≡ some (porta_receiver s))
  pub watched : (t.all_fds s.sockets.next_fd ≡ true) × (t.all_fds (s.sockets.next_fd + 1) ≡ true)
  pub next : t.sockets.next_fd ≡ s.sockets.next_fd + 2
  pub kept : (fd : ℕ) → fd < s.sockets.next_fd → t.sockets.bound fd ≡ s.sockets.bound fd
  pub went : SomeWent s.sockets.calls t.sockets.calls
  pub counted :
      (t.counter_localport_sender_side ≡ s.counter_localport_sender_side + 1)
      × (t.counter_localport_receiver_side ≡ s.counter_localport_receiver_side + 1)
  pub first :
      (t.first_local_port_number_sender_side ≡ s.first_local_port_number_sender_side)
      × (t.first_local_port_number_receiver_side ≡ s.first_local_port_number_receiver_side)

-- After `attiva` of a pair with the descriptors `a` and `b`.
record Attivata (i a b : ℕ) (u t : Ritardatore) : Type 0 where
  pair :
      ((t.coppiafd i).attivo ≡ true)
      × ((t.coppiafd i).stato_trasmissione ≡ true)
      × ((t.coppiafd i).fd_latosender ≡ pos a)
      × ((t.coppiafd i).fd_latoreceiver ≡ pos b)
      × ((t.coppiafd i).port_number_latosender ≡ (u.coppiafd i).port_number_latosender)
      × ((t.coppiafd i).port_number_latoreceiver ≡ (u.coppiafd i).port_number_latoreceiver)
  others : (j : ℕ) → j ≢ i → t.coppiafd j ≡ u.coppiafd j
  watched : (t.all_fds a ≡ true) × (t.all_fds b ≡ true)
  rest : t ≡ record u {
    coppiafd = t.coppiafd;
    all_fds = t.all_fds;
    maxfd = t.maxfd;
    letture = suc u.letture;
  }

attiva-Attivata :
    (i a b sec : ℕ) (u : Ritardatore)
    → (u.coppiafd i).fd_latosender ≡ pos a
    → (u.coppiafd i).fd_latoreceiver ≡ pos b
    → Returns (λ _ t. Attivata i a b u t) (attiva i sec u)
unfolding attiva
attiva-Attivata i a b sec u e e' =
    rw (e, e')
      (returns (record {
        pair = rw (eq-same i) (refl, refl, refl, refl, refl, refl);
        others = λ j ne. rw (eq-other i j ne) refl;
        watched = ground arith;
        rest = refl;
      }))

-- The two sides opened, one after the other.
abbrev con_both : ℕ → Ritardatore → Sockets → Sockets → Ritardatore
con_both i s l l' = con_receiver i (con_sender i s l) l'

con_both-pair :
    (i : ℕ) (s : Ritardatore) (l l' : Sockets)
    → (((con_both i s l l').coppiafd i).fd_latosender ≡ pos s.sockets.next_fd)
      × (((con_both i s l l').coppiafd i).fd_latoreceiver ≡ pos l.next_fd)
      × (((con_both i s l l').coppiafd i).port_number_latosender ≡ porta_sender s)
      × (((con_both i s l l').coppiafd i).port_number_latoreceiver ≡ porta_receiver s)
con_both-pair i s l l' = rw (eq-same i) (refl, refl, refl, refl)

con_both-others :
    (i : ℕ) (s : Ritardatore) (l l' : Sockets) (j : ℕ)
    → j ≢ i
    → (con_both i s l l').coppiafd j ≡ s.coppiafd j
con_both-others i s l l' j ne = rw (eq-other i j ne) refl

-- In a state where the pair `i` is not active.
crea-Aperta :
    (granted : ℕ → ℕ) (n i sec : ℕ) (s : Ritardatore)
    → (s.coppiafd i).attivo ≡ false
    → Ends
        (λ _ t. Aperta i s t)
        (Failing s.sockets.calls)
        (λ _. ⊥)
        (crea_loop granted (suc n) i sec s)
unfolding crea_loop
crea-Aperta granted n i sec s off = rw off (
    let calls = s.sockets.calls in
    after_sender granted calls i s _ (0, (refl, refl))
      λ l b went. after_receiver granted calls i (con_sender i s l) _ went λ l' b' went'.
        let u = con_both i s l l' in
        let fds = con_both-pair i s l l' in
        let (x, t, runs, made) =
          Returns.result (attiva-Attivata i s.sockets.next_fd l.next_fd sec u fds.0 fds.1) in
        let pair = con_both-pair i s l l' in
        let sockets = ap Ritardatore.sockets made.rest in
        rw runs (
          ends (record {
            attivo = made.pair.0;
            sender = made.pair.2;
            receiver = made.pair.3 ∙ ap pos b.next;
            port_sender = made.pair.4 ∙ pair.2;
            port_receiver = made.pair.5 ∙ pair.3;
            spedisce = made.pair.1;
            others = λ j ne. made.others j ne ∙ con_both-others i s l l' j ne;
            bound = (
              ap (λ (k : Sockets). k.bound s.sockets.next_fd) sockets
                  ∙ b'.others s.sockets.next_fd (omega (arith, b.next))
                  ∙ b.bound,
              ap (λ (k : Sockets). k.bound (s.sockets.next_fd + 1)) sockets
                  ∙ ap l'.bound (sym b.next)
                  ∙ b'.bound,
            );
            watched = (made.watched.0, ap t.all_fds (sym b.next) ∙ made.watched.1);
            kept = λ fd lt.
                ap (λ (k : Sockets). k.bound fd) sockets
                ∙ b'.others fd (λ e. absurd (omega (arith, lt, b.next, e)))
                ∙ b.others fd (λ e. absurd (omega (arith, lt, e)));
            went = subst (λ (k : Sockets). SomeWent s.sockets.calls k.calls) (sym sockets) went';
            next = ap (λ (k : Sockets). k.next_fd) sockets ∙ omega (arith, b.next, b'.next);
            counted = (
              ap Ritardatore.counter_localport_sender_side made.rest,
              ap Ritardatore.counter_localport_receiver_side made.rest,
            );
            first = (
              ap Ritardatore.first_local_port_number_sender_side made.rest,
              ap Ritardatore.first_local_port_number_receiver_side made.rest,
            );
          })))

-- `creazione_nuova_coppia_porte` opens the first pair that is not active: it makes the pair active
-- and sending, with two new sockets bound to the next port of each side, both of them watched, and
-- leaves the other pairs; or it exits with 1 or
-- 5 when a call of the set-up is refused.
pub creazione_nuova_coppia_porte-Aperta :
    (granted : ℕ → ℕ) (sec i : ℕ) (s : Ritardatore)
    → i < max_num_connections
    → ((j : ℕ) → j < i → (s.coppiafd j).attivo ≡ true)
    → (s.coppiafd i).attivo ≡ false
    → Ends
        (λ _ t. Aperta i s t)
        (Failing s.sockets.calls)
        (λ _. ⊥)
        (creazione_nuova_coppia_porte granted sec s)
unfolding creazione_nuova_coppia_porte crea_loop
creazione_nuova_coppia_porte-Aperta granted sec zero s lt before off =
    crea-Aperta granted 2 0 sec s off
creazione_nuova_coppia_porte-Aperta granted sec (suc zero) s lt before off =
    rw (before 0 (omega arith)) (crea-Aperta granted 1 1 sec s off)
creazione_nuova_coppia_porte-Aperta granted sec (suc (suc zero)) s lt before off =
    rw (before 0 (omega arith), before 1 (omega arith)) (crea-Aperta granted 0 2 sec s off)
creazione_nuova_coppia_porte-Aperta granted sec (suc (suc (suc i))) s lt before off =
    absurd (omega arith)
