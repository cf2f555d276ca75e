-- ===== src/Ritardatore/Passage/Steps.antt =====
-- The steps of a datagram through the emulator, and the invariant of what passes.
use gproxy.Common.{
  ℕ, suc, ◌+◌, ◌≤◌, ◌≡◌, refl, ap, sym, inl, inr, List, [], ◌∷◌, ◌++◌, length, arith, Bool-cases,
}
use mathlib.Core.Path.{subst}
use gproxy.Ritardatore.{Ritardatore, Comando, Elemento, aggiungi_in_ordine, normalised}
use gproxy.Ritardatore.Util.{minore}
use gproxy.Ritardatore.Passage.{
  Every, Sends, Arrives, Waiting, datagrams, bytes_of, weight_sent, weight_waiting, weight_coming,
  Flow, Passage,
}

Every-snoc :
    {A : Type 0} (P : A → Type 0) (xs : List A) (x : A) → Every P xs → P x → Every P (xs ++ x ∷ [])
Every-snoc P [] x all p = (p, tt)
Every-snoc P (y ∷ ys) x all p = (all.0, Every-snoc P ys x all.1 p)

weight-snoc :
    (weight : List ℕ → ℕ) (cs : List Comando) (c : Comando)
    → weight_sent weight (cs ++ c ∷ []) ≡ weight_sent weight cs + weight (bytes_of c)
weight-snoc weight [] c = omega arith
weight-snoc weight (x ∷ cs) c = omega (arith, weight-snoc weight cs c)

weight-aggiungi :
    (weight : List ℕ → ℕ) (p : Elemento) (es : List Elemento)
    → weight_waiting weight (aggiungi_in_ordine p es)
      ≡ weight (bytes_of p.comando) + weight_waiting weight es
unfolding aggiungi_in_ordine
weight-aggiungi weight p [] = refl
weight-aggiungi weight p (e ∷ es) = elim (Bool-cases (minore p.timeout e.timeout)) [
  | inl before ↦ rw before refl
  | inr after ↦ rw after (omega (arith, weight-aggiungi weight (normalised p) es))
]

aggiungi-Every :
    (D : List ℕ → Type 0) (p : Elemento) (es : List Elemento)
    → Waiting D p
    → Every (Waiting D) es
    → Every (Waiting D) (aggiungi_in_ordine p es)
unfolding aggiungi_in_ordine
aggiungi-Every D p [] w all = (w, tt)
aggiungi-Every D p (e ∷ es) w all = elim (Bool-cases (minore p.timeout e.timeout)) [
  | inl before ↦ rw before (w, all)
  | inr after ↦ rw after (all.0, aggiungi-Every D (normalised p) es w all.1)
]

length-aggiungi :
    (p : Elemento) (es : List Elemento) → length (aggiungi_in_ordine p es) ≡ suc (length es)
unfolding aggiungi_in_ordine
length-aggiungi p [] = refl
length-aggiungi p (e ∷ es) = elim (Bool-cases (minore p.timeout e.timeout)) [
  | inl before ↦ rw before refl
  | inr after ↦ rw after (ap suc (length-aggiungi (normalised p) es))
]

module _ {flow : Flow} {s : Ritardatore} where
  -- A datagram in hand comes to the list, or one no heavier in its place.
  pub Passage-queued :
      {b : List ℕ} (p : Elemento)
      → Passage flow (b ∷ []) s
      → Waiting flow.arrives p
      → flow.weight (bytes_of p.comando) ≤ flow.weight b
      → Passage flow [] (record s { root = aggiungi_in_ordine p s.root })
  Passage-queued p h w lighter = record {
    waiting = aggiungi-Every flow.arrives p s.root w h.waiting;
    sent = h.sent;
    to_come = h.to_come;
    counted = omega (arith, h.counted, length-aggiungi p s.root);
    weighed = omega (arith, h.weighed, lighter, weight-aggiungi flow.weight p s.root);
  }

  -- It is dropped.
  pub Passage-dropped : {b : List ℕ} → Passage flow (b ∷ []) s → Passage flow [] s
  Passage-dropped h = record {
    waiting = h.waiting;
    sent = h.sent;
    to_come = h.to_come;
    counted = omega (arith, h.counted);
    weighed = omega (arith, h.weighed);
  }

  -- It is sent.
  pub Passage-sent :
      (c : Comando)
      → Passage flow (bytes_of c ∷ []) s
      → Sends flow.arrives c
      → Passage flow [] (record s { spediti = s.spediti ++ c ∷ [] })
  Passage-sent c h p = record {
    waiting = h.waiting;
    sent = Every-snoc (Sends flow.arrives) s.spediti c h.sent p;
    to_come = h.to_come;
    counted = omega (arith, h.counted);
    weighed = omega (arith, h.weighed, weight-snoc flow.weight s.spediti c);
  }

  -- The first of the list is taken in hand.
  pub Passage-taken :
      {e : Elemento} {rest : List Elemento}
      → s.root ≡ e ∷ rest
      → Passage flow [] s
      → Waiting flow.arrives e × Passage flow (bytes_of e.comando ∷ []) (record s { root = rest })
  Passage-taken e h =
      let all = subst (Every (Waiting flow.arrives)) e h.waiting in
      (
        all.0,
        record {
          waiting = all.1;
          sent = h.sent;
          to_come = h.to_come;
          counted = omega (arith, h.counted, ap length e);
          weighed = omega (arith, h.weighed, ap (weight_waiting flow.weight) e);
        },
      )

  -- A reading of the clock normalises the first's timeout.
  pub Passage-first :
      (e : Elemento) (rest : List Elemento)
      → s.root ≡ e ∷ rest
      → Passage flow [] s
      → Passage flow [] (record s { letture = suc s.letture; root = normalised e ∷ rest })
  Passage-first e rest same h = record {
    waiting = subst (Every (Waiting flow.arrives)) same h.waiting;
    sent = h.sent;
    to_come = h.to_come;
    counted = omega (arith, h.counted, ap length same);
    weighed = omega (arith, h.weighed, ap (weight_waiting flow.weight) same);
  }

  -- What the invariant is about stays as it is.
  pub Passage-frame :
      {hand : List (List ℕ)} {t : Ritardatore}
      → Passage flow hand s
      → (t.root ≡ s.root) × (t.spediti ≡ s.spediti) × (t.recvs ≡ s.recvs)
      → Passage flow hand t
  Passage-frame h (root, spediti, recvs) = record {
    waiting = subst (Every (Waiting flow.arrives)) (sym root) h.waiting;
    sent = subst (Every (Sends flow.arrives)) (sym spediti) h.sent;
    to_come = subst (Every (Arrives flow.arrives)) (sym recvs) h.to_come;
    counted = omega (arith, h.counted, ap length root, ap datagrams recvs);
    weighed = omega (
      arith,
      h.weighed,
      ap (weight_waiting flow.weight) root,
      ap (weight_sent flow.weight) spediti,
      ap (weight_coming flow.weight) recvs,
    );
  }
